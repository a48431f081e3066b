-- ===== src/Dispatch/Drain/Progress.antt =====
-- The cursor passes an event only when the dispatcher is through with it.
use plecture.Base.{
  ℕ, ◌≤◌, ◌<◌, ◌≡◌, refl, ap, ◌∙◌, sym, subst, true, false, not, ◌&&◌, List, [], ◌∷◌, ◌++◌, Option,
  some, ◌⊎◌, inl, inr, arith, if◌then◌else◌, ◌==◌, All, Bool-cases,
}
use plecture.Events.{Event, matches}
use plecture.Events.Log.{Row, Ordered, rows_from, tail_seq}
use plecture.Events.Log.Paging.{Ordered-rows_from, rows_from-bound, tail_seq-bound, list_events_all}
use plecture.Dispatch.Deliver.{Desk, process_event}
use plecture.Dispatch.Drain.{Drain, Dispatcher, any_event, commit_at, drain_rows, position, drain}

-- From one desk to another a drain goes through events: the context lasts, and none of them is held.
pub data Through (d : Drain) : Desk → List Row → Desk → Type 0 where
  nothing : {desk : Desk} → Through d desk [] desk
  event :
      {desk last : Desk} {r : Row} {rs : List Row}
      → d.ended_before r.event ≡ false
      → d.ended_after r.event ≡ false
      → (process_event d.env r.event desk).1 ≡ false
      → Through d (process_event d.env r.event desk).0 rs last
      → Through d desk (r ∷ rs) last

-- Why a drain stops at an event, and the desk that it leaves: an event before which the context has ended is not begun;
-- one that is held, or at whose end the context has ended, has been processed.
abbrev pub Stops : Drain → Desk → Row → Desk → Type 0
Stops d desk r last =
    ((d.ended_before r.event ≡ true) × (last ≡ desk))
    ⊎ (((d.ended_before r.event ≡ false) × (last ≡ (process_event d.env r.event desk).0))
        × ((d.ended_after r.event ≡ true) ⊎ ((process_event d.env r.event desk).1 ≡ true)))

abbrev pub StopsFirst : Drain → Desk → List Row → Desk → Type 0
StopsFirst d desk [] last = last ≡ desk
StopsFirst d desk (r ∷ rs) last = Stops d desk r last

-- What a drain did with the listed rows: it was through with the first `settled`, it stopped at the first of
-- the `rest`, which leaves the desk `last`, and the cursor is still the old one or does not pass the rest; it is behind the settled
-- if the commit of the last one was successful.
pub record Drained (d : Drain) (end : ℕ) (rows : List Row) (start last : Desk) (old new : Option ℕ)
    : Type 0 where
  pub settled : List Row
  pub rest : List Row
  pub at : Desk
  pub split : rows ≡ settled ++ rest
  pub through : Through d start settled at
  pub stops : StopsFirst d at rest last
  pub idle : settled ≡ [] → new ≡ old
  pub behind : (new ≡ old) ⊎ (position new ≤ commit_at rest end)
  pub committed :
      ((ev : Event) → d.commit_fails ev ≡ false)
      → (settled ≡ []) ⊎ (new ≡ some (commit_at rest end))

-- All rows are before the end of the list, in order.
abbrev pub Bounded : ℕ → List Row → Type 0
Bounded end rows = Ordered rows × All (λ r. r.seq < end) rows

All-back {ℓ} : {A : Type 0} (P : A → Type ℓ) (xs ys : List A) → All P (xs ++ ys) → All P ys
All-back P [] ys h = h
All-back P (x ∷ xs) ys h = All-back P xs ys h.1

commit_at-le :
    (end : ℕ) (front rest : List Row)
    → Bounded end (front ++ rest)
    → commit_at (front ++ rest) end ≤ commit_at rest end
commit_at-le end [] rest b = omega arith
commit_at-le end (f ∷ fs) [] b = omega (arith, b.1.0)
commit_at-le end (f ∷ fs) (r ∷ rs) b =
    omega (arith, (All-back (λ x. f.seq < x.seq) fs (r ∷ rs) b.0.0).0)

stay :
    (d : Drain) (end : ℕ) (r : Row) (rs : List Row) (desk last : Desk) (cursor : Option ℕ)
    → Stops d desk r last
    → Drained d end (r ∷ rs) desk last cursor cursor
stay d end r rs desk last cursor stop = record {
  settled = [];
  rest = r ∷ rs;
  at = desk;
  split = refl;
  through = Through.nothing;
  stops = stop;
  idle = λ q. refl;
  behind = inl refl;
  committed = λ q. inl refl;
}

go :
    (d : Drain) (end : ℕ) (r : Row) (rs : List Row) (desk : Desk) (cursor : Option ℕ)
    → d.ended_before r.event ≡ false
    → d.ended_after r.event ≡ false
    → (process_event d.env r.event desk).1 ≡ false
    → Bounded end rs
    → (let desk' = (process_event d.env r.event desk).0 in
        let cursor' = if d.commit_fails r.event then cursor else some (commit_at rs end) in
        let later = drain_rows d end rs desk' cursor' in
        Drained d end rs desk' later.0 cursor' later.1)
    → let desk' = (process_event d.env r.event desk).0 in
      let cursor' = if d.commit_fails r.event then cursor else some (commit_at rs end) in
      let later = drain_rows d end rs desk' cursor' in
      Drained d end (r ∷ rs) desk later.0 cursor later.1
go d end r rs desk cursor e f h b ih =
    let desk' = (process_event d.env r.event desk).0 in
    let cursor' = if d.commit_fails r.event then cursor else some (commit_at rs end) in
    let new = (drain_rows d end rs desk' cursor').1 in
    let le : commit_at rs end ≤ commit_at ih.rest end =
      subst (λ xs. commit_at xs end ≤ commit_at ih.rest end) (sym ih.split)
        (commit_at-le end ih.settled ih.rest (subst (Bounded end) ih.split b)) in
    record {
      settled = r ∷ ih.settled;
      rest = ih.rest;
      at = ih.at;
      split = ap (λ xs. r ∷ xs) ih.split;
      through = Through.event e f h ih.through;
      stops = ih.stops;
      idle = λ q. absurd (ground arith);
      behind = elim ih.behind [
        | inr q ↦ inr q
        | inl q ↦ elim (Bool-cases (d.commit_fails r.event)) [
          | inl k ↦ inl (ground (arith, q, k))
          | inr k ↦ inr (ground (arith, q, k, le))
        ]
      ];
      committed = λ ok. inr (elim (ih.committed ok) [
        | inr q ↦ q
        | inl q ↦
            let same : rs ≡ ih.rest = ih.split ∙ ap (λ xs. xs ++ ih.rest) q in
            let kept = ok r.event in
            ground (arith, ih.idle q, kept, ap (λ xs. commit_at xs end) same)
      ]);
    }

drain_rows-Drained :
    (d : Drain) (end : ℕ) (rows : List Row) (desk : Desk) (cursor : Option ℕ)
    → Bounded end rows
    → Drained d end rows desk
        (drain_rows d end rows desk cursor).0
        cursor
        (drain_rows d end rows desk cursor).1
unfolding drain_rows
drain_rows-Drained d end [] desk cursor b = record {
  settled = [];
  rest = [];
  at = desk;
  split = refl;
  through = Through.nothing;
  stops = refl;
  idle = λ h. refl;
  behind = inl refl;
  committed = λ h. inl refl;
}
drain_rows-Drained d end (r ∷ rs) desk cursor b = elim (Bool-cases (d.ended_before r.event)) [
  | inl e ↦ rw e (stay d end r rs desk desk cursor (inl (e, refl)))
  | inr e ↦ elim (Bool-cases (d.ended_after r.event)) [
    | inl f ↦
        rw (e, f)
          (stay d end r rs desk (process_event d.env r.event desk).0 cursor
            (inr ((e, refl), inl f)))
    | inr f ↦ elim (Bool-cases (process_event d.env r.event desk).1) [
      | inl h ↦
          rw (e, f, h)
            (stay d end r rs desk (process_event d.env r.event desk).0 cursor
              (inr ((e, refl), inr h)))
      | inr h ↦
          rw (e, f, h)
            (go d end r rs desk cursor e f h (b.0.1, b.1.1)
              (drain_rows-Drained d end rs (process_event d.env r.event desk).0
                (if d.commit_fails r.event then cursor else some (commit_at rs end))
                (b.0.1, b.1.1)))
    ]
  ]
]

-- The cursor that a drain starts from: a new stream is read from its head.
abbrev pub start_cursor : Drain → Dispatcher → Option ℕ
start_cursor d s =
    if not (s.start_gen == "") && not (d.stream == s.start_gen) && not d.reset_fails
    then some 0
    else s.cursor

pub any_event-matches : (ev : Event) → matches any_event ev ≡ true
unfolding matches
any_event-matches ev = refl

-- A drain whose reads of the log succeed takes the rows from its cursor on in their order. It processes the first of them, one
-- after the other, and stops only at an event that it holds or at which the context has ended; the desk afterwards, with the
-- events held, the failures recorded and the streaks, is the one that these events leave, in turn. The cursor does not pass the
-- event at which it stops; and where the commits succeed, the cursor is behind the events that it is
-- through with.
pub drain-Drained :
    (d : Drain) (s : Dispatcher)
    → Ordered s.desk.rows
    → d.read_fails ≡ false
    → d.list_fails ≡ false
    → let cursor = start_cursor d s in
      let rows = rows_from (position cursor) s.desk.rows in
      Drained d
        (tail_seq (position cursor) rows)
        rows
        s.desk
        (drain d s).desk
        cursor
        (drain d s).cursor
unfolding drain
drain-Drained d s o r l =
    let cursor = start_cursor d s in
    let rows = rows_from (position cursor) s.desk.rows in
    let end = tail_seq (position cursor) rows in
    let sorted = Ordered-rows_from (position cursor) s.desk.rows o in
    let bound =
      tail_seq-bound (position cursor) rows sorted
        (rows_from-bound (position cursor) s.desk.rows) in
    let listed = list_events_all any_event (position cursor) s.desk.rows any_event-matches refl in
    let same : ((drain d s).desk, (drain d s).cursor) ≡ drain_rows d end rows s.desk cursor =
      rw (drain, r, l) (ap (λ p. drain_rows d p.1 p.0 s.desk cursor) listed) in
    subst (λ p. Drained d end rows s.desk p.0 cursor p.1) (sym same)
      (drain_rows-Drained d end rows s.desk cursor (sorted, bound.1))
