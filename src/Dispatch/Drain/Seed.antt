-- ===== src/Dispatch/Drain/Seed.antt =====
-- Where the delivery of a session's events begins.
use mathlib.Core.List.{append_assoc}
use plecture.Base.{
  ℕ, ◌+◌, ◌≤◌, ◌<◌, ◌≡◌, refl, ap, ◌∙◌, sym, subst, Bool, true, false, ◌||◌, List, [], ◌∷◌, ◌++◌,
  map, Option, none, some, arith, if◌then◌else◌, ltb, leb, filter, All, All-append, All-map,
  ==-refl,
}
use plecture.Events.{Event}
use plecture.Events.Log.{
  Row, Ordered, rows_from, highest, tail_seq, append_event, append_all, list_events,
}
use plecture.Events.Log.Paging.{rows_from-all, tail_seq-bound, list_events_all}
use plecture.Dispatch.Drain.{Drain, Dispatcher, any_event, position, seed_cursor, drain}
use plecture.Dispatch.Drain.Progress.{Drained, start_cursor, any_event-matches, drain-Drained}
use plecture.Dispatch.Deliver.{Desk}

highest-append :
    (rows : List Row) (r : Row) → highest rows < r.seq → highest (rows ++ r ∷ []) ≡ r.seq
unfolding highest
highest-append [] r h = ground arith
highest-append (x ∷ rows) r h = ground (arith, highest-append rows r)

tail_seq-highest :
    (s : ℕ) (rows : List Row)
    → (leb (tail_seq s rows) s || leb (tail_seq s rows) (highest rows + 1)) ≡ true
unfolding tail_seq highest
tail_seq-highest s [] = ground arith
tail_seq-highest s (r ∷ rs) = ground (arith, tail_seq-highest (r.seq + 1) rs)

-- What is appended comes behind, at higher sequences.
pub appended :
    (rows : List Row) (evs : List Event)
    → (new : List Row) × ((append_all rows evs ≡ rows ++ new)
        × ((map (λ r. r.event) new ≡ evs) × All (λ r. highest rows < r.seq) new))
unfolding append_all append_event
appended rows [] = ([], (sym (plecture.Base.append_nil rows), (refl, tt)))
appended rows (ev ∷ evs) =
    let r : Row = record { seq = highest rows + 1; event = ev } in
    let (new, (e, (f, g))) = appended (rows ++ r ∷ []) evs in
    let h = highest-append rows r (omega arith) in
    (
      r ∷ new,
      (
        e ∙ append_assoc rows (r ∷ []) new,
        (ap (λ l. ev ∷ l) f, (omega arith, All-map (λ x l. omega (arith, l, h)) new g)),
      ),
    )

pub rows_from-append :
    (s : ℕ) (xs ys : List Row) → rows_from s (xs ++ ys) ≡ rows_from s xs ++ rows_from s ys
rows_from-append s [] ys = refl
rows_from-append s (x ∷ xs) ys = ground (arith, rows_from-append s xs ys)

pub rows_from-none : (s : ℕ) (rows : List Row) → All (λ r. r.seq < s) rows → rows_from s rows ≡ []
rows_from-none s [] h = refl
rows_from-none s (r ∷ rs) h = ground (arith, rows_from-none s rs h.1, h.0)

zeros : (rows : List Row) → All (λ r. 0 ≤ r.seq) rows
zeros [] = tt
zeros (r ∷ rs) = (omega arith, zeros rs)

-- Where no cursor is committed yet, and no call of the log fails, seeding commits the cursor from which exactly the events are
-- read that are appended afterwards, in their order; where a cursor is committed, or a call
-- fails, seeding changes nothing.
seed_cursor_lem :
    (has list_fails commit_fails : Bool) (rows : List Row) (cursor : Option ℕ) (evs : List Event)
    → Ordered rows
    → let seeded = seed_cursor has list_fails commit_fails rows cursor in
      if has || list_fails || commit_fails
      then seeded ≡ cursor
      else map (λ r. r.event) (rows_from (position seeded) (append_all rows evs)) ≡ evs
unfolding seed_cursor
seed_cursor_lem true list_fails commit_fails rows cursor evs o = refl
seed_cursor_lem false true commit_fails rows cursor evs o = refl
seed_cursor_lem false false true rows cursor evs o = refl
seed_cursor_lem false false false rows cursor evs o =
    let (new, (e, (f, g))) = appended rows evs in
    let end = tail_seq 0 rows in
    let whole = rows_from-all 0 rows (zeros rows) in
    let listed : (list_events any_event 0 rows).1 ≡ end =
      ap (λ p. p.1) (list_events_all any_event 0 rows any_event-matches refl)
      ∙ ap (tail_seq 0) whole in
    let past = rows_from-none end rows (tail_seq-bound 0 rows o (zeros rows)).1 in
    let ahead =
      rows_from-all end new (All-map (λ x l. ground (arith, l, tail_seq-highest 0 rows)) new g) in
    ap (λ c. map (λ r. r.event) (rows_from c (append_all rows evs))) listed
    ∙ (ap (λ xs. map (λ r. r.event) (rows_from end xs)) e
        ∙ (ap (map (λ r. r.event)) (rows_from-append end rows new)
            ∙ (ap (λ xs. map (λ r. r.event) (xs ++ rows_from end new)) past
                ∙ (ap (map (λ r. r.event)) ahead ∙ f))))

All-front : (P : Row → Type 0) (xs ys : List Row) → All P (xs ++ ys) → All P xs
All-front P [] ys h = tt
All-front P (x ∷ xs) ys h = (h.0, All-front P xs ys h.1)

Ordered-front : (xs ys : List Row) → Ordered (xs ++ ys) → Ordered xs
Ordered-front [] ys o = tt
Ordered-front (x ∷ xs) ys o = (All-front (λ r. x.seq < r.seq) xs ys o.0, Ordered-front xs ys o.1)

-- The first drain of a dispatcher that was seeded, in the same stream, and whose reads of the log succeed, takes exactly the events that
-- were appended after the seeding, in their order: it goes through the first of them and stops as drains
-- do, the cursor following. No event from before the seeding is processed.
pub seed_cursor-Drained :
    (d : Drain) (start : Desk) (rows : List Row) (evs : List Event)
    → start.rows ≡ append_all rows evs
    → Ordered start.rows
    → d.read_fails ≡ false
    → d.list_fails ≡ false
    → let seeded = seed_cursor false false false rows none in
      let after = drain d (record { cursor = seeded; start_gen = d.stream; desk = start }) in
      (new : List Row) × ((map (λ r. r.event) new ≡ evs)
        × Drained d (tail_seq (position seeded) new) new start after.desk seeded after.cursor)
seed_cursor-Drained d start rows evs e o r l =
    let seeded = seed_cursor false false false rows none in
    let s : Dispatcher = record { cursor = seeded; start_gen = d.stream; desk = start } in
    let (new, (behind, _)) = appended rows evs in
    let before = Ordered-front rows new (subst Ordered (e ∙ behind) o) in
    let same : start_cursor d s ≡ seeded = ground (arith, ==-refl d.stream) in
    let drained = drain-Drained d s o r l in
    (
      rows_from (position seeded) start.rows,
      (
        ap (λ xs. map (λ r. r.event) (rows_from (position seeded) xs)) e
            ∙ seed_cursor_lem false false false rows none evs before,
        subst
            (λ c.
              Drained d (tail_seq (position c) (rows_from (position c) start.rows))
                (rows_from (position c) start.rows) start (drain d s).desk c (drain d s).cursor)
            same drained,
      ),
    )
