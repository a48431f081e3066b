-- ===== src/Reactor/Ticks.antt =====
-- Ticks for events.
use plecture.Base.{
  ℕ, ◌≤◌, leb, ◌+◌, ◌++◌, map, All-map, ◌≡◌, refl, ap, subst, ◌∙◌, sym, Bool, true, false, not,
  ◌&&◌, ◌||◌, ◌==◌, List, [], ◌∷◌, some, arith, if◌then◌else◌, any, Bool-cases, List-cases, inl,
  inr, All,
}
use plecture.Events.Log.{Row, Ordered, rows_from, tail_seq, list_events, highest, append_all}
use plecture.Events.{Event, has_prefix, match_type}
use plecture.Dispatch.Drain.Seed.{appended, rows_from-none, rows_from-append}
use plecture.Events.Log.Paging.{
  list_events_all, tail_seq-bound, Ordered-rows_from, rows_from-bound, rows_from-later,
  rows_from-all,
}
use plecture.Dispatch.Drain.{any_event, position}
use plecture.Dispatch.Drain.Progress.{any_event-matches}
use plecture.Reactor.{TickConfig, World, Env, should_trigger, do_tick, update_backoff, drain}

-- The rows that a drain reads.
abbrev pub unread : World → List Row
unread w = rows_from (position w.tick_cursor) w.rows

-- What tick itself emits: by its source, a terminal signal, or an event of a session's lifecycle.
abbrev pub is_own : Event → Bool
is_own ev =
    ev.source == "plect.tick"
    || "plect.terminal.done" == ev.typ
    || "plect.terminal.escalate" == ev.typ
    || "plect.terminal.dead" == ev.typ
    || has_prefix ev.typ "lifecycle."

-- The events that a session reacts to: never a failed delivery; always a verdict and a forwarded resource event; and of the others
-- those that are not tick's own and that a declared pattern matches.
abbrev pub reacts : TickConfig → Event → Bool
reacts tick ev =
    not (ev.typ == "plect.channel.error")
    && (ev.typ == "plect.judge.recorded"
        || ev.typ == "plect.resource.forwarded"
        || (not (is_own ev) && any (λ pattern. match_type pattern ev.typ) tick.on))

should_trigger-reacts : (tick : TickConfig) (ev : Event) → should_trigger tick ev ≡ reacts tick ev
unfolding should_trigger
should_trigger-reacts tick ev = ground arith

abbrev triggers : TickConfig → World → Bool
triggers tick w = any (λ r. should_trigger tick r.event) (unread w)

any-reacts :
    (tick : TickConfig) (rows : List Row)
    → any (λ r. should_trigger tick r.event) rows ≡ any (λ r. reacts tick r.event) rows
any-reacts tick [] = refl
any-reacts tick (r ∷ rows) =
    ground (arith, should_trigger-reacts tick r.event, any-reacts tick rows)

do_tick-ticks :
    (tick : TickConfig) (env : Env) (w : World)
    → ((do_tick tick env w).ticks ≡ (if env.ended then w.ticks else env.now ∷ w.ticks))
      × (((do_tick tick env w).tick_cursor ≡ w.tick_cursor)
          × ((do_tick tick env w).rows
              ≡ (if env.ended then w.rows else append_all w.rows env.appended)))
unfolding do_tick update_backoff
do_tick-ticks tick env w = (ground arith, (ground arith, ground arith))

-- The reactor calls for a tick: the session reacts to an unread event, and the context lasts until then.
abbrev pub calls : TickConfig → Env → World → Bool
calls tick env w = any (λ r. reacts tick r.event) (unread w) && not env.ended

-- What a drain is for the ticks: the rows unread are read, and one call stands for all that trigger.
pub record Batched (tick : TickConfig) (env : Env) (w later : World) : Type 0 where
  pub ticks : later.ticks ≡ (if calls tick env w then env.now ∷ w.ticks else w.ticks)
  pub rows : later.rows ≡ (if calls tick env w then append_all w.rows env.appended else w.rows)
  pub read : map (λ r. r.event) (unread later) ≡ (if calls tick env w then env.appended else [])

abbrev end_of : World → ℕ
end_of w = tail_seq (position w.tick_cursor) (unread w)

-- The world when the batch has been read.
abbrev caught_up : World → World
caught_up w = record w { tick_cursor = some (end_of w) }

unread-highest : (c : ℕ) (rows : List Row) → All (λ r. r.seq ≤ highest rows) (rows_from c rows)
unfolding highest
unread-highest c [] = tt
unread-highest c (r ∷ rs) =
    let rest = All-map (λ x l. ground (arith, l)) (rows_from c rs) (unread-highest c rs) in
    elim (Bool-cases (leb c r.seq)) [ inl e ↦ rw e (ground arith, rest) | inr e ↦ rw e rest ]

tail_seq-le :
    (s b : ℕ) (rows : List Row) → s ≤ b + 1 → All (λ r. r.seq ≤ b) rows → tail_seq s rows ≤ b + 1
unfolding tail_seq
tail_seq-le s b [] l h = l
tail_seq-le s b (r ∷ rs) l h = tail_seq-le (r.seq + 1) b rs (omega (arith, h.0)) h.1

end_of-highest :
    (w : World) (x : Row) (rs : List Row) → unread w ≡ x ∷ rs → end_of w ≤ highest w.rows + 1
unfolding tail_seq
end_of-highest w x rs e =
    let c = position w.tick_cursor in
    let bound = subst (All (λ r. r.seq ≤ highest w.rows)) e (unread-highest c w.rows) in
    subst (λ xs. tail_seq c xs ≤ highest w.rows + 1) (sym e)
      (tail_seq-le (x.seq + 1) (highest w.rows) rs (omega (arith, bound.0)) bound.1)

module _ (tick : TickConfig) (env : Env) (w : World) (o : Ordered w.rows) where
  listed : list_events any_event (position w.tick_cursor) w.rows ≡ (unread w, end_of w)
  listed = list_events_all any_event (position w.tick_cursor) w.rows any_event-matches refl

  past_end : rows_from (end_of w) w.rows ≡ []
  past_end =
      let c = position w.tick_cursor in
      let bound =
        tail_seq-bound c (unread w) (Ordered-rows_from c w.rows o) (rows_from-bound c w.rows) in
      sym (rows_from-later c (end_of w) w.rows bound.0)
      ∙ rows_from-none (end_of w) (unread w) bound.1

  caught_up-Batched : triggers tick w ≡ false → Batched tick env w (caught_up w)
  caught_up-Batched h = record {
    ticks = ground (arith, h, any-reacts tick (unread w));
    rows = ground (arith, h, any-reacts tick (unread w));
    read = ground (arith, h, any-reacts tick (unread w), ap (map (λ r. r.event)) past_end);
  }

  -- What is appended during the tick is left to read.
  ahead :
      (evs : List Event)
      → end_of w ≤ highest w.rows + 1
      → map (λ r. r.event) (rows_from (end_of w) (append_all w.rows evs)) ≡ evs
  ahead evs l =
      let (new, (e, (f, g))) = appended w.rows evs in
      let whole = rows_from-all (end_of w) new (All-map (λ x h. omega (arith, h, l)) new g) in
      ap (λ xs. map (λ r. r.event) (rows_from (end_of w) xs)) e
      ∙ (ap (map (λ r. r.event)) (rows_from-append (end_of w) w.rows new)
          ∙ (ap (λ xs. map (λ r. r.event) (xs ++ rows_from (end_of w) new)) past_end
              ∙ (ap (map (λ r. r.event)) whole ∙ f)))

  do_tick-Batched :
      triggers tick w ≡ true
      → end_of w ≤ highest w.rows + 1
      → Batched tick env w (do_tick tick env (caught_up w))
  do_tick-Batched h l =
      let (ticks, (cursor, rows)) = do_tick-ticks tick env (caught_up w) in
      let read =
        ap (λ c. map (λ r. r.event) (rows_from (position c) (do_tick tick env (caught_up w)).rows))
          cursor
        ∙ ap (λ xs. map (λ r. r.event) (rows_from (end_of w) xs)) rows in
      let still = ap (map (λ r. r.event)) past_end in
      record {
        ticks = ground (arith, h, any-reacts tick (unread w), ticks);
        rows = ground (arith, h, any-reacts tick (unread w), rows);
        read = ground (arith, h, any-reacts tick (unread w), read, ahead env.appended l, still);
      }

  drain-once :
      env.read_fails ≡ false
      → env.list_fails ≡ false
      → env.commit_fails ≡ false
      → Batched tick env w (drain tick env w)
  unfolding drain
  drain-once r l c = elim (List-cases (unread w)) [
    | inl e ↦
        let found = listed ∙ ap (λ rows. (rows, end_of w)) e in
        let stays : drain tick env w ≡ w = ground (arith, r, l, found) in
        subst (Batched tick env w) (sym stays) (record {
          ticks = ground (arith, ap (any (λ q. reacts tick q.event)) e);
          rows = ground (arith, ap (any (λ q. reacts tick q.event)) e);
          read = ground (arith, ap (any (λ q. reacts tick q.event)) e, ap (map (λ r. r.event)) e);
        })
    | inr (x, (rs, e)) ↦
        let found = listed ∙ ap (λ rows. (rows, end_of w)) e in
        let reaches = end_of-highest w x rs e in
        let same = ap (λ rows. any (λ q. should_trigger tick q.event) rows) e in
        elim (Bool-cases (any (λ q. should_trigger tick q.event) (x ∷ rs))) [
          | inl t ↦
              let ticks : drain tick env w ≡ do_tick tick env (caught_up w) =
                ground (arith, r, l, c, found, t) in
              subst (Batched tick env w) (sym ticks) (do_tick-Batched (same ∙ t) reaches)
          | inr t ↦
              let reads : drain tick env w ≡ caught_up w = ground (arith, r, l, c, found, t) in
              subst (Batched tick env w) (sym reads) (caught_up-Batched (same ∙ t))
        ]
  ]

-- A drain whose reads and whose commit succeed calls `TickSession` exactly once if the session reacts to an event that was not read yet, however
-- many there are, and the context has not ended by then, and not at all otherwise. After it, all events that were in the log are
-- read, also those that it reacts to where the context has ended, and exactly the events that were appended while the tick ran are
-- left to read.
pub drain-Batched :
    (tick : TickConfig) (env : Env) (w : World)
    → Ordered w.rows
    → env.read_fails ≡ false
    → env.list_fails ≡ false
    → env.commit_fails ≡ false
    → Batched tick env w (drain tick env w)
drain-Batched tick env w o r l c = drain-once tick env w o r l c
