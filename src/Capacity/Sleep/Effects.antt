-- ===== src/Capacity/Sleep/Effects.antt =====
-- What an event of the queue changes in what the log says.
use plecture.Base.{
  String, ℕ, ◌+◌, ◌≤◌, ◌≡◌, refl, ap, ◌∙◌, sym, true, not, List, [], ◌∷◌, ◌++◌, map, none, some,
  arith, if◌then◌else◌, ◌==◌, length, Bool-cases, Option-cases, inl, inr,
}
use plecture.Events.{Event, Filter, matches, meta}
use plecture.Events.Log.{
  Row, list_events, list_rows, fill, push, tail, append_event, highest, rows_from,
}
use plecture.Capacity.Sleep.{
  type_session_sleep, type_session_wake, of_types, wake_events, sleep_queued, count_failures,
  wake_failure_count, suspension_from, wake_suspension, append_sleep, append_wake, queue_event,
}

count_failures-append :
    (n : ℕ) (evs : List Event) (ev : Event)
    → count_failures n (evs ++ ev ∷ []) ≡ (
        if ev.typ == type_session_sleep
        then 0
        else if meta "result" ev.metadata == "failed"
        then count_failures n evs + 1
        else count_failures n evs)
unfolding count_failures
count_failures-append n [] ev = refl
count_failures-append n (e ∷ evs) ev =
    let next : ℕ =
      if e.typ == type_session_sleep
      then 0
      else if meta "result" e.metadata == "failed"
      then n + 1
      else n in
    count_failures-append next evs ev

suspension_from-append :
    (evs : List Event) (ev : Event)
    → suspension_from (evs ++ ev ∷ []) ≡ (
        if ev.typ == type_session_sleep
        then some ""
        else if meta "result" ev.metadata == "succeeded"
        then some ""
        else if meta "result" ev.metadata == "suspended"
        then some ev.summary
        else suspension_from evs)
unfolding suspension_from
suspension_from-append [] ev = refl
suspension_from-append (e ∷ evs) ev = elim (Option-cases (suspension_from evs)) [
  | inl n ↦ ground (arith, n, suspension_from-append evs ev)
  | inr (answer, n) ↦ ground (arith, n, suspension_from-append evs ev)
]

-- Reading after an append.
list_rows-append :
    (f : Filter) (kept next : ℕ) (rows : List Row) (r : Row)
    → f.limit ≡ 0
    → (list_rows f kept next (rows ++ r ∷ [])).0
      ≡ (list_rows f kept next rows).0 ++ (if matches f r.event then r ∷ [] else [])
unfolding list_rows
list_rows-append f kept next [] r h = ground (arith, h)
list_rows-append f kept next (q ∷ rows) r h = ground (
  arith,
  h,
  list_rows-append f (kept + 1) (q.seq + 1) rows r h,
  list_rows-append f kept (q.seq + 1) rows r h,
)

rows_from_all : (rows : List Row) → rows_from 0 rows ≡ rows
rows_from_all [] = refl
rows_from_all (r ∷ rows) = ground (arith, rows_from_all rows)

map-append :
    (xs ys : List Row)
    → map (λ r. r.event) (xs ++ ys) ≡ map (λ r. r.event) xs ++ map (λ r. r.event) ys
map-append [] ys = refl
map-append (x ∷ xs) ys = ap (λ l. x.event ∷ l) (map-append xs ys)

abbrev queue_filter : Filter
queue_filter = of_types (type_session_sleep ∷ type_session_wake ∷ [])

abbrev sleep_filter : Filter
sleep_filter = of_types (type_session_sleep ∷ [])

wake_events-append :
    (rows : List Row) (ev : Event)
    → matches queue_filter ev ≡ true
    → wake_events (append_event rows ev) ≡ wake_events rows ++ ev ∷ []
unfolding wake_events append_event list_events
wake_events-append rows ev h =
    let r : Row = record { seq = highest rows + 1; event = ev } in
    let all_rows = rows_from_all rows in
    let all_more = rows_from_all (rows ++ r ∷ []) in
    ap (λ l. map (λ q. q.event) (list_rows queue_filter 0 0 l).0) all_more
    ∙ (ap (map (λ q. q.event)) (list_rows-append queue_filter 0 0 rows r refl ∙ rw h refl)
        ∙ (map-append (list_rows queue_filter 0 0 rows).0 (r ∷ [])
            ∙ ap (λ l. map (λ q. q.event) (list_rows queue_filter 0 0 l).0 ++ ev ∷ [])
                (sym all_rows)))

-- The ring with one place.
push_one : (ring : List Event) (x : Event) → length ring ≤ 1 → push 1 ring x ≡ x ∷ []
unfolding push
push_one [] x h = refl
push_one (y ∷ []) x h = refl
push_one (y ∷ z ∷ ring) x h = absurd (omega (arith, h))

fill_one :
    (f : Filter) (ring : List Event) (rows : List Row)
    → length ring ≤ 1
    → length (fill (λ r. r.event) f 1 ring rows) ≤ 1
unfolding fill
fill_one f ring [] h = h
fill_one f ring (r ∷ rows) h = ground (
  arith,
  fill_one f ring rows h,
  ap length (push_one ring r.event h),
  fill_one f (push 1 ring r.event) rows (ground (arith, ap length (push_one ring r.event h))),
)

fill-append :
    (f : Filter) (ring : List Event) (rows : List Row) (r : Row)
    → fill (λ q. q.event) f 1 ring (rows ++ r ∷ []) ≡ (
        let before = fill (λ q. q.event) f 1 ring rows in
        if matches f r.event then push 1 before r.event else before)
unfolding fill
fill-append f ring [] r = ground arith
fill-append f ring (q ∷ rows) r =
    ground (arith, fill-append f (push 1 ring q.event) rows r, fill-append f ring rows r)

sleep_queued-append :
    (rows : List Row) (ev : Event)
    → sleep_queued (append_event rows ev) ≡ (
        if matches sleep_filter ev
        then not (meta "reason" ev.metadata == "idle")
        else sleep_queued rows)
unfolding sleep_queued append_event tail
sleep_queued-append rows ev =
    let r : Row = record { seq = highest rows + 1; event = ev } in
    let before = fill (λ q. q.event) sleep_filter 1 [] rows in
    let one = push_one before ev (fill_one sleep_filter [] rows (omega arith)) in
    let more = fill-append sleep_filter [] rows r in
    elim (Bool-cases (matches sleep_filter ev)) [
      | inl e ↦ ground (arith, e, one, more)
      | inr e ↦ ground (arith, e, more)
    ]

module _ (name : String) (stamp : String × ℕ) (rows : List Row) where
  abbrev slept : String → Event
  slept reason = queue_event name stamp type_session_sleep "reason" reason "waiting for capacity"

  abbrev woken : String → String → Event
  woken result summary = queue_event name stamp type_session_wake "result" result summary

  -- What a new sleep leaves of the log's answers.
  pub record AfterSleep (reason : String) : Type 0 where
    pub queued : sleep_queued (append_sleep name stamp reason rows) ≡ not (reason == "idle")
    pub failures : wake_failure_count (append_sleep name stamp reason rows) ≡ 0
    pub suspension : wake_suspension (append_sleep name stamp reason rows) ≡ ""

  pub append_sleep-AfterSleep : (reason : String) → AfterSleep reason
  unfolding append_sleep wake_failure_count wake_suspension matches meta
  append_sleep-AfterSleep reason =
      let seen = wake_events-append rows (slept reason) refl in
      record {
        queued = sleep_queued-append rows (slept reason);
        failures =
            ap (count_failures 0) seen ∙ count_failures-append 0 (wake_events rows) (slept reason);
        suspension =
            ap (λ evs. elim (suspension_from evs) as (λ x. String) [ none ↦ "" | some t ↦ t ]) seen
            ∙ ap (λ o. elim o as (λ x. String) [ none ↦ "" | some t ↦ t ])
                (suspension_from-append (wake_events rows) (slept reason));
      }

  -- And a failed wake, and a suspension.
  pub record AfterWake (result summary : String) (more : ℕ) (reason : String) : Type 0 where
    pub queued : sleep_queued (append_wake name stamp result summary rows) ≡ sleep_queued rows
    pub failures :
        wake_failure_count (append_wake name stamp result summary rows)
        ≡ wake_failure_count rows + more
    pub suspension : wake_suspension (append_wake name stamp result summary rows) ≡ reason

  pub append_wake-failed : (error : String) → AfterWake "failed" error 1 (wake_suspension rows)
  unfolding append_wake wake_failure_count wake_suspension matches meta
  append_wake-failed error =
      let seen = wake_events-append rows (woken "failed" error) refl in
      record {
        queued = sleep_queued-append rows (woken "failed" error);
        failures =
            ap (count_failures 0) seen
            ∙ count_failures-append 0 (wake_events rows) (woken "failed" error);
        suspension =
            ap (λ evs. elim (suspension_from evs) as (λ x. String) [ none ↦ "" | some t ↦ t ]) seen
            ∙ ap (λ o. elim o as (λ x. String) [ none ↦ "" | some t ↦ t ])
                (suspension_from-append (wake_events rows) (woken "failed" error));
      }

  pub append_wake-suspended : (text : String) → AfterWake "suspended" text 0 text
  unfolding append_wake wake_failure_count wake_suspension matches meta
  append_wake-suspended text =
      let seen = wake_events-append rows (woken "suspended" text) refl in
      record {
        queued = sleep_queued-append rows (woken "suspended" text);
        failures =
            ap (count_failures 0) seen
            ∙ (count_failures-append 0 (wake_events rows) (woken "suspended" text) ∙ omega arith);
        suspension =
            ap (λ evs. elim (suspension_from evs) as (λ x. String) [ none ↦ "" | some t ↦ t ]) seen
            ∙ ap (λ o. elim o as (λ x. String) [ none ↦ "" | some t ↦ t ])
                (suspension_from-append (wake_events rows) (woken "suspended" text));
      }
