-- ===== src/Capacity/Sleep.antt =====
-- The sleep queue (app/internal/service/sleep.go): a session that found no capacity sleeps, and is
-- woken again and again until it is up or the attempts are used up. What is known of that is in the
-- session's event log.
pub mod Effects
pub mod Attempts
use plecture.Base.{
  String, ℕ, ◌+◌, Bool, true, false, not, ◌&&◌, ◌||◌, List, [], ◌∷◌, ◌++◌, map, Option, none, some,
  ◌⊎◌, inl, inr, if◌then◌else◌, ltb, leb, eqb, ◌==◌,
}
use plecture.Events.{Event, Direction, Filter, meta}
use plecture.Events.Log.{Row, list_events, tail, append_event}
use plecture.Capacity.{Session, session_finalized}

abbrev pub type_session_sleep : String
type_session_sleep = "plect.session.sleep"

abbrev pub type_session_wake : String
type_session_wake = "plect.session.wake"

abbrev pub of_types : List String → Filter
of_types types = record { types = types; sources = []; direction = none; limit = 0 }

-- The events of the sleep queue, the oldest first.
unfoldable pub wake_events : List Row → List Event
wake_events rows =
    map (λ r. r.event)
      (list_events (of_types (type_session_sleep ∷ type_session_wake ∷ [])) 0 rows).0

-- `sleepQueued`.
unfoldable pub sleep_queued : List Row → Bool
sleep_queued rows = elim (tail (of_types (type_session_sleep ∷ [])) 1 rows) [
  | [] ↦ false
  | ev ∷ rest ↦ not (meta "reason" ev.metadata == "idle")
]

-- The loop of `wakeFailureCount`.
unfoldable pub count_failures : ℕ → List Event → ℕ
count_failures n [] = n
count_failures n (ev ∷ evs) =
    let next : ℕ =
      if ev.typ == type_session_sleep
      then 0
      else if meta "result" ev.metadata == "failed"
      then n + 1
      else n in
    count_failures next evs

unfoldable pub wake_failure_count : List Row → ℕ
unfolding wake_events count_failures
wake_failure_count rows = count_failures 0 (wake_events rows)

-- The loop of `WakeSuspension`, which goes from the end: a later answer stands before an earlier one. The suspension
-- is its reason, "" for none.
unfoldable pub suspension_from : List Event → Option String
suspension_from [] = none
suspension_from (ev ∷ evs) =
    let later = suspension_from evs in
    elim later [
      | some answer ↦ some answer
      | none ↦
          if ev.typ == type_session_sleep
          then some ""
          else if meta "result" ev.metadata == "succeeded"
          then some ""
          else if meta "result" ev.metadata == "suspended"
          then some ev.summary
          else none
    ]

unfoldable pub wake_suspension : List Row → String
unfolding wake_events suspension_from
wake_suspension rows = elim (suspension_from (wake_events rows)) [
  | none ↦ ""
  | some reason ↦ reason
]

-- `queuedForWake` where no read fails; `limit` is `wakeAttemptLimit`.
unfoldable pub queued_for_wake : ℕ → Session → List Row → Bool
unfolding session_finalized sleep_queued wake_suspension wake_failure_count
queued_for_wake limit s rows =
    if not s.is_down || eqb s.sleep_since 0 || session_finalized s
    then false
    else if not (sleep_queued rows)
    then false
    else if not (wake_suspension rows == "")
    then false
    else ltb (wake_failure_count rows) limit

-- `wakeAttemptLimit`: the workflow's attempts, where it is found and sets them, and otherwise three.
unfoldable pub wake_attempt_limit : Option ℕ → ℕ
wake_attempt_limit none = 3
wake_attempt_limit (some n) = if ltb 0 n then n else 3

-- An event of the queue: `stamp` is its id and time.
abbrev pub queue_event : String → String × ℕ → String → String → String → String → Event
queue_event name stamp typ key value summary = record {
  id = stamp.0;
  session_name = name;
  time = stamp.1;
  typ = typ;
  source = "plect";
  direction = Direction.internal;
  summary = summary;
  body = "";
  metadata = (key, value) ∷ [];
}

-- `appendSleepEvent` and `appendWakeEvent` where they do not fail.
unfoldable pub append_sleep : String → String × ℕ → String → List Row → List Row
append_sleep name stamp reason rows =
    append_event rows
      (queue_event name stamp type_session_sleep "reason" reason "waiting for capacity")

unfoldable pub append_wake : String → String × ℕ → String → String → List Row → List Row
append_wake name stamp result summary rows =
    append_event rows (queue_event name stamp type_session_wake "result" result summary)

-- `queueSleep` where no write fails; `destroyed` is the status. The answer says whether it is queued anew.
unfoldable pub queue_sleep :
    String → String × ℕ → String → ℕ → Bool → Session → List Row → (Session × List Row) × Bool
unfolding sleep_queued wake_suspension append_sleep
queue_sleep name stamp reason at destroyed s rows =
    if destroyed || (not (eqb s.sleep_since 0) && sleep_queued rows && wake_suspension rows == "")
    then ((s, rows), false)
    else (
      (record s { is_down = true; sleep_since = at }, append_sleep name stamp reason rows),
      true,
    )

-- What `upUnlocked` answers: up or asleep again, an up that is in progress elsewhere, or an error.
pub data UpAnswer : Type 0 where
  went_up : UpAnswer
  in_progress : UpAnswer
  failed : String → UpAnswer

-- The turn of a session in `WakeQueuedSessions`, under its lifecycle lock: the log afterwards. `exhausted` is
-- the text of the suspension.
unfoldable pub wake_turn :
    String → ℕ → (String → String) → (ℕ → String × ℕ) → Session → UpAnswer → List Row → List Row
unfolding queued_for_wake append_wake wake_failure_count
wake_turn name limit exhausted stamp s answer rows =
    let count = wake_failure_count rows in
    if not (queued_for_wake limit s rows) then rows else elim answer [
      | UpAnswer.went_up ↦ rows
      | UpAnswer.in_progress ↦ rows
      | UpAnswer.failed error ↦
          let noted = append_wake name (stamp 0) "failed" error rows in
          if leb limit (count + 1)
          then append_wake name (stamp 1) "suspended" (exhausted error) noted
          else noted
    ]
