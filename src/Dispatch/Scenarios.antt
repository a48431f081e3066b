-- ===== src/Dispatch/Scenarios.antt =====
-- A session with two channels, one of which fails.
use plecture.Base.{
  String, ℕ, ◌-◌, ◌≡◌, ◌≤◌, refl, true, false, List, [], ◌∷◌, map, Option, none, some, inr, arith,
  if◌then◌else◌, ltb, ◌==◌, all, Distinct,
}
use plecture.Events.{Event, Direction, match_type, matches}
use plecture.Events.Log.{Row, Ordered, rows_from, tail_seq, append_event, append_all, list_events}
use plecture.Dispatch.Retry.{default_retry_policy, retry}
use plecture.Dispatch.Retry.Schedule.{Tried, schedule, allowed, retry-Tried}
use plecture.Dispatch.Health.Episodes.{Moment, Counted, IsTimed, told_since, after-once}
use plecture.Dispatch.Deliver.{Channel, Env, Desk, nothing_held, process_event}
use plecture.Dispatch.Deliver.Outcome.{is_settled, process_event-settled}
use plecture.Dispatch.Deliver.Loops.{Quiets, process_event-Quiets}
use plecture.Dispatch.Deliver.Resend.{deliveries, deliveries-Distinct}
use plecture.Dispatch.Drain.{Drain, Dispatcher, position, drain, seed_cursor}
use plecture.Dispatch.Drain.Progress.{Drained, start_cursor, drain-Drained}
use plecture.Dispatch.Drain.Seed.{seed_cursor-Drained}

-- The first two attempts fail, and the context never ends.
abbrev third_time : ℕ → ℕ → Option String
third_time timeout n = if ltb n 3 then some "refused" else none

abbrev lasting : ℕ → Option String
lasting n = none

two_failures : (retry default_retry_policy 0 third_time lasting).attempts ≡ 3
unfolding retry
two_failures = refl

retry-Tried_example :
    (((retry default_retry_policy 0 third_time lasting).attempts ≤ allowed default_retry_policy)
      × Tried default_retry_policy
          (third_time default_retry_policy.timeout)
          lasting
          (allowed default_retry_policy - 1)
          1
          (retry default_retry_policy 0 third_time lasting))
    × ((retry default_retry_policy 0 third_time lasting).waits
        ≡ schedule default_retry_policy default_retry_policy.base_backoff 0
            ((retry default_retry_policy 0 third_time lasting).attempts - 1))
retry-Tried_example = retry-Tried default_retry_policy 0 third_time lasting

abbrev chat : Channel
chat = record { name = "chat"; uses = "post"; include = "user.*" ∷ "plect.channel.error" ∷ [] }

abbrev runtime : Channel
runtime = record { name = "runtime"; uses = "socket"; include = "*" ∷ [] }

-- The runtime's socket refuses.
abbrev env : Env
env = record {
  channels = chat ∷ runtime ∷ [];
  defined = λ uses. true;
  policy = default_retry_policy;
  inputs = λ ch ev. none;
  timeout = λ ch ev. inr 0;
  attempt = λ ch ev t n. if ch.name == "runtime" then some "refused" else none;
  cancelled = λ ch ev n. none;
  stopped = λ ev. false;
  stopped_at = λ ev n. false;
  awaiting_repair = some (inr true);
  now = 100;
  summary = λ name n. "failed";
  body = λ ev name cause. cause;
  decimal = λ n. "3";
  stamp = λ ev n. ("new", 100);
  lost = λ ev. false;
  append_lost = λ ev n. false;
}

abbrev note : Event
note = record {
  id = "e1";
  session_name = "s";
  time = 90;
  typ = "user.note";
  source = "web";
  direction = Direction.inbound;
  summary = "";
  body = "";
  metadata = [];
}

abbrev desk : Desk
desk = record {
  held = nothing_held;
  streaks = record { validation = none; delivery = none };
  rows = record { seq = 1; event = note } ∷ [];
}

-- A repair is under way, so the event is held.
held_note : (process_event env note desk).1 ≡ true
unfolding process_event match_type
held_note = refl

abbrev no_repair : Env
no_repair = record env { awaiting_repair = none }

not_held_note : (process_event no_repair note desk).1 ≡ false
unfolding process_event match_type
not_held_note = refl

process_event-settled_example :
    all
      (is_settled no_repair note (λ n. (refl, refl)) desk (process_event no_repair note desk).0)
      no_repair.channels
    ≡ true
process_event-settled_example =
    process_event-settled no_repair note (λ n. (refl, refl)) desk refl refl not_held_note

process_event-Quiets_example : Quiets 2 note
process_event-Quiets_example = process_event-Quiets note

deliveries-Distinct_example : Distinct (deliveries (env ∷ env ∷ no_repair ∷ []) note desk)
deliveries-Distinct_example =
    deliveries-Distinct (env ∷ env ∷ no_repair ∷ []) note desk
      ((refl, (refl, tt)), ((refl, (refl, tt)), ((refl, (refl, tt)), tt)))

abbrev pass : Drain
pass = record {
  env = no_repair;
  ended_before = λ ev. false;
  ended_after = λ ev. false;
  stream = "id";
  reset_fails = false;
  read_fails = false;
  list_fails = false;
  commit_fails = λ ev. false;
}

abbrev dispatcher : Dispatcher
dispatcher = record { cursor = some 0; start_gen = "id"; desk = desk }

drained_cursor : (drain pass dispatcher).cursor ≡ some 2
unfolding drain process_event list_events matches
drained_cursor = refl

drain-Drained_example :
    Drained pass
      (tail_seq
        (position (start_cursor pass dispatcher))
        (rows_from (position (start_cursor pass dispatcher)) desk.rows))
      (rows_from (position (start_cursor pass dispatcher)) desk.rows)
      desk
      (drain pass dispatcher).desk
      (start_cursor pass dispatcher)
      (drain pass dispatcher).cursor
drain-Drained_example = drain-Drained pass dispatcher (tt, tt) refl refl

abbrev noted : Desk
noted = record desk { rows = append_all desk.rows (note ∷ note ∷ []) }

noted-Ordered : Ordered noted.rows
unfolding append_all append_event
noted-Ordered = ((omega arith, (omega arith, tt)), ((omega arith, tt), (tt, tt)))

seed_cursor-Drained_example :
    let seeded = seed_cursor false false false desk.rows none in
    let after = drain pass (record { cursor = seeded; start_gen = pass.stream; desk = noted }) in
    (new : List Row) × ((map (λ r. r.event) new ≡ note ∷ note ∷ [])
      × Drained pass (tail_seq (position seeded) new) new noted after.desk seeded after.cursor)
seed_cursor-Drained_example =
    seed_cursor-Drained pass noted desk.rows (note ∷ note ∷ []) refl noted-Ordered refl refl

abbrev history : List Moment
history =
    Moment.checked 40 true
    ∷ Moment.failed "runtime" (some "refused") 30
    ∷ Moment.checked 25 true
    ∷ Moment.failed "runtime" (some "refused") 20
    ∷ Moment.failed "runtime" (some "refused") 10
    ∷ []

history-IsTimed : IsTimed history
unfolding IsTimed
history-IsTimed = (omega arith, (omega arith, tt))

after-once_example : Counted history desk.streaks × (told_since history desk.streaks ≤ 1)
after-once_example = after-once history desk.streaks refl history-IsTimed
