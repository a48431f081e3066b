-- ===== src/Capacity/Scenarios.antt =====
-- Two children under a cap of one, and a session that is tried three times.
use plecture.Base.{
  String, ℕ, ◌≡◌, refl, Bool, true, false, ◌&&◌, List, [], ◌∷◌, some, arith, ltb, any, length, ◌==◌,
  All,
}
use plecture.Events.Log.{Row}
use plecture.Capacity.{
  Session, Sessions, Cap, Reserved, session_finalized, occupied, decide_slot,
  reserve_child_cap_slot, under_cap,
}
use plecture.Capacity.Limit.{Shared, Step, Steps, taken, reservations, set_up}
use plecture.Capacity.Limit.Reached.{Within, Steps-Within}
use plecture.Capacity.Priority.{waits, refuses, first_sleeper}
use plecture.Capacity.Sleep.{queued_for_wake, wake_failure_count, queue_sleep}
use plecture.Capacity.Sleep.Attempts.{turns, min, queue_sleep-turns}

abbrev child : ℕ → Session
child since = record {
  parent_session = "p";
  is_down = true;
  run_up = false;
  sleep_since = since;
  tasks = [];
}

abbrev family : Sessions
family = ("p", record (child 0) { parent_session = "" }) ∷ ("a", child 20) ∷ ("b", child 10) ∷ []

abbrev under_p : Cap
under_p = Cap.parent "p"

abbrev nobody_waits : String → Bool
nobody_waits name = false

abbrev everyone_waits : String → Bool
everyone_waits name = true

abbrev empty : Shared
empty = record { sessions = family; rows = []; alive = λ pid. ltb pid 100 }

abbrev admitted : Shared
admitted = record empty {
  rows =
      (reserve_child_cap_slot empty.alive 7 50 under_p (some 1) nobody_waits false empty.sessions
        "a" empty.rows).0;
}

abbrev running : Shared
running = record admitted { sessions = set_up "a" true admitted.sessions }

-- The second child is refused while the first one is up.
refused :
    (reserve_child_cap_slot running.alive 8 60 under_p
      (some 1)
      nobody_waits
      false
      running.sessions
      "b"
      running.rows).1
    ≡ some Reserved.rejected
unfolding reserve_child_cap_slot set_up
refused = refl

a_reserved : any (λ r. r.0 == "a" && r.1 == "p") (reservations admitted) ≡ true
unfolding reservations reserve_child_cap_slot
a_reserved = refl

empty-Within : Within under_p 1 empty
unfolding taken
empty-Within = record {
  sessions_once = (refl, (refl, (refl, tt)));
  rows_once = tt;
  in_limit = omega arith;
}

-- The parent itself takes a slot of the virtual root, and comes up.
abbrev both_admitted : Shared
both_admitted = record running {
  rows =
      (reserve_child_cap_slot running.alive 9 70 Cap.virtual (some 4) nobody_waits false
        running.sessions "p" running.rows).0;
}

abbrev all_running : Shared
all_running = record both_admitted { sessions = set_up "p" true both_admitted.sessions }

parent_free : any (λ e. e.0 == "p" && under_cap under_p e.1) both_admitted.sessions ≡ false
unfolding under_cap set_up
parent_free = refl

to_running : Steps under_p 1 empty running
to_running =
    Steps.next
      (Steps.next {v = empty} {w = admitted} Steps.stay (Step.reserve 7 50 nobody_waits "a" refl))
      (Step.up "a" a_reserved)

to_all_running : Steps under_p 1 empty all_running
to_all_running =
    Steps.next
      (Steps.next {v = running} {w = both_admitted} to_running
        (Step.reserve_other 9 70 Cap.virtual (some 4) nobody_waits false "p" refl refl))
      (Step.up_other "p" parent_free)

Steps-Within_example : Within under_p 1 all_running
Steps-Within_example =
    Steps-Within under_p 1 empty all_running (omega arith) to_all_running empty-Within

someone_waits : any (waits everyone_waits) family ≡ true
unfolding session_finalized
someone_waits = refl

first_sleeper_example :
    (e : String × Session) × ((waits everyone_waits e ≡ true)
      × (decide_slot under_p 1 everyone_waits family e.0 []
          ≡ ltb (occupied under_p (λ name. name == e.0) family []) 1)
      × All (λ x. refuses under_p 1 everyone_waits family [] e.0 x ≡ true) family)
first_sleeper_example =
    first_sleeper under_p 1 everyone_waits family [] (refl, (refl, (refl, tt))) someone_waits

abbrev stamp : String × ℕ
stamp = ("id", 5)

abbrev stamps : ℕ → ℕ → String × ℕ
stamps n k = ("id", 6)

abbrev gives_up : String → String
gives_up error = "given up"

abbrev reason : String
reason = "capacity"

abbrev errors : List String
errors = "no" ∷ "no" ∷ "no" ∷ []

abbrev asleep : (Session × List Row) × Bool
asleep = queue_sleep "a" stamp reason 30 false (child 0) []

queued_anew : asleep.1 ≡ true
unfolding queue_sleep
queued_anew = refl

child_open : session_finalized (child 0) ≡ false
unfolding session_finalized
child_open = refl

queue_sleep-turns_example :
    (queued_for_wake 3 asleep.0.0 (turns "a" 3 gives_up stamps asleep.0.0 errors asleep.0.1)
      ≡ ltb (length errors) 3)
    × (wake_failure_count (turns "a" 3 gives_up stamps asleep.0.0 errors asleep.0.1)
        ≡ min (length errors) 3)
queue_sleep-turns_example =
    queue_sleep-turns "a" 3 gives_up stamps stamp reason 30 (child 0) [] (omega arith) (omega arith)
      child_open refl (λ error. refl) queued_anew errors
