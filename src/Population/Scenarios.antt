-- ===== src/Population/Scenarios.antt =====
-- A population of three resources, and passes over it.
use plecture.Base.{
  String, ◌*◌, ◌^◌, ◌≡◌, refl, true, false, [], ◌∷◌, ◌++◌, map, none, some, inr, filter, lookup,
  arith,
}
use plecture.Base.Order.{sort_by, Ascending}
use plecture.Population.Member.{Member, Members, new_member, text_failure}
use plecture.Population.Backoff.{admit_retry_base, admit_retry_max, admit_retry_delay}
use plecture.Population.Backoff.Delays.{min, admit_retry_delay_lem}
use plecture.Population.World.{World, Env, up_call, destroy_call, read_population, next_fault}
use plecture.Population.Admit.{clear_admit_retry}
use plecture.Population.Admit.Calls.{lifecycle}
use plecture.Population.Admit.History.{
  Failed, FailedTimes, note_all, next_attempt, note_all-backoff,
}
use plecture.Population.Sweep.{sorted_members, by_name, existing_first, reconcile}
use plecture.Population.Sweep.Turns.{existing, fresh, existing_first_lem}
use plecture.Population.Sweep.Trace.{torn_down, brought_up, destroy_at, up_at, reconcile-calls}
use plecture.Population.Source.{validate_items, poll_members}
use plecture.Population.Source.Poll.{PollOutcome, poll_members-PollOutcome}

abbrev waiting : String → Member
waiting r = record (new_member r 1) { pending_up = true }

abbrev three : Members
three =
    ("b", waiting "b")
    ∷ ("c", record (waiting "c") { session_name = "sc" })
    ∷ ("a", record (new_member "a" 2) { tombstoned = true; session_name = "sa" })
    ∷ []

abbrev settings : Env
settings = record {
  workflow = "wf";
  name = "issues";
  uses_poll = true;
  auto_destroy = true;
  destroy_force = false;
  expire_after = 10;
  session_task = "";
  now = 100;
  item_resource = λ i. inr i;
  observed = λ r. true;
  provided = λ r. true;
  session_inputs = λ r i. inr "{}";
  get_session = λ s. inr none;
  wake_suspension = λ s. inr ("", 0);
  last_stop_or_up = λ s. inr none;
  latest_inbound = λ s. inr 0;
  up = some (λ r i p.
      (p, inr (record { session_name = r; already_up = false; sleeping = false; woke = false })));
  destroy = some (λ s r f p. (p, none));
  ensure_initial = none;
  blockers = none;
}

abbrev start : World
start = record {
  population = some (record { workflow = "wf"; name = "issues"; members = three });
  log = [];
  cache = [];
  calls = [];
  faults = [];
}

start_read :
    read_population start
    ≡ (start, inr (some (record { workflow = "wf"; name = "issues"; members = three })))
unfolding read_population next_fault
start_read = refl

-- The absent member goes, the member with a session comes before the one without.
pass :
    (reconcile settings start).0.calls
    ≡ destroy_call "sa" "a" false ∷ up_call "c" ∷ up_call "b" ∷ []
unfolding reconcile
pass = refl

reconcile-calls_example :
    let resources = sort_by by_name three in
    Ascending by_name resources
    × (lifecycle (reconcile settings start).0
        ≡ lifecycle start
          ++ map (destroy_at settings) (filter (torn_down settings) resources)
          ++ map
              (up_at settings)
              (filter (brought_up settings) (filter existing resources ++ filter fresh resources)))
reconcile-calls_example =
    reconcile-calls settings start start
      (record { workflow = "wf"; name = "issues"; members = three }) start_read

existing_first_lem_example :
    sort_by existing_first (sorted_members three)
    ≡ filter existing (sorted_members three) ++ filter fresh (sorted_members three)
existing_first_lem_example = existing_first_lem three

listed_twice : validate_items settings [] ("a" ∷ "d" ∷ []) ≡ inr (("a", "a") ∷ ("d", "d") ∷ [])
unfolding validate_items
listed_twice = refl

poll_members-PollOutcome_example :
    PollOutcome
      (lookup "a" (("a", "a") ∷ ("d", "d") ∷ []))
      (lookup "a" three)
      (lookup "a" (poll_members (("a", "a") ∷ ("d", "d") ∷ []) three))
poll_members-PollOutcome_example =
    poll_members-PollOutcome settings ("a" ∷ "d" ∷ []) (("a", "a") ∷ ("d", "d") ∷ []) three
      listed_twice "a"

abbrev refused : Failed
refused = record { now = 100; reason = "up"; error = text_failure "no" }

note_all-backoff_example :
    FailedTimes
      (refused ∷ refused ∷ [])
      (note_all (refused ∷ refused ∷ []) (clear_admit_retry (waiting "a")))
    × ((note_all (refused ∷ refused ∷ []) (clear_admit_retry (waiting "a"))).admit_retry_at
        ≡ next_attempt refused (refused ∷ []))
note_all-backoff_example = note_all-backoff refused (refused ∷ []) (waiting "a") (omega arith)

admit_retry_delay_lem_example : admit_retry_delay 3 ≡ min (admit_retry_base * 2 ^ 2) admit_retry_max
admit_retry_delay_lem_example = admit_retry_delay_lem 2
