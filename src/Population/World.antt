-- ===== src/Population/World.antt =====
-- What the engine (app/internal/population/engine.go) works on: the population's row in the store,
-- the event log, the admission cache, and its environment.
use plecture.Base.{
  String, ℕ, Bool, not, ◌&&◌, ◌∷◌, ◌++◌, List, [], Option, none, some, ◌⊎◌, inl, inr, if◌then◌else◌,
  ◌==◌, eqb,
}
use plecture.Population.Member.{Member, Members, Population, Failure, Session, UpOutcome}

-- The types of the events that the engine appends.
pub data EventType : Type 0 where
  population_up admit_ok conflict failure destroy destroy_deferred destroy_dry_run : EventType

abbrev pub event_text : EventType → String
event_text population_up = "plect.workflow_population.up"
event_text admit_ok = "plect.workflow_population.admit_ok"
event_text conflict = "plect.workflow_population.conflict"
event_text failure = "plect.workflow_population.failure"
event_text destroy = "plect.workflow_population.destroy"
event_text destroy_deferred = "plect.workflow_population.destroy_deferred"
event_text destroy_dry_run = "plect.workflow_population.destroy_dry_run"

-- An event of the log: its constant fields (source, direction) are left out, and the metadata's
-- workflow and population are the engine's own.
pub record Entry : Type 0 where
  pub session_name : String
  pub typ : EventType
  pub reason : String
  pub summary : String
  pub resource : String
  pub blockers : List String

-- One call of the admission cache's `Record`.
pub record AdmitEntry : Type 0 where
  pub session : String
  pub resource : String
  pub ok : Bool
  pub reason : String
  pub error : String

-- The calls of the hooks, in order.
pub data Call : Type 0 where
  up_call : String → Call
  destroy_call : String → String → Bool → Call
  initial_call : String → String → String → Call

-- `faults` decides the store's next reads and writes of the population: an entry `some e` makes
-- the access fail with `e`, and no entry is left once they all succeed.
pub record World : Type 0 where
  pub population : Option Population
  pub log : List Entry
  pub cache : List AdmitEntry
  pub calls : List Call
  pub faults : List (Option Failure)

-- What is fixed during a pass: the definition's settings, the clock, the schemas and patterns that
-- an item has to match (`item_resource` is the resource of a valid item), the input expressions, the
-- reads of sessions and of their logs, and the hooks. A hook may change the population, since other processes write it
-- while the hook runs; its first result is the population it leaves.
pub record Env : Type 0 where
  pub workflow : String
  pub name : String
  pub uses_poll : Bool
  pub auto_destroy : Bool
  pub destroy_force : Bool
  pub expire_after : ℕ
  pub session_task : String
  pub now : ℕ
  pub item_resource : String → Failure ⊎ String
  pub observed : String → Bool
  pub provided : String → Bool
  pub session_inputs : String → String → Failure ⊎ String
  pub get_session : String → Failure ⊎ Option Session
  pub wake_suspension : String → Failure ⊎ (String × ℕ)
  pub last_stop_or_up : String → Failure ⊎ Option Bool
  pub latest_inbound : String → Failure ⊎ ℕ
  pub up : Option (String → String → Option Population → Option Population × (Failure ⊎ UpOutcome))
  pub destroy :
      Option (String → String → Bool → Option Population → Option Population × Option Failure)
  pub ensure_initial :
      Option (String → String → String → Option Population → Option Population × Option Failure)
  pub blockers : Option (String → Failure ⊎ List String)

-- The keys `session`, `typ`, ... of `Engine.record`, which drops an event without a session.
unfoldable pub record_event : World → Entry → World
record_event w e = if e.session_name == "" then w else record w { log = w.log ++ e ∷ [] }

-- `Engine.recordAdmit` and the first test of `Cache.Record`.
unfoldable pub record_admit : World → AdmitEntry → World
record_admit w a = if a.session == "" then w else record w { cache = w.cache ++ a ∷ [] }

unfoldable pub next_fault : World → World × Option Failure
next_fault w = elim w.faults [ [] ↦ (w, none) | f ∷ fs ↦ (record w { faults = fs }, f) ]

-- `Store.UpdatePopulation`: the row is created when it is missing, and written when `change`
-- is through.
unfoldable pub update_population : Env → World → (Members → Members) → World × Option Failure
unfolding next_fault
update_population env w change =
    let (w', fault) = next_fault w in
    elim fault [
      | some e ↦ (w', some e)
      | none ↦ (
        record w' {
          population = some (record {
            workflow = env.workflow;
            name = env.name;
            members = change (elim w'.population [ none ↦ [] | some p ↦ p.members ]);
          });
        },
        none,
      )
    ]

-- `Store.Population`.
unfoldable pub read_population : World → World × (Failure ⊎ Option Population)
unfolding next_fault
read_population w =
    let (w', fault) = next_fault w in
    elim fault [ some e ↦ (w', inl e) | none ↦ (w', inr w'.population) ]

-- A change of the entry under a key, if there is one.
unfoldable pub adjust : String → (Member → Member) → Members → Members
adjust k f [] = []
adjust k f ((j, m) ∷ ms) = if j == k then (j, f m) ∷ ms else (j, m) ∷ adjust k f ms

-- The guard of the engine's writes: the member is still of the generation that was read.
abbrev pub if_generation : ℕ → (Member → Member) → Member → Member
if_generation g f current = if eqb current.generation g then f current else current

abbrev pub if_live : ℕ → (Member → Member) → Member → Member
if_live g f current =
    if eqb current.generation g && not current.tombstoned then f current else current
