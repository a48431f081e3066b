-- ===== src/Population/Member.antt =====
-- The durable state of a population (`PopulationState` and `PopulationMember` of
-- app/internal/domain/runtimestate.go), the sessions, errors and outcomes that the engine reads.
use plecture.Base.{
  String, ℕ, Bool, true, false, ◌||◌, List, [], Option, none, some, ◌==◌, if◌then◌else◌,
}

-- Times are nanoseconds since the zero time of Go, which `IsZero` tests; `item` is the item's
-- JSON text, which only the input expressions read.
pub record Member : Type 0 where
  pub resource_id : String
  pub item : String
  pub session_name : String
  pub generation : ℕ
  pub accepted_at : ℕ
  pub last_appearance : ℕ
  pub last_inbound : ℕ
  pub tombstoned : Bool
  pub pending_up : Bool
  pub consecutive_admit_failures : ℕ
  pub last_admit_reason : String
  pub last_admit_error : String
  pub admit_retry_at : ℕ
  pub admit_suspended : Bool
  pub last_decision : String
  pub last_blockers : List String

abbrev pub Members : Type 0
Members = List (String × Member)

pub record Population : Type 0 where
  pub workflow : String
  pub name : String
  pub members : Members

-- A literal `&PopulationMember{ResourceID: resource, Generation: generation}`.
abbrev pub new_member : String → ℕ → Member
new_member resource generation = record {
  resource_id = resource;
  item = "";
  session_name = "";
  generation = generation;
  accepted_at = 0;
  last_appearance = 0;
  last_inbound = 0;
  tombstoned = false;
  pending_up = false;
  consecutive_admit_failures = 0;
  last_admit_reason = "";
  last_admit_error = "";
  admit_retry_at = 0;
  admit_suspended = false;
  last_decision = "";
  last_blockers = [];
}

abbrev pub has_session : Member → Bool
has_session m = if m.session_name == "" then false else true

-- The codes of `service.Error` that the engine tells apart.
pub data Code : Type 0 where
  invalid_input child_cap_exceeded child_up_in_progress other_code : Code

-- An error as `errors.As` sees it: its text, and what its chain holds: the session of a
-- `populationConflictError`, an `initialTaskCleanupRequiredError`, a `pendingPriorityError`, the
-- code of a `service.Error`.
pub record Failure : Type 0 where
  pub text : String
  pub conflict : Option String
  pub initial_cleanup : Bool
  pub pending_priority : Bool
  pub code : Option Code

abbrev pub text_failure : String → Failure
text_failure t = record {
  text = t;
  conflict = none;
  initial_cleanup = false;
  pending_priority = false;
  code = none;
}

abbrev pub code_is : Code → Option Code → Bool
code_is _ none = false
code_is invalid_input (some invalid_input) = true
code_is child_cap_exceeded (some child_cap_exceeded) = true
code_is child_up_in_progress (some child_up_in_progress) = true
code_is other_code (some other_code) = true
code_is _ (some _) = false

abbrev pub is_cap_error : Failure → Bool
is_cap_error f = code_is child_cap_exceeded f.code

abbrev pub is_capacity_refusal : Failure → Bool
is_capacity_refusal f = is_cap_error f || f.pending_priority

-- The fields of `domain.Session` that the engine reads.
pub record Session : Type 0 where
  pub name : String
  pub down : Bool
  pub sleep_since : ℕ

pub record UpOutcome : Type 0 where
  pub session_name : String
  pub already_up : Bool
  pub sleeping : Bool
  pub woke : Bool
