-- ===== src/Task/Node.antt =====
-- The compiled workflow node (`Resolved` and `Plan` of app/internal/task/task.go).
use plecture.Base.{String, Bool, List, [], ◌∷◌}

-- `config.TaskScopeSession` and `config.TaskScopeRun`.
pub data Scope : Type 0 where
  session run : Scope

abbrev pub is_session : Scope → Bool
is_session session = Bool.true
is_session run = Bool.false

abbrev pub scope_eq : Scope → Scope → Bool
scope_eq session session = Bool.true
scope_eq session run = Bool.false
scope_eq run session = Bool.false
scope_eq run run = Bool.true

-- The fields of `Resolved` that the planner and the lifecycle read. A pointer to a declaration
-- whose content only the effect runner reads (`Terminal`, `Setup`, `Cleanup`) is kept as its
-- presence; `reads` is `lang.NodeReads(n.Inputs)`; `layers` lists the effect ids of the nesting
-- chain, outermost first.
pub record Resolved : Type 0 where
  pub node_id : String
  pub task_id : String
  pub scope : Scope
  pub terminal : Bool
  pub setup : Bool
  pub cleanup : Bool
  pub reads : List String
  pub depends_on : List String
  pub layers : List String
  pub unresolved : Bool

pub record Plan : Type 0 where
  pub session_nodes : List Resolved
  pub run_nodes : List Resolved

abbrev pub ids : List Resolved → List String
ids [] = []
ids (r ∷ rs) = r.node_id ∷ ids rs
