-- ===== src/Lifecycle/Cleanup/Release.antt =====
-- What a cleanup leaves of every record.
use text.Mathlib.TextEquality.{eq_iff}
use plecture.Base.{
  String, ◌≡◌, refl, ap, ◌∙◌, subst, inl, inr, Bool, true, false, not, ◌&&◌, ◌||◌, List, [], ◌∷◌,
  Option, none, some, arith, if◌then◌else◌, ◌==◌, lookup, is_none, is_some, contains, all, Distinct,
  eq_of_==, All, All-map, All_both, Bool-cases, Option-cases, ==-refl,
}
use plecture.Task.Node.{Resolved, ids}
use plecture.Lifecycle.Record.{
  is_cleaned, is_produced, TaskState, Tasks, Runner, State, put, RunError,
}
use plecture.Task.Sort.Names.{ids_other}
use plecture.Lifecycle.Cleanup.{cleanup_record, cleanup_node, run_cleanup}

pub lookup-put :
    (id j : String) (st : TaskState) (ts : Tasks)
    → lookup j (put id st ts) ≡ (if id == j then some st else lookup j ts)
unfolding put
lookup-put id j st [] = refl
lookup-put id j st ((k, s) ∷ ts) =
    ground (arith, eq_iff k id, eq_iff id j, eq_iff k j, lookup-put id j st ts)

-- A record that holds nothing: there is none, or it was released.
abbrev pub is_gone : Option TaskState → Bool
is_gone none = true
is_gone (some st) = is_cleaned st.status

abbrev pub is_held : Option TaskState → Bool
is_held none = false
is_held (some st) = is_produced st.status

-- A node is released in its round, on the tasks at its time: it has no record, or a released one; or its definition is
-- known, and the cleanups that its record asks for, of its layers or its own, give no error.
abbrev pub releases : Runner → Resolved → Tasks → Bool
releases go r before = elim (lookup r.node_id before) [
  | none ↦ true
  | some st ↦
      is_cleaned st.status
      || (not r.unresolved && (elim st.layers [
        | [] ↦ if r.cleanup then is_none (go.run_cleanup r st before) else true
        | l ∷ ls ↦ is_none (go.cleanup_layers r st before).1
      ]))
]

-- One node's round, where it is released exactly if `ok`.
record Round (id : String) (ok : Bool) (before after : Tasks) (e : Option RunError) : Type 0 where
  others : (j : String) → (id == j) ≡ false → lookup j after ≡ lookup j before
  known : is_some (lookup id after) ≡ is_some (lookup id before)
  dropped : is_held (lookup id after) ≡ false
  gone : is_gone (lookup id after) ≡ is_none e
  answered : is_gone (lookup id after) ≡ ok

record-Round :
    (go : Runner) (r : Resolved) (st : TaskState) (s : State)
    → lookup r.node_id s.tasks ≡ some st
    → Round r.node_id
        (releases go r s.tasks)
        s.tasks
        (cleanup_record go r st s).0.tasks
        (cleanup_record go r st s).1
unfolding cleanup_record
record-Round go r st s h = record {
  others = λ j n. grind (arith, lookup-put);
  known = grind (arith, lookup-put, ==-refl r.node_id);
  dropped = grind (arith, lookup-put, ==-refl r.node_id);
  gone = grind (arith, lookup-put, ==-refl r.node_id);
  answered = grind (arith, h, lookup-put, ==-refl r.node_id);
}

node-Round :
    (go : Runner) (r : Resolved) (s : State)
    → Round r.node_id
        (releases go r s.tasks)
        s.tasks
        (cleanup_node go r s).0.tasks
        (cleanup_node go r s).1
unfolding cleanup_node
node-Round go r s = elim (Option-cases (lookup r.node_id s.tasks)) [
  | inl n ↦ record {
    others = λ j e. ground (arith, n);
    known = ground (arith, n);
    dropped = ground (arith, n);
    gone = ground (arith, n);
    answered = ground (arith, n);
  }
  | inr (st, e) ↦ rw (e, cleanup_node) (record-Round go r st s e)
]

-- Every node is tried, the last first: in the end it is released exactly if its round releases it, on the tasks that
-- the cleanup of the nodes after it leaves.
abbrev pub Tried : Runner → List Resolved → State → Tasks → Type 0
Tried go [] s after = Unit
Tried go (r ∷ rs) s after =
    (is_gone (lookup r.node_id after) ≡ releases go r (run_cleanup go rs s).0.tasks)
    × Tried go rs s after

-- What a cleanup of the nodes `rs` leaves, with its error.
pub record Released (go : Runner) (rs : List Resolved) (s : State) (after : Tasks)
    (e : Option RunError) : Type 0 where
  pub others : (j : String) → contains (ids rs) j ≡ false → lookup j after ≡ lookup j s.tasks
  pub known : (j : String) → is_some (lookup j after) ≡ is_some (lookup j s.tasks)
  pub dropped : All (λ r. is_held (lookup r.node_id after) ≡ false) rs
  pub gone : is_none e ≡ all (λ r. is_gone (lookup r.node_id after)) rs
  pub tried : Tried go rs s after

none_held :
    (id : String) (ok : Bool) (before mid after : Tasks) (e : Option RunError) (rs : List Resolved)
    → Round id ok mid after e
    → All (λ r. (id == r.node_id) ≡ false) rs
    → All (λ r. is_held (lookup r.node_id mid) ≡ false) rs
    → All (λ r. is_held (lookup r.node_id after) ≡ false) rs
none_held id ok before mid after e rs round away held =
    All-map (λ r h. ap is_held (round.others r.node_id h.0) ∙ h.1) rs (All_both _ _ rs away held)

all_same :
    (id : String) (ok : Bool) (mid after : Tasks) (e : Option RunError) (rs : List Resolved)
    → Round id ok mid after e
    → All (λ r. (id == r.node_id) ≡ false) rs
    → all (λ r. is_gone (lookup r.node_id after)) rs ≡ all (λ r. is_gone (lookup r.node_id mid)) rs
all_same id ok mid after e [] round away = refl
all_same id ok mid after e (r ∷ rs) round away =
    ground (
      arith,
      ap is_gone (round.others r.node_id away.0),
      all_same id ok mid after e rs round away.1,
    )

known_all :
    (id : String) (ok : Bool) (mid after : Tasks) (e : Option RunError)
    → Round id ok mid after e
    → (j : String) → is_some (lookup j after) ≡ is_some (lookup j mid)
known_all id ok mid after e round j = elim (Bool-cases (id == j)) [
  | inl y ↦
      subst (λ k. is_some (lookup k after) ≡ is_some (lookup k mid)) (eq_of_== id j y) round.known
  | inr n ↦ ap is_some (round.others j n)
]

Tried-still :
    (go : Runner) (id : String) (ok : Bool) (mid after : Tasks) (e : Option RunError)
    (rs : List Resolved) (s : State)
    → Round id ok mid after e
    → All (λ r. (id == r.node_id) ≡ false) rs
    → Tried go rs s mid
    → Tried go rs s after
Tried-still go id ok mid after e [] s round away t = tt
Tried-still go id ok mid after e (r ∷ rs) s round away t = (
  ap is_gone (round.others r.node_id away.0) ∙ t.0,
  Tried-still go id ok mid after e rs s round away.1 t.1,
)

-- Whatever the effects answer, a cleanup of different nodes tries them all, from the last to the first in the
-- list, also after an error: a node is released exactly if it has no record or a released one, or its definition is known and
-- the cleanups of its layers, or else its own if it has one, give no error on the tasks at its time. No
-- other record is changed and none dropped; no node of the list is produced afterwards; and
-- no error is returned exactly if every node of the list that has a record is released.
pub run_cleanup-Released :
    (go : Runner) (rs : List Resolved) (s : State)
    → Distinct (ids rs)
    → Released go rs s (run_cleanup go rs s).0.tasks (run_cleanup go rs s).1
unfolding run_cleanup
run_cleanup-Released go [] s d = record {
  others = λ j n. refl;
  known = λ j. refl;
  dropped = tt;
  gone = refl;
  tried = tt;
}
run_cleanup-Released go (r ∷ rs) s d =
    let ih = run_cleanup-Released go rs s d.1 in
    let mid = (run_cleanup go rs s).0 in
    let last = node-Round go r mid in
    let ok = releases go r mid.tasks in
    let after = (cleanup_node go r mid).0.tasks in
    let e = (cleanup_node go r mid).1 in
    let away = ids_other r.node_id rs d.0 in
    record {
      others = λ j n. ground (arith, ih.others j, last.others j);
      known = λ j. known_all r.node_id ok mid.tasks after e last j ∙ ih.known j;
      dropped =
          (last.dropped, none_held r.node_id ok s.tasks mid.tasks after e rs last away ih.dropped);
      gone =
          ground (arith, ih.gone, last.gone, all_same r.node_id ok mid.tasks after e rs last away);
      tried =
          (last.answered, Tried-still go r.node_id ok mid.tasks after e rs s last away ih.tried);
    }
