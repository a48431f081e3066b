-- ===== src/Population/Source.antt =====
-- What a source reports: `ApplyPoll` and `ApplyAppearance` of app/internal/population/engine.go.
pub mod Poll
use plecture.Base.{
  String, ℕ, suc, ◌%◌, ◌^◌, Bool, true, false, not, ◌&&◌, ◌||◌, ◌∷◌, List, [], Option, none, some,
  ◌⊎◌, inl, inr, if◌then◌else◌, ◌==◌, contains, lookup, keys, is_some,
}
use plecture.Population.Member.{Member, Members, Population, Failure, new_member}
use plecture.Population.World.{World, Env, update_population, adjust}
use plecture.Population.Admit.{clear_admit_retry}
use plecture.Population.Sweep.{reconcile}

-- What is wrong with an item of a query.
pub data ItemError : Type 0 where
  invalid_item input_error : Failure → ItemError
  duplicate_resource not_observed not_provided : String → ItemError

pub data PassError : Type 0 where
  bad_item : ItemError → PassError
  pass_failed : Failure → PassError

-- `uint64` wraps.
abbrev pub next_generation : ℕ → ℕ
next_generation g = suc g % 2 ^ 64

-- The value under a key is replaced, or a first one is added.
pub upsert : String → (Option Member → Member) → Members → Members
upsert k f [] = (k, f none) ∷ []
upsert k f ((j, m) ∷ ms) = if j == k then (j, f (some m)) ∷ ms else (j, m) ∷ upsert k f ms

-- A tombstoned member that is listed again.
abbrev pub revive : Member → Member
revive m = clear_admit_retry (record m {
  generation = next_generation m.generation;
  tombstoned = false;
  pending_up = true;
  accepted_at = 0;
  last_appearance = 0;
  last_inbound = 0;
  last_decision = "";
  last_blockers = [];
})

-- A member that the poll lists.
pub listed : String → String → Option Member → Member
listed resource item old =
    let m : Member = elim old [
      | none ↦ record (new_member resource 1) { pending_up = true }
      | some m ↦ if m.tombstoned then revive m else m
    ] in
    record m { item = item; pending_up = m.pending_up || m.session_name == "" }

-- A member that the poll does not list.
abbrev pub unlisted : Member → Member
unlisted m =
    if m.tombstoned
    then m
    else clear_admit_retry
        (record m { tombstoned = true; pending_up = false; last_decision = ""; last_blockers = [] })

pub list_all : List (String × String) → Members → Members
unfolding upsert listed
list_all [] ms = ms
list_all ((resource, item) ∷ items) ms = list_all items (upsert resource (listed resource item) ms)

pub unlist_rest : List String → Members → Members
unlist_rest present [] = []
unlist_rest present ((resource, m) ∷ ms) =
    (resource, if contains present resource then m else unlisted m) ∷ unlist_rest present ms

-- The change that `ApplyPoll` makes to the members.
pub poll_members : List (String × String) → Members → Members
unfolding list_all unlist_rest
poll_members items ms = unlist_rest (keys items) (list_all items ms)

-- A member that appears.
pub appeared : ℕ → String → String → Option Member → Member
appeared now resource item old =
    let m : Member = elim old [
      | none ↦ new_member resource 1
      | some m ↦ if m.tombstoned then new_member resource (next_generation m.generation) else m
    ] in
    record m {
      item = item;
      last_appearance = now;
      pending_up = true;
      tombstoned = false;
      last_decision = "";
      last_blockers = [];
    }

-- An appearance that a poll has overruled.
abbrev pub suppressed : Bool → Option Member → Bool
suppressed uses_poll none = false
suppressed uses_poll (some m) = m.tombstoned && uses_poll

pub appear_members : Bool → ℕ → String → String → Members → Members
unfolding upsert appeared
appear_members uses_poll now resource item ms =
    if suppressed uses_poll (lookup resource ms)
    then ms
    else upsert resource (appeared now resource item) ms

module _ (env : Env) where
  unfoldable pub validate_items : List String → List String → ItemError ⊎ List (String × String)
  validate_items seen [] = inr []
  validate_items seen (item ∷ items) = elim (env.item_resource item) [
    | inl e ↦ inl (invalid_item e)
    | inr resource ↦
        if contains seen resource
        then inl (duplicate_resource resource)
        else if not (env.observed resource)
        then inl (not_observed resource)
        else if not (env.provided resource)
        then inl (not_provided resource)
        else elim (env.session_inputs resource item) [
          | inl e ↦ inl (input_error e)
          | inr inputs ↦ elim (validate_items (resource ∷ seen) items) [
            | inl e ↦ inl e
            | inr rest ↦ inr ((resource, item) ∷ rest)
          ]
        ]
  ]

  abbrev then_reconcile : World × Option Failure → World × Option PassError
  then_reconcile (w, some e) = (w, some (pass_failed e))
  then_reconcile (w, none) =
      let (w', e) = reconcile env w in (w', elim e [ none ↦ none | some f ↦ some (pass_failed f) ])

  unfoldable pub apply_poll : World → List String → World × Option PassError
  unfolding validate_items update_population poll_members reconcile
  apply_poll w items = elim (validate_items [] items) [
    | inl e ↦ (w, some (bad_item e))
    | inr present ↦ then_reconcile (update_population env w (poll_members present))
  ]

  unfoldable pub apply_appearance : World → String → World × Option PassError
  unfolding validate_items update_population appear_members reconcile
  apply_appearance w item = elim (validate_items [] (item ∷ [])) [
    | inl e ↦ (w, some (bad_item e))
    | inr [] ↦ (w, none)
    | inr ((resource, i) ∷ _) ↦
        let (w', stored) =
          update_population env w (appear_members env.uses_poll env.now resource i) in
        let overruled =
          suppressed env.uses_poll
            (lookup resource (elim w.population [ none ↦ [] | some p ↦ p.members ])) in
        elim stored [
          | some e ↦ (w', some (pass_failed e))
          | none ↦ if overruled then (w', none) else then_reconcile (w', none)
        ]
  ]
