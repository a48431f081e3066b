-- ===== src/Tree.antt =====
-- The session tree (app/internal/domain/session.go): who is whose parent, sibling or ancestor.
pub mod Ancestors
pub mod Relations
mod Scenarios
use plecture.Base.{
  String, ℕ, zero, suc, Bool, true, false, not, ◌&&◌, List, [], ◌∷◌, Option, none, some,
  if◌then◌else◌, ◌==◌, lookup, contains, length, keys,
}
use plecture.Base.Order.{text_ltb, sort_by}

-- The field of a `Session` that the tree is made of; a nil session is no entry.
pub record Session : Type 0 where
  pub parent_session : String

abbrev pub Sessions : Type 0
Sessions = List (String × Session)

pub data SessionRelation : Type 0 where
  self parent child sibling ancestor descendant unrelated : SessionRelation

abbrev pub implicit_root_parent : String → String
implicit_root_parent name = Prim.Native.String.◌++◌ "root:" name

abbrev pub effective_parent : Session → String → String
effective_parent s name =
    if s.parent_session == "" then implicit_root_parent name else s.parent_session

-- The loop of `isAncestor`, at `cur`, with the names that were seen.
pub climb : ℕ → Sessions → String → List String → String → Bool
climb zero sessions above seen cur = false
climb (suc fuel) sessions above seen cur = elim (lookup cur sessions) [
  | none ↦ false
  | some s ↦
      let further = climb fuel sessions above (cur ∷ seen) s.parent_session in
      if cur == ""
      then false
      else if contains seen cur
      then false
      else if s.parent_session == ""
      then false
      else if s.parent_session == above
      then true
      else further
]

-- Each round sees another entry, so one round more than there are entries is enough.
unfoldable pub is_ancestor : Sessions → String → String → Bool
unfolding climb
is_ancestor sessions above below = climb (suc (length sessions)) sessions above [] below

unfoldable pub relation_from_target : Sessions → String → String → SessionRelation
unfolding is_ancestor
relation_from_target sessions target_name other_name = elim (lookup target_name sessions) [
  | none ↦ unrelated
  | some target ↦ elim (lookup other_name sessions) [
    | none ↦ unrelated
    | some other ↦
        if target_name == other_name
        then self
        else if target.parent_session == other_name
        then parent
        else if other.parent_session == target_name
        then child
        else if effective_parent target target_name == effective_parent other other_name
        then sibling
        else if is_ancestor sessions other_name target_name
        then ancestor
        else if is_ancestor sessions target_name other_name
        then descendant
        else unrelated
  ]
]

-- The members of `Subtree` besides the root.
pub members_below : Sessions → String → List String → List String
unfolding is_ancestor
members_below sessions root [] = []
members_below sessions root (name ∷ names) =
    let rest = members_below sessions root names in
    if not (name == root) && is_ancestor sessions root name then name ∷ rest else rest

-- The names that `Subtree` returns; a missing root has none.
unfoldable pub subtree : Sessions → String → List String
unfolding members_below sort_by
subtree sessions root = elim (lookup root sessions) [
  | none ↦ []
  | some s ↦ sort_by text_ltb (root ∷ members_below sessions root (keys sessions))
]
