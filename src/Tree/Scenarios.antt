-- ===== src/Tree/Scenarios.antt =====
-- A small forest, and one with a circle.
use plecture.Base.{String, ◌≡◌, ◌↔◌, refl, ◌⊎◌, true, false, [], ◌∷◌, contains}
use plecture.Tree.{Session, Sessions, SessionRelation, is_ancestor, subtree, relation_from_target}
use plecture.Tree.Ancestors.{Ancestor}
use plecture.Tree.Relations.{Means, subtree-Ancestor, relation_from_target-Means}

abbrev child_of : String → Session
child_of p = record { parent_session = p }

abbrev forest : Sessions
forest =
    ("lead", child_of "")
    ∷ ("work", child_of "lead")
    ∷ ("review", child_of "lead")
    ∷ ("helper", child_of "work")
    ∷ ("x", child_of "y")
    ∷ ("y", child_of "x")
    ∷ []

helper_below : is_ancestor forest "lead" "helper" ≡ true
unfolding is_ancestor
helper_below = refl

-- The circle of "x" and "y" does not keep the test from ending.
circle_ends : is_ancestor forest "lead" "x" ≡ false
unfolding is_ancestor
circle_ends = refl

reviewer : relation_from_target forest "work" "review" ≡ SessionRelation.sibling
unfolding relation_from_target
reviewer = refl

below_lead : subtree forest "lead" ≡ "helper" ∷ "lead" ∷ "review" ∷ "work" ∷ []
unfolding subtree
below_lead = refl

abbrev work : String
work = "work"

abbrev helper : String
helper = "helper"

subtree-Ancestor_example :
    contains (subtree forest work) helper ≡ true ↔ ((work ≡ helper) ⊎ Ancestor forest work helper)
subtree-Ancestor_example = subtree-Ancestor forest work (child_of "lead") refl helper

relation_from_target-Means_example :
    Means forest (relation_from_target forest "work" "review") "work" "review"
relation_from_target-Means_example =
    relation_from_target-Means forest "work" "review" (child_of "lead") (child_of "lead") refl refl
