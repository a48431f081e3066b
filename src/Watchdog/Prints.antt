-- ===== src/Watchdog/Prints.antt =====
-- The fingerprints that the walk over the nodes collects.
use mathlib.Core.List.{append_assoc}
use plecture.Base.{
  String, ◌≡◌, Bool, List, [], ◌∷◌, ◌++◌, Option, none, some, arith, if◌then◌else◌, refl, ap, ◌∙◌,
  sym, append_nil, Option-cases, inl, inr,
}
use plecture.Events.Patterns.{◌⧺◌}
use plecture.Watchdog.{
  Alive, Activity, Target, Found, Walk, see_alive, see_activity, see_targets, see_node, see_nodes,
}

-- The fingerprints of the signals, each with its label, in the order of the nodes.
abbrev pub print_of : Target → List String
print_of t = elim t.activity [
  | none ↦ []
  | some Activity.broken ↦ []
  | some Activity.no_basis ↦ []
  | some (Activity.signal silence fingerprint) ↦ (t.label ⧺ (":" ⧺ fingerprint)) ∷ []
]

abbrev pub prints_of : List Target → List String
prints_of [] = []
prints_of (t ∷ ts) = print_of t ++ prints_of ts

abbrev pub found_prints : Found → List String
found_prints Found.missing = []
found_prints Found.cleaned = []
found_prints (Found.failed e) = []
found_prints Found.other = []
found_prints (Found.uncomposed e has_alive) = []
found_prints (Found.produced ts) = prints_of ts

abbrev pub node_prints : List (String × Found) → List String
node_prints [] = []
node_prints ((id, found) ∷ nodes) = found_prints found ++ node_prints nodes

abbrev pub prints : Bool → List (String × Found) → List String
prints gate_open nodes = if gate_open then node_prints nodes else []

see_alive-prints :
    (label : String) (a : Option Alive) (w : Walk)
    → (see_alive label a w).fingerprints ≡ w.fingerprints
unfolding see_alive
see_alive-prints label none w = refl
see_alive-prints label (some Alive.passed) w = refl
see_alive-prints label (some (Alive.exited e)) w = ground arith
see_alive-prints label (some (Alive.undecided e)) w = ground arith

see_activity-prints :
    (t : Target) (w : Walk)
    → (see_activity t.label t.activity w).fingerprints ≡ w.fingerprints ++ print_of t
unfolding see_activity
see_activity-prints t w = elim (Option-cases t.activity) [
  | inl n ↦ ground (arith, n, append_nil w.fingerprints)
  | inr (Activity.broken, n) ↦ ground (arith, n, append_nil w.fingerprints)
  | inr (Activity.no_basis, n) ↦ ground (arith, n, append_nil w.fingerprints)
  | inr (Activity.signal silence fingerprint, n) ↦ ground (arith, n)
]

see_targets-prints :
    (ts : List Target) (w : Walk) → (see_targets ts w).fingerprints ≡ w.fingerprints ++ prints_of ts
unfolding see_targets
see_targets-prints [] w = sym (append_nil w.fingerprints)
see_targets-prints (t ∷ ts) w =
    let w' = see_alive t.label t.alive w in
    see_targets-prints ts (see_activity t.label t.activity w')
    ∙ (ap (λ l. l ++ prints_of ts)
          (see_activity-prints t w'
            ∙ ap (λ l. l ++ print_of t) (see_alive-prints t.label t.alive w))
        ∙ append_assoc w.fingerprints (print_of t) (prints_of ts))

see_node-prints :
    (observing : Bool) (id : String) (found : Found) (w : Walk)
    → (see_node observing id found w).fingerprints ≡ w.fingerprints ++ found_prints found
unfolding see_node
see_node-prints observing id Found.missing w = ground (arith, append_nil w.fingerprints)
see_node-prints observing id Found.cleaned w = sym (append_nil w.fingerprints)
see_node-prints observing id (Found.failed e) w = ground (arith, append_nil w.fingerprints)
see_node-prints observing id Found.other w = sym (append_nil w.fingerprints)
see_node-prints observing id (Found.uncomposed e has_alive) w =
    ground (arith, append_nil w.fingerprints)
see_node-prints observing id (Found.produced ts) w = see_targets-prints ts w

pub see_nodes-prints :
    (observing : Bool) (nodes : List (String × Found)) (w : Walk)
    → (see_nodes observing nodes w).fingerprints ≡ w.fingerprints ++ node_prints nodes
unfolding see_nodes
see_nodes-prints observing [] w = sym (append_nil w.fingerprints)
see_nodes-prints observing ((id, found) ∷ nodes) w =
    see_nodes-prints observing nodes (see_node observing id found w)
    ∙ (ap (λ l. l ++ node_prints nodes) (see_node-prints observing id found w)
        ∙ append_assoc w.fingerprints (found_prints found) (node_prints nodes))
