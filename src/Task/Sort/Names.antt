-- ===== src/Task/Sort/Names.antt =====
-- The names of a list of nodes, under append and filter.
use mathlib.Core.List.{Memᴰ}
use text.Mathlib.TextEquality.{eq_iff}
use plecture.Base.{
  String, ◌≡◌, refl, ap, Bool, true, false, List, [], ◌∷◌, ◌++◌, arith, ◌==◌, contains, Distinct,
  All, All-map, All_both, filter, ==-refl,
}
use plecture.Task.Node.{Resolved, ids}

pub ids-append : (xs ys : List Resolved) → ids (xs ++ ys) ≡ ids xs ++ ids ys
ids-append [] ys = refl
ids-append (x ∷ xs) ys = ap (λ l. x.node_id ∷ l) (ids-append xs ys)

-- Whether a kept node stands in the filtered list is decided by the test.
ids-filter_other :
    (p : Resolved → Bool) (s : String) (rs : List Resolved)
    → contains (ids rs) s ≡ false
    → contains (ids (filter p rs)) s ≡ false
ids-filter_other p s [] h = refl
ids-filter_other p s (r ∷ rs) h = ground (arith, ids-filter_other p s rs)

pub ids-filter-Distinct :
    (p : Resolved → Bool) (rs : List Resolved) → Distinct (ids rs) → Distinct (ids (filter p rs))
ids-filter-Distinct p [] d = tt
ids-filter-Distinct p (r ∷ rs) d =
    ground (arith, ids-filter-Distinct p rs d.1, ids-filter_other p r.node_id rs d.0)

-- No node of the list has a name that the list lacks.
pub ids_other :
    (s : String) (rs : List Resolved)
    → contains (ids rs) s ≡ false
    → All (λ r. (s == r.node_id) ≡ false) rs
ids_other s [] h = tt
ids_other s (r ∷ rs) h =
    (ground (arith, eq_iff s r.node_id, eq_iff r.node_id s), ids_other s rs (ground arith))

pub ids-filter_all :
    (p : Resolved → Bool) (rs : List Resolved)
    → Distinct (ids rs)
    → All (λ r. contains (ids (filter p rs)) r.node_id ≡ p r) rs
ids-filter_all p [] d = tt
ids-filter_all p (r ∷ rs) d = (
  ground (arith, ids-filter_other p r.node_id rs d.0, ==-refl r.node_id),
  All-map (λ q h. keep q h.0 h.1) rs
      (All_both _ _ rs (ids_other r.node_id rs d.0) (ids-filter_all p rs d.1)),
)
  where
    keep :
        (q : Resolved)
        → (r.node_id == q.node_id) ≡ false
        → contains (ids (filter p rs)) q.node_id ≡ p q
        → contains (ids (filter p (r ∷ rs))) q.node_id ≡ p q
    keep q e h = ground arith

pub contains_mem :
    (r : Resolved) (rs : List Resolved) → Memᴰ r rs → contains (ids rs) r.node_id ≡ true
contains_mem r [] m = elim m [ ]
contains_mem r (x ∷ rs) (Memᴰ.head e) = rw (← e) (ground (arith, ==-refl r.node_id))
contains_mem r (x ∷ rs) (Memᴰ.tail m) = ground (arith, contains_mem r rs m)

pub All-ids {κ} :
    (P : String → Type κ) (rs : List Resolved) → All (λ r. P r.node_id) rs → All P (ids rs)
All-ids P [] h = tt
All-ids P (r ∷ rs) h = (h.0, All-ids P rs h.1)
