-- ===== src/Lifecycle/Dependents/Closure.antt =====
-- The search ends, and what it finds.
use text.Mathlib.TextEquality.{eq_iff}
use plecture.Base.{
  String, ℕ, zero, suc, ◌+◌, ◌≤◌, ◌≡◌, refl, ap, subst, ◌⊎◌, inl, inr, Bool, true, not, List, [],
  ◌∷◌, some, arith, ◌==◌, contains, filter, length, count-le-length, All, All-map, Bool-cases,
  eq_of_==, ==-refl,
}
use plecture.Task.Node.{Resolved}
use plecture.Lifecycle.Dependents.{children_of, visit, search_all, transitive_dependents}
use plecture.Lifecycle.Dependents.Visit.{
  Within, IsClosed, unseen, visit-keeps, visit-adds, visit-queued, visit-new, visit_sound,
  visit-measure, children_of-Within, children_of-lists, children_known,
}

some_injective {ℓ} : {A : Type ℓ} {a b : A} → some a ≡ some b → a ≡ b
some_injective h = cc

module _ (ordered : List Resolved) where
  closes :
      (out : List String)
      → ((x : String) → contains out x ≡ true → Within (children_of x ordered) (contains out))
      → IsClosed ordered (contains out)
  closes out w = each ordered (λ d. children_of-lists d ordered)
    where
      each :
          (rs : List Resolved)
          → ((d : String)
              → All
                  (λ r.
                    contains r.depends_on d ≡ true
                    → contains (children_of d ordered) r.node_id ≡ true)
                  rs)
          → IsClosed rs (contains out)
      each [] f = tt
      each (r ∷ rs) f = (λ d k m. w d m r.node_id ((f d).0 k), each rs (λ d. (f d).1))

  search_total :
      (fuel : ℕ) (seen queue : List String)
      → unseen ordered seen + length queue ≤ fuel
      → (out : List String) × (search_all fuel ordered seen queue ≡ some out)
  unfolding search_all
  search_total fuel seen [] h = (seen, refl)
  search_total zero seen (cur ∷ queue) h = absurd (omega (arith, h))
  search_total (suc fuel) seen (cur ∷ queue) h =
      let next = visit seen queue (children_of cur ordered) in
      let m =
        visit-measure ordered seen queue (children_of cur ordered) (children_known cur ordered) in
      search_total fuel next.0 next.1 (omega (arith, m, h))

  -- What has been taken from the queue has its children seen.
  abbrev Taken : List String → List String → Type 0
  Taken seen queue =
      (x : String)
      → contains seen x ≡ true
      → (contains queue x ≡ true) ⊎ Within (children_of x ordered) (contains seen)

  Taken-next :
      (cur : String) (seen queue : List String)
      → Taken seen (cur ∷ queue)
      → Taken
          (visit seen queue (children_of cur ordered)).0
          (visit seen queue (children_of cur ordered)).1
  Taken-next cur seen queue t x h =
      let cs = children_of cur ordered in
      elim (Bool-cases (contains (visit seen queue cs).1 x)) [
        | inl q ↦ inl q
        | inr q ↦ elim (Bool-cases (cur == x)) [
          | inl e ↦ inr (
              subst (λ y. Within (children_of y ordered) (contains (visit seen queue cs).0))
                (eq_of_== cur x e) (visit-adds seen queue cs))
          | inr e ↦ elim (t x (ground (arith, visit-new seen queue cs x h))) [
            | inl k ↦ absurd (ground (arith, visit-queued seen queue cs x))
            | inr w ↦ inr (λ y m. visit-keeps seen queue cs y (w y m))
          ]
        ]
      ]

  search_lem :
      (fuel : ℕ) (seen queue out : List String)
      → search_all fuel ordered seen queue ≡ some out
      → Taken seen queue
      → Within seen (contains out)
        × ((x : String) → contains out x ≡ true → Within (children_of x ordered) (contains out))
        × ((p : String → Bool) → IsClosed ordered p → Within seen p → Within queue p → Within out p)
  unfolding search_all
  search_lem fuel seen [] out h t =
      let same : seen ≡ out = some_injective h in
      (
        λ x m. ground (arith, ap (λ l. contains l x) same),
        λ x m y k. elim (t x (ground (arith, ap (λ l. contains l x) same))) [
          | inl q ↦ absurd (cc q)
          | inr w ↦ subst (λ l. contains l y ≡ true) same (w y k)
        ],
        λ p c a b x m. a x (ground (arith, ap (λ l. contains l x) same)),
      )
  search_lem zero seen (cur ∷ queue) out h t = cc
  search_lem (suc fuel) seen (cur ∷ queue) out h t =
      let cs = children_of cur ordered in
      let next = visit seen queue cs in
      let (keeps, closed, least) =
        search_lem fuel next.0 next.1 out h (Taken-next cur seen queue t) in
      (
        λ x m. keeps x (visit-keeps seen queue cs x m),
        closed,
        λ p c a b.
            let here : p cur ≡ true = b cur (ground (arith, ==-refl cur)) in
            let w = children_of-Within cur ordered p (All-map (λ r f k. f cur k here) ordered c) in
            let (u, v) = visit_sound p seen queue cs a (λ x m. b x (ground arith)) w in
            least p c u v,
      )

  -- `seen` is the least set of names that holds `node_id` and is closed under the dependents.
  pub record IsClosure (node_id : String) (seen : List String) : Type 0 where
    pub start : contains seen node_id ≡ true
    pub closed : IsClosed ordered (contains seen)
    pub least : (p : String → Bool) → IsClosed ordered p → p node_id ≡ true → Within seen p

  alone : (node_id : String) (p : String → Bool) → p node_id ≡ true → Within (node_id ∷ []) p
  alone node_id p h x m = ground (arith, eq_iff node_id x, λ (e : node_id ≡ x). ap p e)

  enough :
      (node_id : String)
      → unseen ordered (node_id ∷ []) + length (node_id ∷ []) ≤ suc (length ordered)
  enough node_id =
      omega (arith, count-le-length (λ r. not (contains (node_id ∷ []) r.node_id)) ordered)

  -- The search for a node's dependents always ends within its fuel, and what it returns are the nodes
  -- of the list, in the list's order, whose names are in the least set that holds the node's name and
  -- with a name also the names of the nodes that depend on it.
  pub transitive_dependents-IsClosure :
      (node_id : String)
      → (seen : List String) × IsClosure node_id seen
        × (transitive_dependents node_id ordered
            ≡ some (filter (λ r. contains seen r.node_id) ordered))
  unfolding transitive_dependents
  transitive_dependents-IsClosure node_id =
      let one = node_id ∷ [] in
      let (out, e) = search_total (suc (length ordered)) one one (enough node_id) in
      let (keeps, closed, least) = search_lem (suc (length ordered)) one one out e (λ x m. inl m) in
      (
        out,
        record {
          start = keeps node_id (ground (arith, ==-refl node_id));
          closed = closes out closed;
          least = λ p c h. least p c (alone node_id p h) (alone node_id p h);
        },
        ground (arith, e),
      )
