-- ===== src/Task/Plan/Checks.antt =====
-- What the checks of `assemblePlan` establish when they pass.
use mathlib.Core.List.{Memᴰ}
use text.Mathlib.TextEquality.{eq_iff}
use plecture.Base.{
  String, ◌≤◌, ◌≡◌, refl, ap, ◌∙◌, inl, inr, false, List, [], ◌∷◌, some, arith, ◌==◌, count,
  contains, Distinct, All, All-map, Bool-cases, Option-cases, eq_of_==,
}
use plecture.Task.Node.{session, run, Resolved, Plan, ids}
use plecture.Task.Sort.{SortResult, sorted, cycle, cycle_involving, out_of_fuel, topo_sort_nodes}
use plecture.Task.Plan.{
  Compiled, compiled, refused, ◌>>=◌, by_id, outlives, check_duplicates, check_terminals,
  check_deps, check_each, filter_by_scope, sort_result, assemble_plan,
}

-- The parts of a successful chain.
pub >>=-eq-compiled {ℓ κ} :
    {From : Type ℓ} {To : Type κ} (first : Compiled From) (next : From → Compiled To) {end : To}
    → (first >>= next) ≡ compiled end
    → (mid : From) × (first ≡ compiled mid) × (next mid ≡ compiled end)
>>=-eq-compiled (refused problem) next both = cc
>>=-eq-compiled (compiled mid) next both = (mid, refl, both)

pub sort_result-eq-compiled :
    (s : SortResult) (out : List Resolved) → sort_result s ≡ compiled out → s ≡ sorted out
sort_result-eq-compiled (sorted o) out h = cc
sort_result-eq-compiled (cycle_involving i) out h = cc
sort_result-eq-compiled cycle out h = cc
sort_result-eq-compiled out_of_fuel out h = cc

pub by_id-some :
    (nodes : List Resolved) (d : String) (q : Resolved)
    → by_id nodes d ≡ some q
    → Memᴰ q nodes × (q.node_id ≡ d)
by_id-some [] d q h = cc
by_id-some (r ∷ rs) d q h = elim (Option-cases (by_id rs d)) [
  | inl n ↦ elim (Bool-cases (r.node_id == d)) [
    | inl e ↦
        let same : some r ≡ some q = ground arith in
        (Memᴰ.head (cc same), cc (eq_of_== r.node_id d e, same))
    | inr e ↦ absurd (ground arith)
  ]
  | inr (x, e) ↦ let (m, p) = by_id-some rs d q (ground arith) in (Memᴰ.tail m, p)
]

duplicates_checked :
    (seen : List String) (rs : List Resolved)
    → check_duplicates seen rs ≡ compiled tt
    → All (λ r. contains seen r.node_id ≡ false) rs × Distinct (ids rs)
unfolding check_duplicates
duplicates_checked seen [] h = (tt, tt)
duplicates_checked seen (r ∷ rs) h = elim (Bool-cases (contains seen r.node_id)) [
  | inl e ↦ absurd (ground arith)
  | inr e ↦
      let (fresh, distinct) = duplicates_checked (r.node_id ∷ seen) rs (ground arith) in
      ((e, All-map (λ q g. ground arith) rs fresh), (unnamed rs fresh, distinct))
]
  where
    unnamed :
        (qs : List Resolved)
        → All (λ q. contains (r.node_id ∷ seen) q.node_id ≡ false) qs
        → contains (ids qs) r.node_id ≡ false
    unnamed [] g = refl
    unnamed (q ∷ qs) g =
        ground (arith, eq_iff q.node_id r.node_id, eq_iff r.node_id q.node_id, unnamed qs g.1)

-- A dependency that the scope check accepts.
abbrev pub GoodDep : List Resolved → Resolved → String → Type 0
GoodDep nodes r d = (q : Resolved) × (by_id nodes d ≡ some q) × (outlives r.scope q.scope ≡ false)

deps_checked :
    (nodes : List Resolved) (r : Resolved) (deps : List String)
    → check_deps nodes r deps ≡ compiled tt
    → All (GoodDep nodes r) deps
unfolding check_deps
deps_checked nodes r [] h = tt
deps_checked nodes r (d ∷ deps) h = elim (Option-cases (by_id nodes d)) [
  | inl n ↦ absurd (ground arith)
  | inr (q, e) ↦ elim (Bool-cases (outlives r.scope q.scope)) [
    | inl bad ↦ absurd (ground arith)
    | inr good ↦ ((q, e, good), deps_checked nodes r deps (ground arith))
  ]
]

pub each_checked :
    (nodes rs : List Resolved)
    → check_each nodes rs ≡ compiled tt
    → All (λ r. All (GoodDep nodes r) r.depends_on) rs
unfolding check_each
each_checked nodes [] h = tt
each_checked nodes (r ∷ rs) h =
    let (u, p, q) =
      >>=-eq-compiled (check_deps nodes r r.depends_on) (λ _. check_each nodes rs) h in
    (deps_checked nodes r r.depends_on p, each_checked nodes rs q)

terminals_left :
    (id : String) (rs : List Resolved)
    → (id == "") ≡ false
    → check_terminals id rs ≡ compiled tt
    → count (λ r. r.terminal) rs ≡ 0
unfolding check_terminals
terminals_left id [] n h = refl
terminals_left id (r ∷ rs) n h = ground (arith, terminals_left id rs n)

terminals_checked :
    (rs : List Resolved)
    → All (λ r. (r.node_id == "") ≡ false) rs
    → check_terminals "" rs ≡ compiled tt
    → count (λ r. r.terminal) rs ≤ 1
unfolding check_terminals
terminals_checked [] n h = omega arith
terminals_checked (r ∷ rs) n h =
    ground (arith, terminals_left r.node_id rs n.0, terminals_checked rs n.1)

-- What a plan that was assembled says of its nodes.
pub record IsChecked (nodes : List Resolved) (plan : Plan) : Type 0 where
  pub distinct : Distinct (ids nodes)
  pub terminals : check_terminals "" nodes ≡ compiled tt
  pub deps : All (λ r. All (GoodDep nodes r) r.depends_on) nodes
  pub sessions : topo_sort_nodes (filter_by_scope nodes session) ≡ sorted plan.session_nodes
  pub runs : topo_sort_nodes (filter_by_scope nodes run) ≡ sorted plan.run_nodes

plan_parts :
    (s t : List Resolved) (plan : Plan)
    → compiled (record { session_nodes = s; run_nodes = t }) ≡ compiled plan
    → (s ≡ plan.session_nodes) × (t ≡ plan.run_nodes)
plan_parts s t plan h = ground arith

pub assemble_plan-IsChecked :
    (nodes : List Resolved) (plan : Plan)
    → assemble_plan nodes ≡ compiled plan
    → IsChecked nodes plan
unfolding assemble_plan
assemble_plan-IsChecked nodes plan h =
    let (_, dup, h1) = >>=-eq-compiled (check_duplicates [] nodes) _ h in
    let (_, term, h2) = >>=-eq-compiled (check_terminals "" nodes) _ h1 in
    let (_, each, h3) = >>=-eq-compiled (check_each nodes nodes) _ h2 in
    let (s, ss, h4) =
      >>=-eq-compiled (sort_result (topo_sort_nodes (filter_by_scope nodes session))) _ h3 in
    let (t, rs, h5) =
      >>=-eq-compiled (sort_result (topo_sort_nodes (filter_by_scope nodes run))) _ h4 in
    record {
      distinct = (duplicates_checked [] nodes dup).1;
      terminals = term;
      deps = each_checked nodes nodes each;
      sessions = sort_result-eq-compiled _ _ ss ∙ ap sorted (plan_parts s t plan h5).0;
      runs = sort_result-eq-compiled _ _ rs ∙ ap sorted (plan_parts s t plan h5).1;
    }
