-- ===== src/Task/Plan/Blocks.antt =====
-- The edges that `deriveDependsOn` and `applyBlocks` add are edges of the compiled nodes.
use plecture.Base.{
  String, ◌≡◌, refl, sym, subst, ap, ◌∙◌, inl, inr, true, not, ◌&&◌, List, [], ◌∷◌, ◌++◌, none,
  some, arith, ◌==◌, length, contains, is_some, All, All-map, Bool-cases, Option-cases,
  contains-append, ==-refl, eqb,
}
use plecture.Task.Node.{Resolved, Plan, ids}
use plecture.Task.Sort.Order.{IsSetupOrder}
use plecture.Task.Plan.{
  compiled, by_id, derive_reads, derive_each, derive_depends_on, has_dep, add_dep, block_targets,
  block_each, zip_ids, apply_blocks, assemble_plan, compile_workflow, up_order,
}
use plecture.Task.Plan.Checks.{>>=-eq-compiled}
use plecture.Task.Plan.UpOrder.{assemble_plan-IsSetupOrder}

-- The node that the id `t` denotes depends on `src`.
abbrev pub DependsOn : List Resolved → String → String → Type 0
DependsOn nodes t src =
    (q : Resolved) × (by_id nodes t ≡ some q) × (contains q.depends_on src ≡ true)

is_some-by_id : (rs : List Resolved) (d : String) → is_some (by_id rs d) ≡ contains (ids rs) d
is_some-by_id [] d = refl
is_some-by_id (r ∷ rs) d = ground (arith, is_some-by_id rs d)

ids-add_dep : (t src : String) (nodes : List Resolved) → ids (add_dep t src nodes) ≡ ids nodes
unfolding add_dep
ids-add_dep t src [] = refl
ids-add_dep t src (r ∷ rs) = ground (arith, ids-add_dep t src rs)

contains-concat : (ds : List String) (s : String) → contains (ds ++ s ∷ []) s ≡ true
contains-concat ds s = ground (arith, contains-append ds (s ∷ []) s, ==-refl s)

add_dep-keeps :
    (t src : String) (nodes : List Resolved) (x s : String)
    → DependsOn nodes x s
    → DependsOn (add_dep t src nodes) x s
unfolding add_dep
add_dep-keeps t src [] x s (q, e, h) = (q, e, h)
add_dep-keeps t src (r ∷ rs) x s (q, e, h) =
    elim (Bool-cases (r.node_id == t && not (contains (ids rs) t))) [
      | inl here ↦ elim (Option-cases (by_id rs x)) [
        | inr (y, f) ↦ (q, ground arith, h)
        | inl n ↦ (
          record r { depends_on = r.depends_on ++ src ∷ [] },
          ground arith,
          ground (arith, contains-append r.depends_on (src ∷ []) s, at_head n),
        )
      ]
      | inr there ↦ elim (Option-cases (by_id rs x)) [
        | inr (y, f) ↦
            let (q', e', h') = add_dep-keeps t src rs x s (q, ground arith, h) in
            (q', ground arith, h')
        | inl n ↦ (
          q,
          ground (
            arith,
            is_some-by_id rs x,
            is_some-by_id (add_dep t src rs) x,
            ap (λ l. contains l x) (ids-add_dep t src rs),
          ),
          h,
        )
      ]
    ]
  where
    at_head : by_id rs x ≡ none → contains r.depends_on s ≡ true
    at_head n = ground arith

add_dep-adds :
    (t src : String) (nodes : List Resolved)
    → contains (ids nodes) t ≡ true
    → DependsOn (add_dep t src nodes) t src
unfolding add_dep
add_dep-adds t src [] h = cc
add_dep-adds t src (r ∷ rs) h = elim (Bool-cases (contains (ids rs) t)) [
  | inl later ↦ let (q, e, d) = add_dep-adds t src rs later in (q, ground arith, d)
  | inr last ↦ (
    record r { depends_on = r.depends_on ++ src ∷ [] },
    ground (arith, is_some-by_id rs t),
    contains-concat r.depends_on src,
  )
]

ok_injective {ℓ} : {A : Type ℓ} {a b : A} → compiled a ≡ compiled b → a ≡ b
ok_injective h = cc

-- What one node's list of targets leaves in place, and what it adds.
pub record Linked (nodes nodes' : List Resolved) : Type 0 where
  pub same_ids : ids nodes' ≡ ids nodes
  pub keeps : (x s : String) → DependsOn nodes x s → DependsOn nodes' x s

Linked-trans : {a b c : List Resolved} → Linked a b → Linked b c → Linked a c
Linked-trans p q = record {
  same_ids = q.same_ids ∙ p.same_ids;
  keeps = λ x s d. q.keeps x s (p.keeps x s d);
}

add_dep-Linked : (t src : String) (nodes : List Resolved) → Linked nodes (add_dep t src nodes)
add_dep-Linked t src nodes = record {
  same_ids = ids-add_dep t src nodes;
  keeps = add_dep-keeps t src nodes;
}

targets-Linked :
    (src : String) (targets : List String) (nodes nodes' : List Resolved)
    → block_targets src targets nodes ≡ compiled nodes'
    → Linked nodes nodes' × All (λ t. DependsOn nodes' t src) targets
unfolding block_targets
targets-Linked src [] nodes nodes' h =
    let same = ok_injective h in
    (
      record { same_ids = sym (ap ids same); keeps = λ x s d. subst (λ l. DependsOn l x s) same d },
      tt,
    )
targets-Linked src (t ∷ ts) nodes nodes' h = elim (Option-cases (by_id nodes t)) [
  | inl n ↦ absurd (ground arith)
  | inr (q, e) ↦ elim (Bool-cases (has_dep q.depends_on src)) [
    | inl has ↦
        let (l, a) = targets-Linked src ts nodes nodes' (ground arith) in
        (l, (l.keeps t src (q, e, has), a))
    | inr lacks ↦
        let (l, a) = targets-Linked src ts (add_dep t src nodes) nodes' (ground arith) in
        let known : contains (ids nodes) t ≡ true = ground (arith, is_some-by_id nodes t) in
        (
          Linked-trans (add_dep-Linked t src nodes) l,
          (l.keeps t src (add_dep-adds t src nodes known), a),
        )
  ]
]

abbrev pub Blocked : List Resolved → String × List String → Type 0
Blocked nodes p = All (λ t. DependsOn nodes t p.0) p.1

blocks-Linked :
    (pairs : List (String × List String)) (nodes nodes' : List Resolved)
    → block_each pairs nodes ≡ compiled nodes'
    → Linked nodes nodes' × All (Blocked nodes') pairs
unfolding block_each
blocks-Linked [] nodes nodes' h =
    let same = ok_injective h in
    (
      record { same_ids = sym (ap ids same); keeps = λ x s d. subst (λ l. DependsOn l x s) same d },
      tt,
    )
blocks-Linked ((src, ts) ∷ rest) nodes nodes' h =
    let (mid, p, q) = >>=-eq-compiled (block_targets src ts nodes) (block_each rest) h in
    let (l, a) = targets-Linked src ts nodes mid p in
    let (m, b) = blocks-Linked rest mid nodes' q in
    (Linked-trans l m, (All-map (λ t d. m.keeps t src d) ts a, b))

-- The edges of the input wiring.
reads_derived :
    (nodes : List Resolved) (n m : Resolved) (refs : List String)
    → derive_reads nodes n refs ≡ compiled m
    → (m.node_id ≡ n.node_id)
      × ((s : String) → contains n.depends_on s ≡ true → contains m.depends_on s ≡ true)
      × All (λ s. contains m.depends_on s ≡ true) refs
unfolding derive_reads
reads_derived nodes n m [] h = (ground arith, λ s k. ground arith, tt)
reads_derived nodes n m (ref ∷ refs) h = elim (Option-cases (by_id nodes ref)) [
  | inl e ↦ absurd (ground arith)
  | inr (dep, e) ↦
      let n' = record n { depends_on = n.depends_on ++ ref ∷ [] } in
      let (i, k, a) = reads_derived nodes n' m refs (ground arith) in
      (
        i,
        λ s g. k s (ground (arith, contains-append n.depends_on (ref ∷ []) s)),
        (k ref (contains-concat n.depends_on ref), a),
      )
]

-- Node by node, the derived list has the ids of the declared one and its reads as edges.
abbrev pub Derived : List Resolved → List Resolved → Type 0
Derived [] [] = Unit
Derived [] (m ∷ ms) = ⊥
Derived (n ∷ ns) [] = ⊥
Derived (n ∷ ns) (m ∷ ms) =
    ((m.node_id ≡ n.node_id) × All (λ s. contains m.depends_on s ≡ true) n.reads) × Derived ns ms

each-Derived : (nodes ns ms : List Resolved) → derive_each nodes ns ≡ compiled ms → Derived ns ms
unfolding derive_each
each-Derived nodes [] ms h = subst (Derived []) (ok_injective h) tt
each-Derived nodes (n ∷ ns) ms h =
    let (m, p, q) = >>=-eq-compiled (derive_reads nodes n n.reads) _ h in
    let (rest, u, v) = >>=-eq-compiled (derive_each nodes ns) _ q in
    let (i, k, a) = reads_derived nodes n m n.reads p in
    subst (Derived (n ∷ ns)) (ok_injective v) ((i, a), each-Derived nodes ns rest u)

-- The nodes behind a compiled plan: the declared ones with an edge for each read and each block.
pub record IsCompiled (nodes : List Resolved) (blocks : List (List String)) (plan : Plan)
    (derived linked : List Resolved) : Type 0 where
  pub reads : Derived nodes derived
  pub linked_from : Linked derived linked
  pub paired : length blocks ≡ length derived
  pub blocked : All (Blocked linked) (zip_ids derived blocks)
  pub order : IsSetupOrder linked (up_order plan)

-- When `CompileWorkflow` succeeds, there is a node for each declared node, with the same ids; each
-- node depends on every node that its inputs read; each node named in a `blocks` list depends on
-- the node that declares the list; and the plan's order sets up every node once, after all the
-- nodes that it depends on.
pub compile_workflow-IsCompiled :
    (nodes : List Resolved) (blocks : List (List String)) (plan : Plan)
    → compile_workflow nodes blocks ≡ compiled plan
    → (derived : List Resolved) × (linked : List Resolved) × IsCompiled nodes blocks plan derived
        linked
unfolding compile_workflow derive_depends_on apply_blocks
compile_workflow-IsCompiled [] blocks plan h = cc
compile_workflow-IsCompiled (n ∷ ns) blocks plan h =
    let (derived, p, h1) = >>=-eq-compiled (derive_each (n ∷ ns) (n ∷ ns)) _ h in
    let (linked, q, h2) = >>=-eq-compiled (apply_blocks derived blocks) assemble_plan h1 in
    elim (Bool-cases (eqb (length blocks) (length derived))) [
      | inl same ↦
          let (l, b) = blocks-Linked (zip_ids derived blocks) derived linked (ground arith) in
          (
            derived,
            linked,
            record {
              reads = each-Derived (n ∷ ns) (n ∷ ns) derived p;
              linked_from = l;
              paired = ground arith;
              blocked = b;
              order = assemble_plan-IsSetupOrder linked plan h2;
            },
          )
      | inr differ ↦ absurd (ground arith)
    ]
