-- ===== src/Lifecycle/Setup/Complete.antt =====
-- A setup without an error leaves every node produced.
use mathlib.Core.List.{append-nil, append_assoc}
use text.Mathlib.TextEquality.{eq_iff}
use plecture.Base.{
  String, subst, eq_of_==, All-append, ℕ, ◌≡◌, refl, sym, ap, ◌∙◌, inl, inr, true, false, List, [],
  ◌∷◌, ◌++◌, Option, none, some, arith, if◌then◌else◌, ◌==◌, lookup, is_none, filter, contains, All,
  All-map, All_both, Distinct, Bool-cases, Option-cases, ==-refl,
}
use plecture.Task.Node.{Resolved, ids}
use plecture.Task.Sort.Names.{ids-filter-Distinct}
use plecture.Task.Sort.Order.{IsOrdered, DepsDone}
use plecture.Lifecycle.Record.{Status, TaskState, Tasks, Runner, State, report, alive_failed, put}
use plecture.Lifecycle.Dependents.Visit.{Within, IsClosed, ids-within}
use plecture.Lifecycle.Dependents.Closure.{transitive_dependents-IsClosure}
use plecture.Lifecycle.Cleanup.Release.{lookup-put, is_held, run_cleanup-Released}
use plecture.Lifecycle.Setup.{
  set_up_node, invalidate_nodes, invalidate_produced_node, setup_node, setup_each, run_setup,
  produced_state,
}

-- A name outside of a set is not among the nodes found within it.
not_found :
    (p : String → plecture.Base.Bool) (seen : List String) (j : String)
    → p j ≡ false
    → Within seen p
    → (rs : List Resolved) → contains (ids (filter (λ q. contains seen q.node_id) rs)) j ≡ false
not_found p seen j n w [] = refl
not_found p seen j n w (r ∷ rs) = ground (
  arith,
  eq_iff r.node_id j,
  w r.node_id,
  not_found p seen j n w rs,
  λ (e : r.node_id ≡ j). ap p e,
)

module _ (go : Runner) where
  invalidate_nodes-others :
      (r : Resolved) (st : TaskState) (found : List Resolved) (e : String) (s : State)
      → Distinct (ids found)
      → (j : String) → contains (ids found) j ≡ false
      → (r.node_id == j) ≡ false
      → lookup j (invalidate_nodes go r st found e s).0.tasks ≡ lookup j s.tasks
  unfolding invalidate_nodes
  invalidate_nodes-others r st found e s d j n k =
      let failed_st : TaskState = record st {
        status = Status.failed;
        error = e;
        failed_at = go.now;
      } in
      let stamped : State = record s { tasks = put r.node_id failed_st s.tasks } in
      let released = run_cleanup-Released go found stamped d in
      ground (arith, released.others j n, lookup-put r.node_id j failed_st s.tasks)

  set_up-others :
      (r : Resolved) (s : State) (j : String)
      → (r.node_id == j) ≡ false
      → lookup j (set_up_node go r s).0.tasks ≡ lookup j s.tasks
  unfolding set_up_node
  set_up-others r s j n = grind (arith, lookup-put)

  set_up-held :
      (r : Resolved) (s : State)
      → (set_up_node go r s).1 ≡ none
      → is_held (lookup r.node_id (set_up_node go r s).0.tasks) ≡ true
  unfolding set_up_node produced_state
  set_up-held r s h = grind (arith, lookup-put, ==-refl r.node_id)

  invalidate-others :
      (ordered : List Resolved) (r : Resolved) (st : TaskState) (a : String) (s : State)
      (p : String → plecture.Base.Bool)
      → Distinct (ids ordered)
      → IsClosed ordered p
      → p r.node_id ≡ true
      → (j : String) → p j ≡ false
      → lookup j (invalidate_produced_node go r st ordered a s).0.tasks ≡ lookup j s.tasks
  unfolding invalidate_produced_node invalidate_nodes
  invalidate-others ordered r st a s p d c q j n =
      let (seen, closure, e) = transitive_dependents-IsClosure ordered r.node_id in
      let found = filter (λ q. contains seen q.node_id) ordered in
      let inside : Within seen p = closure.least p c q in
      let out : contains (ids found) j ≡ false = not_found p seen j n inside ordered in
      rw (e, invalidate_produced_node)
        (invalidate_nodes-others r st found a s
          (ids-filter-Distinct (λ q. contains seen q.node_id) ordered d) j out
          (ground (arith, eq_iff r.node_id j, λ (e : r.node_id ≡ j). ap p e)))

  node_others :
      (ordered : List Resolved) (r : Resolved) (s : State) (p : String → plecture.Base.Bool)
      → Distinct (ids ordered)
      → IsClosed ordered p
      → p r.node_id ≡ true
      → (j : String) → p j ≡ false
      → lookup j (setup_node go ordered r s).0.tasks ≡ lookup j s.tasks
  unfolding setup_node
  node_others ordered r s p d c q j n =
      let apart : (r.node_id == j) ≡ false =
        ground (arith, eq_iff r.node_id j, λ (e : r.node_id ≡ j). ap p e) in
      elim (Option-cases (lookup r.node_id s.tasks)) [
        | inl e ↦ rw (e, setup_node) (set_up-others r s j apart)
        | inr (st, e) ↦ elim (Option-cases (go.alive r st)) [
          | inl a ↦ ground (arith, e, a, set_up-others r s j apart)
          | inr (x, a) ↦
              let checked : State = report (alive_failed r.node_id) s in
              let next = invalidate_produced_node go r st ordered x checked in
              ground (
                arith,
                e,
                a,
                set_up-others r s j apart,
                set_up-others r next.0 j apart,
                invalidate-others ordered r st x checked p d c q j n,
              )
        ]
      ]

  node_held :
      (ordered : List Resolved) (r : Resolved) (s : State)
      → (setup_node go ordered r s).1 ≡ none
      → is_held (lookup r.node_id (setup_node go ordered r s).0.tasks) ≡ true
  unfolding setup_node
  node_held ordered r s h = elim (Option-cases (lookup r.node_id s.tasks)) [
    | inl e ↦ ground (arith, e, set_up-held r s)
    | inr (st, e) ↦ elim (Option-cases (go.alive r st)) [
      | inl a ↦ ground (arith, e, a, set_up-held r s)
      | inr (x, a) ↦
          let next =
            invalidate_produced_node go r st ordered x (report (alive_failed r.node_id) s) in
          ground (arith, e, a, set_up-held r s, set_up-held r next.0)
    ]
  ]

All_named {κ} :
    (P : String → Type κ) (ds : List String) (d : String) → All P ds → contains ds d ≡ true → P d
All_named P [] d a h = cc
All_named P (x ∷ ds) d a h = elim (Bool-cases (x == d)) [
  | inl e ↦ subst P (eq_of_== x d e) a.0
  | inr e ↦ All_named P ds d a.1 (ground arith)
]

-- Where a setup stands: `pre` is produced, `rem` is left.
record Progress (ordered pre rem : List Resolved) (done : List String) (tasks : Tasks)
    : Type 0 where
  parts : ordered ≡ pre ++ rem
  order : IsOrdered (ids ordered) done rem
  left : Distinct (ids rem)
  behind : All (λ q. DepsDone (ids ordered) done q.depends_on) pre
  away : All (λ q. contains (ids rem) q.node_id ≡ false) pre
  held : All (λ q. is_held (lookup q.node_id tasks) ≡ true) pre
  ahead :
      (x : String)
      → contains (ids rem) x ≡ true
      → (contains done x ≡ false) × (contains (ids ordered) x ≡ true)

-- What is left is closed under the dependents.
left-IsClosed :
    (ordered pre rem : List Resolved) (done : List String) (tasks : Tasks)
    → Progress ordered pre rem done tasks
    → IsClosed ordered (contains (ids rem))
left-IsClosed ordered pre rem done tasks g =
    subst (λ l. IsClosed l (contains (ids rem))) (sym g.parts)
      (All-append _ pre rem
        (All-map
          (λ q b d h k.
            absurd (cc ((g.ahead d k).0, All_named _ q.depends_on d b h (g.ahead d k).1)))
          pre g.behind)
        (All-map (λ q m d h k. m) rem (ids-within rem)))

DepsDone-more :
    (scope done : List String) (c : String) (deps : List String)
    → DepsDone scope done deps
    → DepsDone scope (c ∷ done) deps
DepsDone-more scope done c deps a = All-map (λ d f h. ground (arith, f h)) deps a

module _ (go : Runner) (ordered : List Resolved) (unique : Distinct (ids ordered)) where
  advance :
      (pre rem : List Resolved) (r : Resolved) (done : List String) (s : State)
      → Progress ordered pre (r ∷ rem) done s.tasks
      → (setup_node go ordered r s).1 ≡ none
      → Progress ordered (pre ++ r ∷ []) rem (r.node_id ∷ done) (setup_node go ordered r s).0.tasks
  advance pre rem r done s g h =
      let closed = left-IsClosed ordered pre (r ∷ rem) done s.tasks g in
      let here : contains (ids (r ∷ rem)) r.node_id ≡ true = ground (arith, ==-refl r.node_id) in
      let after = (setup_node go ordered r s).0.tasks in
      record {
        parts = g.parts ∙ sym (append_assoc pre (r ∷ []) rem);
        order = g.order.1;
        left = g.left.1;
        behind =
            All-append _ pre (r ∷ [])
              (All-map (λ q b. DepsDone-more (ids ordered) done r.node_id q.depends_on b) pre
                g.behind)
              (DepsDone-more (ids ordered) done r.node_id r.depends_on g.order.0, tt);
        away = All-append _ pre (r ∷ []) (All-map (λ q n. ground arith) pre g.away) (g.left.0, tt);
        held =
            All-append (λ q. is_held (lookup q.node_id after) ≡ true) pre (r ∷ [])
              (All-map
                (λ q n.
                  ap is_held (
                    node_others go ordered r s (contains (ids (r ∷ rem))) unique closed here
                      q.node_id n.0)
                  ∙ n.1)
                pre (All_both _ _ pre g.away g.held))
              (node_held go ordered r s h, tt);
        ahead = λ x m. ground (
          arith,
          g.ahead x,
          eq_iff r.node_id x,
          g.left.0,
          λ (e : r.node_id ≡ x). ap (contains (ids rem)) e,
        );
      }

  all_held :
      (pre rem : List Resolved) (done : List String) (s : State)
      → Progress ordered pre rem done s.tasks
      → (setup_each go ordered rem s).1 ≡ none
      → All (λ r. is_held (lookup r.node_id (setup_each go ordered rem s).0.tasks) ≡ true) ordered
  unfolding setup_each
  all_held pre [] done s g h =
      subst (λ l. All (λ r. is_held (lookup r.node_id s.tasks) ≡ true) l)
        (sym (g.parts ∙ append-nil pre)) g.held
  all_held pre (r ∷ rem) done s g h = elim (Option-cases (setup_node go ordered r s).1) [
    | inr (e, p) ↦ absurd (ground (arith, p))
    | inl p ↦
        rw (p, setup_each)
          (all_held (pre ++ r ∷ []) rem (r.node_id ∷ done) (setup_node go ordered r s).0
            (advance pre rem r done s g p) (rw (p, setup_each) at h))
  ]

  -- When a run list has different names and each node comes after the nodes of the list that it depends on, as a
  -- compiled plan's has, then a setup without an error leaves every node of the list produced, also where
  -- a node failed its liveness check and was torn down with all its dependents on the way.
  pub run_setup-produced :
      (s : State)
      → IsOrdered (ids ordered) [] ordered
      → (run_setup go ordered s).1 ≡ none
      → All (λ r. is_held (lookup r.node_id (run_setup go ordered s).0.tasks) ≡ true) ordered
  unfolding run_setup
  run_setup-produced s o h =
      all_held [] ordered [] s
        (record {
          parts = refl;
          order = o;
          left = unique;
          behind = tt;
          away = tt;
          held = tt;
          ahead = λ x m. (refl, m);
        })
        h
