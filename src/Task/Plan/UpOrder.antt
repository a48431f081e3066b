-- ===== src/Task/Plan/UpOrder.antt =====
-- The order in which a plan sets its nodes up, over both scopes.
use mathlib.Core.List.{Memᴰ}
use plecture.Base.{
  String, ◌≡◌, sym, subst, ap, ◌∙◌, inl, inr, ◌⊎◌, true, false, ◌||◌, List, [], arith, contains,
  All, All-map, All-append, All-filter, All_at, All-mem, Bool-cases, length-append, contains-append,
  Distinct-append,
}
use plecture.Task.Node.{Scope, session, run, scope_eq, Resolved, Plan, ids}
use plecture.Task.Sort.Names.{ids-append, ids-filter-Distinct, All-ids}
use plecture.Task.Sort.Order.{IsOrdered, IsSetupOrder}
use plecture.Task.Sort.Cycle.{same_name, named_in}
use plecture.Task.Plan.{compiled, outlives, filter_by_scope, assemble_plan, up_order}
use plecture.Task.Plan.Widen.{
  sorted-IsSetupOrder, IsOrdered-widen, contains-done_after, IsOrdered-append, by_scope,
  scopes_split, scope_of, all_names, done_after,
}
use plecture.Task.Plan.Checks.{IsChecked, GoodDep, by_id-some, assemble_plan-IsChecked}

module _ (nodes : List Resolved) (plan : Plan) (v : IsChecked nodes plan) where
  abbrev sessions : List Resolved
  sessions = filter_by_scope nodes session

  abbrev runs : List Resolved
  runs = filter_by_scope nodes run

  session_order : IsSetupOrder sessions plan.session_nodes
  session_order =
      sorted-IsSetupOrder sessions plan.session_nodes
        (ids-filter-Distinct (λ r. scope_eq r.scope session) nodes v.distinct) v.sessions

  run_order : IsSetupOrder runs plan.run_nodes
  run_order =
      sorted-IsSetupOrder runs plan.run_nodes
        (ids-filter-Distinct (λ r. scope_eq r.scope run) nodes v.distinct) v.runs

  -- Where the scope check accepts a dependency, it is a session node or its reader a run node.
  abbrev Placed : Resolved → String → Type 0
  Placed r d =
      (contains (ids sessions) d ≡ true) ⊎ ((r.scope ≡ run) × (contains (ids runs) d ≡ true))

  good-Placed : (r : Resolved) (d : String) → GoodDep nodes r d → Placed r d
  good-Placed r d (q, e, o) =
      let (m, p) = by_id-some nodes d q e in
      let here =
        subst (λ t. contains (ids (filter_by_scope nodes q.scope)) t ≡ true) p
          (by_scope nodes q m) in
      placed q.scope here o
    where
      placed :
          (s : Scope)
          → contains (ids (filter_by_scope nodes s)) d ≡ true
          → outlives r.scope s ≡ false
          → Placed r d
      placed session h o = inl h
      placed run h o = inr (ground arith, h)

  all-Placed : All (λ r. All (Placed r) r.depends_on) nodes
  all-Placed = All-map (λ r a. All-map (good-Placed r) r.depends_on a) nodes v.deps

  session_part : IsOrdered (ids nodes) [] plan.session_nodes
  session_part =
      IsOrdered-widen (ids sessions) (ids nodes) [] [] plan.session_nodes (λ s h. h)
        (All-map (λ r m. All_at Known known m) plan.session_nodes session_order.members)
        session_order.order
    where
      Known : Resolved → Type 0
      Known r =
          All
            (λ d.
              contains (ids nodes) d ≡ true
              → (contains (ids sessions) d ≡ true) ⊎ (contains [] d ≡ true))
            r.depends_on

      in_sessions :
          (r : Resolved) (d : String)
          → r.scope ≡ session
          → Placed r d
          → contains (ids nodes) d ≡ true
          → (contains (ids sessions) d ≡ true) ⊎ (contains [] d ≡ true)
      in_sessions r d e (inl h) k = inl h
      in_sessions r d e (inr (f, h)) k = absurd (cc (e, f))

      known : All Known sessions
      known =
          All-filter (λ r. scope_eq r.scope session)
            (λ r a t. All-map (λ d p. in_sessions r d (scope_of r session t) p) r.depends_on a)
            nodes all-Placed

  run_part : IsOrdered (ids nodes) (done_after [] plan.session_nodes) plan.run_nodes
  run_part =
      IsOrdered-widen (ids runs) (ids nodes) [] (done_after [] plan.session_nodes) plan.run_nodes
        (λ s h. cc) (All-map (λ r m. All_at Known known m) plan.run_nodes run_order.members)
        run_order.order
    where
      Known : Resolved → Type 0
      Known r =
          All
            (λ d.
              contains (ids nodes) d ≡ true
              → (contains (ids runs) d ≡ true)
                ⊎ (contains (done_after [] plan.session_nodes) d ≡ true))
            r.depends_on

      set_up :
          (r : Resolved) (d : String)
          → Placed r d
          → contains (ids nodes) d ≡ true
          → (contains (ids runs) d ≡ true) ⊎ (contains (done_after [] plan.session_nodes) d ≡ true)
      set_up r d (inl h) k = inr (
          ground (
            arith,
            contains-done_after [] plan.session_nodes d,
            all_names plan.session_nodes sessions d session_order.complete h,
          ))
      set_up r d (inr (f, h)) k = inl h

      known : All Known runs
      known =
          All-filter (λ r. scope_eq r.scope run)
            (λ r a t. All-map (λ d p. set_up r d p) r.depends_on a) nodes all-Placed

  each_once : (r : Resolved) → Memᴰ r runs → contains (ids plan.session_nodes) r.node_id ≡ false
  each_once r m = elim (Bool-cases (contains (ids plan.session_nodes) r.node_id)) [
    | inr no_such ↦ no_such
    | inl e ↦
        let (q, n, p) = named_in plan.session_nodes r.node_id e in
        let (q_in, q_session) =
          All_at InSession in_session (All_at (λ r. Memᴰ r sessions) session_order.members n) in
        let (r_in, r_run) = All_at InRun in_run m in
        let same = same_name nodes q r v.distinct q_in r_in p in
        absurd (apart (sym q_session ∙ ap (λ z. z.scope) same ∙ r_run))
  ]
    where
      apart : ◌≡◌ {A = Scope} session run → ⊥
      apart e = cc

      InSession : Resolved → Type 0
      InSession r = Memᴰ r nodes × (r.scope ≡ session)

      InRun : Resolved → Type 0
      InRun r = Memᴰ r nodes × (r.scope ≡ run)

      in_session : All InSession sessions
      in_session =
          All-filter (λ r. scope_eq r.scope session) (λ r a t. (a, scope_of r session t)) nodes
            (All-mem nodes)

      in_run : All InRun runs
      in_run =
          All-filter (λ r. scope_eq r.scope run) (λ r a t. (a, scope_of r run t)) nodes
            (All-mem nodes)

  in_order : (r : Resolved) → Memᴰ r nodes → contains (ids (up_order plan)) r.node_id ≡ true
  unfolding up_order
  in_order r m =
      rw
        (
          ids-append plan.session_nodes plan.run_nodes,
          contains-append (ids plan.session_nodes) (ids plan.run_nodes) r.node_id,
        )
        (either r.scope (by_scope nodes r m))
    where
      either :
          (s : Scope)
          → contains (ids (filter_by_scope nodes s)) r.node_id ≡ true
          → (contains (ids plan.session_nodes) r.node_id || contains (ids plan.run_nodes) r.node_id)
            ≡ true
      either session h =
          ground (arith, all_names plan.session_nodes sessions r.node_id session_order.complete h)
      either run h = ground (arith, all_names plan.run_nodes runs r.node_id run_order.complete h)

  members_of : (s : Scope) → All (λ r. Memᴰ r nodes) (filter_by_scope nodes s)
  members_of s = All-filter (λ r. scope_eq r.scope s) (λ r a t. a) nodes (All-mem nodes)

  up_order-checked : IsSetupOrder nodes (up_order plan)
  unfolding up_order
  up_order-checked = record {
    order = IsOrdered-append (ids nodes) [] plan.session_nodes plan.run_nodes session_part run_part;
    complete = All-map (λ r m. in_order r m) nodes (All-mem nodes);
    distinct = rw (ids-append plan.session_nodes plan.run_nodes) (
        Distinct-append (ids plan.session_nodes) (ids plan.run_nodes) session_order.distinct
          run_order.distinct
          (All-ids (λ y. contains (ids plan.session_nodes) y ≡ false) plan.run_nodes
            (All-map (λ r m. each_once r m) plan.run_nodes run_order.members)));
    members =
        All-append (λ r. Memᴰ r nodes) plan.session_nodes plan.run_nodes
          (All-map (λ r m. All_at (λ q. Memᴰ q nodes) (members_of session) m) plan.session_nodes
            session_order.members)
          (All-map (λ r m. All_at (λ q. Memᴰ q nodes) (members_of run) m) plan.run_nodes
            run_order.members);
    same_length = omega (
      arith,
      length-append plan.session_nodes plan.run_nodes,
      session_order.same_length,
      run_order.same_length,
      scopes_split nodes,
    );
  }

pub assemble_plan-IsSetupOrder :
    (nodes : List Resolved) (plan : Plan)
    → assemble_plan nodes ≡ compiled plan
    → IsSetupOrder nodes (up_order plan)
assemble_plan-IsSetupOrder nodes plan h =
    up_order-checked nodes plan (assemble_plan-IsChecked nodes plan h)
