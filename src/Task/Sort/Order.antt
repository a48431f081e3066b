-- ===== src/Task/Sort/Order.antt =====
-- What the sort returns: an order that respects the dependencies, or a proof that there is none.
use mathlib.Core.List.{Memᴰ, append-nil, append_assoc}
use text.Mathlib.TextEquality.{eq_iff}
use plecture.Base.{
  String, ℕ, zero, suc, ◌+◌, ◌≤◌, ◌<◌, ◌≡◌, refl, sym, ◌∙◌, ap, Bool, true, false, ◌||◌, List, [],
  ◌∷◌, ◌++◌, some, arith, eqb, contains, Distinct, All, All-map, length, any, length-append,
}
use plecture.Base.Int.{pos}
use plecture.Task.Node.{Resolved, ids}
use plecture.Task.Sort.{Indegrees, relax_nodes, kahn, finish, topo_sort_nodes}
use plecture.Task.Sort.Counts.{open_slots}
use plecture.Task.Sort.Kahn.{
  open_of, waiting, waiting_split, Inv, freed_now, round, next_ready, cur_closed, cur_known,
}
use plecture.Task.Sort.Start.{start, first_ready, start-Inv, start_total}

-- Every dependency that names a node of the list is among the nodes already set up.
abbrev pub DepsDone : List String → List String → List String → Type 0
DepsDone in_scope done = All (λ d. contains in_scope d ≡ true → contains done d ≡ true)

-- Read from the left, each node comes after the nodes of the list that it depends on.
abbrev pub IsOrdered : List String → List String → List Resolved → Type 0
IsOrdered in_scope done [] = Unit
IsOrdered in_scope done (r ∷ rs) =
    DepsDone in_scope done r.depends_on × IsOrdered in_scope (r.node_id ∷ done) rs

DepsDone-of_closed :
    (in_scope done deps : List String)
    → open_slots in_scope done deps ≡ 0
    → DepsDone in_scope done deps
DepsDone-of_closed in_scope done [] h = tt
DepsDone-of_closed in_scope done (d ∷ deps) h =
    (λ e. ground arith, DepsDone-of_closed in_scope done deps (ground arith))

later_names :
    (c : String) (done : List String) (rs : List Resolved)
    → All (λ r. contains (c ∷ done) r.node_id ≡ false) rs
    → contains (ids rs) c ≡ false
later_names c done [] h = refl
later_names c done (r ∷ rs) h =
    ground (arith, eq_iff c r.node_id, eq_iff r.node_id c, later_names c done rs h.1)

-- What one run of the loop from `done` leaves: the nodes that it appended, and the rest.
pub record Outcome (list : List Resolved) (done : List String) (ready tail : List Resolved)
    (done' : List String) (indeg' : Indegrees) : Type 0 where
  pub order : IsOrdered (ids list) done tail
  pub counts : All (λ r. indeg' r.node_id ≡ pos (open_of list done' r)) list
  pub taken : All (λ r. eqb (open_of list done' r) 0 ≡ contains done' r.node_id) list
  pub reached : (j : String) → contains done' j ≡ (contains done j || contains (ids tail) j)
  pub fresh : All (λ r. contains done r.node_id ≡ false) tail
  pub distinct : Distinct (ids tail)
  pub members : All (λ r. Memᴰ r list) tail
  pub total : length tail + waiting list done' ≡ length ready + waiting list done

abbrev Runs : List Resolved → ℕ → List String → Indegrees → List Resolved → List Resolved → Type 0
Runs list fuel done indeg ready out =
    (tail : List Resolved) × (done' : List String) × (indeg' : Indegrees) × (kahn fuel list indeg
        ready out
      ≡ some (indeg', out ++ tail))
    × Outcome list done ready tail done' indeg'

module _ (list : List Resolved) (unique : Distinct (ids list)) where
  run_end :
      (done : List String) (indeg : Indegrees)
      → Inv list done indeg []
      → Outcome list done [] [] done indeg
  run_end done indeg v = record {
    order = tt;
    counts = v.counts;
    taken = All-map (λ r h. h ∙ strip (contains done r.node_id)) list v.taken;
    reached = λ j. sym (strip (contains done j));
    fresh = tt;
    distinct = tt;
    members = tt;
    total = refl;
  }
    where
      strip : (b : Bool) → (b || false) ≡ b
      strip b = ground arith

  run_cons :
      (done : List String) (indeg : Indegrees) (cur : Resolved) (ready tail : List Resolved)
      (done' : List String) (indeg' : Indegrees)
      → (v : Inv list done indeg (cur ∷ ready))
      → Outcome list
          (cur.node_id ∷ done)
          (ready ++ freed_now list done indeg cur ready unique v)
          tail
          done'
          indeg'
      → Outcome list done (cur ∷ ready) (cur ∷ tail) done' indeg'
  run_cons done indeg cur ready tail done' indeg' v o = record {
    order = (
      DepsDone-of_closed (ids list) done cur.depends_on
          (cur_closed list done indeg cur ready unique v),
      o.order,
    );
    counts = o.counts;
    taken = o.taken;
    reached = λ j. ground (arith, o.reached j);
    fresh = (v.fresh.0, All-map (λ r h. ground arith) tail o.fresh);
    distinct = (later_names cur.node_id done tail o.fresh, o.distinct);
    members = (v.members.0, o.members);
    total = omega (
      arith,
      o.total,
      length-append ready (freed_now list done indeg cur ready unique v),
      waiting_split list list done cur.node_id (cur_known list done indeg cur ready unique v)
          v.fresh.0,
    );
  }

  kahn_run :
      (fuel : ℕ) (done : List String) (indeg : Indegrees) (ready out : List Resolved)
      → Inv list done indeg ready
      → length ready + waiting list done ≤ fuel
      → Runs list fuel done indeg ready out
  unfolding kahn
  kahn_run fuel done indeg [] out v h =
      ([], done, indeg, ap (λ l. some (indeg, l)) (sym (append-nil out)), run_end done indeg v)
  kahn_run zero done indeg (cur ∷ ready) out v h = absurd (omega arith)
  kahn_run (suc fuel) done indeg (cur ∷ ready) out v h =
      let next = relax_nodes cur.node_id list indeg ready in
      let freed_list = freed_now list done indeg cur ready unique v in
      let fuel_left : length (ready ++ freed_list) + waiting list (cur.node_id ∷ done) ≤ fuel =
        omega (
          arith,
          length-append ready freed_list,
          waiting_split list list done cur.node_id (cur_known list done indeg cur ready unique v)
              v.fresh.0,
        ) in
      let rest =
        kahn_run fuel (cur.node_id ∷ done) next.0 (ready ++ freed_list) (out ++ cur ∷ [])
          (round list done indeg cur ready unique v) fuel_left in
      (
        cur ∷ rest.0,
        rest.1,
        rest.2,
        ap (λ l. kahn fuel list next.0 l (out ++ cur ∷ []))
              (next_ready list done indeg cur ready unique v)
            ∙ rest.3
            ∙ ap (λ l. some (rest.2, l)) (append_assoc out (cur ∷ []) rest.0),
        run_cons done indeg cur ready rest.0 rest.1 rest.2 v rest.4,
      )

  -- The whole loop: it ends within its fuel.
  abbrev pub Whole : Type 0
  Whole =
      (tail : List Resolved) × (done' : List String) × (indeg' : Indegrees) × (topo_sort_nodes list
        ≡ finish list (some (indeg', tail)))
      × Outcome list [] (first_ready list unique) tail done' indeg'

  pub topo_sort_nodes-Whole : Whole
  unfolding topo_sort_nodes
  topo_sort_nodes-Whole =
      let run =
        kahn_run (length list) [] (start list unique) (first_ready list unique) []
          (start-Inv list unique) (omega (arith, start_total list unique)) in
      (run.0, run.1, run.2, ap (finish list) run.3, run.4)

-- `out` has the nodes of `list`, each once, every node after the nodes that it depends on.
pub record IsSetupOrder (list out : List Resolved) : Type 0 where
  pub order : IsOrdered (ids list) [] out
  pub complete : All (λ r. contains (ids out) r.node_id ≡ true) list
  pub distinct : Distinct (ids out)
  pub members : All (λ r. Memᴰ r list) out
  pub same_length : length out ≡ length list

-- Nodes that each depend on one another: none of them can be set up first.
pub record IsKnot (list knot : List Resolved) : Type 0 where
  pub inhabited : 0 < length knot
  pub members : All (λ r. Memᴰ r list) knot
  pub blocked : All (λ r. any (contains (ids knot)) r.depends_on ≡ true) knot
