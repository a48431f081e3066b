-- ===== src/Watchdog/Facts.antt =====
-- What the walk over the nodes finds of the probes.
use plecture.Base.{
  String, ◌≡◌, Bool, true, false, not, ◌&&◌, ◌||◌, List, [], ◌∷◌, ◌++◌, Option, none, some, arith,
  if◌then◌else◌, ◌==◌, is_none, is_some, any, Option-cases, Bool-cases, inl, inr,
}
use plecture.Watchdog.{
  Alive, Activity, Target, Found, Walk, see_alive, see_activity, see_targets, see_node, see_nodes,
  fail_with, undecide_with, reason_of,
}

-- What the answers of probes say.
abbrev pub exits : Option Alive → Bool
exits none = false
exits (some Alive.passed) = false
exits (some (Alive.exited e)) = true
exits (some (Alive.undecided e)) = false

abbrev pub leaves_open : Option Alive → Bool
leaves_open none = false
leaves_open (some Alive.passed) = false
leaves_open (some (Alive.exited e)) = false
leaves_open (some (Alive.undecided e)) = true

abbrev pub signals : Option Activity → Bool
signals none = false
signals (some Activity.broken) = false
signals (some Activity.no_basis) = false
signals (some (Activity.signal silence f)) = true

abbrev pub silences : Option Activity → Bool
silences none = false
silences (some Activity.broken) = false
silences (some Activity.no_basis) = false
silences (some (Activity.signal silence f)) = silence

-- The facts of a walk that the verdict depends on.
pub record Facts : Type 0 where
  pub declares : Bool
  pub fails : Bool
  pub is_open : Bool
  pub signalled : Bool
  pub silent : Bool

abbrev pub of_targets : List Target → Facts
of_targets ts = record {
  declares = any (λ t. is_some t.alive) ts;
  fails = any (λ t. exits t.alive) ts;
  is_open = any (λ t. leaves_open t.alive) ts;
  signalled = any (λ t. signals t.activity) ts;
  silent = any (λ t. silences t.activity) ts;
}

abbrev pub nothing_found : Facts
nothing_found = record {
  declares = false;
  fails = false;
  is_open = false;
  signalled = false;
  silent = false;
}

abbrev pub of_found : Bool → Found → Facts
of_found observing Found.missing = record nothing_found { fails = true }
of_found observing Found.cleaned = nothing_found
of_found observing (Found.failed e) = record nothing_found { fails = true }
of_found observing Found.other = nothing_found
of_found observing (Found.uncomposed e has_alive) = record nothing_found {
  is_open = observing && has_alive;
}
of_found observing (Found.produced ts) = of_targets ts

abbrev pub both : Facts → Facts → Facts
both f g = record {
  declares = f.declares || g.declares;
  fails = f.fails || g.fails;
  is_open = f.is_open || g.is_open;
  signalled = f.signalled || g.signalled;
  silent = f.silent || g.silent;
}

abbrev pub of_nodes : Bool → List (String × Found) → Facts
of_nodes observing [] = nothing_found
of_nodes observing ((id, found) ∷ nodes) =
    both (of_found observing found) (of_nodes observing nodes)

-- What a walk adds.
pub record Adds (w later : Walk) (f : Facts) : Type 0 where
  pub declared : later.declared ≡ (w.declared || f.declares)
  pub failure : is_none later.failure ≡ (is_none w.failure && not f.fails)
  pub unevaluable : is_none later.unevaluable ≡ (is_none w.unevaluable && not f.is_open)
  pub activity : later.activity_declared ≡ (w.activity_declared || f.signalled)
  pub due : later.activity_due ≡ (w.activity_due && not f.silent)

see_alive-Adds :
    (label : String) (a : Option Alive) (w : Walk)
    → Adds w
        (see_alive label a w)
        (record nothing_found { declares = is_some a; fails = exits a; is_open = leaves_open a })
unfolding see_alive
see_alive-Adds label none w = record {
  declared = ground arith;
  failure = ground arith;
  unevaluable = ground arith;
  activity = ground arith;
  due = ground arith;
}
see_alive-Adds label (some Alive.passed) w = record {
  declared = ground arith;
  failure = ground arith;
  unevaluable = ground arith;
  activity = ground arith;
  due = ground arith;
}
see_alive-Adds label (some (Alive.exited e)) w = elim (Option-cases w.failure) [
  | inl n ↦ record {
    declared = ground (arith, n);
    failure = ground (arith, n);
    unevaluable = ground (arith, n);
    activity = ground (arith, n);
    due = ground (arith, n);
  }
  | inr (r, n) ↦ record {
    declared = ground (arith, n);
    failure = ground (arith, n);
    unevaluable = ground (arith, n);
    activity = ground (arith, n);
    due = ground (arith, n);
  }
]
see_alive-Adds label (some (Alive.undecided e)) w = elim (Option-cases w.unevaluable) [
  | inl n ↦ record {
    declared = ground (arith, n);
    failure = ground (arith, n);
    unevaluable = ground (arith, n);
    activity = ground (arith, n);
    due = ground (arith, n);
  }
  | inr (r, n) ↦ record {
    declared = ground (arith, n);
    failure = ground (arith, n);
    unevaluable = ground (arith, n);
    activity = ground (arith, n);
    due = ground (arith, n);
  }
]

see_activity-Adds :
    (label : String) (a : Option Activity) (w : Walk)
    → Adds w
        (see_activity label a w)
        (record nothing_found { signalled = signals a; silent = silences a })
unfolding see_activity
see_activity-Adds label none w = record {
  declared = ground arith;
  failure = ground arith;
  unevaluable = ground arith;
  activity = ground arith;
  due = ground arith;
}
see_activity-Adds label (some Activity.broken) w = record {
  declared = ground arith;
  failure = ground arith;
  unevaluable = ground arith;
  activity = ground arith;
  due = ground arith;
}
see_activity-Adds label (some Activity.no_basis) w = record {
  declared = ground arith;
  failure = ground arith;
  unevaluable = ground arith;
  activity = ground arith;
  due = ground arith;
}
see_activity-Adds label (some (Activity.signal silence fingerprint)) w = record {
  declared = ground arith;
  failure = ground arith;
  unevaluable = ground arith;
  activity = ground arith;
  due = ground arith;
}

Adds-both : (a b c : Walk) (f g : Facts) → Adds a b f → Adds b c g → Adds a c (both f g)
Adds-both a b c f g p q = record {
  declared = ground (arith, p.declared, q.declared);
  failure = ground (arith, p.failure, q.failure);
  unevaluable = ground (arith, p.unevaluable, q.unevaluable);
  activity = ground (arith, p.activity, q.activity);
  due = ground (arith, p.due, q.due);
}

pub Adds-nothing : (w : Walk) → Adds w w nothing_found
Adds-nothing w = record {
  declared = ground arith;
  failure = ground arith;
  unevaluable = ground arith;
  activity = ground arith;
  due = ground arith;
}

see_targets-Adds : (ts : List Target) (w : Walk) → Adds w (see_targets ts w) (of_targets ts)
unfolding see_targets
see_targets-Adds [] w = Adds-nothing w
see_targets-Adds (t ∷ ts) w =
    let w' = see_alive t.label t.alive w in
    let w'' = see_activity t.label t.activity w' in
    let p = see_alive-Adds t.label t.alive w in
    let q = see_activity-Adds t.label t.activity w' in
    let r = see_targets-Adds ts w'' in
    record {
      declared = ground (arith, p.declared, q.declared, r.declared);
      failure = ground (arith, p.failure, q.failure, r.failure);
      unevaluable = ground (arith, p.unevaluable, q.unevaluable, r.unevaluable);
      activity = ground (arith, p.activity, q.activity, r.activity);
      due = ground (arith, p.due, q.due, r.due);
    }

fail_with-Adds :
    (reason : String) (w : Walk)
    → Adds w (fail_with reason w) (record nothing_found { fails = true })
fail_with-Adds reason w = elim (Option-cases w.failure) [
  | inl n ↦ record {
    declared = ground (arith, n);
    failure = ground (arith, n);
    unevaluable = ground (arith, n);
    activity = ground (arith, n);
    due = ground (arith, n);
  }
  | inr (r, n) ↦ record {
    declared = ground (arith, n);
    failure = ground (arith, n);
    unevaluable = ground (arith, n);
    activity = ground (arith, n);
    due = ground (arith, n);
  }
]

undecide_with-Adds :
    (reason : String) (w : Walk)
    → Adds w (undecide_with reason w) (record nothing_found { is_open = true })
undecide_with-Adds reason w = elim (Option-cases w.unevaluable) [
  | inl n ↦ record {
    declared = ground (arith, n);
    failure = ground (arith, n);
    unevaluable = ground (arith, n);
    activity = ground (arith, n);
    due = ground (arith, n);
  }
  | inr (r, n) ↦ record {
    declared = ground (arith, n);
    failure = ground (arith, n);
    unevaluable = ground (arith, n);
    activity = ground (arith, n);
    due = ground (arith, n);
  }
]

see_node-Adds :
    (observing : Bool) (id : String) (found : Found) (w : Walk)
    → Adds w (see_node observing id found w) (of_found observing found)
unfolding see_node
see_node-Adds observing id Found.missing w =
    fail_with-Adds (reason_of id "missing from the current plan") w
see_node-Adds observing id Found.cleaned w = Adds-nothing w
see_node-Adds observing id (Found.failed e) w =
    fail_with-Adds (reason_of id (if e == "" then "setup failed" else e)) w
see_node-Adds observing id Found.other w = Adds-nothing w
see_node-Adds observing id (Found.uncomposed e has_alive) w =
    let noted = record w { probe_errors = w.probe_errors ++ id ∷ [] } in
    let p = undecide_with-Adds (reason_of id e) noted in
    elim (Bool-cases (observing && has_alive)) [
      | inl h ↦ record {
        declared = ground (arith, h, p.declared);
        failure = ground (arith, h, p.failure);
        unevaluable = ground (arith, h, p.unevaluable);
        activity = ground (arith, h, p.activity);
        due = ground (arith, h, p.due);
      }
      | inr h ↦ record {
        declared = ground (arith, h);
        failure = ground (arith, h);
        unevaluable = ground (arith, h);
        activity = ground (arith, h);
        due = ground (arith, h);
      }
    ]
see_node-Adds observing id (Found.produced ts) w = see_targets-Adds ts w

pub see_nodes-Adds :
    (observing : Bool) (nodes : List (String × Found)) (w : Walk)
    → Adds w (see_nodes observing nodes w) (of_nodes observing nodes)
unfolding see_nodes
see_nodes-Adds observing [] w = Adds-nothing w
see_nodes-Adds observing ((id, found) ∷ nodes) w =
    let w' = see_node observing id found w in
    Adds-both w w' (see_nodes observing nodes w') (of_found observing found)
      (of_nodes observing nodes) (see_node-Adds observing id found w)
      (see_nodes-Adds observing nodes w')
