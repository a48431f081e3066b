-- ===== src/Population/Sweep/Trace.antt =====
-- The hooks that a pass calls, in order.
use mathlib.Core.List.{append-nil, append_assoc}
use plecture.Base.{
  String, ◌≡◌, sym, ap, ◌⊎◌, inl, inr, Bool, true, false, ◌&&◌, List, [], ◌∷◌, ◌++◌, map, Option,
  none, some, arith, if◌then◌else◌, is_some, refl, not, ◌||◌, ◌==◌, eqb, leb, filter, Bool-cases,
  ⊎-cases,
}
use plecture.Base.Order.{sort_by, insert_by, text_ltb, Ascending}
use plecture.Population.Member.{Member, Members, Population, Failure}
use plecture.Population.World.{
  World, Env, Call, EventType, up_call, destroy_call, record_event, update_population, next_fault,
  read_population,
}
use plecture.Population.Admit.{admit, wake_check}
use plecture.Population.Admit.Calls.{
  is_lifecycle, lifecycle, filter-append, record_event-calls, record_admit-calls, reaches_up,
  admit-lifecycle,
}
use plecture.Population.Sweep.{
  sorted_members, by_name, fully_stopped, existing_first, write_generation, record_decision,
  blockers_of, call_destroy, decide_destroy, due, destroy_absent, admit_due, reconcile, note_event,
  first_error,
}
use plecture.Population.Sweep.Turns.{existing, fresh, existing_first_lem, sorted_members-Ascending}

read-calls :
    (w w' : World) (r : Failure ⊎ Option Population)
    → read_population w ≡ (w', r)
    → w'.calls ≡ w.calls
unfolding read_population next_fault
read-calls w w' r h = ground arith

module _ (env : Env) where
  write_generation-calls :
      (w : World) (m : Member) (f : Member → Member)
      → (write_generation env w m f).0.calls ≡ w.calls
  unfolding write_generation update_population next_fault
  write_generation-calls w m f = ground arith

  record_decision-calls :
      (w : World) (m : Member) (t : EventType) (r : String) (b : List String)
      → (record_decision env w m t r b).0.calls ≡ w.calls
  unfolding record_decision
  record_decision-calls w m t r b = grind (arith, write_generation-calls, record_event-calls)

  note_event-calls :
      (w : World) (r s t : String) (typ : EventType) (x : String)
      → (note_event env w r s typ t x).calls ≡ w.calls
  unfolding note_event record_event
  note_event-calls w r s t typ x = ground arith

  abbrev destroy_of : Member → Call
  destroy_of m = destroy_call m.session_name m.resource_id env.destroy_force

  call_destroy-calls :
      (w : World) (m : Member) (r : String)
      → (call_destroy env w m r).0.calls
        ≡ (if is_some env.destroy then w.calls ++ destroy_of m ∷ [] else w.calls)
  unfolding call_destroy
  call_destroy-calls w m r =
      grind (arith, write_generation-calls, note_event-calls, record_admit-calls)

  abbrev no_blockers : List String → Bool
  no_blockers [] = true
  no_blockers (b ∷ bs) = false

  -- No blocker is found for a member: there is no check, or it succeeds and names none.
  abbrev pub unblocked : Member → Bool
  unblocked m = elim env.blockers [
    | none ↦ true
    | some check ↦ elim (check m.session_name) [ inl e ↦ false | inr found ↦ no_blockers found ]
  ]

  insert-no_blockers :
      (x : String) (ys : List String) → no_blockers (insert_by text_ltb x ys) ≡ false
  unfolding insert_by
  insert-no_blockers x [] = refl
  insert-no_blockers x (y ∷ ys) = ground arith

  sort-no_blockers : (xs : List String) → no_blockers (sort_by text_ltb xs) ≡ no_blockers xs
  unfolding sort_by
  sort-no_blockers [] = refl
  sort-no_blockers (x ∷ xs) = insert-no_blockers x (sort_by text_ltb xs)

  blockers_of-unblocked : (m : Member) → no_blockers (blockers_of env m) ≡ unblocked m
  unfolding blockers_of
  blockers_of-unblocked m = grind (arith, sort-no_blockers)

  -- Nothing stands against a member's destruction, and destruction is asked for.
  abbrev doomed : Member → Bool
  doomed m = unblocked m && env.auto_destroy && is_some env.destroy

  decide_destroy-calls :
      (w : World) (m : Member) (r : String)
      → (decide_destroy env w m r).0.calls
        ≡ (if doomed m then w.calls ++ destroy_of m ∷ [] else w.calls)
  unfolding decide_destroy
  decide_destroy-calls w m r =
      grind (arith, call_destroy-calls, record_decision-calls, blockers_of-unblocked m)

  -- The members of a pass that are torn down: they are tombstoned and have a session.
  abbrev pub torn_down : String × Member → Bool
  torn_down (resource, m) =
      m.tombstoned
      && not (m.session_name == "")
      && unblocked m
      && env.auto_destroy
      && is_some env.destroy

  -- A session lets its member be brought up: there is none, or it can be read and is not found; or it sleeps and its
  -- automatic wake is not suspended; or it is awake, and if it is down, its last stop or up was no stop.
  abbrev pub session_allows : Member → Bool
  session_allows m = if m.session_name == "" then true else elim (env.get_session m.session_name) [
    | inl e ↦ false
    | inr none ↦ true
    | inr (some s) ↦
        if not (eqb s.sleep_since 0)
        then elim (env.wake_suspension m.session_name) [
          | inl e ↦ false
          | inr (reason, since) ↦ reason == ""
        ]
        else if s.down
        then elim (env.last_stop_or_up s.name) [
          | inl e ↦ false
          | inr none ↦ true
          | inr (some stop) ↦ not stop
        ]
        else true
  ]

  -- The members that are brought up: the source has them, they wait for it, their admission is not suspended, the time of their next
  -- attempt has come, their inputs can be made, there is a hook, and their session allows it.
  abbrev pub brought_up : String × Member → Bool
  brought_up (resource, m) =
      not m.tombstoned
      && m.pending_up
      && not m.admit_suspended
      && (eqb m.admit_retry_at 0 || leb m.admit_retry_at env.now)
      && (elim (env.session_inputs m.resource_id m.item) [ inl e ↦ false | inr inputs ↦ true ])
      && is_some env.up
      && session_allows m

  admitted : String × Member → Bool
  admitted a = elim (due env a.1) [ inl e ↦ false | inr turn ↦ turn && reaches_up env a.1 ]

  due-brought_up : (a : String × Member) → admitted a ≡ brought_up a
  unfolding admitted due fully_stopped reaches_up wake_check
  due-brought_up (resource, m) = ground arith

  filter_same :
      (p q : String × Member → Bool) (ms : Members)
      → ((a : String × Member) → p a ≡ q a)
      → filter p ms ≡ filter q ms
  filter_same p q [] h = refl
  filter_same p q (a ∷ ms) h = ground (arith, h a, filter_same p q ms h)

  abbrev pub destroy_at : String × Member → Call
  destroy_at a = destroy_of a.1

  abbrev pub up_at : String × Member → Call
  up_at a = up_call a.1.resource_id

  destroy_absent-calls :
      (w : World) (e : Option Failure) (ms : Members)
      → lifecycle (destroy_absent env w e ms).0
        ≡ lifecycle w ++ map destroy_at (filter torn_down ms)
  unfolding destroy_absent
  destroy_absent-calls w e [] = sym (append-nil (lifecycle w))
  destroy_absent-calls w e ((r, m) ∷ ms) =
      let next = decide_destroy env w m "poll_absent" in
      ground (
        arith,
        destroy_absent-calls next.0 (first_error e next.1) ms,
        destroy_absent-calls w e ms,
        ap (filter is_lifecycle) (decide_destroy-calls w m "poll_absent"),
        filter-append is_lifecycle w.calls (destroy_of m ∷ []),
        append_assoc (lifecycle w) (destroy_of m ∷ []) (map destroy_at (filter torn_down ms)),
      )

  admit_due-calls :
      (w : World) (e : Option Failure) (ms : Members)
      → lifecycle (admit_due env w e ms).0 ≡ lifecycle w ++ map up_at (filter admitted ms)
  unfolding admit_due admitted
  admit_due-calls w e [] = sym (append-nil (lifecycle w))
  admit_due-calls w e ((r, m) ∷ ms) =
      let next = admit env w m in
      let tried = admit_due-calls next.0 (first_error e next.1) ms in
      let skipped = admit_due-calls w e ms in
      let one =
        append_assoc (lifecycle w) (up_call m.resource_id ∷ []) (map up_at (filter admitted ms)) in
      elim (⊎-cases (due env m)) [
        | inl (f, d) ↦ rw (d, admit_due, admitted) (admit_due-calls w (first_error e (some f)) ms)
        | inr (turn, d) ↦ elim (Bool-cases turn) [
          | inl t ↦
              rw (d, t, admit_due, admitted)
                (ground (arith, tried, admit-lifecycle env w m, append-nil (lifecycle w), one))
          | inr t ↦ rw (d, t, admit_due, admitted) (ground (arith, skipped))
        ]
      ]

  -- When the population can be read, a pass calls the lifecycle hooks as follows, whatever the hooks
  -- answer and whatever errors occur: it tears down, in the order of their names, the members that
  -- are tombstoned and have a session, if destruction is asked for and no blocker is found; then it
  -- brings up, each once, the members that wait for it, are not tombstoned or suspended, whose next attempt is
  -- not in the future, whose inputs can be made and whose session is not stopped or kept asleep: first those with a session and
  -- then the others, each group in the order of the names.
  pub reconcile-calls :
      (w w' : World) (p : Population)
      → read_population w ≡ (w', inr (some p))
      → let resources = sort_by by_name p.members in
        Ascending by_name resources
        × (lifecycle (reconcile env w).0
            ≡ lifecycle w
              ++ map destroy_at (filter torn_down resources)
              ++ map up_at
                  (filter brought_up (filter existing resources ++ filter fresh resources)))
  unfolding reconcile sorted_members
  reconcile-calls w w' p h =
      let resources = sorted_members p.members in
      let swept = destroy_absent env w' none resources in
      let order = filter existing resources ++ filter fresh resources in
      (
        sorted_members-Ascending p.members,
        ground (
          arith,
          destroy_absent-calls w' none resources,
          admit_due-calls swept.0 swept.1 (sort_by existing_first resources),
          existing_first_lem p.members,
          read-calls w w' (inr (some p)) h,
          filter_same admitted brought_up order due-brought_up,
          append_assoc (lifecycle w) (map destroy_at (filter torn_down resources))
              (map up_at (filter brought_up order)),
        ),
      )
