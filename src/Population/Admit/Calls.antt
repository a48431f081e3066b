-- ===== src/Population/Admit/Calls.antt =====
-- The hooks that an admission calls.
use mathlib.Core.List.{append-nil}
use plecture.Base.{
  String, ◌≡◌, refl, ap, inl, inr, Bool, true, false, ◌&&◌, List, [], ◌∷◌, ◌++◌, none, some, arith,
  if◌then◌else◌, is_some, filter, Option-cases, ⊎-cases,
}
use plecture.Population.Member.{Member, Members, Failure, UpOutcome}
use plecture.Population.World.{
  World, Env, Entry, AdmitEntry, next_fault, Call, up_call, destroy_call, initial_call,
  record_event, record_admit, update_population,
}
use plecture.Population.Admit.{
  write_live, fail_admit, finish_admit, ensure_task, after_up, up_failed, call_up, wake_check,
  admit,
}

-- The calls that bring sessions up or down.
abbrev pub is_lifecycle : Call → Bool
is_lifecycle (up_call r) = true
is_lifecycle (destroy_call s r f) = true
is_lifecycle (initial_call s t r) = false

abbrev pub lifecycle : World → List Call
lifecycle w = filter is_lifecycle w.calls

pub filter-append {ℓ} :
    {A : Type ℓ} (p : A → Bool) (xs ys : List A) → filter p (xs ++ ys) ≡ filter p xs ++ filter p ys
filter-append p [] ys = refl
filter-append p (x ∷ xs) ys = ground (arith, filter-append p xs ys)

pub record_event-calls : (w : World) (e : Entry) → (record_event w e).calls ≡ w.calls
unfolding record_event
record_event-calls w e = ground arith

pub record_admit-calls : (w : World) (a : AdmitEntry) → (record_admit w a).calls ≡ w.calls
unfolding record_admit
record_admit-calls w a = ground arith

module _ (env : Env) where
  pub update-calls :
      (w : World) (f : Members → Members) → (update_population env w f).0.calls ≡ w.calls
  unfolding update_population next_fault
  update-calls w f = ground arith

  write_live-calls :
      (w : World) (m : Member) (f : Member → Member) → (write_live env w m f).0.calls ≡ w.calls
  unfolding write_live update_population next_fault
  write_live-calls w m f = ground (arith)

  fail_admit-calls :
      (w : World) (m : Member) (s r : String) (f : Failure)
      → (fail_admit env w m s r f).0.calls ≡ w.calls
  unfolding fail_admit
  fail_admit-calls w m s r f =
      grind (arith, write_live-calls, record_event-calls, record_admit-calls)

  finish_admit-calls :
      (w : World) (m : Member) (s : String) → (finish_admit env w m s).0.calls ≡ w.calls
  unfolding finish_admit
  finish_admit-calls w m s = grind (arith, write_live-calls, record_event-calls, record_admit-calls)

  ensure_task-lifecycle :
      (w : World) (m : Member) (s : String) → lifecycle (ensure_task env w m s).0 ≡ lifecycle w
  unfolding ensure_task
  ensure_task-lifecycle w m s = grind (
    arith,
    finish_admit-calls,
    fail_admit-calls,
    append-nil,
    filter-append is_lifecycle w.calls (initial_call s env.session_task m.resource_id ∷ []),
  )

  after_up-lifecycle :
      (w : World) (m : Member) (o : UpOutcome) → lifecycle (after_up env w m o).0 ≡ lifecycle w
  unfolding after_up
  after_up-lifecycle w m o =
      grind (arith, write_live-calls, record_event-calls, ensure_task-lifecycle)

  up_failed-calls : (w : World) (m : Member) (f : Failure) → (up_failed env w m f).0.calls ≡ w.calls
  unfolding up_failed
  up_failed-calls w m f = grind (arith, write_live-calls, fail_admit-calls)

  -- Whether `admit` gets to the up hook.
  unfoldable pub reaches_up : Member → Bool
  reaches_up m = elim (env.session_inputs m.resource_id m.item) [
    | inl e ↦ false
    | inr inputs ↦
        is_some env.up
        && (elim (wake_check env m) [ inl e ↦ false | inr (some t) ↦ false | inr none ↦ true ])
  ]

  call_up-lifecycle :
      (w : World) (m : Member) (i : String)
      → is_some env.up ≡ true
      → lifecycle (call_up env w m i).0 ≡ lifecycle w ++ up_call m.resource_id ∷ []
  unfolding call_up
  call_up-lifecycle w m i h = elim (Option-cases env.up) [
    | inl e ↦ absurd (ground arith)
    | inr (hook, e) ↦
        let out = hook m.resource_id i w.population in
        let w' : World = record w {
          population = out.0;
          calls = w.calls ++ up_call m.resource_id ∷ [];
        } in
        let one = filter-append is_lifecycle w.calls (up_call m.resource_id ∷ []) in
        elim (⊎-cases out.1) [
          | inl (f, r) ↦ ground (arith, one, ap (filter is_lifecycle) (up_failed-calls w' m f))
          | inr (o, r) ↦ ground (arith, one, after_up-lifecycle w' m o)
        ]
  ]

  pub admit-lifecycle :
      (w : World) (m : Member)
      → lifecycle (admit env w m).0
        ≡ lifecycle w ++ (if reaches_up m then up_call m.resource_id ∷ [] else [])
  unfolding admit reaches_up
  admit-lifecycle w m =
      grind (arith, append-nil, write_live-calls, fail_admit-calls, call_up-lifecycle)
