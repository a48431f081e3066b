-- ===== src/Population/Admit.antt =====
-- Admission of one member: `admit`, `failAdmit` and their helpers in
-- app/internal/population/engine.go.
pub mod History
pub mod Calls
use Prim.Native.String.{find, len}
use plecture.Base.{
  String, ℕ, suc, ◌+◌, ◌-◌, ◌%◌, ◌^◌, Bool, true, false, not, ◌&&◌, ◌||◌, ◌∷◌, ◌++◌, List, [],
  Option, none, some, is_some, ◌⊎◌, inl, inr, if◌then◌else◌, ◌==◌, eqb, leb,
}
use plecture.Population.Member.{
  Member, Members, Population, Failure, Session, UpOutcome, Code, invalid_input,
  child_up_in_progress, code_is, is_capacity_refusal, text_failure,
}
use plecture.Population.Backoff.{
  admit_retry_base, admit_failure_limit, admit_retry_delay, wake_wait_delay,
}
use plecture.Population.World.{
  World, Env, Entry, EventType, population_up, admit_ok, conflict, failure, Call, up_call,
  initial_call, record_event, record_admit, update_population, adjust, if_live,
}

abbrev pub clear_admit_retry : Member → Member
clear_admit_retry m = record m {
  consecutive_admit_failures = 0;
  last_admit_reason = "";
  last_admit_error = "";
  admit_retry_at = 0;
  admit_suspended = false;
}

abbrev pub execution_collision : String
execution_collision = "a concurrent writer already created execution"

-- `strings.Contains`.
abbrev pub text_contains : String → String → Bool
text_contains s t = leb (find s t) (len s)

abbrev pub is_permanent_admit_failure : String → Failure → Bool
is_permanent_admit_failure reason f =
    reason == "input"
    || is_some f.conflict
    || f.initial_cleanup
    || code_is invalid_input f.code
    || text_contains f.text execution_collision

-- What `failAdmit` writes to the member.
pub note_failure : ℕ → String → Failure → Member → Member
unfolding admit_retry_delay
note_failure now reason f current =
    let noted = record current { last_admit_reason = reason; last_admit_error = f.text } in
    let failures = suc current.consecutive_admit_failures % 2 ^ 64 in
    if is_capacity_refusal f
    then record noted { admit_retry_at = now + admit_retry_base }
    else if is_permanent_admit_failure reason f || leb admit_failure_limit failures
    then record noted {
      consecutive_admit_failures = failures;
      admit_suspended = true;
      admit_retry_at = 0;
    }
    else record noted {
      consecutive_admit_failures = failures;
      admit_retry_at = now + admit_retry_delay failures;
    }

abbrev pub retry_at : ℕ → Member → Member
retry_at t current = record current { admit_retry_at = t }

-- The session's name and the time of acceptance, once the hook has brought the member up.
abbrev pub accept : ℕ → String → Member → Member
accept now session current = record current {
  accepted_at =
      if current.session_name == "" || eqb current.accepted_at 0 then now else current.accepted_at;
  session_name = session;
}

abbrev pub settle : String → Member → Member
settle session current =
    clear_admit_retry (record current { session_name = session; pending_up = false })

module _ (env : Env) where
  -- A guarded write of the member that was read as `member`.
  pub write_live : World → Member → (Member → Member) → World × Option Failure
  unfolding update_population adjust
  write_live w member f =
      update_population env w (adjust member.resource_id (if_live member.generation f))

  pub fail_admit : World → Member → String → String → Failure → World × Option Failure
  unfolding record_event record_admit write_live note_failure
  fail_admit w member session reason f =
      let logged = record_event w (record {
        session_name = session;
        typ = if reason == "provenance" then conflict else failure;
        reason = reason;
        summary = f.text;
        resource = member.resource_id;
        blockers = [];
      }) in
      let cached = record_admit logged (record {
        session = session;
        resource = member.resource_id;
        ok = false;
        reason = reason;
        error = f.text;
      }) in
      let (w', stored) = write_live cached member (note_failure env.now reason f) in
      elim stored [ some e ↦ (w', some e) | none ↦ (w', some f) ]

  -- The last part of `admit`: the member is up and its initial task is set up.
  pub finish_admit : World → Member → String → World × Option Failure
  unfolding record_event record_admit write_live
  finish_admit w member session =
      let (w', stored) = write_live w member (settle session) in
      elim stored [
        | some e ↦ (w', some e)
        | none ↦
            let logged = record_event w' (record {
              session_name = session;
              typ = admit_ok;
              reason = "admit";
              summary = "population member admission succeeded";
              resource = member.resource_id;
              blockers = [];
            }) in
            (
              record_admit logged (record {
                session = session;
                resource = member.resource_id;
                ok = true;
                reason = "";
                error = "";
              }),
              none,
            )
      ]

  pub ensure_task : World → Member → String → World × Option Failure
  unfolding fail_admit finish_admit
  ensure_task w member session =
      if env.session_task == "" then finish_admit w member session else elim env.ensure_initial [
        | none ↦ finish_admit w member session
        | some hook ↦
            let (store, result) = hook session env.session_task member.resource_id w.population in
            let w' = record w {
              population = store;
              calls = w.calls ++ initial_call session env.session_task member.resource_id ∷ [];
            } in
            elim result [
              | some e ↦ fail_admit w' member session "task_setup" e
              | none ↦ finish_admit w' member session
            ]
      ]

  -- `admit` after the up hook succeeded.
  pub after_up : World → Member → UpOutcome → World × Option Failure
  unfolding record_event write_live ensure_task
  after_up w member outcome =
      let session = outcome.session_name in
      let (w', stored) = write_live w member (accept env.now session) in
      elim stored [
        | some e ↦ (w', some e)
        | none ↦
            if outcome.sleeping
            then write_live w' member (retry_at (env.now + admit_retry_base))
            else let logged = record_event w' (record {
              session_name = session;
              typ = population_up;
              reason = "up";
              summary = "population member is up";
              resource = member.resource_id;
              blockers = [];
            }) in
              ensure_task (if not outcome.already_up && not outcome.woke then logged else w') member
                session
      ]

  -- `admit` after the up hook failed.
  pub up_failed : World → Member → Failure → World × Option Failure
  unfolding write_live fail_admit
  up_failed w member f =
      if code_is child_up_in_progress f.code
      then write_live w member (retry_at (env.now + admit_retry_base))
      else elim f.conflict [
        | some session ↦ fail_admit w member session "provenance" f
        | none ↦
            fail_admit w member member.session_name
              (if is_capacity_refusal f then "capacity" else "up") f
      ]

  pub call_up : World → Member → String → World × Option Failure
  unfolding fail_admit after_up up_failed
  call_up w member inputs = elim env.up [
    | none ↦
        fail_admit w member member.session_name "up"
          (text_failure "population admission has no lifecycle hook")
    | some hook ↦
        let (store, result) = hook member.resource_id inputs w.population in
        let w' = record w {
          population = store;
          calls = w.calls ++ up_call member.resource_id ∷ [];
        } in
        elim result [ inl f ↦ up_failed w' member f | inr outcome ↦ after_up w' member outcome ]
  ]

  -- The branch of a member whose session sleeps: `inr none` lets the hook run, `inr (some t)` waits
  -- until `t`.
  unfoldable pub wake_check : Member → Failure ⊎ Option ℕ
  unfolding wake_wait_delay
  wake_check member =
      if member.session_name == "" then inr none else elim (env.get_session member.session_name) [
        | inl e ↦ inl e
        | inr none ↦ inr none
        | inr (some s) ↦
            if eqb s.sleep_since 0
            then inr none
            else elim (env.wake_suspension member.session_name) [
              | inl e ↦ inl e
              | inr (reason, since) ↦
                  if reason == ""
                  then inr none
                  else inr (some (env.now + wake_wait_delay (env.now - since)))
            ]
      ]

  unfoldable pub admit : World → Member → World × Option Failure
  unfolding fail_admit call_up wake_check write_live
  admit w member = elim (env.session_inputs member.resource_id member.item) [
    | inl e ↦ fail_admit w member member.session_name "input" e
    | inr inputs ↦
        if is_some env.up
        then elim (wake_check member) [
          | inl e ↦ fail_admit w member member.session_name "up" e
          | inr (some t) ↦ write_live w member (retry_at t)
          | inr none ↦ call_up w member inputs
        ]
        else fail_admit w member member.session_name "up"
            (text_failure "population admission has no lifecycle hook")
  ]
