-- ===== src/Population/Sweep.antt =====
-- The passes over all members: `Reconcile`, `SweepExpiry`, and `decideDestroy`, in
-- app/internal/population/engine.go.
pub mod Turns
pub mod Trace
use plecture.Base.{
  String, ℕ, ◌+◌, Bool, true, false, not, ◌&&◌, ◌||◌, ◌∷◌, ◌++◌, List, [], Option, none, some, ◌⊎◌,
  inl, inr, if◌then◌else◌, ◌==◌, eqb, ltb,
}
use plecture.Base.Order.{text_ltb, sort_by}
use plecture.Population.Member.{
  Member, Members, Population, Failure, Session, has_session, text_failure,
}
use plecture.Population.World.{
  World, Env, Entry, EventType, event_text, conflict, failure, destroy, destroy_deferred,
  destroy_dry_run, Call, destroy_call, record_event, record_admit, update_population,
  read_population, adjust, if_generation,
}
use plecture.Population.Admit.{admit}

abbrev pub equal_texts : List String → List String → Bool
equal_texts [] [] = true
equal_texts [] (t ∷ ts) = false
equal_texts (s ∷ ss) [] = false
equal_texts (s ∷ ss) (t ∷ ts) = s == t && equal_texts ss ts

-- `strings.Join(texts, ", ")`.
abbrev pub join : List String → String
join [] = ""
join (t ∷ []) = t
join (t ∷ u ∷ us) = Prim.Native.String.◌++◌ t (Prim.Native.String.◌++◌ ", " (join (u ∷ us)))

abbrev pub decision : EventType → String → String
decision typ reason = Prim.Native.String.◌++◌ (event_text typ) (Prim.Native.String.◌++◌ ":" reason)

abbrev pub decided : String → List String → Member → Member
decided text blockers current = record current { last_decision = text; last_blockers = blockers }

abbrev pub destroyed : Member → Member
destroyed current = record current {
  tombstoned = true;
  session_name = "";
  pending_up = false;
  last_decision = event_text destroy;
  last_blockers = [];
}

-- The first error of a pass is the one that it returns.
abbrev pub first_error : Option Failure → Option Failure → Option Failure
first_error (some e) later = some e
first_error none later = later

abbrev pub by_name : String × Member → String × Member → Bool
by_name a b = text_ltb a.0 b.0

-- `resources`, each with its member of the snapshot.
pub sorted_members : Members → Members
unfolding sort_by
sorted_members = sort_by by_name

-- The order of admission: members with a session first, then by name.
abbrev pub existing_first : String × Member → String × Member → Bool
existing_first a b =
    if has_session a.1
    then (if has_session b.1 then by_name a b else true)
    else (if has_session b.1 then false else by_name a b)

module _ (env : Env) where
  pub write_generation : World → Member → (Member → Member) → World × Option Failure
  unfolding update_population adjust
  write_generation w member f =
      update_population env w (adjust member.resource_id (if_generation member.generation f))

  pub record_decision : World → Member → EventType → String → List String → World × Option Failure
  unfolding record_event write_generation
  record_decision w member typ reason blockers =
      let logged = record_event w (record {
        session_name = member.session_name;
        typ = typ;
        reason = reason;
        summary = join blockers;
        resource = member.resource_id;
        blockers = blockers;
      }) in
      if member.last_decision == decision typ reason && equal_texts member.last_blockers blockers
      then (w, none)
      else write_generation logged member (decided (decision typ reason) blockers)

  -- The reasons against a destruction, sorted; an evaluation that fails is one.
  pub blockers_of : Member → List String
  unfolding sort_by
  blockers_of member = elim env.blockers [
    | none ↦ []
    | some hook ↦ elim (hook member.session_name) [
      | inl e ↦ Prim.Native.String.◌++◌ "completion evaluation failed: " e.text ∷ []
      | inr found ↦ sort_by text_ltb found
    ]
  ]

  abbrev note_event : World → String → String → EventType → String → String → World
  unfolding record_event
  note_event w resource session typ reason text = record_event w (record {
    session_name = session;
    typ = typ;
    reason = reason;
    summary = text;
    resource = resource;
    blockers = [];
  })

  pub call_destroy : World → Member → String → World × Option Failure
  unfolding record_admit write_generation
  call_destroy w member reason = elim env.destroy [
    | none ↦ (w, some (text_failure "population destruction has no lifecycle hook"))
    | some hook ↦
        let (store, result) =
          hook member.session_name member.resource_id env.destroy_force w.population in
        let w' = record w {
          population = store;
          calls =
              w.calls ++ destroy_call member.session_name member.resource_id env.destroy_force ∷ [];
        } in
        let note = note_event w' member.resource_id in
        elim result [
          | some e ↦ elim e.conflict [
            | some session ↦ (
              record_admit (note session conflict "provenance" e.text) (record {
                session = session;
                resource = member.resource_id;
                ok = false;
                reason = "provenance";
                error = e.text;
              }),
              some e,
            )
            | none ↦ (note member.session_name failure "destroy" e.text, some e)
          ]
          | none ↦
              write_generation
                (note member.session_name destroy reason "population member destroyed") member
                destroyed
        ]
  ]

  pub decide_destroy : World → Member → String → World × Option Failure
  unfolding record_decision blockers_of call_destroy
  decide_destroy w member reason = elim (blockers_of member) [
    | b ∷ bs ↦ record_decision w member destroy_deferred reason (b ∷ bs)
    | [] ↦
        if env.auto_destroy
        then call_destroy w member reason
        else record_decision w member destroy_dry_run reason []
  ]

  -- A session that was brought down by an operator, not put to sleep.
  pub fully_stopped : Option Session → Failure ⊎ Bool
  fully_stopped none = inr false
  fully_stopped (some s) =
      if not s.down || not (eqb s.sleep_since 0)
      then inr false
      else elim (env.last_stop_or_up s.name) [
        | inl e ↦ inl e
        | inr none ↦ inr false
        | inr (some stop) ↦ inr stop
      ]

  -- Whether a member of the snapshot is admitted in this pass, or the error that is kept.
  pub due : Member → Failure ⊎ Bool
  unfolding fully_stopped
  due member =
      let waits =
        member.admit_suspended
        || (not (eqb member.admit_retry_at 0) && ltb env.now member.admit_retry_at) in
      if member.tombstoned || not member.pending_up
      then inr false
      else if has_session member
      then elim (env.get_session member.session_name) [
        | inl e ↦ inl e
        | inr s ↦ elim (fully_stopped s) [
          | inl e ↦ inl e
          | inr true ↦ inr false
          | inr false ↦ inr (not waits)
        ]
      ]
      else inr (not waits)

  pub destroy_absent : World → Option Failure → Members → World × Option Failure
  unfolding decide_destroy
  destroy_absent w first [] = (w, first)
  destroy_absent w first ((resource, m) ∷ ms) =
      let (w', e) = decide_destroy w m "poll_absent" in
      let skipped = destroy_absent w first ms in
      let tried = destroy_absent w' (first_error first e) ms in
      if m.tombstoned && has_session m then tried else skipped

  pub admit_due : World → Option Failure → Members → World × Option Failure
  unfolding due admit
  admit_due w first [] = (w, first)
  admit_due w first ((resource, m) ∷ ms) =
      let (w', e) = admit env w m in
      let skipped = admit_due w first ms in
      let tried = admit_due w' (first_error first e) ms in
      elim (due m) [
        | inl f ↦ admit_due w (first_error first (some f)) ms
        | inr true ↦ tried
        | inr false ↦ skipped
      ]

  unfoldable pub reconcile : World → World × Option Failure
  unfolding read_population sorted_members destroy_absent admit_due sort_by
  reconcile w =
      let (w', read) = read_population w in
      elim read [
        | inl e ↦ (w', some e)
        | inr none ↦ (w', none)
        | inr (some p) ↦
            let resources = sorted_members p.members in
            let (swept, e) = destroy_absent w' none resources in
            admit_due swept e (sort_by existing_first resources)
      ]

  abbrev later : ℕ → ℕ → ℕ
  later a b = if ltb a b then b else a

  -- Whether `SweepExpiry` decides on a member's destruction.
  pub expired : Member → Failure ⊎ Bool
  expired m =
      if m.tombstoned || not (has_session m) || eqb m.accepted_at 0
      then inr false
      else elim (env.latest_inbound m.session_name) [
        | inl e ↦ inl e
        | inr inbound ↦
            let last = later (later m.accepted_at m.last_appearance) inbound in
            inr (not (ltb env.now (last + env.expire_after)))
      ]

  pub destroy_expired : World → Option Failure → Members → World × Option Failure
  unfolding expired decide_destroy
  destroy_expired w first [] = (w, first)
  destroy_expired w first ((resource, m) ∷ ms) =
      let (w', e) = decide_destroy w m "subscribe_expired" in
      let skipped = destroy_expired w first ms in
      let tried = destroy_expired w' (first_error first e) ms in
      elim (expired m) [
        | inl f ↦ destroy_expired w (first_error first (some f)) ms
        | inr true ↦ tried
        | inr false ↦ skipped
      ]

  unfoldable pub sweep_expiry : World → World × Option Failure
  unfolding read_population sorted_members destroy_expired reconcile
  sweep_expiry w =
      let (w', read) = read_population w in
      if env.uses_poll then reconcile w else elim read [
        | inl e ↦ (w', some e)
        | inr none ↦ (w', none)
        | inr (some p) ↦
            let (swept, first) = destroy_expired w' none (sorted_members p.members) in
            let (final, e) = reconcile swept in (final, first_error first e)
      ]
