-- ===== src/Dispatch/Health/Episodes.antt =====
-- The episodes of a streak.
use plecture.Base.{
  String, ℕ, suc, ◌≤◌, ◌<◌, ◌≡◌, refl, Bool, true, false, List, [], ◌∷◌, Option, none, some, arith,
  if◌then◌else◌, eqb, Option-cases, inl, inr,
}
use plecture.Dispatch.Health.{
  ChannelHealth, Streaks, record_delivery_failure, record_delivery_success,
  check_channel_health_streak,
}

-- What happens to a delivery streak: a failure of a channel, a success, a check with its answer to a push.
pub data Moment : Type 0 where
  failed : String → Option String → ℕ → Moment
  delivered : Moment
  checked : ℕ → Bool → Moment

-- The streaks after a moment, and whether it escalated.
unfoldable pub live : Moment → Streaks → Bool × Streaks
unfolding record_delivery_failure record_delivery_success check_channel_health_streak
live (Moment.failed name cause at) s = (false, record_delivery_failure name cause at s)
live Moment.delivered s = (false, record_delivery_success s)
live (Moment.checked now pushed) s =
    let (told, h) = check_channel_health_streak now pushed true s.delivery in
    (told, record s { delivery = h })

-- How many failures there are since the last success, and how many escalations: the latest moment comes first.
pub failures_since : List Moment → ℕ
failures_since [] = 0
failures_since (Moment.failed name cause at ∷ past) = suc (failures_since past)
failures_since (Moment.delivered ∷ past) = 0
failures_since (Moment.checked now pushed ∷ past) = failures_since past

pub after : List Moment → Streaks → Streaks
unfolding live
after [] s = s
after (m ∷ past) s = (live m (after past s)).1

pub told_since : List Moment → Streaks → ℕ
unfolding live after
told_since [] s = 0
told_since (Moment.delivered ∷ past) s = 0
told_since (m ∷ past) s =
    let before = told_since past s in if (live m (after past s)).0 then suc before else before

-- Clocks do not show the zero time.
unfoldable pub IsTimed : List Moment → Type 0
IsTimed [] = Unit
IsTimed (Moment.checked now pushed ∷ past) = (0 < now) × IsTimed past
IsTimed (m ∷ past) = IsTimed past

abbrev failures_of : Option ChannelHealth → ℕ
failures_of none = 0
failures_of (some h) = h.consecutive_failures

abbrev escalated : Option ChannelHealth → ℕ
escalated none = 0
escalated (some h) = if eqb h.escalated_at 0 then 0 else 1

-- What a streak is after moments that start without one.
pub record Counted (past : List Moment) (s : Streaks) : Type 0 where
  pub failures : failures_of (after past s).delivery ≡ failures_since past
  pub told : escalated (after past s).delivery ≡ told_since past s
  pub mark : failures_since past ≡ 0 → told_since past s ≡ 0
  pub other : (after past s).validation ≡ s.validation

after-Counted :
    (past : List Moment) (s : Streaks) → s.delivery ≡ none → IsTimed past → Counted past s
unfolding after failures_since told_since live IsTimed
after-Counted [] s n t = record {
  failures = ground (arith, n);
  told = ground (arith, n);
  mark = λ h. refl;
  other = refl;
}
after-Counted (Moment.failed name cause at ∷ past) s n t =
    let ih = after-Counted past s n t in
    elim (Option-cases (after past s).delivery) [
      | inl e ↦ record {
        failures = ground (arith, e, ih.failures, ih.told, ih.mark);
        told = ground (arith, e, ih.failures, ih.told, ih.mark);
        mark = λ h. ground (arith, e, ih.failures, ih.told, ih.mark);
        other = ground (arith, e, ih.other);
      }
      | inr (ch, e) ↦ record {
        failures = ground (arith, e, ih.failures, ih.told, ih.mark);
        told = ground (arith, e, ih.failures, ih.told, ih.mark);
        mark = λ h. ground (arith, e, ih.failures, ih.told, ih.mark);
        other = ground (arith, e, ih.other);
      }
    ]
after-Counted (Moment.delivered ∷ past) s n t =
    let ih = after-Counted past s n t in
    elim (Option-cases (after past s).delivery) [
      | inl e ↦ record {
        failures = ground (arith, e, ih.failures, ih.told, ih.mark);
        told = ground (arith, e, ih.failures, ih.told, ih.mark);
        mark = λ h. ground (arith, e, ih.failures, ih.told, ih.mark);
        other = ground (arith, e, ih.other);
      }
      | inr (ch, e) ↦ record {
        failures = ground (arith, e, ih.failures, ih.told, ih.mark);
        told = ground (arith, e, ih.failures, ih.told, ih.mark);
        mark = λ h. ground (arith, e, ih.failures, ih.told, ih.mark);
        other = ground (arith, e, ih.other);
      }
    ]
after-Counted (Moment.checked now pushed ∷ past) s n t =
    let ih = after-Counted past s n t.1 in
    elim (Option-cases (after past s).delivery) [
      | inl e ↦ record {
        failures = ground (arith, e, ih.failures, ih.told, ih.mark);
        told = ground (arith, e, ih.failures, ih.told, ih.mark);
        mark = λ h. ground (arith, e, ih.failures, ih.told, ih.mark);
        other = ground (arith, e, ih.other);
      }
      | inr (ch, e) ↦ record {
        failures = ground (arith, e, ih.failures, ih.told, ih.mark);
        told = ground (arith, e, ih.failures, ih.told, ih.mark);
        mark = λ h. ground (arith, e, ih.failures, ih.told, ih.mark);
        other = ground (arith, e, ih.other);
      }
    ]

-- After any moments of a session without a delivery streak, the streak counts the failures since the last success, its mark
-- says whether an escalation was pushed since then, at most one was, and the streak of the validation is untouched. The marks are
-- assumed to be written.
pub after-once :
    (past : List Moment) (s : Streaks)
    → s.delivery ≡ none
    → IsTimed past
    → Counted past s × (told_since past s ≤ 1)
after-once past s n t =
    let all_counts = after-Counted past s n t in
    (
      all_counts,
      elim (Option-cases (after past s).delivery) [
        | inl e ↦ ground (arith, e, all_counts.told)
        | inr (ch, e) ↦ ground (arith, e, all_counts.told)
      ],
    )
