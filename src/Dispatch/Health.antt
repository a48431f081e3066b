-- ===== src/Dispatch/Health.antt =====
-- The failure streaks of a session's channels (app/internal/dispatch/channel_health.go), with the record
-- `ChannelHealth` of contracts/state/state.go. The counter stays far below 2^63.
pub mod Episodes
use plecture.Base.{
  String, ℕ, ◌+◌, ◌*◌, Bool, true, false, not, ◌&&◌, ◌||◌, List, Option, none, some, if◌then◌else◌,
  eqb, leb,
}

pub record ChannelHealth : Type 0 where
  pub consecutive_failures : ℕ
  pub first_failure_at : ℕ
  pub last_failure_at : ℕ
  pub last_channel : String
  pub last_error : String
  pub escalated_at : ℕ

abbrev pub no_streak : ChannelHealth
no_streak = record {
  consecutive_failures = 0;
  first_failure_at = 0;
  last_failure_at = 0;
  last_channel = "";
  last_error = "";
  escalated_at = 0;
}

-- `cause` is `none` for a nil error.
unfoldable pub next_channel_failure :
    Option ChannelHealth → String → Option String → ℕ → ChannelHealth
next_channel_failure prev channel_name cause at =
    let ch : ChannelHealth = elim prev [ none ↦ no_streak | some h ↦ h ] in
    record {
      consecutive_failures = ch.consecutive_failures + 1;
      first_failure_at = if eqb ch.consecutive_failures 0 then at else ch.first_failure_at;
      last_failure_at = at;
      last_channel = channel_name;
      last_error = elim cause [ none ↦ ch.last_error | some e ↦ e ];
      escalated_at = ch.escalated_at;
    }

-- The two streaks of a session.
pub record Streaks : Type 0 where
  pub validation : Option ChannelHealth
  pub delivery : Option ChannelHealth

unfoldable pub record_validation_failure : Option String → ℕ → Streaks → Streaks
unfolding next_channel_failure
record_validation_failure cause at s = record s {
  validation = some (next_channel_failure s.validation "" cause at);
}

unfoldable pub record_delivery_failure : String → Option String → ℕ → Streaks → Streaks
unfolding next_channel_failure
record_delivery_failure channel_name cause at s = record s {
  delivery = some (next_channel_failure s.delivery channel_name cause at);
}

-- A streak is open while it has failures.
abbrev pub is_open : Option ChannelHealth → Bool
is_open none = false
is_open (some h) = if eqb h.consecutive_failures 0 then false else true

unfoldable pub record_validation_success : Streaks → Streaks
record_validation_success s = if is_open s.validation then record s { validation = none } else s

unfoldable pub record_delivery_success : Streaks → Streaks
record_delivery_success s = if is_open s.delivery then record s { delivery = none } else s

abbrev pub failure_threshold : ℕ
failure_threshold = 3

-- Five minutes in nanoseconds.
abbrev pub failure_age : ℕ
failure_age = 300 * 1000000000

unfoldable pub has_crossed : ℕ → ChannelHealth → Bool
has_crossed now ch =
    leb failure_threshold ch.consecutive_failures
    || (not (eqb ch.first_failure_at 0) && leb (ch.first_failure_at + failure_age) now)

-- `checkChannelHealthStreak` and `persistChannelHealthEscalation` of
-- app/internal/service/channel_health.go: `pushed` is what `pushChannelHealthEscalation` answers,
-- `persisted` whether the write of the mark succeeds.
unfoldable pub check_channel_health_streak :
    ℕ → Bool → Bool → Option ChannelHealth → Bool × Option ChannelHealth
unfolding has_crossed
check_channel_health_streak now pushed persisted none = (false, none)
check_channel_health_streak now pushed persisted (some ch) =
    if eqb ch.consecutive_failures 0 || not (eqb ch.escalated_at 0)
    then (false, some ch)
    else if not (has_crossed now ch)
    then (false, some ch)
    else if not pushed
    then (false, some ch)
    else (true, some (if persisted then record ch { escalated_at = now } else ch))
