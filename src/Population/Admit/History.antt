-- ===== src/Population/Admit/History.antt =====
-- A member's failures in a row.
use plecture.Base.{
  String, ℕ, ◌+◌, ◌*◌, ◌^◌, ◌<◌, ◌≡◌, refl, Bool, not, ◌&&◌, ◌||◌, List, [], ◌∷◌, arith,
  if◌then◌else◌, leb, length, count, any, count-le-length,
}
use plecture.Population.Member.{Member, Failure, is_capacity_refusal}
use plecture.Population.Backoff.{admit_retry_base, admit_retry_max, admit_failure_limit}
use plecture.Population.Backoff.Delays.{admit_retry_delay_lem, min}
use plecture.Population.Admit.{note_failure, is_permanent_admit_failure, clear_admit_retry}

-- One failed admission: the time, the reason and the error.
pub record Failed : Type 0 where
  pub now : ℕ
  pub reason : String
  pub error : Failure

-- The member after a history of failures, the latest first.
pub note_all : List Failed → Member → Member
unfolding note_failure
note_all [] m = m
note_all (a ∷ past) m = note_failure a.now a.reason a.error (note_all past m)

abbrev pub counts : Failed → Bool
counts a = not (is_capacity_refusal a.error)

abbrev pub hopeless : Failed → Bool
hopeless a = counts a && is_permanent_admit_failure a.reason a.error

-- What a member with nothing against it is after its failures.
pub record FailedTimes (history : List Failed) (m : Member) : Type 0 where
  pub failures : m.consecutive_admit_failures ≡ count counts history
  pub suspended :
      m.admit_suspended ≡ (any hopeless history || leb admit_failure_limit (count counts history))

note_all-count :
    (history : List Failed) (m : Member)
    → length history < 2 ^ 64
    → FailedTimes history (note_all history (clear_admit_retry m))
unfolding note_all note_failure
note_all-count [] m h = record { failures = refl; suspended = refl }
note_all-count (a ∷ past) m h =
    let ih = note_all-count past m (omega (arith, h)) in
    let bound = count-le-length counts past in
    record {
      failures = ground (arith, ih.failures, bound);
      suspended = ground (arith, ih.failures, ih.suspended, bound);
    }

-- The next attempt after the failures of a member.
abbrev pub next_attempt : Failed → List Failed → ℕ
next_attempt a past =
    if is_capacity_refusal a.error
    then a.now + admit_retry_base
    else if hopeless a || leb admit_failure_limit (count counts (a ∷ past))
    then 0
    else a.now + min (admit_retry_base * 2 ^ count counts past) admit_retry_max

-- Of a member with nothing against it whose admissions fail in a row, fewer than 2^64 times: its
-- counter says how many failures were not for lack of capacity; it is suspended if and only if
-- one of those was permanent or there are five of them; and the latest failure sets the next attempt
-- to five seconds later if it was for lack of capacity, to none if it was permanent or not the
-- first, second, third or fourth counted, and otherwise to five seconds later, doubled for each
-- counted failure before it, a minute at most.
pub note_all-backoff :
    (latest : Failed) (past : List Failed) (m : Member)
    → length (latest ∷ past) < 2 ^ 64
    → FailedTimes (latest ∷ past) (note_all (latest ∷ past) (clear_admit_retry m))
      × ((note_all (latest ∷ past) (clear_admit_retry m)).admit_retry_at ≡ next_attempt latest past)
unfolding note_all note_failure
note_all-backoff a past m h =
    let ih = note_all-count past m (omega (arith, h)) in
    let bound = count-le-length counts past in
    (
      note_all-count (a ∷ past) m h,
      ground (arith, ih.failures, bound, admit_retry_delay_lem (count counts past)),
    )
