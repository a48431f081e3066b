-- ===== src/Reactor/Heartbeat.antt =====
-- When a session ticks without an event.
use plecture.Base.{
  ℕ, zero, suc, ◌+◌, ◌-◌, ◌*◌, ◌^◌, ◌≤◌, ◌≡◌, Bool, true, false, List, [], none, some, any, ◌==◌,
  refl, subst, not, ◌&&◌, ◌||◌, ◌∷◌, arith, if◌then◌else◌, ltb, leb, eqb, Bool-cases, inl, inr,
}
use plecture.Events.Log.{Row, rows_from, append_all, list_rows, list_events}
use plecture.Events.{Direction, Filter, matches, same_direction}
use plecture.Dispatch.Drain.{any_event, position}
use plecture.Reactor.{
  TickConfig, World, Sight, Env, TickAnswer, has_inbound_since, fingerprint_of, double_below,
  backoff_interval, evaluate_backoff_reset, update_backoff, do_tick, check_heartbeat, unchanged_of,
}

abbrev pub min : ℕ → ℕ → ℕ
min a b = if ltb a b then a else b

power_positive : (n : ℕ) → 1 ≤ 2 ^ n
power_positive zero = omega arith
power_positive (suc n) = omega (arith, power_positive n)

double_below-min :
    (max n interval : ℕ) → min (double_below max n interval) max ≡ min (interval * 2 ^ n) max
unfolding double_below
double_below-min max zero interval = ground arith
double_below-min max (suc n) interval =
    let twice : interval * 2 * 2 ^ n ≡ interval * 2 ^ suc n = grind arith in
    let grows : interval ≤ interval * 2 ^ suc n = grind (arith, power_positive (suc n)) in
    ground (arith, double_below-min max n (interval * 2), twice, grows)

backoff_interval-min : (base max n : ℕ) → backoff_interval base max n ≡ min (base * 2 ^ n) max
unfolding backoff_interval
backoff_interval-min base max n = ground (arith, double_below-min max n base)

-- An inbound event from a sequence on.
abbrev pub inbound_since : ℕ → List Row → Bool
inbound_since since rows =
    any (λ r. leb since r.seq && same_direction r.event.direction Direction.inbound) rows

-- Whether a condition that resets the backoff holds, of those that are declared: an inbound event in the log since the last tick that
-- counted, another fingerprint than then, or a live child. What cannot be read does not hold, a cursor or a
-- fingerprint that cannot be read is unset.
abbrev pub resets : TickConfig → Sight → World → Bool
resets tick sight w =
    (tick.reset_inbound
      && not sight.list_fails
      && inbound_since (if sight.cursor_fails then 0 else position w.heartbeat_cursor) w.rows)
    || (tick.reset_fingerprint
        && not (sight.fingerprint == (if sight.state_fails then "" else fingerprint_of w.backoff)))
    || (tick.reset_live_children && (elim sight.live_child [ none ↦ false | some live ↦ live ]))

abbrev some_rows : List Row → Bool
some_rows [] = false
some_rows (r ∷ rs) = true

list_rows-some :
    (f : Filter) (kept next : ℕ) (rs : List Row)
    → some_rows (list_rows f kept next rs).0 ≡ any (λ r. matches f r.event) rs
unfolding list_rows
list_rows-some f kept next [] = refl
list_rows-some f kept next (r ∷ rs) = ground (arith, list_rows-some f kept (r.seq + 1) rs)

any-rows_from :
    (p : Row → Bool) (since : ℕ) (rows : List Row)
    → any p (rows_from since rows) ≡ any (λ r. leb since r.seq && p r) rows
any-rows_from p since [] = refl
any-rows_from p since (r ∷ rs) = ground (arith, any-rows_from p since rs)

inbound : Filter
inbound = record any_event { direction = some Direction.inbound }

has_inbound_since-inbound :
    (sight : Sight) (since : ℕ) (rows : List Row)
    → (has_inbound_since sight since rows).0 ≡ (not sight.list_fails && inbound_since since rows)
unfolding has_inbound_since list_events matches inbound
has_inbound_since-inbound sight since rows = ground (
  arith,
  list_rows-some inbound 0 since (rows_from since rows),
  any-rows_from (λ r. matches inbound r.event) since rows,
)

evaluate-resets :
    (tick : TickConfig) (sight : Sight) (w : World)
    → (evaluate_backoff_reset tick sight w).0 ≡ resets tick sight w
unfolding evaluate_backoff_reset
evaluate-resets tick sight w = ground (
  arith,
  has_inbound_since-inbound sight (if sight.cursor_fails then 0 else position w.heartbeat_cursor)
      w.rows,
)

abbrev pub due_by : Bool → TickConfig → Env → World → Bool
due_by holds tick env w =
    let n = if holds then 0 else unchanged_of w.backoff in
    eqb w.last_tick_at 0
    || leb (min (tick.heartbeat * 2 ^ n) tick.max_heartbeat) (env.now - w.last_tick_at)

-- Whether a heartbeat is due: there was no tick yet, or the interval has passed, which doubles with every quiet tick
-- since the last condition that resets it, up to its maximum.
abbrev pub is_due : TickConfig → Env → World → Bool
is_due tick env w = due_by (resets tick env.seen w) tick env w

-- The session when a tick that has stamped it returns.
abbrev pub ticked : Env → World → World
ticked env w = record w {
  rows = append_all w.rows env.appended;
  ticks = env.now ∷ w.ticks;
  last_tick_at = env.now;
}

abbrev pub stamps : TickAnswer → Bool
stamps TickAnswer.unstamped = false
stamps TickAnswer.failed_later = true
stamps TickAnswer.succeeded = true

abbrev pub succeeds : TickAnswer → Bool
succeeds TickAnswer.unstamped = false
succeeds TickAnswer.failed_later = false
succeeds TickAnswer.succeeded = true

abbrev pub quiet_by : Bool → Env → World → ℕ
quiet_by holds env w =
    if succeeds env.answer && not env.ended_later && not env.update_fails
    then if holds then 0 else unchanged_of w.backoff + 1
    else unchanged_of w.backoff

-- The quiet ticks in a row after a tick: one that succeeds counts, and starts the count from 0 where a condition that resets the
-- backoff holds after it; without success, or where the count cannot be written, it stays.
abbrev pub quiet_after : TickConfig → Env → World → ℕ
quiet_after tick env w = quiet_by (resets tick env.seen_later (ticked env w)) env w

abbrev Swept : Bool → Bool → TickConfig → Env → World → Type 0
Swept before after tick env w =
    if due_by before tick env w && not env.ended
    then ((check_heartbeat tick env w).ticks ≡ env.now ∷ w.ticks)
      × ((check_heartbeat tick env w).last_tick_at
          ≡ (if stamps env.answer then env.now else w.last_tick_at))
      × (unchanged_of (check_heartbeat tick env w).backoff ≡ quiet_by after env w)
    else check_heartbeat tick env w ≡ w

check_heartbeat-Swept :
    (tick : TickConfig) (env : Env) (w : World)
    → eqb tick.heartbeat 0 ≡ false
    → env.state_fails ≡ false
    → env.up ≡ true
    → Swept
        (evaluate_backoff_reset tick env.seen w).0
        (evaluate_backoff_reset tick env.seen_later (ticked env w)).0
        tick
        env
        w
unfolding check_heartbeat do_tick update_backoff
check_heartbeat-Swept tick env w h r u =
    let holds = (evaluate_backoff_reset tick env.seen w).0 in
    let n = if holds then 0 else unchanged_of w.backoff in
    let interval = backoff_interval-min tick.heartbeat tick.max_heartbeat n in
    elim (Bool-cases (due_by holds tick env w && not env.ended)) [
      | inl e ↦ rw e (
        ground (arith, e, h, r, u, interval),
        ground (arith, e, h, r, u, interval),
        ground (arith, e, h, r, u, interval),
      )
      | inr e ↦ rw e (ground (arith, e, h, r, u, interval))
    ]

-- A sweep over a session that is up, with a heartbeat declared and where the session is read, calls for one tick if the heartbeat is
-- due and the context has not ended, and otherwise leaves all as it was. The time of the last tick is then the time
-- of this one if the tick stamps the session, also where it fails later; it counts as quiet, one more than before, if it succeeds
-- and the count is written, unless a condition that resets the backoff holds after it, which starts the
-- count from 0.
pub check_heartbeat_lem :
    (tick : TickConfig) (env : Env) (w : World)
    → eqb tick.heartbeat 0 ≡ false
    → env.state_fails ≡ false
    → env.up ≡ true
    → if is_due tick env w && not env.ended
      then ((check_heartbeat tick env w).ticks ≡ env.now ∷ w.ticks)
        × ((check_heartbeat tick env w).last_tick_at
            ≡ (if stamps env.answer then env.now else w.last_tick_at))
        × (unchanged_of (check_heartbeat tick env w).backoff ≡ quiet_after tick env w)
      else check_heartbeat tick env w ≡ w
check_heartbeat_lem tick env w h r u =
    let now_holds = resets tick env.seen w in
    subst (λ b. Swept now_holds b tick env w) (evaluate-resets tick env.seen_later (ticked env w))
      (subst (λ b. Swept b (evaluate_backoff_reset tick env.seen_later (ticked env w)).0 tick env w)
        (evaluate-resets tick env.seen w) (check_heartbeat-Swept tick env w h r u))
