-- ===== src/Reactor.antt =====
-- The reactor of a session (app/internal/reactor/reactor.go): which events make it tick, the draining of
-- the log, the heartbeat with its backoff (`BackoffInterval` of app/internal/config/workflow.go), and the
-- declaration that is read again. Durations are nanoseconds, 0 where the source tests for none.
pub mod Ticks
pub mod Heartbeat
pub mod Scenarios
use plecture.Base.{
  String, ℕ, zero, suc, ◌+◌, ◌-◌, ◌*◌, Bool, true, false, not, ◌&&◌, ◌||◌, List, [], ◌∷◌, Option,
  none, some, ◌⊎◌, inl, inr, if◌then◌else◌, ltb, leb, eqb, ◌==◌, any, contains,
}
use plecture.Events.{Event, Direction, has_prefix, match_type}
use plecture.Events.Log.{Row, append_all, list_events}
use plecture.Dispatch.Deliver.{type_channel_error}
use plecture.Dispatch.Drain.{any_event, position}

-- `TickConfig`, with the defaults of `MaxHeartbeatOrDefault` and `BackoffResetOrDefault` filled in.
pub record TickConfig : Type 0 where
  pub on : List String
  pub heartbeat : ℕ
  pub max_heartbeat : ℕ
  pub reset_inbound : Bool
  pub reset_fingerprint : Bool
  pub reset_live_children : Bool

abbrev pub type_judge_recorded : String
type_judge_recorded = "plect.judge.recorded"

abbrev pub type_resource_forwarded : String
type_resource_forwarded = "plect.resource.forwarded"

abbrev pub source_tick : String
source_tick = "plect.tick"

abbrev pub terminal_types : List String
terminal_types = "plect.terminal.done" ∷ "plect.terminal.escalate" ∷ "plect.terminal.dead" ∷ []

unfoldable pub is_self_emitted : Event → Bool
is_self_emitted ev =
    if ev.source == source_tick
    then true
    else if contains terminal_types ev.typ
    then true
    else has_prefix ev.typ "lifecycle."

unfoldable pub should_trigger : TickConfig → Event → Bool
unfolding is_self_emitted
should_trigger tick ev =
    if ev.typ == type_channel_error
    then false
    else if ev.typ == type_judge_recorded
    then true
    else if ev.typ == type_resource_forwarded
    then true
    else if is_self_emitted ev
    then false
    else any (λ pattern. match_type pattern ev.typ) tick.on

-- `schedulesNothing`.
unfoldable pub schedules_nothing : TickConfig → Bool
schedules_nothing tc = (elim tc.on [ [] ↦ true | p ∷ ps ↦ false ]) && eqb tc.heartbeat 0

-- What `refreshTickConfig` finds: the declaration that is resolved now, `none` where a read fails.
unfoldable pub refresh_tick_config : Option TickConfig → TickConfig → TickConfig
unfolding schedules_nothing
refresh_tick_config none tick = tick
refresh_tick_config (some tc) tick =
    if schedules_nothing tc && not (schedules_nothing tick) then tick else tc

-- The loop of `BackoffInterval`, with `n` rounds left.
unfoldable pub double_below : ℕ → ℕ → ℕ → ℕ
double_below max zero interval = interval
double_below max (suc n) interval =
    let more = double_below max n (interval * 2) in if ltb interval max then more else interval

unfoldable pub backoff_interval : ℕ → ℕ → ℕ → ℕ
unfolding double_below
backoff_interval base max n =
    let interval = double_below max n base in if ltb max interval then max else interval

-- `TickBackoff`.
pub record TickBackoff : Type 0 where
  pub last_fingerprint : String
  pub consecutive_unchanged : ℕ

-- What a reactor works on: the session's log, its cursors for ticks and for heartbeats, the time of the last
-- tick (0 for none), the backoff, and the calls of `TickSession` with their time, the latest first.
pub record World : Type 0 where
  pub rows : List Row
  pub tick_cursor : Option ℕ
  pub heartbeat_cursor : Option ℕ
  pub last_tick_at : ℕ
  pub backoff : Option TickBackoff
  pub ticks : List ℕ

-- What is seen of the session at one time: the composite fingerprint; whether a direct child is live, `none` where that
-- cannot be read; and which reads fail, of the heartbeat cursor, of the log and of the session.
pub record Sight : Type 0 where
  pub fingerprint : String
  pub live_child : Option Bool
  pub cursor_fails : Bool
  pub list_fails : Bool
  pub state_fails : Bool

-- How `TickSession` ends: with an error before it has stamped the session with the time of the tick, with an error after that, or
-- well.
pub data TickAnswer : Type 0 where
  unstamped failed_later succeeded : TickAnswer

-- What lies outside: the time; what is seen before a tick and after it; the answer of the tick, and the events that the log
-- gets while it runs; whether the run scope is up; whether the context has ended before the tick and after it; and
-- which calls fail, in order of the reactor's: the reads of its cursor, of the session and of the log, the commits of the two
-- cursors, and the update of the backoff.
pub record Env : Type 0 where
  pub now : ℕ
  pub seen : Sight
  pub seen_later : Sight
  pub answer : TickAnswer
  pub appended : List Event
  pub up : Bool
  pub ended : Bool
  pub ended_later : Bool
  pub read_fails : Bool
  pub state_fails : Bool
  pub list_fails : Bool
  pub commit_fails : Bool
  pub heartbeat_commit_fails : Bool
  pub update_fails : Bool

-- `hasInboundSince`.
unfoldable pub has_inbound_since : Sight → ℕ → List Row → Bool × ℕ
has_inbound_since sight since rows =
    let (evs, next) =
      list_events (record any_event { direction = some Direction.inbound }) since rows in
    if sight.list_fails then (false, since) else (elim evs [ [] ↦ false | r ∷ rs ↦ true ], next)

abbrev pub fingerprint_of : Option TickBackoff → String
fingerprint_of none = ""
fingerprint_of (some b) = b.last_fingerprint

abbrev pub unchanged_of : Option TickBackoff → ℕ
unchanged_of none = 0
unchanged_of (some b) = b.consecutive_unchanged

-- `evaluateBackoffReset`: whether a condition holds, and the next cursor.
unfoldable pub evaluate_backoff_reset : TickConfig → Sight → World → Bool × ℕ
unfolding has_inbound_since
evaluate_backoff_reset tick sight w =
    let since = if sight.cursor_fails then 0 else position w.heartbeat_cursor in
    let (inbound, next) = has_inbound_since sight since w.rows in
    let last = if sight.state_fails then "" else fingerprint_of w.backoff in
    let changed = not (sight.fingerprint == last) in
    let holds = (tick.reset_inbound && inbound) || (tick.reset_fingerprint && changed) in
    let live : Bool = elim sight.live_child [ none ↦ false | some l ↦ l ] in
    (if not holds && tick.reset_live_children then live else holds, next)

-- `updateBackoff`, which does nothing once the context has ended.
unfoldable pub update_backoff : TickConfig → Env → World → World
unfolding evaluate_backoff_reset
update_backoff tick env w =
    let (holds, next) = evaluate_backoff_reset tick env.seen_later w in
    let committed = record w {
      heartbeat_cursor = if env.heartbeat_commit_fails then w.heartbeat_cursor else some next;
    } in
    if env.ended_later then w else if env.update_fails then committed else record committed {
      backoff = some (record {
        last_fingerprint = env.seen_later.fingerprint;
        consecutive_unchanged = if holds then 0 else unchanged_of w.backoff + 1;
      });
    }

-- `doTick`, which does nothing once the context has ended; `TickSession` stamps the session before its fallible announcements.
unfoldable pub do_tick : TickConfig → Env → World → World
unfolding update_backoff
do_tick tick env w =
    let called = record w { rows = append_all w.rows env.appended; ticks = env.now ∷ w.ticks } in
    let stamped = record called { last_tick_at = env.now } in
    if env.ended then w else elim env.answer [
      | TickAnswer.unstamped ↦ called
      | TickAnswer.failed_later ↦ stamped
      | TickAnswer.succeeded ↦
          if ltb 0 tick.heartbeat then update_backoff tick env stamped else stamped
    ]

-- `drain` on one stream: one tick for the whole batch, after the cursor is committed.
unfoldable pub drain : TickConfig → Env → World → World
unfolding should_trigger do_tick
drain tick env w =
    let (evs, next) = list_events any_event (position w.tick_cursor) w.rows in
    let read = record w { tick_cursor = if env.commit_fails then w.tick_cursor else some next } in
    if env.read_fails || env.list_fails then w else elim evs [
      | [] ↦ w
      | r ∷ rs ↦
          if any (λ q. should_trigger tick q.event) (r ∷ rs) then do_tick tick env read else read
    ]

-- `checkHeartbeat`.
unfoldable pub check_heartbeat : TickConfig → Env → World → World
unfolding evaluate_backoff_reset backoff_interval do_tick
check_heartbeat tick env w =
    let holds = (evaluate_backoff_reset tick env.seen w).0 in
    let n = if holds then 0 else unchanged_of w.backoff in
    if eqb tick.heartbeat 0
    then w
    else if env.state_fails || not env.up
    then w
    else if eqb w.last_tick_at 0
    then do_tick tick env w
    else if ltb (env.now - w.last_tick_at) (backoff_interval tick.heartbeat tick.max_heartbeat n)
    then w
    else do_tick tick env w
