-- ===== src/Reactor/Scenarios.antt =====
-- A session with a heartbeat of ten, and an event that it reacts to.
use plecture.Base.{String, ◌≡◌, refl, true, false, not, ◌&&◌, [], ◌∷◌, some, none, if◌then◌else◌}
use plecture.Events.{Event, Direction, matches}
use plecture.Events.Log.{list_events, append_all}
use plecture.Reactor.{
  TickConfig, World, Sight, TickAnswer, Env, should_trigger, check_heartbeat, unchanged_of, drain,
}
use plecture.Reactor.Heartbeat.{is_due, stamps, quiet_after, check_heartbeat_lem}
use plecture.Reactor.Ticks.{Batched, drain-Batched}

abbrev config : TickConfig
config = record {
  on = "issue.*" ∷ [];
  heartbeat = 10;
  max_heartbeat = 60;
  reset_inbound = true;
  reset_fingerprint = true;
  reset_live_children = false;
}

abbrev event : String → String → Event
event typ source = record {
  id = "e";
  session_name = "s";
  time = 5;
  typ = typ;
  source = source;
  direction = Direction.internal;
  summary = "";
  body = "";
  metadata = [];
}

-- What a tick itself emits does not trigger one, whatever the patterns.
own_event :
    should_trigger (record config { on = "*" ∷ [] }) (event "user.emit" "plect.tick") ≡ false
unfolding should_trigger
own_event = refl

abbrev world : World
world = record {
  rows = record { seq = 1; event = event "issue.closed" "github" } ∷ [];
  tick_cursor = some 0;
  heartbeat_cursor = some 2;
  last_tick_at = 100;
  backoff = some (record { last_fingerprint = "f"; consecutive_unchanged = 2 });
  ticks = 100 ∷ [];
}

abbrev sight : String → Sight
sight fingerprint = record {
  fingerprint = fingerprint;
  live_child = none;
  cursor_fails = false;
  list_fails = false;
  state_fails = false;
}

abbrev env : Env
env = record {
  now = 145;
  seen = sight "f";
  seen_later = sight "g";
  answer = TickAnswer.succeeded;
  appended = event "plect.tick.checked" "plect.tick" ∷ [];
  up = true;
  ended = false;
  ended_later = false;
  read_fails = false;
  state_fails = false;
  list_fails = false;
  commit_fails = false;
  heartbeat_commit_fails = false;
  update_fails = false;
}

-- A tick that fails after its stamp is not repeated by the next sweep.
abbrev failing : Env
failing = record env { answer = TickAnswer.failed_later }

swept_once :
    (check_heartbeat config env (check_heartbeat config failing world)).ticks ≡ 145 ∷ 100 ∷ []
unfolding check_heartbeat list_events append_all matches
swept_once = refl

-- After two quiet ticks the next is due after 40.
check_heartbeat_lem_example :
    if is_due config env world && not env.ended
    then ((check_heartbeat config env world).ticks ≡ env.now ∷ world.ticks)
      × ((check_heartbeat config env world).last_tick_at
          ≡ (if stamps env.answer then env.now else world.last_tick_at))
      × (unchanged_of (check_heartbeat config env world).backoff ≡ quiet_after config env world)
    else check_heartbeat config env world ≡ world
check_heartbeat_lem_example = check_heartbeat_lem config env world refl refl refl

drain-Batched_example : Batched config env world (drain config env world)
drain-Batched_example = drain-Batched config env world (tt, tt) refl refl refl
