-- ===== src/Dispatch/Deliver.antt =====
-- One event and the channels of its session (`processEvent`, `channelMatches`, `shouldHold`,
-- `recordFailure` of app/internal/dispatch/dispatcher.go, `ChannelErrorEvent` of
-- app/internal/channel/retry.go). The workers of the channels run side by side and their outcomes are collected by
-- channel; here they run in the channels' order.
pub mod Outcome
pub mod Resend
pub mod Loops
use plecture.Base.{
  String, ℕ, ◌+◌, ◌*◌, Bool, true, false, not, ◌&&◌, ◌||◌, List, [], ◌∷◌, ◌++◌, Option, none, some,
  ◌⊎◌, inl, inr, if◌then◌else◌, ltb, ◌==◌, any, all, contains,
}
use plecture.Events.{Event, Direction, match_type, meta}
use plecture.Events.Log.{Row, append_event}
use plecture.Dispatch.Retry.{RetryPolicy, retry}
use plecture.Dispatch.Health.{Streaks, record_delivery_failure, record_delivery_success}

abbrev pub type_channel_error : String
type_channel_error = "plect.channel.error"

abbrev pub type_session_resumed : String
type_session_resumed = "plect.session.resumed"

abbrev pub type_instruction : String
type_instruction = "plect.instruction"

-- `EventChannel`.
pub record Channel : Type 0 where
  pub name : String
  pub uses : String
  pub include : List String

unfoldable pub channel_matches : Channel → Event → Bool
channel_matches ch ev =
    any
      (λ include.
        match_type include ev.typ
        || (ev.typ == type_session_resumed && match_type include type_instruction))
      ch.include

-- `deliveryFailure`.
pub record DeliveryFailure : Type 0 where
  pub channel : String
  pub attempts : ℕ
  pub cause : String
  pub attempted : Bool

-- `heldEvent`; the names that were delivered as a list.
pub record HeldEvent : Type 0 where
  pub id : String
  pub delivered : List String

abbrev pub nothing_held : HeldEvent
nothing_held = record { id = ""; delivered = [] }

abbrev pub second : ℕ
second = 1000000000

abbrev pub repair_hold_limit : ℕ
repair_hold_limit = 30 * (60 * second)

-- A dispatcher: its channels, the definitions that they use, the retry policy, and what lies outside. For
-- a channel and an event, `inputs` is the error of `channelInputs`, `timeout` that of `ResolveTimeout` or the channel's timeout,
-- `attempt` the result of the n-th attempt, and `cancelled` the context's error during the wait after
-- it. `stopped` says whether the context has ended when an event has been delivered, and `stopped_at` when
-- its n-th failure is recorded; `awaiting_repair` is `none` where it is not set. `stamp` is the id and the
-- time that an appended event gets, the texts are those of `ChannelErrorEvent`, and `lost` says that
-- a write of the streak fails, `append_lost` that of an event.
pub record Env : Type 0 where
  pub channels : List Channel
  pub defined : String → Bool
  pub policy : RetryPolicy
  pub inputs : Channel → Event → Option String
  pub timeout : Channel → Event → String ⊎ ℕ
  pub attempt : Channel → Event → ℕ → ℕ → Option String
  pub cancelled : Channel → Event → ℕ → Option String
  pub stopped : Event → Bool
  pub stopped_at : Event → ℕ → Bool
  pub awaiting_repair : Option (String ⊎ Bool)
  pub now : ℕ
  pub summary : String → ℕ → String
  pub body : Event → String → String → String
  pub decimal : ℕ → String
  pub stamp : Event → ℕ → String × ℕ
  pub lost : Event → Bool
  pub append_lost : Event → ℕ → Bool

-- `DeliverWithRetryAndOptions`.
unfoldable pub deliver_with_retry : Env → Channel → Event → ℕ × Option String
unfolding retry
deliver_with_retry env ch ev = elim (env.timeout ch ev) [
  | inl e ↦ (0, some e)
  | inr t ↦
      let r = retry env.policy t (env.attempt ch ev) (env.cancelled ch ev) in (r.attempts, r.error)
]

-- A worker: `none` is a delivery.
unfoldable pub work : Env → Channel → Event → Option DeliveryFailure
unfolding deliver_with_retry
work env ch ev = elim (env.inputs ch ev) [
  | some e ↦ some (record { channel = ch.name; attempts = 0; cause = e; attempted = false })
  | none ↦
      let (attempts, error) = deliver_with_retry env ch ev in
      elim error [
        | none ↦ none
        | some e ↦ some (record {
          channel = ch.name;
          attempts = attempts;
          cause = e;
          attempted = ltb 0 attempts;
        })
      ]
]

-- What the workers of an event did: whether a channel matched, the names they delivered to, and the
-- failures in the channels' order.
pub record Worked : Type 0 where
  pub matched : Bool
  pub sent : List String
  pub failures : List DeliveryFailure

abbrev pub no_work : Worked
no_work = record { matched = false; sent = []; failures = [] }

-- The channels that an event goes to.
unfoldable pub wants : Env → Event → Channel → Bool
unfolding channel_matches
wants env ev ch =
    channel_matches ch ev
    && not (ev.typ == type_channel_error && meta "channel" ev.metadata == ch.name)
    && env.defined ch.uses

-- The loop over the channels.
unfoldable pub work_all : Env → Event → List String → List Channel → Worked
unfolding wants work
work_all env ev delivered [] = no_work
work_all env ev delivered (ch ∷ rest) =
    let later = work_all env ev delivered rest in
    if not (wants env ev ch)
    then later
    else if contains delivered ch.name
    then record later { matched = true }
    else elim (work env ch ev) [
      | none ↦ record later { matched = true; sent = ch.name ∷ later.sent }
      | some f ↦ record later { matched = true; failures = f ∷ later.failures }
    ]

unfoldable pub should_hold : Env → Event → List DeliveryFailure → Bool
should_hold env ev failures = elim env.awaiting_repair [
  | none ↦ false
  | some answer ↦
      if not (all (λ f. f.attempted) failures)
      then false
      else if ltb (ev.time + repair_hold_limit) env.now
      then false
      else elim answer [ inl e ↦ false | inr awaiting ↦ awaiting ]
]

-- `ChannelErrorEvent`.
unfoldable pub channel_error_event : Env → Event → String → ℕ → String → Event
channel_error_event env orig channel_name attempts cause = record {
  id = "";
  session_name = orig.session_name;
  time = 0;
  typ = type_channel_error;
  source = "plect";
  direction = Direction.internal;
  summary = env.summary channel_name attempts;
  body = env.body orig channel_name cause;
  metadata =
      ("channel", channel_name)
      ∷ ("event_id", orig.id)
      ∷ ("attempts", env.decimal attempts)
      ∷ ("event_type", orig.typ)
      ∷ [];
}

-- What a dispatcher holds and writes.
pub record Desk : Type 0 where
  pub held : HeldEvent
  pub streaks : Streaks
  pub rows : List Row

-- `recordFailure`: the `n`-th failure of an event.
unfoldable pub record_failure : Env → Event → ℕ → DeliveryFailure → List Row → List Row
unfolding channel_error_event
record_failure env ev n f rows =
    if env.stopped_at ev n
    then rows
    else if env.append_lost ev n
    then rows
    else let (id, time) = env.stamp ev n in
      append_event rows
        (record (channel_error_event env ev f.channel f.attempts f.cause) { id = id; time = time })

unfoldable pub record_failures : Env → Event → ℕ → List DeliveryFailure → List Row → List Row
unfolding record_failure
record_failures env ev n [] rows = rows
record_failures env ev n (f ∷ rest) rows =
    record_failures env ev (n + 1) rest (record_failure env ev n f rows)

-- A write of the streak that can be lost.
abbrev pub unless_lost : Env → Event → (Streaks → Streaks) → Streaks → Streaks
unless_lost env ev change s = if env.lost ev then s else change s

-- An error about an error goes nowhere.
abbrev pub is_error_of_error : Event → Bool
is_error_of_error ev =
    ev.typ == type_channel_error && meta "event_type" ev.metadata == type_channel_error

-- The names that an event held so far was delivered to.
unfoldable pub already : HeldEvent → Event → List String
already held ev = if held.id == ev.id then held.delivered else []

-- The event after its workers: `true` where it is held.
unfoldable pub settle : Env → Event → Worked → Desk → Desk × Bool
unfolding should_hold record_failures already
settle env ev w desk = if env.stopped ev then (desk, false) else elim w.failures [
  | [] ↦ (
    record desk {
      held = nothing_held;
      streaks =
          if w.matched
          then unless_lost env ev record_delivery_success desk.streaks
          else desk.streaks;
    },
    false,
  )
  | f ∷ fs ↦
      if should_hold env ev (f ∷ fs)
      then (
        record desk { held = record { id = ev.id; delivered = already desk.held ev ++ w.sent } },
        true,
      )
      else (
        record {
          held = nothing_held;
          streaks =
              unless_lost env ev (record_delivery_failure f.channel (some f.cause) env.now)
                desk.streaks;
          rows = record_failures env ev 0 (f ∷ fs) desk.rows;
        },
        false,
      )
]

unfoldable pub process_event : Env → Event → Desk → Desk × Bool
unfolding work_all settle already
process_event env ev desk =
    if is_error_of_error ev
    then (desk, false)
    else settle env ev (work_all env ev (already desk.held ev) env.channels) desk
