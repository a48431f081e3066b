-- ===== src/Dispatch/Drain.antt =====
-- Draining a session's log (`SeedCursor` and `drain` of app/internal/dispatch/dispatcher.go), with the
-- cursor that app/internal/persistence/events.go keeps.
pub mod Progress
pub mod Seed
use plecture.Base.{
  String, ℕ, Bool, true, false, not, ◌&&◌, ◌||◌, List, [], ◌∷◌, Option, none, some, if◌then◌else◌,
  ◌==◌,
}
use plecture.Events.{Event, Filter}
use plecture.Events.Log.{Row, list_events}
use plecture.Dispatch.Deliver.{Env, Desk, process_event}

abbrev pub any_event : Filter
any_event = record { types = []; sources = []; direction = none; limit = 0 }

-- What lies outside of one drain: whether the context has ended before and after an event, and which
-- calls of the log fail. `stream` is the session's stream id now, "" where it has none.
pub record Drain : Type 0 where
  pub env : Env
  pub ended_before : Event → Bool
  pub ended_after : Event → Bool
  pub stream : String
  pub reset_fails : Bool
  pub read_fails : Bool
  pub list_fails : Bool
  pub commit_fails : Event → Bool

-- A dispatcher: its cursor, `none` where none is committed, the stream that it started with, and
-- its desk.
pub record Dispatcher : Type 0 where
  pub cursor : Option ℕ
  pub start_gen : String
  pub desk : Desk

-- What an event commits: the sequence of the next one, and after the last one the end of the list.
abbrev pub commit_at : List Row → ℕ → ℕ
commit_at [] end = end
commit_at (r ∷ rs) end = r.seq

-- The loop over the listed events.
pub drain_rows : Drain → ℕ → List Row → Desk → Option ℕ → Desk × Option ℕ
drain_rows d end [] desk cursor = (desk, cursor)
drain_rows d end (r ∷ rs) desk cursor =
    let (desk', held) = process_event d.env r.event desk in
    let cursor' = if d.commit_fails r.event then cursor else some (commit_at rs end) in
    let later = drain_rows d end rs desk' cursor' in
    if d.ended_before r.event
    then (desk, cursor)
    else if d.ended_after r.event
    then (desk', cursor)
    else if held
    then (desk', cursor)
    else later

-- `ReadCursor`.
abbrev pub position : Option ℕ → ℕ
position none = 0
position (some c) = c

unfoldable pub drain : Drain → Dispatcher → Dispatcher
unfolding drain_rows
drain d s =
    let rotated = not (s.start_gen == "") && not (d.stream == s.start_gen) in
    let start = if rotated then d.stream else s.start_gen in
    let cursor = if rotated && not d.reset_fails then some 0 else s.cursor in
    let (listed, end) = list_events any_event (position cursor) s.desk.rows in
    let (desk, cursor') = drain_rows d end listed s.desk cursor in
    if d.read_fails || d.list_fails
    then record { cursor = cursor; start_gen = start; desk = s.desk }
    else record { cursor = cursor'; start_gen = start; desk = desk }

-- `SeedCursor`, where `has_cursor` is what `HasCursor` answers.
unfoldable pub seed_cursor : Bool → Bool → Bool → List Row → Option ℕ → Option ℕ
seed_cursor has_cursor list_fails commit_fails rows cursor =
    if has_cursor
    then cursor
    else if list_fails
    then cursor
    else if commit_fails
    then cursor
    else some (list_events any_event 0 rows).1
