-- ===== src/Events/Log.antt =====
-- Reading a session's event log (app/internal/eventlog/store.go) in the rows of
-- app/internal/persistence/events.go: a stream's events with their sequence numbers, which an
-- append counts up from 1. Sequences and cursors are not negative, and stay far below 2^63.
pub mod Paging
pub mod Tails
pub mod Streams
use plecture.Base.{
  String, ℕ, ◌+◌, ◌<◌, Bool, true, false, not, ◌&&◌, ◌||◌, List, [], ◌∷◌, ◌++◌, map, Option, none,
  some, All, if◌then◌else◌, ltb, leb, eqb, ◌==◌, filter, length, lookup, keys,
}
use plecture.Events.{Event, Filter, matches}

pub record Row : Type 0 where
  pub seq : ℕ
  pub event : Event

-- `ListEventsFromBySession`: the rows of a sequence not before `since`.
abbrev pub rows_from : ℕ → List Row → List Row
rows_from since rows = filter (λ r. leb since r.seq) rows

-- `NextEventSequence` and `InsertEvent`.
unfoldable pub highest : List Row → ℕ
highest [] = 0
highest (r ∷ rs) = let h = highest rs in if ltb h r.seq then r.seq else h

unfoldable pub append_event : List Row → Event → List Row
unfolding highest
append_event rows ev = rows ++ record { seq = highest rows + 1; event = ev } ∷ []

-- Events that are appended one after the other.
unfoldable pub append_all : List Row → List Event → List Row
unfolding append_event
append_all rows [] = rows
append_all rows (ev ∷ evs) = append_all (append_event rows ev) evs

-- The loop of `List`; `kept` is the number of events so far.
unfoldable pub list_rows : Filter → ℕ → ℕ → List Row → List Row × ℕ
list_rows f kept next [] = ([], next)
list_rows f kept next (r ∷ rs) =
    let skipped = list_rows f kept (r.seq + 1) rs in
    let (more, last) = list_rows f (kept + 1) (r.seq + 1) rs in
    if not (matches f r.event)
    then skipped
    else if ltb 0 f.limit && leb f.limit (kept + 1)
    then (r ∷ [], r.seq + 1)
    else (r ∷ more, last)

-- `Store.List` of a stream: the matching rows from `since` on, and the next cursor.
unfoldable pub list_events : Filter → ℕ → List Row → List Row × ℕ
unfolding list_rows
list_events f since rows = list_rows f 0 since (rows_from since rows)

-- The ring of `Tail` and `TailOffset`, with place for `n` entries.
unfoldable pub push {ℓ} : {A : Type ℓ} → ℕ → List A → A → List A
push n [] x = x ∷ []
push n (y ∷ ring) x = if eqb (length (y ∷ ring)) n then ring ++ x ∷ [] else y ∷ ring ++ x ∷ []

unfoldable pub fill {ℓ} : {A : Type ℓ} → (Row → A) → Filter → ℕ → List A → List Row → List A
unfolding push
fill keep f n ring [] = ring
fill keep f n ring (r ∷ rs) =
    let with_it = fill keep f n (push n ring (keep r)) rs in
    let without = fill keep f n ring rs in if not (matches f r.event) then without else with_it

-- `Store.Tail`; a `limit` of 0 stands for none.
unfoldable pub tail : Filter → ℕ → List Row → List Event
unfolding fill
tail f limit rows =
    if eqb limit 0
    then map (λ r. r.event) (filter (λ r. matches f r.event) rows)
    else fill (λ r. r.event) f limit [] rows

-- `Store.TailOffset`.
unfoldable pub tail_offset : Filter → ℕ → List Row → ℕ
unfolding fill
tail_offset f n rows =
    if eqb n 0
    then 0
    else let ring = fill (λ r. r.seq) f n [] rows in
      if ltb (length ring) n then 0 else elim ring [ [] ↦ 0 | s ∷ rest ↦ s ]

-- The streams of a session name by their ids, the oldest first, the last one live or not.
abbrev pub Streams : Type 0
Streams = List (String × List Row)

-- `tailSeq`.
unfoldable pub tail_seq : ℕ → List Row → ℕ
tail_seq fallback [] = fallback
tail_seq fallback (r ∷ rs) = tail_seq (r.seq + 1) rs

-- A batch: its rows, and the position after it (stream id and cursor).
pub record Batch : Type 0 where
  pub rows : List Row
  pub stream : String
  pub next : ℕ

-- The search through the later incarnations, and where none of them is left the live stream from its head.
unfoldable pub walk : String → List Row → Streams → Batch
unfolding tail_seq
walk current live [] = record { rows = live; stream = current; next = tail_seq 0 live }
walk current live ((id, rows) ∷ later) =
    let onward = walk current live later in
    elim rows [
      | [] ↦ if id == current then record { rows = []; stream = id; next = 0 } else onward
      | r ∷ rs ↦ record { rows = r ∷ rs; stream = id; next = tail_seq 0 (r ∷ rs) }
    ]

-- `ids[start:]`: what follows a stream.
pub after : String → Streams → Streams
after id [] = []
after id ((j, rows) ∷ later) = let on = after id later in if j == id then later else on

pub stream_rows : String → Streams → List Row
stream_rows id [] = []
stream_rows id ((j, rows) ∷ later) = let on = stream_rows id later in if j == id then rows else on

-- `Store.ReadFromStream` where no read fails; `current` is "" where the name has no live stream.
unfoldable pub read_from_stream : Streams → String → String → ℕ → Batch
unfolding walk tail_seq after stream_rows
read_from_stream streams current id cursor =
    let live = rows_from cursor (stream_rows current streams) in
    let old = rows_from cursor (stream_rows id streams) in
    if current == ""
    then record { rows = []; stream = ""; next = cursor }
    else if id == "" || id == current
    then record { rows = live; stream = current; next = tail_seq cursor live }
    else elim old [
      | [] ↦ walk current (rows_from 0 (stream_rows current streams)) (after id streams)
      | r ∷ rs ↦ record { rows = r ∷ rs; stream = id; next = tail_seq cursor (r ∷ rs) }
    ]

-- Every sequence is before those of the rows after it.
abbrev pub Ordered : List Row → Type 0
Ordered [] = Unit
Ordered (r ∷ rs) = All (λ x. r.seq < x.seq) rs × Ordered rs
