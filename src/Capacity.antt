-- ===== src/Capacity.antt =====
-- Admission under a cap of children (app/internal/service/childcap.go), with the reservations of
-- app/internal/persistence/reservations.go. A process is alive if `alive` answers so for its positive
-- id; times are nanoseconds, 0 for the zero time.
pub mod Limit
pub mod Priority
pub mod Sleep
pub mod Scenarios
use plecture.Base.{
  String, ℕ, ◌+◌, Bool, true, false, not, ◌&&◌, ◌||◌, List, [], ◌∷◌, ◌++◌, Option, none, some, ◌⊎◌,
  inl, inr, if◌then◌else◌, ltb, leb, eqb, ◌==◌, any, filter, count, lookup, contains, keys, is_some,
}
use plecture.Base.Order.{text_ltb}
use plecture.Events.{has_prefix}

abbrev pub virtual_root_parent : String
virtual_root_parent = "@virtual-root"

-- A task of a session, as far as its finalization goes.
pub record TaskMark : Type 0 where
  pub cleaned : Bool
  pub finalized_at : ℕ

-- A session: `is_down` is its status, `run_up` what `sessionRunState` answers for it.
pub record Session : Type 0 where
  pub parent_session : String
  pub is_down : Bool
  pub run_up : Bool
  pub sleep_since : ℕ
  pub tasks : List TaskMark

abbrev pub Sessions : Type 0
Sessions = List (String × Session)

-- `sessionFinalized`.
unfoldable pub session_finalized : Session → Bool
session_finalized s =
    let active = filter (λ t. not t.cleaned) s.tasks in
    elim active [ [] ↦ false | t ∷ ts ↦ not (any (λ u. eqb u.finalized_at 0) (t ∷ ts)) ]

-- The columns of a reservation's parent.
pub record Columns : Type 0 where
  pub parent_session : Option String
  pub virtual_root : Bool

unfoldable pub reservation_columns_from_parent : String → Columns
reservation_columns_from_parent parent =
    if parent == virtual_root_parent
    then record { parent_session = none; virtual_root = true }
    else record { parent_session = some parent; virtual_root = false }

unfoldable pub reservation_parent_from_columns : Columns → String
reservation_parent_from_columns c =
    if c.virtual_root then virtual_root_parent else elim c.parent_session [ none ↦ "" | some p ↦ p ]

-- A row of the reservations, and what it stands for.
pub record Row : Type 0 where
  pub parent : Columns
  pub pid : ℕ
  pub reserved_at : ℕ

-- `processAlive`.
abbrev pub process_alive : (ℕ → Bool) → ℕ → Bool
process_alive alive pid = if eqb pid 0 then false else alive pid

-- The rows of live processes; those of dead ones are deleted.
unfoldable pub live_rows : (ℕ → Bool) → List (String × Row) → List (String × Row)
live_rows alive rows = filter (λ e. process_alive alive e.1.pid) rows

-- `UpsertUpReservation`, and `DeleteUpReservation` in `ReleaseUpSlot`.
abbrev pub upsert_row : String → Row → List (String × Row) → List (String × Row)
upsert_row child row [] = (child, row) ∷ []
upsert_row child row ((k, r) ∷ rows) =
    let later = upsert_row child row rows in
    if k == child then (child, row) ∷ rows else (k, r) ∷ later

unfoldable pub release_up_slot : String → List (String × Row) → List (String × Row)
release_up_slot child rows = filter (λ e. not (e.0 == child)) rows

-- What `ReserveUpSlot` answers.
pub data Reserved : Type 0 where
  already_reserved : Reserved
  rejected : Reserved
  approved : Reserved

-- `ReserveUpSlot` where no query fails: the decision sees the sessions and the live reservations by their parents.
-- An error undoes the whole transaction.
unfoldable pub reserve_up_slot :
    (ℕ → Bool)
    → ℕ
    → ℕ
    → String
    → String
    → (List (String × String) → Bool)
    → List (String × Row)
    → List (String × Row) × Reserved
unfolding live_rows reservation_columns_from_parent reservation_parent_from_columns
reserve_up_slot alive pid now child parent decide rows =
    let live = live_rows alive rows in
    let parents = plecture.Base.map (λ e. (e.0, reservation_parent_from_columns e.1.parent)) live in
    if contains (keys live) child
    then (rows, Reserved.already_reserved)
    else if decide parents
    then (
      upsert_row child
          (record { parent = reservation_columns_from_parent parent; pid = pid; reserved_at = now })
          live,
      Reserved.approved,
    )
    else (live, Reserved.rejected)

-- A cap: that of the virtual root, or that of a parent session.
pub data Cap : Type 0 where
  virtual : Cap
  parent : String → Cap

abbrev pub cap_parent : Cap → String
cap_parent Cap.virtual = virtual_root_parent
cap_parent (Cap.parent name) = name

abbrev pub root_prefix : String
root_prefix = "root:"

-- The sessions under a cap.
unfoldable pub under_cap : Cap → Session → Bool
under_cap Cap.virtual s = s.parent_session == "" || has_prefix s.parent_session root_prefix
under_cap (Cap.parent name) s = s.parent_session == name

-- The sleepers before `child`: `queued` is what was read of the wake queue, before the transaction.
unfoldable pub sleeps_before : (String → Bool) → Sessions → String → String × Session → Bool
unfolding session_finalized
sleeps_before queued sessions child (name, s) =
    let target_at : ℕ = elim (lookup child sessions) [
      | none ↦ 0
      | some target ↦ if queued child then target.sleep_since else 0
    ] in
    not (name == child)
    && queued name
    && s.is_down
    && not (eqb s.sleep_since 0)
    && not (session_finalized s)
    && (eqb target_at 0
        || ltb s.sleep_since target_at
        || (eqb s.sleep_since target_at && text_ltb name child))

-- The children that are up, less those that `skip` names.
unfoldable pub is_up_child : Cap → (String → Bool) → String × Session → Bool
unfolding under_cap
is_up_child cap skip (name, s) = not (skip name) && under_cap cap s && s.run_up

-- The count of the decision: the children that are up, and the reservations of the cap for others.
unfoldable pub occupied : Cap → (String → Bool) → Sessions → List (String × String) → ℕ
unfolding is_up_child
occupied cap skip sessions reservations =
    count (is_up_child cap skip) sessions
    + count
        (λ r.
          r.1 == cap_parent cap && not (any (λ e. e.0 == r.0 && is_up_child cap skip e) sessions))
        reservations

-- The function that `reserveChildCapSlot` passes to the transaction.
unfoldable pub decide_slot :
    Cap → ℕ → (String → Bool) → Sessions → String → List (String × String) → Bool
unfolding sleeps_before occupied
decide_slot cap limit queued sessions child reservations =
    if any (sleeps_before queued sessions child) sessions
    then false
    else not (leb limit (occupied cap (λ name. name == child) sessions reservations))

-- `reserveChildCapSlot` where no read fails and the limit is found; `none` is "no cap applies".
unfoldable pub reserve_child_cap_slot :
    (ℕ → Bool)
    → ℕ
    → ℕ
    → Cap
    → Option ℕ
    → (String → Bool)
    → Bool
    → Sessions
    → String
    → List (String × Row)
    → List (String × Row) × Option Reserved
unfolding reserve_up_slot decide_slot
reserve_child_cap_slot alive pid now cap limit queued target_already_up sessions child rows =
    if target_already_up then (rows, none) else elim limit [
      | none ↦ (rows, none)
      | some n ↦
          if ltb n 1
          then (rows, none)
          else let (rows', answer) =
              reserve_up_slot alive pid now child (cap_parent cap)
                (decide_slot cap n queued sessions child) rows in
            (rows', some answer)
    ]
