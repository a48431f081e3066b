-- ===== src/Capacity/Limit.antt =====
-- The steps that processes take around a cap.
pub mod Counting
pub mod Keeps
pub mod Reached
use plecture.Base.{
  String, ℕ, ◌≤◌, ◌<◌, ◌≡◌, ◌≢◌, Bool, true, false, not, List, [], ◌∷◌, Option, none, some, map,
  if◌then◌else◌, ◌==◌, any, keys, Distinct, ◌&&◌,
}
use plecture.Capacity.{
  Session, Sessions, Row, Cap, cap_parent, process_alive, live_rows,
  reservation_parent_from_columns, reserve_child_cap_slot, release_up_slot, occupied, under_cap,
}

-- What all processes share: the sessions, the reservations, and which processes are alive.
pub record Shared : Type 0 where
  pub sessions : Sessions
  pub rows : List (String × Row)
  pub alive : ℕ → Bool

-- A session's run scope comes up or goes down.
unfoldable pub set_up : String → Bool → Sessions → Sessions
set_up child up [] = []
set_up child up ((k, s) ∷ sessions) =
    let later = set_up child up sessions in
    if k == child then (k, record s { run_up = up }) ∷ later else (k, s) ∷ later

-- The live reservations by child and parent.
unfoldable pub reservations : Shared → List (String × String)
unfolding live_rows reservation_parent_from_columns
reservations w =
    map (λ e. (e.0, reservation_parent_from_columns e.1.parent)) (live_rows w.alive w.rows)

-- How many children of the cap are up or have a live reservation.
unfoldable pub taken : Cap → Shared → ℕ
unfolding occupied reservations
taken cap w = occupied cap (λ name. false) w.sessions (reservations w)

-- The steps of any process: an admission under the cap, or under another cap with whatever limit; a session that comes up, with a live
-- reservation for the cap or as no child of it; a session that goes down; a release; and the death of processes.
pub data Step (cap : Cap) (limit : ℕ) : Shared → Shared → Type 0 where
  reserve :
      {w : Shared} (pid now : ℕ) (queued : String → Bool) (child : String)
      → process_alive w.alive pid ≡ true
      → Step cap limit w (record w {
        rows =
            (reserve_child_cap_slot w.alive pid now cap
              (some limit)
              queued
              false
              w.sessions
              child
              w.rows).0;
      })
  reserve_other :
      {w : Shared} (pid now : ℕ) (other : Cap) (other_limit : Option ℕ) (queued : String → Bool)
      (already_up : Bool) (child : String)
      → process_alive w.alive pid ≡ true
      → (cap_parent other == cap_parent cap) ≡ false
      → Step cap limit w (record w {
        rows =
            (reserve_child_cap_slot w.alive pid now other other_limit queued already_up w.sessions
              child w.rows).0;
      })
  up :
      {w : Shared} (child : String)
      → any (λ r. r.0 == child && r.1 == cap_parent cap) (reservations w) ≡ true
      → Step cap limit w (record w { sessions = set_up child true w.sessions })
  up_other :
      {w : Shared} (child : String)
      → any (λ e. e.0 == child && under_cap cap e.1) w.sessions ≡ false
      → Step cap limit w (record w { sessions = set_up child true w.sessions })
  down :
      {w : Shared} (child : String)
      → Step cap limit w (record w { sessions = set_up child false w.sessions })
  release :
      {w : Shared} (child : String)
      → Step cap limit w (record w { rows = release_up_slot child w.rows })
  die :
      {w : Shared} (alive : ℕ → Bool)
      → ((pid : ℕ) → alive pid ≡ true → w.alive pid ≡ true)
      → Step cap limit w (record w { alive = alive })

-- Any interleaving of steps.
pub data Steps (cap : Cap) (limit : ℕ) : Shared → Shared → Type 0 where
  stay : {w : Shared} → Steps cap limit w w
  next : {u v w : Shared} → Steps cap limit u v → Step cap limit v w → Steps cap limit u w
