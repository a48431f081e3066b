-- ===== src/Budget/Sharing.antt =====
-- All processes that share one budget.
use plecture.Base.{
  ◌≤◌, ◌≡◌, refl, ◌∙◌, ap, Bool, false, ◌||◌, List, [], ◌∷◌, Option, none, some, arith,
  if◌then◌else◌, ◌==◌, Option-cases, inl, inr,
}
use plecture.Budget.{
  State, clear, Faults, no_faults, Json, File, Use, extended, record_throttle, record_success, load,
  update, wait, use_guard, use_all,
}

-- What encoding/json promises for a state that it has written.
pub record IsFaithful (json : Json) : Type 0 where
  pub inverse : (s : State) → json.decode (json.encode s) ≡ some s
  pub not_empty : (s : State) → (json.encode s == "") ≡ false

abbrev pub or_clear : Option State → State
or_clear none = clear
or_clear (some s) = s

-- The budget that a file stands for.
unfoldable pub view : Json → File → State
unfolding load
view json file = or_clear (load json no_faults file)

-- One use on the budget itself, without files.
unfoldable pub spend : Use → State → State
unfolding record_throttle record_success
spend (Use.throttled now retry_after reset) s = record_throttle now retry_after reset s
spend Use.succeeded s = record_success s
spend (Use.waited now) s = s

abbrev pub fails : Faults → Bool
fails f = f.make_dir || f.open_lock || f.lock || f.read || f.marshal || f.write

unfoldable pub spend_all : List (Faults × Use) → State → State
unfolding spend
spend_all [] s = s
spend_all ((faults, u) ∷ rest) s = spend_all rest (if fails faults then s else spend u s)

pub load-view :
    (json : Json) (faults : Faults) (file : File)
    → load json faults file ≡ (if faults.read then none else some (view json file))
unfolding load view
load-view json faults none = ground arith
load-view json faults (some content) = elim (Option-cases (json.decode content)) [
  | inl e ↦ rw e (ground arith)
  | inr (s, e) ↦ rw e (ground arith)
]

module _ (json : Json) (faithful : IsFaithful json) where
  view-encode : (s : State) → view json (some (json.encode s)) ≡ s
  unfolding view load
  view-encode s = rw (faithful.not_empty s, faithful.inverse s) refl

  pub view-update :
      (faults : Faults) (change : State → State) (file : File)
      → view json (update json faults change file).0
        ≡ (if fails faults then view json file else change (view json file))
  unfolding update
  view-update faults change file =
      ground (arith, load-view json faults file, view-encode (change (view json file)))

  view-use_guard :
      (faults : Faults) (u : Use) (file : File)
      → view json (use_guard json faults u file)
        ≡ (if fails faults then view json file else spend u (view json file))
  unfolding use_guard wait spend
  view-use_guard faults (Use.throttled now retry_after reset) file =
      view-update faults (record_throttle now retry_after reset) file
  view-use_guard faults Use.succeeded file = view-update faults record_success file
  view-use_guard faults (Use.waited now) file = view-update faults (λ s. s) file

  -- After any uses of the file by any processes, a reader finds the budget that the same uses leave of the
  -- budget it would have found before, where those that fail leave it unchanged. What the writer encodes is
  -- assumed to decode to the same state.
  pub use_all-spend_all :
      (uses : List (Faults × Use)) (file : File)
      → view json (use_all json uses file) ≡ spend_all uses (view json file)
  unfolding use_all spend_all
  use_all-spend_all [] file = refl
  use_all-spend_all ((faults, u) ∷ rest) file =
      use_all-spend_all rest (use_guard json faults u file)
      ∙ ap (spend_all rest) (view-use_guard faults u file)

pub spend-later : (u : Use) (s : State) → s.backoff_until ≤ (spend u s).backoff_until
unfolding spend record_throttle record_success extended
spend-later (Use.throttled now retry_after reset) s = ground arith
spend-later Use.succeeded s = omega arith
spend-later (Use.waited now) s = omega arith
