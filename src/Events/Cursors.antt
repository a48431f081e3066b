-- ===== src/Events/Cursors.antt =====
-- Positions that clients hold: the tokens of contracts/event/resume.go and the cursors of
-- contracts/event/cursor.go. `strconv` formats and parses numbers; encoding to text is a parameter.
pub mod Tokens
use plecture.Base.{
  String, ℕ, Bool, true, false, not, Option, none, some, ◌⊎◌, inl, inr, if◌then◌else◌, eqb, ◌==◌,
}
use plecture.Events.Patterns.{◌⧺◌}

abbrev pub colon : String
colon = ":"

-- `strings.Cut(v, ":")`.
unfoldable pub cut : String → Option (String × String)
cut String.[] = none
cut (String.◌∷◌ c s) =
    let later = cut s in
    if String.◌∷◌ c String.[] == colon
    then some ("", s)
    else elim later [ none ↦ none | some (before, after) ↦ some (String.◌∷◌ c before, after) ]

-- `strconv.FormatInt` and `strconv.ParseInt` for sequences.
pub record Numbers : Type 0 where
  pub format : ℕ → String
  pub parse : String → Option ℕ

abbrev pub encode_resume_token : Numbers → String → ℕ → String
encode_resume_token numbers stream_id seq = stream_id ⧺ (colon ⧺ numbers.format seq)

unfoldable pub parse_resume_token : Numbers → String → Option (String × ℕ)
unfolding cut
parse_resume_token numbers v = elim (cut v) [
  | none ↦ none
  | some (id, digits) ↦ elim (numbers.parse digits) [ none ↦ none | some n ↦ some (id, n) ]
]

pub data Order : Type 0 where
  asc desc : Order

-- `NormalizeOrder`; `none` is an error.
unfoldable pub normalize_order : String → Option Order
normalize_order s =
    if s == ""
    then some Order.asc
    else if s == "asc"
    then some Order.asc
    else if s == "desc"
    then some Order.desc
    else none

abbrev pub order_text : Order → String
order_text Order.asc = "asc"
order_text Order.desc = "desc"

abbrev pub same_order : Order → Order → Bool
same_order Order.asc Order.asc = true
same_order Order.desc Order.desc = true
same_order _ _ = false

abbrev pub cursor_version : ℕ
cursor_version = 2

-- `Cursor`.
pub record Cursor : Type 0 where
  pub v : ℕ
  pub off : ℕ
  pub ord : Order
  pub stream_id : String

-- `SubtreeCursor`.
pub record SubtreeCursor : Type 0 where
  pub v : ℕ
  pub root : String
  pub last : String
  pub ord : Order

-- Why a cursor is refused.
pub data Refusal : Type 0 where
  expired stale other_order other_root : Refusal

-- `Cursor.Validate`; `none` where the cursor may be used.
unfoldable pub validate_cursor : Cursor → Order → String → Option Refusal
validate_cursor c ord stream_id =
    if not (eqb c.v cursor_version)
    then some Refusal.expired
    else if not (c.stream_id == stream_id)
    then some Refusal.stale
    else if not (same_order c.ord ord)
    then some Refusal.other_order
    else none

-- `SubtreeCursor.Validate`.
unfoldable pub validate_subtree_cursor : SubtreeCursor → String → Order → Option Refusal
validate_subtree_cursor c root ord =
    if not (eqb c.v cursor_version)
    then some Refusal.expired
    else if not (c.root == root)
    then some Refusal.other_root
    else if not (same_order c.ord ord)
    then some Refusal.other_order
    else none
