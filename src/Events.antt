-- ===== src/Events.antt =====
-- The event contract (contracts/event/event.go): events, filters and type patterns. Texts of types are
-- ASCII, so a byte is a character; `HasPrefix` and `HasSuffix` are Go's.
pub mod Patterns
pub mod Log
pub mod Cursors
pub mod Scenarios
use Prim.Native.Char.{Char}
use plecture.Base.{
  String, ℕ, Bool, true, false, not, ◌&&◌, ◌||◌, List, [], ◌∷◌, Option, none, some, if◌then◌else◌,
  ◌==◌, any, contains,
}

pub data Direction : Type 0 where
  inbound outbound internal : Direction

abbrev pub same_direction : Direction → Direction → Bool
same_direction Direction.inbound Direction.inbound = true
same_direction Direction.outbound Direction.outbound = true
same_direction Direction.internal Direction.internal = true
same_direction _ _ = false

-- Metadata is a list of keys and values.
pub record Event : Type 0 where
  pub id : String
  pub session_name : String
  pub time : ℕ
  pub typ : String
  pub source : String
  pub direction : Direction
  pub summary : String
  pub body : String
  pub metadata : List (String × String)

-- `m[key]`, which is "" for a missing key.
unfoldable pub meta : String → List (String × String) → String
meta key [] = ""
meta key ((k, v) ∷ m) = if k == key then v else meta key m

-- `strings.HasPrefix(s, prefix)`.
unfoldable pub has_prefix : String → String → Bool
has_prefix s String.[] = true
has_prefix String.[] (String.◌∷◌ p prefix) = false
has_prefix (String.◌∷◌ c s) (String.◌∷◌ p prefix) =
    (String.◌∷◌ c String.[] == String.◌∷◌ p String.[]) && has_prefix s prefix

-- `strings.HasSuffix(s, suffix)`.
pub has_suffix : String → String → Bool
has_suffix String.[] suffix = String.[] == suffix
has_suffix (String.◌∷◌ c s) suffix = String.◌∷◌ c s == suffix || has_suffix s suffix

-- `s[:len(s)-1]`, of a text that is not empty.
pub drop_last : String → String
drop_last String.[] = String.[]
drop_last (String.◌∷◌ c String.[]) = String.[]
drop_last (String.◌∷◌ c (String.◌∷◌ d s)) = String.◌∷◌ c (drop_last (String.◌∷◌ d s))

abbrev pub any_type : String
any_type = "*"

abbrev pub glob_end : String
glob_end = ".*"

unfoldable pub match_type : String → String → Bool
unfolding has_prefix has_suffix drop_last
match_type pattern typ =
    if pattern == any_type || pattern == typ
    then true
    else if has_suffix pattern glob_end
    then has_prefix typ (drop_last pattern)
    else false

-- An absent direction is any; `limit` 0 is no limit.
pub record Filter : Type 0 where
  pub types : List String
  pub sources : List String
  pub direction : Option Direction
  pub limit : ℕ

abbrev is_empty : List String → Bool
is_empty [] = true
is_empty (x ∷ xs) = false

unfoldable pub matches : Filter → Event → Bool
unfolding match_type
matches f ev =
    if not (is_empty f.types) && not (any (λ p. match_type p ev.typ) f.types)
    then false
    else if not (is_empty f.sources) && not (contains f.sources ev.source)
    then false
    else elim f.direction [ none ↦ true | some d ↦ same_direction ev.direction d ]
