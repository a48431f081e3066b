-- ===== src/Events/Cursors/Tokens.antt =====
-- Resume tokens survive the way to a client and back.
use plecture.Base.{String, ℕ, ◌≡◌, refl, false, some, arith, ◌==◌, ==-refl}
use plecture.Events.Patterns.{◌⧺◌}
use plecture.Events.Cursors.{Numbers, colon, cut, encode_resume_token, parse_resume_token}

-- A text without a colon, as stream ids are.
unfoldable pub HasNoColon : String → Type 0
HasNoColon String.[] = Unit
HasNoColon (String.◌∷◌ c s) = ((String.◌∷◌ c String.[] == colon) ≡ false) × HasNoColon s

cut-joined : (id rest : String) → HasNoColon id → cut (id ⧺ (colon ⧺ rest)) ≡ some (id, rest)
unfolding cut HasNoColon
cut-joined String.[] rest h = ground (arith, ==-refl colon)
cut-joined (String.◌∷◌ c id) rest h = ground (arith, h.0, cut-joined id rest h.1)

-- A resume token is parsed to the stream and the sequence that it was made of, where the id of the stream has no colon and
-- a formatted number is parsed to itself.
pub parse_resume_token-encode :
    (numbers : Numbers)
    → ((n : ℕ) → numbers.parse (numbers.format n) ≡ some n)
    → (stream_id : String) (seq : ℕ) → HasNoColon stream_id
    → parse_resume_token numbers (encode_resume_token numbers stream_id seq) ≡ some (stream_id, seq)
unfolding parse_resume_token
parse_resume_token-encode numbers inverse stream_id seq h =
    rw (parse_resume_token, cut-joined stream_id (numbers.format seq) h, inverse seq) refl
