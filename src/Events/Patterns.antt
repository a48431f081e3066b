-- ===== src/Events/Patterns.antt =====
-- What a type pattern matches.
use text.Mathlib.TextLemmas.{head-eq_of_cons-eq, tail-eq_of_cons-eq, nil≢cons}
use plecture.Base.{
  String, ◌≡◌, refl, ap, ◌∙◌, ◌↔◌, ◌⊎◌, inl, inr, true, arith, ◌==◌, Bool-cases, eq_of_==, ==_of_eq,
  ==-refl,
}
use plecture.Events.{has_prefix, has_suffix, drop_last, any_type, glob_end, match_type}

-- Texts one after the other.
infix 50 ◌⧺◌
abbrev pub ◌⧺◌ : String → String → String
String.[] ⧺ b = b
String.◌∷◌ c a ⧺ b = String.◌∷◌ c (a ⧺ b)

has_prefix-joined : (p rest : String) → has_prefix (p ⧺ rest) p ≡ true
unfolding has_prefix
has_prefix-joined String.[] rest = refl
has_prefix-joined (String.◌∷◌ c p) rest =
    ground (arith, ==-refl (String.◌∷◌ c String.[]), has_prefix-joined p rest)

prefix_rest : (s p : String) → has_prefix s p ≡ true → (rest : String) × (s ≡ p ⧺ rest)
unfolding has_prefix
prefix_rest s String.[] h = (s, refl)
prefix_rest String.[] (String.◌∷◌ c p) h = absurd (ground arith)
prefix_rest (String.◌∷◌ d s) (String.◌∷◌ c p) h =
    let (rest, e) = prefix_rest s p (ground arith) in
    let same =
      head-eq_of_cons-eq
        (eq_of_== (String.◌∷◌ d String.[]) (String.◌∷◌ c String.[]) (ground arith)) in
    (rest, cc)

suffix_front :
    (s : String)
    → has_suffix s glob_end ≡ true
    → (topic : String) × ((s ≡ topic ⧺ glob_end) × (drop_last s ≡ topic ⧺ "."))
unfolding has_suffix drop_last
suffix_front String.[] h = absurd (ground arith)
suffix_front (String.◌∷◌ c String.[]) h =
    absurd
      (nil≢cons (tail-eq_of_cons-eq (eq_of_== (String.◌∷◌ c String.[]) glob_end (ground arith))))
suffix_front (String.◌∷◌ c (String.◌∷◌ d s)) h =
    elim (Bool-cases (String.◌∷◌ c (String.◌∷◌ d s) == glob_end)) [
      | inl e ↦ (
        "",
        (
          eq_of_== (String.◌∷◌ c (String.◌∷◌ d s)) glob_end e,
          ap drop_last (eq_of_== (String.◌∷◌ c (String.◌∷◌ d s)) glob_end e),
        ),
      )
      | inr e ↦
          let (topic, (f, g)) = suffix_front (String.◌∷◌ d s) (ground arith) in
          (String.◌∷◌ c topic, (cc, cc))
    ]

front_suffix : (topic : String) → has_suffix (topic ⧺ glob_end) glob_end ≡ true
unfolding has_suffix
front_suffix String.[] = refl
front_suffix (String.◌∷◌ c topic) = ground (arith, front_suffix topic)

front_drop : (topic : String) → drop_last (topic ⧺ glob_end) ≡ topic ⧺ "."
unfolding drop_last
front_drop String.[] = refl
front_drop (String.◌∷◌ c String.[]) = refl
front_drop (String.◌∷◌ c (String.◌∷◌ d topic)) =
    ap (λ s. String.◌∷◌ c s) (front_drop (String.◌∷◌ d topic))

glob_matches : (topic more : String) → match_type (topic ⧺ ".*") ((topic ⧺ ".") ⧺ more) ≡ true
unfolding match_type
glob_matches topic more =
    let shorter : has_prefix ((topic ⧺ ".") ⧺ more) (drop_last (topic ⧺ glob_end)) ≡ true =
      ap (has_prefix ((topic ⧺ ".") ⧺ more)) (front_drop topic)
      ∙ has_prefix-joined (topic ⧺ ".") more in
    ground (arith, front_suffix topic, shorter)

-- What a pattern means.
abbrev pub Fits : String → String → Type 0
Fits pattern typ =
    (pattern ≡ any_type)
    ⊎ ((pattern ≡ typ)
        ⊎ ((topic : String) × ((rest : String) × ((pattern ≡ topic ⧺ ".*")
                × (typ ≡ (topic ⧺ ".") ⧺ rest)))))

-- A pattern matches a type if and only if it is "*", or the type itself, or "topic.*" for a topic such that the type
-- starts with "topic.".
pub match_type-Fits : (pattern typ : String) → match_type pattern typ ≡ true ↔ Fits pattern typ
unfolding match_type
match_type-Fits pattern typ = (
  λ h. elim (Bool-cases (pattern == any_type)) [
    | inl e ↦ inl (eq_of_== pattern any_type e)
    | inr e ↦ elim (Bool-cases (pattern == typ)) [
      | inl f ↦ inr (inl (eq_of_== pattern typ f))
      | inr f ↦
          let (topic, (p, q)) = suffix_front pattern (ground arith) in
          let (rest, r) = prefix_rest typ (drop_last pattern) (ground arith) in
          inr (inr (topic, (rest, (p, r ∙ ap (λ t. t ⧺ rest) q))))
    ]
  ],
  λ fits. elim fits [
    | inl e ↦ ground (arith, ==_of_eq pattern any_type e)
    | inr rest ↦ elim rest [
      | inl e ↦ ground (arith, ==_of_eq pattern typ e)
      | inr (topic, (more, (p, q))) ↦
          ap (λ t. match_type t typ) p
          ∙ (ap (match_type (topic ⧺ ".*")) q ∙ glob_matches topic more)
    ]
  ],
)
