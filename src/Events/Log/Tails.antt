-- ===== src/Events/Log/Tails.antt =====
-- The ends of a log.
use plecture.Base.{
  ℕ, zero, suc, ◌+◌, ◌-◌, ◌≤◌, ◌<◌, ◌≡◌, refl, ap, ◌∙◌, sym, subst, List, [], ◌∷◌, ◌++◌, map, arith,
  if◌then◌else◌, ltb, eqb, filter, length, All, All-map, All-filter, Bool-cases, inl, inr,
  append_nil, length-append,
}
use plecture.Events.{Filter, matches}
use plecture.Events.Log.Paging.{rows_from-all}
use plecture.Events.Log.{Row, Ordered, rows_from, push, fill, tail, tail_offset}

module _ {ℓ} {A : Type ℓ} where
  abbrev pub drop : ℕ → List A → List A
  drop zero xs = xs
  drop (suc n) [] = []
  drop (suc n) (x ∷ xs) = drop n xs

  -- The last `n` entries.
  abbrev pub last : ℕ → List A → List A
  last n xs = drop (length xs - n) xs

  drop-cons : (k : ℕ) (x : A) (xs : List A) → drop (k + 1) (x ∷ xs) ≡ drop k xs
  drop-cons k x xs = let q : k + 1 ≡ suc k = omega arith in ap (λ m. drop m (x ∷ xs)) q

  last-cons : (n : ℕ) (x : A) (xs : List A) → n ≤ length xs → last n (x ∷ xs) ≡ last n xs
  last-cons n x xs h =
      let q : suc (length xs) - n ≡ (length xs - n) + 1 = omega (arith, h) in
      ap (λ m. drop m (x ∷ xs)) q ∙ drop-cons (length xs - n) x xs

  append_one : (xs ys : List A) (x : A) → (xs ++ x ∷ []) ++ ys ≡ xs ++ x ∷ ys
  append_one [] ys x = refl
  append_one (z ∷ xs) ys x = ap (λ zs. z ∷ zs) (append_one xs ys x)

  last_all : (n : ℕ) (xs : List A) → length xs ≤ n → last n xs ≡ xs
  last_all n xs h = let q : length xs - n ≡ 0 = omega (arith, h) in ap (λ m. drop m xs) q

  -- A full ring forgets its first entry.
  push-last :
      (n : ℕ) (ring ys : List A) (x : A)
      → length ring ≤ n
      → 0 < n
      → (last n (push n ring x ++ ys) ≡ last n (ring ++ x ∷ ys)) × (length (push n ring x) ≤ n)
  unfolding push
  push-last n [] ys x h k = (refl, omega (arith, k))
  push-last n (y ∷ ring) ys x h k = elim (Bool-cases (eqb (length (y ∷ ring)) n)) [
    | inl e ↦ rw e (
      ap (last n) (append_one ring ys x)
          ∙ sym (last-cons n y (ring ++ x ∷ ys) (ground (arith, length-append ring (x ∷ ys)))),
      ground (arith, length-append ring (x ∷ [])),
    )
    | inr e ↦ rw e (
      ap (λ zs. last n (y ∷ zs)) (append_one ring ys x),
      ground (arith, length-append ring (x ∷ [])),
    )
  ]

module _ {ℓ} {A : Type ℓ} (keep : Row → A) (f : Filter) where
  abbrev pub kept : List Row → List A
  kept rows = map keep (filter (λ r. matches f r.event) rows)

  pub fill-last :
      (n : ℕ) (ring : List A) (rows : List Row)
      → length ring ≤ n
      → 0 < n
      → fill keep f n ring rows ≡ last n (ring ++ kept rows)
  unfolding fill
  fill-last n ring [] h k = sym (last_all n ring h) ∙ ap (last n) (sym (append_nil ring))
  fill-last n ring (r ∷ rs) h k = elim (Bool-cases (matches f r.event)) [
    | inl e ↦
        let (same, room) = push-last n ring (kept rs) (keep r) h k in
        rw e (fill-last n (push n ring (keep r)) rs room k ∙ same)
    | inr e ↦ rw e (fill-last n ring rs h k)
  ]

module _ {ℓ κ} {A : Type ℓ} {B : Type κ} (g : A → B) where
  length-map : (xs : List A) → length (map g xs) ≡ length xs
  length-map [] = refl
  length-map (x ∷ xs) = ap suc (length-map xs)

  drop-map : (k : ℕ) (xs : List A) → drop k (map g xs) ≡ map g (drop k xs)
  drop-map zero xs = refl
  drop-map (suc k) [] = refl
  drop-map (suc k) (x ∷ xs) = drop-map k xs

  last-map : (n : ℕ) (xs : List A) → last n (map g xs) ≡ map g (last n xs)
  last-map n xs = ap (λ l. drop (l - n) (map g xs)) (length-map xs) ∙ drop-map (length xs - n) xs

filter-rows_from :
    (f : Filter) (s : ℕ) (rows : List Row)
    → filter (λ r. matches f r.event) (rows_from s rows)
      ≡ rows_from s (filter (λ r. matches f r.event) rows)
filter-rows_from f s [] = refl
filter-rows_from f s (r ∷ rs) = ground (arith, filter-rows_from f s rs)

Ordered-filter :
    (f : Filter) (rows : List Row) → Ordered rows → Ordered (filter (λ r. matches f r.event) rows)
Ordered-filter f [] o = tt
Ordered-filter f (r ∷ rs) o = elim (Bool-cases (matches f r.event)) [
  | inl e ↦ rw e (All-filter (λ x. matches f x.event) (λ x l k. l) rs o.0, Ordered-filter f rs o.1)
  | inr e ↦ rw e (Ordered-filter f rs o.1)
]

All-drop {ℓ κ} : {A : Type ℓ} (P : A → Type κ) (k : ℕ) (xs : List A) → All P xs → All P (drop k xs)
All-drop P zero xs h = h
All-drop P (suc k) [] h = tt
All-drop P (suc k) (x ∷ xs) h = All-drop P k xs h.1

-- From the first row of an end of ordered rows on there are the rows of that end.
drop-rows_from :
    (k : ℕ) (rows rest : List Row) (b : Row)
    → Ordered rows
    → drop k rows ≡ b ∷ rest
    → rows_from b.seq rows ≡ drop k rows
drop-rows_from zero [] rest b o e = refl
drop-rows_from zero (r ∷ rs) rest b o e =
    let q : r.seq ≡ b.seq = ground arith in
    subst (λ s. rows_from s (r ∷ rs) ≡ r ∷ rs) q
      (rows_from-all r.seq (r ∷ rs) (omega arith, All-map (λ x l. omega (arith, l)) rs o.0))
drop-rows_from (suc k) [] rest b o e = refl
drop-rows_from (suc k) (r ∷ rs) rest b o e =
    let past : All (λ x. r.seq < x.seq) (b ∷ rest) =
      subst (All (λ x. r.seq < x.seq)) e (All-drop (λ x. r.seq < x.seq) k rs o.0) in
    ground (arith, drop-rows_from k rs rest b o.1 e, past.0)

length-drop {ℓ} : {A : Type ℓ} (k : ℕ) (xs : List A) → length (drop k xs) ≡ length xs - k
length-drop zero xs = omega arith
length-drop (suc k) [] = omega arith
length-drop (suc k) (x ∷ xs) = omega (arith, length-drop k xs)

abbrev offset_of : ℕ → List ℕ → ℕ
offset_of n ring = if ltb (length ring) n then 0 else elim ring [ [] ↦ 0 | s ∷ rest ↦ s ]

-- From the offset on there are the last rows.
offset-rows :
    (n : ℕ) (ms xs : List Row)
    → Ordered ms
    → 0 < n
    → last n ms ≡ xs
    → rows_from (offset_of n (map (λ r. r.seq) xs)) ms ≡ xs
offset-rows n ms xs o h e =
    let size = length-drop (length ms - n) ms in
    let all_rows = rows_from-all 0 ms (every ms) in
    let few : length xs < n → last n ms ≡ ms = λ l. last_all n ms (ground (arith, ap length e)) in
    offset n ms xs o h e (λ l. all_rows ∙ (sym (few l) ∙ e))
  where
    every : (rows : List Row) → All (λ r. 0 ≤ r.seq) rows
    every [] = tt
    every (r ∷ rs) = (omega arith, every rs)

    offset :
        (n : ℕ) (ms xs : List Row)
        → Ordered ms
        → 0 < n
        → last n ms ≡ xs
        → (length xs < n → rows_from 0 ms ≡ xs)
        → rows_from (offset_of n (map (λ r. r.seq) xs)) ms ≡ xs
    offset n ms [] o h e short = ground (arith, short h)
    offset n ms (b ∷ rest) o h e short = elim (Bool-cases (ltb (length (b ∷ rest)) n)) [
      | inl l ↦ ground (arith, length-map (λ r. r.seq) rest, short (ground arith))
      | inr l ↦
          ground (arith, length-map (λ r. r.seq) rest, drop-rows_from (length ms - n) ms rest b o e)
    ]

-- For a positive `n`, `Tail` gives the last `n` matching events of the log in their order, and reading on from the sequence
-- that `TailOffset` gives matches exactly those.
pub tail_offset-tail :
    (f : Filter) (n : ℕ) (rows : List Row)
    → Ordered rows
    → 0 < n
    → (tail f n rows ≡ last n (kept (λ r. r.event) f rows))
      × (kept (λ r. r.event) f (rows_from (tail_offset f n rows) rows) ≡ tail f n rows)
unfolding tail tail_offset
tail_offset-tail f n rows o h =
    let ms = filter (λ r. matches f r.event) rows in
    let seqs = fill-last (λ r. r.seq) f n [] rows (omega arith) h ∙ last-map (λ r. r.seq) n ms in
    let events = fill-last (λ r. r.event) f n [] rows (omega arith) h in
    let back = offset-rows n ms (last n ms) (Ordered-filter f rows o) h refl in
    let found : tail_offset f n rows ≡ offset_of n (map (λ r. r.seq) (last n ms)) =
      ground (arith, seqs) in
    (
      ground (arith, events),
      ap (map (λ r. r.event)) (filter-rows_from f (tail_offset f n rows) rows)
          ∙ (ap (λ s. map (λ r. r.event) (rows_from s ms)) found
              ∙ (ap (map (λ r. r.event)) back
                  ∙ (sym (last-map (λ r. r.event) n ms) ∙ ground (arith, events)))),
    )
