-- ===== src/Events/Log/Paging.antt =====
-- Reading a log page by page.
use plecture.Base.{
  ℕ, ◌+◌, ◌≤◌, ◌<◌, ◌≡◌, refl, Bool, true, List, [], ◌∷◌, ◌++◌, arith, leb, eqb, ◌||◌, filter,
  length, All, All-map, Bool-cases, All-filter, inl, inr, ltb,
}
use plecture.Events.{Event, Filter, matches}
use plecture.Events.Log.{Row, Ordered, rows_from, list_rows, list_events, tail_seq}

-- The matching rows from a cursor on.
abbrev pub matching : Filter → ℕ → List Row → List Row
matching f since rows = filter (λ r. matches f r.event) (rows_from since rows)

pub rows_from-all : (s : ℕ) (rows : List Row) → All (λ r. s ≤ r.seq) rows → rows_from s rows ≡ rows
rows_from-all s [] h = refl
rows_from-all s (r ∷ rs) h = ground (arith, rows_from-all s rs h.1, h.0)

pub rows_from-later :
    (s t : ℕ) (rows : List Row) → s ≤ t → rows_from t (rows_from s rows) ≡ rows_from t rows
rows_from-later s t [] h = refl
rows_from-later s t (r ∷ rs) h = ground (arith, rows_from-later s t rs h)

pub Ordered-rows_from : (s : ℕ) (rows : List Row) → Ordered rows → Ordered (rows_from s rows)
Ordered-rows_from s [] o = tt
Ordered-rows_from s (r ∷ rs) o = elim (Bool-cases (leb s r.seq)) [
  | inl e ↦ rw e (All-filter (λ x. leb s x.seq) (λ x l k. l) rs o.0, Ordered-rows_from s rs o.1)
  | inr e ↦ rw e (Ordered-rows_from s rs o.1)
]

-- One page of ordered rows.
list_rows-page :
    (f : Filter) (kept next : ℕ) (rows : List Row)
    → Ordered rows
    → All (λ r. next ≤ r.seq) rows
    → let (page, cursor) = list_rows f kept next rows in
      (page ++ matching f cursor rows ≡ filter (λ r. matches f r.event) rows) × (next ≤ cursor)
unfolding list_rows
list_rows-page f kept next [] o a = (refl, omega arith)
list_rows-page f kept next (r ∷ rs) o a =
    let later : All (λ x. r.seq + 1 ≤ x.seq) rs = All-map (λ x l. omega (arith, l)) rs o.0 in
    let skipped = list_rows-page f kept (r.seq + 1) rs o.1 later in
    let more = list_rows-page f (kept + 1) (r.seq + 1) rs o.1 later in
    (
      ground (arith, skipped.0, skipped.1, more.0, more.1, rows_from-all (r.seq + 1) rs later),
      ground (arith, skipped.1, more.1, a.0),
    )

-- Whether a page with `n` rows is within the limit, and whether it is below it.
abbrev pub within : Filter → ℕ → Bool
within f n = eqb f.limit 0 || leb n f.limit

abbrev pub below : Filter → ℕ → Bool
below f n = eqb f.limit 0 || ltb n f.limit

list_rows-limit :
    (f : Filter) (kept next : ℕ) (rows : List Row)
    → Ordered rows
    → below f kept ≡ true
    → let (page, cursor) = list_rows f kept next rows in
      (within f (kept + length page) ≡ true)
      × (below f (kept + length page) ≡ true → matching f cursor rows ≡ [])
unfolding list_rows
list_rows-limit f kept next [] o a = (ground arith, λ h. refl)
list_rows-limit f kept next (r ∷ rs) o a =
    let later : All (λ x. r.seq + 1 ≤ x.seq) rs = All-map (λ x l. omega (arith, l)) rs o.0 in
    let skipped = list_rows-limit f kept (r.seq + 1) rs o.1 a in
    let forward = (list_rows-page f kept (r.seq + 1) rs o.1 later).1 in
    let forward' = (list_rows-page f (kept + 1) (r.seq + 1) rs o.1 later).1 in
    elim (Bool-cases (below f (kept + 1))) [
      | inl e ↦
          let more = list_rows-limit f (kept + 1) (r.seq + 1) rs o.1 e in
          (
            ground (arith, skipped.0, more.0),
            λ h. ground (arith, skipped.1, more.1, forward, forward'),
          )
      | inr e ↦ (ground (arith, skipped.0), λ h. ground (arith, skipped.1, forward))
    ]

pub rows_from-bound : (s : ℕ) (rows : List Row) → All (λ r. s ≤ r.seq) (rows_from s rows)
rows_from-bound s [] = tt
rows_from-bound s (r ∷ rs) = elim (Bool-cases (leb s r.seq)) [
  | inl e ↦ rw e (ground arith, rows_from-bound s rs)
  | inr e ↦ rw e (rows_from-bound s rs)
]

-- A page of an ordered stream, with any limit, and what matches from its next cursor on, are together what
-- matches from the cursor that the page was asked for. The cursor does not go back, the page has no more rows than the limit,
-- and if it has fewer, or there is no limit, nothing more matches.
pub list_events-pages :
    (f : Filter) (since : ℕ) (rows : List Row)
    → Ordered rows
    → let (page, next) = list_events f since rows in
      ((page ++ matching f next rows ≡ matching f since rows) × (since ≤ next))
      × ((within f (length page) ≡ true)
          × (below f (length page) ≡ true → matching f next rows ≡ []))
unfolding list_events
list_events-pages f since rows o =
    let (whole, forward) =
      list_rows-page f 0 since (rows_from since rows) (Ordered-rows_from since rows o)
        (rows_from-bound since rows) in
    let (page, next) = list_rows f 0 since (rows_from since rows) in
    let later = rows_from-later since next rows forward in
    let (room, last) =
      list_rows-limit f 0 since (rows_from since rows) (Ordered-rows_from since rows o)
        (ground arith) in
    (
      (ground (arith, whole, later), forward),
      (ground (arith, room), λ h. ground (arith, last (ground arith), later)),
    )

pub tail_seq-bound :
    (s : ℕ) (rows : List Row)
    → Ordered rows
    → All (λ r. s ≤ r.seq) rows
    → (s ≤ tail_seq s rows) × All (λ r. r.seq < tail_seq s rows) rows
unfolding tail_seq
tail_seq-bound s [] o h = (omega arith, tt)
tail_seq-bound s (r ∷ rs) o h =
    let (later, all_rows) =
      tail_seq-bound (r.seq + 1) rs o.1 (All-map (λ x l. omega (arith, l)) rs o.0) in
    (omega (arith, later, h.0), (omega (arith, later), all_rows))

-- Without a filter a page has all rows.
pub list_events_all :
    (f : Filter) (since : ℕ) (rows : List Row)
    → ((ev : Event) → matches f ev ≡ true)
    → f.limit ≡ 0
    → list_events f since rows ≡ (rows_from since rows, tail_seq since (rows_from since rows))
unfolding list_events list_rows tail_seq
list_events_all f since rows h l = loop f 0 since (rows_from since rows) h l
  where
    loop :
        (f : Filter) (kept next : ℕ) (rs : List Row)
        → ((ev : Event) → matches f ev ≡ true)
        → f.limit ≡ 0
        → list_rows f kept next rs ≡ (rs, tail_seq next rs)
    loop f kept next [] h l = refl
    loop f kept next (r ∷ rs) h l =
        ground (arith, h r.event, l, loop f (kept + 1) (r.seq + 1) rs h l)
