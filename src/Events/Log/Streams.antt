-- ===== src/Events/Log/Streams.antt =====
-- A reader of a session whose stream is replaced while it reads.
use text.Mathlib.TextEquality.{eq_iff}
use plecture.Base.{
  String, ℕ, ◌+◌, ◌≤◌, ◌≡◌, refl, ap, ◌∙◌, sym, subst, true, false, List, [], ◌∷◌, ◌++◌, arith,
  if◌then◌else◌, All, All-map, contains, keys, ◌==◌, Bool-cases, ==-refl, ==-cases, ==_of_eq,
  List-cases, inl, inr,
}
use plecture.Events.Log.{
  Row, Ordered, Streams, Batch, rows_from, tail_seq, walk, after, stream_rows, read_from_stream,
}
use plecture.Events.Log.Paging.{rows_from-later, rows_from-bound, Ordered-rows_from}

pub concat_rows : Streams → List Row
concat_rows [] = []
concat_rows ((id, rows) ∷ later) = rows ++ concat_rows later

-- What a reader at a position (stream and cursor) has not read.
pub pending : Streams → String → ℕ → List Row
unfolding concat_rows
pending [] id cursor = []
pending ((j, rows) ∷ later) id cursor =
    let on = pending later id cursor in
    if j == id then rows_from cursor rows ++ concat_rows later else on

-- The last stream is the live one, ids are not repeated, and the rows of each are ordered.
pub data IsLive : Streams → String → Type 0 where
  newest : {id : String} {rows : List Row} → Ordered rows → IsLive ((id, rows) ∷ []) id
  older :
      {id current : String} {rows : List Row} {later : Streams}
      → Ordered rows
      → contains (keys later) id ≡ false
      → contains (keys later) current ≡ true
      → IsLive later current
      → IsLive ((id, rows) ∷ later) current

tail_seq-le :
    (s : ℕ) (rows : List Row) → Ordered rows → All (λ r. s ≤ r.seq) rows → s ≤ tail_seq s rows
unfolding tail_seq
tail_seq-le s [] o h = omega arith
tail_seq-le s (r ∷ rs) o h =
    let later = tail_seq-le (r.seq + 1) rs o.1 (All-map (λ x l. omega (arith, l)) rs o.0) in
    omega (arith, later, h.0)

rows_from-none :
    (s t : ℕ) (rows : List Row) → tail_seq s rows ≤ t → Ordered rows → rows_from t rows ≡ []
unfolding tail_seq
rows_from-none s t [] h o = refl
rows_from-none s t (r ∷ rs) h o =
    let later = tail_seq-le (r.seq + 1) rs o.1 (All-map (λ x l. omega (arith, l)) rs o.0) in
    ground (arith, later, rows_from-none (r.seq + 1) t rs h o.1)

not_later :
    (id j : String) (later : Streams)
    → contains (keys later) id ≡ false
    → contains (keys later) j ≡ true
    → (id == j) ≡ false
not_later id j later n k = elim (==-cases id j) [
  | inl e ↦ absurd (ground (arith, ap (contains (keys later)) e))
  | inr e ↦ e
]

-- What `walk` reads, and what is left after it.
walk-pending :
    (current : String) (live : List Row) (later : Streams)
    → IsLive later current
    → let b = walk current live later in
      ((b.rows ++ pending later b.stream b.next ≡ concat_rows later)
        × (b.rows ≡ [] → concat_rows later ≡ []))
      × (contains (keys later) b.stream ≡ true)
unfolding walk pending concat_rows
walk-pending current live [] l = elim l [ ]
walk-pending current live ((id, []) ∷ later) (IsLive.newest o) =
    ((ground (arith, ==-refl id), λ h. refl), ground (arith, ==-refl id))
walk-pending current live ((id, r ∷ rs) ∷ later) (IsLive.newest o) =
    let past = rows_from-none 0 (tail_seq 0 (r ∷ rs)) (r ∷ rs) (omega arith) o in
    rw (==-refl id) ((ap (λ xs. (r ∷ rs) ++ (xs ++ [])) past, λ h. absurd (ground arith)), refl)
walk-pending current live ((id, []) ∷ later) (IsLive.older o n k l) =
    let (whole, known) = walk-pending current live later l in
    let other = not_later id current later n k in
    let apart = not_later id (walk current live later).stream later n known in
    rw (other, apart) (whole, known)
walk-pending current live ((id, r ∷ rs) ∷ later) (IsLive.older o n k l) =
    let past = rows_from-none 0 (tail_seq 0 (r ∷ rs)) (r ∷ rs) (omega arith) o in
    rw (==-refl id)
      ((ap (λ xs. (r ∷ rs) ++ (xs ++ concat_rows later)) past, λ h. absurd (ground arith)), refl)

-- The position of a reader in a known stream.
pending-split :
    (streams : Streams) (id : String) (cursor : ℕ)
    → contains (keys streams) id ≡ true
    → pending streams id cursor
      ≡ rows_from cursor (stream_rows id streams) ++ concat_rows (after id streams)
unfolding pending stream_rows after
pending-split [] id cursor h = absurd (ground arith)
pending-split ((j, rows) ∷ later) id cursor h = elim (Bool-cases (j == id)) [
  | inl e ↦ rw e refl
  | inr e ↦ rw e (pending-split later id cursor (ground arith))
]

-- What is left of a later stream.
pending-after :
    (streams : Streams) (id current j : String) (cursor : ℕ)
    → IsLive streams current
    → contains (keys (after id streams)) j ≡ true
    → (contains (keys streams) j ≡ true)
      × (pending streams j cursor ≡ pending (after id streams) j cursor)
unfolding pending after
pending-after [] id current j cursor l h = absurd (ground arith)
pending-after ((k, rows) ∷ []) id current j cursor l h = absurd (ground arith)
pending-after ((k, rows) ∷ s ∷ later) id current j cursor (IsLive.older o n c l) h =
    let deeper = pending-after (s ∷ later) id current j cursor l in
    elim (Bool-cases (k == id)) [
      | inl e ↦
          let known : contains (keys (s ∷ later)) j ≡ true = ground arith in
          (ground arith, ground (arith, not_later k j (s ∷ later) n known))
      | inr e ↦
          let (known, same) = deeper (ground arith) in
          (ground arith, ground (arith, same, not_later k j (s ∷ later) n known))
    ]

after-IsLive :
    (streams : Streams) (id current : String)
    → IsLive streams current
    → contains (keys streams) id ≡ true
    → (id == current) ≡ false
    → IsLive (after id streams) current
unfolding after
after-IsLive [] id current l h d = absurd (ground arith)
after-IsLive ((k, rows) ∷ later) id current (IsLive.newest o) h d =
    absurd (ground (arith, eq_iff k id, eq_iff id k))
after-IsLive ((k, rows) ∷ later) id current (IsLive.older o n c l) h d =
    elim (Bool-cases (k == id)) [
      | inl e ↦ rw e l
      | inr e ↦ rw e (after-IsLive later id current l (ground arith) d)
    ]

after-current :
    (streams : Streams) (current : String) → IsLive streams current → after current streams ≡ []
unfolding after
after-current [] current l = refl
after-current ((k, rows) ∷ later) current (IsLive.newest o) = rw (==-refl k) refl
after-current ((k, rows) ∷ later) current (IsLive.older o n c l) =
    rw (not_later k current later n c) (after-current later current l)

stream_rows-Ordered :
    (streams : Streams) (current id : String)
    → IsLive streams current
    → Ordered (stream_rows id streams)
unfolding stream_rows
stream_rows-Ordered [] current id l = tt
stream_rows-Ordered ((k, rows) ∷ later) current id (IsLive.newest o) = elim (Bool-cases (k == id)) [
  | inl e ↦ rw e o
  | inr e ↦ rw e tt
]
stream_rows-Ordered ((k, rows) ∷ later) current id (IsLive.older o n c l) =
    elim (Bool-cases (k == id)) [
      | inl e ↦ rw e o
      | inr e ↦ rw e (stream_rows-Ordered later current id l)
    ]

-- What a batch owes a reader at a position.
abbrev pub Served : Streams → String → ℕ → Batch → Type 0
Served streams id cursor b =
    (b.rows ++ pending streams b.stream b.next ≡ pending streams id cursor)
    × ((b.rows ≡ [] → pending streams id cursor ≡ []) × (contains (keys streams) b.stream ≡ true))

tail_seq-forward : (s : ℕ) (rows : List Row) → Ordered rows → s ≤ tail_seq s (rows_from s rows)
tail_seq-forward s rows o =
    tail_seq-le s (rows_from s rows) (Ordered-rows_from s rows o) (rows_from-bound s rows)

module _ (streams : Streams) (current : String) (l : IsLive streams current) where
  -- The rest of the reader's own stream.
  Served-here :
      (id : String) (cursor : ℕ)
      → contains (keys streams) id ≡ true
      → (rows_from cursor (stream_rows id streams) ≡ [] → concat_rows (after id streams) ≡ [])
      → Served streams id cursor (record {
        rows = rows_from cursor (stream_rows id streams);
        stream = id;
        next = tail_seq cursor (rows_from cursor (stream_rows id streams));
      })
  Served-here id cursor h last =
      let rows = stream_rows id streams in
      let o = stream_rows-Ordered streams current id l in
      let next = tail_seq cursor (rows_from cursor rows) in
      let read : rows_from next rows ≡ [] =
        sym (rows_from-later cursor next rows (tail_seq-forward cursor rows o))
        ∙ rows_from-none cursor next (rows_from cursor rows) (omega arith)
            (Ordered-rows_from cursor rows o) in
      let before = pending-split streams id cursor h in
      let later = pending-split streams id next h in
      (
        ap (λ xs. rows_from cursor rows ++ xs)
              (later ∙ ap (λ xs. xs ++ concat_rows (after id streams)) read)
            ∙ sym before,
        (
          λ none_here.
              before ∙ (ap (λ xs. xs ++ concat_rows (after id streams)) none_here ∙ last none_here),
          h,
        ),
      )

  -- The streams after it, once it is read.
  Served-later :
      (id : String) (cursor : ℕ)
      → contains (keys streams) id ≡ true
      → (id == current) ≡ false
      → rows_from cursor (stream_rows id streams) ≡ []
      → Served streams id cursor
          (walk current (rows_from 0 (stream_rows current streams)) (after id streams))
  Served-later id cursor h d read =
      let live = rows_from 0 (stream_rows current streams) in
      let b = walk current live (after id streams) in
      let ((whole, last), known) =
        walk-pending current live (after id streams) (after-IsLive streams id current l h d) in
      let (listed, same) = pending-after streams id current b.stream b.next l known in
      let before : pending streams id cursor ≡ concat_rows (after id streams) =
        pending-split streams id cursor h ∙ ap (λ xs. xs ++ concat_rows (after id streams)) read in
      (ap (λ xs. b.rows ++ xs) same ∙ (whole ∙ sym before), (λ e. before ∙ last e, listed))

  -- A reader at a position in one of the streams reads a batch that comes first in what it has not read: the
  -- batch and what is left after it are together what was left before. Only when nothing is left is
  -- the batch empty.
  pub read_from_stream-Served :
      (id : String) (cursor : ℕ)
      → (current == "") ≡ false
      → (id == "") ≡ false
      → contains (keys streams) id ≡ true
      → Served streams id cursor (read_from_stream streams current id cursor)
  unfolding read_from_stream concat_rows
  read_from_stream-Served id cursor c i h = elim (==-cases id current) [
    | inl e ↦
        let here = Served-here id cursor h (λ read.
          ap (λ x. concat_rows (after x streams)) e
          ∙ ap concat_rows (after-current streams current l)) in
        rw (c, i, ==_of_eq id current e)
          (subst
            (λ x. Served streams id cursor (record {
              rows = rows_from cursor (stream_rows x streams);
              stream = x;
              next = tail_seq cursor (rows_from cursor (stream_rows x streams));
            }))
            e here)
    | inr e ↦
        rw (c, i, e)
          (elim (List-cases (rows_from cursor (stream_rows id streams))) [
            | inl n ↦ rw n (Served-later id cursor h e n)
            | inr (r, (rs, n)) ↦ rw n (
                subst
                  (λ xs.
                    Served streams id cursor
                      (record { rows = xs; stream = id; next = tail_seq cursor xs }))
                  n (Served-here id cursor h (λ read. absurd (ground (arith, n)))))
          ])
  ]
