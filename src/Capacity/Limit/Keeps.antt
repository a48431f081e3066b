-- ===== src/Capacity/Limit/Keeps.antt =====
-- The tables under a cap: filters, updates, and the place that an admission takes.
use text.Mathlib.TextEquality.{eq_iff}
use plecture.Base.{
  String, ◌+◌, ◌≤◌, ◌≡◌, refl, ap, sym, Bool, true, false, not, ◌&&◌, ◌||◌, List, [], ◌∷◌, ◌++◌,
  map, arith, ◌==◌, filter, contains, keys, Distinct, Bool-cases, inl, inr, ==-refl,
}
use plecture.Capacity.{
  Sessions, Row, Cap, cap_parent, upsert_row, reservation_columns_from_parent,
  reservation_parent_from_columns, occupied,
}
use plecture.Capacity.Limit.{set_up}
use plecture.Capacity.Limit.Counting.{
  bit, nobody, is_up, reserved, count-skip, is_up-skip, reserved-change, not_held,
}

-- A reservation's parent survives its columns.
pub reservation_parent_round :
    (p : String) → reservation_parent_from_columns (reservation_columns_from_parent p) ≡ p
unfolding reservation_parent_from_columns reservation_columns_from_parent
reservation_parent_round p = ground (arith, eq_iff p "@virtual-root")

abbrev pub parents : List (String × Row) → List (String × String)
parents rows = map (λ e. (e.0, reservation_parent_from_columns e.1.parent)) rows

module _ {ℓ} {V : Type ℓ} where
  pub contains-filter :
      (p : String × V → Bool) (rows : List (String × V)) (k : String)
      → (contains (keys rows) k || not (contains (keys (filter p rows)) k)) ≡ true
  contains-filter p [] k = refl
  contains-filter p ((j, r) ∷ rows) k = ground (arith, contains-filter p rows k)

  pub Distinct-filter :
      (p : String × V → Bool) (rows : List (String × V))
      → Distinct (keys rows)
      → Distinct (keys (filter p rows))
  Distinct-filter p [] d = tt
  Distinct-filter p ((j, r) ∷ rows) d = elim (Bool-cases (p (j, r))) [
    | inl e ↦ rw e (ground (arith, d.0, contains-filter p rows j), Distinct-filter p rows d.1)
    | inr e ↦ rw e (Distinct-filter p rows d.1)
  ]

  pub filter_twice :
      (p : String × V → Bool) (rows : List (String × V)) → filter p (filter p rows) ≡ filter p rows
  filter_twice p [] = refl
  filter_twice p (e ∷ rows) = ground (arith, filter_twice p rows)

pub filter_kept :
    (p : String × Row → Bool) (rows : List (String × Row)) (e : String × Row)
    → p e ≡ true
    → filter p (filter p rows ++ e ∷ []) ≡ filter p rows ++ e ∷ []
filter_kept p [] e h = ground (arith, h)
filter_kept p (q ∷ rows) e h = ground (arith, h, filter_kept p rows e h)

pub keys-parents : (rows : List (String × Row)) → keys (parents rows) ≡ keys rows
keys-parents [] = refl
keys-parents ((k, r) ∷ rows) = ap (λ ks. k ∷ ks) (keys-parents rows)

pub keys-set_up : (child : String) (up : Bool) (ss : Sessions) → keys (set_up child up ss) ≡ keys ss
unfolding set_up
keys-set_up child up [] = refl
keys-set_up child up ((k, s) ∷ ss) = ground (arith, keys-set_up child up ss)

-- A new row is the last one.
pub upsert_row-new :
    (child : String) (r : Row) (rows : List (String × Row))
    → contains (keys rows) child ≡ false
    → upsert_row child r rows ≡ rows ++ (child, r) ∷ []
upsert_row-new child r [] h = refl
upsert_row-new child r ((k, q) ∷ rows) h = ground (arith, upsert_row-new child r rows)

pub keys-append_one :
    (rows : List (String × Row)) (child : String) (r : Row)
    → contains (keys rows) child ≡ false
    → Distinct (keys rows)
    → Distinct (keys (rows ++ (child, r) ∷ []))
keys-append_one [] child r h d = (refl, tt)
keys-append_one ((k, q) ∷ rows) child r h d = (
  ground (arith, away rows k child r, d.0, eq_iff k child, eq_iff child k),
  keys-append_one rows child r (ground arith) d.1,
)
  where
    away :
        (rows : List (String × Row)) (k child : String) (r : Row)
        → contains (keys (rows ++ (child, r) ∷ [])) k ≡ (contains (keys rows) k || child == k)
    away [] k child r = ground arith
    away ((j, q) ∷ rows) k child r = ground (arith, away rows k child r)

module _ (up : String → Bool) (parent : String) where
  -- Fewer rows, fewer reservations.
  pub reserved-filter :
      (p q : String × Row → Bool) (rows : List (String × Row))
      → ((e : String × Row) → p e ≡ true → q e ≡ true)
      → reserved up parent (parents (filter p rows)) ≤ reserved up parent (parents (filter q rows))
  reserved-filter p q [] h = omega arith
  reserved-filter p q (e ∷ rows) h = ground (arith, h e, reserved-filter p q rows h)

  pub reserved-filter_both :
      (p q : String × Row → Bool) (rows : List (String × Row))
      → reserved up parent (parents (filter p (filter q rows)))
        ≤ reserved up parent (parents (filter p rows))
  reserved-filter_both p q [] = omega arith
  reserved-filter_both p q (e ∷ rows) = ground (arith, reserved-filter_both p q rows)

  reserved-append :
      (rs : List (String × String)) (child p : String)
      → reserved up parent (rs ++ (child, p) ∷ [])
        ≡ reserved up parent rs + bit (p == parent && not (up child))
  reserved-append [] child p = ground arith
  reserved-append ((k, q) ∷ rs) child p = ground (arith, reserved-append rs child p)

pub parents-append :
    (rows : List (String × Row)) (child : String) (r : Row)
    → parents (rows ++ (child, r) ∷ [])
      ≡ parents rows ++ (child, reservation_parent_from_columns r.parent) ∷ []
parents-append [] child r = refl
parents-append (e ∷ rows) child r =
    ap (λ l. (e.0, reservation_parent_from_columns e.1.parent) ∷ l) (parents-append rows child r)

-- An admission under another cap takes none.
pub occupied-other :
    (cap : Cap) (ss : Sessions) (rs : List (String × String)) (child p : String)
    → (p == cap_parent cap) ≡ false
    → occupied cap nobody ss (rs ++ (child, p) ∷ []) ≡ occupied cap nobody ss rs
unfolding occupied
occupied-other cap ss rs child p n =
    ground (arith, n, reserved-append (is_up cap nobody ss) (cap_parent cap) rs child p)

-- One admission takes one place.
pub occupied-admitted :
    (cap : Cap) (ss : Sessions) (rs : List (String × String)) (child : String)
    → Distinct (keys ss)
    → Distinct (keys rs)
    → contains (keys rs) child ≡ false
    → occupied cap nobody ss (rs ++ (child, cap_parent cap) ∷ [])
      ≡ occupied cap (λ name. name == child) ss rs + 1
unfolding occupied
occupied-admitted cap ss rs child d e h =
    let P = cap_parent cap in
    let u = is_up cap nobody ss in
    let v = is_up cap (λ name. name == child) ss in
    let agree = reserved-change P child u v rs e (λ name n. sym (is_up-skip cap ss child name n)) in
    ground (
      arith,
      count-skip cap ss child d,
      reserved-append u P rs child P,
      ==-refl P,
      agree,
      not_held P child rs h,
    )
