-- ===== src/Population/Sweep/Turns.antt =====
-- The order of a pass.
use plecture.Base.{
  String, ◌≡◌, refl, ap, ◌∙◌, inl, inr, Bool, false, not, [], ◌∷◌, ◌++◌, arith, All, All-map,
  All-append, All-filter, filter, Bool-cases,
}
use plecture.Base.Order.{
  text_ltb-split, text_ltb-asym, insert_front, insert_past, insert_by, sort_by, insert_by-All,
  Ascending,
}
use plecture.Population.Member.{Member, Members, has_session}
use plecture.Population.Sweep.{by_name, sorted_members, existing_first}

insert-Ascending :
    (x : String × Member) (ys : Members)
    → Ascending by_name ys
    → Ascending by_name (insert_by by_name x ys)
unfolding insert_by
insert-Ascending x [] a = (tt, tt)
insert-Ascending x (y ∷ ys) a = elim (Bool-cases (by_name y x)) [
  | inl e ↦
      rw (e, insert_by)
        (
          insert_by-All by_name (λ z. by_name z y ≡ false) x ys (text_ltb-asym y.0 x.0 e) a.0,
          insert-Ascending x ys a.1,
        )
  | inr e ↦
      rw (e, insert_by) ((e, All-map (λ z n. ground (arith, text_ltb-split z.0 y.0 x.0)) ys a.0), a)
]

pub sorted_members-Ascending : (ms : Members) → Ascending by_name (sorted_members ms)
unfolding sorted_members sort_by
sorted_members-Ascending [] = tt
sorted_members-Ascending (m ∷ ms) =
    insert-Ascending m (sorted_members ms) (sorted_members-Ascending ms)

abbrev pub existing : String × Member → Bool
existing a = has_session a.1

abbrev pub fresh : String × Member → Bool
fresh a = not (has_session a.1)

insert-existing :
    (x : String × Member) (ys : Members)
    → All (λ y. by_name y x ≡ false) ys
    → insert_by existing_first x (filter existing ys ++ filter fresh ys)
      ≡ filter existing (x ∷ ys) ++ filter fresh (x ∷ ys)
unfolding insert_by
insert-existing x ys a = elim (Bool-cases (has_session x.1)) [
  | inl e ↦
      insert_front existing_first x (filter existing ys ++ filter fresh ys) (
        All-append _ (filter existing ys) (filter fresh ys)
          (All-filter existing (λ y n h. ground arith) ys a)
          (All-filter fresh (λ y n h. ground arith) ys a))
      ∙ ground arith
  | inr e ↦
      insert_past existing_first x (filter existing ys) (filter fresh ys)
        (All-filter existing (λ y n h. ground arith) ys a)
      ∙ ap (λ l. filter existing ys ++ l)
          (insert_front existing_first x (filter fresh ys)
            (All-filter fresh (λ y n h. ground arith) ys a))
      ∙ ground arith
]

sort_existing :
    (xs : Members)
    → Ascending by_name xs
    → sort_by existing_first xs ≡ filter existing xs ++ filter fresh xs
unfolding sort_by
sort_existing [] a = refl
sort_existing (x ∷ xs) a =
    ap (insert_by existing_first x) (sort_existing xs a.1) ∙ insert-existing x xs a.0

-- Whatever the order of the map, the pass takes the members with a session first, then the others.
pub existing_first_lem :
    (ms : Members)
    → sort_by existing_first (sorted_members ms)
      ≡ filter existing (sorted_members ms) ++ filter fresh (sorted_members ms)
existing_first_lem ms = sort_existing (sorted_members ms) (sorted_members-Ascending ms)
