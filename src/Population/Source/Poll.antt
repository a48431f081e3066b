-- ===== src/Population/Source/Poll.antt =====
-- What a poll leaves of each resource.
use text.Mathlib.TextEquality.{eq_iff}
use plecture.Base.{
  String, ℕ, suc, All, All-map, ◌≡◌, refl, sym, ap, ◌∙◌, ◌⊎◌, inl, inr, Bool, true, false, not,
  ◌&&◌, ◌||◌, List, [], ◌∷◌, ◌++◌, Option, none, some, arith, if◌then◌else◌, ◌==◌, contains, lookup,
  keys, is_some, Distinct, Bool-cases, ⊎-cases, subst,
}
use plecture.Population.Member.{Member, Members}
use plecture.Population.World.{Env}
use plecture.Population.Source.{
  upsert, listed, unlisted, list_all, unlist_rest, poll_members, validate_items, next_generation,
}

lookup-upsert :
    (k : String) (f : Option Member → Member) (ms : Members) (r : String)
    → lookup r (upsert k f ms) ≡ (if k == r then some (f (lookup r ms)) else lookup r ms)
unfolding upsert
lookup-upsert k f [] r = ground arith
lookup-upsert k f ((j, m) ∷ ms) r =
    ground (arith, eq_iff j k, eq_iff k r, eq_iff j r, lookup-upsert k f ms r)

is_some-lookup :
    (r : String) (items : List (String × String))
    → is_some (lookup r items) ≡ contains (keys items) r
is_some-lookup r [] = refl
is_some-lookup r ((k, i) ∷ items) = ground (arith, is_some-lookup r items)

abbrev polled : String → Option String → Option Member → Option Member
polled r (some item) old = some (listed r item old)
polled r none old = old

lookup-list_all :
    (items : List (String × String)) (ms : Members) (r : String)
    → Distinct (keys items)
    → lookup r (list_all items ms) ≡ polled r (lookup r items) (lookup r ms)
unfolding list_all
lookup-list_all [] ms r d = refl
lookup-list_all ((k, i) ∷ items) ms r d = elim (Bool-cases (k == r)) [
  | inl e ↦ ground (
    arith,
    eq_iff k r,
    is_some-lookup r items,
    lookup-upsert k (listed k i) ms r,
    lookup-list_all items (upsert k (listed k i) ms) r d.1,
    d.0,
  )
  | inr e ↦ ground (
    arith,
    is_some-lookup r items,
    lookup-upsert k (listed k i) ms r,
    lookup-list_all items (upsert k (listed k i) ms) r d.1,
  )
]

abbrev rest : Bool → Option Member → Option Member
rest here none = none
rest here (some m) = some (if here then m else unlisted m)

lookup-unlist_rest :
    (present : List String) (ms : Members) (r : String)
    → lookup r (unlist_rest present ms) ≡ rest (contains present r) (lookup r ms)
unfolding unlist_rest
lookup-unlist_rest present [] r = refl
lookup-unlist_rest present ((k, m) ∷ ms) r =
    ground
      (arith, eq_iff k r, λ (e : k ≡ r). ap (contains present) e, lookup-unlist_rest present ms r)

poll_lookup :
    (items : List (String × String)) (ms : Members) (r : String)
    → Distinct (keys items)
    → lookup r (poll_members items ms)
      ≡ rest (contains (keys items) r) (polled r (lookup r items) (lookup r ms))
unfolding poll_members
poll_lookup items ms r d =
    lookup-unlist_rest (keys items) (list_all items ms) r
    ∙ ap (rest (contains (keys items) r)) (lookup-list_all items ms r d)

abbrev pub is_live : Option Member → Bool
is_live none = false
is_live (some m) = not m.tombstoned

abbrev pub generation_of : Option Member → ℕ
generation_of none = 0
generation_of (some m) = m.generation

-- Nothing is known against a member: no failure, no suspension, no waiting time.
abbrev pub is_clear : Option Member → Bool
is_clear none = true
is_clear (some m) =
    plecture.Base.eqb m.consecutive_admit_failures 0
    && not m.admit_suspended
    && plecture.Base.eqb m.admit_retry_at 0

abbrev pub wants_session : Option Member → Bool
wants_session none = false
wants_session (some m) = m.pending_up || not (m.session_name == "")

abbrev pub item_of : Option Member → Option String
item_of none = none
item_of (some m) = some m.item

-- What becomes of one resource: `item` is its item in the poll, `old` and `new` its member.
pub record PollOutcome (item : Option String) (old new : Option Member) : Type 0 where
  pub live : is_live new ≡ is_some item
  pub known : is_some new ≡ (is_some item || is_some old)
  pub generation : generation_of new ≡ (
      if is_some item && not (is_live old)
      then next_generation (generation_of old)
      else generation_of old)
  pub clear : is_live old ≡ is_live new ⊎ (is_clear new ≡ true)
  pub content : is_some item ≡ false ⊎ ((item_of new ≡ item) × (wants_session new ≡ true))

outcome :
    (item : Option String) (old : Option Member) (r : String)
    → PollOutcome item old (rest (is_some item) (polled r item old))
unfolding listed
outcome none none r = record {
  live = refl;
  known = refl;
  generation = refl;
  clear = inl refl;
  content = inl refl;
}
outcome none (some m) r = record {
  live = ground arith;
  known = refl;
  generation = ground arith;
  clear = elim (Bool-cases m.tombstoned) [
    | inl e ↦ inl (ground arith)
    | inr e ↦ inr (ground arith)
  ];
  content = inl refl;
}
outcome (some i) none r = record {
  live = refl;
  known = refl;
  generation = refl;
  clear = inr refl;
  content = inr (refl, refl);
}
outcome (some i) (some m) r = record {
  live = ground arith;
  known = refl;
  generation = ground arith;
  clear = elim (Bool-cases m.tombstoned) [
    | inl e ↦ inr (ground arith)
    | inr e ↦ inl (ground arith)
  ];
  content = inr (ground arith, ground arith);
}

inr_injective : {A B : Type 0} {a b : B} → (let s : A ⊎ B = inr a in s) ≡ inr b → a ≡ b
inr_injective h = cc

unseen :
    (r : String) (seen ks : List String)
    → All (λ k. contains (r ∷ seen) k ≡ false) ks
    → contains ks r ≡ false
unseen r seen [] a = refl
unseen r seen (k ∷ ks) a = ground (arith, eq_iff k r, eq_iff r k, unseen r seen ks a.1)

module _ (env : Env) where
  -- The items of one query are of different resources.
  validated :
      (seen items : List String) (present : List (String × String))
      → validate_items env seen items ≡ inr present
      → All (λ k. contains seen k ≡ false) (keys present) × Distinct (keys present)
  unfolding validate_items
  validated seen [] present h =
      subst (λ p. All (λ k. contains seen k ≡ false) (keys p) × Distinct (keys p)) (inr_injective h)
        (tt, tt)
  validated seen (i ∷ items) present h = elim (⊎-cases (env.item_resource i)) [
    | inl (e, p) ↦ absurd (ground arith)
    | inr (r, p) ↦ elim (⊎-cases (env.session_inputs r i)) [
      | inl (e, q) ↦ absurd (ground arith)
      | inr (inputs, q) ↦ elim (⊎-cases (validate_items env (r ∷ seen) items)) [
        | inl (e, v) ↦ absurd (ground arith)
        | inr (more, v) ↦
            let (away, distinct) = validated (r ∷ seen) items more v in
            let same : (r, i) ∷ more ≡ present = ground arith in
            subst (λ p. All (λ k. contains seen k ≡ false) (keys p) × Distinct (keys p)) same
              (
                (ground arith, All-map (λ k n. ground arith) (keys more) away),
                (unseen r seen (keys more) away, distinct),
              )
      ]
    ]
  ]

  -- After a poll whose items are valid, a resource is live if and only if the poll lists it; it is
  -- known if it is listed or was known; its generation goes up, from 0 if it was unknown, exactly if it is
  -- listed and was not live, and stays otherwise; nothing is held against it if it has come or gone; and if it
  -- is listed, it has the item of the poll, and has a session or is waiting for one.
  pub poll_members-PollOutcome :
      (items : List String) (present : List (String × String)) (ms : Members)
      → validate_items env [] items ≡ inr present
      → (r : String)
      → PollOutcome (lookup r present) (lookup r ms) (lookup r (poll_members present ms))
  poll_members-PollOutcome items present ms h r =
      subst (PollOutcome (lookup r present) (lookup r ms))
        (sym (
          poll_lookup present ms r (validated [] items present h).1
          ∙ ap (λ b. rest b (polled r (lookup r present) (lookup r ms)))
              (sym (is_some-lookup r present))))
        (outcome (lookup r present) (lookup r ms) r)
