-- ===== src/Dispatch/Deliver/Resend.antt =====
-- An event that is held and tried again.
use text.Mathlib.TextEquality.{eq_iff}
use plecture.Base.{
  String, ◌≡◌, sym, subst, true, false, not, ◌||◌, List, [], ◌∷◌, ◌++◌, map, ◌⊎◌, inl, inr, arith,
  if◌then◌else◌, All, Bool-cases, Option-cases, List-cases, ==-refl, contains, contains-append,
  Distinct, Distinct-append,
}
use plecture.Events.{Event}
use plecture.Dispatch.Deliver.{
  Channel, Env, Desk, wants, work, work_all, already, settle, process_event, is_error_of_error,
}

abbrev pub names : List Channel → List String
names chs = map (λ ch. ch.name) chs

-- The names that `process_event` delivers to.
pub sent_now : Env → Event → Desk → List String
sent_now env ev desk =
    if is_error_of_error ev then [] else (work_all env ev (already desk.held ev) env.channels).sent

-- The names that an event is delivered to, while it is held and tried again.
pub deliveries : List Env → Event → Desk → List String
deliveries [] ev desk = []
deliveries (env ∷ later) ev desk =
    let (desk', held) = process_event env ev desk in
    let again = deliveries later ev desk' in
    if held then sent_now env ev desk ++ again else sent_now env ev desk

module _ (env : Env) (ev : Event) where
  sent-cons :
      (delivered : List String) (ch : Channel) (rest : List Channel)
      → let later = (work_all env ev delivered rest).sent in
        ((work_all env ev delivered (ch ∷ rest)).sent ≡ later)
        ⊎ (((work_all env ev delivered (ch ∷ rest)).sent ≡ ch.name ∷ later)
            × (contains delivered ch.name ≡ false))
  unfolding work_all
  sent-cons delivered ch rest = elim (Option-cases (work env ch ev)) [
    | inl n ↦ elim (Bool-cases (contains delivered ch.name)) [
      | inl d ↦ inl (ground (arith, n, d))
      | inr d ↦ elim (Bool-cases (wants env ev ch)) [
        | inl w ↦ inr (ground (arith, n, d, w), d)
        | inr w ↦ inl (ground (arith, n, d, w))
      ]
    ]
    | inr (f, n) ↦ inl (ground (arith, n))
  ]

  -- Only channels are sent to, and only those that were not before.
  sent-away :
      (delivered : List String) (chs : List Channel) (s : String)
      → let sent = (work_all env ev delivered chs).sent in
        ((contains (names chs) s || not (contains sent s)) ≡ true)
        × ((not (contains delivered s) || not (contains sent s)) ≡ true)
  unfolding work_all
  sent-away delivered [] s = (ground arith, ground arith)
  sent-away delivered (ch ∷ rest) s =
      let (known, fresh) = sent-away delivered rest s in
      elim (sent-cons delivered ch rest) [
        | inl e ↦ (ground (arith, e, known), ground (arith, e, fresh))
        | inr (e, n) ↦ (ground (arith, e, known), ground (arith, e, fresh, n, eq_iff ch.name s))
      ]

  sent-Distinct :
      (delivered : List String) (chs : List Channel)
      → Distinct (names chs)
      → Distinct (work_all env ev delivered chs).sent
  unfolding work_all
  sent-Distinct delivered [] d = tt
  sent-Distinct delivered (ch ∷ rest) d =
      let (known, fresh) = sent-away delivered rest ch.name in
      elim (sent-cons delivered ch rest) [
        | inl e ↦ subst Distinct (sym e) (sent-Distinct delivered rest d.1)
        | inr (e, n) ↦
            subst Distinct (sym e) (ground (arith, known, d.0), sent-Distinct delivered rest d.1)
      ]

  held-already :
      (desk : Desk)
      → (process_event env ev desk).1 ≡ true
      → already (process_event env ev desk).0.held ev ≡ already desk.held ev ++ sent_now env ev desk
  unfolding process_event settle already sent_now
  held-already desk h =
      let w = work_all env ev (already desk.held ev) env.channels in
      elim (List-cases w.failures) [
        | inl n ↦ absurd (ground (arith, h, n))
        | inr (f, (fs, n)) ↦ ground (arith, h, n, ==-refl ev.id)
      ]

  sent_now-fresh :
      (desk : Desk)
      → Distinct (names env.channels)
      → Distinct (sent_now env ev desk)
        × ((s : String)
            → (not (contains (already desk.held ev) s) || not (contains (sent_now env ev desk) s))
              ≡ true)
  unfolding sent_now
  sent_now-fresh desk d = elim (Bool-cases (is_error_of_error ev)) [
    | inl q ↦ rw q (tt, λ s. ground arith)
    | inr q ↦ rw q (
      sent-Distinct (already desk.held ev) env.channels d,
      λ s. (sent-away (already desk.held ev) env.channels s).1,
    )
  ]

away :
    (xs ys : List String)
    → ((s : String) → (not (contains xs s) || not (contains ys s)) ≡ true)
    → All (λ y. contains xs y ≡ false) ys
away xs [] h = tt
away xs (y ∷ ys) h = (ground (arith, h y, ==-refl y), away xs ys (λ s. ground (arith, h s)))

deliveries-fresh :
    (envs : List Env) (ev : Event) (desk : Desk)
    → All (λ env. Distinct (names env.channels)) envs
    → Distinct (deliveries envs ev desk)
      × ((s : String)
          → (not (contains (already desk.held ev) s) || not (contains (deliveries envs ev desk) s))
            ≡ true)
unfolding deliveries
deliveries-fresh [] ev desk d = (tt, λ s. ground arith)
deliveries-fresh (env ∷ later) ev desk d =
    let before = already desk.held ev in
    let sent = sent_now env ev desk in
    let desk' = (process_event env ev desk).0 in
    let more = deliveries later ev desk' in
    let (once, fresh) = sent_now-fresh env ev desk d.0 in
    elim (Bool-cases (process_event env ev desk).1) [
      | inr e ↦ rw e (once, fresh)
      | inl e ↦
          let noted = held-already env ev desk e in
          let (once', fresh') = deliveries-fresh later ev desk' d.1 in
          let apart : (s : String)
              → (not (contains (before ++ sent) s) || not (contains more s)) ≡ true =
            subst (λ xs. (s : String) → (not (contains xs s) || not (contains more s)) ≡ true) noted
              fresh' in
          rw e (
            Distinct-append sent more once once'
                (away sent more (λ s. ground (arith, apart s, contains-append before sent s))),
            λ s. ground (
              arith,
              apart s,
              fresh s,
              contains-append before sent s,
              contains-append sent more s,
            ),
          )
    ]

-- However often an event is held and tried again, a channel that has been delivered to once is not
-- delivered to again, where no two channels of the session have one name.
pub deliveries-Distinct :
    (envs : List Env) (ev : Event) (desk : Desk)
    → All (λ env. Distinct (names env.channels)) envs
    → Distinct (deliveries envs ev desk)
deliveries-Distinct envs ev desk d = (deliveries-fresh envs ev desk d).0
