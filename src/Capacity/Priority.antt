-- ===== src/Capacity/Priority.antt =====
-- Among sleeping sessions one is always first, and the others wait for it.
use plecture.Base.{
  String, ℕ, List, All, ◌==◌, ◌≡◌, refl, ap, Bool, true, false, not, ◌&&◌, ◌||◌, [], ◌∷◌, some, inl,
  inr, arith, ltb, eqb, any, lookup, contains, keys, Distinct, Bool-cases, ==-refl, is_none,
}
use text.Mathlib.TextEquality.{eq_iff}
use mathlib.Core.List.{Memᴰ}
use plecture.Base.Order.{text_ltb, text_ltb-split, text_ltb-asym, text_ltb-total}
use plecture.Capacity.{
  Session, Sessions, Cap, session_finalized, sleeps_before, occupied, decide_slot,
}

abbrev pub waits : (String → Bool) → String × Session → Bool
waits queued (name, s) =
    queued name && s.is_down && not (eqb s.sleep_since 0) && not (session_finalized s)

-- The order of the queue: the time, and then the name.
abbrev pub earlier : String × Session → String × Session → Bool
earlier (a, s) (b, t) =
    ltb s.sleep_since t.sleep_since || (eqb s.sleep_since t.sleep_since && text_ltb a b)

-- No waiting session of a list comes before `e`.
abbrev unpreceded : (String → Bool) → String × Session → Sessions → Bool
unpreceded queued e ss = not (any (λ x. waits queued x && earlier x e) ss)

unpreceded-earlier :
    (queued : String → Bool) (x e : String × Session) (ss : Sessions)
    → earlier x e ≡ true
    → unpreceded queued e ss ≡ true
    → unpreceded queued x ss ≡ true
unpreceded-earlier queued x e [] h u = refl
unpreceded-earlier queued x e (y ∷ ss) h u = ground (
  arith,
  h,
  unpreceded-earlier queued x e ss h,
  text_ltb-split y.0 e.0 x.0,
  text_ltb-asym x.0 e.0,
)

-- The first of the waiting sessions.
data Leads (queued : String → Bool) (ss : Sessions) : Type 0 where
  idle : any (waits queued) ss ≡ false → Leads queued ss
  first :
      (e : String × Session)
      → waits queued e ≡ true
      → Memᴰ e ss
      → unpreceded queued e ss ≡ true
      → Leads queued ss

alone :
    (queued : String → Bool) (x : String × Session) (ss : Sessions)
    → any (waits queued) ss ≡ false
    → unpreceded queued x ss ≡ true
alone queued x [] h = refl
alone queued x (z ∷ ss) h = ground (arith, h, alone queued x ss)

not_before_itself : (x : String × Session) → earlier x x ≡ false
not_before_itself x = ground (arith, text_ltb-asym x.0 x.0)

lead_waiting :
    (queued : String → Bool) (x : String × Session) (ss : Sessions)
    → waits queued x ≡ true
    → Leads queued ss
    → Leads queued (x ∷ ss)
lead_waiting queued x ss y (Leads.idle h) =
    Leads.first x y (Memᴰ.head refl) (ground (arith, alone queued x ss h, not_before_itself x))
lead_waiting queued x ss y (Leads.first e w m u) = elim (Bool-cases (earlier x e)) [
  | inl b ↦
      Leads.first x y (Memᴰ.head refl)
        (ground (arith, unpreceded-earlier queued x e ss b u, not_before_itself x))
  | inr b ↦ Leads.first e w (Memᴰ.tail m) (ground (arith, b, u))
]

lead_other :
    (queued : String → Bool) (x : String × Session) (ss : Sessions)
    → waits queued x ≡ false
    → Leads queued ss
    → Leads queued (x ∷ ss)
lead_other queued x ss n (Leads.idle h) = Leads.idle (ground (arith, n, h))
lead_other queued x ss n (Leads.first e w m u) =
    Leads.first e w (Memᴰ.tail m) (ground (arith, n, u))

lead : (queued : String → Bool) (ss : Sessions) → Leads queued ss
lead queued [] = Leads.idle refl
lead queued (x ∷ ss) = elim (Bool-cases (waits queued x)) [
  | inr n ↦ lead_other queued x ss n (lead queued ss)
  | inl y ↦ lead_waiting queued x ss y (lead queued ss)
]

known : (k : String) (ss : Sessions) → (is_none (lookup k ss) || contains (keys ss) k) ≡ true
known k [] = refl
known k ((j, s) ∷ ss) = ground (arith, known k ss)

lookup-Mem :
    (e : String × Session) (ss : Sessions)
    → Distinct (keys ss)
    → Memᴰ e ss
    → lookup e.0 ss ≡ some e.1
lookup-Mem e [] d m = elim m [ ]
lookup-Mem e ((k, s) ∷ ss) d (Memᴰ.head q) =
    ground (arith, ==-refl k, ap (λ x. x.0) q, ap (λ x. x.1) q)
lookup-Mem e ((k, s) ∷ ss) d (Memᴰ.tail m) =
    ground (arith, lookup-Mem e ss d.1 m, known e.0 ss, d.0, eq_iff k e.0)

lookups : (ss : Sessions) → Distinct (keys ss) → All (λ x. lookup x.0 ss ≡ some x.1) ss
lookups [] d = tt
lookups ((k, s) ∷ ss) d = (ground (arith, ==-refl k), shifted k s ss ss d.0 (lookups ss d.1))
  where
    shifted :
        (k : String) (s : Session) (all_sessions ss : Sessions)
        → contains (keys all_sessions) k ≡ false
        → All (λ x. lookup x.0 all_sessions ≡ some x.1) ss
        → All (λ x. lookup x.0 ((k, s) ∷ all_sessions) ≡ some x.1) ss
    shifted k s all_sessions [] n l = tt
    shifted k s all_sessions (x ∷ ss) n l = (
      ground (
        arith,
        l.0,
        n,
        eq_iff k x.0,
        known x.0 all_sessions,
        λ (e : k ≡ x.0). ap (contains (keys all_sessions)) e,
      ),
      shifted k s all_sessions ss n l.1,
    )

sleeps_before-earlier :
    (queued : String → Bool) (ss all_sessions : Sessions) (e : String × Session)
    → lookup e.0 all_sessions ≡ some e.1
    → waits queued e ≡ true
    → unpreceded queued e ss ≡ true
    → any (sleeps_before queued all_sessions e.0) ss ≡ false
unfolding sleeps_before
sleeps_before-earlier queued [] all_sessions e l w u = refl
sleeps_before-earlier queued (x ∷ ss) all_sessions e l w u =
    ground (arith, l, w, u, sleeps_before-earlier queued ss all_sessions e l w)

-- A session that is not queued, or waits after `e`, is held back by `e`.
held_back :
    (queued : String → Bool) (ss : Sessions) (e x : String × Session)
    → lookup x.0 ss ≡ some x.1
    → waits queued e ≡ true
    → (e.0 == x.0) ≡ false
    → (not (queued x.0) || (waits queued x && earlier e x)) ≡ true
    → sleeps_before queued ss x.0 e ≡ true
unfolding sleeps_before
held_back queued ss e x l w n h = ground (arith, l, w, n, h)

any-Mem :
    (p : String × Session → Bool) (e : String × Session) (ss : Sessions)
    → Memᴰ e ss
    → p e ≡ true
    → any p ss ≡ true
any-Mem p e [] m h = elim m [ ]
any-Mem p e (x ∷ ss) (Memᴰ.head q) h = ground (arith, h, ap p q)
any-Mem p e (x ∷ ss) (Memᴰ.tail m) h = ground (arith, any-Mem p e ss m h)

-- Of two waiting sessions with different names one comes first.
earlier_or :
    (e x : String × Session) → earlier x e ≡ false → (e.0 == x.0) ≡ false → earlier e x ≡ true
earlier_or (a, s) (b, t) h n = ground (arith, h, n, text_ltb-total a b)

module _ (cap : Cap) (limit : ℕ) (queued : String → Bool) (sessions : Sessions)
    (reservations : List (String × String)) where
  -- Another session than the first is refused, unless it is queued without waiting.
  abbrev pub refuses : String → String × Session → Bool
  refuses leader x =
      leader == x.0
      || (queued x.0 && not (waits queued x))
      || not (decide_slot cap limit queued sessions x.0 reservations)

  refuses_later :
      (e x : String × Session)
      → Memᴰ e sessions
      → waits queued e ≡ true
      → lookup x.0 sessions ≡ some x.1
      → (waits queued x && earlier x e) ≡ false
      → refuses e.0 x ≡ true
  unfolding decide_slot
  refuses_later e x m w l u = elim (Bool-cases (e.0 == x.0)) [
    | inl q ↦ ground (arith, q)
    | inr n ↦ elim (Bool-cases (queued x.0 && not (waits queued x))) [
      | inl q ↦ ground (arith, n, q)
      | inr q ↦
          let later = earlier_or e x in
          let held = held_back queued sessions e x l w n in
          let stopped = any-Mem (sleeps_before queued sessions x.0) e sessions m in
          ground (arith, n, q, u, later, held, stopped)
    ]
  ]

  refuses_all :
      (e : String × Session) (ss : Sessions)
      → Memᴰ e sessions
      → waits queued e ≡ true
      → All (λ x. lookup x.0 sessions ≡ some x.1) ss
      → unpreceded queued e ss ≡ true
      → All (λ x. refuses e.0 x ≡ true) ss
  refuses_all e [] m w l u = tt
  refuses_all e (x ∷ ss) m w l u =
      (refuses_later e x m w l.0 (ground (arith, u)), refuses_all e ss m w l.1 (ground (arith, u)))

  -- While sessions wait in the sleep queue, one of them comes first: it gets the slot exactly if fewer than the limit are occupied,
  -- whichever others wait; and until it has it, every other session of the table that waits, or that is not
  -- queued, is refused.
  pub first_sleeper :
      Distinct (keys sessions)
      → any (waits queued) sessions ≡ true
      → (e : String × Session) × ((waits queued e ≡ true)
          × (decide_slot cap limit queued sessions e.0 reservations
              ≡ ltb (occupied cap (λ name. name == e.0) sessions reservations) limit)
          × All (λ x. refuses e.0 x ≡ true) sessions)
  unfolding decide_slot
  first_sleeper d h = elim (lead queued sessions) [
    | Leads.idle n ↦ absurd (ground arith)
    | Leads.first e w m u ↦ (
      e,
      (
        w,
        ground (
          arith,
          sleeps_before-earlier queued sessions sessions e (lookup-Mem e sessions d m) w u,
        ),
        refuses_all e sessions m w (lookups sessions d) u,
      ),
    )
  ]
