-- ===== src/Capacity/Limit/Reached.antt =====
-- Every step keeps within the limit.
use plecture.Base.{
  String, ℕ, Option, none, ◌≤◌, ◌<◌, ◌≡◌, ◌⊎◌, ap, ◌∙◌, sym, subst, Bool, true, false, not, ◌&&◌,
  List, [], ◌∷◌, ◌++◌, some, arith, ◌==◌, any, filter, contains, keys, Distinct, Bool-cases, inl,
  inr, leb, ltb,
}
use plecture.Capacity.{
  Row, Cap, cap_parent, process_alive, upsert_row, reservation_columns_from_parent, reserve_up_slot,
  reserve_child_cap_slot, decide_slot, release_up_slot, occupied, sleeps_before,
}
use plecture.Capacity.Limit.{Shared, Step, Steps, set_up, reservations, taken}
use plecture.Capacity.Limit.Counting.{
  nobody, is_up, is_up-set_up, count-set_up, down-is_up, foreign-is_up, reserved-change,
}
use plecture.Capacity.Limit.Keeps.{
  parents, reservation_parent_round, Distinct-filter, filter_twice, filter_kept, keys-parents,
  keys-set_up, upsert_row-new, keys-append_one, reserved-filter, reserved-filter_both,
  parents-append, occupied-admitted, occupied-other,
}

-- The names in the two tables are not repeated, and the cap holds.
pub record Within (cap : Cap) (limit : ℕ) (w : Shared) : Type 0 where
  pub sessions_once : Distinct (keys w.sessions)
  pub rows_once : Distinct (keys w.rows)
  pub in_limit : taken cap w ≤ limit

module _ (cap : Cap) (limit : ℕ) (w : Shared) (h : Within cap limit w) where
  abbrev live : List (String × Row)
  live = filter (λ e. process_alive w.alive e.1.pid) w.rows

  abbrev rs : List (String × String)
  rs = parents live

  live-once : Distinct (keys live)
  live-once = Distinct-filter (λ e. process_alive w.alive e.1.pid) w.rows h.rows_once

  rs-once : Distinct (keys rs)
  rs-once = subst Distinct (sym (keys-parents live)) live-once

  set_up-Within :
      (child : String) (up : Bool)
      → (any (λ r. r.0 == child && r.1 == cap_parent cap) rs ≡ true)
        ⊎ (is_up cap nobody (set_up child up w.sessions) child ≡ false)
      → Within cap limit (record w { sessions = set_up child up w.sessions })
  unfolding taken reservations occupied
  set_up-Within child up side =
      let u = is_up cap nobody w.sessions in
      let v = is_up cap nobody (set_up child up w.sessions) in
      let ups = count-set_up cap up w.sessions child h.sessions_once in
      let held =
        reserved-change (cap_parent cap) child u v rs rs-once
          (λ name n. sym (is_up-set_up cap up w.sessions child name n)) in
      record {
        sessions_once = subst Distinct (sym (keys-set_up child up w.sessions)) h.sessions_once;
        rows_once = h.rows_once;
        in_limit = elim side [
          | inl e ↦ ground (arith, h.in_limit, ups, held, e)
          | inr gone ↦ ground (arith, h.in_limit, ups, held, gone)
        ];
      }

  release-Within :
      (child : String) → Within cap limit (record w { rows = release_up_slot child w.rows })
  unfolding release_up_slot taken reservations occupied
  release-Within child = record {
    sessions_once = h.sessions_once;
    rows_once = Distinct-filter (λ e. not (e.0 == child)) w.rows h.rows_once;
    in_limit = omega (
      arith,
      h.in_limit,
      reserved-filter_both (is_up cap nobody w.sessions) (cap_parent cap)
          (λ e. process_alive w.alive e.1.pid) (λ e. not (e.0 == child)) w.rows,
    );
  }

  die-Within :
      (alive : ℕ → Bool)
      → ((pid : ℕ) → alive pid ≡ true → w.alive pid ≡ true)
      → Within cap limit (record w { alive = alive })
  unfolding taken reservations occupied
  die-Within alive fewer = record {
    sessions_once = h.sessions_once;
    rows_once = h.rows_once;
    in_limit = omega (
      arith,
      h.in_limit,
      reserved-filter (is_up cap nobody w.sessions) (cap_parent cap)
          (λ e. process_alive alive e.1.pid) (λ e. process_alive w.alive e.1.pid) w.rows
          (λ e k. ground (arith, fewer e.1.pid)),
    );
  }

  swept-Within : Within cap limit (record w { rows = live })
  unfolding taken reservations occupied
  swept-Within = record {
    sessions_once = h.sessions_once;
    rows_once = live-once;
    in_limit =
        subst (λ l. occupied cap nobody w.sessions (parents l) ≤ limit)
          (sym (filter_twice (λ e. process_alive w.alive e.1.pid) w.rows)) h.in_limit;
  }

  admitted-Within :
      (other : Cap) (pid now : ℕ) (child : String)
      → process_alive w.alive pid ≡ true
      → contains (keys live) child ≡ false
      → occupied cap nobody w.sessions (rs ++ (child, cap_parent other) ∷ []) ≤ limit
      → let row : Row = record {
        parent = reservation_columns_from_parent (cap_parent other);
        pid = pid;
        reserved_at = now;
      } in
        Within cap limit (record w { rows = upsert_row child row live })
  unfolding taken reservations
  admitted-Within other pid now child a free room =
      let row : Row = record {
        parent = reservation_columns_from_parent (cap_parent other);
        pid = pid;
        reserved_at = now;
      } in
      let rows' = upsert_row child row live in
      let new = upsert_row-new child row live free in
      let swept =
        ap (filter (λ e. process_alive w.alive e.1.pid)) new
        ∙ filter_kept (λ e. process_alive w.alive e.1.pid) w.rows (child, row) a in
      let seen : reservations (record w { rows = rows' }) ≡ rs ++ (child, cap_parent other) ∷ [] =
        ap parents swept
        ∙ (parents-append live child row
            ∙ ap (λ q. rs ++ (child, q) ∷ []) (reservation_parent_round (cap_parent other))) in
      record {
        sessions_once = h.sessions_once;
        rows_once =
            subst (λ l. Distinct (keys l)) (sym new)
              (keys-append_one live child row free live-once);
        in_limit = subst (λ l. occupied cap nobody w.sessions l ≤ limit) (sym seen) room;
      }

  new-in_rs :
      (child : String) → contains (keys live) child ≡ false → contains (keys rs) child ≡ false
  new-in_rs child free = ap (λ ks. contains ks child) (keys-parents live) ∙ free

  reserve-Within :
      (pid now : ℕ) (queued : String → Bool) (child : String)
      → process_alive w.alive pid ≡ true
      → 0 < limit
      → Within cap limit (record w {
        rows =
            (reserve_child_cap_slot w.alive pid now cap
              (some limit)
              queued
              false
              w.sessions
              child
              w.rows).0;
      })
  unfolding reserve_child_cap_slot reserve_up_slot decide_slot
  reserve-Within pid now queued child a l =
      let positive : ltb limit 1 ≡ false = ground (arith, l) in
      elim (Bool-cases (contains (keys live) child)) [
        | inl held ↦ rw (positive, held) h
        | inr free ↦ elim (Bool-cases (any (sleeps_before queued w.sessions child) w.sessions)) [
          | inl sleeper ↦ rw (positive, free, sleeper) swept-Within
          | inr none_before ↦
              elim (Bool-cases (leb limit (occupied cap (λ name. name == child) w.sessions rs))) [
                | inl full ↦ rw (positive, free, none_before, full) swept-Within
                | inr room ↦
                    rw (positive, free, none_before, room)
                      (admitted-Within cap pid now child a free (
                        ground (
                          arith,
                          occupied-admitted cap w.sessions rs child h.sessions_once rs-once
                              (new-in_rs child free),
                        )))
              ]
        ]
      ]

  within_rs : occupied cap nobody w.sessions rs ≤ limit
  unfolding taken reservations
  within_rs = h.in_limit

  reserve_other-Within :
      (pid now : ℕ) (other : Cap) (other_limit : Option ℕ) (queued : String → Bool)
      (already_up : Bool) (child : String)
      → process_alive w.alive pid ≡ true
      → (cap_parent other == cap_parent cap) ≡ false
      → Within cap limit (record w {
        rows =
            (reserve_child_cap_slot w.alive pid now other other_limit queued already_up w.sessions
              child w.rows).0;
      })
  unfolding reserve_child_cap_slot reserve_up_slot
  reserve_other-Within pid now other none queued true child a n = h
  reserve_other-Within pid now other none queued false child a n = h
  reserve_other-Within pid now other (some m) queued true child a n = h
  reserve_other-Within pid now other (some m) queued false child a n = elim (Bool-cases (ltb m 1)) [
    | inl small ↦ rw small h
    | inr large ↦ elim (Bool-cases (contains (keys live) child)) [
      | inl held ↦ rw (large, held) h
      | inr free ↦ elim (Bool-cases (decide_slot other m queued w.sessions child rs)) [
        | inl agreed ↦
            rw (large, free, agreed)
              (admitted-Within other pid now child a free (
                ground
                  (arith, within_rs, occupied-other cap w.sessions rs child (cap_parent other) n)))
        | inr refusal ↦ rw (large, free, refusal) swept-Within
      ]
    ]
  ]

Step-Within :
    (cap : Cap) (limit : ℕ) (v w : Shared)
    → 0 < limit
    → Step cap limit v w
    → Within cap limit v
    → Within cap limit w
unfolding reservations
Step-Within cap limit v w l (Step.reserve pid now queued child a) h =
    reserve-Within cap limit v h pid now queued child a l
Step-Within cap limit v w l (Step.up child held) h =
    set_up-Within cap limit v h child true (inl held)
Step-Within cap limit v w l (Step.reserve_other pid now other other_limit queued up child a n) h =
    reserve_other-Within cap limit v h pid now other other_limit queued up child a n
Step-Within cap limit v w l (Step.up_other child foreign) h =
    set_up-Within cap limit v h child true (inr (foreign-is_up cap true v.sessions child foreign))
Step-Within cap limit v w l (Step.down child) h =
    set_up-Within cap limit v h child false (inr (down-is_up cap v.sessions child))
Step-Within cap limit v w l (Step.release child) h = release-Within cap limit v h child
Step-Within cap limit v w l (Step.die alive fewer) h = die-Within cap limit v h alive fewer

-- However admissions under this cap and others, sessions that come up and go down, releases and deaths of processes are interleaved, no
-- more children of a cap are up or hold a live reservation than its limit allows, if no more were at first and a child of
-- the cap comes up only with a live reservation.
pub Steps-Within :
    (cap : Cap) (limit : ℕ) (v w : Shared)
    → 0 < limit
    → Steps cap limit v w
    → Within cap limit v
    → Within cap limit w
Steps-Within cap limit v w l Steps.stay h = h
Steps-Within cap limit u w l (Steps.next {v} before step) h =
    Step-Within cap limit v w l step (Steps-Within cap limit u v l before h)
