-- ===== src/Futex/LostWakeup.antt =====
-- Who can go on: where the right to the lock is, and the state from which no thread gets it.
use aurora_os_old.Prelude.{
  ℕ, ◌+◌, ◌-◌, ◌^◌, ◌≤◌, ◌<◌, ◌≡◌, ◌⊎◌, refl, sym, false, some, ltb, ◌==◌, wadd, arith, inl, inr,
}
use mathlib.Core.Path.{subst}
use native.Mathlib.Decide.{dec_lt}
use aurora_os_old.Sync.{count_waiter}
use aurora_os_old.Futex.{
  System, initial, Action, lock, try_lock, block, park, unlock, unblock, step, lock_step,
  try_lock_step, block_step, park_step, unlock_step, unblock_step, lock_count, try_lock_count,
  Reaches, here, next,
}
use aurora_os_old.Futex.Exclusion.{if-elim, ltb-false, reaches-IsSound, guarded}

-- Threads wait, nobody holds the lock or is about to wake one, and the kernel has counted exactly
-- one thread fewer than wait in it.
pub record IsLost (n : ℕ) (s : System) : Type 0 where
  pub bounded : s.outside + s.wants + s.parking + s.sleeping ≡ n
  pub nobody : s.holding + s.releasing ≡ 0
  pub counted : s.count ≡ s.wants + s.parking + s.sleeping
  pub waiting : 0 < s.parking + s.sleeping
  pub missed : s.futex.wait_count + 1 ≡ s.parking + s.sleeping

module _ (n : ℕ) (small : n < 2 ^ 63) where
  -- While fewer than 2 ^ 63 threads wait for a lock or hold it, one of four cases holds: some
  -- thread holds it, or is about to wake another, or the next thread that calls `block` will pass
  -- and there is one that will, or the wakeup is lost.
  pub right_to_lock :
      (s : System)
      → Reaches (initial n) s
      → 0 < s.count
      → (s.holding ≡ 1)
        ⊎ (s.releasing ≡ 1)
        ⊎ ((2 ^ 63 ≤ s.futex.wait_count) × (0 < s.wants))
        ⊎ IsLost n s
  right_to_lock s r h =
      let i = reaches-IsSound n small s r in
      elim (dec_lt 0 s.holding) [
        | yes p ↦ inl (omega (arith, i.owned))
        | no p ↦ elim (dec_lt 0 s.releasing) [
          | yes q ↦ inr (inl (omega (arith, i.owned)))
          | no q ↦ elim (dec_lt 0 (s.parking + s.sleeping)) [
            | yes w ↦ inr (
                inr (
                  inr (record {
                    bounded = omega (arith, i.total);
                    nobody = omega arith;
                    counted = omega (arith, i.counted);
                    waiting = w;
                    missed = omega (arith, i.waited, i.owned, i.total);
                  })))
            | no w ↦
                inr
                  (inr (inl (omega (arith, i.waited, i.owned, i.total), omega (arith, i.counted))))
          ]
        ]
      ]

  lock-IsLost : (s : System) → 0 < s.outside → IsLost n s → IsLost n (lock_step s)
  unfolding lock_step lock_count
  lock-IsLost s h i =
      if-elim (IsLost n) (ltb 0 s.count)
        (record s { count = wadd s.count 1; outside = s.outside - 1; wants = s.wants + 1 })
        (record s { count = wadd s.count 1; outside = s.outside - 1; holding = s.holding + 1 })
        (λ e. record {
          bounded = omega (arith, i.bounded);
          nobody = i.nobody;
          counted = omega (arith, i.counted, i.bounded);
          waiting = i.waiting;
          missed = i.missed;
        })
        (λ e. absurd (omega (arith, i.counted, i.waiting, ltb-false 0 s.count e)))

  try_lock_idle : (s : System) → IsLost n s → try_lock_step s ≡ s
  unfolding try_lock_step try_lock_count
  try_lock_idle s i =
      let e : (s.count == 0) ≡ false = ground (arith, i.counted, i.waiting) in
      rw (e, try_lock_step, try_lock_count) refl

  block-IsLost : (s : System) → 0 < s.wants → IsLost n s → IsLost n (block_step s)
  unfolding block_step count_waiter
  block-IsLost s h i =
      let k = record s.futex { wait_count = wadd s.futex.wait_count 1 } in
      if-elim (IsLost n) (ltb s.futex.wait_count (2 ^ 63))
        (record s { futex = k; wants = s.wants - 1; parking = s.parking + 1 })
        (record s { futex = k; wants = s.wants - 1; holding = s.holding + 1 })
        (λ e. record {
          bounded = omega (arith, i.bounded);
          nobody = i.nobody;
          counted = omega (arith, i.counted);
          waiting = omega arith;
          missed = omega (arith, i.missed, i.bounded);
        })
        (λ e. absurd (omega (arith, i.missed, i.bounded, ltb-false s.futex.wait_count (2 ^ 63) e)))

  park-IsLost : (s : System) → 0 < s.parking → IsLost n s → IsLost n (park_step s)
  unfolding park_step
  park-IsLost s h i = record {
    bounded = omega (arith, i.bounded);
    nobody = i.nobody;
    counted = omega (arith, i.counted);
    waiting = omega arith;
    missed = omega (arith, i.missed);
  }

  step-IsLost : (a : Action) (s s' : System) → step a s ≡ some s' → IsLost n s → IsLost n s'
  unfolding step
  step-IsLost lock s s' e i =
      guarded (IsLost n) s.outside s' (lock_step s) (λ h. lock-IsLost s h i) e
  step-IsLost try_lock s s' e i =
      guarded (IsLost n) s.outside s' (try_lock_step s)
        (λ h. subst (IsLost n) (sym (try_lock_idle s i)) i) e
  step-IsLost block s s' e i =
      guarded (IsLost n) s.wants s' (block_step s) (λ h. block-IsLost s h i) e
  step-IsLost park s s' e i =
      guarded (IsLost n) s.parking s' (park_step s) (λ h. park-IsLost s h i) e
  step-IsLost unlock s s' e i =
      guarded (IsLost n) s.holding s' (unlock_step s) (λ h. absurd (omega (arith, i.nobody))) e
  step-IsLost unblock s s' e i =
      guarded (IsLost n) s.releasing s' (unblock_step s) (λ h. absurd (omega (arith, i.nobody))) e

  -- Once a wakeup is lost among fewer than 2 ^ 63 threads it stays lost: whatever they do, none
  -- ever holds the lock again.
  pub reaches-IsLost : (s s' : System) → IsLost n s → Reaches s s' → (s'.holding ≡ 0) × IsLost n s'
  reaches-IsLost s s' i here = (omega (arith, i.nobody), i)
  reaches-IsLost s s' i (next {s = s₀} a r e) =
      let j = step-IsLost a s₀ s' e (reaches-IsLost s s₀ i r).1 in (omega (arith, j.nobody), j)
