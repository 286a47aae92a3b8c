-- ===== src/Futex/Exclusion.antt =====
-- Mutual exclusion of a RawFutex, over every order of the steps of its threads.
use aurora_os_old.Prelude.{
  ℕ, ◌+◌, ◌-◌, ◌%◌, ◌^◌, ◌≤◌, ◌<◌, ◌≡◌, refl, sym, ◌∙◌, ap, Bool, true, false, none, some, ltb,
  ltb→lt, ◌==◌, if◌then◌else◌, wadd, wsub, word_mod, min, arith, Bool-cases, none_ne, some_inj, inl,
  inr,
}
use mathlib.Core.Path.{subst}
use aurora_os_old.Sync.{count_waiter}
use aurora_os_old.Futex.{
  System, initial, Action, lock, try_lock, block, park, unlock, unblock, step, lock_step,
  try_lock_step, block_step, park_step, unlock_step, unblock_step, lock_count, try_lock_count,
  unlock_count, Reaches, here, next,
}

-- The count is the number of threads that have called `lock` and not yet `unlock`. While it is not
-- 0, the right to the lock is in one place: with a thread that holds it, with one about to call
-- `unblock`, or in an `unblock` that woke nobody, whose passes the kernel's count has counted.
pub record IsSound (n : ℕ) (s : System) : Type 0 where
  pub passes : ℕ
  pub total : s.outside + s.wants + s.parking + s.sleeping + s.holding + s.releasing ≡ n
  pub counted : s.count ≡ s.wants + s.parking + s.sleeping + s.holding
  pub waited : s.futex.wait_count ≡ (s.parking + s.sleeping + word_mod - passes) % word_mod
  pub owned : s.holding + s.releasing + passes ≡ min 1 s.count

pub if-elim {ℓ} :
    {A : Type 0}
    → (P : A → Type ℓ) (b : Bool) (x y : A) → (b ≡ true → P x)
    → (b ≡ false → P y)
    → P (if b then x else y)
if-elim P true x y f g = f refl
if-elim P false x y f g = g refl

pub ltb-false : (a b : ℕ) → ltb a b ≡ false → b ≤ a
ltb-false a b h = ground arith

-- a step that is possible when a thread is there
pub guarded :
    (P : System → Type 0) (g : ℕ) (s' r : System)
    → (0 < g → P r)
    → (if ltb 0 g then some r else none) ≡ some s'
    → P s'
guarded P g s' r f e = elim (Bool-cases (ltb 0 g)) [
  | inl t ↦
      subst P (some_inj r s' (sym (ap (λ b. if b then some r else none) t) ∙ e)) (f (ltb→lt 0 g t))
  | inr t ↦ absurd (none_ne s' (sym (ap (λ b. if b then some r else none) t) ∙ e))
]

module _ (n : ℕ) (small : n < 2 ^ 63) where
  lock-IsSound : (s : System) → 0 < s.outside → IsSound n s → IsSound n (lock_step s)
  unfolding lock_step lock_count
  lock-IsSound s h i =
      if-elim (IsSound n) (ltb 0 s.count)
        (record s { count = wadd s.count 1; outside = s.outside - 1; wants = s.wants + 1 })
        (record s { count = wadd s.count 1; outside = s.outside - 1; holding = s.holding + 1 })
        (λ e. record {
          passes = i.passes;
          total = omega (arith, i.total);
          counted = omega (arith, i.counted, i.total);
          waited = i.waited;
          owned = omega (arith, i.owned, i.counted, i.total, ltb→lt 0 s.count e);
        })
        (λ e. record {
          passes = i.passes;
          total = omega (arith, i.total);
          counted = omega (arith, i.counted, i.total);
          waited = i.waited;
          owned = omega (arith, i.owned, i.counted, i.total, ltb-false 0 s.count e);
        })

  eq-zero : (a : ℕ) → (a == 0) ≡ true → a ≡ 0
  eq-zero a h = ground arith

  try_lock_step-free :
      (s : System)
      → (s.count == 0) ≡ true
      → try_lock_step s
        ≡ record s { count = s.count + 1; outside = s.outside - 1; holding = s.holding + 1 }
  unfolding try_lock_step try_lock_count
  try_lock_step-free s e = rw (e, try_lock_step, try_lock_count) refl

  try_lock_step-taken : (s : System) → (s.count == 0) ≡ false → try_lock_step s ≡ s
  unfolding try_lock_step try_lock_count
  try_lock_step-taken s e = rw (e, try_lock_step, try_lock_count) refl

  try_lock-IsSound : (s : System) → 0 < s.outside → IsSound n s → IsSound n (try_lock_step s)
  try_lock-IsSound s h i = elim (Bool-cases (s.count == 0)) [
    | inl e ↦ subst (IsSound n) (sym (try_lock_step-free s e)) (record {
      passes = i.passes;
      total = omega (arith, i.total);
      counted = omega (arith, i.counted, i.total);
      waited = i.waited;
      owned = omega (arith, i.owned, i.counted, i.total, eq-zero s.count e);
    })
    | inr e ↦ subst (IsSound n) (sym (try_lock_step-taken s e)) i
  ]

  block-IsSound : (s : System) → 0 < s.wants → IsSound n s → IsSound n (block_step s)
  unfolding block_step count_waiter
  block-IsSound s h i =
      let k = record s.futex { wait_count = wadd s.futex.wait_count 1 } in
      if-elim (IsSound n) (ltb s.futex.wait_count (2 ^ 63))
        (record s { futex = k; wants = s.wants - 1; parking = s.parking + 1 })
        (record s { futex = k; wants = s.wants - 1; holding = s.holding + 1 })
        (λ e. record {
          passes = i.passes;
          total = omega (arith, i.total);
          counted = omega (arith, i.counted, i.total);
          waited = omega (arith, i.waited, i.total, i.owned);
          owned = i.owned;
        })
        (λ e. record {
          passes = i.passes - 1;
          total = omega (arith, i.total);
          counted = omega (arith, i.counted, i.total);
          waited =
              omega (arith, i.waited, i.total, i.owned, ltb-false s.futex.wait_count (2 ^ 63) e);
          owned = omega (
            arith,
            i.waited,
            i.total,
            i.owned,
            i.counted,
            ltb-false s.futex.wait_count (2 ^ 63) e,
          );
        })

  park-IsSound : (s : System) → 0 < s.parking → IsSound n s → IsSound n (park_step s)
  unfolding park_step
  park-IsSound s h i = record {
    passes = i.passes;
    total = omega (arith, i.total);
    counted = omega (arith, i.counted);
    waited = omega (arith, i.waited);
    owned = i.owned;
  }

  unlock-IsSound : (s : System) → 0 < s.holding → IsSound n s → IsSound n (unlock_step s)
  unfolding unlock_step unlock_count
  unlock-IsSound s h i =
      let c = wsub s.count 1 in
      if-elim (IsSound n) (ltb 1 s.count)
        (record s { count = c; holding = s.holding - 1; releasing = s.releasing + 1 })
        (record s { count = c; holding = s.holding - 1; outside = s.outside + 1 })
        (λ e. record {
          passes = i.passes;
          total = omega (arith, i.total);
          counted = omega (arith, i.counted, i.total);
          waited = i.waited;
          owned = omega (arith, i.owned, i.counted, i.total, ltb→lt 1 s.count e);
        })
        (λ e. record {
          passes = i.passes;
          total = omega (arith, i.total);
          counted = omega (arith, i.counted, i.total);
          waited = i.waited;
          owned = omega (arith, i.owned, i.counted, i.total, ltb-false 1 s.count e);
        })

  unblock-IsSound : (s : System) → 0 < s.releasing → IsSound n s → IsSound n (unblock_step s)
  unfolding unblock_step
  unblock-IsSound s h i = record {
    passes = i.passes + (1 - min 1 s.sleeping);
    total = omega (arith, i.total);
    counted = omega (arith, i.counted, i.total);
    waited = omega (arith, i.waited, i.total, i.owned);
    owned = omega (arith, i.owned);
  }

  step-IsSound : (a : Action) (s s' : System) → step a s ≡ some s' → IsSound n s → IsSound n s'
  unfolding step
  step-IsSound lock s s' e i =
      guarded (IsSound n) s.outside s' (lock_step s) (λ h. lock-IsSound s h i) e
  step-IsSound try_lock s s' e i =
      guarded (IsSound n) s.outside s' (try_lock_step s) (λ h. try_lock-IsSound s h i) e
  step-IsSound block s s' e i =
      guarded (IsSound n) s.wants s' (block_step s) (λ h. block-IsSound s h i) e
  step-IsSound park s s' e i =
      guarded (IsSound n) s.parking s' (park_step s) (λ h. park-IsSound s h i) e
  step-IsSound unlock s s' e i =
      guarded (IsSound n) s.holding s' (unlock_step s) (λ h. unlock-IsSound s h i) e
  step-IsSound unblock s s' e i =
      guarded (IsSound n) s.releasing s' (unblock_step s) (λ h. unblock-IsSound s h i) e

  initial-IsSound : IsSound n (initial n)
  initial-IsSound = record {
    passes = 0;
    total = omega arith;
    counted = refl;
    waited = refl;
    owned = refl;
  }

  -- Every state that fewer than 2 ^ 63 threads reach, in whatever order their steps come, is sound.
  pub reaches-IsSound : (s : System) → Reaches (initial n) s → IsSound n s
  reaches-IsSound s here = initial-IsSound
  reaches-IsSound s (next {s = s₀} a r e) = step-IsSound a s₀ s e (reaches-IsSound s₀ r)

  -- Fewer than 2 ^ 63 threads that lock and unlock, in whatever order their steps come, never hold
  -- the lock together: at most one thread holds it or is about to wake the next one, and none does
  -- while the count is 0. The count is the number of threads that wait for the lock or hold it.
  pub mutual_exclusion :
      (s : System)
      → Reaches (initial n) s
      → (s.holding + s.releasing ≤ min 1 s.count)
        × (s.count ≡ s.wants + s.parking + s.sleeping + s.holding)
  mutual_exclusion s r = let i = reaches-IsSound s r in (omega (arith, i.owned), i.counted)
