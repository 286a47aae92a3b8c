-- ===== src/RwFutex/Exclusion.antt =====
-- Mutual exclusion of readers and writers, over every order of the steps of the threads.
use aurora_os_old.Prelude.{
  ℕ, ◌+◌, ◌-◌, ◌*◌, ◌^◌, ◌≤◌, ◌<◌, ◌≡◌, refl, sym, ◌∙◌, ap, true, false, none, some, ltb, ltb→lt,
  ◌==◌, if◌then◌else◌, word_mod, arith, Bool-cases, none_ne, some_inj, inl, inr,
}
use mathlib.Core.Path.{subst}
use aurora_os_old.RwFutex.{
  RwSystem, initial, RwAction, try_read, read, try_write, write, wake, drop_read, drop_write,
  try_read_count, try_write_count, sleep_step, read_step, write_step, wake_step, drop_read_step,
  drop_write_step, rw_step, RwReaches, rw_here, rw_next,
}

-- The count is the number of readers, or -1 while there is a writer.
pub record IsExclusive (n : ℕ) (s : RwSystem) : Type 0 where
  pub total : s.outside + s.asleep + s.readers + s.writers ≡ n
  pub single : s.writers ≤ 1
  pub alone : s.readers * s.writers ≡ 0
  pub counted : s.count ≡ s.readers + s.writers * (word_mod - 1)

ltb-false : (a b : ℕ) → ltb a b ≡ false → b ≤ a
ltb-false a b h = ground arith

==-eq : (a : ℕ) → (a == 0) ≡ true → a ≡ 0
==-eq a h = ground arith

guarded :
    (P : RwSystem → Type 0) (g : ℕ) (s' r : RwSystem)
    → (0 < g → P r)
    → (if ltb 0 g then some r else none) ≡ some s'
    → P s'
guarded P g s' r f e = elim (Bool-cases (ltb 0 g)) [
  | inl t ↦
      subst P (some_inj r s' (sym (ap (λ b. if b then some r else none) t) ∙ e)) (f (ltb→lt 0 g t))
  | inr t ↦ absurd (none_ne s' (sym (ap (λ b. if b then some r else none) t) ∙ e))
]

module _ (n : ℕ) (small : n < 2 ^ 63) where
  sleep-IsExclusive :
      (s : RwSystem) → 0 < s.outside → IsExclusive n s → IsExclusive n (sleep_step s)
  unfolding sleep_step
  sleep-IsExclusive s h i = record {
    total = omega (arith, i.total);
    single = i.single;
    alone = i.alone;
    counted = i.counted;
  }

  read-IsExclusive :
      (s f : RwSystem)
      → 0 < s.outside
      → IsExclusive n s
      → IsExclusive n f
      → IsExclusive n (read_step s f)
  unfolding read_step try_read_count
  read-IsExclusive s f h i j = elim (Bool-cases (ltb s.count (2 ^ 63))) [
    | inl e ↦
        let none_writes : s.writers ≡ 0 =
          omega (arith, i.counted, i.single, ltb→lt s.count (2 ^ 63) e) in
        rw (e, read_step, try_read_count)
          (record {
            total = omega (arith, i.total);
            single = i.single;
            alone = rw none_writes (omega arith);
            counted = omega (arith, i.counted, i.total, none_writes);
          })
    | inr e ↦ rw (e, read_step, try_read_count) j
  ]

  write-IsExclusive :
      (s f : RwSystem)
      → 0 < s.outside
      → IsExclusive n s
      → IsExclusive n f
      → IsExclusive n (write_step s f)
  unfolding write_step try_write_count
  write-IsExclusive s f h i j = elim (Bool-cases (s.count == 0)) [
    | inl e ↦
        let zero_count = ==-eq s.count e in
        let none_reads : s.readers ≡ 0 = omega (arith, i.counted, zero_count) in
        let none_writes : s.writers ≡ 0 = omega (arith, i.counted, i.single, zero_count) in
        rw (e, write_step, try_write_count)
          (record {
            total = omega (arith, i.total);
            single = omega (arith, none_writes);
            alone = rw none_reads (omega arith);
            counted = omega (arith, none_reads, none_writes);
          })
    | inr e ↦ rw (e, write_step, try_write_count) j
  ]

  wake-IsExclusive : (s : RwSystem) → 0 < s.asleep → IsExclusive n s → IsExclusive n (wake_step s)
  unfolding wake_step
  wake-IsExclusive s h i = record {
    total = omega (arith, i.total);
    single = i.single;
    alone = i.alone;
    counted = i.counted;
  }

  no_writer : (a b : ℕ) → 0 < a → a * b ≡ 0 → b ≤ 1 → b ≡ 0
  no_writer a b h e small = grind (arith, h, e, small)

  drop_read-IsExclusive :
      (s : RwSystem) → 0 < s.readers → IsExclusive n s → IsExclusive n (drop_read_step s)
  unfolding drop_read_step
  drop_read-IsExclusive s h i =
      let none_writes : s.writers ≡ 0 = no_writer s.readers s.writers h i.alone i.single in
      record {
        total = omega (arith, i.total);
        single = i.single;
        alone = rw none_writes (omega arith);
        counted = omega (arith, i.counted, i.total, none_writes);
      }

  drop_write-IsExclusive :
      (s : RwSystem) → 0 < s.writers → IsExclusive n s → IsExclusive n (drop_write_step s)
  unfolding drop_write_step
  drop_write-IsExclusive s h i =
      let one_writes : s.writers ≡ 1 = omega (arith, i.single) in
      let none_reads : s.readers ≡ 0 =
        omega (arith, ap (λ (w : ℕ). s.readers * w) one_writes, i.alone) in
      record {
        total = omega (arith, i.total);
        single = omega (arith, i.single);
        alone = rw none_reads (omega arith);
        counted = omega (arith, none_reads, one_writes);
      }

  step-IsExclusive :
      (a : RwAction) (s s' : RwSystem) → rw_step a s ≡ some s' → IsExclusive n s → IsExclusive n s'
  unfolding rw_step
  step-IsExclusive try_read s s' e i =
      guarded (IsExclusive n) s.outside s' (read_step s s) (λ h. read-IsExclusive s s h i i) e
  step-IsExclusive read s s' e i =
      guarded (IsExclusive n) s.outside s' (read_step s (sleep_step s))
        (λ h. read-IsExclusive s (sleep_step s) h i (sleep-IsExclusive s h i)) e
  step-IsExclusive try_write s s' e i =
      guarded (IsExclusive n) s.outside s' (write_step s s) (λ h. write-IsExclusive s s h i i) e
  step-IsExclusive write s s' e i =
      guarded (IsExclusive n) s.outside s' (write_step s (sleep_step s))
        (λ h. write-IsExclusive s (sleep_step s) h i (sleep-IsExclusive s h i)) e
  step-IsExclusive wake s s' e i =
      guarded (IsExclusive n) s.asleep s' (wake_step s) (λ h. wake-IsExclusive s h i) e
  step-IsExclusive drop_read s s' e i =
      guarded (IsExclusive n) s.readers s' (drop_read_step s) (λ h. drop_read-IsExclusive s h i) e
  step-IsExclusive drop_write s s' e i =
      guarded (IsExclusive n) s.writers s' (drop_write_step s) (λ h. drop_write-IsExclusive s h i) e

  -- In every state that fewer than 2 ^ 63 threads reach with an `RWFutex`, in whatever order their
  -- steps come, there is at most one writer, no reader beside a writer, and the count is the number
  -- of readers, or -1 while there is a writer.
  pub reaches-IsExclusive : (s : RwSystem) → RwReaches (initial n) s → IsExclusive n s
  reaches-IsExclusive s rw_here = record {
    total = omega arith;
    single = omega arith;
    alone = refl;
    counted = refl;
  }
  reaches-IsExclusive s (rw_next {s = s₀} a r e) =
      step-IsExclusive a s₀ s e (reaches-IsExclusive s₀ r)
