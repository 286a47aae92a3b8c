-- ===== src/Misc/Log.antt =====
-- `log2`, `log2_up` and `log2_const` of libutil/src/misc.rs.
use aurora_os_old.Prelude.{
  ℕ, zero, suc, ◌+◌, ◌-◌, ◌*◌, ◌/◌, ◌^◌, ◌≤◌, ◌<◌, ◌≡◌, refl, sym, ◌∙◌, ap, arith, inl, inr, ◌==◌,
  false, Bool-cases, word_mod,
}
use aurora_os_old.Prelude.Bits.{pow_pos, pow_double}
use native.Mathlib.Numerals.{add-one}
use native.Mathlib.Decide.{dec_lt}
use native.Mathlib.Nat.{pow-le-pow_right, le_refl, div-eq_of_lt-le}
use aurora_os_old.Misc.{bsr, log2, log2_up}
use aurora_os_old.Misc.Align.{align_up_lem, pow-lt_word, wshl-one}

bsr_lem : (f n : ℕ) → 0 < n → n < 2 ^ f → (bsr f n < f) × (2 ^ bsr f n ≤ n) × (n < 2 * 2 ^ bsr f n)
unfolding bsr
bsr_lem zero n pos bound = absurd (omega arith)
bsr_lem (suc f) n pos bound = elim (Bool-cases (n / 2 == 0)) [
  | inl last ↦ rw last (ground arith)
  | inr more ↦
      let ih = bsr_lem f (n / 2) (ground arith) (omega (arith, pow_double f)) in
      rw (more, add-one (bsr f (n / 2)), pow_double (bsr f (n / 2))) (omega (arith, ih))
]

-- Of a nonzero word, `log2` is the logarithm rounded down.
pub log2_bounds :
    (n : ℕ) → 0 < n → n < word_mod → (log2 n < 64) × (2 ^ log2 n ≤ n) × (n < 2 * 2 ^ log2 n)
unfolding log2
log2_bounds n pos bound = ground (arith, bsr_lem 64 n pos bound)

-- There is only one such number.
log2_unique : (n a b : ℕ) → 2 ^ a ≤ n → n < 2 * 2 ^ a → 2 ^ b ≤ n → n < 2 * 2 ^ b → a < b → ⊥
log2_unique n a b la ha lb hb lt =
    omega (arith, pow_double a, pow-le-pow_right {n = 2} (omega arith) lt)

pub log2-eq : (n a : ℕ) → n < word_mod → 2 ^ a ≤ n → n < 2 * 2 ^ a → log2 n ≡ a
log2-eq n a bound lo hi =
    let l = log2_bounds n (omega (arith, pow_pos a)) bound in
    elim (dec_lt (log2 n) a) [
      | yes p ↦ absurd (log2_unique n (log2 n) a l.1 l.2 lo hi p)
      | no p ↦ elim (dec_lt a (log2 n)) [
        | yes q ↦ absurd (log2_unique n a (log2 n) lo hi l.1 l.2 q)
        | no q ↦ omega arith
      ]
    ]

-- A word that is not a power of two is rounded to the next one.
round_up : (n p : ℕ) → 0 < p → p < n → n < 2 * p → (n + (p - 1)) / p * p ≡ 2 * p
round_up n p pos lo hi =
    rw (div-eq_of_lt-le {k = 2} p {m = n + (p - 1)} (omega arith) (omega arith)) refl

round_self : (p : ℕ) → 0 < p → (p + (p - 1)) / p * p ≡ p
round_self p pos =
    rw (div-eq_of_lt-le {k = 1} p {m = p + (p - 1)} (omega arith) (omega arith)) (omega arith)

pub lt_of_pow-lt : (a b : ℕ) → 2 ^ a < 2 ^ b → a < b
lt_of_pow-lt a b h = elim (dec_lt a b) [
  | yes p ↦ p
  | no p ↦
      absurd (omega (arith, pow-le-pow_right {n = 2} (omega arith) {i = b} {j = a} (omega arith)))
]

log2_up_opened :
    (n : ℕ)
    → 1 < n
    → n ≤ 2 ^ 63
    → log2_up n ≡ log2 ((n + (2 ^ log2 n - 1)) / 2 ^ log2 n * 2 ^ log2 n)
unfolding log2_up
log2_up_opened n lo hi =
    let l = log2_bounds n (omega arith) (omega arith) in
    let other : (n == 1) ≡ false = ground arith in
    rw
      (
        other,
        wshl-one (log2 n) l.0,
        align_up_lem (log2 n) n l.0 (omega (arith, l, pow-lt_word (log2 n) l.0)),
      )
      refl

-- For a word above 1 and at most 2 ^ 63, `log2_up` is the logarithm rounded up: `2 ^ log2_up n` is
-- the least power of two that is not below `n`.
pub log2_up_bounds :
    (n : ℕ) → 1 < n → n ≤ 2 ^ 63 → (log2_up n < 64) × (n ≤ 2 ^ log2_up n) × (2 ^ log2_up n < 2 * n)
log2_up_bounds n lo hi =
    let l = log2_bounds n (omega arith) (omega arith) in
    let p = 2 ^ log2 n in
    elim (dec_lt p n) [
      | no exact ↦
          let e : p ≡ n = omega (arith, l) in
          let same : log2_up n ≡ log2 n =
            log2_up_opened n lo hi ∙ ap log2 (rw e (round_self n (omega arith))) in
          rw same (omega (arith, l))
      | yes above ↦
          let big : (n + (p - 1)) / p * p ≡ 2 ^ suc (log2 n) =
            round_up n p (pow_pos (log2 n)) above l.2 ∙ sym (pow_double (log2 n)) in
          let small : log2 n < 63 = lt_of_pow-lt (log2 n) 63 (omega arith) in
          let next : log2_up n ≡ suc (log2 n) =
            log2_up_opened n lo hi
            ∙ ap log2 big
            ∙ log2-eq (2 ^ suc (log2 n)) (suc (log2 n))
                (omega
                  (arith, pow-le-pow_right {n = 2} (omega arith) {i = suc (log2 n)} {j = 63} small))
                (le_refl _) (omega (arith, pow_pos (suc (log2 n)))) in
          rw next (
            omega arith,
            omega (arith, l, pow_double (log2 n)),
            omega (arith, above, pow_double (log2 n)),
          )
    ]
