-- ===== src/Misc/Align.antt =====
-- `align_up`, `align_down` and `align_of` of libutil/src/misc.rs.
use aurora_os_old.Prelude.{
  ℕ, zero, suc, ◌+◌, ◌-◌, ◌*◌, ◌/◌, ◌%◌, ◌^◌, ◌≤◌, ◌<◌, ◌≡◌, refl, arith, inl, inr, ◌==◌, false,
  Bool-cases, word_mod, wsub, wadd, wnot, wshl,
}
use aurora_os_old.Prelude.Bits.{pow_pos, pow_double, bit_and_high, mod-pow_suc, div-pow_suc}
use native.Mathlib.Numerals.{add-one}
use native.Mathlib.Nat.{pow-le-pow_right}
use aurora_os_old.Misc.{align_up, align_down, align_of, bsf}

pub pow-lt_word : (k : ℕ) → k < 64 → 2 * 2 ^ k ≤ word_mod
pow-lt_word k h = rw (← pow_double k) (pow-le-pow_right (omega arith) h)

pub wshl-one : (k : ℕ) → k < 64 → wshl 1 k ≡ 2 ^ k
wshl-one k h = let e : k % 64 ≡ k = omega arith in rw e (omega (arith, pow-lt_word k h, pow_pos k))

-- `!(align - 1)` at a power of two keeps the bits from `k` on.
mask_lem : (k : ℕ) → k < 64 → wnot (wsub (2 ^ k) 1) ≡ 2 ^ (k + (64 - k)) - 2 ^ k
mask_lem k h =
    let e : k + (64 - k) ≡ 64 = omega arith in rw e (omega (arith, pow_pos k, pow-lt_word k h))

-- For a power of two `2 ^ k`, `align_down` rounds an address down to a multiple of `2 ^ k`.
pub align_down_lem :
    (k addr : ℕ) → k < 64 → addr < word_mod → align_down addr (2 ^ k) ≡ addr / 2 ^ k * 2 ^ k
unfolding align_down
align_down_lem k addr h bound =
    let e : k + (64 - k) ≡ 64 = omega arith in
    rw (mask_lem k h, bit_and_high k (64 - k) addr (rw e bound)) refl

-- For a power of two `2 ^ k`, and where rounding up stays below 2 ^ 64, `align_up` rounds an
-- address up to a multiple of `2 ^ k`.
pub align_up_lem :
    (k addr : ℕ)
    → k < 64
    → addr + (2 ^ k - 1) < word_mod
    → align_up addr (2 ^ k) ≡ (addr + (2 ^ k - 1)) / 2 ^ k * 2 ^ k
unfolding align_up
align_up_lem k addr h bound =
    let e : k + (64 - k) ≡ 64 = omega arith in
    let sum : wsub (wadd addr (2 ^ k)) 1 ≡ addr + (2 ^ k - 1) =
      omega (arith, pow_pos k, pow-lt_word k h) in
    rw (sum, mask_lem k h, bit_and_high k (64 - k) (addr + (2 ^ k - 1)) (rw e bound)) refl

-- The index that `bsf` finds: below it every bit is clear, and its own bit is set.
bsf_lem :
    (f n : ℕ)
    → 0 < n
    → n < 2 ^ f
    → (bsf f n < f) × (n % 2 ^ bsf f n ≡ 0) × (n / 2 ^ bsf f n % 2 ≡ 1)
unfolding bsf
bsf_lem zero n pos bound = absurd (omega arith)
bsf_lem (suc f) n pos bound = elim (Bool-cases (n % 2 == 1)) [
  | inl odd ↦ rw odd (omega arith, omega arith, ground arith)
  | inr even ↦
      let e : n % 2 ≡ 0 = ground arith in
      let ih = bsf_lem f (n / 2) (omega arith) (omega (arith, pow_double f)) in
      rw
        (
          even,
          add-one (bsf f (n / 2)),
          div-pow_suc n (bsf f (n / 2)),
          mod-pow_suc n (bsf f (n / 2)),
        )
        (omega (arith, ih.0), omega (arith, ih.1), ih.2)
]

-- Of a nonzero word, `align_of` is a power of two that divides it, and its double does not.
pub align_of_lem :
    (addr : ℕ)
    → 0 < addr
    → addr < word_mod
    → (k : ℕ) × (k < 64) × (align_of addr ≡ 2 ^ k) × (addr % 2 ^ k ≡ 0) × (addr / 2 ^ k % 2 ≡ 1)
unfolding align_of
align_of_lem addr pos bound =
    let b = bsf_lem 64 addr pos bound in
    let other : (addr == 0) ≡ false = ground arith in
    (bsf 64 addr, b.0, rw (other, wshl-one (bsf 64 addr) b.0) refl, b.1, b.2)
