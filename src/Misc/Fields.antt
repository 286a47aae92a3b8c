-- ===== src/Misc/Fields.antt =====
-- `get_bits`, `get_bits_raw` and `log2_const` of libutil/src/misc.rs.
use aurora_os_old.Prelude.{
  ℕ, zero, suc, ◌+◌, ◌-◌, ◌*◌, ◌/◌, ◌%◌, ◌^◌, ◌≤◌, ◌<◌, bit_and, ◌≡◌, refl, ◌∙◌, arith, ◌==◌, true,
  false, word_mod, wsub, wshl, none, some, ltb, leb, if◌then◌else◌, lt→ltb,
}
use aurora_os_old.Prelude.Bits.{pow_pos, pow_double, bit_and_low, bit_and_comm}
use native.Mathlib.Numerals.{add-one}
use native.Mathlib.Decide.{dec_lt, ℕ_discrete}
use native.Mathlib.Nat.{
  pow-le-pow_right, mod-eq_of_lt, mod-le, div-mul-le_self, div-eq_of_lt, le-div_iff_mul-le,
}
use aurora_os_old.Misc.{log2, log2_const, log2_const_loop, get_bits, get_bits_raw}
use aurora_os_old.Misc.Align.{pow-lt_word, wshl-one}
use aurora_os_old.Misc.Log.{log2_bounds, lt_of_pow-lt}

-- the mask that `get_bits` computes for its highest bit `h`
abbrev mask_to : ℕ → ℕ
mask_to h = if h == 63 then word_mod - 1 else wsub (wshl 1 (h + 1)) 1

mask_to_lem : (h : ℕ) → h < 64 → mask_to h ≡ 2 ^ suc h - 1
mask_to_lem h lt = elim (ℕ_discrete h 63) [
  | yes e ↦ rw e refl
  | no ne ↦
      let other : (h == 63) ≡ false = ground arith in
      let small : suc h < 64 = omega arith in
      rw (other, add-one h, wshl-one (suc h) small)
        (omega (arith, pow_pos (suc h), pow-lt_word (suc h) small))
]

low_lem : (h n : ℕ) → h < 64 → bit_and (mask_to h) n ≡ n % 2 ^ suc h
low_lem h n lt = rw (mask_to_lem h lt, bit_and_comm (2 ^ suc h - 1) n) (bit_and_low (suc h) n)

-- For `start < end ≤ 64`, `get_bits` is the bits of `n` from `start` up to `end`, `end` excluded,
-- moved down to bit 0.
pub get_bits_lem :
    (n start end : ℕ) → start < end → end ≤ 64 → get_bits n start end ≡ n % 2 ^ end / 2 ^ start
unfolding get_bits
get_bits_lem n start zero lt le = absurd (omega arith)
get_bits_lem n start (suc h) lt le =
    let t1 : ltb 63 start ≡ false = ground arith in
    let t2 : ltb 64 (suc h) ≡ false = ground arith in
    let t3 : ltb h start ≡ false = ground arith in
    let t4 : suc h - 1 ≡ h = omega arith in
    let t5 : start % 64 ≡ start = omega arith in
    let t6 : (suc h == 0) ≡ false = ground arith in
    rw (t6, t1, t2, t4, t3, t5, low_lem h n (omega arith)) refl

-- For `start < end ≤ 63`, `get_bits_raw` keeps the bits of `n` from `start` to `end` where they
-- are, and bit `end` is kept too.
pub get_bits_raw_lem :
    (n start end : ℕ)
    → n < word_mod
    → start < end
    → end ≤ 63
    → get_bits_raw n start end ≡ n % 2 ^ suc end / 2 ^ start * 2 ^ start
unfolding get_bits_raw
get_bits_raw_lem n start end bound lt le =
    let t1 : ltb 63 start ≡ false = ground arith in
    let t2 : ltb 63 end ≡ false = ground arith in
    let t3 : leb end start ≡ false = ground arith in
    let t5 : start % 64 ≡ start = omega arith in
    rw (t1, t2, t3, t5, low_lem end n (omega arith))
      (mod-eq_of_lt
        (omega (arith, div-mul-le_self (n % 2 ^ suc end) (2 ^ start), mod-le n (2 ^ suc end))))

-- `get_bits(n, out..64)`, the test of the loop of `log2_const`
top_bits : (n out : ℕ) → n < word_mod → out < 64 → get_bits n out 64 ≡ n / 2 ^ out
top_bits n out bound lt = get_bits_lem n out 64 lt (omega arith) ∙ rw (mod-eq_of_lt bound) refl

div-pow_pos : (n out : ℕ) → 2 ^ out ≤ n → 0 < n / 2 ^ out
div-pow_pos n out h = (le-div_iff_mul-le (pow_pos out)).1 (omega arith)

loop_stops :
    (f n out : ℕ) → n < word_mod → out < 64 → n < 2 ^ out → log2_const_loop (suc f) n out ≡ some out
unfolding log2_const_loop
loop_stops f n out bound lt stop = rw (top_bits n out bound lt, div-eq_of_lt stop) refl

loop_goes :
    (f n out : ℕ)
    → n < word_mod
    → out < 64
    → 2 ^ out ≤ n
    → log2_const_loop (suc f) n out ≡ log2_const_loop f n (out + 1)
unfolding log2_const_loop
loop_goes f n out bound lt more =
    rw (top_bits n out bound lt, lt→ltb 0 (n / 2 ^ out) (div-pow_pos n out more)) refl

loop_lem :
    (f n out top : ℕ)
    → n < word_mod
    → top < 64
    → n < 2 ^ top
    → ((j : ℕ) → j < top → 2 ^ j ≤ n)
    → out ≤ top
    → top < out + f
    → log2_const_loop f n out ≡ some top
loop_lem zero n out top bound lt stop below le fuel = absurd (omega arith)
loop_lem (suc f) n out top bound lt stop below le fuel = elim (dec_lt out top) [
  | no end ↦ let e : out ≡ top = omega arith in rw e (loop_stops f n top bound lt stop)
  | yes more ↦
      loop_goes f n out bound (omega arith) (below out more)
      ∙ loop_lem f n (out + 1) top bound lt stop below (omega arith) (omega arith)
]

log2_const-pos : (n : ℕ) → n < 2 ^ 63 → 0 < n → log2_const_loop 64 n 0 ≡ some (suc (log2 n))
log2_const-pos n small pos =
    let l = log2_bounds n pos (omega arith) in
    let small_log : log2 n < 63 = lt_of_pow-lt (log2 n) 63 (omega (arith, l)) in
    let top : suc (log2 n) < 64 = omega arith in
    loop_lem 64 n 0 (suc (log2 n)) (omega arith) top (omega (arith, l, pow_double (log2 n)))
      (λ j h.
        omega (arith, l, pow-le-pow_right {n = 2} (omega arith) {i = j} {j = log2 n} (omega arith)))
      (omega arith) (omega arith)

-- Below 2 ^ 63 the loop of `log2_const` ends within 64 rounds, with the value that `log2` computes.
pub log2_const-log2 : (n : ℕ) → n < 2 ^ 63 → log2_const 64 n ≡ some (log2 n)
unfolding log2_const log2
log2_const-log2 n small = elim (ℕ_discrete n 0) [
  | yes e ↦ rw e refl
  | no ne ↦
      ground
        (arith, log2_const-pos n small (omega arith), log2_bounds n (omega arith) (omega arith))
]

past_end : (n out : ℕ) → 2 ^ 63 ≤ n → n < word_mod → 63 < out → 0 < get_bits n out 64
unfolding get_bits
past_end n out big bound h =
    let t : ltb 63 out ≡ true = ground arith in
    let whole : bit_and (word_mod - 1) n ≡ n =
      bit_and_comm (word_mod - 1) n ∙ bit_and_low 64 n ∙ mod-eq_of_lt bound in
    rw (t, whole) (omega arith)

bits_left : (n out : ℕ) → 2 ^ 63 ≤ n → n < word_mod → 0 < get_bits n out 64
bits_left n out big bound = elim (dec_lt 63 out) [
  | yes h ↦ past_end n out big bound h
  | no h ↦ rw (top_bits n out bound (omega arith)) (
      div-pow_pos n out
        (omega (arith, pow-le-pow_right {n = 2} (omega arith) {i = out} {j = 63} (omega arith))))
]

loop_never : (f n out : ℕ) → 2 ^ 63 ≤ n → n < word_mod → log2_const_loop f n out ≡ none
unfolding log2_const_loop
loop_never zero n out big bound = refl
loop_never (suc f) n out big bound =
    rw (lt→ltb 0 (get_bits n out 64) (bits_left n out big bound))
      (loop_never f n (out + 1) big bound)

-- From 2 ^ 63 on the loop of `log2_const` never ends: past bit 63 `get_bits` goes on reading bit 63.
pub log2_const_diverges : (f n : ℕ) → 2 ^ 63 ≤ n → n < word_mod → log2_const f n ≡ none
unfolding log2_const
log2_const_diverges f n big bound = ground (arith, loop_never f n 0 big bound)
