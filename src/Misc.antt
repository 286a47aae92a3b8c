-- ===== src/Misc.antt =====
-- libutil/src/misc.rs: alignment, logarithms and bit fields of a `usize`. The inline assembly
-- (`bsf`, `bsr`) is read as the index of the lowest and of the highest set bit of a nonzero word.
pub mod Align
pub mod Log
pub mod Fields
mod Tests
use aurora_os_old.Prelude.{
  ℕ, zero, suc, ◌+◌, ◌-◌, ◌*◌, ◌/◌, ◌%◌, ◌^◌, bit_and, Bool, true, false, ◌||◌, Option, none, some,
  ◌==◌, ltb, leb, if◌then◌else◌, word_mod, wadd, wsub, wshl, wshr, wnot,
}

abbrev pub page_size : ℕ
page_size = 4096

unfoldable pub align_up : ℕ → ℕ → ℕ
align_up addr align = bit_and (wsub (wadd addr align) 1) (wnot (wsub align 1))

unfoldable pub align_down : ℕ → ℕ → ℕ
align_down addr align = bit_and addr (wnot (wsub align 1))

-- the index of the lowest set bit, looked for in `f` bits
unfoldable pub bsf : (f n : ℕ) → ℕ
bsf zero n = 0
bsf (suc f) n = if n % 2 == 1 then 0 else bsf f (n / 2) + 1

unfoldable pub align_of : ℕ → ℕ
align_of addr = if addr == 0 then wshl 1 63 else wshl 1 (bsf 64 addr)

unfoldable pub page_aligned : ℕ → Bool
page_aligned addr = leb page_size (align_of addr)

-- `get_bits(n, start..end)`
unfoldable pub get_bits : (n start end : ℕ) → ℕ
get_bits n start end =
    let l = if ltb 63 start then 63 else start in
    let h = if ltb 64 end then 63 else end - 1 in
    let temp = if h == 63 then word_mod - 1 else wsub (wshl 1 (h + 1)) 1 in
    if end == 0 then 0 else if ltb h l then 0 else wshr (bit_and temp n) l

unfoldable pub get_bits_raw : (n start end : ℕ) → ℕ
get_bits_raw n start end =
    let l = if ltb 63 start then 63 else start in
    let h = if ltb 63 end then 63 else end in
    let temp = if h == 63 then word_mod - 1 else wsub (wshl 1 (h + 1)) 1 in
    if leb h l then 0 else wshl (wshr (bit_and temp n) l) l

-- the index of the highest set bit, looked for in `f` bits
unfoldable pub bsr : (f n : ℕ) → ℕ
bsr zero n = 0
bsr (suc f) n = if n / 2 == 0 then 0 else bsr f (n / 2) + 1

unfoldable pub log2 : ℕ → ℕ
log2 n = if n == 0 then 0 else bsr 64 n

unfoldable pub log2_up : ℕ → ℕ
log2_up n = if n == 1 then 1 else log2 (align_up n (wshl 1 (log2 n)))

-- The `while` of `log2_const` on fuel; `none` means that the fuel ran out.
unfoldable pub log2_const_loop : (f n out : ℕ) → Option ℕ
log2_const_loop zero n out = none
log2_const_loop (suc f) n out =
    let rest = log2_const_loop f n (out + 1) in if ltb 0 (get_bits n out 64) then rest else some out

unfoldable pub log2_const : (f n : ℕ) → Option ℕ
log2_const f n =
    if n == 0
    then some 0
    else elim (log2_const_loop f n 0) [ none ↦ none | some out ↦ some (wsub out 1) ]
