-- ===== src/Prelude/Word.antt =====
-- `usize` as a native number below 2 ^ 64. A release build wraps, so the wrap is written out.
use Prim.Native.Nat.{ℕ, ◌+◌, ◌-◌, ◌*◌, ◌/◌, ◌%◌, ◌^◌}

abbrev pub word_mod : ℕ
word_mod = 2 ^ 64

abbrev pub wadd : ℕ → ℕ → ℕ
wadd a b = (a + b) % word_mod

abbrev pub wsub : ℕ → ℕ → ℕ
wsub a b = (a + word_mod - b) % word_mod

-- `a << k`, whose shift count is taken modulo 64
abbrev pub wshl : ℕ → ℕ → ℕ
wshl a k = a * 2 ^ (k % 64) % word_mod

-- `a.wrapping_shr(k)`, and `a >> k`
abbrev pub wshr : ℕ → ℕ → ℕ
wshr a k = a / 2 ^ (k % 64)

-- `!a`
abbrev pub wnot : ℕ → ℕ
wnot a = word_mod - 1 - a
