-- ===== src/Mem/PageTake.antt =====
-- The largest page at the start of a range, which `get_take_size` and `take` of kernel/src/mem/mod.rs
-- find.
use aurora_os_old.Prelude.{
  ℕ, zero, suc, ◌/◌, ◌%◌, ◌^◌, ◌≤◌, ◌<◌, ◌≡◌, ◌≢◌, ◌↔◌, sym, ap, ◌∙◌, none, some, arith, word_mod,
  min,
}
use aurora_os_old.Prelude.Bits.{pow_pos, pow_double, mod-pow_suc, div-pow_suc}
use native.Mathlib.Decide.{dec_lt}
use native.Mathlib.Nat.{pow-le-pow_right}
use aurora_os_old.Misc.{align_of}
use aurora_os_old.Misc.Align.{align_of_lem}
use aurora_os_old.Mem.{
  PageSize, k4, m2, g1, bytes, align_down_to_page_size, try_from_usize, Range, get_take_size,
}

align_of-zero : (j : ℕ) → j < 63 → 2 ^ j ≤ align_of 0
unfolding align_of
align_of-zero j h = pow-le-pow_right {n = 2} (omega arith) {i = j} {j = 63} (omega arith)

mod-pow_zero : (j k a : ℕ) → j ≤ k → a % 2 ^ k ≡ 0 → a % 2 ^ j ≡ 0
mod-pow_zero zero k a h e = omega arith
mod-pow_zero (suc j) zero a h e = absurd (omega arith)
mod-pow_zero (suc j) (suc k) a h e =
    let ih = mod-pow_zero j k (a / 2) (omega arith) (omega (arith, e, mod-pow_suc a k)) in
    omega (arith, ih, e, mod-pow_suc a k, mod-pow_suc a j)

mod-pow_odd : (k a : ℕ) → a / 2 ^ k % 2 ≡ 1 → a % 2 ^ suc k ≢ 0
mod-pow_odd zero a h e = omega arith
mod-pow_odd (suc k) a h e =
    mod-pow_odd k (a / 2) (rw (← div-pow_suc a k) h) (omega (arith, e, mod-pow_suc a (suc k)))

-- A power of two below 2 ^ 63 is at most `align_of` of an address exactly when it divides the
-- address.
align_of-le :
    (j addr : ℕ)
    → j < 63
    → addr < word_mod
    → (addr % 2 ^ j ≡ 0 → 2 ^ j ≤ align_of addr) × (2 ^ j ≤ align_of addr → addr % 2 ^ j ≡ 0)
align_of-le j zero top bound = (λ _. align_of-zero j top, λ _. omega (arith, pow_pos j))
align_of-le j (suc a) top bound =
    let addr = suc a in
    let (k, small, e, low, odd) = align_of_lem addr (omega arith) bound in
    elim (dec_lt k j) [
      | no h ↦ (
        λ _. rw e (pow-le-pow_right (omega arith) (omega arith)),
        λ _. mod-pow_zero j k addr (omega arith) low,
      )
      | yes h ↦
          let less : 2 ^ suc k ≤ 2 ^ j = pow-le-pow_right (omega arith) h in
          (
            λ d. absurd (mod-pow_odd k addr odd (mod-pow_zero (suc k) j addr h d)),
            λ le. absurd (omega (arith, le, e, less, pow_double k, pow_pos k)),
          )
    ]

-- A page of the size `p` is at the start of the range.
abbrev pub Fits : Range → PageSize → Type 0
Fits r p = (bytes p ≤ r.size) × (r.addr % bytes p ≡ 0)

abbrev pub Room : ℕ → PageSize → Type 0
Room n p = bytes p ≤ n

-- The value is the bytes of the largest page in `n`.
largest : (n : ℕ) (p : PageSize) → try_from_usize (align_down_to_page_size n) ≡ some p → Room n p
unfolding align_down_to_page_size try_from_usize
largest n k4 e = ground arith
largest n m2 e = ground arith
largest n g1 e = ground arith

largest_max :
    (n : ℕ) (p q : PageSize)
    → try_from_usize (align_down_to_page_size n) ≡ some p
    → Room n q
    → bytes q ≤ bytes p
unfolding align_down_to_page_size try_from_usize
largest_max n k4 k4 e f = ground arith
largest_max n k4 m2 e f = ground arith
largest_max n k4 g1 e f = ground arith
largest_max n m2 k4 e f = ground arith
largest_max n m2 m2 e f = ground arith
largest_max n m2 g1 e f = ground arith
largest_max n g1 q e f = ground arith

largest_eq :
    (n : ℕ) (p : PageSize)
    → Room n p
    → ((q : PageSize) → Room n q → bytes q ≤ bytes p)
    → try_from_usize (align_down_to_page_size n) ≡ some p
unfolding align_down_to_page_size try_from_usize
largest_eq n k4 f g = let a = g m2 in let b = g g1 in ground arith
largest_eq n m2 f g = let b = g g1 in ground arith
largest_eq n g1 f g = ground arith

down-min :
    (a b : ℕ)
    → min (align_down_to_page_size a) (align_down_to_page_size b)
      ≡ align_down_to_page_size (min a b)
unfolding align_down_to_page_size
down-min a b = ground arith

-- room in the bytes of the range and in the alignment of its address
fits_lem :
    (r : Range) (p : PageSize)
    → r.addr < word_mod
    → (Fits r p → Room (min r.size (align_of r.addr)) p)
      × (Room (min r.size (align_of r.addr)) p → Fits r p)
fits_lem r k4 bound = let a = align_of-le 12 r.addr (omega arith) bound in ground (arith, a.0, a.1)
fits_lem r m2 bound = let a = align_of-le 21 r.addr (omega arith) bound in ground (arith, a.0, a.1)
fits_lem r g1 bound = let a = align_of-le 30 r.addr (omega arith) bound in ground (arith, a.0, a.1)

Room-none :
    (n : ℕ) (p : PageSize) → Room n p → try_from_usize (align_down_to_page_size n) ≡ none → ⊥
unfolding align_down_to_page_size try_from_usize
Room-none n k4 h e = ground arith
Room-none n m2 h e = ground arith
Room-none n g1 h e = ground arith

-- For an address below 2 ^ 64, `get_take_size` answers `p` exactly when a page of the size `p` is at
-- the start of the range and no larger page is.
pub get_take_size_lem :
    (r : Range) (p : PageSize)
    → r.addr < word_mod
    → (get_take_size r ≡ some p) ↔ (Fits r p × ((q : PageSize) → Fits r q → bytes q ≤ bytes p))
unfolding get_take_size
get_take_size_lem r p bound =
    let n = min r.size (align_of r.addr) in
    let same = ap (λ n. try_from_usize n) (down-min r.size (align_of r.addr)) in
    (
      λ e.
          let e' : try_from_usize (align_down_to_page_size n) ≡ some p = sym same ∙ e in
          (
            (fits_lem r p bound).1 (largest n p e'),
            λ q f. largest_max n p q e' ((fits_lem r q bound).0 f),
          ),
      λ (f, g).
          same
          ∙ largest_eq n p ((fits_lem r p bound).0 f) (λ q room. g q ((fits_lem r q bound).1 room)),
    )

-- A range that a page fits in has a page to take.
pub get_take_size-none :
    (r : Range) (p : PageSize) → r.addr < word_mod → Fits r p → get_take_size r ≢ none
unfolding get_take_size
get_take_size-none r p bound f e =
    Room-none (min r.size (align_of r.addr)) p ((fits_lem r p bound).0 f)
      (sym (ap (λ n. try_from_usize n) (down-min r.size (align_of r.addr))) ∙ e)

-- A page that fits has room for every smaller page.
pub Fits-smaller : (r : Range) (p q : PageSize) → Fits r p → bytes q ≤ bytes p → Fits r q
Fits-smaller r k4 k4 f h = f
Fits-smaller r k4 m2 f h = absurd (omega arith)
Fits-smaller r k4 g1 f h = absurd (omega arith)
Fits-smaller r m2 k4 f h = (omega (arith, f.0), omega (arith, f.1))
Fits-smaller r m2 m2 f h = f
Fits-smaller r m2 g1 f h = absurd (omega arith)
Fits-smaller r g1 k4 f h = (omega (arith, f.0), omega (arith, f.1))
Fits-smaller r g1 m2 f h = (omega (arith, f.0), omega (arith, f.1))
Fits-smaller r g1 g1 f h = f
