-- ===== src/VirtMap/Space/Find.antt =====
-- `find_range` of kernel/src/mem/virt_alloc.rs: the first gap between the zones, from the second page
-- of the address space on.
use aurora_os_old.Prelude.{
  ℕ, ◌+◌, ◌-◌, ◌*◌, ◌/◌, ◌%◌, ◌^◌, ◌≤◌, ◌<◌, ◌≡◌, refl, sym, ◌∙◌, inl, inr, Bool, true, Bool-cases,
  Option, none, some, some_inj, none_ne, Option-cases, ◌⊎◌, List, [], ◌∷◌, arith, word_mod, wsub,
  leb, lt→ltb, le→ltb,
}
use native.Mathlib.Decide.{dec_lt}
use aurora_os_old.Misc.{align_up}
use aurora_os_old.Misc.Align.{align_up_lem}
use aurora_os_old.Mem.{Range, end_addr, lower_end, new}
use aurora_os_old.Mem.Split.{IsPages}
use aurora_os_old.VirtMap.Space.{find_loop, find_range}
use aurora_os_old.VirtMap.Space.Zones.{Placed, Placed-Clear, Clear}

abbrev pub at : (addr size : ℕ) → Range
at addr size = record { addr = addr; size = size }

round_pages : (size : ℕ) → size % 4096 ≡ 0 → size + 4096 ≤ word_mod → align_up size 4096 ≡ size
round_pages size s h =
    let e : (size + (2 ^ 12 - 1)) / 2 ^ 12 * 2 ^ 12 ≡ size = omega (arith, s) in
    align_up_lem 12 size (omega arith) (omega arith) ∙ e

-- What `VirtAddr::new` does where it does not panic: it copies bit 47 to the bits above, so a number of
-- the lower half stays as it is, and from there on one stays as it is or gets the bits 48 to 63.
pub record IsVirtAddr (virt_addr : ℕ → Option ℕ) : Type 0 where
  pub lower : (a : ℕ) → a < lower_end → virt_addr a ≡ some a
  pub upper :
      (a v : ℕ) → lower_end ≤ a → virt_addr a ≡ some v → (v ≡ a) ⊎ (v ≡ a + 18446462598732840960)

-- what `find_range` makes of the address where it ends
abbrev range_at :
    (addr_down addr_up : ℕ → ℕ → ℕ) → (ℕ → Option ℕ) → (size l : ℕ) → Option (Option Range)
range_at addr_down addr_up virt_addr size l = elim (virt_addr l) [
  | none ↦ none
  | some v ↦ some (some (new addr_down addr_up v size))
]

-- `new` keeps whole pages as they are.
pub new_pages :
    (addr_down addr_up : ℕ → ℕ → ℕ) (l size : ℕ)
    → ((a : ℕ) → a % 4096 ≡ 0 → addr_down a 4096 ≡ a)
    → l % 4096 ≡ 0
    → size % 4096 ≡ 0
    → size + 4096 ≤ word_mod
    → new addr_down addr_up l size ≡ at l size
unfolding new
new_pages addr_down addr_up l size h a s small = rw (h l a, round_pages size s small) refl

module _ {V : Type 0} where
  -- `k` lies in the mappable space and overlaps no zone.
  pub record IsFree (hi : ℕ) (k : Range) (m : List (Range × V)) : Type 0 where
    pub low : 4096 ≤ k.addr
    pub high : end_addr k ≤ hi
    pub clear : Clear k m

  -- An answer of `find_range`: a range that begins below `lower_end` is free, of that size, and none
  -- lies lower; none where no range is free; and there is one where one is free below `lower_end`.
  pub record IsLowest (hi size : ℕ) (m : List (Range × V)) (answer : Option (Option Range))
      : Type 0 where
    pub pages :
        (r : Range) → answer ≡ some (some r) → r.addr < lower_end → IsPages r × (r.size ≡ size)
    pub free : (r : Range) → answer ≡ some (some r) → r.addr < lower_end → IsFree hi r m
    pub lowest :
        (r k : Range)
        → answer ≡ some (some r)
        → r.addr < lower_end
        → k.size ≡ size
        → IsFree hi k m
        → r.addr ≤ k.addr
    pub refused : (k : Range) → answer ≡ some none → k.size ≡ size → IsFree hi k m → ⊥
    pub answered :
        (k : Range)
        → k.size ≡ size
        → IsFree hi k m
        → k.addr < lower_end
        → (r : Range) × (answer ≡ some (some r)) × (r.addr ≤ k.addr)

  -- Where the loop of `find_range` ends
  record IsGap (hi size laddr : ℕ) (m : List (Range × V)) (found : Bool) (l : ℕ) : Type 0 where
    above : laddr ≤ l
    whole : l % 4096 ≡ 0
    below : l ≤ hi
    room : found ≡ true → l + size ≤ hi
    clear : Clear (at l size) m
    least : (k : Range) → k.size ≡ size → laddr ≤ k.addr → Clear k m → l ≤ k.addr

  find_loop-IsGap :
      (hi size laddr : ℕ) (m : List (Range × V))
      → laddr % 4096 ≡ 0
      → laddr ≤ hi
      → hi < word_mod
      → Placed laddr hi m
      → IsGap hi size laddr m (find_loop size laddr m).0 (find_loop size laddr m).1
  unfolding find_loop
  find_loop-IsGap hi size laddr [] d h w p = record {
    above = omega arith;
    whole = d;
    below = h;
    room = λ e. absurd (cc);
    clear = tt;
    least = λ k s low c. low;
  }
  find_loop-IsGap hi size laddr ((r, v) ∷ m) d h w (low, pages, high, p) =
      let diff : wsub r.addr laddr ≡ r.addr - laddr = omega arith in
      elim (Bool-cases (leb size (wsub r.addr laddr))) [
        | inl e ↦
            let fits : laddr + size ≤ r.addr = ground arith in
            rw e (record {
              above = omega arith;
              whole = d;
              below = h;
              room = λ _. omega arith;
              clear = (inr fits, Placed-Clear (end_addr r) hi (at laddr size) m (omega arith) p);
              least = λ k s low c. low;
            })
        | inr e ↦
            let tight : r.addr - laddr < size = ground arith in
            let g =
              find_loop-IsGap hi size (end_addr r) m
                (omega (arith, pages.addr_pages, pages.size_pages)) high w p in
            rw e (record {
              above = omega (arith, g.above);
              whole = g.whole;
              below = g.below;
              room = g.room;
              clear = (inl g.above, g.clear);
              least = λ k s lo (c, cs). elim c [
                | inl behind ↦ g.least k s behind cs
                | inr before ↦ absurd (omega arith)
              ];
            })
      ]

  module _ (addr_down addr_up : ℕ → ℕ → ℕ) (virt_addr : ℕ → Option ℕ)
      (addr_down_pages : (a : ℕ) → a % 4096 ≡ 0 → addr_down a 4096 ≡ a)
      (canon : IsVirtAddr virt_addr) where
    lower-IsLowest :
        (hi size l : ℕ) (m : List (Range × V)) (found : Bool)
        → 4096 ≤ l
        → hi < word_mod
        → size % 4096 ≡ 0
        → 0 < size
        → l + size ≤ hi
        → IsGap hi size 4096 m found l
        → IsLowest hi size m (some (some (at l size)))
    lower-IsLowest hi size l m found low w s pos fits g =
        let inj : (r : Range) → some (some (at l size)) ≡ some (some r) → at l size ≡ r =
          λ r e. some_inj (at l size) r (some_inj (some (at l size)) (some r) e) in
        record {
          pages = λ r e b. rw (← inj r e) (
            record { addr_pages = g.whole; size_pages = s; nonempty = pos; bounded = omega arith },
            refl,
          );
          free = λ r e b. rw (← inj r e) (record { low = low; high = fits; clear = g.clear });
          lowest = λ r k e b same f. rw (← inj r e) (g.least k same f.low f.clear);
          refused =
              λ k e same f. absurd (none_ne (at l size) (sym (some_inj (some (at l size)) none e)));
          answered = λ k same f b. (at l size, refl, g.least k same f.low f.clear);
        }

    -- Behind the lower half, no range that is free begins in it, and none that is answered.
    upper-IsLowest :
        (hi size l : ℕ) (m : List (Range × V)) (found : Bool) (answer : Option (Option Range))
        → lower_end ≤ l
        → IsGap hi size 4096 m found l
        → (answer ≡ some none → ⊥)
        → ((r : Range) → answer ≡ some (some r) → lower_end ≤ r.addr)
        → IsLowest hi size m answer
    upper-IsLowest hi size l m found answer h g given beyond = record {
      pages = λ r e b. let c = beyond r e in absurd (omega arith);
      free = λ r e b. let c = beyond r e in absurd (omega arith);
      lowest = λ r k e b. let c = beyond r e in absurd (omega arith);
      refused = λ k e. absurd (given e);
      answered = λ k same f b. let c = g.least k same f.low f.clear in absurd (omega arith);
    }

    some-IsLowest :
        (hi size l : ℕ) (m : List (Range × V)) (found : Bool)
        → 4096 ≤ l
        → hi + 4096 ≤ word_mod
        → size % 4096 ≡ 0
        → 0 < size
        → l + size ≤ hi
        → IsGap hi size 4096 m found l
        → IsLowest hi size m (range_at addr_down addr_up virt_addr size l)
    some-IsLowest hi size l m found low w s pos fits g = elim (dec_lt l lower_end) [
      | yes h ↦
          rw
            (
              range_at,
              canon.lower l h,
              new_pages addr_down addr_up l size addr_down_pages g.whole s (omega arith),
            )
            (lower-IsLowest hi size l m found low (omega arith) s pos fits g)
      | no h ↦ elim (Option-cases (virt_addr l)) [
        | inl n ↦
            rw (range_at, n)
              (upper-IsLowest hi size l m found none (omega arith) g (λ e. none_ne (none) e)
                (λ r e. absurd (none_ne (some r) e)))
        | inr (v, e) ↦
            let kind = canon.upper l v (omega arith) e in
            let whole : v % 4096 ≡ 0 = omega (arith, g.whole, kind) in
            let high : lower_end ≤ v = omega (arith, kind) in
            rw
              (
                range_at,
                e,
                new_pages addr_down addr_up v size addr_down_pages whole s (omega arith),
              )
              (upper-IsLowest hi size l m found (some (some (at v size))) (omega arith) g
                (λ q. none_ne (at v size) (sym (some_inj (some (at v size)) none q)))
                (λ r q.
                  rw (← some_inj (at v size) r (some_inj (some (at v size)) (some r) q)) high))
      ]
    ]

    none-IsLowest :
        (hi size l : ℕ) (m : List (Range × V)) (found : Bool)
        → hi < l + size
        → IsGap hi size 4096 m found l
        → IsLowest hi size m (some none)
    none-IsLowest hi size l m found tight g =
        let no_range : (r : Range) → some none ≡ some (some r) → ⊥ =
          λ r e. none_ne r (some_inj none (some r) e) in
        let full : (k : Range) → k.size ≡ size → IsFree hi k m → ⊥ = λ k same f.
          let least = g.least k same f.low f.clear in omega (arith, f.high, same, least, tight) in
        record {
          pages = λ r e. absurd (no_range r e);
          free = λ r e. absurd (no_range r e);
          lowest = λ r k e. absurd (no_range r e);
          refused = λ k e. full k;
          answered = λ k same f. absurd (full k same f);
        }

    -- Let `addr_down` leave the addresses of pages as they are, `virt_addr` be as documented for
    -- `VirtAddr::new`, and the zones be whole pages from the second page on, in order and apart, up to
    -- a `hi` of at most 2 ^ 64 - 4096. For a size of whole pages, not 0: where some range of that size
    -- that begins below 2 ^ 47 is free, `find_range` answers a range and does not panic; a range that it
    -- answers and that begins below 2 ^ 47 is free, of that size, and none that is free lies lower; and
    -- it refuses only where no range of that size is free.
    pub find_range-IsLowest :
        (hi size : ℕ) (m : List (Range × V))
        → 4096 ≤ hi
        → hi + 4096 ≤ word_mod
        → size % 4096 ≡ 0
        → 0 < size
        → Placed 4096 hi m
        → IsLowest hi size m (find_range addr_down addr_up virt_addr hi size m)
    unfolding find_range
    find_range-IsLowest hi size m h w s pos p =
        let found = (find_loop size 4096 m).0 in
        let l = (find_loop size 4096 m).1 in
        let g = find_loop-IsGap hi size 4096 m refl h (omega arith) p in
        let left : wsub hi l ≡ hi - l = omega (arith, g.below) in
        elim (Bool-cases found) [
          | inl f ↦
              let fits = g.room f in
              rw (find_range, f) (some-IsLowest hi size l m found g.above w s pos fits g)
          | inr f ↦ elim (dec_lt (hi - l) size) [
            | yes t ↦
                rw (find_range, f, lt→ltb (wsub hi l) size (omega arith))
                  (none-IsLowest hi size l m found (omega (arith, g.below)) g)
            | no t ↦
                let fits : l + size ≤ hi = omega (arith, g.below) in
                rw (find_range, f, le→ltb (wsub hi l) size (omega arith))
                  (some-IsLowest hi size l m found g.above w s pos fits g)
          ]
        ]
