-- ===== src/Mem/Split.antt =====
-- `split_at` and `merge` of a range, seen as sets of addresses.
use aurora_os_old.Prelude.{
  ℕ, ◌+◌, ◌-◌, ◌%◌, ◌≤◌, ◌<◌, ◌≡◌, ◌≢◌, ◌↔◌, ◌⊎◌, Option, none, some, arith, word_mod,
}
use aurora_os_old.Mem.{Range, end_addr, lower_end, contains_range, merge, split_at, before, behind}

-- An address of a range
abbrev pub In : ℕ → Range → Type 0
In x r = (r.addr ≤ x) × (x < r.addr + r.size)

abbrev pub InPart : ℕ → Option Range → Type 0
InPart x none = ⊥
InPart x (some r) = In x r

-- Whole pages, at least one, below the end of the address space
pub record IsPages (r : Range) : Type 0 where
  pub addr_pages : r.addr % 4096 ≡ 0
  pub size_pages : r.size % 4096 ≡ 0
  pub nonempty : 0 < r.size
  pub bounded : r.addr + r.size < word_mod

-- The addresses of the parts that `split_at` leaves; a panic leaves none.
abbrev pub InSplit : ℕ → Option (Option Range × Option Range) → Type 0
InSplit x none = ⊥
InSplit x (some (a, b)) = InPart x a ⊎ InPart x b

-- For ranges of whole pages that end below 2 ^ 47, where `range` does not start at 0, nor start before
-- `r` and end at or behind the end of `r`, `split_at` does not panic, and an address is in one of the
-- two parts that it leaves of `r` exactly when it is in `r` and not in `range`.
pub split_at_lem :
    (r range : Range) (x : ℕ)
    → IsPages r
    → IsPages range
    → end_addr r < lower_end
    → end_addr range < lower_end
    → 0 < range.addr
    → (r.addr ≤ range.addr) ⊎ (range.addr + range.size < r.addr + r.size)
    → (split_at r range ≢ none) × (InSplit x (split_at r range) ↔ (In x r × (In x range → ⊥)))
unfolding split_at contains_range
split_at_lem r range x i j u v p h = ground (
  arith, i.addr_pages, i.size_pages, i.nonempty, i.bounded, j.addr_pages, j.size_pages, j.nonempty,
  j.bounded,
)

-- What `split_at` cuts out of the middle of a range, `merge` joins again: to the part before, then to
-- the part behind.
pub split_at-merge :
    (r range : Range)
    → IsPages r
    → IsPages range
    → r.addr < range.addr
    → end_addr range < end_addr r
    → (split_at r range ≡ some (some (before r range.addr), some (behind r (end_addr range))))
      × (merge (before r range.addr) range
          ≡ some (record { addr = r.addr; size = end_addr range - r.addr }))
      × (merge
            (record { addr = r.addr; size = end_addr range - r.addr })
            (behind r (end_addr range))
          ≡ some r)
unfolding split_at contains_range merge
split_at-merge r range i j low high = ground (
  arith, i.addr_pages, i.size_pages, i.nonempty, i.bounded, j.addr_pages, j.size_pages, j.nonempty,
  j.bounded,
)
