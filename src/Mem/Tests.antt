-- ===== src/Mem/Tests.antt =====
-- Ranges at fixed addresses.
use aurora_os_old.Prelude.{◌*◌, ◌/◌, ◌≤◌, ◌≡◌, ◌≢◌, refl, ◌↔◌, inl, false, none, some, arith}
use aurora_os_old.Misc.{align_of, bsf, log2, bsr}
use aurora_os_old.Mem.{
  Range, contains_range, full_contains_range, split_at, merge, before, behind, PageSize, m2, bytes,
  get_take_size, next, new_frame, try_from_usize, align_down_to_page_size, k4_frame,
}
use aurora_os_old.Mem.Split.{In, InSplit, IsPages, split_at_lem, split_at-merge}
use aurora_os_old.Mem.PageTake.{Fits, get_take_size_lem}

abbrev whole : Range
whole = record { addr = 8192; size = 16384 }

abbrev middle : Range
middle = record { addr = 12288; size = 4096 }

whole-IsPages : IsPages whole
whole-IsPages = record {
  addr_pages = refl;
  size_pages = refl;
  nonempty = omega arith;
  bounded = omega arith;
}

middle-IsPages : IsPages middle
middle-IsPages = record {
  addr_pages = refl;
  size_pages = refl;
  nonempty = omega arith;
  bounded = omega arith;
}

split_at_lem_example :
    (split_at whole middle ≢ none)
    × (InSplit 20000 (split_at whole middle) ↔ (In 20000 whole × (In 20000 middle → ⊥)))
split_at_lem_example =
    split_at_lem whole middle 20000 whole-IsPages middle-IsPages (omega arith) (omega arith)
      (omega arith) (inl (omega arith))

split_at-merge_example :
    (split_at whole middle ≡ some (some (before whole 12288), some (behind whole 16384)))
    × (merge (before whole 12288) middle ≡ some (record { addr = 8192; size = 8192 }))
    × (merge (record { addr = 8192; size = 8192 }) (behind whole 16384) ≡ some whole)
split_at-merge_example =
    split_at-merge whole middle whole-IsPages middle-IsPages (omega arith) (omega arith)

abbrev large : Range
large = record { addr = 2097152; size = 3145728 }

get_take_size_lem_example :
    (get_take_size large ≡ some m2)
    ↔ (Fits large m2 × ((q : PageSize) → Fits large q → bytes q ≤ bytes m2))
get_take_size_lem_example = get_take_size_lem large m2 (omega arith)

-- A range that is cut away at both ends is left as it is.
surrounded : split_at middle whole ≡ some (some middle, none)
unfolding split_at contains_range
surrounded = refl

-- A page at the address 0 is not cut out of the pages from there on.
at_zero : split_at (record { addr = 0; size = 16384 }) (record { addr = 0; size = 4096 }) ≡ none
unfolding split_at contains_range
at_zero = refl

-- A range does not fully contain itself.
not_full : full_contains_range whole whole ≡ false
unfolding full_contains_range
not_full = refl

-- The first frame of the iterator over one page is the page behind it.
page_behind : next (λ a p. a / p * p) (λ a p. a) 4096 8192 ≡ some (some (k4_frame 8192), 8192)
unfolding next new_frame try_from_usize align_down_to_page_size align_of bsf log2 bsr
page_behind = refl
