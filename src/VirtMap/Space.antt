-- ===== src/VirtMap/Space.antt =====
-- The map of an address space in kernel/src/mem/virt_alloc.rs: a `BTreeMap` from the mapped ranges to
-- their layouts, here of any values, as the sequence of its entries in the order of the ranges, which
-- compare first by their address. `max_map_addr` is `MAX_MAP_ADDR`, where the kernel's addresses begin,
-- and `virt_addr` is `VirtAddr::new` of the x86_64 crate, which panics with `none` (see Mem).
pub mod Zones
pub mod Entries
pub mod Lookup
pub mod Find
pub mod Free
pub mod Skip
pub mod Exclude
use aurora_os_old.Prelude.{
  ℕ, ◌+◌, ◌-◌, Bool, true, false, ◌&&◌, ◌||◌, not, Option, none, some, List, [], ◌∷◌, ltb, leb,
  ◌==◌, if◌then◌else◌, wsub, wadd, word_mod,
}
use aurora_os_old.Misc.{page_size}
use aurora_os_old.Mem.{Range, end_addr, contains, new, full_contains_range, merge, is_aligned}

-- The derived orders of ranges
unfoldable pub range_eq : Range → Range → Bool
range_eq a b = (a.addr == b.addr) && (a.size == b.size)

unfoldable pub range_lt : Range → Range → Bool
range_lt a b = ltb a.addr b.addr || (a.addr == b.addr) && ltb a.size b.size

-- The space before and behind a zone in `free_space`, with the zones there
unfoldable pub free_before : Range → Option Range → Option ℕ
free_before zone none = if ltb zone.addr page_size then none else some (zone.addr - page_size)
free_before zone (some p) =
    if ltb zone.addr (end_addr p) then none else some (zone.addr - end_addr p)

unfoldable pub free_behind : (max_map_addr : ℕ) → Range → Option Range → Option ℕ
free_behind max_map_addr zone none =
    if ltb max_map_addr (end_addr zone) then none else some (max_map_addr - end_addr zone)
free_behind max_map_addr zone (some n) =
    if ltb n.addr (end_addr zone) then none else some (n.addr - end_addr zone)

module _ {V : Type 0} where
  -- `get`, `insert` and `remove` of the map
  unfoldable pub get : Range → List (Range × V) → Option V
  get k [] = none
  get k ((r, v) ∷ m) = let rest = get k m in if range_eq r k then some v else rest

  unfoldable pub insert : Range → V → List (Range × V) → List (Range × V)
  insert k v [] = (k, v) ∷ []
  insert k v ((r, w) ∷ m) =
      let rest = insert k v m in
      if range_lt r k
      then (r, w) ∷ rest
      else if range_eq r k
      then (k, v) ∷ m
      else (k, v) ∷ (r, w) ∷ m

  unfoldable pub remove : Range → List (Range × V) → List (Range × V)
  remove k [] = []
  remove k ((r, v) ∷ m) = let rest = remove k m in if range_eq r k then m else (r, v) ∷ rest

  -- The iterators `range(..k)` from the last entry on, and `range(k..)`
  unfoldable pub prev_from : Range → List (Range × V) → List (Range × V) → List (Range × V)
  prev_from k seen [] = seen
  prev_from k seen ((r, v) ∷ m) =
      let rest = prev_from k ((r, v) ∷ seen) m in if range_lt r k then rest else seen

  unfoldable pub prev_iter : Range → List (Range × V) → List (Range × V)
  prev_iter k m = prev_from k [] m

  unfoldable pub next_iter : Range → List (Range × V) → List (Range × V)
  next_iter k [] = []
  next_iter k ((r, v) ∷ m) = let rest = next_iter k m in if range_lt r k then rest else (r, v) ∷ m

  -- the first entry of an iterator
  abbrev pub first : List (Range × V) → Option Range
  first [] = none
  first ((r, v) ∷ m) = some r

  abbrev pub rest_of : List (Range × V) → List (Range × V)
  rest_of [] = []
  rest_of (e ∷ m) = m

  unfoldable pub address_map : ℕ → List (Range × V) → Option (Range × V)
  address_map addr m = elim (prev_iter (record { addr = addr; size = word_mod - 1 }) m) [
    | [] ↦ none
    | e ∷ es ↦ some e
  ]

  unfoldable pub get_mapped_range : ℕ → List (Range × V) → Option Range
  get_mapped_range addr m = elim (address_map addr m) [
    | none ↦ none
    | some (zone, v) ↦ if contains zone addr then some zone else none
  ]

  -- Whether `range_map` calls its function
  unfoldable pub range_map : Range → List (Range × V) → Bool
  range_map zone m =
      let prev = first (prev_iter zone m) in
      let next = first (next_iter zone m) in
      let in_prev : Bool = elim prev [ none ↦ false | some p ↦ full_contains_range p zone ] in
      let in_next : Bool = elim next [ none ↦ false | some n ↦ full_contains_range n zone ] in
      let in_both : Bool = elim prev [
        | none ↦ false
        | some p ↦ elim next [
          | none ↦ false
          | some n ↦ elim (merge p n) [ none ↦ false | some r ↦ full_contains_range r zone ]
        ]
      ] in
      if in_prev || in_next then true else in_both

  -- The loop of `find_range`: whether it breaks, and the address where it looks
  unfoldable pub find_loop : (size laddr : ℕ) → List (Range × V) → Bool × ℕ
  find_loop size laddr [] = (false, laddr)
  find_loop size laddr ((zone, v) ∷ m) =
      let rest = find_loop size (zone.addr + zone.size) m in
      if leb size (wsub zone.addr laddr) then (true, laddr) else rest

  module _ (addr_down addr_up : ℕ → ℕ → ℕ) (virt_addr : ℕ → Option ℕ) (max_map_addr : ℕ) where
    -- The outer `none` is a panic of `VirtAddr::new`.
    unfoldable pub find_range : (size : ℕ) → List (Range × V) → Option (Option Range)
    find_range size m =
        let (found, laddr) = find_loop size page_size m in
        if not found && ltb (wsub max_map_addr laddr) size
        then some none
        else elim (virt_addr laddr) [
          | none ↦ none
          | some addr ↦ some (some (new addr_down addr_up addr size))
        ]

  -- The zones before and behind in `free_space`, with `exclude` left out: both tests read `prev`.
  unfoldable pub skip_prev : Option Range → List (Range × V) → Option Range
  skip_prev none prevs = first prevs
  skip_prev (some exclude) prevs = elim (first prevs) [
    | none ↦ none
    | some p ↦ if range_eq p exclude then first (rest_of prevs) else some p
  ]

  unfoldable pub skip_next : Option Range → (prev : Option Range) → List (Range × V) → Option Range
  skip_next none prev nexts = first nexts
  skip_next (some exclude) prev nexts = elim prev [
    | none ↦ first nexts
    | some p ↦ if range_eq p exclude then first (rest_of nexts) else first nexts
  ]

  unfoldable pub free_space :
      (max_map_addr : ℕ) → Range → Option Range → List (Range × V) → Option (ℕ × ℕ)
  free_space max_map_addr zone exclude m =
      let prev = skip_prev exclude (prev_iter zone m) in
      let next = skip_next exclude prev (next_iter zone m) in
      elim (free_before zone prev) [
        | none ↦ none
        | some before ↦ elim (free_behind max_map_addr zone next) [
          | none ↦ none
          | some behind ↦ some (before, behind)
        ]
      ]
