-- ===== src/VirtMap/Mapper/Steps.antt =====
-- Every operation of `VirtMapper` keeps the zones whole pages, in order and apart.
use aurora_os_old.Prelude.{
  ℕ, ◌+◌, ◌%◌, ◌≤◌, ◌<◌, ◌≡◌, refl, ap, ◌⊎◌, inl, inr, false, Bool-cases, Option, none, some,
  Option-cases, List, ◌==◌, ==_iff, arith, word_mod,
}
use aurora_os_old.Mem.{Range, end_addr, lower_end, new, aligned, new_aligned}
use aurora_os_old.Mem.Split.{IsPages}
use aurora_os_old.VirtMap.{Allocation}
use aurora_os_old.VirtMap.Layout.{VirtLayout, size}
use aurora_os_old.VirtMap.Pages.{Pmit, new_iter, new_unmapper}
use aurora_os_old.VirtMap.Space.{remove, find_range, free_space}
use aurora_os_old.VirtMap.Space.Zones.{Placed}
use aurora_os_old.VirtMap.Space.Entries.{Zone, insert-Placed, remove-Placed, replace-Placed}
use aurora_os_old.VirtMap.Space.Find.{at, new_pages, IsVirtAddr, IsFree, find_range-IsLowest}
use aurora_os_old.VirtMap.Space.Free.{free_space_iff}
use aurora_os_old.VirtMap.Space.Exclude.{free_space-exclude}
use aurora_os_old.VirtMap.Mapper.{
  MemErr, Failure, mem_err, panics, VirtMapper, place, refuse, map, map_at, unmapped, moved, vanish,
  reverted,
}
use aurora_os_old.VirtMap.Mapper.Whole.{
  IsWhole, size_pages, sync_mem-IsWhole, revert-IsWhole, insert-AllLayouts, remove-AllLayouts,
  IsSpace, mark_unmapped-IsWhole,
}

-- What `align_down` of an address does at the size of a page
pub record IsDown (addr_down : ℕ → ℕ → ℕ) : Type 0 where
  pub multiple : (a : ℕ) → addr_down a 4096 % 4096 ≡ 0
  pub exact : (a : ℕ) → a % 4096 ≡ 0 → addr_down a 4096 ≡ a

-- The user's part of the address space: not empty, and it ends a page before the end or lower.
pub record IsLimit (hi : ℕ) : Type 0 where
  pub low : 4096 ≤ hi
  pub high : hi + 4096 ≤ word_mod

-- An Option of an Option
pub nested_cases {ℓ} :
    {A : Type ℓ}
    → (o : Option (Option A)) → (o ≡ none) ⊎ ((o ≡ some none) ⊎ ((a : A) × (o ≡ some (some a))))
nested_cases none = inl refl
nested_cases (some none) = inr (inl refl)
nested_cases (some (some a)) = inr (inr (a, refl))

-- A range that an operation answers ends in the lower half, and it does not panic.
abbrev pub Lower : (Failure ⊎ Range) → Type 0
Lower (inl (mem_err e)) = Unit
Lower (inl panics) = ⊥
Lower (inr r) = end_addr r < lower_end

-- The state after an operation is in order where its answer is in the lower half.
abbrev pub Kept : {T Z : Type 0} → (hi : ℕ) → (answer : Failure ⊎ Range) → VirtMapper T Z → Type 0
Kept hi answer s = Lower answer → IsSpace hi s

-- A change of a layout keeps its elements whole pages.
abbrev pub KeepsWhole : {Z : Type 0} → (VirtLayout → Z → Option MemErr × VirtLayout × Z) → Type 0
KeepsWhole {Z = Z} f = (l : VirtLayout) (z : Z) → IsWhole l → IsWhole (f l z).1

module _ {T Z : Type 0} (addr_down addr_up : ℕ → ℕ → ℕ) (virt_addr : ℕ → Option ℕ)
    (virt_to_phys : ℕ → ℕ) (hi : ℕ) (map_internal : List Pmit → T → T)
    (dealloc : Allocation → Z → Z) (down : IsDown addr_down) (limit : IsLimit hi)
    (canon : IsVirtAddr virt_addr) where
  pages :
      (zone : Range)
      → zone.addr % 4096 ≡ 0
      → zone.size % 4096 ≡ 0
      → 0 < zone.size
      → end_addr zone ≤ hi
      → IsPages zone
  pages zone a d pos high = record {
    addr_pages = a;
    size_pages = d;
    nonempty = pos;
    bounded = omega (arith, limit.high);
  }

  aligned_addr : (r : Range) → (aligned addr_down addr_up r).addr % 4096 ≡ 0
  unfolding aligned new_aligned
  aligned_addr r = down.multiple r.addr

  pub place-IsSpace :
      (l : VirtLayout) (zone : Range) (s : VirtMapper T Z)
      → IsWhole l
      → (zone.addr < lower_end → IsPages zone × IsFree hi zone s.virt_map)
      → IsSpace hi s
      → let r = place addr_down addr_up virt_addr virt_to_phys hi map_internal dealloc l zone s in
        Kept hi r.0 r.1
  unfolding place
  place-IsSpace l zone s w free k =
      elim (Option-cases (new_iter addr_down addr_up virt_to_phys virt_addr l zone)) [
        | inl n ↦ rw (place, n) (λ _. k)
        | inr (zones, e) ↦
            rw (place, e)
              (λ low.
                let (i, f) = free (omega (arith, low)) in
                record {
                  placed = insert-Placed 4096 hi zone _ s.virt_map i f.low f.high f.clear k.placed;
                  layouts =
                      insert-AllLayouts zone _ s.virt_map (sync_mem-IsWhole dealloc l s.zm w)
                        k.layouts;
                })
      ]

  refuse-IsSpace :
      (e : MemErr) (l : VirtLayout) (s : VirtMapper T Z)
      → IsSpace hi s
      → IsSpace hi (refuse addr_down addr_up virt_addr virt_to_phys hi map_internal dealloc e l s).1
  unfolding refuse
  refuse-IsSpace e l s k = record { placed = k.placed; layouts = k.layouts }

  -- what `find_range` finds for a layout
  pub found :
      (l : VirtLayout) (m : List (Range × VirtLayout)) (zone : Range)
      → IsWhole l
      → (size l == 0) ≡ false
      → Placed 4096 hi m
      → find_range addr_down addr_up virt_addr hi (size l) m ≡ some (some zone)
      → zone.addr < lower_end
      → IsPages zone × IsFree hi zone m
  found l m zone w pos p e low =
      let (d, b) = size_pages l w in
      let some_bytes : 0 < size l = ground arith in
      let best =
        find_range-IsLowest addr_down addr_up virt_addr down.exact canon hi (size l) m limit.low
          limit.high d some_bytes p in
      ((best.pages zone e low).0, best.free zone e low)

  pub map-IsSpace :
      (l : VirtLayout) (s : VirtMapper T Z)
      → IsWhole l
      → IsSpace hi s
      → let r = map addr_down addr_up virt_addr virt_to_phys hi map_internal dealloc l s in
        Kept hi r.0 r.1
  unfolding map
  map-IsSpace l s w k = elim (Bool-cases (size l == 0)) [
    | inl z ↦ rw (map, z) (λ _. refuse-IsSpace _ l s k)
    | inr z ↦ elim (nested_cases (find_range addr_down addr_up virt_addr hi (size l) s.virt_map)) [
      | inl n ↦ rw (map, z, n) (λ _. k)
      | inr (inl n) ↦ rw (map, z, n) (λ _. refuse-IsSpace _ l s k)
      | inr (inr (zone, e)) ↦
          rw (map, z, e) (place-IsSpace l zone s w (found l s.virt_map zone w z k.placed e) k)
    ]
  ]

  pub map_at-IsSpace :
      (l : VirtLayout) (virt_zone : Range) (s : VirtMapper T Z)
      → IsWhole l
      → IsSpace hi s
      → let r =
          map_at addr_down addr_up virt_addr virt_to_phys hi map_internal dealloc l virt_zone s in
        Kept hi r.0 r.1
  unfolding map_at
  map_at-IsSpace l virt_zone s w k =
      let zone = aligned addr_down addr_up virt_zone in
      elim (Bool-cases (size l == zone.size)) [
        | inr n ↦ rw (map_at, n) (λ _. refuse-IsSpace _ l s k)
        | inl same ↦ elim (Bool-cases (size l == 0)) [
          | inl z ↦ rw (map_at, same, z) (λ _. refuse-IsSpace _ l s k)
          | inr z ↦ elim (Option-cases (free_space hi zone none s.virt_map)) [
            | inl n ↦ rw (map_at, same, z, n) (λ _. refuse-IsSpace _ l s k)
            | inr (space, e) ↦
                let (d, b) = size_pages l w in
                let eq : size l ≡ zone.size = (==_iff (size l) zone.size).0 same in
                let pos : 0 < zone.size = ground arith in
                let f = (free_space_iff hi zone s.virt_map pos k.placed).0 (space, e) in
                let i = pages zone (aligned_addr virt_zone) (omega (arith, d, eq)) pos f.high in
                rw (map_at, same, z, e) (place-IsSpace l zone s w (λ _. (i, f)) k)
          ]
        ]
      ]

  -- `s` with the zone taken out of the map
  pub gone-IsSpace :
      (zone : Range) (s : VirtMapper T Z)
      → IsSpace hi s
      → IsSpace hi (record s { virt_map = remove zone s.virt_map })
  gone-IsSpace zone s k = record {
    placed = remove-Placed 4096 hi zone s.virt_map k.placed;
    layouts = remove-AllLayouts zone s.virt_map k.layouts;
  }

  pub vanish-IsSpace :
      (l : VirtLayout) (zone : Range) (s : VirtMapper T Z)
      → IsSpace hi s
      → IsSpace hi
          (vanish addr_down addr_up virt_addr virt_to_phys hi map_internal dealloc l zone s).1
  unfolding vanish
  vanish-IsSpace l zone s k =
      elim (Option-cases (new_iter addr_down addr_up virt_to_phys virt_addr l zone)) [
        | inl n ↦ rw (vanish, n) k
        | inr (zones, e) ↦ rw (vanish, e) (record { placed = k.placed; layouts = k.layouts })
      ]

  -- A layout that is unmapped, and moved to a range that is free without its zone
  pub moved-IsSpace :
      (l : VirtLayout) (zone new_zone : Range) (s : VirtMapper T Z)
      → IsWhole l
      → (new_zone.addr < lower_end → IsPages new_zone × IsFree hi new_zone s.virt_map)
      → IsSpace hi s
      → let r =
          moved addr_down addr_up virt_addr virt_to_phys hi map_internal dealloc l zone new_zone
            s in
        Kept hi r.0 r.1
  unfolding moved unmapped
  moved-IsSpace l zone new_zone s w free k =
      elim (Option-cases (new_unmapper addr_down addr_up virt_to_phys virt_addr l zone)) [
        | inl n ↦ rw (moved, unmapped, n) (λ _. k)
        | inr (zones, e) ↦
            rw (moved, unmapped, e)
              (place-IsSpace _ new_zone _ (mark_unmapped-IsWhole dealloc l s.zm w) free
                (record { placed = k.placed; layouts = k.layouts }))
      ]

  pub reverted-IsSpace :
      (l : VirtLayout) (zone : Range) (s : VirtMapper T Z)
      → IsWhole l
      → Zone zone s.virt_map
      → IsSpace hi s
      → IsSpace hi
          (reverted addr_down addr_up virt_addr virt_to_phys hi map_internal dealloc l zone s).1
  unfolding reverted
  reverted-IsSpace l zone s w y k = record {
    placed = replace-Placed 4096 hi zone _ s.virt_map y k.placed;
    layouts = insert-AllLayouts zone _ s.virt_map (revert-IsWhole dealloc l s.zm w) k.layouts;
  }

  -- The range of a layout at the address of a page
  pub new_range :
      (l : VirtLayout) (addr : ℕ)
      → IsWhole l
      → addr % 4096 ≡ 0
      → new addr_down addr_up addr (size l) ≡ at addr (size l)
  new_range l addr w a =
      let (d, b) = size_pages l w in new_pages addr_down addr_up addr (size l) down.exact a d b

  -- the range to move to, where `free_space` finds space with the old zone left out
  pub nrange_free :
      (l : VirtLayout) (zone : Range) (addr : ℕ) (m : List (Range × VirtLayout)) (space : ℕ × ℕ)
      → IsWhole l
      → addr % 4096 ≡ 0
      → (size l == 0) ≡ false
      → Zone zone m
      → Placed 4096 hi m
      → free_space hi (new addr_down addr_up addr (size l)) (some zone) m ≡ some space
      → IsPages (new addr_down addr_up addr (size l))
        × IsFree hi (new addr_down addr_up addr (size l)) (remove zone m)
  nrange_free l zone addr m space w a z y p e =
      let nrange = new addr_down addr_up addr (size l) in
      let same = new_range l addr w a in
      let (d, b) = size_pages l w in
      let at_addr : nrange.addr ≡ addr = ap (λ r. r.addr) same in
      let at_size : nrange.size ≡ size l = ap (λ r. r.size) same in
      let some_bytes : 0 < size l = ground arith in
      let f = free_space-exclude hi zone nrange m space (omega arith) p y e in
      (pages nrange (omega (arith, a)) (omega (arith, d)) (omega arith) f.high, f)
