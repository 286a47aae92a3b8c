-- ===== src/VirtMap/Mapper/Reach.antt =====
-- The states of an address space that its operations reach from the empty map.
use aurora_os_old.Prelude.{ℕ, ◌≡◌, ◌↔◌, Option, some, List, []}
use aurora_os_old.Mem.{Range}
use aurora_os_old.Mem.Split.{In}
use aurora_os_old.VirtMap.{Allocation}
use aurora_os_old.VirtMap.Layout.{VirtLayout, AllocType}
use aurora_os_old.VirtMap.Pages.{Pmit}
use aurora_os_old.VirtMap.Space.{get_mapped_range}
use aurora_os_old.VirtMap.Space.Entries.{Zone}
use aurora_os_old.VirtMap.Space.Find.{IsVirtAddr}
use aurora_os_old.VirtMap.Space.Lookup.{get_mapped_range_iff}
use aurora_os_old.VirtMap.Mapper.{MemErr, VirtMapper, map, map_at, remap, remap_at, unmap}
use aurora_os_old.VirtMap.Mapper.Whole.{IsWhole, IsSpace}
use aurora_os_old.VirtMap.Mapper.Steps.{
  Lower, IsDown, IsLimit, KeepsWhole, map-IsSpace, map_at-IsSpace,
}
use aurora_os_old.VirtMap.Mapper.Moves.{remap-IsSpace, remap_at-IsSpace, unmap-IsSpace}

module _ {T Z : Type 0} (addr_down addr_up : ℕ → ℕ → ℕ) (virt_addr : ℕ → Option ℕ)
    (virt_to_phys : ℕ → ℕ) (hi : ℕ) (map_internal : List Pmit → T → T)
    (dealloc : Allocation → Z → Z) where
  -- The states that are reached from an empty map by the operations, with layouts of whole pages and
  -- with changes of layouts that keep whole pages, where an operation does not panic and a range that it
  -- answers ends below 2 ^ 47, and by anything else that leaves the map as it is
  pub data Reachable : VirtMapper T Z → Type 0 where
    start : (s : VirtMapper T Z) → s.virt_map ≡ [] → Reachable s
    other : (s t : VirtMapper T Z) → Reachable s → t.virt_map ≡ s.virt_map → Reachable t
    maps :
        (l : VirtLayout) (s : VirtMapper T Z)
        → IsWhole l
        → Reachable s
        → Lower (map addr_down addr_up virt_addr virt_to_phys hi map_internal dealloc l s).0
        → Reachable (map addr_down addr_up virt_addr virt_to_phys hi map_internal dealloc l s).1
    maps_at :
        (l : VirtLayout) (zone : Range) (s : VirtMapper T Z)
        → IsWhole l
        → Reachable s
        → Lower (map_at addr_down addr_up virt_addr virt_to_phys hi map_internal dealloc l zone s).0
        → Reachable
            (map_at addr_down addr_up virt_addr virt_to_phys hi map_internal dealloc l zone s).1
    remaps :
        (f : VirtLayout → Z → Option MemErr × VirtLayout × Z) (zone : Range) (atype : AllocType)
        (s : VirtMapper T Z)
        → KeepsWhole f
        → Reachable s
        → Lower
            (remap addr_down addr_up virt_addr virt_to_phys hi map_internal dealloc f zone atype
              s).0
        → Reachable
            (remap addr_down addr_up virt_addr virt_to_phys hi map_internal dealloc f zone atype
              s).1
    remaps_at :
        (f : VirtLayout → Z → Option MemErr × VirtLayout × Z) (zone : Range) (target : ℕ)
        (atype : AllocType) (s : VirtMapper T Z)
        → KeepsWhole f
        → Reachable s
        → Lower
            (remap_at addr_down addr_up virt_addr virt_to_phys hi map_internal dealloc f zone target
              atype s).0
        → Reachable
            (remap_at addr_down addr_up virt_addr virt_to_phys hi map_internal dealloc f zone target
              atype s).1
    unmaps :
        (zone : Range) (atype : AllocType) (s : VirtMapper T Z)
        → Reachable s
        → Reachable
            (unmap addr_down addr_up virt_addr virt_to_phys hi map_internal dealloc zone atype s).1

  module _ (down : IsDown addr_down) (limit : IsLimit hi) (canon : IsVirtAddr virt_addr) where
    -- Let `addr_down` round down to pages, `virt_addr` be as documented for `VirtAddr::new`, and the
    -- mappable space end at least a page before 2 ^ 64. In every state that the operations of an address
    -- space reach from an empty map, errors included, where no operation panicked and the ranges that
    -- they answered end below 2 ^ 47, the zones are whole pages from the second page on up to `hi`, in the order of their
    -- addresses, no two overlap, and the layouts are whole pages.
    pub Reachable-IsSpace : (s : VirtMapper T Z) → Reachable s → IsSpace hi s
    Reachable-IsSpace _ (start s e) = record { placed = rw e tt; layouts = rw e tt }
    Reachable-IsSpace _ (other s t r e) =
        let k = Reachable-IsSpace s r in record { placed = rw e k.placed; layouts = rw e k.layouts }
    Reachable-IsSpace _ (maps l s w r low) =
        map-IsSpace addr_down addr_up virt_addr virt_to_phys hi map_internal dealloc down limit
          canon l s w (Reachable-IsSpace s r) low
    Reachable-IsSpace _ (maps_at l zone s w r low) =
        map_at-IsSpace addr_down addr_up virt_addr virt_to_phys hi map_internal dealloc down limit
          canon l zone s w (Reachable-IsSpace s r) low
    Reachable-IsSpace _ (remaps f zone atype s keeps r low) =
        remap-IsSpace addr_down addr_up virt_addr virt_to_phys hi map_internal dealloc down limit
          canon f keeps zone atype s (Reachable-IsSpace s r) low
    Reachable-IsSpace _ (remaps_at f zone target atype s keeps r low) =
        remap_at-IsSpace addr_down addr_up virt_addr virt_to_phys hi map_internal dealloc down limit
          canon f keeps zone target atype s (Reachable-IsSpace s r) low
    Reachable-IsSpace _ (unmaps zone atype s r) =
        unmap-IsSpace addr_down addr_up virt_addr virt_to_phys hi map_internal dealloc down limit
          canon zone atype s (Reachable-IsSpace s r)

    -- Let `addr_down` round down to pages, `virt_addr` be as documented for `VirtAddr::new`, and the
    -- mappable space end at least a page before 2 ^ 64. In every state that the operations reach from an
    -- empty map, where no operation panicked and the ranges that they answered end below 2 ^ 47, `get_mapped_range` answers `r` for an
    -- address exactly when `r` is a mapped zone that the address lies in.
    pub Reachable-get_mapped_range :
        (s : VirtMapper T Z) (x : ℕ) (r : Range)
        → Reachable s
        → (get_mapped_range x s.virt_map ≡ some r) ↔ (Zone r s.virt_map × In x r)
    Reachable-get_mapped_range s x r reach =
        get_mapped_range_iff 4096 hi x r s.virt_map (Reachable-IsSpace s reach).placed
