-- ===== src/VirtMap/Mapper/Shrink.antt =====
-- `remap_at` of a zone to its own address.
use aurora_os_old.Prelude.{
  ℕ, ◌%◌, ◌≤◌, ◌<◌, ◌≡◌, refl, ap, true, false, Option, none, some, List, ◌==◌, arith,
}
use aurora_os_old.Misc.{page_size}
use aurora_os_old.Mem.{Range, new, aligned}
use aurora_os_old.VirtMap.{Allocation}
use aurora_os_old.VirtMap.Layout.{VirtLayout, AllocType, size}
use aurora_os_old.VirtMap.Pages.{Pmit}
use aurora_os_old.VirtMap.Space.{get, insert}
use aurora_os_old.VirtMap.Space.Entries.{Zone, get-Zone, insert-Zone, replace-Placed}
use aurora_os_old.VirtMap.Space.Find.{IsVirtAddr}
use aurora_os_old.VirtMap.Space.Exclude.{free_space-shrunk}
use aurora_os_old.VirtMap.Mapper.{
  MemErr, VirtMapper, same_type, reverted, move_layout_at, change_layout, remap_at,
}
use aurora_os_old.VirtMap.Mapper.Whole.{IsWhole, IsSpace, insert-AllLayouts}
use aurora_os_old.VirtMap.Mapper.Steps.{IsDown, IsLimit, new_range}

module _ {T Z : Type 0} (addr_down addr_up : ℕ → ℕ → ℕ) (virt_addr : ℕ → Option ℕ)
    (virt_to_phys : ℕ → ℕ) (hi : ℕ) (map_internal : List Pmit → T → T)
    (dealloc : Allocation → Z → Z) (down : IsDown addr_down) (limit : IsLimit hi)
    (canon : IsVirtAddr virt_addr) where
  move_layout_at-shrunk :
      (l : VirtLayout) (zone : Range) (s : VirtMapper T Z)
      → IsWhole l
      → 0 < size l
      → size l ≤ zone.size
      → zone.addr % 4096 ≡ 0
      → Zone zone s.virt_map
      → IsSpace hi s
      → move_layout_at addr_down addr_up virt_addr virt_to_phys hi map_internal dealloc l zone
          zone.addr s
        ≡ reverted addr_down addr_up virt_addr virt_to_phys hi map_internal dealloc l zone s
  unfolding move_layout_at
  move_layout_at-shrunk l zone s w pos small a y k =
      let nrange = new addr_down addr_up zone.addr (size l) in
      let same =
        new_range addr_down addr_up virt_addr virt_to_phys hi map_internal dealloc down limit canon
          l zone.addr w a in
      let at_addr : nrange.addr ≡ zone.addr = ap (λ r. r.addr) same in
      let at_size : nrange.size ≡ size l = ap (λ r. r.size) same in
      let z : (size l == 0) ≡ false = ground arith in
      let n =
        free_space-shrunk hi zone nrange s.virt_map (omega arith) k.placed y at_addr
          (omega arith) in
      rw (move_layout_at, z, n) refl

  -- Let `addr_down` round down to pages, the mappable space end at least a page before 2 ^ 64, and the
  -- zones and layouts be whole pages, in order and apart. `remap_at` of a mapped zone of the type that is
  -- asked for to its own address, where the change makes of its layout `l` a layout `l'` of whole pages,
  -- not empty and no larger than the zone, does not move or shrink it: it ends as `reverted`, with an
  -- error.
  pub remap_at-shrunk :
      (f : VirtLayout → Z → Option MemErr × VirtLayout × Z) (virt_zone : Range) (target : ℕ)
      (atype : AllocType) (s : VirtMapper T Z) (l l' : VirtLayout) (z' : Z)
      → IsSpace hi s
      → get (aligned addr_down addr_up virt_zone) s.virt_map ≡ some l
      → same_type l.atype atype ≡ true
      → f l s.zm ≡ (none, l', z')
      → IsWhole l'
      → 0 < size l'
      → size l' ≤ (aligned addr_down addr_up virt_zone).size
      → addr_down target page_size ≡ (aligned addr_down addr_up virt_zone).addr
      → remap_at addr_down addr_up virt_addr virt_to_phys hi map_internal dealloc f virt_zone target
          atype s
        ≡ reverted addr_down addr_up virt_addr virt_to_phys hi map_internal dealloc l'
            (aligned addr_down addr_up virt_zone)
            (record s {
              virt_map = insert (aligned addr_down addr_up virt_zone) l' s.virt_map;
              zm = z';
            })
  unfolding remap_at change_layout
  remap_at-shrunk f virt_zone target atype s l l' z' k e t c w pos small here =
      let zone = aligned addr_down addr_up virt_zone in
      let y = get-Zone zone l s.virt_map e in
      let s' = record s { virt_map = insert zone l' s.virt_map; zm = z' } in
      let k' : IsSpace hi s' = record {
        placed = replace-Placed 4096 hi zone l' s.virt_map y k.placed;
        layouts = insert-AllLayouts zone l' s.virt_map w k.layouts;
      } in
      let a : zone.addr % 4096 ≡ 0 = rw (← here) (down.multiple target) in
      rw (remap_at, change_layout, e, t, ap (λ r. r.0) c, ap (λ r. r.1) c, ap (λ r. r.2) c, here)
        (move_layout_at-shrunk l' zone s' w pos small a (insert-Zone zone l' s.virt_map) k')
