-- ===== src/VirtMap/Mapper.antt =====
-- The operations of `VirtMapper` in kernel/src/mem/virt_alloc.rs, each under the lock of its map. The
-- state has the mapped zones, the page table, of any type `T`, and that of the zone allocator, `Z`.
-- `map_internal` takes the zones of an iterator to the table (see Pages). A layout that an operation
-- does not keep is dropped, which deallocates it.
pub mod Whole
pub mod Steps
pub mod Moves
pub mod Reach
pub mod Maps
pub mod Shrink
use aurora_os_old.Prelude.{
  ℕ, ◌+◌, Bool, true, false, not, Option, none, some, List, [], ◌∷◌, ◌==◌, if◌then◌else◌, ◌⊎◌, inl,
  inr,
}
use aurora_os_old.Misc.{page_size}
use aurora_os_old.SysErr.{SysErr}
use aurora_os_old.Mem.{Range, new, aligned, null, bytes}
use aurora_os_old.VirtMap.{Allocation}
use aurora_os_old.VirtMap.Layout.{
  VirtLayout, AllocType, virt_mem, phys_map, shared, protected, size, sync_mem, mark_unmapped,
  revert, dealloc_layout,
}
use aurora_os_old.VirtMap.Pages.{Pmit, new_iter, new_unmapper}
use aurora_os_old.VirtMap.Space.{get, insert, remove, find_range, free_space}

-- `MemErr` of kernel/src/mem/error.rs, less its messages, and the `SysErr` that it becomes
pub data MemErr : Type 0 where
  out_of_mem invl_virt_mem invl_ptr invl_args invl_mem_type : MemErr

unfoldable pub sys_err : MemErr → SysErr
sys_err out_of_mem = SysErr.out_of_mem
sys_err invl_virt_mem = SysErr.invl_mem_zone
sys_err invl_ptr = SysErr.invl_ptr
sys_err invl_args = SysErr.invl_args
sys_err invl_mem_type = SysErr.invl_args

-- How an operation fails: with an error, or with a panic, after which there is no further step
pub data Failure : Type 0 where
  mem_err : (e : MemErr) → Failure
  panics : Failure

-- the derived equality of `AllocType`
unfoldable pub same_type : AllocType → AllocType → Bool
same_type virt_mem virt_mem = true
same_type phys_map phys_map = true
same_type shared shared = true
same_type protected protected = true
same_type _ _ = false

pub record VirtMapper (T Z : Type 0) : Type 0 where
  pub virt_map : List (Range × VirtLayout)
  pub table : T
  pub zm : Z

module _ {T Z : Type 0} (addr_down addr_up : ℕ → ℕ → ℕ) (virt_addr : ℕ → Option ℕ)
    (virt_to_phys : ℕ → ℕ) (max_map_addr : ℕ) (map_internal : List Pmit → T → T)
    (dealloc : Allocation → Z → Z) where
  -- The common end of `map`, `map_at`, `remap` and `remap_at`: the layout is mapped at `zone`, synced
  -- and put into the map.
  unfoldable pub place : VirtLayout → Range → VirtMapper T Z → (Failure ⊎ Range) × VirtMapper T Z
  place l zone s = elim (new_iter addr_down addr_up virt_to_phys virt_addr l zone) [
    | none ↦ (inl panics, s)
    | some zones ↦
        let (synced, z) = sync_mem dealloc l s.zm in
        (
          inr zone,
          record {
            virt_map = insert zone synced s.virt_map;
            table = map_internal zones s.table;
            zm = z;
          },
        )
  ]

  -- a layout that is dropped on the way out with an error
  unfoldable pub refuse : MemErr → VirtLayout → VirtMapper T Z → (Failure ⊎ Range) × VirtMapper T Z
  refuse e l s = (inl (mem_err e), record s { zm = dealloc_layout dealloc l s.zm })

  unfoldable pub map : VirtLayout → VirtMapper T Z → (Failure ⊎ Range) × VirtMapper T Z
  map l s =
      if size l == 0
      then refuse invl_virt_mem l s
      else elim (find_range addr_down addr_up virt_addr max_map_addr (size l) s.virt_map) [
        | none ↦ (inl panics, s)
        | some none ↦ refuse invl_virt_mem l s
        | some (some zone) ↦ place l zone s
      ]

  unfoldable pub map_at : VirtLayout → Range → VirtMapper T Z → (Failure ⊎ Range) × VirtMapper T Z
  map_at l virt_zone s =
      let zone = aligned addr_down addr_up virt_zone in
      if not (size l == zone.size)
      then refuse invl_args l s
      else if size l == 0
      then refuse invl_args l s
      else elim (free_space max_map_addr zone none s.virt_map) [
        | none ↦ refuse invl_virt_mem l s
        | some space ↦ place l zone s
      ]

  -- The unmapping of a layout at `zone` before it moves; `none` is a panic.
  unfoldable pub unmapped :
      VirtLayout → Range → VirtMapper T Z → Option (VirtLayout × VirtMapper T Z)
  unmapped l zone s = elim (new_unmapper addr_down addr_up virt_to_phys virt_addr l zone) [
    | none ↦ none
    | some zones ↦
        let (fresh, z) = mark_unmapped dealloc l s.zm in
        some (fresh, record s { table = map_internal zones s.table; zm = z })
  ]

  -- The move of a layout from `zone`, which is out of the map, to `new_zone`
  unfoldable pub moved :
      VirtLayout → (zone new_zone : Range) → VirtMapper T Z → (Failure ⊎ Range) × VirtMapper T Z
  moved l zone new_zone s = elim (unmapped l zone s) [
    | none ↦ (inl panics, s)
    | some (fresh, s') ↦ place fresh new_zone s'
  ]

  -- The end of `remap` and `remap_at` for a layout that has become empty, which is dropped
  unfoldable pub vanish : VirtLayout → Range → VirtMapper T Z → (Failure ⊎ Range) × VirtMapper T Z
  vanish l zone s = elim (new_iter addr_down addr_up virt_to_phys virt_addr l zone) [
    | none ↦ (inl panics, s)
    | some zones ↦
        let (synced, z) = sync_mem dealloc l s.zm in
        (
          inr null,
          record s { table = map_internal zones s.table; zm = dealloc_layout dealloc synced z },
        )
  ]

  -- `revert` of the layout `l` at `zone` where it cannot move
  unfoldable pub reverted : VirtLayout → Range → VirtMapper T Z → (Failure ⊎ Range) × VirtMapper T Z
  reverted l zone s =
      let (back, z) = revert dealloc l s.zm in
      (inl (mem_err invl_virt_mem), record s { virt_map = insert zone back s.virt_map; zm = z })

  -- The rest of `remap` once `alloc_func` has changed the layout to `l`, in its place in the map
  unfoldable pub move_layout :
      VirtLayout → (zone : Range) → VirtMapper T Z → (Failure ⊎ Range) × VirtMapper T Z
  move_layout l zone s =
      let nrange = new addr_down addr_up zone.addr (size l) in
      let gone = record s { virt_map = remove zone s.virt_map } in
      if size l == 0
      then vanish l nrange gone
      else elim (free_space max_map_addr nrange (some zone) s.virt_map) [
        | some space ↦ place l nrange gone
        | none ↦ elim (find_range addr_down addr_up virt_addr max_map_addr (size l) s.virt_map) [
          | none ↦ (inl panics, s)
          | some none ↦ reverted l zone s
          | some (some new_zone) ↦ moved l zone new_zone gone
        ]
      ]

  -- The rest of `remap_at`, to the address `target`
  unfoldable pub move_layout_at :
      VirtLayout
      → (zone : Range) → (target : ℕ) → VirtMapper T Z
      → (Failure ⊎ Range) × VirtMapper T Z
  move_layout_at l zone target s =
      let nrange = new addr_down addr_up target (size l) in
      let gone = record s { virt_map = remove zone s.virt_map } in
      if size l == 0
      then vanish l nrange gone
      else elim (free_space max_map_addr nrange (some zone) s.virt_map) [
        | some space ↦
            if not (target == zone.addr) then moved l zone nrange gone else place l nrange gone
        | none ↦ reverted l zone s
      ]

  module _ (alloc_func : VirtLayout → Z → Option MemErr × VirtLayout × Z) where
    -- The start of `remap` and `remap_at`, up to the change of the layout; `rest` goes on.
    unfoldable pub change_layout :
        (zone : Range) (atype : AllocType)
        → (VirtLayout → VirtMapper T Z → (Failure ⊎ Range) × VirtMapper T Z)
        → VirtMapper T Z
        → (Failure ⊎ Range) × VirtMapper T Z
    change_layout zone atype rest s = elim (get zone s.virt_map) [
      | none ↦ (inl (mem_err invl_ptr), s)
      | some l ↦
          let (answer, l', z) = alloc_func l s.zm in
          let s' = record s { virt_map = insert zone l' s.virt_map; zm = z } in
          if not (same_type l.atype atype)
          then (inl (mem_err invl_mem_type), s)
          else elim answer [ some e ↦ (inl (mem_err e), s') | none ↦ rest l' s' ]
    ]

    unfoldable pub remap : Range → AllocType → VirtMapper T Z → (Failure ⊎ Range) × VirtMapper T Z
    remap virt_zone atype s =
        let zone = aligned addr_down addr_up virt_zone in
        change_layout zone atype (λ l. move_layout l zone) s

    unfoldable pub remap_at :
        Range → (target_addr : ℕ) → AllocType → VirtMapper T Z → (Failure ⊎ Range) × VirtMapper T Z
    remap_at virt_zone target_addr atype s =
        let zone = aligned addr_down addr_up virt_zone in
        let target = addr_down target_addr page_size in
        change_layout zone atype (λ l. move_layout_at l zone target) s

  unfoldable pub unmap :
      Range → AllocType → VirtMapper T Z → (Failure ⊎ VirtLayout) × VirtMapper T Z
  unmap virt_zone atype s =
      let gone = record s { virt_map = remove virt_zone s.virt_map } in
      elim (get virt_zone s.virt_map) [
        | none ↦ (inl (mem_err invl_ptr), s)
        | some l ↦
            if not (same_type l.atype atype)
            then (inl (mem_err invl_mem_type), s)
            else elim (unmapped l virt_zone gone) [
              | none ↦ (inl panics, s)
              | some (fresh, s') ↦ (inr fresh, s')
            ]
      ]
