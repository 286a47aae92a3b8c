-- ===== src/VirtMap/Realloc.antt =====
-- kernel/src/mem/sys.rs: how the system call `realloc` gets, changes and frees memory. `none` of an outer
-- Option means that the fuel of the loop ran out.
pub mod Diverges
use aurora_os_old.Prelude.{
  ℕ, zero, suc, ◌+◌, ◌-◌, Bool, true, false, bit_or, Option, none, some, ◌⊎◌, inl, inr, List, [],
  ◌∷◌, ltb, ◌==◌, if◌then◌else◌, wsub,
}
use aurora_os_old.Cap.{contains}
use aurora_os_old.Mem.{Range}
use aurora_os_old.VirtMap.{Element, Allocation, new_element, exact_size, map_user}
use aurora_os_old.VirtMap.Layout.{
  VirtLayout, AllocType, virt_mem, from, push, pop, pop_delete, size, clean_slice, layout_flags,
  dealloc_layout,
}
use aurora_os_old.VirtMap.Pages.{Pmit}
use aurora_os_old.VirtMap.Mapper.{MemErr, out_of_mem, VirtMapper, map, map_at, unmap}

-- The last element of a slice
unfoldable pub last : List Element → Option Element
last es = elim (pop es) [ none ↦ none | some (rest, e) ↦ some e ]

-- The `while` of `realloc_func`, which cuts `diff` bytes off the end, on fuel
unfoldable pub shrink_loop : (f diff : ℕ) → VirtLayout → Option VirtLayout
shrink_loop zero diff l = none
shrink_loop (suc f) diff l = elim (last (clean_slice l)) [
  | none ↦ some l
  | some a ↦
      let popped = shrink_loop f (wsub diff a.map_size) (pop_delete l) in
      let same = shrink_loop f diff l in if ltb a.map_size diff then popped else same
]

module _ {Z : Type 0} (alloc : ℕ → Z → Option Allocation × Z) where
  -- `realloc_func` for `size` bytes; the inner `none` is `Ok`, and a layout without flags panics.
  unfoldable pub realloc_func :
      (f flags new_size : ℕ) → VirtLayout → Z → Option (Option MemErr × VirtLayout × Z)
  realloc_func f flags new_size l z = elim (layout_flags l) [
    | none ↦ none
    | some old ↦
        let psize = size l in
        let new_flags = if contains flags exact_size then bit_or old exact_size else old in
        let (elem, z') = new_element alloc (new_size - psize) new_flags z in
        let grown : Option MemErr × VirtLayout × Z = elim elem [
          | none ↦ (some out_of_mem, l, z')
          | some e ↦ (none, push e l, z')
        ] in
        let shrunk : Option (Option MemErr × VirtLayout × Z) =
          elim (shrink_loop f (psize - new_size) l) [
            | none ↦ none
            | some l' ↦ some (none, l', z)
          ] in
        if ltb psize new_size
        then some grown
        else if ltb new_size psize
        then shrunk
        else some (none, l, z)
  ]
