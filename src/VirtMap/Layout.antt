-- ===== src/VirtMap/Layout.antt =====
-- `VirtLayout` of kernel/src/mem/virt_alloc.rs: the elements of a mapped zone. The elements below
-- `dirty_index` are mapped, those from it on wait to be, and those of `dealloc_que` are mapped and wait
-- to be unmapped. A call of `dealloc` of the zone allocator goes to its state `Z`.
pub mod Vec
pub mod Edits
pub mod Undo
use aurora_os_old.Prelude.{
  ℕ, zero, suc, ◌+◌, ◌-◌, Bool, true, false, Option, none, some, List, [], ◌∷◌, ◌++◌, length, take,
  drop, get_elem?, ltb, if◌then◌else◌, wadd, wsub,
}
use aurora_os_old.VirtMap.{Element, Allocation, dealloc_element}

pub data AllocType : Type 0 where
  virt_mem phys_map shared protected : AllocType

pub record VirtLayout : Type 0 where
  pub elements : List Element
  pub dealloc_que : List Element
  pub dirty_index : ℕ
  pub clean_size : ℕ
  pub atype : AllocType

-- `VirtLayout::new` and `VirtLayout::from`
unfoldable pub from : List Element → AllocType → VirtLayout
from vec atype = record {
  elements = vec;
  dealloc_que = [];
  dirty_index = 0;
  clean_size = 0;
  atype = atype;
}

unfoldable pub new : AllocType → VirtLayout
new atype = from [] atype

unfoldable pub try_from : List Element → AllocType → Option VirtLayout
try_from [] atype = none
try_from (e ∷ es) atype = some (from (e ∷ es) atype)

unfoldable pub push : Element → VirtLayout → VirtLayout
push e l = record l { elements = l.elements ++ (e ∷ []) }

-- `Vec::pop`: the elements left and the last one
unfoldable pub pop {ℓ} : {A : Type ℓ} → List A → Option (List A × A)
pop [] = none
pop (x ∷ xs) = elim (pop xs) [ none ↦ some ([], x) | some (ys, y) ↦ some (x ∷ ys, y) ]

unfoldable pub pop_delete : VirtLayout → VirtLayout
pop_delete l = elim (pop l.elements) [
  | none ↦ l
  | some (vec, e) ↦
      if ltb (length vec) l.dirty_index
      then record l {
        elements = vec;
        dealloc_que = l.dealloc_que ++ (e ∷ []);
        dirty_index = length vec;
      }
      else record l { elements = vec }
]

-- the `fold` of `size`, from a sum on
unfoldable pub add_sizes : ℕ → List Element → ℕ
add_sizes n [] = n
add_sizes n (e ∷ es) = add_sizes (wadd n e.map_size) es

unfoldable pub size : VirtLayout → ℕ
size l = add_sizes 0 l.elements

unfoldable pub clean_slice : VirtLayout → List Element
clean_slice l = take l.dirty_index l.elements

unfoldable pub dirty_slice : VirtLayout → List Element
dirty_slice l = drop l.dirty_index l.elements

-- `flags` of a layout, the first element's
unfoldable pub layout_flags : VirtLayout → Option ℕ
layout_flags l = elim (get_elem? l.elements 0) [
  | some e ↦ some e.mapping_flags
  | none ↦ elim (get_elem? l.dealloc_que 0) [ none ↦ none | some e ↦ some e.mapping_flags ]
]

-- the loop over the queue in `sync_mem`, as far as it concerns `clean_size`
unfoldable pub sub_sizes : ℕ → List Element → ℕ
sub_sizes n [] = n
sub_sizes n (e ∷ es) = sub_sizes (wsub n e.map_size) es

unfoldable pub reversed {ℓ} : {A : Type ℓ} → List A → List A
reversed [] = []
reversed (x ∷ xs) = reversed xs ++ (x ∷ [])

module _ {ℓ} {Z : Type ℓ} (dealloc : Allocation → Z → Z) where
  unfoldable pub dealloc_all : List Element → Z → Z
  dealloc_all [] z = z
  dealloc_all (e ∷ es) z = dealloc_all es (dealloc_element dealloc e z)

  -- `VirtLayout::dealloc`, which is also its `drop`
  unfoldable pub dealloc_layout : VirtLayout → Z → Z
  dealloc_layout l z = dealloc_all l.dealloc_que (dealloc_all l.elements z)

  unfoldable pub sync_mem : VirtLayout → Z → VirtLayout × Z
  sync_mem l z = (
    record l {
      dirty_index = length l.elements;
      clean_size = sub_sizes (add_sizes l.clean_size (dirty_slice l)) l.dealloc_que;
      dealloc_que = [];
    },
    dealloc_all l.dealloc_que z,
  )

  unfoldable pub mark_unmapped : VirtLayout → Z → VirtLayout × Z
  mark_unmapped l z =
      (record l { dirty_index = 0; clean_size = 0; dealloc_que = [] }, dealloc_all l.dealloc_que z)

  -- The `while` of `revert`, which pops the elements from `dirty` on, on fuel
  unfoldable pub revert_loop : (f dirty : ℕ) → List Element → Z → List Element × Z
  revert_loop zero dirty vec z = (vec, z)
  revert_loop (suc f) dirty vec z = elim (pop vec) [
    | none ↦ (vec, z)
    | some (rest, e) ↦
        let later = revert_loop f dirty rest (dealloc_element dealloc e z) in
        if ltb dirty (length vec) then later else (vec, z)
  ]

  unfoldable pub revert : VirtLayout → Z → VirtLayout × Z
  revert l z =
      let (kept, z') = revert_loop (length l.elements) l.dirty_index l.elements z in
      (record l { elements = kept ++ reversed l.dealloc_que; dealloc_que = [] }, z')
