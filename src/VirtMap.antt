-- ===== src/VirtMap.antt =====
-- kernel/src/mem/virt_alloc.rs: the flags of a mapping and the elements of a layout; the child modules
-- model the layouts, the iterator over their pages, the map of an address space and its operations.
-- The flags are their bits, with `contains` and `intersects` as `bitflags!` documents them. The state
-- of the zone allocator is `Z`: its `alloc` and `dealloc` are parameters, as are `virt_to_phys` of
-- kernel/src/util/misc.rs and the alignment of the address types (see Mem).
pub mod Layout
pub mod Pages
pub mod Space
pub mod Mapper
pub mod Realloc
mod Tests
use aurora_os_old.Prelude.{
  ℕ, ◌+◌, ◌-◌, Bool, true, false, not, min, bit_and, bit_or, Option, none, some, ltb, ◌==◌,
  if◌then◌else◌,
}
use aurora_os_old.Misc.{align_up, page_size}
use aurora_os_old.Cap.{contains, cap_read, cap_write}
use aurora_os_old.Mem.{
  PageSize, bytes, align_down_to_page_size, try_from_usize, Frame, Range, new, aligned, take,
  get_take_size, new_frame,
}

-- `PageMappingFlags`
abbrev pub map_read : ℕ
map_read = 1

abbrev pub map_write : ℕ
map_write = 2

abbrev pub map_exec : ℕ
map_exec = 4

abbrev pub map_user : ℕ
map_user = 8

abbrev pub exact_size : ℕ
exact_size = 16

-- `PageMappingFlags::from_cap_flags`
unfoldable pub from_cap_flags : ℕ → ℕ
from_cap_flags flags =
    let out = if contains flags cap_read then bit_or map_user map_read else map_user in
    if contains flags cap_write then bit_or out map_write else out

unfoldable pub exists : ℕ → Bool
exists flags = not (bit_and flags (bit_or (bit_or map_read map_write) map_exec) == 0)

-- `PageTableFlags`
abbrev pub table_none : ℕ
table_none = 0

abbrev pub table_present : ℕ
table_present = 1

abbrev pub table_writable : ℕ
table_writable = 2

abbrev pub table_user : ℕ
table_user = 4

abbrev pub table_no_exec : ℕ
table_no_exec = 9223372036854775808

-- `PageTableFlags::from_mapping_flags`
unfoldable pub from_mapping_flags : ℕ → ℕ
from_mapping_flags flags =
    let a = if contains flags map_write then bit_or table_none table_writable else table_none in
    let b = if not (contains flags map_exec) then bit_or a table_no_exec else a in
    let c = if exists flags then bit_or b table_present else b in
    if contains flags map_user then bit_or c table_user else c

-- `present` of the flags
unfoldable pub flags_present : ℕ → Bool
flags_present flags = contains flags table_present

-- `Allocation` of libutil/src/mem/mod.rs, less its index of a zone
pub record Allocation : Type 0 where
  pub addr : ℕ
  pub len : ℕ

-- `VirtLayoutElementType`
pub data ElementType : Type 0 where
  mem : (range : Range) → ElementType
  alloced_mem : (allocation : Allocation) → ElementType
  empty : (size : ℕ) → ElementType

-- `VirtLayoutElement`
pub record Element : Type 0 where
  pub phys_data : ElementType
  pub map_size : ℕ
  pub flags : ℕ
  pub mapping_flags : ℕ

-- `size` of the type, which is the `raw_size` of an element
abbrev pub type_size : ElementType → ℕ
type_size (mem range) = range.size
type_size (alloced_mem allocation) = allocation.len
type_size (empty size) = size

-- `VirtLayoutElement::from_mem`
unfoldable pub from_mem : Allocation → (size flags : ℕ) → Element
from_mem allocation size flags = record {
  phys_data = alloced_mem allocation;
  map_size =
      if contains flags exact_size
      then min allocation.len (align_up size page_size)
      else allocation.len;
  flags = from_mapping_flags flags;
  mapping_flags = flags;
}

module _ {Z : Type 0} (alloc : ℕ → Z → Option Allocation × Z) where
  -- `VirtLayoutElement::new`
  unfoldable pub new_element : (size flags : ℕ) → Z → Option Element × Z
  new_element size flags z =
      let size = align_up size page_size in
      let (answer, z') = alloc size z in
      if exists flags
      then elim answer [
        | none ↦ (none, z')
        | some allocation ↦ (
          some (record {
            phys_data = alloced_mem allocation;
            map_size = if contains flags exact_size then size else allocation.len;
            flags = from_mapping_flags flags;
            mapping_flags = flags;
          }),
          z',
        )
      ]
      else (
        some (record {
          phys_data = empty size;
          map_size = size;
          flags = from_mapping_flags flags;
          mapping_flags = flags;
        }),
        z,
      )

-- `VirtLayoutElement::dealloc`
unfoldable pub dealloc_element {ℓ} : {Z : Type ℓ} → (Allocation → Z → Z) → Element → Z → Z
dealloc_element dealloc e z = elim e.phys_data [
  | alloced_mem allocation ↦ dealloc allocation z
  | mem range ↦ z
  | empty size ↦ z
]

module _ (addr_down addr_up : ℕ → ℕ → ℕ) (virt_to_phys : ℕ → ℕ) where
  -- `VirtLayoutElement::from_range`
  unfoldable pub from_range : Range → (flags : ℕ) → Element
  from_range range flags = record {
    phys_data = mem (aligned addr_down addr_up range);
    map_size = (aligned addr_down addr_up range).size;
    flags = from_mapping_flags flags;
    mapping_flags = flags;
  }

  unfoldable pub as_phys_zone : Element → Option Range
  as_phys_zone e = if not (flags_present e.flags) then none else elim e.phys_data [
    | alloced_mem allocation ↦
        some (new addr_down addr_up (virt_to_phys allocation.addr) e.map_size)
    | mem range ↦ some (new addr_down addr_up range.addr e.map_size)
    | empty size ↦ none
  ]
