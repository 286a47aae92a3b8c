-- ===== src/VirtMap/Pages.antt =====
-- `Pmit` and `PageMappingIterator` of kernel/src/mem/virt_alloc.rs: the zones of a layout that are to
-- be mapped or unmapped, cut into pages. The iterator is its zones from `pindex` on. A table here is
-- the function from a virtual address to the physical address and the flags that it is mapped with:
-- `apply` is what an action makes of it, the specification of a round of the loop of `map_internal`.
pub mod Frames
pub mod Run
pub mod Backing
use aurora_os_old.Prelude.{
  ℕ, zero, suc, ◌+◌, ◌-◌, Bool, true, false, ◌&&◌, not, Option, none, some, List, [], ◌∷◌, ◌++◌,
  ltb, leb, if◌then◌else◌, wadd,
}
use aurora_os_old.Mem.{
  PageSize, bytes, Frame, start_addr, frame_end, Range, contains, new, take, get_take_size,
}
use aurora_os_old.VirtMap.{Element, as_phys_zone, flags_present, table_none}
use aurora_os_old.VirtMap.Layout.{VirtLayout, dirty_slice, clean_slice, reversed}

pub record Pmit : Type 0 where
  pub phys_zone : Range
  pub virt_zone : Range
  pub flags : ℕ

-- the lesser of two sizes
unfoldable pub min_size : PageSize → PageSize → PageSize
min_size a b = if leb (bytes a) (bytes b) then a else b

-- `get_take_size` of a `Pmit`
unfoldable pub pmit_take_size : Pmit → Option PageSize
pmit_take_size p = elim (get_take_size p.phys_zone) [
  | none ↦ none
  | some a ↦ elim (get_take_size p.virt_zone) [ none ↦ none | some b ↦ some (min_size a b) ]
]

pub data Action : Type 0 where
  map_action : (pframe vframe : Frame) (flags : ℕ) → Action
  unmap_action : (vframe : Frame) → Action

-- The action of `next` for the frames of a zone
unfoldable pub action : (flags : ℕ) → Frame × Frame → Action
action flags (pframe, vframe) =
    if flags_present flags then map_action pframe vframe flags else unmap_action vframe

module _ (addr_down addr_up : ℕ → ℕ → ℕ) where
  -- `take` of a `Pmit`, which panics with `none` for a frame where one of the two has none
  unfoldable pub pmit_take : Pmit → PageSize → Option (Frame × Frame) × Pmit
  pmit_take p size = elim (pmit_take_size p) [
    | none ↦ (none, p)
    | some take_size ↦
        if ltb (bytes take_size) (bytes size)
        then (none, p)
        else let (pframe, pzone) = take addr_down addr_up p.phys_zone size in
          let (vframe, vzone) = take addr_down addr_up p.virt_zone size in
          elim pframe [
            | none ↦ (none, p)
            | some a ↦ elim vframe [
              | none ↦ (none, p)
              | some b ↦ (some (a, b), record p { phys_zone = pzone; virt_zone = vzone })
            ]
          ]
  ]

  -- `next`: the action, and the zones from `pindex` on
  unfoldable pub next : List Pmit → Option Action × List Pmit
  next [] = (none, [])
  next (p ∷ ps) =
      let later = next ps in
      elim (pmit_take_size p) [
        | none ↦ later
        | some size ↦
            let (frames, q) = pmit_take p size in
            elim frames [ none ↦ (none, p ∷ ps) | some pair ↦ (some (action p.flags pair), q ∷ ps) ]
      ]

  module _ (virt_to_phys : ℕ → ℕ) where
    -- The zone of an element at `vaddr`, where it has one
    unfoldable pub element_zone : (vaddr flags : ℕ) → Element → List Pmit
    element_zone vaddr flags e = elim (as_phys_zone addr_down addr_up virt_to_phys e) [
      | none ↦ []
      | some prange ↦
          record {
            phys_zone = prange;
            virt_zone = new addr_down addr_up vaddr e.map_size;
            flags = flags;
          }
          ∷ []
    ]

    -- The loops of `new` and `new_unmapper`: over the queue, and over elements with their flags or none.
    -- A sum or a difference is made an address by `virt_addr`; `none` is a panic.
    module _ (virt_addr : ℕ → Option ℕ) where
      unfoldable pub queue_zones : (vaddr : ℕ) → List Element → Option (List Pmit × ℕ)
      queue_zones vaddr [] = some ([], vaddr)
      queue_zones vaddr (e ∷ es) =
          elim (if ltb vaddr e.map_size then none else virt_addr (vaddr - e.map_size)) [
            | none ↦ none
            | some v ↦ elim (queue_zones v es) [
              | none ↦ none
              | some (zones, last) ↦ some (element_zone v table_none e ++ zones, last)
            ]
          ]

      unfoldable pub map_zones : (vaddr : ℕ) → List Element → Option (List Pmit)
      map_zones vaddr [] = some []
      map_zones vaddr (e ∷ es) = elim (virt_addr (wadd vaddr e.map_size)) [
        | none ↦ none
        | some v ↦ elim (map_zones v es) [
          | none ↦ none
          | some zones ↦ some (element_zone vaddr e.flags e ++ zones)
        ]
      ]

      unfoldable pub unmap_zones : (vaddr : ℕ) → List Element → Option (List Pmit × ℕ)
      unmap_zones vaddr [] = some ([], vaddr)
      unmap_zones vaddr (e ∷ es) = elim (virt_addr (wadd vaddr e.map_size)) [
        | none ↦ none
        | some v ↦ elim (unmap_zones v es) [
          | none ↦ none
          | some (zones, last) ↦ some (element_zone vaddr table_none e ++ zones, last)
        ]
      ]

      -- `PageMappingIterator::new`
      unfoldable pub new_iter : VirtLayout → Range → Option (List Pmit)
      new_iter l zone = elim (virt_addr (wadd zone.addr l.clean_size)) [
        | none ↦ none
        | some start ↦ elim (queue_zones start l.dealloc_que) [
          | none ↦ none
          | some (zones, vaddr) ↦ elim (map_zones vaddr (dirty_slice l)) [
            | none ↦ none
            | some more ↦ some (zones ++ more)
          ]
        ]
      ]

      -- `PageMappingIterator::new_unmapper`
      unfoldable pub new_unmapper : VirtLayout → Range → Option (List Pmit)
      new_unmapper l zone = elim (unmap_zones zone.addr (clean_slice l)) [
        | none ↦ none
        | some (zones, vaddr) ↦ elim (unmap_zones vaddr (reversed l.dealloc_que)) [
          | none ↦ none
          | some (more, last) ↦ some (zones ++ more)
        ]
      ]

-- the table of an address space
abbrev pub Table : Type 0
Table = ℕ → Option (ℕ × ℕ)

abbrev pub in_frame : Frame → ℕ → Bool
in_frame f x = leb (start_addr f) x && ltb x (frame_end f)

unfoldable pub apply : Action → Table → Table
apply (map_action pframe vframe flags) t x =
    if in_frame vframe x then some (start_addr pframe + (x - start_addr vframe), flags) else t x
apply (unmap_action vframe) t x = if in_frame vframe x then none else t x

-- The table after all actions of an iterator, on fuel; `none` means that the fuel ran out.
unfoldable pub run_actions :
    (addr_down addr_up : ℕ → ℕ → ℕ) → (f : ℕ) → List Pmit → Table → Option Table
run_actions addr_down addr_up zero ps t = none
run_actions addr_down addr_up (suc f) ps t =
    let (answer, rest) = next addr_down addr_up ps in
    elim answer [ none ↦ some t | some a ↦ run_actions addr_down addr_up f rest (apply a t) ]
