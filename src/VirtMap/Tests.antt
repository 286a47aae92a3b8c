-- ===== src/VirtMap/Tests.antt =====
-- An address space with two zones, and layouts of a few pages.
use aurora_os_old.Prelude.{
  ℕ, ◌+◌, ◌-◌, ◌*◌, ◌/◌, ◌≤◌, ◌<◌, ◌≡◌, refl, ◌↔◌, Option, none, some, List, [], ◌∷◌, arith, ltb,
  if◌then◌else◌,
}
use aurora_os_old.Misc.{page_size, align_up}
use aurora_os_old.Mem.{Range, lower_end, new, new_aligned, aligned}
use aurora_os_old.Mem.Split.{IsPages, In}
use aurora_os_old.VirtMap.{Element, Allocation, mem, alloced_mem}
use aurora_os_old.VirtMap.Layout.{
  VirtLayout, virt_mem, push, pop, pop_delete, size, add_sizes, sync_mem, revert, dealloc_all,
  dirty_slice, reversed,
}
use aurora_os_old.VirtMap.Layout.Edits.{Edit, pushed, popped, edits, IsSynced, sync_mem-IsSynced}
use aurora_os_old.VirtMap.Layout.Undo.{revert-edits}
use aurora_os_old.VirtMap.Pages.{Pmit, Table, new_iter, queue_zones, map_zones}
use aurora_os_old.VirtMap.Pages.Run.{set_zones}
use aurora_os_old.VirtMap.Space.{find_range, find_loop, get, insert, get_mapped_range, range_eq}
use aurora_os_old.VirtMap.Space.Zones.{Placed}
use aurora_os_old.VirtMap.Space.Entries.{Zone}
use aurora_os_old.VirtMap.Space.Find.{IsVirtAddr, IsLowest, find_range-IsLowest}
use aurora_os_old.VirtMap.Mapper.{MemErr, VirtMapper, map, place, remap_at, reverted, same_type}
use aurora_os_old.VirtMap.Mapper.Whole.{IsWhole, IsSpace}
use aurora_os_old.VirtMap.Mapper.Steps.{Lower, IsDown, IsLimit}
use aurora_os_old.VirtMap.Mapper.Reach.{
  Reachable, start, maps, Reachable-IsSpace, Reachable-get_mapped_range,
}
use aurora_os_old.VirtMap.Mapper.Shrink.{remap_at-shrunk}
use aurora_os_old.VirtMap.Realloc.{realloc_func}
use aurora_os_old.VirtMap.Realloc.Diverges.{realloc_func-diverges}

abbrev down : ℕ → ℕ → ℕ
down a p = a / p * p

abbrev up : ℕ → ℕ → ℕ
up a p = (a + (p - 1)) / p * p

abbrev to_phys : ℕ → ℕ
to_phys a = a

-- the log of the deallocations
abbrev log : Allocation → List Allocation → List Allocation
log a z = a ∷ z

down-IsDown : IsDown down
down-IsDown = record { multiple = λ a. omega arith; exact = λ a h. omega (arith, h) }

-- `VirtAddr::new`
abbrev canonical : ℕ → Option ℕ
canonical a =
    if ltb a lower_end
    then some a
    else if ltb a 281474976710656
    then some (a + 18446462598732840960)
    else if ltb a 18446603336221196288
    then none
    else some a

canonical-IsVirtAddr : IsVirtAddr canonical
canonical-IsVirtAddr = record { lower = λ a h. ground arith; upper = λ a v h e. ground arith }

limit : IsLimit 65536
limit = record { low = omega arith; high = omega arith }

-- one page, and two
abbrev one : Element
one = record {
  phys_data = mem (record { addr = 1048576; size = 4096 });
  map_size = 4096;
  flags = 3;
  mapping_flags = 3;
}

abbrev two : Element
two = record {
  phys_data = alloced_mem (record { addr = 2097152; len = 8192 });
  map_size = 8192;
  flags = 3;
  mapping_flags = 3;
}

abbrev mapped : VirtLayout
mapped = record {
  elements = one ∷ two ∷ [];
  dealloc_que = [];
  dirty_index = 2;
  clean_size = 12288;
  atype = virt_mem;
}

mapped-IsSynced : IsSynced mapped
mapped-IsSynced = record { all_clean = refl; no_queue = refl; counted = refl }

abbrev ks : List Edit
ks = popped ∷ pushed one ∷ []

sync_mem-IsSynced_example :
    IsSynced (sync_mem log (edits ks mapped) []).0
    × ((sync_mem log (edits ks mapped) []).0.elements ≡ (edits ks mapped).elements)
    × ((sync_mem log (edits ks mapped) []).1 ≡ dealloc_all log (edits ks mapped).dealloc_que [])
unfolding push pop_delete pop
sync_mem-IsSynced_example = sync_mem-IsSynced log ks mapped [] mapped-IsSynced (omega arith)

revert-edits_example :
    ((revert log (edits ks mapped) []).0.elements ≡ mapped.elements)
    × ((revert log (edits ks mapped) []).0.dealloc_que ≡ [])
    × ((revert log (edits ks mapped) []).0.clean_size ≡ mapped.clean_size)
    × ((revert log (edits ks mapped) []).1
        ≡ dealloc_all log (reversed (dirty_slice (edits ks mapped))) [])
revert-edits_example = revert-edits log ks mapped [] mapped-IsSynced

-- After `revert`, the element that was given back counts as one that is not mapped.
not_synced : (revert log (pop_delete mapped) []).0.dirty_index ≡ 1
unfolding revert pop_delete pop
not_synced = refl

abbrev low : Range
low = record { addr = 8192; size = 12288 }

abbrev high : Range
high = record { addr = 32768; size = 12288 }

abbrev zones : List (Range × VirtLayout)
zones = (low, mapped) ∷ (high, mapped) ∷ []

low-IsPages : IsPages low
low-IsPages = record {
  addr_pages = refl;
  size_pages = refl;
  nonempty = omega arith;
  bounded = omega arith;
}

high-IsPages : IsPages high
high-IsPages = record {
  addr_pages = refl;
  size_pages = refl;
  nonempty = omega arith;
  bounded = omega arith;
}

zones-Placed : Placed 4096 65536 zones
zones-Placed = (omega arith, low-IsPages, omega arith, (omega arith, high-IsPages, omega arith, tt))

find_range-IsLowest_example :
    IsLowest 65536 8192 zones (find_range down up canonical 65536 8192 zones)
find_range-IsLowest_example =
    find_range-IsLowest down up canonical (λ a h. omega (arith, h)) canonical-IsVirtAddr 65536 8192
      zones (omega arith) (omega arith) refl (omega arith) zones-Placed

-- The lower half but its first page
abbrev half : List (Range × VirtLayout)
half = (record { addr = 4096; size = 140737488351232 }, mapped) ∷ []

-- Behind the lower half `find_range` goes on to the upper one, where a number has all its high bits.
sign_extended :
    find_range down up canonical 18446744071562067968 8192 half
    ≡ some (some (record { addr = 18446603336221196288; size = 8192 }))
unfolding find_range find_loop new align_up
sign_extended = refl

abbrev gap : Range
gap = record { addr = 20480; size = 8192 }

abbrev grown : Range
grown = record { addr = 8192; size = 16384 }

abbrev pmit : Pmit
pmit = record {
  phys_zone = record { addr = 1048576; size = 8192 };
  virt_zone = record { addr = 4096; size = 8192 };
  flags = 3;
}

abbrev unmapped : Table
unmapped x = none

abbrev fresh : VirtLayout
fresh = record {
  elements = one ∷ two ∷ [];
  dealloc_que = [];
  dirty_index = 0;
  clean_size = 0;
  atype = virt_mem;
}

fresh-IsWhole : IsWhole fresh
fresh-IsWhole = record { kept = (refl, (refl, tt)); queue = tt }

abbrev nothing : VirtMapper Table (List Allocation)
nothing = record { virt_map = []; table = unmapped; zm = [] }

abbrev space : VirtMapper Table (List Allocation)
space = record { virt_map = zones; table = unmapped; zm = [] }

space-IsSpace : IsSpace 65536 space
space-IsSpace = record {
  placed = zones-Placed;
  layouts = (
    record { kept = (refl, (refl, tt)); queue = tt },
    (record { kept = (refl, (refl, tt)); queue = tt }, tt),
  );
}

nothing-Lower : Lower (map down up canonical to_phys 65536 set_zones log fresh nothing).0
unfolding map size add_sizes find_range find_loop place new align_up new_iter queue_zones map_zones
    dirty_slice
nothing-Lower = omega arith

reached :
    Reachable down up canonical to_phys 65536 set_zones log
      (map down up canonical to_phys 65536 set_zones log fresh nothing).1
reached = maps fresh nothing fresh-IsWhole (start nothing refl) nothing-Lower

Reachable-IsSpace_example :
    IsSpace 65536 (map down up canonical to_phys 65536 set_zones log fresh nothing).1
Reachable-IsSpace_example =
    Reachable-IsSpace down up canonical to_phys 65536 set_zones log down-IsDown limit
      canonical-IsVirtAddr (map down up canonical to_phys 65536 set_zones log fresh nothing).1
      reached

Reachable-get_mapped_range_example :
    (get_mapped_range 9000
        (map down up canonical to_phys 65536 set_zones log fresh nothing).1.virt_map
      ≡ some (record { addr = 4096; size = 12288 }))
    ↔ (Zone
          (record { addr = 4096; size = 12288 })
          (map down up canonical to_phys 65536 set_zones log fresh nothing).1.virt_map
        × In 9000 (record { addr = 4096; size = 12288 }))
Reachable-get_mapped_range_example =
    Reachable-get_mapped_range down up canonical to_phys 65536 set_zones log down-IsDown limit
      canonical-IsVirtAddr (map down up canonical to_phys 65536 set_zones log fresh nothing).1 9000
      (record { addr = 4096; size = 12288 }) reached

abbrev room : Range
room = record { addr = 49152; size = 12288 }

-- the change that deletes the last element
abbrev shrink : VirtLayout → List Allocation → Option MemErr × VirtLayout × List Allocation
shrink l z = (none, pop_delete l, z)

low_aligned : aligned down up low ≡ low
unfolding aligned new_aligned align_up
low_aligned = refl

in_low : get (aligned down up low) zones ≡ some mapped
unfolding aligned new_aligned align_up get range_eq
in_low = refl

popped-IsWhole : IsWhole (pop_delete mapped)
unfolding pop_delete pop
popped-IsWhole = record { kept = (refl, tt); queue = (refl, tt) }

sizes : (0 < size (pop_delete mapped)) × (size (pop_delete mapped) ≤ (aligned down up low).size)
unfolding pop_delete pop size add_sizes aligned new_aligned align_up
sizes = (omega arith, omega arith)

here : down 8192 page_size ≡ (aligned down up low).addr
unfolding aligned new_aligned
here = refl

remap_at-shrunk_example :
    remap_at down up canonical to_phys 65536 set_zones log shrink low 8192 virt_mem space
    ≡ reverted down up canonical to_phys 65536 set_zones log
        (pop_delete mapped)
        (aligned down up low)
        (record space { virt_map = insert (aligned down up low) (pop_delete mapped) zones })
unfolding same_type
remap_at-shrunk_example =
    remap_at-shrunk down up canonical to_phys 65536 set_zones log down-IsDown limit
      canonical-IsVirtAddr shrink low 8192 virt_mem space mapped (pop_delete mapped) []
      space-IsSpace in_low refl refl popped-IsWhole (sizes.0) (sizes.1) here

-- an allocator that always refuses
abbrev refuses : ℕ → List Allocation → Option Allocation × List Allocation
refuses size z = (none, z)

realloc_func-diverges_example : realloc_func refuses 100 3 4096 mapped [] ≡ none
realloc_func-diverges_example =
    realloc_func-diverges refuses 100 3 4096 mapped [] mapped-IsSynced (omega arith) (omega arith)
      (omega arith)
