-- ===== src/VirtMap/Mapper/Maps.antt =====
-- `map` where there is room, with the page table seen as the function from virtual addresses (see
-- Pages): `map_internal` is what `run_actions` gives for the zones of an iterator.
use aurora_os_old.Prelude.{ℕ, ◌-◌, ◌≤◌, ◌<◌, ◌≡◌, some, arith, word_mod}
use aurora_os_old.Mem.{Range, end_addr}
use aurora_os_old.Mem.Split.{In}
use aurora_os_old.VirtMap.Layout.{VirtLayout, size}
use aurora_os_old.VirtMap.Layout.Edits.{total, add_sizes_lem, IsSynced}
use aurora_os_old.VirtMap.Pages.{Table}
use aurora_os_old.VirtMap.Pages.Backing.{backing}
use aurora_os_old.VirtMap.Space.{get}
use aurora_os_old.VirtMap.Mapper.{VirtMapper}

pub size-total : (l : VirtLayout) → total l.elements < word_mod → size l ≡ total l.elements
unfolding size
size-total l h = omega (arith, add_sizes_lem 0 l.elements (omega arith))

module _ (addr_down addr_up : ℕ → ℕ → ℕ) (virt_to_phys : ℕ → ℕ) where
  -- `t` maps the addresses of `zone` to what backs them in the layout, and all others as `before`.
  pub record IsBacked (l : VirtLayout) (zone : Range) (before t : Table) : Type 0 where
    pub inside :
        (x : ℕ)
        → In x zone
        → t x ≡ backing addr_down addr_up virt_to_phys l.elements (x - zone.addr) (before x)
    pub below : (x : ℕ) → x < zone.addr → t x ≡ before x
    pub behind : (x : ℕ) → end_addr zone ≤ x → t x ≡ before x

module _ {Z : Type 0} (addr_down addr_up : ℕ → ℕ → ℕ) (virt_to_phys : ℕ → ℕ) where
  -- The state after a layout was mapped at `zone`
  pub record IsMapped (l : VirtLayout) (zone : Range) (before s : VirtMapper Table Z) : Type 0 where
    pub backed : IsBacked addr_down addr_up virt_to_phys l zone before.table s.table
    pub stored :
        (m : VirtLayout) × (get zone s.virt_map ≡ some m) × (m.elements ≡ l.elements) × IsSynced m
