-- ===== src/VirtMap/Pages/Backing.antt =====
-- What the zones of `PageMappingIterator::new` make of a table for a layout that is not mapped yet.
use aurora_os_old.Prelude.{
  ℕ, ◌+◌, ◌-◌, ◌%◌, ◌≤◌, ◌<◌, ◌≡◌, refl, sym, ap, ◌∙◌, true, false, Bool-cases, inl, inr, Option,
  none, some, none_ne, Option-cases, List, [], ◌∷◌, ◌++◌, arith, word_mod, wadd, ltb, lt→ltb,
  le→ltb, if◌then◌else◌,
}
use native.Mathlib.Decide.{dec_lt}
use aurora_os_old.Mem.{Range, lower_end}
use aurora_os_old.VirtMap.{Element, as_phys_zone, flags_present}
use aurora_os_old.VirtMap.Layout.{VirtLayout, dirty_slice}
use aurora_os_old.VirtMap.Layout.Edits.{total}
use aurora_os_old.VirtMap.Space.Find.{at, new_pages, IsVirtAddr}
use aurora_os_old.VirtMap.Pages.{Pmit, Table, element_zone, queue_zones, map_zones, new_iter}
use aurora_os_old.VirtMap.Pages.Run.{set_zone, set_zones}
use aurora_os_old.VirtMap.Mapper.Whole.{AllWhole}

-- A layout that was not mapped yet
pub record IsFresh (l : VirtLayout) : Type 0 where
  pub all_dirty : l.dirty_index ≡ 0
  pub no_queue : l.dealloc_que ≡ []
  pub no_size : l.clean_size ≡ 0

module _ (addr_down addr_up : ℕ → ℕ → ℕ) (virt_to_phys : ℕ → ℕ) where
  -- The physical address and the flags at an offset in a list of elements, and `other` where the
  -- element there has no memory to map, and behind the elements
  unfoldable pub backing : List Element → ℕ → Option (ℕ × ℕ) → Option (ℕ × ℕ)
  backing [] off other = other
  backing (e ∷ es) off other =
      let later = backing es (off - e.map_size) other in
      if ltb off e.map_size
      then elim (as_phys_zone addr_down addr_up virt_to_phys e) [
        | none ↦ other
        | some r ↦ some (r.addr + off, e.flags)
      ]
      else later

  -- The zones of elements from `vaddr` on, by plain sums
  unfoldable pub zones_from : (vaddr : ℕ) → List Element → List Pmit
  zones_from vaddr [] = []
  zones_from vaddr (e ∷ es) =
      element_zone addr_down addr_up virt_to_phys vaddr e.flags e
      ++ zones_from (wadd vaddr e.map_size) es

  no_zone :
      (e : Element)
      → flags_present e.flags ≡ false
      → as_phys_zone addr_down addr_up virt_to_phys e ≡ none
  unfolding as_phys_zone
  no_zone e f = rw (as_phys_zone, f) refl

  as_phys_zone-present :
      (e : Element) (r : Range)
      → as_phys_zone addr_down addr_up virt_to_phys e ≡ some r
      → flags_present e.flags ≡ true
  unfolding as_phys_zone
  as_phys_zone-present e r h = elim (Bool-cases (flags_present e.flags)) [
    | inl t ↦ t
    | inr f ↦ absurd (none_ne r (sym (no_zone e f) ∙ h))
  ]

  backing-none :
      (e : Element) (es : List Element) (off : ℕ) (other : Option (ℕ × ℕ))
      → off < e.map_size
      → as_phys_zone addr_down addr_up virt_to_phys e ≡ none
      → backing (e ∷ es) off other ≡ other
  unfolding backing
  backing-none e es off other h n = rw (backing, lt→ltb off e.map_size h, n) refl

  backing-some :
      (e : Element) (es : List Element) (off : ℕ) (other : Option (ℕ × ℕ)) (r : Range)
      → off < e.map_size
      → as_phys_zone addr_down addr_up virt_to_phys e ≡ some r
      → backing (e ∷ es) off other ≡ some (r.addr + off, e.flags)
  unfolding backing
  backing-some e es off other r h n = rw (backing, lt→ltb off e.map_size h, n) refl

  backing_behind :
      (e : Element) (es : List Element) (vaddr x : ℕ) (other : Option (ℕ × ℕ))
      → vaddr + e.map_size ≤ x
      → backing es (x - (vaddr + e.map_size)) other ≡ backing (e ∷ es) (x - vaddr) other
  unfolding backing
  backing_behind e es vaddr x other h =
      let off : x - (vaddr + e.map_size) ≡ x - vaddr - e.map_size = omega arith in
      rw (off, le→ltb (x - vaddr) e.map_size (omega arith)) refl

  module _ (addr_down_pages : (a : ℕ) → a % 4096 ≡ 0 → addr_down a 4096 ≡ a) where
    zone_of :
        (vaddr : ℕ) (e : Element) (r : Range) (ps : List Pmit) (t : Table)
        → vaddr % 4096 ≡ 0
        → e.map_size % 4096 ≡ 0
        → e.map_size + 4096 ≤ word_mod
        → as_phys_zone addr_down addr_up virt_to_phys e ≡ some r
        → set_zones (element_zone addr_down addr_up virt_to_phys vaddr e.flags e ++ ps) t
          ≡ set_zones ps (
              set_zone
                (record { phys_zone = r; virt_zone = at vaddr e.map_size; flags = e.flags })
                t)
    unfolding element_zone set_zones
    zone_of vaddr e r ps t a d b h =
        rw (element_zone, h, new_pages addr_down addr_up vaddr e.map_size addr_down_pages a d b)
          refl

    zone_none :
        (vaddr : ℕ) (e : Element) (ps : List Pmit) (t : Table)
        → as_phys_zone addr_down addr_up virt_to_phys e ≡ none
        → set_zones (element_zone addr_down addr_up virt_to_phys vaddr e.flags e ++ ps) t
          ≡ set_zones ps t
    unfolding element_zone
    zone_none vaddr e ps t h = rw (element_zone, h) refl

    set_zone-in :
        (r : Range) (vaddr size flags x : ℕ) (t : Table)
        → vaddr ≤ x
        → x < vaddr + size
        → flags_present flags ≡ true
        → set_zone (record { phys_zone = r; virt_zone = at vaddr size; flags = flags }) t x
          ≡ some (r.addr + (x - vaddr), flags)
    unfolding set_zone
    set_zone-in r vaddr size flags x t low high p = rw p (ground arith)

    set_zone-out :
        (r : Range) (vaddr size flags x : ℕ) (t : Table)
        → vaddr + size ≤ x
        → set_zone (record { phys_zone = r; virt_zone = at vaddr size; flags = flags }) t x ≡ t x
    unfolding set_zone
    set_zone-out r vaddr size flags x t high = ground arith

    set_zone-below :
        (r : Range) (vaddr size flags x : ℕ) (t : Table)
        → x < vaddr
        → set_zone (record { phys_zone = r; virt_zone = at vaddr size; flags = flags }) t x ≡ t x
    unfolding set_zone
    set_zone-below r vaddr size flags x t low = ground arith

    zones_from-below :
        (vaddr : ℕ) (es : List Element) (t : Table) (x : ℕ)
        → vaddr % 4096 ≡ 0
        → AllWhole es
        → vaddr + total es < word_mod
        → x < vaddr
        → set_zones (zones_from vaddr es) t x ≡ t x
    unfolding zones_from set_zones
    zones_from-below vaddr [] t x a w b h = refl
    zones_from-below vaddr (e ∷ es) t x a (d, w) b h =
        let v : wadd vaddr e.map_size ≡ vaddr + e.map_size = omega arith in
        let ps = zones_from (wadd vaddr e.map_size) es in
        let ih : (u : Table) → set_zones ps u x ≡ u x = λ u. rw v (
          zones_from-below (vaddr + e.map_size) es u x (omega (arith, a, d)) w (omega arith)
            (omega arith)) in
        elim (Option-cases (as_phys_zone addr_down addr_up virt_to_phys e)) [
          | inl n ↦ ap (λ u. u x) (zone_none vaddr e ps t n) ∙ ih t
          | inr (r, s) ↦
              ap (λ u. u x) (zone_of vaddr e r ps t a d (omega (arith, d)) s)
              ∙ ih _
              ∙ set_zone-below r vaddr e.map_size e.flags x t h
        ]

    -- The zones of a list of elements map the addresses from `vaddr` on to what backs them.
    pub zones_from-backing :
        (vaddr : ℕ) (es : List Element) (t : Table) (x : ℕ)
        → vaddr % 4096 ≡ 0
        → AllWhole es
        → vaddr + total es < word_mod
        → vaddr ≤ x
        → set_zones (zones_from vaddr es) t x ≡ backing es (x - vaddr) (t x)
    unfolding zones_from set_zones backing
    zones_from-backing vaddr [] t x a w b h = refl
    zones_from-backing vaddr (e ∷ es) t x a (d, w) b h =
        let v : wadd vaddr e.map_size ≡ vaddr + e.map_size = omega arith in
        let ps = zones_from (wadd vaddr e.map_size) es in
        let zone = as_phys_zone addr_down addr_up virt_to_phys e in
        let small : e.map_size + 4096 ≤ word_mod = omega (arith, d) in
        elim (dec_lt (x - vaddr) e.map_size) [
          | yes inside ↦
              let below : (u : Table) → set_zones ps u x ≡ u x = λ u. rw v (
                zones_from-below (vaddr + e.map_size) es u x (omega (arith, a, d)) w (omega arith)
                  (omega arith)) in
              elim (Option-cases zone) [
                | inl n ↦
                    ap (λ u. u x) (zone_none vaddr e ps t n)
                    ∙ below t
                    ∙ sym (backing-none e es (x - vaddr) (t x) inside n)
                | inr (r, s) ↦
                    ap (λ u. u x) (zone_of vaddr e r ps t a d small s)
                    ∙ below _
                    ∙ set_zone-in r vaddr e.map_size e.flags x t h (omega arith)
                        (as_phys_zone-present e r s)
                    ∙ sym (backing-some e es (x - vaddr) (t x) r inside s)
              ]
          | no behind ↦
              let ih : (u : Table)
                  → u x ≡ t x
                  → set_zones ps u x ≡ backing (e ∷ es) (x - vaddr) (t x) =
                λ u same.
                  rw v (
                    zones_from-backing (vaddr + e.map_size) es u x (omega (arith, a, d)) w
                      (omega arith) (omega arith))
                  ∙ ap (λ o. backing es (x - (vaddr + e.map_size)) o) same
                  ∙ backing_behind e es vaddr x (t x) (omega arith) in
              elim (Option-cases zone) [
                | inl n ↦ ap (λ u. u x) (zone_none vaddr e ps t n) ∙ ih t refl
                | inr (r, s) ↦
                    ap (λ u. u x) (zone_of vaddr e r ps t a d small s)
                    ∙ ih _ (set_zone-out r vaddr e.map_size e.flags x t (omega arith))
              ]
        ]

    -- In the lower half of the address space no sum panics.
    module _ (virt_addr : ℕ → Option ℕ) (canon : IsVirtAddr virt_addr) where
      map_zones-some :
          (vaddr : ℕ) (es : List Element)
          → vaddr + total es < lower_end
          → map_zones addr_down addr_up virt_to_phys virt_addr vaddr es ≡ some (zones_from vaddr es)
      unfolding map_zones zones_from
      map_zones-some vaddr [] h = refl
      map_zones-some vaddr (e ∷ es) h =
          let v : wadd vaddr e.map_size ≡ vaddr + e.map_size = omega arith in
          rw
            (
              map_zones,
              v,
              canon.lower (vaddr + e.map_size) (omega arith),
              map_zones-some (vaddr + e.map_size) es (omega arith),
            )
            refl

      new_iter-fresh :
          (l : VirtLayout) (zone : Range)
          → IsFresh l
          → zone.addr + total l.elements < lower_end
          → new_iter addr_down addr_up virt_to_phys virt_addr l zone
            ≡ some (zones_from zone.addr l.elements)
      unfolding new_iter queue_zones dirty_slice
      new_iter-fresh l zone f h =
          let addr : wadd zone.addr 0 ≡ zone.addr = omega arith in
          rw
            (
              new_iter,
              f.no_size,
              addr,
              canon.lower zone.addr (omega arith),
              f.no_queue,
              queue_zones,
              dirty_slice,
              f.all_dirty,
              map_zones-some zone.addr l.elements h,
            )
            refl

      -- For a layout of whole pages that was not mapped yet, at the address of a page, where the end is
      -- below 2 ^ 47, the iterator is made without a panic, and its zones map every address from there
      -- on to what backs it in the layout, and leave those below as they are.
      pub new_iter-backing :
          (l : VirtLayout) (zone : Range) (t : Table)
          → IsFresh l
          → AllWhole l.elements
          → zone.addr % 4096 ≡ 0
          → zone.addr + total l.elements < lower_end
          → (ps : List Pmit) × (new_iter addr_down addr_up virt_to_phys virt_addr l zone ≡ some ps)
            × ((x : ℕ)
                → zone.addr ≤ x
                → set_zones ps t x ≡ backing l.elements (x - zone.addr) (t x))
            × ((x : ℕ) → x < zone.addr → set_zones ps t x ≡ t x)
      new_iter-backing l zone t f w a b = (
        zones_from zone.addr l.elements,
        new_iter-fresh l zone f b,
        λ x h. zones_from-backing zone.addr l.elements t x a w (omega arith) h,
        λ x h. zones_from-below zone.addr l.elements t x a w (omega arith) h,
      )
