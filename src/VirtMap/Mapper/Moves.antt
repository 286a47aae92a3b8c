-- ===== src/VirtMap/Mapper/Moves.antt =====
-- `remap`, `remap_at` and `unmap` keep the zones whole pages, in order and apart.
use aurora_os_old.Prelude.{
  ℕ, ◌%◌, ◌≡◌, ◌⊎◌, inl, inr, Bool-cases, Option, some, Option-cases, List, ◌==◌,
}
use aurora_os_old.Misc.{page_size}
use aurora_os_old.Mem.{Range, new, aligned}
use aurora_os_old.VirtMap.{Allocation}
use aurora_os_old.VirtMap.Layout.{VirtLayout, AllocType, size}
use aurora_os_old.VirtMap.Pages.{Pmit, new_unmapper}
use aurora_os_old.VirtMap.Space.{get, insert, remove, find_range, free_space}
use aurora_os_old.VirtMap.Space.Entries.{
  Zone, Zone-low, get-Zone, insert-Zone, remove-Clear, replace-Placed,
}
use aurora_os_old.VirtMap.Space.Find.{IsFree, IsVirtAddr}
use aurora_os_old.VirtMap.Mapper.{
  MemErr, Failure, VirtMapper, same_type, unmapped, move_layout, move_layout_at, change_layout,
  remap, remap_at, unmap,
}
use aurora_os_old.VirtMap.Mapper.Whole.{IsWhole, insert-AllLayouts, get-IsWhole, IsSpace}
use aurora_os_old.VirtMap.Mapper.Steps.{
  IsDown, IsLimit, Kept, nested_cases, KeepsWhole, place-IsSpace, moved-IsSpace, found,
  gone-IsSpace, vanish-IsSpace, reverted-IsSpace, nrange_free,
}

module _ {T Z : Type 0} (addr_down addr_up : ℕ → ℕ → ℕ) (virt_addr : ℕ → Option ℕ)
    (virt_to_phys : ℕ → ℕ) (hi : ℕ) (map_internal : List Pmit → T → T)
    (dealloc : Allocation → Z → Z) (down : IsDown addr_down) (limit : IsLimit hi)
    (canon : IsVirtAddr virt_addr) where
  cleared :
      (zone k : Range) (m : List (Range × VirtLayout)) → IsFree hi k m → IsFree hi k (remove zone m)
  cleared zone k m f = record { low = f.low; high = f.high; clear = remove-Clear k zone m f.clear }

  move_layout-IsSpace :
      (l : VirtLayout) (zone : Range) (s : VirtMapper T Z)
      → IsWhole l
      → Zone zone s.virt_map
      → IsSpace hi s
      → let r =
          move_layout addr_down addr_up virt_addr virt_to_phys hi map_internal dealloc l zone s in
        Kept hi r.0 r.1
  unfolding move_layout
  move_layout-IsSpace l zone s w y k =
      let nrange = new addr_down addr_up zone.addr (size l) in
      let gone = record s { virt_map = remove zone s.virt_map } in
      let k' =
        gone-IsSpace addr_down addr_up virt_addr virt_to_phys hi map_internal dealloc down limit
          canon zone s k in
      let (_, old, _) = Zone-low 4096 hi zone s.virt_map k.placed y in
      elim (Bool-cases (size l == 0)) [
        | inl z ↦
            rw (move_layout, z)
              (λ _.
                vanish-IsSpace addr_down addr_up virt_addr virt_to_phys hi map_internal dealloc down
                  limit canon l nrange gone k')
        | inr z ↦ elim (Option-cases (free_space hi nrange (some zone) s.virt_map)) [
          | inr (space, e) ↦
              let room =
                nrange_free addr_down addr_up virt_addr virt_to_phys hi map_internal dealloc down
                  limit canon l zone zone.addr s.virt_map space w old.addr_pages z y k.placed e in
              rw (move_layout, z, e)
                (place-IsSpace addr_down addr_up virt_addr virt_to_phys hi map_internal dealloc down
                  limit canon l nrange gone w (λ _. room) k')
          | inl n ↦
              elim (nested_cases (find_range addr_down addr_up virt_addr hi (size l) s.virt_map)) [
                | inl stop ↦ rw (move_layout, z, n, stop) (λ _. k)
                | inr (inl none_left) ↦
                    rw (move_layout, z, n, none_left)
                      (λ _.
                        reverted-IsSpace addr_down addr_up virt_addr virt_to_phys hi map_internal
                          dealloc down limit canon l zone s w y k)
                | inr (inr (best, e)) ↦
                    rw (move_layout, z, n, e)
                      (moved-IsSpace addr_down addr_up virt_addr virt_to_phys hi map_internal
                        dealloc down limit canon l zone best gone w
                        (λ low.
                          let (i, f) =
                            found addr_down addr_up virt_addr virt_to_phys hi map_internal dealloc
                              down limit canon l s.virt_map best w z k.placed e low in
                          (i, cleared zone best s.virt_map f))
                        k')
              ]
        ]
      ]

  move_layout_at-IsSpace :
      (l : VirtLayout) (zone : Range) (target : ℕ) (s : VirtMapper T Z)
      → IsWhole l
      → target % 4096 ≡ 0
      → Zone zone s.virt_map
      → IsSpace hi s
      → let r =
          move_layout_at addr_down addr_up virt_addr virt_to_phys hi map_internal dealloc l zone
            target s in
        Kept hi r.0 r.1
  unfolding move_layout_at
  move_layout_at-IsSpace l zone target s w a y k =
      let nrange = new addr_down addr_up target (size l) in
      let gone = record s { virt_map = remove zone s.virt_map } in
      let k' =
        gone-IsSpace addr_down addr_up virt_addr virt_to_phys hi map_internal dealloc down limit
          canon zone s k in
      elim (Bool-cases (size l == 0)) [
        | inl z ↦
            rw (move_layout_at, z)
              (λ _.
                vanish-IsSpace addr_down addr_up virt_addr virt_to_phys hi map_internal dealloc down
                  limit canon l nrange gone k')
        | inr z ↦ elim (Option-cases (free_space hi nrange (some zone) s.virt_map)) [
          | inl n ↦
              rw (move_layout_at, z, n)
                (λ _.
                  reverted-IsSpace addr_down addr_up virt_addr virt_to_phys hi map_internal dealloc
                    down limit canon l zone s w y k)
          | inr (space, e) ↦
              let room =
                nrange_free addr_down addr_up virt_addr virt_to_phys hi map_internal dealloc down
                  limit canon l zone target s.virt_map space w a z y k.placed e in
              elim (Bool-cases (target == zone.addr)) [
                | inl t ↦
                    rw (move_layout_at, z, e, t)
                      (place-IsSpace addr_down addr_up virt_addr virt_to_phys hi map_internal
                        dealloc down limit canon l nrange gone w (λ _. room) k')
                | inr t ↦
                    rw (move_layout_at, z, e, t)
                      (moved-IsSpace addr_down addr_up virt_addr virt_to_phys hi map_internal
                        dealloc down limit canon l zone nrange gone w (λ _. room) k')
              ]
        ]
      ]

  module _ (alloc_func : VirtLayout → Z → Option MemErr × VirtLayout × Z)
      (keeps : KeepsWhole alloc_func) where
    change_layout-IsSpace :
        (zone : Range) (atype : AllocType)
        (rest : VirtLayout → VirtMapper T Z → (Failure ⊎ Range) × VirtMapper T Z)
        (s : VirtMapper T Z)
        → ((l : VirtLayout) (u : VirtMapper T Z)
            → IsWhole l
            → Zone zone u.virt_map
            → IsSpace hi u
            → Kept hi (rest l u).0 (rest l u).1)
        → IsSpace hi s
        → let r =
            change_layout addr_down addr_up virt_addr virt_to_phys hi map_internal dealloc
              alloc_func zone atype rest s in
          Kept hi r.0 r.1
    unfolding change_layout
    change_layout-IsSpace zone atype rest s next k = elim (Option-cases (get zone s.virt_map)) [
      | inl n ↦ rw (change_layout, n) (λ _. k)
      | inr (l, e) ↦
          let y = get-Zone zone l s.virt_map e in
          let w = keeps l s.zm (get-IsWhole zone l s.virt_map e k.layouts) in
          let l' = (alloc_func l s.zm).1 in
          let s' = record s { virt_map = insert zone l' s.virt_map; zm = (alloc_func l s.zm).2 } in
          let k' : IsSpace hi s' = record {
            placed = replace-Placed 4096 hi zone l' s.virt_map y k.placed;
            layouts = insert-AllLayouts zone l' s.virt_map w k.layouts;
          } in
          elim (Bool-cases (same_type l.atype atype)) [
            | inr t ↦ rw (change_layout, e, t) (λ _. k)
            | inl t ↦ elim (Option-cases (alloc_func l s.zm).0) [
              | inl n ↦
                  rw (change_layout, e, t, n) (next l' s' w (insert-Zone zone l' s.virt_map) k')
              | inr (err, n) ↦ rw (change_layout, e, t, n) (λ _. k')
            ]
          ]
    ]

    pub remap-IsSpace :
        (zone : Range) (atype : AllocType) (s : VirtMapper T Z)
        → IsSpace hi s
        → let r =
            remap addr_down addr_up virt_addr virt_to_phys hi map_internal dealloc alloc_func zone
              atype s in
          Kept hi r.0 r.1
    unfolding remap
    remap-IsSpace zone atype s k =
        let z = aligned addr_down addr_up zone in
        change_layout-IsSpace z atype _ s (λ l u w y k'. move_layout-IsSpace l z u w y k') k

    pub remap_at-IsSpace :
        (zone : Range) (target : ℕ) (atype : AllocType) (s : VirtMapper T Z)
        → IsSpace hi s
        → let r =
            remap_at addr_down addr_up virt_addr virt_to_phys hi map_internal dealloc alloc_func
              zone target atype s in
          Kept hi r.0 r.1
    unfolding remap_at
    remap_at-IsSpace zone target atype s k =
        let z = aligned addr_down addr_up zone in
        change_layout-IsSpace z atype _ s
          (λ l u w y k'.
            move_layout_at-IsSpace l z (addr_down target page_size) u w (down.multiple target) y k')
          k

  pub unmap-IsSpace :
      (zone : Range) (atype : AllocType) (s : VirtMapper T Z)
      → IsSpace hi s
      → IsSpace hi
          (unmap addr_down addr_up virt_addr virt_to_phys hi map_internal dealloc zone atype s).1
  unfolding unmap unmapped
  unmap-IsSpace zone atype s k = elim (Option-cases (get zone s.virt_map)) [
    | inl n ↦ rw (unmap, n) k
    | inr (l, e) ↦ elim (Bool-cases (same_type l.atype atype)) [
      | inr t ↦ rw (unmap, e, t) k
      | inl t ↦
          let k' =
            gone-IsSpace addr_down addr_up virt_addr virt_to_phys hi map_internal dealloc down limit
              canon zone s k in
          elim (Option-cases (new_unmapper addr_down addr_up virt_to_phys virt_addr l zone)) [
            | inl n ↦ rw (unmap, e, t, unmapped, n) k
            | inr (zones, n) ↦
                rw (unmap, e, t, unmapped, n) (record { placed = k'.placed; layouts = k'.layouts })
          ]
    ]
  ]
