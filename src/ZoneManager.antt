-- ===== src/ZoneManager.antt =====
-- kernel/src/mem/phys_alloc.rs: ZoneManager, which takes physical memory from the buddy allocators of
-- up to four zones. A buddy allocator is the interface `Buddy` on its state `B`, and copying and clearing
-- of memory is left out. The zones are those that `init` filled, `zlen` of them. `none` of an outer Option
-- is a panic, or that the fuel of the loop ran out.
pub mod RoundRobin
pub mod Panics
mod Tests
use aurora_os_old.Prelude.{
  ℕ, zero, suc, ◌+◌, ◌%◌, Bool, true, false, not, ◌||◌, Option, none, some, List, [], ◌∷◌, length,
  get_elem?, set_elem, ltb, ◌==◌, if◌then◌else◌, wadd,
}
use aurora_os_old.Misc.{page_size}

-- `MAX_ZONES`
abbrev pub max_zones : ℕ
max_zones = 4

-- `Allocation` with the index of its zone
pub record Allocation : Type 0 where
  pub addr : ℕ
  pub len : ℕ
  pub zindex : ℕ

-- The operations of `BuddyAllocator` that the zones are used by: the answer and the state afterwards
pub record Buddy (B : Type 0) : Type 0 where
  pub alloc : (size : ℕ) → B → Option Allocation × B
  pub oalloc : (order : ℕ) → B → Option Allocation × B
  pub alloc_at : (addr size : ℕ) → B → Option Allocation × B
  pub oalloc_at : (addr order : ℕ) → B → Option Allocation × B
  pub realloc : Allocation → (size : ℕ) → B → Option Allocation × B
  pub orealloc : Allocation → (order : ℕ) → B → Option Allocation × B
  pub dealloc : Allocation → B → B
  pub contains : Allocation → B → Bool
  pub contains_addr : ℕ → B → Bool

pub record ZoneManager (B : Type 0) : Type 0 where
  pub zones : List B
  pub selnum : ℕ

module _ {B : Type 0} where
  abbrev pub zlen : ZoneManager B → ℕ
  zlen z = length z.zones

  -- The `while` of `allocer_action` from the zone `i`, on fuel
  unfoldable pub action_loop :
      (B → Option Allocation × B)
      → (f start i : ℕ) → (flag : Bool) → List B
      → Option (Option Allocation × List B)
  action_loop act zero start i flag zs = none
  action_loop act (suc f) start i flag zs =
      if not (i == start) || flag
      then elim (get_elem? zs i) [
        | none ↦ none
        | some b ↦
            let (answer, b') = act b in
            let later = action_loop act f start ((i + 1) % length zs) false (set_elem i b' zs) in
            elim answer [
              | some a ↦ some (some (record a { zindex = i }), set_elem i b' zs)
              | none ↦ later
            ]
      ]
      else some (none, zs)

  unfoldable pub allocer_action :
      (B → Option Allocation × B) → ZoneManager B → Option (Option Allocation × ZoneManager B)
  allocer_action act z =
      let start = z.selnum % zlen z in
      let done = action_loop act (zlen z + 1) start start true z.zones in
      if zlen z == 0 then none else elim done [
        | none ↦ none
        | some (answer, zs) ↦ some (answer, record { zones = zs; selnum = wadd z.selnum 1 })
      ]

  -- The loop of `allocer_action_contains` over the slots from `i` on: one that is not filled panics.
  unfoldable pub contains_loop :
      (B → Bool)
      → (B → Option Allocation × B)
      → (i : ℕ) → List B
      → Option (Option Allocation × List B)
  contains_loop test act i [] = if ltb i max_zones then none else some (none, [])
  contains_loop test act i (b ∷ bs) =
      let rest = contains_loop test act (suc i) bs in
      if test b
      then some ((act b).0, (act b).1 ∷ bs)
      else elim rest [ none ↦ none | some (answer, bs') ↦ some (answer, b ∷ bs') ]

  module _ (buddy : Buddy B) where
    unfoldable pub allocer_action_contains :
        ℕ → (B → Option Allocation × B) → ZoneManager B → Option (Option Allocation × ZoneManager B)
    allocer_action_contains addr act z =
        elim (contains_loop (buddy.contains_addr addr) act 0 z.zones) [
          | none ↦ none
          | some (answer, zs) ↦ some (answer, record z { zones = zs })
        ]

    -- `alloc`, and `allocz`, which clears the memory
    unfoldable pub alloc : (size : ℕ) → ZoneManager B → Option (Option Allocation × ZoneManager B)
    alloc size z = allocer_action (buddy.alloc size) z

    unfoldable pub oalloc : (order : ℕ) → ZoneManager B → Option (Option Allocation × ZoneManager B)
    oalloc order z = allocer_action (buddy.oalloc order) z

    -- `oallocz`, which takes its order for a size
    unfoldable pub oallocz :
        (order : ℕ) → ZoneManager B → Option (Option Allocation × ZoneManager B)
    oallocz order z = alloc order z

    unfoldable pub alloc_at :
        (addr size : ℕ) → ZoneManager B → Option (Option Allocation × ZoneManager B)
    alloc_at addr size z = allocer_action_contains addr (buddy.alloc_at addr size) z

    unfoldable pub oalloc_at :
        (addr order : ℕ) → ZoneManager B → Option (Option Allocation × ZoneManager B)
    oalloc_at addr order z = allocer_action_contains addr (buddy.oalloc_at addr order) z

    -- `realloc` and `orealloc`: in the zone of the memory, or else by `fresh`
    unfoldable pub realloc_with :
        (B → Option Allocation × B)
        → (ZoneManager B → Option (Option Allocation × ZoneManager B))
        → Allocation
        → ZoneManager B
        → Option (Option Allocation × ZoneManager B)
    realloc_with act fresh m z = elim (get_elem? z.zones m.zindex) [
      | none ↦ none
      | some b ↦
          let (answer, b') = act b in
          let z' = record z { zones = set_elem m.zindex b' z.zones } in
          elim answer [
            | some a ↦ some (some (record a { zindex = m.zindex }), z')
            | none ↦ fresh z'
          ]
    ]

    unfoldable pub realloc :
        Allocation → (size : ℕ) → ZoneManager B → Option (Option Allocation × ZoneManager B)
    realloc m size z = realloc_with (buddy.realloc m size) (alloc size) m z

    unfoldable pub orealloc :
        Allocation → (order : ℕ) → ZoneManager B → Option (Option Allocation × ZoneManager B)
    orealloc m order z = realloc_with (buddy.orealloc m order) (oalloc order) m z

    unfoldable pub dealloc : Allocation → ZoneManager B → Option (ZoneManager B)
    dealloc m z = elim (get_elem? z.zones m.zindex) [
      | none ↦ none
      | some b ↦ some (record z { zones = set_elem m.zindex (buddy.dealloc m b) z.zones })
    ]

    unfoldable pub alloc_frame : ZoneManager B → Option (Allocation × ZoneManager B)
    alloc_frame z = elim (alloc page_size z) [
      | none ↦ none
      | some (answer, z') ↦ elim answer [ none ↦ none | some a ↦ some (a, z') ]
    ]

    -- the loop of `dealloc_frame`
    unfoldable pub dealloc_frame_loop : Allocation → List B → List B
    dealloc_frame_loop frame [] = []
    dealloc_frame_loop frame (b ∷ bs) =
        let rest = dealloc_frame_loop frame bs in
        if buddy.contains frame b then buddy.dealloc frame b ∷ bs else b ∷ rest

    unfoldable pub dealloc_frame : Allocation → ZoneManager B → ZoneManager B
    dealloc_frame frame z = record z { zones = dealloc_frame_loop frame z.zones }
