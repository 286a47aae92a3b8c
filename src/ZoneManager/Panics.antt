-- ===== src/ZoneManager/Panics.antt =====
-- `alloc_at` and `oalloc_at` of ZoneManager at an address outside of all zones.
use aurora_os_old.Prelude.{
  ℕ, suc, ◌+◌, ◌<◌, ◌≡◌, refl, Bool, false, Option, none, List, [], ◌∷◌, length, lt→ltb, arith,
}
use aurora_os_old.ZoneManager.{
  Allocation, Buddy, ZoneManager, max_zones, contains_loop, allocer_action_contains, alloc_at,
  oalloc_at,
}

module _ {B : Type 0} where
  -- No zone passes the test.
  abbrev pub Outside : (B → Bool) → List B → Type 0
  Outside test [] = Unit
  Outside test (b ∷ bs) = (test b ≡ false) × Outside test bs

  contains_loop-panics :
      (test : B → Bool) (act : B → Option Allocation × B) (i : ℕ) (bs : List B)
      → i + length bs < max_zones
      → Outside test bs
      → contains_loop test act i bs ≡ none
  unfolding contains_loop
  contains_loop-panics test act i [] h o = rw (lt→ltb i max_zones (omega arith)) refl
  contains_loop-panics test act i (b ∷ bs) h (e, o) =
      rw (e, contains_loop-panics test act (suc i) bs (omega arith) o) refl

  -- With fewer than four zones, `alloc_at` and `oalloc_at` panic at every address that no zone contains.
  pub alloc_at-panics :
      (buddy : Buddy B) (addr n : ℕ) (z : ZoneManager B)
      → length z.zones < max_zones
      → Outside (buddy.contains_addr addr) z.zones
      → (alloc_at buddy addr n z ≡ none) × (oalloc_at buddy addr n z ≡ none)
  unfolding alloc_at oalloc_at allocer_action_contains
  alloc_at-panics buddy addr n z h o =
      let panics : (act : B → Option Allocation × B)
          → contains_loop (buddy.contains_addr addr) act 0 z.zones ≡ none =
        λ act. contains_loop-panics (buddy.contains_addr addr) act 0 z.zones (omega arith) o in
      (
        rw (alloc_at, allocer_action_contains, panics (buddy.alloc_at addr n)) refl,
        rw (oalloc_at, allocer_action_contains, panics (buddy.oalloc_at addr n)) refl,
      )
