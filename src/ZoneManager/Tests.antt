-- ===== src/ZoneManager/Tests.antt =====
-- Two zones that count the bytes they have left.
use aurora_os_old.Prelude.{
  ℕ, ◌+◌, ◌-◌, ◌%◌, ◌≡◌, refl, Option, none, some, [], ◌∷◌, leb, ltb, if◌then◌else◌, arith,
}
use aurora_os_old.ZoneManager.{
  Allocation, Buddy, ZoneManager, zlen, allocer_action, action_loop, alloc_at, oalloc_at,
}
use aurora_os_old.ZoneManager.RoundRobin.{IsTried, allocer_action-IsTried}
use aurora_os_old.ZoneManager.Panics.{alloc_at-panics}

-- A zone of `n` bytes, which gives its last bytes
abbrev take : ℕ → ℕ → Option Allocation × ℕ
take size n =
    if leb size n
    then (some (record { addr = n - size; len = size; zindex = 0 }), n - size)
    else (none, n)

abbrev counting : Buddy ℕ
counting = record {
  alloc = take;
  oalloc = take;
  alloc_at = λ addr size. take size;
  oalloc_at = λ addr size. take size;
  realloc = λ m size. take size;
  orealloc = λ m size. take size;
  dealloc = λ m n. n + m.len;
  contains = λ m n. leb (m.addr + m.len) n;
  contains_addr = λ addr n. ltb addr n;
}

abbrev small_large : ZoneManager ℕ
small_large = record { zones = 100 ∷ 8192 ∷ []; selnum = 4 }

allocer_action-IsTried_example :
    (r : Option Allocation × ZoneManager ℕ) × (allocer_action (take 4096) small_large ≡ some r)
    × IsTried (take 4096) small_large.zones (small_large.selnum % zlen small_large) r.0
allocer_action-IsTried_example = allocer_action-IsTried (take 4096) small_large (omega arith)

-- The first zone is too small, so the second one answers.
second :
    allocer_action (take 4096) small_large
    ≡ some (
      some (record { addr = 4096; len = 4096; zindex = 1 }),
      record { zones = 100 ∷ 4096 ∷ []; selnum = 5 },
    )
unfolding allocer_action action_loop
second = refl

alloc_at-panics_example :
    (alloc_at counting 10000 4096 small_large ≡ none)
    × (oalloc_at counting 10000 4096 small_large ≡ none)
alloc_at-panics_example =
    alloc_at-panics counting 10000 4096 small_large (omega arith) (refl, (refl, tt))
