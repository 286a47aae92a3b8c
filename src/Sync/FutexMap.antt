-- ===== src/Sync/FutexMap.antt =====
-- kernel/src/sched/sync.rs: `FutexMap`, the futex capabilities of a process, and `KFutex` as a
-- `CapObject`. The map is a `CapMap` whose objects are `fuid`s. The state of the interface is an
-- `Option Kernel`, `none` after a panic or in an endless loop.
use aurora_os_old.Prelude.{
  ℕ, ◌≡◌, refl, true, false, not, Option, none, some, List, min, ◌++◌, if◌then◌else◌, length, take,
  drop, wsub,
}
use aurora_os_old.Prelude.Dict
use aurora_os_old.SysErr.{invl_id, invl_perm, SysResult, returns, err}
use aurora_os_old.Sched.{Thread, ThreadList}
use aurora_os_old.Sched.Move.{woken}
use aurora_os_old.Cap.{CapObject, futex, CapMap, CapId, Capability, contains, cap_read}
use aurora_os_old.Sync.{KFutex, Kernel, block, unblock, inc_ref, dec_ref}
use aurora_os_old.Sync.Wake.{queue, unblock-wakes}

-- `inc_ref` and `dec_ref` on the futex that a capability refers to
unfoldable pub inc_ref_at : ℕ → Kernel → Option Kernel
inc_ref_at i s = elim (Dict.get i s.futexes) [
  | none ↦ none
  | some k ↦ some (record s { futexes = Dict.put i (inc_ref k) s.futexes })
]

unfoldable pub dec_ref_at : ℕ → ℕ → Kernel → Option Kernel
dec_ref_at p i s = elim (Dict.get i s.futexes) [
  | none ↦ none
  | some k ↦ elim (dec_ref p k s.threads) [
    | none ↦ none
    | some (k', l) ↦ some (record s { futexes = Dict.put i k' s.futexes; threads = l })
  ]
]

unfoldable pub lift : (Kernel → Option Kernel) → Option Kernel → Option Kernel
lift f none = none
lift f (some s) = f s

unfoldable pub futex_object : ℕ → CapObject ℕ (Option Kernel)
futex_object p = record {
  object_type = futex;
  inc_ref = λ i s. lift (inc_ref_at i) s;
  dec_ref = λ i s. lift (dec_ref_at p i) s;
}

-- what a call of an operation of the futex `i` leaves
unfoldable pub store : ℕ → KFutex → ThreadList → Kernel → Kernel
store i k l s = record s { futexes = Dict.put i k s.futexes; threads = l }

-- `FutexMap::block`, of the thread `t`
unfoldable pub map_block : ℕ → Thread → CapMap ℕ → CapId → Kernel → Option (SysResult Unit × Kernel)
map_block p t m cid s = elim (Dict.get cid m.entries) [
  | none ↦ some (err invl_id, s)
  | some c ↦
      if not (contains c.flags cap_read)
      then some (err invl_perm, s)
      else elim (Dict.get c.object s.futexes) [
        | none ↦ none
        | some k ↦ elim (block p t k s.threads) [
          | none ↦ none
          | some (true, k', l) ↦ some (returns tt, store c.object k' l s)
          | some (false, k', l) ↦ some (err invl_id, store c.object k' l s)
        ]
      ]
]

-- `FutexMap::unblock`
unfoldable pub map_unblock : ℕ → CapMap ℕ → CapId → ℕ → Kernel → Option (SysResult ℕ × Kernel)
map_unblock p m cid n s = elim (Dict.get cid m.entries) [
  | none ↦ some (err invl_id, s)
  | some c ↦
      if not (contains c.flags cap_read)
      then some (err invl_perm, s)
      else elim (Dict.get c.object s.futexes) [
        | none ↦ none
        | some k ↦ elim (unblock p k n s.threads) [
          | none ↦ none
          | some (moved, k', l) ↦ some (returns moved, store c.object k' l s)
        ]
      ]
]

-- `unblock` through a capability with READ, of a futex whose lock is free, makes the first `n`
-- threads that wait on it ready, answers their number, and subtracts `n` from the futex's count.
pub map_unblock-wakes :
    (p : ℕ) (m : CapMap ℕ) (cid n : ℕ) (s : Kernel) (c : Capability ℕ) (k : KFutex)
    (q : List Thread)
    → Dict.get cid m.entries ≡ some c
    → contains c.flags cap_read ≡ true
    → Dict.get c.object s.futexes ≡ some k
    → k.locked ≡ false
    → queue k s.threads ≡ some q
    → map_unblock p m cid n s
      ≡ some (
        returns (min n (length q)),
        store c.object
            (record k { wait_count = wsub k.wait_count n })
            (record s.threads {
              readies = s.threads.readies ++ woken (take n q);
              futexes = Dict.put k.fuid (drop n q) s.threads.futexes;
            })
            s,
      )
unfolding map_unblock
map_unblock-wakes p m cid n s c k q e can at free has =
    rw (e, map_unblock, can, at, unblock-wakes p n k q s.threads free has) refl

-- Without READ neither operation of a capability does anything, and both are refused for lack of
-- rights.
pub map-refused :
    (p n : ℕ) (t : Thread) (m : CapMap ℕ) (cid : ℕ) (s : Kernel) (c : Capability ℕ)
    → Dict.get cid m.entries ≡ some c
    → contains c.flags cap_read ≡ false
    → (map_unblock p m cid n s ≡ some (err invl_perm, s))
      × (map_block p t m cid s ≡ some (err invl_perm, s))
unfolding map_unblock map_block
map-refused p n t m cid s c e cannot =
    (rw (e, map_unblock, cannot) refl, rw (e, map_block, cannot) refl)
