-- ===== src/Sync.antt =====
-- kernel/src/sched/sync.rs: futexes of the kernel, and the map of a process's futex capabilities,
-- whose entries, numbering, `insert`, `remove`, `clone_from`, `destroy` and `clone_cap` are the code
-- of `CapMap` once more. `wait_count`, an `isize`, is its two's complement. A futex is known by its
-- `fuid`, which stands for its address. `none` is a panic, or a loop that never ends because the
-- block lock is held: no other thread runs within one call.
pub mod Wake
pub mod FutexMap
mod Tests
use aurora_os_old.Prelude.{
  ℕ, zero, suc, ◌+◌, ◌-◌, ◌^◌, ◌≡◌, refl, Bool, true, false, not, Option, none, some, List, [], ◌∷◌,
  ltb, ◌==◌, if◌then◌else◌, wadd, wsub, word_mod,
}
use aurora_os_old.Prelude.Dict
use aurora_os_old.SysErr.{SysErr, invl_id, invl_perm, SysResult, returns, err}
use aurora_os_old.Sched.{
  ThreadState, ready, futex_block, Thread, ThreadList, insert_into, inner_state_move, state_move,
  ensure, dealloc_state,
}
use aurora_os_old.Cap.{
  CapObject, CapObjectType, futex, CapMap, CapId, Capability, contains, cap_read, new_cap,
}

pub record KFutex : Type 0 where
  pub fuid : ℕ
  pub wait_count : ℕ
  pub alive : Bool
  pub locked : Bool
  pub ref_count : ℕ

-- The futexes that exist, the thread list, and `NEXT_FUID`
pub record Kernel : Type 0 where
  pub futexes : List (ℕ × KFutex)
  pub threads : ThreadList
  pub next_fuid : ℕ

-- `KFutex::new`, less `Capability::new`, which `new_cap` is
unfoldable pub new : Kernel → ℕ × Kernel
new s = (
  s.next_fuid,
  record {
    futexes =
        Dict.put s.next_fuid
          (record {
            fuid = s.next_fuid;
            wait_count = 0;
            alive = true;
            locked = false;
            ref_count = 0;
          })
          s.futexes;
    threads = ensure (futex_block s.next_fuid) s.threads;
    next_fuid = wadd s.next_fuid 1;
  },
)

-- `KFutex::lock`: the inner `none` is the answer that the futex is destroyed.
unfoldable pub lock : KFutex → Option (Option KFutex)
lock k =
    if not k.alive
    then some none
    else if k.locked
    then none
    else some (some (record k { locked = true }))

unfoldable pub force_unlock : KFutex → KFutex
force_unlock k = record k { locked = false }

-- The `fetch_add` of `block`: whether the thread has to sleep
unfoldable pub count_waiter : KFutex → Bool × KFutex
count_waiter k = (ltb k.wait_count (2 ^ 63), record k { wait_count = wadd k.wait_count 1 })

-- The rest of `block` where the thread `t` has to sleep: with the lock held it enters the queue of
-- the futex, and the scheduler, which puts it there, gives the lock up.
unfoldable pub go_to_sleep : ℕ → Thread → KFutex → ThreadList → Option (Bool × KFutex × ThreadList)
go_to_sleep p t k l = elim (lock k) [
  | none ↦ none
  | some none ↦ some (false, k, l)
  | some (some k') ↦
      elim (insert_into p (record t { state = futex_block k.fuid })
        (ensure (futex_block k.fuid) l)) [
          | none ↦ none
          | some l' ↦ some (true, force_unlock k', l')
        ]
]

-- `KFutex::block`, uninterrupted
unfoldable pub block : ℕ → Thread → KFutex → ThreadList → Option (Bool × KFutex × ThreadList)
block p t k l =
    if (count_waiter k).0
    then go_to_sleep p t (count_waiter k).1 l
    else some (true, (count_waiter k).1, l)

-- `n as isize` keeps the bits
unfoldable pub unblock : ℕ → KFutex → ℕ → ThreadList → Option (ℕ × KFutex × ThreadList)
unblock p k n l =
    if k.locked then none else elim (inner_state_move p (futex_block k.fuid) ready n l) [
      | none ↦ none
      | some (moved, l') ↦ some (moved, record k { wait_count = wsub k.wait_count n }, l')
    ]

unfoldable pub destroy : ℕ → KFutex → ThreadList → Option (ℕ × KFutex × ThreadList)
destroy p k l =
    if k.locked then none else elim (state_move p (futex_block k.fuid) ready (word_mod - 1) l) [
      | none ↦ none
      | some (out, l') ↦ elim (dealloc_state (futex_block k.fuid) l') [
        | none ↦ none
        | some l'' ↦ some (out, record k { alive = false; locked = true }, l'')
      ]
    ]

unfoldable pub inc_ref : KFutex → KFutex
inc_ref k = record k { ref_count = wadd k.ref_count 1 }

-- `fetch_sub` answers the count before.
unfoldable pub dec_ref : ℕ → KFutex → ThreadList → Option (KFutex × ThreadList)
dec_ref p k l =
    let k' = record k { ref_count = wsub k.ref_count 1 } in
    if k.ref_count == 0
    then elim (destroy p k' l) [ none ↦ none | some (out, k'', l') ↦ some (k'', l') ]
    else some (k', l)
