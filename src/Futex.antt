-- ===== src/Futex.antt =====
-- libutil/src/futex.rs: `RawFutex`, a lock in user memory that calls the kernel only when threads
-- wait, with the kernel's side of those calls from kernel/src/sched/sync.rs. Threads are told apart
-- by where they are in the code only, so the system keeps the number of threads at each place; one
-- step is one atomic operation, or the part of a kernel call that runs under the block lock.
pub mod Exclusion
pub mod LostWakeup
pub mod Identity
mod Tests
use aurora_os_old.Prelude.{
  ℕ, zero, suc, ◌+◌, ◌-◌, ◌^◌, ◌≡◌, refl, Bool, true, false, Option, none, some, List, [], ◌∷◌, ltb,
  ◌==◌, if◌then◌else◌, wadd, wsub, word_mod, min,
}
use aurora_os_old.Sync.{KFutex, count_waiter}

-- The `fetch_add` of `lock`: whether the thread must wait, and the new count
unfoldable pub lock_count : ℕ → Bool × ℕ
lock_count count = (ltb 0 count, wadd count 1)

-- The `fetch_update` of `try_lock`: `none` where it fails
unfoldable pub try_lock_count : ℕ → Option ℕ
try_lock_count n = if n == 0 then some (n + 1) else none

-- The `fetch_sub` of `unlock`: whether a thread must be woken, and the new count
unfoldable pub unlock_count : ℕ → Bool × ℕ
unlock_count count = (ltb 1 count, wsub count 1)

-- The count of the lock, the kernel's futex, and the numbers of threads: outside, about to call
-- `block`, counted by the kernel but not yet in the queue, in the queue, holding the lock, and
-- about to call `unblock`
pub record System : Type 0 where
  pub count : ℕ
  pub futex : KFutex
  pub outside : ℕ
  pub wants : ℕ
  pub parking : ℕ
  pub sleeping : ℕ
  pub holding : ℕ
  pub releasing : ℕ

abbrev pub new_futex : KFutex
new_futex = record { fuid = 0; wait_count = 0; alive = true; locked = false; ref_count = 1 }

abbrev pub initial : ℕ → System
initial n = record {
  count = 0;
  futex = new_futex;
  outside = n;
  wants = 0;
  parking = 0;
  sleeping = 0;
  holding = 0;
  releasing = 0;
}

pub data Action : Type 0 where
  lock try_lock block park unlock unblock : Action

-- `lock` up to its `block`
unfoldable pub lock_step : System → System
lock_step s =
    if (lock_count s.count).0
    then record s { count = (lock_count s.count).1; outside = s.outside - 1; wants = s.wants + 1 }
    else record s {
      count = (lock_count s.count).1;
      outside = s.outside - 1;
      holding = s.holding + 1;
    }

unfoldable pub try_lock_step : System → System
try_lock_step s = elim (try_lock_count s.count) [
  | none ↦ s
  | some n ↦ record s { count = n; outside = s.outside - 1; holding = s.holding + 1 }
]

-- The `fetch_add` of the kernel's `block`
unfoldable pub block_step : System → System
block_step s =
    if (count_waiter s.futex).0
    then record s { futex = (count_waiter s.futex).1; wants = s.wants - 1; parking = s.parking + 1 }
    else record s { futex = (count_waiter s.futex).1; wants = s.wants - 1; holding = s.holding + 1 }

-- The rest of the kernel's `block`, under the block lock
unfoldable pub park_step : System → System
park_step s = record s { parking = s.parking - 1; sleeping = s.sleeping + 1 }

-- `unlock` up to its `unblock`
unfoldable pub unlock_step : System → System
unlock_step s =
    if (unlock_count s.count).0
    then record s {
      count = (unlock_count s.count).1;
      holding = s.holding - 1;
      releasing = s.releasing + 1;
    }
    else record s {
      count = (unlock_count s.count).1;
      holding = s.holding - 1;
      outside = s.outside + 1;
    }

-- The kernel's `unblock` of one thread, under the block lock: a thread of the queue, if any, runs
-- on and has the lock.
unfoldable pub unblock_step : System → System
unblock_step s = record s {
  futex = record s.futex { wait_count = wsub s.futex.wait_count 1 };
  releasing = s.releasing - 1;
  outside = s.outside + 1;
  sleeping = s.sleeping - min 1 s.sleeping;
  holding = s.holding + min 1 s.sleeping;
}

-- An action is possible when a thread is at its place in the code.
unfoldable pub step : Action → System → Option System
step lock s = if ltb 0 s.outside then some (lock_step s) else none
step try_lock s = if ltb 0 s.outside then some (try_lock_step s) else none
step block s = if ltb 0 s.wants then some (block_step s) else none
step park s = if ltb 0 s.parking then some (park_step s) else none
step unlock s = if ltb 0 s.holding then some (unlock_step s) else none
step unblock s = if ltb 0 s.releasing then some (unblock_step s) else none

-- The states that sequences of actions reach from a state
pub data Reaches (start : System) : System → Type 0 where
  here : Reaches start start
  next : {s s' : System} → (a : Action) → Reaches start s → step a s ≡ some s' → Reaches start s'
