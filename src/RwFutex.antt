-- ===== src/RwFutex.antt =====
-- libutil/src/futex.rs: `RWFutex`, a lock for many readers or one writer. `count`, an `isize`, is its
-- two's complement. Threads are told apart by where they are in the code only; one step is one
-- atomic operation of the lock. When the kernel wakes a sleeping thread is left open: `wake` is
-- possible at any time, and the thread tries again.
pub mod Exclusion
mod Tests
use aurora_os_old.Prelude.{
  ℕ, ◌+◌, ◌-◌, ◌^◌, ◌≡◌, Bool, true, false, Option, none, some, ltb, ◌==◌, if◌then◌else◌, wadd,
  wsub, word_mod,
}

-- The `fetch_update` of `try_read`
unfoldable pub try_read_count : ℕ → Option ℕ
try_read_count n = if ltb n (2 ^ 63) then some (wadd n 1) else none

-- The `compare_exchange` of `try_write`, from 0 to -1
unfoldable pub try_write_count : ℕ → Option ℕ
try_write_count n = if n == 0 then some (word_mod - 1) else none

-- The `fetch_update` of `waiting` in both `drop`s, and what it leaves
unfoldable pub drop_waiting : ℕ → ℕ
drop_waiting n = if n == 0 then n else n - 1

pub record RwSystem : Type 0 where
  pub count : ℕ
  pub waiting : ℕ
  pub outside : ℕ
  pub asleep : ℕ
  pub readers : ℕ
  pub writers : ℕ

abbrev pub initial : ℕ → RwSystem
initial n = record { count = 0; waiting = 0; outside = n; asleep = 0; readers = 0; writers = 0 }

pub data RwAction : Type 0 where
  try_read read try_write write wake drop_read drop_write : RwAction

-- what a failed attempt does in `read` and in `write`
unfoldable pub sleep_step : RwSystem → RwSystem
sleep_step s = record s {
  waiting = wadd s.waiting 1;
  outside = s.outside - 1;
  asleep = s.asleep + 1;
}

-- An attempt to read; `failed` is the state after a failure.
unfoldable pub read_step : RwSystem → RwSystem → RwSystem
read_step s failed = elim (try_read_count s.count) [
  | none ↦ failed
  | some c ↦ record s { count = c; outside = s.outside - 1; readers = s.readers + 1 }
]

unfoldable pub write_step : RwSystem → RwSystem → RwSystem
write_step s failed = elim (try_write_count s.count) [
  | none ↦ failed
  | some c ↦ record s { count = c; outside = s.outside - 1; writers = s.writers + 1 }
]

unfoldable pub wake_step : RwSystem → RwSystem
wake_step s = record s { asleep = s.asleep - 1; outside = s.outside + 1 }

-- `drop` of a read guard
unfoldable pub drop_read_step : RwSystem → RwSystem
drop_read_step s = record s {
  count = wsub s.count 1;
  waiting = drop_waiting s.waiting;
  readers = s.readers - 1;
  outside = s.outside + 1;
}

-- `drop` of a write guard
unfoldable pub drop_write_step : RwSystem → RwSystem
drop_write_step s = record s {
  count = 0;
  waiting = drop_waiting s.waiting;
  writers = s.writers - 1;
  outside = s.outside + 1;
}

unfoldable pub rw_step : RwAction → RwSystem → Option RwSystem
rw_step try_read s = if ltb 0 s.outside then some (read_step s s) else none
rw_step read s = if ltb 0 s.outside then some (read_step s (sleep_step s)) else none
rw_step try_write s = if ltb 0 s.outside then some (write_step s s) else none
rw_step write s = if ltb 0 s.outside then some (write_step s (sleep_step s)) else none
rw_step wake s = if ltb 0 s.asleep then some (wake_step s) else none
rw_step drop_read s = if ltb 0 s.readers then some (drop_read_step s) else none
rw_step drop_write s = if ltb 0 s.writers then some (drop_write_step s) else none

-- The states that sequences of actions reach from a state
pub data RwReaches (start : RwSystem) : RwSystem → Type 0 where
  rw_here : RwReaches start start
  rw_next :
      {s s' : RwSystem}
      → (a : RwAction) → RwReaches start s
      → rw_step a s ≡ some s'
      → RwReaches start s'
