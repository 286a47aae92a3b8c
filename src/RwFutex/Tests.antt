-- ===== src/RwFutex/Tests.antt =====
-- Two threads, of which one reads while the other waits to write.
use aurora_os_old.Prelude.{ℕ, refl, arith}
use aurora_os_old.RwFutex.{
  RwSystem, initial, read, write, read_step, write_step, sleep_step, try_read_count,
  try_write_count, rw_step, RwReaches, rw_here, rw_next,
}
use aurora_os_old.RwFutex.Exclusion.{IsExclusive, reaches-IsExclusive}

abbrev state : (count waiting outside asleep readers writers : ℕ) → RwSystem
state count waiting outside asleep readers writers = record {
  count = count;
  waiting = waiting;
  outside = outside;
  asleep = asleep;
  readers = readers;
  writers = writers;
}

one_reads : RwReaches (initial 2) (state 1 1 0 1 1 0)
unfolding rw_step read_step write_step sleep_step try_read_count try_write_count
one_reads = rw_next {s = state 1 0 1 0 1 0} write (rw_next {s = initial 2} read rw_here refl) refl

reaches-IsExclusive_example : IsExclusive 2 (state 1 1 0 1 1 0)
reaches-IsExclusive_example = reaches-IsExclusive 2 (omega arith) (state 1 1 0 1 1 0) one_reads
