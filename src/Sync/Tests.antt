-- ===== src/Sync/Tests.antt =====
-- A futex 4 on which one thread waits, and a capability of it.
use aurora_os_old.Prelude.{
  ℕ, ◌-◌, ◌≡◌, refl, true, false, some, List, [], ◌∷◌, ◌++◌, min, length, take, drop, wsub, arith,
}
use aurora_os_old.Prelude.Dict
use aurora_os_old.SysErr.{returns}
use aurora_os_old.Sched.{ThreadState, running, ready, futex_block, Thread, ThreadList}
use aurora_os_old.Sched.Move.{woken}
use aurora_os_old.Cap.{CapMap, contains, cap_read}
use aurora_os_old.Sync.{KFutex, Kernel, destroy, go_to_sleep}
use aurora_os_old.Sync.Wake.{queue, released, destroy-releases, drop_refs, drop_refs-dec_ref}
use aurora_os_old.Sync.FutexMap.{map_unblock, store, map_unblock-wakes}

abbrev thread : ℕ → ThreadState → Thread
thread id st = record {
  tuid = id;
  state = st;
  default_state = ready;
  alive = true;
  pid = some id;
  run_time = 0;
  regs = id;
}

abbrev waiters : List Thread
waiters = thread 5 (futex_block 4) ∷ []

abbrev threads : ThreadList
threads = record {
  runs = [];
  readies = [];
  idles = [];
  destroys = [];
  sleeps = [];
  joins = [];
  waits = [];
  conn_waits = [];
  futexes = (4, waiters) ∷ [];
}

abbrev four : KFutex
four = record { fuid = 4; wait_count = 1; alive = true; locked = false; ref_count = 1 }

abbrev kernel : Kernel
kernel = record { futexes = (4, four) ∷ []; threads = threads; next_fuid = 5 }

abbrev caps : CapMap ℕ
caps = record { entries = (37, record { object = 4; flags = 1; id = 37 }) ∷ []; next_id = 2 }

queued : queue four threads ≡ some waiters
unfolding Dict.get
queued = refl

destroy-releases_example :
    (destroy 0 four threads
      ≡ some (
        length waiters,
        record four { alive = false; locked = true },
        released four waiters threads,
      ))
    × (go_to_sleep 0 (thread 6 running) (record four { alive = false; locked = true }) threads
        ≡ some (false, record four { alive = false; locked = true }, threads))
destroy-releases_example =
    destroy-releases 0 (thread 6 running) four waiters threads threads refl queued (omega arith)

drop_refs-dec_ref_example :
    drop_refs 1 0 four threads ≡ some (record four { ref_count = 1 - 1 }, threads)
drop_refs-dec_ref_example = drop_refs-dec_ref 1 0 four threads (omega arith) (omega arith)

listed : Dict.get 37 caps.entries ≡ some (record { object = 4; flags = 1; id = 37 })
unfolding Dict.get
listed = refl

readable : contains 1 cap_read ≡ true
unfolding contains
readable = refl

stored : Dict.get 4 kernel.futexes ≡ some four
unfolding Dict.get
stored = refl

map_unblock-wakes_example :
    map_unblock 0 caps 37 2 kernel
    ≡ some (
      returns (min 2 (length waiters)),
      store 4
          (record four { wait_count = wsub 1 2 })
          (record threads {
            readies = threads.readies ++ woken (take 2 waiters);
            futexes = Dict.put 4 (drop 2 waiters) threads.futexes;
          })
          kernel,
    )
map_unblock-wakes_example =
    map_unblock-wakes 0 caps 37 2 kernel (record { object = 4; flags = 1; id = 37 }) four waiters
      listed readable stored refl queued

abbrev weak_caps : CapMap ℕ
weak_caps = record { entries = (38, record { object = 4; flags = 2; id = 38 }) ∷ []; next_id = 2 }

weak_listed : Dict.get 38 weak_caps.entries ≡ some (record { object = 4; flags = 2; id = 38 })
unfolding Dict.get
weak_listed = refl

unreadable : contains 2 cap_read ≡ false
unfolding contains
unreadable = refl
