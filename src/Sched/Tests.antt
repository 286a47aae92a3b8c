-- ===== src/Sched/Tests.antt =====
-- A processor with one running thread, a dead and a live thread that are ready, and two threads that
-- wait on the futex 4.
use aurora_os_old.Prelude.{
  ℕ, ◌+◌, ◌-◌, ◌≡◌, refl, Bool, true, false, some, List, [], ◌∷◌, min, length, leb,
}
use aurora_os_old.Prelude.Dict
use aurora_os_old.Sched.{
  ThreadState, running, ready, futex_block, Thread, ThreadList, get, is_running, inner_state_move,
  schedule, Machine, leave, enter,
}
use aurora_os_old.Sched.Move.{inner_state_move-moved, moved}
use aurora_os_old.Sched.Schedule.{AllDead, nobody, one_more, preempted, timed, schedule-preempted}

abbrev thread : ℕ → ThreadState → Bool → Thread
thread id st alive = record {
  tuid = id;
  state = st;
  default_state = ready;
  alive = alive;
  pid = some id;
  run_time = 0;
  regs = id;
}

abbrev waiters : List Thread
waiters = thread 5 (futex_block 4) true ∷ thread 6 (futex_block 4) true ∷ []

abbrev threads : ThreadList
threads = record {
  runs = (thread 1 running true ∷ []) ∷ [];
  readies = thread 2 ready false ∷ thread 3 ready true ∷ [];
  idles = [] ∷ [];
  destroys = [];
  sleeps = [];
  joins = [];
  waits = [];
  conn_waits = [];
  futexes = (4, waiters) ∷ [];
}

-- a log of the effects, as numbers
abbrev machine : Machine (List ℕ)
machine = record {
  set_running = λ pid b (s : List ℕ). (pid ∷ s);
  load = λ pid (s : List ℕ). ((100 + pid) ∷ s);
  force_unlock = λ k (s : List ℕ). (k ∷ s);
}

inner_state_move-moved_example :
    inner_state_move 0 (futex_block 4) ready 1 threads
    ≡ some (min 1 (length waiters), moved 0 (futex_block 4) 1 waiters threads)
unfolding get is_running Dict.get
inner_state_move-moved_example =
    inner_state_move-moved 0 (futex_block 4) 1 waiters threads refl refl refl

dead : AllDead (thread 2 ready false ∷ [])
dead = one_more refl nobody

schedule-preempted_example :
    schedule machine 0 7 10 15 threads []
    ≡ some (
      true,
      3,
      preempted machine 0
          (thread 2 ready false ∷ [])
          (thread 3 ready true)
          []
          (timed machine (leb 10 15) (15 - 10) (thread 1 running true))
          threads,
      enter machine (some 1) 3 (machine.set_running 3 true (leave machine (some 1) [])),
    )
schedule-preempted_example =
    schedule-preempted machine 0 7 10 15 3 (thread 2 ready false ∷ []) (thread 3 ready true) []
      (thread 1 running true) threads [] refl dead refl refl refl refl refl
