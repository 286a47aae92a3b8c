-- ===== src/Futex/Tests.antt =====
-- Two threads of a lock: one sequence of steps in which a wakeup is lost.
use aurora_os_old.Prelude.{
  ℕ, ◌+◌, ◌^◌, ◌<◌, ◌≤◌, ◌≡◌, ◌⊎◌, refl, true, false, some, [], ◌∷◌, min, arith,
}
use aurora_os_old.Sync.{count_waiter}
use aurora_os_old.Futex.{
  System, initial, lock, block, park, unlock, unblock, step, lock_step, lock_count, block_step,
  park_step, unlock_step, unlock_count, unblock_step, Reaches, here, next,
}
use aurora_os_old.Futex.Exclusion.{mutual_exclusion}
use aurora_os_old.Futex.LostWakeup.{IsLost, right_to_lock, reaches-IsLost}
use aurora_os_old.Futex.Identity.{publish_all, publish_all-first, all_equal, drop_id, no_id}

-- the state of two threads, by the counts and the places of the threads
abbrev state : (count waits outside wants parking sleeping holding releasing : ℕ) → System
state count waits outside wants parking sleeping holding releasing = record {
  count = count;
  futex = record { fuid = 0; wait_count = waits; alive = true; locked = false; ref_count = 1 };
  outside = outside;
  wants = wants;
  parking = parking;
  sleeping = sleeping;
  holding = holding;
  releasing = releasing;
}

abbrev both_want : System
both_want = state 2 0 0 1 0 0 1 0

abbrev asleep : System
asleep = state 1 0 1 0 0 1 0 0

-- The second thread is counted by the kernel, the first one unlocks and wakes nobody, and only
-- then the second one goes to sleep.
contended : Reaches (initial 2) (state 2 0 0 1 0 0 1 0)
unfolding step lock_step lock_count
contended = next {s = state 1 0 1 0 0 0 1 0} lock (next {s = initial 2} lock here refl) refl

lost : Reaches (initial 2) (state 1 0 1 0 0 1 0 0)
unfolding step block_step park_step unlock_step unlock_count unblock_step count_waiter
lost =
    next {s = state 1 0 1 0 1 0 0 0} park
      (next {s = state 1 1 0 0 1 0 0 1} unblock
        (next {s = state 2 1 0 0 1 0 1 0} unlock
          (next {s = state 2 0 0 1 0 0 1 0} block contended refl) refl)
        refl)
      refl

asleep-IsLost : IsLost 2 asleep
asleep-IsLost = record {
  bounded = refl;
  nobody = refl;
  counted = refl;
  waiting = omega arith;
  missed = refl;
}

mutual_exclusion_example :
    (both_want.holding + both_want.releasing ≤ min 1 both_want.count)
    × (both_want.count
        ≡ both_want.wants + both_want.parking + both_want.sleeping + both_want.holding)
mutual_exclusion_example = mutual_exclusion 2 (omega arith) both_want contended

right_to_lock_example :
    (asleep.holding ≡ 1)
    ⊎ (asleep.releasing ≡ 1)
    ⊎ ((2 ^ 63 ≤ asleep.futex.wait_count) × (0 < asleep.wants))
    ⊎ IsLost 2 asleep
right_to_lock_example = right_to_lock 2 (omega arith) asleep lost (omega arith)

-- the other thread locks, and waits as well
again : Reaches asleep (state 2 0 0 1 0 1 0 0)
unfolding step lock_step lock_count
again = next {s = state 1 0 1 0 0 1 0 0} lock here refl

reaches-IsLost_example : ((state 2 0 0 1 0 1 0 0).holding ≡ 0) × IsLost 2 (state 2 0 0 1 0 1 0 0)
reaches-IsLost_example =
    reaches-IsLost 2 (omega arith) asleep (state 2 0 0 1 0 1 0 0) asleep-IsLost again

publish_all-first_example :
    (publish_all no_id (5 ∷ 6 ∷ 7 ∷ []) ≡ (all_equal 5 (5 ∷ 6 ∷ 7 ∷ []), 5, 6 ∷ 7 ∷ []))
    × (drop_id 5 ≡ some 5)
publish_all-first_example = publish_all-first 5 (6 ∷ 7 ∷ []) (λ e. omega (arith, e))
