-- ===== src/Sync/Wake.antt =====
-- What `block`, `unblock`, `destroy` and `dec_ref` do to a futex and to the thread list.
use aurora_os_old.Prelude.{
  ℕ, zero, suc, ◌-◌, ◌^◌, ◌≤◌, ◌<◌, ◌≡◌, refl, ◌∙◌, ap, true, false, not, min, Option, none, some,
  List, [], ◌∷◌, ◌++◌, length, take, drop, lt→ltb, le→ltb, ◌==◌, wadd, wsub, word_mod, arith,
  if◌then◌else◌,
}
use aurora_os_old.Prelude.Dict
use aurora_os_old.Sched.{
  ready, futex_block, Thread, ThreadList, get, get_mut, index, insert_into, inner_state_move,
  state_move, ensure, ensure_key, dealloc_state, remove_key, is_running,
}
use aurora_os_old.Sched.Move.{inner_state_move-moved, moved, woken}
use aurora_os_old.Sync.{
  KFutex, lock, force_unlock, count_waiter, go_to_sleep, block, unblock, destroy, dec_ref,
}

-- the queue of the futex in the thread list
abbrev pub queue : KFutex → ThreadList → Option (List Thread)
queue k l = Dict.get k.fuid l.futexes

get-futex_block :
    (p i : ℕ) (q : List Thread) (l : ThreadList)
    → Dict.get i l.futexes ≡ some q
    → get p (futex_block i) l ≡ some (some q)
unfolding get
get-futex_block p i q l h = ap (λ o. some o) h

move_waiters :
    (p i n : ℕ) (q : List Thread) (l : ThreadList)
    → Dict.get i l.futexes ≡ some q
    → inner_state_move p (futex_block i) ready n l
      ≡ some (min n (length q), moved p (futex_block i) n q l)
unfolding is_running
move_waiters p i n q l h =
    inner_state_move-moved p (futex_block i) n q l refl refl (get-futex_block p i q l h)

-- `unblock` of a futex whose lock is free makes the first `n` threads of its queue ready in their
-- order, or all of them where they are fewer, subtracts `n` from the count, and answers how many
-- it made ready.
pub unblock-wakes :
    (p n : ℕ) (k : KFutex) (q : List Thread) (l : ThreadList)
    → k.locked ≡ false
    → queue k l ≡ some q
    → unblock p k n l
      ≡ some (
        min n (length q),
        record k { wait_count = wsub k.wait_count n },
        record l {
          readies = l.readies ++ woken (take n q);
          futexes = Dict.put k.fuid (drop n q) l.futexes;
        },
      )
unfolding unblock get_mut
unblock-wakes p n k q l f h =
    rw (move_waiters p k.fuid n q l h, unblock)
      (ap
        (λ b.
          if b
          then none
          else some (
            min n (length q),
            record k { wait_count = wsub k.wait_count n },
            record l {
              readies = l.readies ++ woken (take n q);
              futexes = Dict.put k.fuid (drop n q) l.futexes;
            },
          ))
        f)

take_all : (n : ℕ) (q : List Thread) → length q ≤ n → take n q ≡ q
take_all zero [] h = refl
take_all (suc n) [] h = refl
take_all zero (t ∷ q) h = absurd (omega arith)
take_all (suc n) (t ∷ q) h = ap (λ r. t ∷ r) (take_all n q (omega arith))

drop_all : (n : ℕ) (q : List Thread) → length q ≤ n → drop n q ≡ []
drop_all zero [] h = refl
drop_all (suc n) [] h = refl
drop_all zero (t ∷ q) h = absurd (omega arith)
drop_all (suc n) (t ∷ q) h = drop_all n q (omega arith)

-- the thread list without the queue of a futex, whose threads `q` are ready
abbrev pub released : KFutex → List Thread → ThreadList → ThreadList
released k q l = record l {
  readies = l.readies ++ woken q;
  futexes = Dict.delete k.fuid (Dict.put k.fuid [] l.futexes);
}

dealloc-empty :
    (i : ℕ) (l : ThreadList)
    → Dict.get i l.futexes ≡ some []
    → dealloc_state (futex_block i) l ≡ some (record l { futexes = Dict.delete i l.futexes })
unfolding dealloc_state remove_key
dealloc-empty i l h = rw (h, dealloc_state, remove_key) refl

min-length : (n : ℕ) (q : List Thread) → length q ≤ n → min n (length q) ≡ length q
min-length n q h = omega arith

-- the thread list with the queue of a futex emptied
abbrev emptied : ℕ → List Thread → ThreadList → ThreadList
emptied i q l = record l { readies = l.readies ++ woken q; futexes = Dict.put i [] l.futexes }

move_all :
    (p i n : ℕ) (q : List Thread) (l : ThreadList)
    → Dict.get i l.futexes ≡ some q
    → length q ≤ n
    → state_move p (futex_block i) ready n l ≡ some (length q, emptied i q l)
unfolding state_move ensure get_mut
move_all p i n q l h small =
    move_waiters p i n q l h
    ∙ ap (λ x. some (x, moved p (futex_block i) n q l)) (min-length n q small)
    ∙ ap
        (λ x. some (
          length q,
          record l { readies = l.readies ++ woken x; futexes = Dict.put i (drop n q) l.futexes },
        ))
        (take_all n q small)
    ∙ ap
        (λ x.
          some (
            length q,
            record l { readies = l.readies ++ woken q; futexes = Dict.put i x l.futexes },
          ))
        (drop_all n q small)

-- `destroy` of a futex whose lock is free makes all the threads of its queue, fewer than 2 ^ 64,
-- ready, removes the queue, and leaves the futex dead with its lock taken for good; afterwards no
-- thread goes to sleep on it.
pub destroy-releases :
    (p : ℕ) (t : Thread) (k : KFutex) (q : List Thread) (l l' : ThreadList)
    → k.locked ≡ false
    → queue k l ≡ some q
    → length q < word_mod
    → (destroy p k l ≡ some (length q, record k { alive = false; locked = true }, released k q l))
      × (go_to_sleep p t (record k { alive = false; locked = true }) l'
          ≡ some (false, record k { alive = false; locked = true }, l'))
unfolding destroy go_to_sleep lock
destroy-releases p t k q l l' f h small =
    let dead = record k { alive = false; locked = true } in
    let moves = move_all p k.fuid (word_mod - 1) q l h (omega (arith, small)) in
    let gone = dealloc-empty k.fuid (emptied k.fuid q l) (Dict.get-put_self k.fuid [] l.futexes) in
    (
      rw (moves, destroy, gone)
          (ap (λ b. if b then none else some (length q, dead, released k q l)) f),
      refl,
    )

-- Dropping a reference of a futex that has one, and fewer than 2 ^ 64, only counts it down.
dec_ref-counts :
    (p : ℕ) (k : KFutex) (l : ThreadList)
    → 1 ≤ k.ref_count
    → k.ref_count < word_mod
    → dec_ref p k l ≡ some (record k { ref_count = k.ref_count - 1 }, l)
unfolding dec_ref
dec_ref-counts p k l one small =
    let nonzero : (k.ref_count == 0) ≡ false = ground arith in
    let down : wsub k.ref_count 1 ≡ k.ref_count - 1 = omega arith in
    rw (nonzero, dec_ref) (ap (λ x. some (record k { ref_count = x }, l)) down)

-- `n` references of a futex are dropped, one after the other.
unfoldable pub drop_refs : (n p : ℕ) → KFutex → ThreadList → Option (KFutex × ThreadList)
drop_refs zero p k l = some (k, l)
drop_refs (suc n) p k l = elim (dec_ref p k l) [ none ↦ none | some (k', l') ↦ drop_refs n p k' l' ]

-- For a futex with fewer than 2 ^ 64 references, any number `n` of them can be dropped, up to all of them,
-- and the futex is as alive as before, with `n` references less, and all waiting threads wait on.
pub drop_refs-dec_ref :
    (n p : ℕ) (k : KFutex) (l : ThreadList)
    → n ≤ k.ref_count
    → k.ref_count < word_mod
    → drop_refs n p k l ≡ some (record k { ref_count = k.ref_count - n }, l)
unfolding drop_refs
drop_refs-dec_ref zero p k l h small =
    let count : k.ref_count ≡ k.ref_count - 0 = omega arith in
    ap (λ c. some (record k { ref_count = c }, l)) count
drop_refs-dec_ref (suc n) p k l h small =
    let k' = record k { ref_count = k.ref_count - 1 } in
    let count : k.ref_count - 1 - n ≡ k.ref_count - suc n = omega arith in
    ap
      (λ (o : Option (KFutex × ThreadList)). elim o [
        | none ↦ none
        | some (j, m) ↦ drop_refs n p j m
      ])
      (dec_ref-counts p k l (omega arith) small)
    ∙ drop_refs-dec_ref n p k' l (omega arith) (omega arith)
    ∙ ap (λ c. some (record k { ref_count = c }, l)) count

-- the thread list with one more thread at the end of the queue of a futex
abbrev pub enqueued : KFutex → List Thread → Thread → ThreadList → ThreadList
enqueued k q t l = record l {
  futexes = Dict.put k.fuid (q ++ record t { state = futex_block k.fuid } ∷ []) l.futexes;
}

ensure-same :
    (i : ℕ) (q : List Thread) (l : ThreadList)
    → Dict.get i l.futexes ≡ some q
    → ensure (futex_block i) l ≡ l
unfolding ensure ensure_key
ensure-same i q l h = rw (h, ensure_key, ensure) refl

insert_into-futex :
    (p i : ℕ) (t : Thread) (q : List Thread) (l : ThreadList)
    → Dict.get i l.futexes ≡ some q
    → insert_into p (record t { state = futex_block i }) l
      ≡ some (record l {
        futexes = Dict.put i (q ++ record t { state = futex_block i } ∷ []) l.futexes;
      })
unfolding insert_into index get get_mut
insert_into-futex p i t q l h = rw (h, insert_into, index, get) refl

lock-free :
    (k : KFutex)
    → k.alive ≡ true
    → k.locked ≡ false
    → lock k ≡ some (some (record k { locked = true }))
unfolding lock
lock-free k a f =
    ap
      (λ b.
        if not b
        then some none
        else if k.locked
        then none
        else some (some (record k { locked = true })))
      a
    ∙ ap (λ b. if b then none else some (some (record k { locked = true }))) f

-- Where the count is negative, because an `unblock` came first, `block` counts the thread and lets
-- it go on.
pub block-passes :
    (p : ℕ) (t : Thread) (k : KFutex) (l : ThreadList)
    → 2 ^ 63 ≤ k.wait_count
    → block p t k l ≡ some (true, record k { wait_count = wadd k.wait_count 1 }, l)
unfolding block count_waiter
block-passes p t k l neg = rw (le→ltb k.wait_count (2 ^ 63) neg, block) refl

-- On a live futex whose lock is free and whose count is not negative, `block` counts the thread
-- and puts it at the end of the futex's queue, and the lock is free again.
pub block-enqueues :
    (p : ℕ) (t : Thread) (k : KFutex) (q : List Thread) (l : ThreadList)
    → k.alive ≡ true
    → k.locked ≡ false
    → queue k l ≡ some q
    → k.wait_count < 2 ^ 63
    → block p t k l
      ≡ some (true, record k { wait_count = wadd k.wait_count 1; locked = false }, enqueued k q t l)
unfolding block count_waiter go_to_sleep force_unlock
block-enqueues p t k q l a f h pos =
    let k' = record k { wait_count = wadd k.wait_count 1 } in
    rw
      (
        lt→ltb k.wait_count (2 ^ 63) pos,
        block,
        lock-free k' a f,
        go_to_sleep,
        ensure-same k.fuid q l h,
        insert_into-futex p k.fuid t q l h,
      )
      refl
