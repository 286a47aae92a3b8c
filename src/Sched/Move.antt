-- ===== src/Sched/Move.antt =====
-- Waking threads: what `inner_state_move` to the ready queue does to the whole thread list.
use aurora_os_old.Prelude.{
  ℕ, zero, suc, ◌+◌, min, ◌≡◌, refl, sym, ◌∙◌, ap, Bool, true, false, some, List, [], ◌∷◌, ◌++◌,
  length, take, drop, arith,
}
use mathlib.Core.List.{append-nil, append_assoc}
use aurora_os_old.Sched.{
  ThreadState, running, ready, idle, destroy, waiting, sleep, join, futex_block, listening, Thread,
  ThreadList, get, get_mut, index, insert_into, move_loop, is_running, both, inner_state_move,
}
use aurora_os_old.Sched.Queue.{get-get_mut, get_mut-get_mut, get_mut-get}

-- the states whose queue is not the ready queue
abbrev pub apart : ThreadState → Bool
apart ready = false
apart _ = true

abbrev pub woken : List Thread → List Thread
woken [] = []
woken (t ∷ q) = record t { state = ready } ∷ woken q

-- the thread list after the first `n` threads of the queue `q` of `old` have become ready
abbrev pub moved : ℕ → ThreadState → ℕ → List Thread → ThreadList → ThreadList
moved p old n q l = record (get_mut p old (drop n q) l) { readies = l.readies ++ woken (take n q) }

false_ne : false ≡ true → ⊥
false_ne h = cc

get-readies :
    (p : ℕ) (st : ThreadState) (r : List Thread) (l : ThreadList)
    → apart st ≡ true
    → get p st (record l { readies = r }) ≡ get p st l
unfolding get
get-readies p running r l h = refl
get-readies p ready r l h = absurd (false_ne h)
get-readies p idle r l h = refl
get-readies p destroy r l h = refl
get-readies p (waiting t) r l h = refl
get-readies p (sleep n) r l h = refl
get-readies p (join t) r l h = refl
get-readies p (futex_block t) r l h = refl
get-readies p (listening t) r l h = refl

get_mut-readies :
    (p : ℕ) (st : ThreadState) (q r : List Thread) (l : ThreadList)
    → apart st ≡ true
    → get_mut p st q (record l { readies = r }) ≡ record (get_mut p st q l) { readies = r }
unfolding get_mut
get_mut-readies p running q r l h = refl
get_mut-readies p ready q r l h = absurd (false_ne h)
get_mut-readies p idle q r l h = refl
get_mut-readies p destroy q r l h = refl
get_mut-readies p (waiting t) q r l h = refl
get_mut-readies p (sleep n) q r l h = refl
get_mut-readies p (join t) q r l h = refl
get_mut-readies p (futex_block t) q r l h = refl
get_mut-readies p (listening t) q r l h = refl

readies-get_mut :
    (p : ℕ) (st : ThreadState) (q : List Thread) (l : ThreadList)
    → apart st ≡ true
    → (get_mut p st q l).readies ≡ l.readies
unfolding get_mut
readies-get_mut p running q l h = refl
readies-get_mut p ready q l h = absurd (false_ne h)
readies-get_mut p idle q l h = refl
readies-get_mut p destroy q l h = refl
readies-get_mut p (waiting t) q l h = refl
readies-get_mut p (sleep n) q l h = refl
readies-get_mut p (join t) q l h = refl
readies-get_mut p (futex_block t) q l h = refl
readies-get_mut p (listening t) q l h = refl

-- one thread wakes
woken_one : ℕ → ThreadState → Thread → List Thread → ThreadList → ThreadList
woken_one p old t q l = record (get_mut p old q l) {
  readies = l.readies ++ record t { state = ready } ∷ [];
}

insert_into-woken :
    (p : ℕ) (old : ThreadState) (t : Thread) (q : List Thread) (l : ThreadList)
    → apart old ≡ true
    → insert_into p (record t { state = ready }) (get_mut p old q l) ≡ some (woken_one p old t q l)
unfolding insert_into index woken_one get get_mut
insert_into-woken p old t q l h =
    ap (λ r. some (record (get_mut p old q l) { readies = r ++ record t { state = ready } ∷ [] }))
      (readies-get_mut p old q l h)

moved-zero :
    (p : ℕ) (old : ThreadState) (q : List Thread) (l : ThreadList)
    → get p old l ≡ some (some q)
    → moved p old 0 q l ≡ l
moved-zero p old q l h = rw (get_mut-get p old q l h, append-nil l.readies) refl

moved-suc :
    (p : ℕ) (old : ThreadState) (n : ℕ) (t : Thread) (q : List Thread) (l : ThreadList)
    → apart old ≡ true
    → moved p old n q (woken_one p old t q l) ≡ moved p old (suc n) (t ∷ q) l
unfolding woken_one
moved-suc p old n t q l h =
    rw
      (
        get_mut-readies p old (drop n q) (l.readies ++ record t { state = ready } ∷ [])
            (get_mut p old q l) h,
        get_mut-get_mut p old q (drop n q) l,
        append_assoc l.readies (record t { state = ready } ∷ []) (woken (take n q)),
      )
      refl

index-get :
    (p : ℕ) (st : ThreadState) (q : List Thread) (l : ThreadList)
    → get p st l ≡ some (some q)
    → index p st l ≡ some q
unfolding index
index-get p st q l h = rw (h, index) refl

get-woken_one :
    (p : ℕ) (old : ThreadState) (t : Thread) (q r : List Thread) (l : ThreadList)
    → apart old ≡ true
    → get p old l ≡ some (some r)
    → get p old (woken_one p old t q l) ≡ some (some q)
unfolding woken_one
get-woken_one p old t q r l a h =
    get-readies p old (l.readies ++ record t { state = ready } ∷ []) (get_mut p old q l) a
    ∙ get-get_mut p old r q l h

move_loop-moved :
    (n i p : ℕ) (old : ThreadState) (q : List Thread) (l : ThreadList)
    → apart old ≡ true
    → get p old l ≡ some (some q)
    → move_loop n p old ready i l ≡ some (i + min n (length q), moved p old n q l)
unfolding move_loop
move_loop-moved zero i p old q l a h =
    rw (moved-zero p old q l h) (ap (λ k. some (k, l)) (omega arith))
move_loop-moved (suc n) i p old [] l a h =
    let e : i ≡ i + min (suc n) 0 = omega arith in
    rw (index-get p old [] l h, move_loop)
      (ap (λ k. some (k, l)) e
        ∙ ap (λ m. some (i + min (suc n) 0, m)) (sym (moved-zero p old [] l h)))
move_loop-moved (suc n) i p old (t ∷ q) l a h =
    rw
      (
        index-get p old (t ∷ q) l h,
        move_loop,
        insert_into-woken p old t q l a,
        move_loop-moved n (suc i) p old q (woken_one p old t q l) a
            (get-woken_one p old t q (t ∷ q) l a h),
        moved-suc p old n t q l a,
      )
      (ap (λ k. some (k, moved p old (suc n) (t ∷ q) l)) (omega arith))

-- Moving `count` threads from a queue that exists and is neither the running nor the ready one to
-- the ready queue takes the first threads in their order to the end of the ready queue, leaves the
-- others and every other queue as they were, and answers how many were moved: all of them where
-- `count` is at least their number.
pub inner_state_move-moved :
    (p : ℕ) (old : ThreadState) (count : ℕ) (q : List Thread) (l : ThreadList)
    → apart old ≡ true
    → is_running old ≡ false
    → get p old l ≡ some (some q)
    → inner_state_move p old ready count l ≡ some (min count (length q), moved p old count q l)
unfolding inner_state_move both get is_running
inner_state_move-moved p old count q l a r h =
    rw (r, h, inner_state_move)
      (move_loop-moved count 0 p old q l a h
        ∙ ap (λ k. some (k, moved p old count q l)) (omega arith))
