-- ===== src/Sched/Schedule.antt =====
-- Picking the next thread: dead threads, the ready queue, and preemption.
use aurora_os_old.Prelude.{
  ℕ, ◌-◌, ◌≡◌, refl, sym, ◌∙◌, ap, Bool, true, false, Option, none, some, List, [], ◌∷◌, ◌++◌, leb,
  if◌then◌else◌, get_elem?, set_elem, get_elem?-set_elem, set_elem-set_elem,
}
use mathlib.Core.List.{append-nil, append_assoc}
use mathlib.Core.Path.{subst}
use aurora_os_old.Sched.{
  ThreadState, running, ready, destroy, Thread, ThreadList, get, get_mut, index, insert_into, pick,
  pick_idle, pop, found, schedule, switch, Machine, leave, enter, resting, atomic_process, inc_time,
  is_running,
}

-- a list of threads none of which is alive
pub data AllDead : List Thread → Type 0 where
  nobody : AllDead []
  one_more : {t : Thread} → {q : List Thread} → t.alive ≡ false → AllDead q → AllDead (t ∷ q)

abbrev pub buried : List Thread → List Thread
buried [] = []
buried (t ∷ q) = record t { state = destroy } ∷ buried q

-- the thread list after the threads `ds` were taken from the ready queue, of which `q` is left, and
-- buried
abbrev pub after : List Thread → List Thread → ThreadList → ThreadList
after ds q l = record l { readies = q; destroys = l.destroys ++ buried ds }

bury :
    (p : ℕ) (t : Thread) (q : List Thread) (l : ThreadList)
    → insert_into p (record t { state = destroy }) (get_mut p ready q l) ≡ some (after (t ∷ []) q l)
unfolding insert_into index get get_mut
bury p t q l = refl

pick-round :
    (p : ℕ) (t : Thread) (q : List Thread) (l : ThreadList)
    → pick p (t ∷ q) l
      ≡ (if t.alive then some (some t, get_mut p ready q l) else pick p q (after (t ∷ []) q l))
unfolding pick
pick-round p t q l = rw (bury p t q l, pick) refl

pick-dead :
    (p : ℕ) (t : Thread) (q : List Thread) (l : ThreadList)
    → t.alive ≡ false
    → pick p (t ∷ q) l ≡ pick p q (after (t ∷ []) q l)
pick-dead p t q l e =
    pick-round p t q l
    ∙ ap (λ b. if b then some (some t, get_mut p ready q l) else pick p q (after (t ∷ []) q l)) e

pick-alive :
    (p : ℕ) (t : Thread) (q : List Thread) (l : ThreadList)
    → t.alive ≡ true
    → pick p (t ∷ q) l ≡ some (some t, record l { readies = q })
unfolding get_mut
pick-alive p t q l e =
    pick-round p t q l
    ∙ ap (λ b. if b then some (some t, get_mut p ready q l) else pick p q (after (t ∷ []) q l)) e

after-after :
    (d : Thread) (ds q r : List Thread) (l : ThreadList)
    → after ds q (after (d ∷ []) r l) ≡ after (d ∷ ds) q l
after-after d ds q r l =
    ap (λ x. record l { readies = q; destroys = x })
      (append_assoc l.destroys (buried (d ∷ [])) (buried ds))

-- The first live thread of the ready queue is picked, whatever dead ones stand before it; these
-- are moved to the end of the destroy queue in their order, and what stands behind stays ready.
pub pick-first_alive :
    (p : ℕ) (ds : List Thread) (t : Thread) (q : List Thread) (l : ThreadList)
    → AllDead ds
    → t.alive ≡ true
    → pick p (ds ++ t ∷ q) l ≡ some (some t, after ds q l)
unfolding get_mut
pick-first_alive p [] t q l nobody a =
    pick-alive p t q l a
    ∙ ap (λ x. some (some t, record l { readies = q; destroys = x })) (sym (append-nil l.destroys))
pick-first_alive p (d ∷ ds) t q l (one_more e dead) a =
    pick-dead p d (ds ++ t ∷ q) l e
    ∙ pick-first_alive p ds t q (after (d ∷ []) (ds ++ t ∷ q) l) dead a
    ∙ ap (λ x. some (some t, x)) (after-after d ds q (ds ++ t ∷ q) l)

-- Where every ready thread is dead, they are all buried and the idle thread is tried.
pub pick-AllDead :
    (p : ℕ) (ds : List Thread) (l : ThreadList)
    → AllDead ds
    → pick p ds l ≡ pick_idle p (after ds [] l)
unfolding pick get_mut
pick-AllDead p [] l nobody = rw (append-nil l.destroys) refl
pick-AllDead p (d ∷ ds) l (one_more e dead) =
    pick-dead p d ds l e
    ∙ pick-AllDead p ds (after (d ∷ []) ds l) dead
    ∙ ap (λ x. pick_idle p x) (after-after d ds [] ds l)

insert_into-ready :
    (p : ℕ) (t : Thread) (l : ThreadList)
    → t.state ≡ ready
    → insert_into p t l ≡ some (record l { readies = l.readies ++ t ∷ [] })
unfolding insert_into index get get_mut
insert_into-ready p t l h =
    subst
      (λ st.
        elim (index p st l) [ none ↦ none | some q ↦ some (get_mut p st (q ++ t ∷ []) l) ]
        ≡ some (record l { readies = l.readies ++ t ∷ [] }))
      (sym h) refl

index-running :
    (p : ℕ) (q : List Thread) (l : ThreadList)
    → get_elem? l.runs p ≡ some q
    → index p running l ≡ some q
unfolding index get found
index-running p q l h = ap (λ o. elim (found o) [ none ↦ none | some r ↦ r ]) h

insert_into-running :
    (p : ℕ) (t : Thread) (q : List Thread) (l : ThreadList)
    → get_elem? l.runs p ≡ some q
    → insert_into p (record t { state = running }) l
      ≡ some (record l { runs = set_elem p (q ++ record t { state = running } ∷ []) l.runs })
unfolding insert_into get_mut
insert_into-running p t q l h = rw (index-running p q l h, insert_into) refl

module _ {S : Type 0} (sys : Machine S) where
  resting-running :
      (t : Thread) → t.state ≡ running → resting sys t ≡ record t { state = t.default_state }
  unfolding resting is_running
  resting-running t h =
      ap (λ st. elim (is_running st) [ true ↦ record t { state = t.default_state } | false ↦ t ]) h

  atomic_process-running : (st : ThreadState) (s : S) → st ≡ running → atomic_process sys st s ≡ s
  unfolding atomic_process
  atomic_process-running st s h = ap (λ x. atomic_process sys x s) h

  -- the list and the effects after `old` was preempted for `t`
  abbrev pub after_switch : ℕ → Thread → Thread → ThreadList → ThreadList
  after_switch p old t l = record l {
    readies = l.readies ++ old ∷ [];
    runs = set_elem p (record t { state = running } ∷ []) l.runs;
  }

  switch-preempts :
      (p : ℕ) (old t : Thread) (new : ℕ) (l : ThreadList) (s : S)
      → get_elem? l.runs p ≡ some []
      → old.state ≡ running
      → old.default_state ≡ ready
      → t.pid ≡ some new
      → switch sys p old t l s
        ≡ some (
          t.regs,
          after_switch p (record old { state = old.default_state }) t l,
          enter sys old.pid new (sys.set_running new true (leave sys old.pid s)),
        )
  unfolding switch
  switch-preempts p old t new l s h o d n =
      let l' = record l { readies = l.readies ++ record old { state = old.default_state } ∷ [] } in
      let l'' = after_switch p (record old { state = old.default_state }) t l in
      rw
        (
          resting-running old o,
          insert_into-ready p (record old { state = old.default_state }) l d,
          switch,
          insert_into-running p t [] l' h,
        )
        (ap
            (λ (x : Option ℕ). elim x [
              | none ↦ none
              | some k ↦ some (
                t.regs,
                l'',
                enter sys old.pid k
                    (sys.set_running k true (leave sys old.pid (atomic_process sys old.state s))),
              )
            ])
            n
          ∙ ap
              (λ y. some (
                t.regs,
                l'',
                enter sys old.pid new (sys.set_running new true (leave sys old.pid y)),
              ))
              (atomic_process-running old.state s o))

  -- the thread that ran, with its run time counted
  abbrev pub timed : Bool → ℕ → Thread → Thread
  timed true nsec t = inc_time nsec t
  timed false nsec t = t

  timed-fields :
      (b : Bool) (nsec : ℕ) (t : Thread)
      → ((timed b nsec t).state ≡ t.state)
        × ((timed b nsec t).default_state ≡ t.default_state)
        × ((timed b nsec t).pid ≡ t.pid)
  unfolding inc_time
  timed-fields true nsec t = (refl, refl, refl)
  timed-fields false nsec t = (refl, refl, refl)

  if-timed :
      (b : Bool) (nsec : ℕ) (t : Thread) → (if b then inc_time nsec t else t) ≡ timed b nsec t
  if-timed true nsec t = refl
  if-timed false nsec t = refl

  -- the thread list after `old` was preempted for `t`, where the threads `ds` were buried
  abbrev pub preempted : ℕ → List Thread → Thread → List Thread → Thread → ThreadList → ThreadList
  preempted p ds t q old l = record l {
    runs = set_elem p (record t { state = running } ∷ []) l.runs;
    readies = q ++ record old { state = old.default_state } ∷ [];
    destroys = l.destroys ++ buried ds;
  }

  -- Where the ready queue has a live thread, whose process exists, and the processor's only
  -- running thread is in the running state and rests in the ready state, `schedule` runs the first
  -- live ready thread: dead threads before it go to the destroy queue, the preempted one to the
  -- end of the ready queue with its run time counted and its own registers as they were, the
  -- processes are marked, the address space is loaded when the process changes, and `regs`, whatever
  -- it held, has the registers of the thread that runs.
  pub schedule-preempted :
      (p regs last current new : ℕ) (ds : List Thread) (t : Thread) (q : List Thread) (old : Thread)
      (l : ThreadList) (s : S)
      → l.readies ≡ ds ++ t ∷ q
      → AllDead ds
      → t.alive ≡ true
      → t.pid ≡ some new
      → get_elem? l.runs p ≡ some (old ∷ [])
      → old.state ≡ running
      → old.default_state ≡ ready
      → schedule sys p regs last current l s
        ≡ some (
          true,
          t.regs,
          preempted p ds t q (timed (leb last current) (current - last) old) l,
          enter sys old.pid new (sys.set_running new true (leave sys old.pid s)),
        )
  unfolding schedule pop get_mut
  schedule-preempted p regs last current new ds t q old l s r dead a n h o d =
      let b = leb last current in
      let old' = timed b (current - last) old in
      let f = timed-fields b (current - last) old in
      let l₁ = after ds q l in
      let l₂ = get_mut p running [] l₁ in
      rw
        (
          ap (λ x. pick p x l) r ∙ pick-first_alive p ds t q l dead a,
          schedule,
          index-running p (old ∷ []) l₁ h,
          if-timed b (current - last) old,
          switch-preempts p old' t new l₂ s (get_elem?-set_elem p (old ∷ []) [] l.runs h) (f.0 ∙ o)
              (f.1 ∙ d) n,
        )
        (ap
            (λ pd. some (
              true,
              t.regs,
              after_switch p (record old' { state = old'.default_state }) t l₂,
              enter sys pd new (sys.set_running new true (leave sys pd s)),
            ))
            f.2
          ∙ ap
              (λ x. some (
                true,
                t.regs,
                record (preempted p ds t q old' l) { runs = x },
                enter sys old.pid new (sys.set_running new true (leave sys old.pid s)),
              ))
              (set_elem-set_elem p [] (record t { state = running } ∷ []) l.runs))
