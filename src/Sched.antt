-- ===== src/Sched.antt =====
-- kernel/src/sched/mod.rs and thread.rs: thread states, the thread list with its queues, moving
-- threads between queues, and picking the next thread.
-- A queue is the list of its threads, and an AVL tree of queues a map from keys to queues. A thread
-- that waits on a futex is filed under the futex's `fuid`, which stands for the pointer. `p` is the
-- number of the processor. `none` is a panic.
pub mod Queue
pub mod Move
pub mod Schedule
mod Tests
use aurora_os_old.Prelude.{
  ℕ, zero, suc, ◌+◌, ◌-◌, ◌^◌, ◌≡◌, refl, Bool, true, false, Option, none, some, List, [], ◌∷◌,
  ◌++◌, leb, length, get_elem?, set_elem, if◌then◌else◌, ◌==◌, wadd,
}
use aurora_os_old.Prelude.Dict

pub data ThreadState : Type 0 where
  running ready idle destroy : ThreadState
  waiting : (tuid : ℕ) → ThreadState
  sleep : (nsec : ℕ) → ThreadState
  join : (tuid : ℕ) → ThreadState
  futex_block : (fuid : ℕ) → ThreadState
  listening : (ipcid : ℕ) → ThreadState

-- `alive` is what `is_alive` answers, and `pid` the process when it still exists.
pub record Thread : Type 0 where
  pub tuid : ℕ
  pub state : ThreadState
  pub default_state : ThreadState
  pub alive : Bool
  pub pid : Option ℕ
  pub run_time : ℕ
  pub regs : ℕ

pub record ThreadList : Type 0 where
  pub runs : List (List Thread)
  pub readies : List Thread
  pub idles : List (List Thread)
  pub destroys : List Thread
  pub sleeps : List Thread
  pub joins : List (ℕ × List Thread)
  pub waits : List (ℕ × List Thread)
  pub conn_waits : List (ℕ × List Thread)
  pub futexes : List (ℕ × List Thread)

-- an index out of range panics
unfoldable pub found : Option (List Thread) → Option (Option (List Thread))
found none = none
found (some q) = some (some q)

-- `ThreadList::get`: the outer `none` is a panic, the inner one the answer `None`
unfoldable pub get : ℕ → ThreadState → ThreadList → Option (Option (List Thread))
get p running l = found (get_elem? l.runs p)
get p ready l = some (some l.readies)
get p idle l = found (get_elem? l.idles p)
get p destroy l = some (some l.destroys)
get p (sleep n) l = some (some l.sleeps)
get p (join t) l = some (Dict.get t l.joins)
get p (waiting t) l = some (Dict.get t l.waits)
get p (listening t) l = some (Dict.get t l.conn_waits)
get p (futex_block t) l = some (Dict.get t l.futexes)

-- what a caller of `get_mut` leaves in the queue that it was given
unfoldable pub get_mut : ℕ → ThreadState → List Thread → ThreadList → ThreadList
get_mut p running q l = record l { runs = set_elem p q l.runs }
get_mut p ready q l = record l { readies = q }
get_mut p idle q l = record l { idles = set_elem p q l.idles }
get_mut p destroy q l = record l { destroys = q }
get_mut p (sleep n) q l = record l { sleeps = q }
get_mut p (join t) q l = record l { joins = Dict.put t q l.joins }
get_mut p (waiting t) q l = record l { waits = Dict.put t q l.waits }
get_mut p (listening t) q l = record l { conn_waits = Dict.put t q l.conn_waits }
get_mut p (futex_block t) q l = record l { futexes = Dict.put t q l.futexes }

-- `list[state]`, which panics on `None`
unfoldable pub index : ℕ → ThreadState → ThreadList → Option (List Thread)
index p st l = elim (get p st l) [ none ↦ none | some o ↦ o ]

-- `Thread::insert_into`
unfoldable pub insert_into : ℕ → Thread → ThreadList → Option ThreadList
insert_into p t l = elim (index p t.state l) [
  | none ↦ none
  | some q ↦ some (get_mut p t.state (q ++ t ∷ []) l)
]

-- The loop of `inner_state_move`: `n` rounds are left, and `i` are done.
unfoldable pub move_loop :
    ℕ → ℕ → ThreadState → ThreadState → ℕ → ThreadList → Option (ℕ × ThreadList)
move_loop zero p old new i l = some (i, l)
move_loop (suc n) p old new i l = elim (index p old l) [
  | none ↦ none
  | some [] ↦ some (i, l)
  | some (t ∷ q) ↦ elim (insert_into p (record t { state = new }) (get_mut p old q l)) [
    | none ↦ none
    | some l' ↦ move_loop n p old new (suc i) l'
  ]
]

unfoldable pub is_running : ThreadState → Bool
is_running running = true
is_running _ = false

-- Both tests of `is_none`, the second only after the first
unfoldable pub both : Option (Option (List Thread)) → Option (Option (List Thread)) → Option Bool
both none b = none
both (some none) b = some false
both (some (some q)) none = none
both (some (some q)) (some none) = some false
both (some (some q)) (some (some r)) = some true

unfoldable pub inner_state_move :
    ℕ → ThreadState → ThreadState → ℕ → ThreadList → Option (ℕ × ThreadList)
inner_state_move p old new count l =
    if is_running new
    then none
    else if is_running old
    then none
    else elim (both (get p old l) (get p new l)) [
      | none ↦ none
      | some false ↦ some (0, l)
      | some true ↦ move_loop count p old new 0 l
    ]

-- an empty queue where the key has none
unfoldable pub ensure_key : ℕ → List (ℕ × List Thread) → List (ℕ × List Thread)
ensure_key k d = elim (Dict.get k d) [ none ↦ Dict.put k [] d | some q ↦ d ]

unfoldable pub ensure : ThreadState → ThreadList → ThreadList
ensure (join t) l = record l { joins = ensure_key t l.joins }
ensure (waiting t) l = record l { waits = ensure_key t l.waits }
ensure (listening t) l = record l { conn_waits = ensure_key t l.conn_waits }
ensure (futex_block t) l = record l { futexes = ensure_key t l.futexes }
ensure running l = l
ensure ready l = l
ensure idle l = l
ensure destroy l = l
ensure (sleep n) l = l

unfoldable pub state_move : ℕ → ThreadState → ThreadState → ℕ → ThreadList → Option (ℕ × ThreadList)
state_move p old new count l = inner_state_move p old new count (ensure new l)

-- the queue leaves the tree, and must be empty
unfoldable pub remove_key : ℕ → List (ℕ × List Thread) → Option (List (ℕ × List Thread))
remove_key k d = elim (Dict.get k d) [
  | none ↦ some d
  | some [] ↦ some (Dict.delete k d)
  | some (t ∷ q) ↦ none
]

unfoldable pub dealloc_state : ThreadState → ThreadList → Option ThreadList
dealloc_state (join t) l = elim (remove_key t l.joins) [
  | none ↦ none
  | some d ↦ some (record l { joins = d })
]
dealloc_state (waiting t) l = elim (remove_key t l.waits) [
  | none ↦ none
  | some d ↦ some (record l { waits = d })
]
dealloc_state (listening t) l = elim (remove_key t l.conn_waits) [
  | none ↦ none
  | some d ↦ some (record l { conn_waits = d })
]
dealloc_state (futex_block t) l = elim (remove_key t l.futexes) [
  | none ↦ none
  | some d ↦ some (record l { futexes = d })
]
dealloc_state running l = some l
dealloc_state ready l = some l
dealloc_state idle l = some l
dealloc_state destroy l = some l
dealloc_state (sleep n) l = some l

-- `Thread::inc_time`, on an atomic `u64`
unfoldable pub inc_time : ℕ → Thread → Thread
inc_time nsec t = record t { run_time = wadd t.run_time nsec }

-- `pop` of a queue
unfoldable pub pop : List Thread → Option (List Thread × Thread)
pop [] = none
pop (t ∷ q) = elim (pop q) [ none ↦ some ([], t) | some (rest, last) ↦ some (t ∷ rest, last) ]

-- The loop of `schedule` that picks a thread, round by round over the ready queue: the dead go to
-- the destroy queue, the first live one is taken, or else an idle one. The inner `none` is the
-- answer `false`.
unfoldable pub pick_idle : ℕ → ThreadList → Option (Option Thread × ThreadList)
pick_idle p l = elim (index p idle l) [
  | none ↦ none
  | some q ↦
      some (elim (pop q) [ none ↦ (none, l) | some (rest, t) ↦ (some t, get_mut p idle rest l) ])
]

unfoldable pub pick : ℕ → List Thread → ThreadList → Option (Option Thread × ThreadList)
pick p [] l = pick_idle p (get_mut p ready [] l)
pick p (t ∷ q) l = elim (insert_into p (record t { state = destroy }) (get_mut p ready q l)) [
  | none ↦ none
  | some dead ↦ if t.alive then some (some t, get_mut p ready q l) else pick p q dead
]

-- The effects of `schedule` outside the thread list, on a state `S`: the processes' running marks,
-- loading an address space, and unlocking the futex that a thread has blocked on.
pub record Machine (S : Type 0) : Type 0 where
  pub set_running : ℕ → Bool → S → S
  pub load : ℕ → S → S
  pub force_unlock : ℕ → S → S

module _ {S : Type 0} (sys : Machine S) where
  unfoldable pub atomic_process : ThreadState → S → S
  atomic_process (futex_block k) s = sys.force_unlock k s
  atomic_process _ s = s

  unfoldable pub leave : Option ℕ → S → S
  leave none s = s
  leave (some pid) s = sys.set_running pid false s

  unfoldable pub enter : Option ℕ → ℕ → S → S
  enter none new s = sys.load new s
  enter (some old) new s = if old == new then s else sys.load new s

  -- the state in which the thread that ran goes back into the list
  unfoldable pub resting : Thread → Thread
  resting t = elim (is_running t.state) [ true ↦ record t { state = t.default_state } | false ↦ t ]

  -- The switch from `old` to `t`, which has been picked: the list, the effects, and the registers.
  unfoldable pub switch : ℕ → Thread → Thread → ThreadList → S → Option (ℕ × ThreadList × S)
  switch p old t l s = elim (insert_into p (resting old) l) [
    | none ↦ none
    | some l' ↦ elim (insert_into p (record t { state = running }) l') [
      | none ↦ none
      | some l'' ↦ elim t.pid [
        | none ↦ none
        | some new ↦ some (
          t.regs,
          l'',
          enter old.pid new (sys.set_running new true (leave old.pid (atomic_process old.state s))),
        )
      ]
    ]
  ]

  -- `schedule`: its answer and what it leaves in `regs`, where the caller finds the registers of the
  -- thread that runs next; `none` is a panic. What `regs` held before is not read.
  unfoldable pub schedule :
      (p regs last current : ℕ) → ThreadList → S → Option (Bool × ℕ × ThreadList × S)
  schedule p regs last current l s = elim (pick p l.readies l) [
    | none ↦ none
    | some (none, l') ↦ some (false, regs, l', s)
    | some (some t, l') ↦ elim (index p running l') [
      | none ↦ none
      | some q ↦ elim (pop q) [
        | none ↦ none
        | some (rest, old) ↦
            elim (switch p (if leb last current then inc_time (current - last) old else old) t
              (get_mut p running rest l') s) [
                | none ↦ none
                | some (regs', l'', s') ↦ some (true, regs', l'', s')
              ]
      ]
    ]
  ]
