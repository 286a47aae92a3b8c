-- ===== src/Futex/Identity.antt =====
-- libutil/src/futex.rs: `RawFutex::id`, which makes the kernel's futex on first use, and `drop`.
use aurora_os_old.Prelude.{
  ℕ, ◌-◌, ◌≡◌, ◌≢◌, refl, ap, false, Option, none, some, List, [], ◌∷◌, ◌==◌, if◌then◌else◌,
  word_mod, arith,
}

-- no futex yet
abbrev pub no_id : ℕ
no_id = word_mod - 1

-- The `compare_exchange` of `id` with a new futex: the answer of `id`, the field, and the futex
-- that is destroyed
unfoldable pub publish : (id new_id : ℕ) → ℕ × ℕ × Option ℕ
publish id new_id = if id == no_id then (new_id, new_id, none) else (id, id, some new_id)

-- The calls of `id` that saw no futex, in the order of their `compare_exchange`, each with the
-- futex that it made: the answers, the field afterwards, and the futexes destroyed
unfoldable pub publish_all : ℕ → List ℕ → List ℕ × ℕ × List ℕ
publish_all id [] = ([], id, [])
publish_all id (n ∷ ns) =
    let (answer, id', lost) = publish id n in
    let (answers, id'', losts) = publish_all id' ns in
    (answer ∷ answers, id'', elim lost [ none ↦ losts | some x ↦ x ∷ losts ])

-- `drop`: the futex that is destroyed
unfoldable pub drop_id : ℕ → Option ℕ
drop_id id = if id == no_id then none else some id

abbrev pub all_equal : ℕ → List ℕ → List ℕ
all_equal id [] = []
all_equal id (n ∷ ns) = id ∷ all_equal id ns

publish-set : (id n : ℕ) → id ≢ no_id → publish id n ≡ (id, id, some n)
unfolding publish
publish-set id n h =
    let e : (id == no_id) ≡ false = ground arith in
    ap (λ b. if b then (n, n, none) else (id, id, some n)) e

publish_all-set :
    (id : ℕ) (ns : List ℕ) → id ≢ no_id → publish_all id ns ≡ (all_equal id ns, id, ns)
unfolding publish_all
publish_all-set id [] h = refl
publish_all-set id (n ∷ ns) h =
    rw (publish-set id n h, publish_all, publish-set id n h, publish_all-set id ns h) refl

-- Where several threads make the first use of a lock together, and the one that publishes its
-- futex first has another identifier than `no_id`, all are given this futex, which the lock keeps
-- and `drop` destroys, and the other futexes that they made are destroyed.
pub publish_all-first :
    (first : ℕ) (ns : List ℕ)
    → first ≢ no_id
    → (publish_all no_id (first ∷ ns) ≡ (all_equal first (first ∷ ns), first, ns))
      × (drop_id first ≡ some first)
unfolding publish_all publish drop_id
publish_all-first first ns h =
    let e : (first == no_id) ≡ false = ground arith in
    (rw (publish_all-set first ns h, publish_all) refl, rw (e, drop_id) refl)
