-- ===== src/VirtMap/Space/Free.antt =====
-- `free_space` of kernel/src/mem/virt_alloc.rs: whether a range is free, with or without a zone that is
-- to be left out.
use aurora_os_old.Prelude.{
  ℕ, ◌-◌, ◌<◌, ◌≡◌, refl, sym, ◌∙◌, ◌↔◌, inl, inr, Option, none, some, none_ne, Option-cases, List,
  [], arith, le→ltb,
}
use aurora_os_old.Mem.{Range, end_addr}
use aurora_os_old.VirtMap.Space.{
  prev_iter, next_iter, first, free_before, free_behind, free_space, skip_prev, skip_next,
}
use aurora_os_old.VirtMap.Space.Zones.{Placed, Below, Above, around}
use aurora_os_old.VirtMap.Space.Find.{IsFree}

before_some : (k : Range) (prev : Option Range) (b : ℕ) → free_before k prev ≡ some b → Below prev k
unfolding free_before
before_some k none b e = ground arith
before_some k (some p) b e = ground arith

Below-before :
    (k : Range) (prev : Option Range) → Below prev k → (b : ℕ) × (free_before k prev ≡ some b)
unfolding free_before
Below-before k none h = (k.addr - 4096, rw (le→ltb k.addr 4096 h) refl)
Below-before k (some p) h = (k.addr - end_addr p, rw (le→ltb k.addr (end_addr p) h) refl)

behind_some :
    (hi : ℕ) (k : Range) (next : Option Range) (b : ℕ)
    → free_behind hi k next ≡ some b
    → Above hi next k
unfolding free_behind
behind_some hi k none b e = ground arith
behind_some hi k (some n) b e = ground arith

Above-behind :
    (hi : ℕ) (k : Range) (next : Option Range)
    → Above hi next k
    → (b : ℕ) × (free_behind hi k next ≡ some b)
unfolding free_behind
Above-behind hi k none h = (hi - end_addr k, rw (le→ltb hi (end_addr k) h) refl)
Above-behind hi k (some n) h = (n.addr - end_addr k, rw (le→ltb n.addr (end_addr k) h) refl)

-- What `free_space` makes of the zones around
unfoldable pub both : (hi : ℕ) → Range → (prev next : Option Range) → Option (ℕ × ℕ)
both hi k prev next = elim (free_before k prev) [
  | none ↦ none
  | some before ↦ elim (free_behind hi k next) [ none ↦ none | some behind ↦ some (before, behind) ]
]

both-some :
    (hi : ℕ) (k : Range) (prev next : Option Range) (s : ℕ × ℕ)
    → both hi k prev next ≡ some s
    → Below prev k × Above hi next k
unfolding both
both-some hi k prev next s e = elim (Option-cases (free_before k prev)) [
  | inl n ↦ absurd (none_ne s (sym (rw (both, n) refl) ∙ e))
  | inr (b, eb) ↦ elim (Option-cases (free_behind hi k next)) [
    | inl n ↦ absurd (none_ne s (sym (rw (both, eb, n) refl) ∙ e))
    | inr (c, ec) ↦ (before_some k prev b eb, behind_some hi k next c ec)
  ]
]

some-both :
    (hi : ℕ) (k : Range) (prev next : Option Range)
    → Below prev k
    → Above hi next k
    → (s : ℕ × ℕ) × (both hi k prev next ≡ some s)
unfolding both
some-both hi k prev next h g =
    let (b, eb) = Below-before k prev h in
    let (c, ec) = Above-behind hi k next g in ((b, c), rw (both, eb, ec) refl)

module _ {V : Type 0} where
  pub free_space_lem :
      (hi : ℕ) (k : Range) (exclude : Option Range) (m : List (Range × V))
      → free_space hi k exclude m
        ≡ both hi k
            (skip_prev exclude (prev_iter k m))
            (skip_next exclude (skip_prev exclude (prev_iter k m)) (next_iter k m))
  unfolding free_space both
  free_space_lem hi k exclude m = refl

  pub around_IsFree :
      (hi : ℕ) (k : Range) (m : List (Range × V)) (s : ℕ × ℕ)
      → 0 < k.size
      → Placed 4096 hi m
      → both hi k (first (prev_iter k m)) (first (next_iter k m)) ≡ some s
      → IsFree hi k m
  unfolding prev_iter
  around_IsFree hi k m s i p e =
      let (low, clear, high) =
        (around 4096 hi k [] m i (omega arith) p).0
          (both-some hi k (first (prev_iter k m)) (first (next_iter k m)) s e) in
      record { low = low; high = high; clear = clear }

  pub free_space_iff :
      (hi : ℕ) (k : Range) (m : List (Range × V))
      → 0 < k.size
      → Placed 4096 hi m
      → ((s : ℕ × ℕ) × (free_space hi k none m ≡ some s)) ↔ IsFree hi k m
  unfolding prev_iter skip_prev skip_next
  free_space_iff hi k m i p = (
    λ (s, e). around_IsFree hi k m s i p (sym (free_space_lem hi k none m) ∙ e),
    λ f.
        let (b, a) = (around 4096 hi k [] m i (omega arith) p).1 (f.low, f.clear, f.high) in
        let (s, e) = some-both hi k (first (prev_iter k m)) (first (next_iter k m)) b a in
        (s, free_space_lem hi k none m ∙ e),
  )
