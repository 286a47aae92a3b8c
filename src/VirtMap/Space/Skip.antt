-- ===== src/VirtMap/Space/Skip.antt =====
-- The iterators around a range, and what `skip_prev` and `skip_next` make of them.
use aurora_os_old.Prelude.{
  ℕ, ◌≤◌, ◌<◌, ◌≡◌, ◌≢◌, refl, sym, ap, ◌∙◌, ◌⊎◌, inl, inr, true, false, Bool-cases, Option, none,
  some, some_inj, none_ne, List, [], ◌∷◌, arith, if◌then◌else◌,
}
use mathlib.Core.Path.{subst}
use aurora_os_old.Mem.{Range, end_addr}
use aurora_os_old.VirtMap.Space.{
  range_lt, range_eq, remove, prev_from, next_iter, first, rest_of, skip_prev, skip_next,
}
use aurora_os_old.VirtMap.Space.Zones.{Placed, Clear, lt-addr}
use aurora_os_old.VirtMap.Space.Entries.{Zone, Zone-low, range_eq-≡, range_eq_refl, addr-lt}
use aurora_os_old.VirtMap.Space.Lookup.{prev-Zone}

pub range_eq-lt : (r j k : Range) → range_eq r j ≡ true → range_lt j k ≡ true → range_lt r k ≡ true
unfolding range_eq range_lt
range_eq-lt r j k e f = ground arith

pub addr_ne : (r k : Range) → r.addr ≢ k.addr → range_eq r k ≡ false
unfolding range_eq
addr_ne r k h = ground arith

-- a range before `k` is not one that begins with `k` and is no smaller
pub before_ne :
    (q j k : Range) → k.addr ≡ j.addr → k.size ≤ j.size → range_lt q k ≡ true → range_eq q j ≡ false
unfolding range_lt range_eq
before_ne q j k a s l = ground arith

pub true_ne : true ≡ false → ⊥
true_ne h = cc

module _ {V : Type 0} where
  pub prev-lt :
      (k p : Range) (seen m : List (Range × V))
      → first (prev_from k seen m) ≡ some p
      → (first seen ≡ some p) ⊎ (range_lt p k ≡ true)
  unfolding prev_from
  prev-lt k p seen [] e = inl e
  prev-lt k p seen ((r, v) ∷ m) e = elim (Bool-cases (range_lt r k)) [
    | inl t ↦
        let e' = sym (ap (λ b. first (if b then prev_from k ((r, v) ∷ seen) m else seen)) t) ∙ e in
        elim (prev-lt k p ((r, v) ∷ seen) m e') [
          | inl h ↦ inr (rw (← some_inj r p h) t)
          | inr z ↦ inr z
        ]
    | inr t ↦ inl (sym (ap (λ b. first (if b then prev_from k ((r, v) ∷ seen) m else seen)) t) ∙ e)
  ]

  -- Leaving out a zone before the key does not change what follows the key.
  pub next-remove :
      (j k : Range) (m : List (Range × V))
      → range_lt j k ≡ true
      → first (next_iter k (remove j m)) ≡ first (next_iter k m)
  unfolding next_iter remove
  next-remove j k [] h = refl
  next-remove j k ((r, v) ∷ m) h = elim (Bool-cases (range_eq r j)) [
    | inl e ↦ rw (e, range_eq-lt r j k e h) refl
    | inr e ↦ elim (Bool-cases (range_lt r k)) [
      | inl t ↦ rw (e, t) (next-remove j k m h)
      | inr t ↦ rw (e, t) refl
    ]
  ]

  -- When the last zone before the key was seen already, the iterator stops at once.
  pub stops :
      (lo hi : ℕ) (k r : Range) (v : V) (seen seen' m : List (Range × V))
      → Placed lo hi m
      → r.addr < lo
      → first (prev_from k ((r, v) ∷ seen) m) ≡ some r
      → prev_from k seen' m ≡ seen'
  unfolding prev_from
  stops lo hi k r v seen seen' [] p h e = refl
  stops lo hi k r v seen seen' ((q, w) ∷ m) (low, pages, high, p) h e =
      elim (Bool-cases (range_lt q k)) [
        | inr t ↦ rw t refl
        | inl t ↦
            let e' =
              sym (
                ap
                  (λ b. first (if b then prev_from k ((q, w) ∷ (r, v) ∷ seen) m else (r, v) ∷ seen))
                  t)
              ∙ e in
            absurd (elim (prev-Zone k r ((q, w) ∷ (r, v) ∷ seen) m e') [
              | inl s ↦ omega (arith, ap (λ z. z.addr) (some_inj q r s))
              | inr z ↦ let (l, _, _) = Zone-low (end_addr q) hi r m p z in omega arith
            ])
      ]

  pub unseen :
      (k r : Range) (v : V) (seen m : List (Range × V))
      → range_lt r k ≡ true
      → first (prev_from k ((r, v) ∷ seen) m) ≡ first (prev_from k seen ((r, v) ∷ m))
  unfolding prev_from
  unseen k r v seen m t = rw t refl

  -- The zone before the last one before the key is the last one once that is removed.
  pub prev-remove :
      (lo hi : ℕ) (j k : Range) (seen m : List (Range × V))
      → Placed lo hi m
      → Zone j m
      → range_lt j k ≡ true
      → first (prev_from k seen m) ≡ some j
      → first (rest_of (prev_from k seen m)) ≡ first (prev_from k seen (remove j m))
  unfolding prev_from remove
  prev-remove lo hi j k seen [] p z l e = absurd z
  prev-remove lo hi j k seen ((r, v) ∷ m) (low, pages, high, p) (inl z) l e =
      let same : range_eq r j ≡ true = rw z (range_eq_refl r) in
      let lr : range_lt r k ≡ true = range_eq-lt r j k same l in
      let e' = unseen k r v seen m lr ∙ e ∙ ap some z in
      rw
        (
          same,
          lr,
          stops (end_addr r) hi k r v seen ((r, v) ∷ seen) m p (omega (arith, pages.nonempty)) e',
          stops (end_addr r) hi k r v seen seen m p (omega (arith, pages.nonempty)) e',
        )
        refl
  prev-remove lo hi j k seen ((r, v) ∷ m) (low, pages, high, p) (inr z) l e =
      let (above, _, _) = Zone-low (end_addr r) hi j m p z in
      let lr : range_lt r k ≡ true = addr-lt r k (omega (arith, lt-addr j k l, pages.nonempty)) in
      let ne : range_eq r j ≡ false = addr_ne r j (omega (arith, pages.nonempty)) in
      rw (ne, lr)
        (prev-remove (end_addr r) hi j k ((r, v) ∷ seen) m p z l (unseen k r v seen m lr ∙ e))

  pub remove_same :
      (j r : Range) (v : V) (m : List (Range × V)) → range_eq r j ≡ true → remove j ((r, v) ∷ m) ≡ m
  unfolding remove
  remove_same j r v m e = rw e refl

  pub remove_other :
      (j r : Range) (v : V) (m : List (Range × V))
      → range_eq r j ≡ false
      → remove j ((r, v) ∷ m) ≡ (r, v) ∷ remove j m
  unfolding remove
  remove_other j r v m e = rw e refl

  pub skip_prev_same :
      (j : Range) (prevs : List (Range × V))
      → first prevs ≡ some j
      → skip_prev (some j) prevs ≡ first (rest_of prevs)
  unfolding skip_prev
  skip_prev_same j [] e = absurd (none_ne j e)
  skip_prev_same j ((q, v) ∷ prevs) e =
      let same : range_eq q j ≡ true = rw (some_inj q j e) (range_eq_refl j) in rw same refl

  pub skip_prev_other :
      (j : Range) (prevs : List (Range × V))
      → ((q : Range) → first prevs ≡ some q → range_eq q j ≡ false)
      → skip_prev (some j) prevs ≡ first prevs
  unfolding skip_prev
  skip_prev_other j [] apart = refl
  skip_prev_other j ((q, v) ∷ prevs) apart = rw (apart q refl) refl

  pub skip_next_other :
      (j : Range) (prev : Option Range) (nexts : List (Range × V))
      → ((q : Range) → prev ≡ some q → range_eq q j ≡ false)
      → skip_next (some j) prev nexts ≡ first nexts
  unfolding skip_next
  skip_next_other j none nexts apart = refl
  skip_next_other j (some q) nexts apart = rw (apart q refl) refl

  pub Placed-size :
      (lo hi : ℕ) (j : Range) (m : List (Range × V)) → Placed lo hi m → Zone j m → 0 < j.size
  Placed-size lo hi j m p z = let (_, i, _) = Zone-low lo hi j m p z in i.nonempty

  pub Clear-overlap :
      (k j : Range) (m : List (Range × V))
      → 0 < k.size
      → 0 < j.size
      → k.addr ≡ j.addr
      → Clear k m
      → Zone j m
      → ⊥
  Clear-overlap k j [] a b e c z = z
  Clear-overlap k j ((r, v) ∷ m) a b e (d, c) (inl h) =
      let same : (r.addr ≡ j.addr) × (r.size ≡ j.size) =
        (ap (λ t. t.addr) (sym h), ap (λ t. t.size) (sym h)) in
      elim d [ inl x ↦ omega (arith, same.0, same.1) | inr x ↦ omega (arith, same.0, same.1) ]
  Clear-overlap k j ((r, v) ∷ m) a b e (d, c) (inr z) = Clear-overlap k j m a b e c z

  -- What is left after a zone was removed does not have its key.
  pub removed_ne :
      (lo hi : ℕ) (j q : Range) (m : List (Range × V))
      → Placed lo hi m
      → Zone j m
      → Zone q (remove j m)
      → range_eq q j ≡ false
  unfolding remove
  removed_ne lo hi j q [] p z y = absurd z
  removed_ne lo hi j q ((r, v) ∷ m) (low, pages, high, p) z y = elim (Bool-cases (range_eq r j)) [
    | inl e ↦
        let y' = subst (λ t. Zone q t) (remove_same j r v m e) y in
        let (above, _, _) = Zone-low (end_addr r) hi q m p y' in
        addr_ne q j (omega (arith, (range_eq-≡ r j e).0, pages.nonempty))
    | inr e ↦ elim (subst (λ t. Zone q t) (remove_other j r v m e) y) [
      | inl h ↦ rw h e
      | inr y' ↦ elim z [
        | inl h ↦
            let same : range_eq r j ≡ true = rw h (range_eq_refl r) in
            absurd (true_ne (sym same ∙ e))
        | inr z' ↦ removed_ne (end_addr r) hi j q m p z' y'
      ]
    ]
  ]
