-- ===== src/LinkedList/Write.antt =====
-- Rules for the four link accesses, and what a write to one node leaves alone.
use mathlib.Core.Bool.{false≢true}
use native.Mathlib.Decide.{ℕ_discrete}
use aurora_os_old.Prelude.{
  ◌≡◌, ◌≢◌, inl, inr, refl, sym, ◌∙◌, true, false, Option, none, some, List, ◌∷◌, arith, ◌==◌,
}
use aurora_os_old.LinkedList.{
  Ptr, null, Mem, update, next_ptr, prev_ptr, set_next, set_prev, LinkedList,
}
use aurora_os_old.LinkedList.Seg.{has, Seg, SameOutside, IsList, last_or, Seg-frame, ne_of_has}

abbrev pub wn : Mem → Ptr → Ptr → Mem
wn m p q = record m { next = update m.next p q }

abbrev pub wp : Mem → Ptr → Ptr → Mem
wp m p q = record m { prev = update m.prev p q }

-- The run returns, with the postcondition `P`.
abbrev pub Returns : {A : Type 0} → (A → Mem → Type 0) → Option (A × Mem) → Type 0
Returns P none = ⊥
Returns P (some (a, m)) = P a m

pub not_null : (p : Ptr) → p ≢ null → (p == null) ≡ false
not_null p h = ground arith

module _ (m : Mem) {p : Ptr} (h : p ≢ null) where
  pub set_next_lem : (q : Ptr) → set_next p q m ≡ some (tt, wn m p q)
  unfolding set_next
  set_next_lem q = rw (not_null p h) refl

  pub set_prev_lem : (q : Ptr) → set_prev p q m ≡ some (tt, wp m p q)
  unfolding set_prev
  set_prev_lem q = rw (not_null p h) refl

  pub next_ptr_lem : next_ptr p m ≡ some (m.next p, m)
  unfolding next_ptr
  next_ptr_lem = rw (not_null p h) refl

  pub prev_ptr_lem : prev_ptr p m ≡ some (m.prev p, m)
  unfolding prev_ptr
  prev_ptr_lem = rw (not_null p h) refl

module _ (m : Mem) (v q b a : Ptr) (xs : List Ptr) (out : has v xs ≡ false) where
  apart : (p : Ptr) → has p xs ≡ true → (p == v) ≡ false
  apart p h = elim (ℕ_discrete p v) [
    | yes e ↦ absurd (false≢true (sym out ∙ rw e at h))
    | no ne ↦ ground arith
  ]

  pub Seg-wn : Seg m b xs a → Seg (wn m v q) b xs a
  Seg-wn = Seg-frame b xs a (λ p h. (rw (apart p h) refl, refl))

  pub Seg-wp : Seg m b xs a → Seg (wp m v q) b xs a
  Seg-wp = Seg-frame b xs a (λ p h. (refl, rw (apart p h) refl))

module _ (ys : List Ptr) {m m' : Mem} (v q : Ptr) (mem : has v ys ≡ true)
    (s : SameOutside ys m m') where
  pub SameOutside-wn : SameOutside ys m (wn m' v q)
  SameOutside-wn p h = (rw (ne_of_has p v ys h mem) (s p h).0, (s p h).1)

  pub SameOutside-wp : SameOutside ys m (wp m' v q)
  SameOutside-wp p h = ((s p h).0, rw (ne_of_has p v ys h mem) (s p h).1)

pub SameOutside-refl : (ys : List Ptr) (m : Mem) → SameOutside ys m m
SameOutside-refl ys m p h = (refl, refl)

pub self_eq : (p : Ptr) → (p == p) ≡ true
self_eq p = ground arith

module _ {m : Mem} {l : LinkedList} {x : Ptr} {xs : List Ptr} (is : IsList m l (x ∷ xs)) where
  pub end-cons : l.end ≡ last_or x xs
  end-cons = elim is.ends [ inl e ↦ cc | inr e ↦ e ]

  pub start-cons : l.start ≡ x
  start-cons = elim is.starts [ inl e ↦ cc | inr e ↦ e ]

  pub len-cons : (l.len == 0) ≡ false
  len-cons = let c = is.counted in ground arith
