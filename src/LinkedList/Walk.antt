-- ===== src/LinkedList/Walk.antt =====
-- `get_node` and the iterator: walking the chain from either end.
use native.Mathlib.Nat.{zero-add}
use aurora_os_old.Prelude.{
  ℕ, zero, suc, ◌+◌, ◌-◌, ◌*◌, ◌≡◌, ◌≢◌, ◌≤◌, ◌⊎◌, inl, inr, refl, ◌∙◌, ap, true, false, none, some,
  List, [], ◌∷◌, ◌++◌, arith, ◌==◌, length, length-append, get_elem?, ltb, leb, Bool-cases,
}
use aurora_os_old.LinkedList.{
  Ptr, null, Mem, LinkedList, walk, walk_back, get_node, get, Iter, iter, next, next_back,
}
use aurora_os_old.LinkedList.Seg.{
  first_or, last_or, Seg, IsList, Seg-split, first_or-append, last_or-append, last_or-ne_null,
}
use aurora_os_old.LinkedList.Write.{not_null, next_ptr_lem, prev_ptr_lem, Returns}
use aurora_os_old.LinkedList.Cut.{cut, cons_ne_nil}

first_or-ne_null :
    (m : Mem) (b p : Ptr) (us vs : List Ptr) (a : Ptr)
    → Seg m b (us ++ p ∷ vs) a
    → first_or p us ≢ null
first_or-ne_null m b p [] vs a s = s.0
first_or-ne_null m b p (u ∷ us) vs a s = s.0

-- The forward loop reaches the node at position `length us`.
walk_lem :
    (m : Mem) (b : Ptr) (us : List Ptr) (p : Ptr) (vs : List Ptr) (a : Ptr)
    → Seg m b (us ++ p ∷ vs) a
    → walk (length us) (first_or p us) m ≡ some (p, m)
unfolding walk
walk_lem m b [] p vs a s = refl
walk_lem m b (u ∷ us) p vs a s =
    let e = s.2 ∙ first_or-append a us (p ∷ vs) in
    rw (next_ptr_lem m s.0, e, not_null (first_or p us) (first_or-ne_null m u p us vs a s.3))
      (walk_lem m u us p vs a s.3)

-- The backward loop, from the last node, passes `vs` and goes on from the node before them.
walk_back_lem :
    (m : Mem) (b p : Ptr) (vs : List Ptr) (a : Ptr) (j : ℕ)
    → Seg m b (p ∷ vs) a
    → walk_back (length vs + j) (last_or p vs) m ≡ walk_back j p m
unfolding walk_back
walk_back_lem m b p [] a j s = rw zero-add refl
walk_back_lem m b p (v ∷ vs) a j s =
    let e : suc (length vs) + j ≡ length vs + suc j = omega arith in
    rw e
      (walk_back_lem m p v vs a (suc j) s.3 ∙ rw (prev_ptr_lem m s.3.0, s.3.1, not_null p s.0) refl)

-- A position is past the end, or splits the list.
pub split_at :
    (xs : List Ptr) (i : ℕ)
    → ((length xs ≤ i) × (get_elem? xs i ≡ none))
      ⊎ ((us : List Ptr) × (p : Ptr) × (vs : List Ptr) × (xs ≡ us ++ p ∷ vs)
          × (length us ≡ i)
          × (get_elem? xs i ≡ some p))
split_at [] i = inl (omega arith, refl)
split_at (x ∷ xs) zero = inr ([], x, xs, refl, refl, refl)
split_at (x ∷ xs) (suc i) = elim (split_at xs i) [
  | inl (short, e) ↦ inl (omega arith, e)
  | inr (us, p, vs, whole, here, e) ↦ inr (x ∷ us, p, vs, ap (λ t. x ∷ t) whole, ap suc here, e)
]

pub below : (n i j k : ℕ) → j ≡ i → n ≡ suc (j + k) → leb n i ≡ false
below n i j k h e = ground arith

pub outside : (n i k : ℕ) → n ≡ k → k ≤ i → leb n i ≡ true
outside n i k e h = ground arith

pub get_node-at :
    (m : Mem) (l : LinkedList) (us : List Ptr) (p : Ptr) (vs : List Ptr)
    → IsList m l (us ++ p ∷ vs)
    → get_node l (length us) m ≡ some (p, m)
unfolding get_node
get_node-at m l us p vs is =
    let c = cut m l us p vs is in
    let inside : leb l.len (length us) ≡ false =
      below l.len (length us) (length us) (length vs) refl c.counted in
    elim (Bool-cases (ltb l.len (length us * 2))) [
      | inl late ↦
          let rest : l.len - length us - 1 ≡ length vs + 0 = omega (arith, c.counted) in
          rw
            (
              inside,
              late,
              c.ends,
              not_null (last_or p vs)
                  (last_or-ne_null m (last_or null us) p vs null (c.ne, c.prev, c.next, c.back)),
              rest,
            )
            (walk_back_lem m (last_or null us) p vs null 0 (c.ne, c.prev, c.next, c.back) ∙ stop p)
      | inr early ↦
          rw
            (
              inside,
              early,
              c.starts,
              not_null (first_or p us) (first_or-ne_null m null p us vs null is.chain),
            )
            (walk_lem m null us p vs null is.chain)
    ]
  where
    stop : (q : Ptr) → walk_back 0 q m ≡ some (q, m)
    stop q = unfold walk_back in refl

-- `get` of a list returns the node at the position, or none at or past the end, and writes
-- nothing, whichever end it walks from.
pub get-get_elem? :
    (m : Mem) (l : LinkedList) (xs : List Ptr) (i : ℕ)
    → IsList m l xs
    → get l i m ≡ some (get_elem? xs i, m)
unfolding get
get-get_elem? m l xs i is = elim (split_at xs i) [
  | inl (short, e) ↦ rw (outside l.len i (length xs) is.counted short, e) refl
  | inr (us, p, vs, whole, here, e) ↦
      let is' : IsList m l (us ++ p ∷ vs) = rw whole at is in
      let at : get_node l i m ≡ some (p, m) = rw here at (get_node-at m l us p vs is') in
      let inside : leb l.len i ≡ false =
        below l.len i (length us) (length vs) here (cut m l us p vs is').counted in
      rw (inside, at, e) refl
]

-- the sequence that an iterator has still to give
pub record IsOver (m : Mem) (it : Iter) (xs : List Ptr) : Type 0 where
  pub before : Ptr
  pub after : Ptr
  pub chain : Seg m before xs after
  pub counted : it.len ≡ length xs
  pub starts : (xs ≡ []) ⊎ (it.start ≡ first_or null xs)
  pub ends : (xs ≡ []) ⊎ (it.end ≡ last_or null xs)

pub iter-IsOver : (m : Mem) (l : LinkedList) (xs : List Ptr) → IsList m l xs → IsOver m (iter l) xs
unfolding iter
iter-IsOver m l xs is = record {
  before = null;
  after = null;
  chain = is.chain;
  counted = is.counted;
  starts = is.starts;
  ends = is.ends;
}

first_cases : (a : Ptr) (xs : List Ptr) → (xs ≡ []) ⊎ (first_or a xs ≡ first_or null xs)
first_cases a [] = inl refl
first_cases a (x ∷ xs) = inr refl

last_cases : (b : Ptr) (xs : List Ptr) → (xs ≡ []) ⊎ (last_or b xs ≡ last_or null xs)
last_cases b [] = inl refl
last_cases b (x ∷ xs) = inr refl

counts : (n k : ℕ) → n ≡ suc k → (n == 0) ≡ false
counts n k e = ground arith

-- `next` of an iterator that has nodes left gives the first of them and leaves the others, and
-- writes nothing.
pub next-cons :
    (m : Mem) (it : Iter) (x : Ptr) (xs : List Ptr)
    → IsOver m it (x ∷ xs)
    → Returns (λ (out, it') m'. (out ≡ some x) × IsOver m it' xs × (m' ≡ m)) (next it m)
unfolding next
next-cons m it x xs is =
    let first : it.start ≡ x = elim is.starts [ inl e ↦ cc | inr e ↦ e ] in
    let last : it.end ≡ last_or x xs = elim is.ends [ inl e ↦ cc | inr e ↦ e ] in
    rw (counts it.len (length xs) is.counted, first, next_ptr_lem m is.chain.0)
      (
        refl,
        record {
          before = x;
          after = is.after;
          chain = is.chain.3;
          counted = omega (arith, is.counted);
          starts = rw is.chain.2 (first_cases is.after xs);
          ends = rw last (last_cases x xs);
        },
        refl,
      )

-- `next_back` of an iterator that has nodes left gives the last of them and leaves the others, and
-- writes nothing.
pub next_back-append :
    (m : Mem) (it : Iter) (xs : List Ptr) (z : Ptr)
    → IsOver m it (xs ++ z ∷ [])
    → Returns (λ (out, it') m'. (out ≡ some z) × IsOver m' it' xs × (m' ≡ m)) (next_back it m)
unfolding next_back
next_back-append m it xs z is =
    let first : it.start ≡ first_or z xs = elim is.starts [
      | inl e ↦ absurd (cons_ne_nil xs z [] e)
      | inr e ↦ e ∙ first_or-append null xs (z ∷ [])
    ] in
    let last : it.end ≡ z = elim is.ends [
      | inl e ↦ absurd (cons_ne_nil xs z [] e)
      | inr e ↦ e ∙ last_or-append null xs (z ∷ [])
    ] in
    let (front, at) = Seg-split m is.before xs (z ∷ []) is.after is.chain in
    rw
      (
        counts it.len (length xs) (omega (arith, is.counted, length-append xs (z ∷ []))),
        last,
        prev_ptr_lem m at.0,
      )
      (
        refl,
        record {
          before = is.before;
          after = z;
          chain = front;
          counted = omega (arith, is.counted, length-append xs (z ∷ []));
          starts = rw first (first_cases z xs);
          ends = rw at.1 (last_cases is.before xs);
        },
        refl,
      )
