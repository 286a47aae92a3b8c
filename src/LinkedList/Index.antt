-- ===== src/LinkedList/Index.antt =====
-- `insert` and `remove` at a position, on the represented sequence.
use mathlib.Core.List.{append-nil}
use aurora_os_old.Prelude.{
  ℕ, suc, ◌-◌, ◌≡◌, ◌≢◌, ◌<◌, ◌≤◌, refl, true, false, Option, none, some, List, [], ◌∷◌, ◌++◌,
  arith, ◌==◌, length, length-append, ltb,
}
use aurora_os_old.LinkedList.{
  Ptr, null, Mem, LinkedList, M, insert, remove, push, push_front, pop, pop_front, insert_before,
  remove_node, pure, and_then,
}
use aurora_os_old.LinkedList.Seg.{has, IsList, SameOutside}
use aurora_os_old.LinkedList.Write.{Returns}
use aurora_os_old.LinkedList.Ends.{push-append, push_front-cons, pop-append, pop_front-cons}
use aurora_os_old.LinkedList.Unlink.{remove_node-append}
use aurora_os_old.LinkedList.Insert.{insert_before-append}
use aurora_os_old.LinkedList.Walk.{get_node-at, outside, below}

-- The rule for a run followed by another.
Returns-bind :
    {A B : Type 0} (P : A → Mem → Type 0) (Q : B → Mem → Type 0) (r : Option (A × Mem))
    (k : A → M B)
    → Returns P r
    → ((a : A) (m : Mem) → P a m → Returns Q (k a m))
    → Returns Q (and_then r k)
Returns-bind P Q none k h next = absurd h
Returns-bind P Q (some (a, m)) k h next = next a m h

weaken :
    {A : Type 0} (P Q : A → Mem → Type 0) (r : Option (A × Mem))
    → Returns P r
    → ((a : A) (m : Mem) → P a m → Q a m)
    → Returns Q r
weaken P Q none h next = h
weaken P Q (some (a, m)) h next = next a m h

same : (i j : ℕ) → j ≡ i → (i == j) ≡ true
same i j h = ground arith

inside : (n i : ℕ) → i ≤ n → ltb n i ≡ false
inside n i h = ground arith

past : (n i : ℕ) → n < i → ltb n i ≡ true
past n i h = ground arith

differs : (i j : ℕ) → i ≢ j → (i == j) ≡ false
differs i j h = ground arith

later : (us : List Ptr) → (suc (length us) == 0) ≡ false
later us = ground arith

module _ (m : Mem) (l : LinkedList) (v : Ptr) where
  -- Past the end `insert` does nothing.
  pub insert_past :
      (xs : List Ptr) (i : ℕ) → IsList m l xs → length xs < i → insert l i v m ≡ some ((none, l), m)
  unfolding insert
  insert_past xs i is h = rw (past l.len i (omega (arith, is.counted))) refl

  -- `insert` of a node that is not null and not in the list at a position up to its length returns
  -- the node, and the list with the node at that position.
  pub insert-at :
      (us vs : List Ptr)
      → IsList m l (us ++ vs)
      → v ≢ null
      → has v (us ++ vs) ≡ false
      → Returns
          (λ (out, l') m'. (out ≡ some v) × IsList m' l' (us ++ v ∷ vs))
          (insert l (length us) v m)
  unfolding insert
  insert-at [] vs is h out = rw (inside l.len 0 (omega arith)) (
      Returns-bind (λ l' m'. IsList m' l' (v ∷ vs) × SameOutside (v ∷ vs) m m')
        (λ (o, l') m'. (o ≡ some v) × IsList m' l' (v ∷ vs)) (push_front l v m)
        (λ l'. pure (some v, l')) (push_front-cons m l v h vs is out) (λ l' m' p. (refl, p.0)))
  insert-at (u ∷ us) [] is h out =
      let is' : IsList m l (u ∷ us) = rw append-nil at is in
      let here : (suc (length us) == l.len) ≡ true = same (suc (length us)) l.len is'.counted in
      rw (inside l.len (suc (length us)) (omega (arith, is'.counted)), later us, here)
        (Returns-bind (λ l' m'. IsList m' l' (u ∷ us ++ v ∷ []) × SameOutside (v ∷ u ∷ us) m m')
          (λ (o, l') m'. (o ≡ some v) × IsList m' l' (u ∷ us ++ v ∷ [])) (push l v m)
          (λ l'. pure (some v, l')) (push-append m l v h (u ∷ us) is' (rw append-nil at out))
          (λ l' m' p. (refl, p.0)))
  insert-at (u ∷ us) (x ∷ vs) is h out =
      let n = length-append us (x ∷ vs) in
      let before : (suc (length us) == l.len) ≡ false =
        differs (suc (length us)) l.len (omega (arith, is.counted, n)) in
      rw
        (
          inside l.len (suc (length us)) (omega (arith, is.counted, n)),
          later us,
          before,
          get_node-at m l (u ∷ us) x vs is,
        )
        (Returns-bind
          (λ l' m'. IsList m' l' (u ∷ us ++ v ∷ x ∷ vs) × SameOutside (v ∷ (u ∷ us ++ x ∷ vs)) m m')
          (λ (o, l') m'. (o ≡ some v) × IsList m' l' (u ∷ us ++ v ∷ x ∷ vs)) (insert_before l v x m)
          (λ l'. pure (some v, l')) (insert_before-append m l v h x vs (u ∷ us) is out)
          (λ l' m' p. (refl, p.0)))

module _ (m : Mem) (l : LinkedList) where
  -- Past the end `remove` does nothing.
  pub remove_past :
      (xs : List Ptr) (i : ℕ) → IsList m l xs → length xs ≤ i → remove l i m ≡ some ((none, l), m)
  unfolding remove
  remove_past xs i is h = rw (outside l.len i (length xs) is.counted h) refl

  -- `remove` at a position below the length returns the node there and the list of the others in
  -- their order.
  pub remove-at :
      (us : List Ptr) (x : Ptr) (vs : List Ptr)
      → IsList m l (us ++ x ∷ vs)
      → Returns (λ (out, l') m'. (out ≡ some x) × IsList m' l' (us ++ vs)) (remove l (length us) m)
  unfolding remove
  remove-at [] x vs is = rw (below l.len 0 0 (length vs) refl (omega (arith, is.counted))) (
      weaken (λ (o, l') m'. (o ≡ some x) × IsList m' l' vs × SameOutside (x ∷ vs) m m')
        (λ (o, l') m'. (o ≡ some x) × IsList m' l' vs) (pop_front l m) (pop_front-cons m l x vs is)
        (λ a m' p. (p.0, p.1)))
  remove-at (u ∷ us) x [] is =
      let n = length-append us (x ∷ []) in
      let here : (suc (length us) == l.len - 1) ≡ true =
        same (suc (length us)) (l.len - 1) (omega (arith, is.counted, n)) in
      rw
        (
          below l.len (suc (length us)) (suc (length us)) 0 refl (omega (arith, is.counted, n)),
          later us,
          here,
          append-nil,
        )
        (weaken
          (λ (o, l') m'. (o ≡ some x) × IsList m' l' (u ∷ us) × SameOutside (u ∷ us ++ x ∷ []) m m')
          (λ (o, l') m'. (o ≡ some x) × IsList m' l' (u ∷ us)) (pop l m)
          (pop-append m l (u ∷ us) x is) (λ a m' p. (p.0, p.1)))
  remove-at (u ∷ us) x (y ∷ vs) is =
      let n = length-append us (x ∷ y ∷ vs) in
      let middle : (suc (length us) == l.len - 1) ≡ false =
        differs (suc (length us)) (l.len - 1) (omega (arith, is.counted, n)) in
      rw
        (
          below l.len (suc (length us)) (suc (length us)) (suc (length vs)) refl
              (omega (arith, is.counted, n)),
          later us,
          middle,
          get_node-at m l (u ∷ us) x (y ∷ vs) is,
        )
        (Returns-bind
          (λ l' m'. IsList m' l' (u ∷ us ++ y ∷ vs) × SameOutside (u ∷ us ++ x ∷ y ∷ vs) m m')
          (λ (o, l') m'. (o ≡ some x) × IsList m' l' (u ∷ us ++ y ∷ vs)) (remove_node l x m)
          (λ l'. pure (some x, l')) (remove_node-append m l (u ∷ us) x (y ∷ vs) is)
          (λ l' m' p. (refl, p.0)))
