-- ===== src/LinkedList/Ends.antt =====
-- `push`, `push_front`, `pop` and `pop_front` of the linked list, on the represented sequence.
use aurora_os_old.Prelude.{
  ℕ, suc, ◌≡◌, ◌≢◌, inl, inr, refl, sym, ◌∙◌, true, false, some, List, [], ◌∷◌, ◌++◌, arith, length,
  length-append, ltb,
}
use aurora_os_old.LinkedList.{Ptr, null, Mem, LinkedList, push, push_front, pop, pop_front}
use aurora_os_old.LinkedList.Seg.{
  has, last_or, Seg, SameOutside, IsList, has-append, has-last_or, last_or-append, Distinct-append,
  Distinct-split, ne_of_has, Seg-append, Seg-split, Seg-relink_last, Seg-relink_first,
  last_or-ne_null,
}
use aurora_os_old.LinkedList.Write.{
  wn, wp, Returns, not_null, set_next_lem, set_prev_lem, next_ptr_lem, prev_ptr_lem, Seg-wn, Seg-wp,
  SameOutside-wn, SameOutside-wp, SameOutside-refl, self_eq, end-cons, start-cons, len-cons,
}

not_mem_one :
    (p v : Ptr) (xs : List Ptr) → has v xs ≡ false → has p xs ≡ true → has p (v ∷ []) ≡ false
not_mem_one p v xs out mem = ground (arith, ne_of_has v p xs out mem)

has_front : (p : Ptr) (xs ys : List Ptr) → has p xs ≡ true → has p (xs ++ ys) ≡ true
has_front p xs ys h = ground (arith, has-append p xs ys)

many : (n k : ℕ) → n ≡ suc (suc k) → ltb 1 n ≡ true
many n k e = ground arith

-- a chain of one node
Seg-one : (m : Mem) (b v a : Ptr) → v ≢ null → m.prev v ≡ b → m.next v ≡ a → Seg m b (v ∷ []) a
Seg-one m b v a h p n = (h, p, n, tt)

module _ (m : Mem) (l : LinkedList) (v : Ptr) (h : v ≢ null) where
  -- `push` of a node that is not null and not in the list onto the list of `xs` returns the list
  -- with the node at its end, and writes no links but those of these nodes.
  pub push-append :
      (xs : List Ptr)
      → IsList m l xs
      → has v xs ≡ false
      → Returns (λ l' m'. IsList m' l' (xs ++ v ∷ []) × SameOutside (v ∷ xs) m m') (push l v m)
  unfolding push
  push-append [] is out =
      let c = is.counted in
      rw (c, set_prev_lem m h null, set_next_lem (wp m v null) h null)
        (
          record {
            chain = (h, rw (self_eq v) refl, rw (self_eq v) refl, tt);
            distinct = (refl, tt);
            counted = refl;
            starts = inr refl;
            ends = inr refl;
          },
          SameOutside-wn (v ∷ []) v null (ground arith)
              (SameOutside-wp (v ∷ []) v null (ground arith) (SameOutside-refl (v ∷ []) m)),
        )
  push-append (x ∷ xs) is out =
      let e = end-cons is in
      let last = last_or x xs in
      rw
        (
          len-cons is,
          e,
          set_next_lem m (last_or-ne_null m null x xs null is.chain) v,
          set_prev_lem (wn m last v) h last,
          set_next_lem (wp (wn m last v) v last) h null,
        )
        (
          record {
            chain =
                Seg-append (wn (wp (wn m last v) v last) v null) null (x ∷ xs) (v ∷ []) null
                  (Seg-wn (wp (wn m last v) v last) v null null v (x ∷ xs) out (
                    Seg-wp (wn m last v) v last null v (x ∷ xs) out
                      (Seg-relink_last m null x xs null v is.distinct is.chain)))
                  (h, rw (self_eq v) refl, rw (self_eq v) refl, tt);
            distinct =
                Distinct-append (x ∷ xs) (v ∷ []) is.distinct (refl, tt)
                  (λ p mem. not_mem_one p v (x ∷ xs) out mem);
            counted = omega (arith, is.counted, length-append xs (v ∷ []));
            starts = inr (start-cons is);
            ends = inr (sym (last_or-append x xs (v ∷ [])));
          },
          SameOutside-wn (v ∷ x ∷ xs) v null (ground arith) (
              SameOutside-wp (v ∷ x ∷ xs) v last (ground arith) (
                SameOutside-wn (v ∷ x ∷ xs) last v (ground (arith, has-last_or x xs))
                  (SameOutside-refl (v ∷ x ∷ xs) m))),
        )

  -- `push_front` of a node that is not null and not in the list onto the list of `xs` returns the
  -- list with the node first, and writes no links but those of these nodes.
  pub push_front-cons :
      (xs : List Ptr)
      → IsList m l xs
      → has v xs ≡ false
      → Returns (λ l' m'. IsList m' l' (v ∷ xs) × SameOutside (v ∷ xs) m m') (push_front l v m)
  unfolding push_front
  push_front-cons [] is out =
      let c = is.counted in
      rw (c, set_prev_lem m h null, set_next_lem (wp m v null) h null)
        (
          record {
            chain = (h, rw (self_eq v) refl, rw (self_eq v) refl, tt);
            distinct = (refl, tt);
            counted = refl;
            starts = inr refl;
            ends = inr refl;
          },
          SameOutside-wn (v ∷ []) v null (ground arith)
              (SameOutside-wp (v ∷ []) v null (ground arith) (SameOutside-refl (v ∷ []) m)),
        )
  push_front-cons (x ∷ xs) is out =
      rw
        (
          len-cons is,
          start-cons is,
          set_prev_lem m is.chain.0 v,
          set_next_lem (wp m x v) h x,
          set_prev_lem (wn (wp m x v) v x) h null,
        )
        (
          record {
            chain = (
              h,
              rw (self_eq v) refl,
              rw (self_eq v) refl,
              Seg-wp (wn (wp m x v) v x) v null v null (x ∷ xs) out (
                  Seg-wn (wp m x v) v x v null (x ∷ xs) out
                    (Seg-relink_first m null v x xs null is.distinct is.chain)),
            );
            distinct = (out, is.distinct);
            counted = omega (arith, is.counted);
            starts = inr refl;
            ends = inr (end-cons is);
          },
          SameOutside-wp (v ∷ x ∷ xs) v null (ground arith) (
              SameOutside-wn (v ∷ x ∷ xs) v x (ground arith)
                (SameOutside-wp (v ∷ x ∷ xs) x v (ground arith) (SameOutside-refl (v ∷ x ∷ xs) m))),
        )

-- `pop` of a list that is not empty returns its last node and the list of the others, and writes
-- no links but those of these nodes.
pub pop-append :
    (m : Mem) (l : LinkedList) (xs : List Ptr) (z : Ptr)
    → IsList m l (xs ++ z ∷ [])
    → Returns
        (λ (out, l') m'. (out ≡ some z) × IsList m' l' xs × SameOutside (xs ++ z ∷ []) m m')
        (pop l m)
unfolding pop
pop-append m l [] z is =
    rw (is.counted, end-cons is, not_null z is.chain.0)
      (
        refl,
        record { chain = tt; distinct = tt; counted = refl; starts = inl refl; ends = inl refl },
        SameOutside-refl (z ∷ []) m,
      )
pop-append m l (y ∷ ys) z is =
    let long : ltb 1 l.len ≡ true =
      many l.len (length ys) (omega (arith, is.counted, length-append ys (z ∷ []))) in
    let e : l.end ≡ z = end-cons is ∙ last_or-append y ys (z ∷ []) in
    let (front, back) = Seg-split m null (y ∷ ys) (z ∷ []) null is.chain in
    let (dx, dz, apart) = Distinct-split (y ∷ ys) (z ∷ []) is.distinct in
    let last = last_or y ys in
    rw
      (
        len-cons is,
        long,
        e,
        prev_ptr_lem m back.0,
        back.1,
        set_next_lem m (last_or-ne_null m null y ys z front) null,
      )
      (
        refl,
        record {
          chain = Seg-relink_last m null y ys z null dx front;
          distinct = dx;
          counted = omega (arith, is.counted, length-append ys (z ∷ []));
          starts = inr (start-cons is);
          ends = inr refl;
        },
        SameOutside-wn (y ∷ (ys ++ z ∷ [])) last null
            (has_front last (y ∷ ys) (z ∷ []) (has-last_or y ys))
            (SameOutside-refl (y ∷ (ys ++ z ∷ [])) m),
      )

-- `pop_front` of a list that is not empty returns its first node and the list of the others, and
-- writes no links but those of these nodes.
pub pop_front-cons :
    (m : Mem) (l : LinkedList) (x : Ptr) (xs : List Ptr)
    → IsList m l (x ∷ xs)
    → Returns
        (λ (out, l') m'. (out ≡ some x) × IsList m' l' xs × SameOutside (x ∷ xs) m m')
        (pop_front l m)
unfolding pop_front
pop_front-cons m l x [] is =
    rw (is.counted, start-cons is, not_null x is.chain.0)
      (
        refl,
        record { chain = tt; distinct = tt; counted = refl; starts = inl refl; ends = inl refl },
        SameOutside-refl (x ∷ []) m,
      )
pop_front-cons m l x (y ∷ ys) is =
    let long : ltb 1 l.len ≡ true = many l.len (length ys) (omega (arith, is.counted)) in
    rw
      (
        len-cons is,
        long,
        start-cons is,
        next_ptr_lem m is.chain.0,
        is.chain.2,
        set_prev_lem m is.chain.3.0 null,
      )
      (
        refl,
        record {
          chain = Seg-relink_first m x null y ys null is.distinct.1 is.chain.3;
          distinct = is.distinct.1;
          counted = omega (arith, is.counted);
          starts = inr refl;
          ends = inr (end-cons is);
        },
        SameOutside-wp (x ∷ y ∷ ys) y null (ground arith) (SameOutside-refl (x ∷ y ∷ ys) m),
      )
