-- ===== src/LinkedList/Join.antt =====
-- `append` of the linked list: what it links, and the length that it leaves behind.
use mathlib.Core.List.{append-nil}
use aurora_os_old.Prelude.{
  ℕ, ◌≡◌, ◌⊎◌, inl, inr, refl, true, false, List, [], ◌∷◌, ◌++◌, arith, ◌==◌, length,
}
use aurora_os_old.LinkedList.{Ptr, null, Mem, LinkedList, append, new}
use aurora_os_old.LinkedList.Seg.{
  has, last_or, Seg, IsList, has-last_or, Seg-append, Seg-relink_last, Seg-relink_first,
  last_or-ne_null,
}
use aurora_os_old.LinkedList.Write.{
  wn, wp, Returns, set_next_lem, set_prev_lem, Seg-wn, Seg-wp, len-cons, start-cons, end-cons,
}
use aurora_os_old.LinkedList.Cut.{not_front}

pub new-IsList : (m : Mem) → IsList m new []
unfolding new
new-IsList m = record {
  chain = tt;
  distinct = tt;
  counted = refl;
  starts = inl refl;
  ends = inl refl;
}

is_empty : (n : ℕ) → n ≡ 0 → (n == 0) ≡ true
is_empty n e = ground arith

module _ (m : Mem) (l other : LinkedList) where
  -- `append` of two lists one of which is empty returns the list of all their nodes and an empty
  -- list.
  pub append-empty :
      (xs ys : List Ptr)
      → (xs ≡ []) ⊎ (ys ≡ [])
      → IsList m l xs
      → IsList m other ys
      → Returns
          (λ (l', other') m'. IsList m' l' (xs ++ ys) × IsList m' other' [])
          (append l other m)
  unfolding append
  append-empty xs [] e isl iso = rw (is_empty other.len iso.counted, append-nil) (isl, iso)
  append-empty [] (y ∷ ys) e isl iso =
      rw (len-cons iso, is_empty l.len isl.counted)
        (
          record {
            chain = iso.chain;
            distinct = iso.distinct;
            counted = iso.counted;
            starts = iso.starts;
            ends = iso.ends;
          },
          new-IsList m,
        )
  append-empty (x ∷ xs) (y ∷ ys) e isl iso = elim e [ inl no_ ↦ cc | inr no_ ↦ cc ]

  -- `append` of two nonempty lists that share no node links all their nodes into one chain, with
  -- both end pointers right and the other list emptied, but the recorded length stays that of the
  -- first list.
  pub append-links :
      (x : Ptr) (xs : List Ptr) (y : Ptr) (ys : List Ptr)
      → IsList m l (x ∷ xs)
      → IsList m other (y ∷ ys)
      → ((p : Ptr) → has p (x ∷ xs) ≡ true → has p (y ∷ ys) ≡ false)
      → Returns
          (λ (l', other') m'.
            Seg m' null (x ∷ xs ++ y ∷ ys) null
            × (l'.start ≡ x)
            × (l'.end ≡ last_or y ys)
            × (l'.len ≡ length (x ∷ xs))
            × IsList m' other' [])
          (append l other m)
  unfolding append
  append-links x xs y ys isl iso apart =
      let last = last_or x xs in
      let ne = last_or-ne_null m null x xs null isl.chain in
      let m1 = wn m last y in
      let m2 = wp m1 y last in
      rw
        (
          len-cons iso,
          len-cons isl,
          end-cons isl,
          start-cons iso,
          set_next_lem m ne y,
          set_prev_lem m1 iso.chain.0 last,
        )
        (
          Seg-append m2 null (x ∷ xs) (y ∷ ys) null
              (Seg-wp m1 y last null y (x ∷ xs) (not_front y (x ∷ xs) (y ∷ ys) apart (ground arith))
                (Seg-relink_last m null x xs null y isl.distinct isl.chain))
              (Seg-relink_first m1 null last y ys null iso.distinct
                (Seg-wn m last y null null (y ∷ ys) (apart last (has-last_or x xs)) iso.chain)),
          start-cons isl,
          end-cons iso,
          isl.counted,
          new-IsList m2,
        )
