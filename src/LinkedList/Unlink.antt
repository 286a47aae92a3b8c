-- ===== src/LinkedList/Unlink.antt =====
-- `remove_node`: the neighbours of a node are linked to each other.
use mathlib.Core.List.{append-nil}
use aurora_os_old.Prelude.{inl, inr, refl, sym, ◌∙◌, List, [], ◌∷◌, ◌++◌, arith, length-append}
use aurora_os_old.LinkedList.{Ptr, null, Mem, LinkedList, remove_node}
use aurora_os_old.LinkedList.Seg.{
  last_or, SameOutside, IsList, has-last_or, last_or-append, Seg-append, Seg-relink_last,
  Seg-relink_first, last_or-ne_null,
}
use aurora_os_old.LinkedList.Write.{
  wn, wp, Returns, not_null, set_next_lem, set_prev_lem, next_ptr_lem, prev_ptr_lem, Seg-wn, Seg-wp,
  SameOutside-wn, SameOutside-wp, SameOutside-refl,
}
use aurora_os_old.LinkedList.Cut.{Cut, cut, Distinct-join, has_left, has_right, not_front}

module _ (m : Mem) (l : LinkedList) where
  remove-Cut :
      (xs : List Ptr) (x : Ptr) (ys : List Ptr)
      → Cut m l xs x ys
      → Returns
          (λ l' m'. IsList m' l' (xs ++ ys) × SameOutside (xs ++ x ∷ ys) m m')
          (remove_node l x m)
  unfolding remove_node
  remove-Cut [] x [] c =
      rw (prev_ptr_lem m c.ne, next_ptr_lem m c.ne, c.prev, c.next)
        (
          record {
            chain = tt;
            distinct = tt;
            counted = omega (arith, c.counted);
            starts = inl refl;
            ends = inl refl;
          },
          SameOutside-refl (x ∷ []) m,
        )
  remove-Cut [] x (y ∷ ys) c =
      rw
        (
          prev_ptr_lem m c.ne,
          next_ptr_lem m c.ne,
          c.prev,
          c.next,
          not_null y c.back.0,
          set_prev_lem m c.back.0 null,
        )
        (
          record {
            chain = Seg-relink_first m x null y ys null c.back_distinct c.back;
            distinct = c.back_distinct;
            counted = omega (arith, c.counted);
            starts = inr refl;
            ends = inr c.ends;
          },
          SameOutside-wp (x ∷ y ∷ ys) y null (ground arith) (SameOutside-refl (x ∷ y ∷ ys) m),
        )
  remove-Cut (z ∷ zs) x [] c =
      let last = last_or z zs in
      let ne = last_or-ne_null m null z zs x c.front in
      rw
        (
          prev_ptr_lem m c.ne,
          next_ptr_lem m c.ne,
          c.prev,
          c.next,
          not_null last ne,
          set_next_lem m ne null,
        )
        (
          record {
            chain = rw append-nil (Seg-relink_last m null z zs x null c.front_distinct c.front);
            distinct = Distinct-join c;
            counted = omega (arith, c.counted, length-append zs []);
            starts = inr c.starts;
            ends = inr (rw append-nil refl);
          },
          SameOutside-wn (z ∷ (zs ++ x ∷ [])) last null
              (has_left last (z ∷ zs) (x ∷ []) (has-last_or z zs))
              (SameOutside-refl (z ∷ (zs ++ x ∷ [])) m),
        )
  remove-Cut (z ∷ zs) x (y ∷ ys) c =
      let last = last_or z zs in
      let ne = last_or-ne_null m null z zs x c.front in
      let all = z ∷ (zs ++ x ∷ y ∷ ys) in
      let mem = has_left last (z ∷ zs) (x ∷ y ∷ ys) (has-last_or z zs) in
      let last_out = c.apart last (has-last_or z zs) in
      rw
        (
          prev_ptr_lem m c.ne,
          next_ptr_lem m c.ne,
          c.prev,
          c.next,
          not_null last ne,
          not_null y c.back.0,
          set_next_lem m ne y,
          set_prev_lem (wn m last y) c.back.0 last,
        )
        (
          record {
            chain =
                Seg-append (wp (wn m last y) y last) null (z ∷ zs) (y ∷ ys) null
                  (Seg-wp (wn m last y) y last null y (z ∷ zs)
                    (not_front y (z ∷ zs) (y ∷ ys) c.apart (ground arith))
                    (Seg-relink_last m null z zs x y c.front_distinct c.front))
                  (Seg-relink_first (wn m last y) x last y ys null c.back_distinct
                    (Seg-wn m last y x null (y ∷ ys) last_out c.back));
            distinct = Distinct-join c;
            counted = omega (arith, c.counted, length-append zs (y ∷ ys));
            starts = inr c.starts;
            ends = inr (c.ends ∙ sym (last_or-append z zs (y ∷ ys)));
          },
          SameOutside-wp all y last (has_right y (z ∷ zs) (x ∷ y ∷ ys) (ground arith))
              (SameOutside-wn all last y mem (SameOutside-refl all m)),
        )

  -- `remove_node` of a node of the list returns the list of the other nodes in their order, and
  -- writes no links but those of these nodes.
  pub remove_node-append :
      (xs : List Ptr) (x : Ptr) (ys : List Ptr)
      → IsList m l (xs ++ x ∷ ys)
      → Returns
          (λ l' m'. IsList m' l' (xs ++ ys) × SameOutside (xs ++ x ∷ ys) m m')
          (remove_node l x m)
  remove_node-append xs x ys is = remove-Cut xs x ys (cut m l xs x ys is)
