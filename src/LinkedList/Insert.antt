-- ===== src/LinkedList/Insert.antt =====
-- `insert_before` and `insert_after`: a new node is linked in beside a node of the list.
use aurora_os_old.Prelude.{
  suc, ◌+◌, ◌≡◌, ◌≢◌, inr, refl, sym, ◌∙◌, true, false, List, [], ◌∷◌, ◌++◌, arith, ◌==◌, length,
  length-append,
}
use aurora_os_old.LinkedList.{Ptr, null, Mem, LinkedList, insert_before, insert_after}
use aurora_os_old.LinkedList.Seg.{
  has, Distinct, last_or, SameOutside, IsList, has-append, has-last_or, last_or-append, Seg-append,
  Seg-relink_last, Seg-relink_first, last_or-ne_null, first_or-append,
}
use aurora_os_old.LinkedList.Write.{
  wn, wp, Returns, not_null, set_next_lem, set_prev_lem, next_ptr_lem, prev_ptr_lem, Seg-wn, Seg-wp,
  SameOutside-wn, SameOutside-wp, SameOutside-refl, self_eq,
}
use aurora_os_old.LinkedList.Cut.{
  Cut, cut, out_front, out_node, out_node', out_back, out_list, has_left, has_right, not_front,
  not_empty,
}

-- the sequence with `v` put in has no repeats
Distinct-insert :
    (v : Ptr) (xs ys : List Ptr)
    → Distinct (xs ++ ys)
    → has v (xs ++ ys) ≡ false
    → Distinct (xs ++ v ∷ ys)
Distinct-insert v [] ys d out = (out, d)
Distinct-insert v (x ∷ xs) ys d out = (
  ground (arith, has-append x xs ys, has-append x xs (v ∷ ys)),
  Distinct-insert v xs ys d.1 (ground arith),
)

Distinct-after :
    (v : Ptr) (xs : List Ptr) (x : Ptr) (ys : List Ptr)
    → Distinct (xs ++ x ∷ ys)
    → has v (xs ++ x ∷ ys) ≡ false
    → Distinct (xs ++ x ∷ v ∷ ys)
Distinct-after v [] x ys d out = (ground arith, (ground arith, d.1))
Distinct-after v (z ∷ xs) x ys d out = (
  ground (arith, has-append z xs (x ∷ ys), has-append z xs (x ∷ v ∷ ys)),
  Distinct-after v xs x ys d.1 (ground arith),
)

head_ne : (x y : Ptr) (ys : List Ptr) → has x (y ∷ ys) ≡ false → (x == y) ≡ false
head_ne x y ys h = ground arith

in_tail : (p v : Ptr) (xs : List Ptr) → has p xs ≡ true → has p (v ∷ xs) ≡ true
in_tail p v xs h = ground arith

module _ (m : Mem) (l : LinkedList) (v : Ptr) (h : v ≢ null) (x : Ptr) (ys : List Ptr) where
  insert_before-Cut :
      (xs : List Ptr)
      → Cut m l xs x ys
      → Distinct (xs ++ x ∷ ys)
      → has v (xs ++ x ∷ ys) ≡ false
      → Returns
          (λ l' m'. IsList m' l' (xs ++ v ∷ x ∷ ys) × SameOutside (v ∷ (xs ++ x ∷ ys)) m m')
          (insert_before l v x m)
  unfolding insert_before
  insert_before-Cut [] c d out =
      let m1 = wp m v null in
      let m2 = wp m1 x v in
      let same1 =
        SameOutside-wp (v ∷ x ∷ ys) v null (ground arith) (SameOutside-refl (v ∷ x ∷ ys) m) in
      let same2 = SameOutside-wp (v ∷ x ∷ ys) x v (ground arith) same1 in
      rw
        (
          not_empty l.len (0 + length ys) c.counted,
          prev_ptr_lem m c.ne,
          c.prev,
          set_prev_lem m h null,
          set_prev_lem m1 c.ne v,
          set_next_lem m2 h x,
        )
        (
          record {
            chain = (
              h,
              rw (out_node v c out, self_eq v) refl,
              rw (self_eq v) refl,
              Seg-wn m2 v x v null (x ∷ ys) out (
                  Seg-relink_first m1 null v x ys null d
                    (Seg-wp m v null null null (x ∷ ys) out (c.ne, c.prev, c.next, c.back))),
            );
            distinct = (out, d);
            counted = omega (arith, c.counted);
            starts = inr refl;
            ends = inr c.ends;
          },
          SameOutside-wn (v ∷ x ∷ ys) v x (ground arith) same2,
        )
  insert_before-Cut (z ∷ zs) c d out =
      let xs = z ∷ zs in
      let last = last_or z zs in
      let ne = last_or-ne_null m null z zs x c.front in
      let m1 = wp m v last in
      let m2 = wn m1 last v in
      let m3 = wp m2 x v in
      let all = v ∷ z ∷ (zs ++ x ∷ ys) in
      let last_in = has_left last (z ∷ zs) (x ∷ ys) (has-last_or z zs) in
      let x_in = has_right x (z ∷ zs) (x ∷ ys) (ground arith) in
      let same1 = SameOutside-wp all v last (ground arith) (SameOutside-refl all m) in
      let same2 = SameOutside-wn all last v (ground arith) same1 in
      let same3 = SameOutside-wp all x v (ground arith) same2 in
      rw
        (
          not_empty l.len (suc (length zs) + length ys) c.counted,
          prev_ptr_lem m c.ne,
          c.prev,
          not_null last ne,
          set_prev_lem m h last,
          set_next_lem m1 ne v,
          set_prev_lem m2 c.ne v,
          set_next_lem m3 h x,
        )
        (
          record {
            chain =
                Seg-append (wn m3 v x) null (z ∷ zs) (v ∷ x ∷ ys) null
                  (Seg-wn m3 v x null v (z ∷ zs) (out_front v c out) (
                    Seg-wp m2 x v null v (z ∷ zs) c.not_before (
                      Seg-relink_last m1 null z zs x v c.front_distinct
                        (Seg-wp m v last null x (z ∷ zs) (out_front v c out) c.front))))
                  (
                    h,
                    rw (out_node v c out, self_eq v) refl,
                    rw (self_eq v) refl,
                    Seg-wn m3 v x v null (x ∷ ys) (out_list v c out) (
                        Seg-relink_first m2 last v x ys null (c.not_after, c.back_distinct)
                          (Seg-wn m1 last v last null (x ∷ ys)
                            (c.apart_node last (has-last_or z zs))
                            (Seg-wp m v last last null (x ∷ ys) (out_list v c out)
                              (c.ne, c.prev, c.next, c.back)))),
                  );
            distinct = Distinct-insert v (z ∷ zs) (x ∷ ys) d out;
            counted = omega (arith, c.counted, length-append zs (v ∷ x ∷ ys));
            starts = inr c.starts;
            ends = inr (c.ends ∙ sym (last_or-append z zs (v ∷ x ∷ ys)));
          },
          SameOutside-wn all v x (ground arith) same3,
        )

  -- `insert_before` a node of the list of a node that is not null and not in the list puts it just
  -- before that node, and writes no links but those of these nodes.
  pub insert_before-append :
      (xs : List Ptr)
      → IsList m l (xs ++ x ∷ ys)
      → has v (xs ++ x ∷ ys) ≡ false
      → Returns
          (λ l' m'. IsList m' l' (xs ++ v ∷ x ∷ ys) × SameOutside (v ∷ (xs ++ x ∷ ys)) m m')
          (insert_before l v x m)
  insert_before-append xs is = insert_before-Cut xs (cut m l xs x ys is) is.distinct

module _ (m : Mem) (l : LinkedList) (v : Ptr) (h : v ≢ null) (xs : List Ptr) (x : Ptr) where
  insert_after-Cut :
      (ys : List Ptr)
      → Cut m l xs x ys
      → Distinct (xs ++ x ∷ ys)
      → has v (xs ++ x ∷ ys) ≡ false
      → Returns
          (λ l' m'. IsList m' l' (xs ++ x ∷ v ∷ ys) × SameOutside (v ∷ (xs ++ x ∷ ys)) m m')
          (insert_after l v x m)
  unfolding insert_after
  insert_after-Cut [] c d out =
      let m1 = wn m v null in
      let m2 = wn m1 x v in
      let all = v ∷ (xs ++ x ∷ []) in
      let x_in = in_tail x v (xs ++ x ∷ []) (has_right x xs (x ∷ []) (ground arith)) in
      let same1 = SameOutside-wn all v null (ground arith) (SameOutside-refl all m) in
      let same2 = SameOutside-wn all x v x_in same1 in
      rw
        (
          not_empty l.len (length xs + 0) c.counted,
          next_ptr_lem m c.ne,
          c.next,
          set_next_lem m h null,
          set_next_lem m1 c.ne v,
          set_prev_lem m2 h x,
        )
        (
          record {
            chain =
                Seg-append (wp m2 v x) null xs (x ∷ v ∷ []) null
                  (Seg-wp m2 v x null x xs (out_front v c out) (
                    Seg-wn m1 x v null x xs c.not_before
                      (Seg-wn m v null null x xs (out_front v c out) c.front)))
                  (
                    c.ne,
                    rw (out_node' v c out) c.prev,
                    rw (self_eq x) refl,
                    (h, rw (self_eq v) refl, rw (out_node v c out, self_eq v) refl, tt),
                  );
            distinct = Distinct-after v xs x [] d out;
            counted = omega (arith, c.counted, length-append xs (x ∷ v ∷ []));
            starts = inr (c.starts ∙ sym (first_or-append null xs (x ∷ v ∷ [])));
            ends = inr (sym (last_or-append null xs (x ∷ v ∷ [])));
          },
          SameOutside-wp all v x (ground arith) same2,
        )
  insert_after-Cut (y ∷ ys) c d out =
      let m1 = wn m v y in
      let m2 = wp m1 y v in
      let m3 = wn m2 x v in
      let all = v ∷ (xs ++ x ∷ y ∷ ys) in
      let x_in = in_tail x v (xs ++ x ∷ y ∷ ys) (has_right x xs (x ∷ y ∷ ys) (ground arith)) in
      let y_in = in_tail y v (xs ++ x ∷ y ∷ ys) (has_right y xs (x ∷ y ∷ ys) (ground arith)) in
      let same1 = SameOutside-wn all v y (ground arith) (SameOutside-refl all m) in
      let same2 = SameOutside-wp all y v y_in same1 in
      let same3 = SameOutside-wn all x v x_in same2 in
      rw
        (
          not_empty l.len (length xs + suc (length ys)) c.counted,
          next_ptr_lem m c.ne,
          c.next,
          not_null y c.back.0,
          set_next_lem m h y,
          set_prev_lem m1 c.back.0 v,
          set_next_lem m2 c.ne v,
          set_prev_lem m3 h x,
        )
        (
          record {
            chain =
                Seg-append (wp m3 v x) null xs (x ∷ v ∷ y ∷ ys) null
                  (Seg-wp m3 v x null x xs (out_front v c out) (
                    Seg-wn m2 x v null x xs c.not_before (
                      Seg-wp m1 y v null x xs (not_front y xs (y ∷ ys) c.apart (ground arith))
                        (Seg-wn m v y null x xs (out_front v c out) c.front))))
                  (
                    c.ne,
                    rw (out_node' v c out, (let o = c.not_after in head_ne x y ys o)) c.prev,
                    rw (self_eq x) refl,
                    (
                      h,
                      rw (self_eq v) refl,
                      rw (out_node v c out, self_eq v) refl,
                      Seg-wp m3 v x v null (y ∷ ys) (out_back v c out) (
                          Seg-wn m2 x v v null (y ∷ ys) c.not_after (
                            Seg-relink_first m1 x v y ys null c.back_distinct
                              (Seg-wn m v y x null (y ∷ ys) (out_back v c out) c.back))),
                    ),
                  );
            distinct = Distinct-after v xs x (y ∷ ys) d out;
            counted = omega (arith, c.counted, length-append xs (x ∷ v ∷ y ∷ ys));
            starts = inr (c.starts ∙ sym (first_or-append null xs (x ∷ v ∷ y ∷ ys)));
            ends = inr (c.ends ∙ sym (last_or-append null xs (x ∷ v ∷ y ∷ ys)));
          },
          SameOutside-wp all v x (ground arith) same3,
        )

  -- `insert_after` a node of the list of a node that is not null and not in the list puts it just
  -- after that node, and writes no links but those of these nodes.
  pub insert_after-append :
      (ys : List Ptr)
      → IsList m l (xs ++ x ∷ ys)
      → has v (xs ++ x ∷ ys) ≡ false
      → Returns
          (λ l' m'. IsList m' l' (xs ++ x ∷ v ∷ ys) × SameOutside (v ∷ (xs ++ x ∷ ys)) m m')
          (insert_after l v x m)
  insert_after-append ys is = insert_after-Cut ys (cut m l xs x ys is) is.distinct
