-- ===== src/LinkedList/Cut.antt =====
-- A list taken apart at one of its nodes, for the operations that are handed a node.
use aurora_os_old.Prelude.{
  ℕ, suc, ◌+◌, ◌≡◌, ◌≢◌, inl, inr, ◌∙◌, true, false, List, [], ◌∷◌, ◌++◌, arith, ◌==◌, length,
  length-append,
}
use aurora_os_old.LinkedList.{Ptr, null, Mem, LinkedList}
use aurora_os_old.LinkedList.Seg.{
  has, Distinct, first_or, last_or, Seg, IsList, has-append, first_or-append, last_or-append,
  Distinct-split, Distinct-append, Seg-split,
}

pub record Cut (m : Mem) (l : LinkedList) (xs : List Ptr) (x : Ptr) (ys : List Ptr) : Type 0 where
  pub front : Seg m null xs x
  pub ne : x ≢ null
  pub prev : m.prev x ≡ last_or null xs
  pub next : m.next x ≡ first_or null ys
  pub back : Seg m x ys null
  pub front_distinct : Distinct xs
  pub back_distinct : Distinct ys
  pub not_before : has x xs ≡ false
  pub not_after : has x ys ≡ false
  pub apart : (p : Ptr) → has p xs ≡ true → has p ys ≡ false
  pub apart_node : (p : Ptr) → has p xs ≡ true → has p (x ∷ ys) ≡ false
  pub counted : l.len ≡ suc (length xs + length ys)
  pub starts : l.start ≡ first_or x xs
  pub ends : l.end ≡ last_or x ys

not_mem_of :
    (x : Ptr) (xs ys : List Ptr)
    → ((p : Ptr) → has p xs ≡ true → has p (x ∷ ys) ≡ false)
    → has x xs ≡ false
not_mem_of x xs ys apart = ground (arith, apart x)

pub cons_ne_nil : (xs : List Ptr) (x : Ptr) (ys : List Ptr) → xs ++ x ∷ ys ≢ []
cons_ne_nil [] x ys e = cc
cons_ne_nil (z ∷ xs) x ys e = cc

pub cut :
    (m : Mem) (l : LinkedList) (xs : List Ptr) (x : Ptr) (ys : List Ptr)
    → IsList m l (xs ++ x ∷ ys)
    → Cut m l xs x ys
cut m l xs x ys is =
    let (front, at) = Seg-split m null xs (x ∷ ys) null is.chain in
    let (dx, dy, apart) = Distinct-split xs (x ∷ ys) is.distinct in
    record {
      front = front;
      ne = at.0;
      prev = at.1;
      next = at.2;
      back = at.3;
      front_distinct = dx;
      back_distinct = dy.1;
      not_before = not_mem_of x xs ys apart;
      not_after = dy.0;
      apart = λ p h. (let o = apart p h in ground arith);
      apart_node = apart;
      counted = omega (arith, is.counted, length-append xs (x ∷ ys));
      starts = elim is.starts [
        | inl e ↦ absurd (cons_ne_nil xs x ys e)
        | inr e ↦ e ∙ first_or-append null xs (x ∷ ys)
      ];
      ends = elim is.ends [
        | inl e ↦ absurd (cons_ne_nil xs x ys e)
        | inr e ↦ e ∙ last_or-append null xs (x ∷ ys)
      ];
    }

-- the parts joined again without the node
pub Distinct-join :
    {m : Mem} {l : LinkedList} {xs : List Ptr} {x : Ptr} {ys : List Ptr}
    → Cut m l xs x ys
    → Distinct (xs ++ ys)
Distinct-join {xs} {ys} c = Distinct-append xs ys c.front_distinct c.back_distinct c.apart

module _ (v : Ptr) {m : Mem} {l : LinkedList} {xs : List Ptr} {x : Ptr} {ys : List Ptr}
    (c : Cut m l xs x ys) (out : has v (xs ++ x ∷ ys) ≡ false) where
  pub out_front : has v xs ≡ false
  out_front = ground (arith, has-append v xs (x ∷ ys))

  pub out_node : (v == x) ≡ false
  out_node = ground (arith, has-append v xs (x ∷ ys))

  pub out_node' : (x == v) ≡ false
  out_node' = let e = out_node in ground arith

  pub out_back : has v ys ≡ false
  out_back = ground (arith, has-append v xs (x ∷ ys))

  pub out_list : has v (x ∷ ys) ≡ false
  out_list = ground (arith, has-append v xs (x ∷ ys))

pub has_left : (p : Ptr) (xs ys : List Ptr) → has p xs ≡ true → has p (xs ++ ys) ≡ true
has_left p xs ys h = ground (arith, has-append p xs ys)

pub has_right : (p : Ptr) (xs ys : List Ptr) → has p ys ≡ true → has p (xs ++ ys) ≡ true
has_right p xs ys h = ground (arith, has-append p xs ys)

pub not_front :
    (p : Ptr) (xs ys : List Ptr)
    → ((q : Ptr) → has q xs ≡ true → has q ys ≡ false)
    → has p ys ≡ true
    → has p xs ≡ false
not_front p xs ys apart h = ground (arith, apart p)

pub not_empty : (n k : ℕ) → n ≡ suc k → (n == 0) ≡ false
not_empty n k e = ground arith
