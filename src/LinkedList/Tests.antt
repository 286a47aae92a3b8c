-- ===== src/LinkedList/Tests.antt =====
-- Concrete lists of nodes at the addresses 1 to 3, and of one at 8.
use aurora_os_old.Prelude.{
  ◌≡◌, ◌≢◌, refl, true, false, some, List, [], ◌∷◌, ◌==◌, if◌then◌else◌, arith, inr,
}
use aurora_os_old.LinkedList.{
  Ptr, null, Mem, LinkedList, pop, remove_node, insert, remove, get, append,
}
use aurora_os_old.LinkedList.Seg.{IsList, Seg, SameOutside, has}
use aurora_os_old.LinkedList.Write.{Returns}
use aurora_os_old.LinkedList.Ends.{pop-append}
use aurora_os_old.LinkedList.Unlink.{remove_node-append}
use aurora_os_old.LinkedList.Walk.{get-get_elem?}
use aurora_os_old.LinkedList.Join.{append-links}
use aurora_os_old.LinkedList.Index.{insert-at, remove-at}

abbrev mem : Mem
mem = record {
  next = λ p. if p == 1 then 2 else if p == 2 then 3 else 0;
  prev = λ p. if p == 3 then 2 else if p == 2 then 1 else 0;
}

abbrev three : LinkedList
three = record { start = 1; end = 3; len = 3 }

abbrev nodes : List Ptr
nodes = 1 ∷ 2 ∷ 3 ∷ []

abbrev one : LinkedList
one = record { start = 8; end = 8; len = 1 }

three-IsList : IsList mem three nodes
three-IsList = record {
  chain = (
    (λ e. omega (arith, e)),
    refl,
    refl,
    ((λ e. omega (arith, e)), refl, refl, ((λ e. omega (arith, e)), refl, refl, tt)),
  );
  distinct = (refl, (refl, (refl, tt)));
  counted = refl;
  starts = inr refl;
  ends = inr refl;
}

one-IsList : IsList mem one (8 ∷ [])
one-IsList = record {
  chain = ((λ e. omega (arith, e)), refl, refl, tt);
  distinct = (refl, tt);
  counted = refl;
  starts = inr refl;
  ends = inr refl;
}

nine : 9 ≢ null
nine e = omega (arith, e)

pop-append_example :
    Returns
      (λ (out, l') m'. (out ≡ some 3) × IsList m' l' (1 ∷ 2 ∷ []) × SameOutside nodes mem m')
      (pop three mem)
pop-append_example = pop-append mem three (1 ∷ 2 ∷ []) 3 three-IsList

remove_node-append_example :
    Returns
      (λ l' m'. IsList m' l' (1 ∷ 3 ∷ []) × SameOutside nodes mem m')
      (remove_node three 2 mem)
remove_node-append_example = remove_node-append mem three (1 ∷ []) 2 (3 ∷ []) three-IsList

get-get_elem?_example : get three 1 mem ≡ some (some 2, mem)
get-get_elem?_example = get-get_elem? mem three nodes 1 three-IsList

append-links_example :
    Returns
      (λ (l', other') m'.
        Seg m' null (1 ∷ 2 ∷ 3 ∷ 8 ∷ []) null
        × (l'.start ≡ 1)
        × (l'.end ≡ 8)
        × (l'.len ≡ 3)
        × IsList m' other' [])
      (append three one mem)
append-links_example = append-links mem three one 1 (2 ∷ 3 ∷ []) 8 [] three-IsList one-IsList apart
  where
    apart : (p : Ptr) → has p nodes ≡ true → has p (8 ∷ []) ≡ false
    apart p h = ground (arith, h)

insert-at_example :
    Returns
      (λ (out, l') m'. (out ≡ some 9) × IsList m' l' (1 ∷ 9 ∷ 2 ∷ 3 ∷ []))
      (insert three 1 9 mem)
insert-at_example = insert-at mem three 9 (1 ∷ []) (2 ∷ 3 ∷ []) three-IsList nine refl

remove-at_example :
    Returns (λ (out, l') m'. (out ≡ some 2) × IsList m' l' (1 ∷ 3 ∷ [])) (remove three 1 mem)
remove-at_example = remove-at mem three (1 ∷ []) 2 (3 ∷ []) three-IsList
