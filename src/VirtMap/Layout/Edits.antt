-- ===== src/VirtMap/Layout/Edits.antt =====
-- Runs of `push` and `pop_delete` on a mapped layout, and `sync_mem` at their end.
use aurora_os_old.Prelude.{
  ℕ, ◌+◌, ◌-◌, ◌≤◌, ◌<◌, ◌≡◌, refl, sym, ap, ◌∙◌, inl, inr, none, List, [], ◌∷◌, ◌++◌, length, take,
  drop, length-append, lt→ltb, le→ltb, wadd, wsub, word_mod, arith,
}
use mathlib.Core.List.{append-nil, append_assoc}
use native.Mathlib.Decide.{dec_lt}
use aurora_os_old.VirtMap.{Element, Allocation}
use aurora_os_old.VirtMap.Layout.{
  VirtLayout, push, pop, pop_delete, add_sizes, sub_sizes, dirty_slice, clean_slice, reversed,
  dealloc_all, sync_mem,
}
use aurora_os_old.VirtMap.Layout.Vec.{
  pop-empty, pop-append, pop-cases, take-append_le, take-all, take-drop, reversed-append,
}

abbrev pub total : List Element → ℕ
total [] = 0
total (e ∷ es) = e.map_size + total es

pub total-append : (xs ys : List Element) → total (xs ++ ys) ≡ total xs + total ys
total-append [] ys = omega arith
total-append (x ∷ xs) ys = omega (arith, total-append xs ys)

total-reversed : (xs : List Element) → total (reversed xs) ≡ total xs
unfolding reversed
total-reversed [] = refl
total-reversed (x ∷ xs) = omega (arith, total-append (reversed xs) (x ∷ []), total-reversed xs)

pub add_sizes_lem :
    (n : ℕ) (es : List Element) → n + total es < word_mod → add_sizes n es ≡ n + total es
unfolding add_sizes
add_sizes_lem n [] h = omega arith
add_sizes_lem n (e ∷ es) h =
    let sum : wadd n e.map_size ≡ n + e.map_size = omega arith in
    rw (sum, add_sizes_lem (n + e.map_size) es (omega arith)) (omega arith)

sub_sizes_lem :
    (n : ℕ) (es : List Element) → total es ≤ n → n < word_mod → sub_sizes n es ≡ n - total es
unfolding sub_sizes
sub_sizes_lem n [] h b = omega arith
sub_sizes_lem n (e ∷ es) h b =
    let diff : wsub n e.map_size ≡ n - e.map_size = omega arith in
    rw (diff, sub_sizes_lem (n - e.map_size) es (omega arith) (omega arith)) (omega arith)

pub data Edit : Type 0 where
  pushed : (e : Element) → Edit
  popped : Edit

abbrev pub edit : Edit → VirtLayout → VirtLayout
edit (pushed e) l = push e l
edit popped l = pop_delete l

abbrev pub edits : List Edit → VirtLayout → VirtLayout
edits [] l = l
edits (k ∷ ks) l = edits ks (edit k l)

-- Every element is mapped.
pub record IsSynced (l : VirtLayout) : Type 0 where
  pub all_clean : l.dirty_index ≡ length l.elements
  pub no_queue : l.dealloc_que ≡ []
  pub counted : l.clean_size ≡ total l.elements

-- The mapped elements, with those of the queue, are `es`.
pub record IsEdit (es : List Element) (l : VirtLayout) : Type 0 where
  pub inside : l.dirty_index ≤ length l.elements
  pub mapped : clean_slice l ++ reversed l.dealloc_que ≡ es
  pub counted : l.clean_size ≡ total es

pub synced-IsEdit : (l : VirtLayout) → IsSynced l → IsEdit l.elements l
unfolding clean_slice reversed
synced-IsEdit l s = record {
  inside = omega (arith, s.all_clean);
  mapped =
      rw (s.no_queue)
        (append-nil _ ∙ take-all l.dirty_index l.elements (omega (arith, s.all_clean)));
  counted = s.counted;
}

push-IsEdit :
    (es : List Element) (e : Element) (l : VirtLayout) → IsEdit es l → IsEdit es (push e l)
unfolding push clean_slice
push-IsEdit es e l i = record {
  inside = omega (arith, i.inside, length-append l.elements (e ∷ []));
  mapped =
      ap (λ t. t ++ reversed l.dealloc_que)
        (take-append_le l.dirty_index l.elements (e ∷ []) i.inside)
      ∙ i.mapped;
  counted = i.counted;
}

pop_delete-none : (l : VirtLayout) → l.elements ≡ [] → pop_delete l ≡ l
unfolding pop_delete
pop_delete-none l e =
    let e' : pop l.elements ≡ none = ap (λ t. pop t) e ∙ pop-empty in rw (pop_delete, e') refl

pub pop_delete-clean :
    (l : VirtLayout) (ys : List Element) (y : Element)
    → l.elements ≡ ys ++ (y ∷ [])
    → length ys < l.dirty_index
    → pop_delete l
      ≡ record l { elements = ys; dealloc_que = l.dealloc_que ++ (y ∷ []); dirty_index = length ys }
unfolding pop_delete
pop_delete-clean l ys y e h =
    let e' = ap (λ t. pop t) e ∙ pop-append ys y in
    rw (pop_delete, e', lt→ltb (length ys) l.dirty_index h) refl

pop_delete-dirty :
    (l : VirtLayout) (ys : List Element) (y : Element)
    → l.elements ≡ ys ++ (y ∷ [])
    → l.dirty_index ≤ length ys
    → pop_delete l ≡ record l { elements = ys }
unfolding pop_delete
pop_delete-dirty l ys y e h =
    let e' = ap (λ t. pop t) e ∙ pop-append ys y in
    rw (pop_delete, e', le→ltb (length ys) l.dirty_index h) refl

-- The elements that an edit keeps, when the last one goes to the queue
requeue :
    (l : VirtLayout) (ys : List Element) (y : Element)
    → l.elements ≡ ys ++ (y ∷ [])
    → length ys < l.dirty_index
    → take (length ys) ys ++ reversed (l.dealloc_que ++ (y ∷ []))
      ≡ clean_slice l ++ reversed l.dealloc_que
unfolding clean_slice
requeue l ys y e h =
    let long : length l.elements ≤ l.dirty_index =
      omega (arith, ap (λ t. length t) e, length-append ys (y ∷ [])) in
    ap (λ t. t ++ reversed (l.dealloc_que ++ (y ∷ []))) (take-all (length ys) ys (omega arith))
    ∙ ap (λ t. ys ++ t) (reversed-append l.dealloc_que y)
    ∙ sym (append_assoc ys (y ∷ []) (reversed l.dealloc_que))
    ∙ ap (λ t. t ++ reversed l.dealloc_que) (sym (take-all l.dirty_index l.elements long ∙ e))

pop_delete-IsEdit : (es : List Element) (l : VirtLayout) → IsEdit es l → IsEdit es (pop_delete l)
unfolding clean_slice
pop_delete-IsEdit es l i = elim (pop-cases l.elements) [
  | inl e ↦ rw (pop_delete-none l e) i
  | inr (ys, y, e) ↦ elim (dec_lt (length ys) l.dirty_index) [
    | yes h ↦ rw (pop_delete-clean l ys y e h) (record {
      inside = omega arith;
      mapped = requeue l ys y e h ∙ i.mapped;
      counted = i.counted;
    })
    | no h ↦
        let short : l.dirty_index ≤ length ys = omega arith in
        let same =
          ap (λ t. take l.dirty_index t) e ∙ take-append_le l.dirty_index ys (y ∷ []) short in
        rw (pop_delete-dirty l ys y e short) (record {
          inside = short;
          mapped = ap (λ t. t ++ reversed l.dealloc_que) (sym same) ∙ i.mapped;
          counted = i.counted;
        })
  ]
]

pub edits-IsEdit :
    (es : List Element) (ks : List Edit) (l : VirtLayout) → IsEdit es l → IsEdit es (edits ks l)
edits-IsEdit es [] l i = i
edits-IsEdit es (pushed e ∷ ks) l i = edits-IsEdit es ks (push e l) (push-IsEdit es e l i)
edits-IsEdit es (popped ∷ ks) l i = edits-IsEdit es ks (pop_delete l) (pop_delete-IsEdit es l i)

total-mapped :
    (es : List Element) (l : VirtLayout)
    → IsEdit es l
    → total (clean_slice l) + total l.dealloc_que ≡ l.clean_size
total-mapped es l i = omega (
  arith,
  i.counted,
  ap (λ t. total t) i.mapped,
  total-append (clean_slice l) (reversed l.dealloc_que),
  total-reversed l.dealloc_que,
)

total-slices : (l : VirtLayout) → total (clean_slice l) + total (dirty_slice l) ≡ total l.elements
unfolding clean_slice dirty_slice
total-slices l = omega (
  arith,
  total-append (take l.dirty_index l.elements) (drop l.dirty_index l.elements),
  ap (λ t. total t) (take-drop l.dirty_index l.elements),
)

module _ {ℓ} {Z : Type ℓ} (dealloc : Allocation → Z → Z) where
  -- After any `push`es and `pop_delete`s on a layout whose elements are all mapped, and where the
  -- bytes of its elements before and after are below 2 ^ 64 together, `sync_mem` gives a layout of the
  -- elements at hand that are all mapped again, with `clean_size` the sum of their sizes and an empty
  -- queue, and deallocates the elements of the queue.
  pub sync_mem-IsSynced :
      (ks : List Edit) (l : VirtLayout) (z : Z)
      → IsSynced l
      → total l.elements + total (edits ks l).elements < word_mod
      → IsSynced (sync_mem dealloc (edits ks l) z).0
        × ((sync_mem dealloc (edits ks l) z).0.elements ≡ (edits ks l).elements)
        × ((sync_mem dealloc (edits ks l) z).1 ≡ dealloc_all dealloc (edits ks l).dealloc_que z)
  unfolding sync_mem
  sync_mem-IsSynced ks l z s small =
      let m = edits ks l in
      let i = edits-IsEdit l.elements ks l (synced-IsEdit l s) in
      let up =
        add_sizes_lem m.clean_size (dirty_slice m) (omega (arith, i.counted, total-slices m)) in
      let down =
        sub_sizes_lem (m.clean_size + total (dirty_slice m)) m.dealloc_que
          (omega (arith, total-mapped l.elements m i)) (omega (arith, i.counted, total-slices m)) in
      (
        record {
          all_clean = refl;
          no_queue = refl;
          counted =
              ap (λ n. sub_sizes n m.dealloc_que) up
              ∙ down
              ∙ omega (arith, total-mapped l.elements m i, total-slices m);
        },
        refl,
        refl,
      )
