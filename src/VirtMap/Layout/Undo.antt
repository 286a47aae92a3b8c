-- ===== src/VirtMap/Layout/Undo.antt =====
-- `revert` after `push` and `pop_delete` on a mapped layout.
use aurora_os_old.Prelude.{
  ℕ, zero, suc, ◌≤◌, ◌≡◌, refl, sym, ap, ◌∙◌, inl, inr, List, [], ◌∷◌, ◌++◌, length, take, drop,
  length-append, lt→ltb, le→ltb, arith,
}
use native.Mathlib.Decide.{dec_lt}
use aurora_os_old.VirtMap.{Element, Allocation, dealloc_element}
use aurora_os_old.VirtMap.Layout.{
  VirtLayout, pop, dirty_slice, clean_slice, reversed, dealloc_all, revert_loop, revert,
}
use aurora_os_old.VirtMap.Layout.Vec.{
  pop-empty, pop-append, pop-cases, take-append_le, drop-append_le, drop-all, take-all,
  reversed-append,
}
use aurora_os_old.VirtMap.Layout.Edits.{Edit, edits, IsSynced, synced-IsEdit, edits-IsEdit}

module _ {ℓ} {Z : Type ℓ} (dealloc : Allocation → Z → Z) where
  revert_loop_stop :
      (f dirty : ℕ) (vec : List Element) (z : Z)
      → length vec ≤ dirty
      → revert_loop dealloc (suc f) dirty vec z ≡ (vec, z)
  unfolding revert_loop
  revert_loop_stop f dirty vec z h = elim (pop-cases vec) [
    | inl e ↦ rw (revert_loop, ap (λ t. pop t) e ∙ pop-empty) refl
    | inr (ys, y, e) ↦
        rw (revert_loop, ap (λ t. pop t) e ∙ pop-append ys y, le→ltb dirty (length vec) h) refl
  ]

  revert_loop_next :
      (f dirty : ℕ) (ys : List Element) (y : Element) (z : Z)
      → dirty ≤ length ys
      → revert_loop dealloc (suc f) dirty (ys ++ (y ∷ [])) z
        ≡ revert_loop dealloc f dirty ys (dealloc_element dealloc y z)
  unfolding revert_loop
  revert_loop_next f dirty ys y z h =
      rw
        (
          revert_loop,
          pop-append ys y,
          lt→ltb dirty (length (ys ++ (y ∷ []))) (omega (arith, length-append ys (y ∷ []))),
        )
        refl

  dropped :
      (dirty : ℕ) (ys : List Element) (y : Element) (z : Z)
      → dirty ≤ length ys
      → dealloc_all dealloc (reversed (drop dirty (ys ++ (y ∷ [])))) z
        ≡ dealloc_all dealloc (reversed (drop dirty ys)) (dealloc_element dealloc y z)
  unfolding dealloc_all
  dropped dirty ys y z h =
      ap (λ t. dealloc_all dealloc t z)
        (ap (λ t. reversed t) (drop-append_le dirty ys (y ∷ []) h)
          ∙ reversed-append (drop dirty ys) y)

  nothing_dropped :
      (dirty : ℕ) (vec : List Element) (z : Z)
      → length vec ≤ dirty
      → dealloc_all dealloc (reversed (drop dirty vec)) z ≡ z
  unfolding dealloc_all reversed
  nothing_dropped dirty vec z h =
      ap (λ t. dealloc_all dealloc (reversed t) z) (drop-all dirty vec h)

  -- With fuel for the elements, the loop of `revert` keeps the first `dirty` of them and deallocates
  -- the others from the last one on.
  pub revert_loop_lem :
      (f dirty : ℕ) (vec : List Element) (z : Z)
      → length vec ≤ f
      → revert_loop dealloc f dirty vec z
        ≡ (take dirty vec, dealloc_all dealloc (reversed (drop dirty vec)) z)
  unfolding revert_loop
  revert_loop_lem zero dirty vec z h =
      rw (take-all dirty vec (omega arith), nothing_dropped dirty vec z (omega arith)) refl
  revert_loop_lem (suc f) dirty vec z h = elim (dec_lt dirty (length vec)) [
    | no p ↦
        revert_loop_stop f dirty vec z (omega arith)
        ∙ rw (take-all dirty vec (omega arith), nothing_dropped dirty vec z (omega arith)) refl
    | yes p ↦ elim (pop-cases vec) [
      | inl e ↦ absurd (omega (arith, ap (λ t. length t) e))
      | inr (ys, y, e) ↦
          let n : length vec ≡ suc (length ys) =
            ap (λ t. length t) e ∙ omega (arith, length-append ys (y ∷ [])) in
          ap (λ t. revert_loop dealloc (suc f) dirty t z) e
          ∙ revert_loop_next f dirty ys y z (omega arith)
          ∙ revert_loop_lem f dirty ys (dealloc_element dealloc y z) (omega arith)
          ∙ rw
              (
                e,
                take-append_le dirty ys (y ∷ []) (omega arith),
                dropped dirty ys y z (omega arith),
              )
              refl
    ]
  ]

  -- After any `push`es and `pop_delete`s on a layout whose elements are all mapped, `revert` gives
  -- back the elements and the clean size of that layout with an empty queue, and deallocates just the
  -- elements that are not mapped, from the last one on.
  pub revert-edits :
      (ks : List Edit) (l : VirtLayout) (z : Z)
      → IsSynced l
      → ((revert dealloc (edits ks l) z).0.elements ≡ l.elements)
        × ((revert dealloc (edits ks l) z).0.dealloc_que ≡ [])
        × ((revert dealloc (edits ks l) z).0.clean_size ≡ l.clean_size)
        × ((revert dealloc (edits ks l) z).1
            ≡ dealloc_all dealloc (reversed (dirty_slice (edits ks l))) z)
  unfolding revert clean_slice dirty_slice
  revert-edits ks l z s =
      let m = edits ks l in
      let i = edits-IsEdit l.elements ks l (synced-IsEdit l s) in
      let loop = revert_loop_lem (length m.elements) m.dirty_index m.elements z (omega arith) in
      (
        ap (λ t. t.0 ++ reversed m.dealloc_que) loop ∙ i.mapped,
        refl,
        i.counted ∙ sym s.counted,
        ap (λ t. t.1) loop,
      )
