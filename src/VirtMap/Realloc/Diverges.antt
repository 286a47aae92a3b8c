-- ===== src/VirtMap/Realloc/Diverges.antt =====
-- `realloc` to a smaller size.
use aurora_os_old.Prelude.{
  ℕ, zero, suc, ◌+◌, ◌-◌, ◌<◌, ◌≡◌, refl, ap, ◌∙◌, inl, inr, Option, none, some, Option-cases, List,
  [], ◌∷◌, ◌++◌, length, length-append, lt→ltb, le→ltb, wsub, word_mod, arith,
}
use native.Mathlib.Decide.{dec_lt}
use aurora_os_old.VirtMap.{Element, Allocation}
use aurora_os_old.VirtMap.Layout.{VirtLayout, size, clean_slice, layout_flags}
use aurora_os_old.VirtMap.Layout.Vec.{pop-append, pop-cases, take-all}
use aurora_os_old.VirtMap.Layout.Edits.{total, total-append, IsSynced, pop_delete-clean}
use aurora_os_old.VirtMap.Mapper.Maps.{size-total}
use aurora_os_old.VirtMap.Realloc.{last, shrink_loop, realloc_func}

clean_lem : (l : VirtLayout) → l.dirty_index ≡ length l.elements → clean_slice l ≡ l.elements
unfolding clean_slice
clean_lem l e = take-all l.dirty_index l.elements (omega (arith, e))

last-append : (es : List Element) (a : Element) → last (es ++ (a ∷ [])) ≡ some a
unfolding last
last-append es a = rw (last, pop-append es a) refl

-- The loop that cuts less than all of a layout off, whose elements are mapped, never ends.
shrink_loop-diverges :
    (f diff : ℕ) (l : VirtLayout)
    → l.dirty_index ≡ length l.elements
    → diff < total l.elements
    → total l.elements < word_mod
    → shrink_loop f diff l ≡ none
unfolding shrink_loop
shrink_loop-diverges zero diff l c h small = refl
shrink_loop-diverges (suc f) diff l c h small = elim (pop-cases l.elements) [
  | inl e ↦ absurd (omega (arith, ap (λ t. total t) e))
  | inr (ys, a, e) ↦
      let at_end : last (clean_slice l) ≡ some a =
        ap (λ t. last t) (clean_lem l c ∙ e) ∙ last-append ys a in
      let sum : total l.elements ≡ total ys + a.map_size =
        omega (arith, ap (λ t. total t) e, total-append ys (a ∷ [])) in
      elim (dec_lt a.map_size diff) [
        | no p ↦
            rw (shrink_loop, at_end, le→ltb a.map_size diff (omega arith))
              (shrink_loop-diverges f diff l c h small)
        | yes p ↦
            let long : length l.elements ≡ suc (length ys) =
              omega (arith, ap (λ t. length t) e, length-append ys (a ∷ [])) in
            let popped = pop_delete-clean l ys a e (omega (arith, c, long)) in
            let diff' : wsub diff a.map_size ≡ diff - a.map_size = omega arith in
            rw (shrink_loop, at_end, lt→ltb a.map_size diff p, popped, diff')
              (shrink_loop-diverges f (diff - a.map_size) _ refl (omega (arith, sum))
                (omega (arith, sum)))
      ]
]

module _ {Z : Type 0} (alloc : ℕ → Z → Option Allocation × Z) where
  -- For a layout whose elements are all mapped, of fewer than 2 ^ 64 bytes, and a new size that is
  -- smaller but not 0, `realloc_func` does not end, whatever the fuel.
  pub realloc_func-diverges :
      (f flags new_size : ℕ) (l : VirtLayout) (z : Z)
      → IsSynced l
      → total l.elements < word_mod
      → 0 < new_size
      → new_size < total l.elements
      → realloc_func alloc f flags new_size l z ≡ none
  unfolding realloc_func
  realloc_func-diverges f flags new_size l z s small pos less =
      let sz : size l ≡ total l.elements = size-total l small in
      let cut : size l - new_size < total l.elements = omega (arith, sz) in
      let loop = shrink_loop-diverges f (size l - new_size) l s.all_clean cut small in
      elim (Option-cases (layout_flags l)) [
        | inl n ↦ rw (realloc_func, n) refl
        | inr (old, o) ↦
            rw
              (
                realloc_func,
                o,
                le→ltb (size l) new_size (omega (arith, sz)),
                lt→ltb new_size (size l) (omega (arith, sz)),
                loop,
              )
              refl
      ]
