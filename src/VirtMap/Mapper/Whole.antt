-- ===== src/VirtMap/Mapper/Whole.antt =====
-- The state of an address space between operations: layouts of whole pages at zones of whole pages, in
-- order and apart.
use aurora_os_old.Prelude.{
  ℕ, zero, suc, ◌+◌, ◌%◌, ◌≤◌, ◌<◌, ◌≡◌, refl, sym, ap, ◌∙◌, some, some_inj, none_ne, List, [], ◌∷◌,
  ◌++◌, Bool-cases, inl, inr, take, length, wadd, arith, word_mod, if◌then◌else◌,
}
use mathlib.Core.Path.{subst}
use aurora_os_old.Mem.{Range}
use aurora_os_old.VirtMap.{Element, Allocation}
use aurora_os_old.VirtMap.Layout.{
  VirtLayout, add_sizes, size, reversed, sync_mem, mark_unmapped, revert,
}
use aurora_os_old.VirtMap.Layout.Undo.{revert_loop_lem}
use aurora_os_old.VirtMap.Space.{range_eq, range_lt, get, insert, remove}
use aurora_os_old.VirtMap.Space.Zones.{Placed}
use aurora_os_old.VirtMap.Mapper.{VirtMapper}

abbrev pub AllWhole : List Element → Type 0
AllWhole [] = Unit
AllWhole (e ∷ es) = (e.map_size % 4096 ≡ 0) × AllWhole es

-- The sizes of the elements, mapped or not, are whole pages.
pub record IsWhole (l : VirtLayout) : Type 0 where
  pub kept : AllWhole l.elements
  pub queue : AllWhole l.dealloc_que

append-AllWhole : (xs ys : List Element) → AllWhole xs → AllWhole ys → AllWhole (xs ++ ys)
append-AllWhole [] ys p q = q
append-AllWhole (x ∷ xs) ys (h, p) q = (h, append-AllWhole xs ys p q)

take-AllWhole : (n : ℕ) (xs : List Element) → AllWhole xs → AllWhole (take n xs)
take-AllWhole zero xs p = tt
take-AllWhole (suc n) [] p = tt
take-AllWhole (suc n) (x ∷ xs) (h, p) = (h, take-AllWhole n xs p)

reversed-AllWhole : (xs : List Element) → AllWhole xs → AllWhole (reversed xs)
unfolding reversed
reversed-AllWhole [] p = tt
reversed-AllWhole (x ∷ xs) (h, p) =
    append-AllWhole (reversed xs) (x ∷ []) (reversed-AllWhole xs p) (h, tt)

add_sizes_pages :
    (n : ℕ) (es : List Element)
    → AllWhole es
    → n % 4096 ≡ 0
    → n < word_mod
    → (add_sizes n es % 4096 ≡ 0) × (add_sizes n es < word_mod)
unfolding add_sizes
add_sizes_pages n [] p d b = (d, b)
add_sizes_pages n (e ∷ es) (h, p) d b =
    add_sizes_pages (wadd n e.map_size) es p (omega (arith, h, d)) (omega arith)

pub size_pages : (l : VirtLayout) → IsWhole l → (size l % 4096 ≡ 0) × (size l + 4096 ≤ word_mod)
unfolding size
size_pages l w =
    let (d, b) = add_sizes_pages 0 l.elements w.kept refl (omega arith) in (d, omega (arith, d, b))

module _ {ℓ} {Z : Type ℓ} (dealloc : Allocation → Z → Z) where
  pub sync_mem-IsWhole : (l : VirtLayout) (z : Z) → IsWhole l → IsWhole (sync_mem dealloc l z).0
  unfolding sync_mem
  sync_mem-IsWhole l z w = record { kept = w.kept; queue = tt }

  pub mark_unmapped-IsWhole :
      (l : VirtLayout) (z : Z) → IsWhole l → IsWhole (mark_unmapped dealloc l z).0
  unfolding mark_unmapped
  mark_unmapped-IsWhole l z w = record { kept = w.kept; queue = tt }

  pub revert-IsWhole : (l : VirtLayout) (z : Z) → IsWhole l → IsWhole (revert dealloc l z).0
  unfolding revert
  revert-IsWhole l z w =
      let loop =
        revert_loop_lem dealloc (length l.elements) l.dirty_index l.elements z (omega arith) in
      record {
        kept =
            append-AllWhole _ (reversed l.dealloc_que)
              (subst (λ t. AllWhole t.0) (sym loop) (take-AllWhole l.dirty_index l.elements w.kept))
              (reversed-AllWhole l.dealloc_que w.queue);
        queue = tt;
      }

abbrev pub AllLayouts : List (Range × VirtLayout) → Type 0
AllLayouts [] = Unit
AllLayouts ((r, l) ∷ m) = IsWhole l × AllLayouts m

pub insert-AllLayouts :
    (k : Range) (l : VirtLayout) (m : List (Range × VirtLayout))
    → IsWhole l
    → AllLayouts m
    → AllLayouts (insert k l m)
unfolding insert
insert-AllLayouts k l [] w a = (w, tt)
insert-AllLayouts k l ((r, v) ∷ m) w (v', a) = elim (Bool-cases (range_lt r k)) [
  | inl e ↦ rw e (v', insert-AllLayouts k l m w a)
  | inr e ↦ elim (Bool-cases (range_eq r k)) [
    | inl t ↦ rw (e, t) (w, a)
    | inr t ↦ rw (e, t) (w, (v', a))
  ]
]

pub remove-AllLayouts :
    (k : Range) (m : List (Range × VirtLayout)) → AllLayouts m → AllLayouts (remove k m)
unfolding remove
remove-AllLayouts k [] a = tt
remove-AllLayouts k ((r, v) ∷ m) (w, a) = elim (Bool-cases (range_eq r k)) [
  | inl e ↦ rw e a
  | inr e ↦ rw e (w, remove-AllLayouts k m a)
]

pub get-IsWhole :
    (k : Range) (l : VirtLayout) (m : List (Range × VirtLayout))
    → get k m ≡ some l
    → AllLayouts m
    → IsWhole l
unfolding get
get-IsWhole k l [] e a = absurd (none_ne l e)
get-IsWhole k l ((r, v) ∷ m) e (w, a) = elim (Bool-cases (range_eq r k)) [
  | inl t ↦ rw (← some_inj v l (sym (ap (λ b. if b then some v else get k m) t) ∙ e)) w
  | inr t ↦ get-IsWhole k l m (sym (ap (λ b. if b then some v else get k m) t) ∙ e) a
]

-- The zones are whole pages from the second page on up to `hi`, in order and apart, and so are the
-- layouts.
pub record IsSpace {T Z : Type 0} (hi : ℕ) (s : VirtMapper T Z) : Type 0 where
  pub placed : Placed 4096 hi s.virt_map
  pub layouts : AllLayouts s.virt_map
