-- ===== src/BuddyAllocator/Sizes.antt =====
-- The sizes of the free blocks in each order.
use aurora_os_old.Prelude.{
  ℕ, zero, suc, ◌+◌, ◌/◌, ◌^◌, ◌≡◌, refl, ◌⊎◌, inl, inr, true, Bool-cases, none, some, List, [],
  ◌∷◌, get_elem?, set_elem, ltb, leb, ◌||◌, arith,
}
use aurora_os_old.Prelude.Bits.{pow_double}
use aurora_os_old.BuddyAllocator.{Node, BuddyAllocator, nodes, halves, set_is_alloced}

abbrev pub AllSize : ℕ → List Node → Type 0
AllSize s [] = Unit
AllSize s (n ∷ ns) = (n.size ≡ s) × AllSize s ns

-- The blocks of the list of order `i` have `2 ^ (k + i)` bytes.
abbrev pub Sized : ℕ → List (List Node) → Type 0
Sized k [] = Unit
Sized k (ns ∷ nss) = AllSize (2 ^ k) ns × Sized (suc k) nss

pub set_elem-Sized :
    (k i : ℕ) (ns : List Node) (nss : List (List Node))
    → AllSize (2 ^ (k + i)) ns
    → Sized k nss
    → Sized k (set_elem i ns nss)
set_elem-Sized k i ns [] a s = tt
set_elem-Sized k zero ns (m ∷ nss) a (h, s) = let e : k + 0 ≡ k = omega arith in (rw (← e) a, s)
set_elem-Sized k (suc i) ns (m ∷ nss) a (h, s) =
    let e : suc k + i ≡ k + suc i = omega arith in (h, set_elem-Sized (suc k) i ns nss (rw e a) s)

pub nodes-AllSize :
    (k i : ℕ) (b : BuddyAllocator) → Sized k b.olist → AllSize (2 ^ (k + i)) (nodes i b)
unfolding nodes
nodes-AllSize k i b s = list k i b.olist s
  where
    list :
        (k i : ℕ) (nss : List (List Node))
        → Sized k nss
        → AllSize
            (2 ^ (k + i))
            (elim (get_elem? nss i) as (λ x. List Node) [ none ↦ [] | some ns ↦ ns ])
    list k i [] s = tt
    list k zero (m ∷ nss) (h, s) = let e : k + 0 ≡ k = omega arith in rw e h
    list k (suc i) (m ∷ nss) (h, s) =
        let e : k + suc i ≡ suc k + i = omega arith in rw e (list (suc k) i nss s)

pub halves-AllSize :
    (k : ℕ) (n : Node) (ns : List Node)
    → n.size ≡ 2 ^ suc k
    → AllSize (2 ^ k) ns
    → AllSize (2 ^ k) (halves n ns)
unfolding halves
halves-AllSize k n ns e a =
    let half : n.size / 2 ≡ 2 ^ k = omega (arith, e, pow_double k) in (half, (half, a))

pub list-cases : {A : Type 0} (xs : List A) → (xs ≡ []) ⊎ ((y : A) × (ys : List A) × (xs ≡ y ∷ ys))
list-cases [] = inl refl
list-cases (x ∷ xs) = inr (x, xs, refl)

pub alloced-Sized :
    (k addr : ℕ) (b : BuddyAllocator) → Sized k b.olist → Sized k (set_is_alloced addr true b).olist
unfolding set_is_alloced
alloced-Sized k addr b s = elim (Bool-cases (ltb addr b.start || leb b.meta_start addr)) [
  | inl t ↦ rw (set_is_alloced, t) s
  | inr t ↦ rw (set_is_alloced, t) s
]
