-- ===== src/VirtMap/Layout/Vec.antt =====
-- A `Vec` as a sequence: its last element, and what `pop` takes.
use aurora_os_old.Prelude.{
  ℕ, zero, suc, ◌≤◌, ◌≡◌, refl, ap, ◌⊎◌, inl, inr, none, some, List, [], ◌∷◌, ◌++◌, length, take,
  drop, arith,
}
use aurora_os_old.VirtMap.Layout.{pop, reversed}

module _ {ℓ} {A : Type ℓ} where
  pub pop-empty : pop {A = A} [] ≡ none
  unfolding pop
  pop-empty = refl

  pub pop-append : (xs : List A) (x : A) → pop (xs ++ (x ∷ [])) ≡ some (xs, x)
  unfolding pop
  pop-append [] x = refl
  pop-append (y ∷ ys) x = rw (pop-append ys x) refl

  -- A list is empty, or its last element is what `pop` gives.
  pub pop-cases : (xs : List A) → (xs ≡ []) ⊎ ((ys : List A) × (y : A) × (xs ≡ ys ++ (y ∷ [])))
  pop-cases [] = inl refl
  pop-cases (x ∷ xs) = elim (pop-cases xs) [
    | inl e ↦ inr ([], x, ap (λ t. x ∷ t) e)
    | inr (ys, y, e) ↦ inr (x ∷ ys, y, ap (λ t. x ∷ t) e)
  ]

  pub take-append_le : (n : ℕ) (xs ys : List A) → n ≤ length xs → take n (xs ++ ys) ≡ take n xs
  take-append_le zero xs ys h = refl
  take-append_le (suc n) [] ys h = absurd (omega arith)
  take-append_le (suc n) (x ∷ xs) ys h = ap (λ t. x ∷ t) (take-append_le n xs ys (omega arith))

  pub drop-append_le :
      (n : ℕ) (xs ys : List A) → n ≤ length xs → drop n (xs ++ ys) ≡ drop n xs ++ ys
  drop-append_le zero xs ys h = refl
  drop-append_le (suc n) [] ys h = absurd (omega arith)
  drop-append_le (suc n) (x ∷ xs) ys h = drop-append_le n xs ys (omega arith)

  pub drop-all : (n : ℕ) (xs : List A) → length xs ≤ n → drop n xs ≡ []
  drop-all zero [] h = refl
  drop-all (suc n) [] h = refl
  drop-all zero (x ∷ xs) h = absurd (omega arith)
  drop-all (suc n) (x ∷ xs) h = drop-all n xs (omega arith)

  pub take-all : (n : ℕ) (xs : List A) → length xs ≤ n → take n xs ≡ xs
  take-all zero [] h = refl
  take-all (suc n) [] h = refl
  take-all zero (x ∷ xs) h = absurd (omega arith)
  take-all (suc n) (x ∷ xs) h = ap (λ t. x ∷ t) (take-all n xs (omega arith))

  pub take-drop : (n : ℕ) (xs : List A) → take n xs ++ drop n xs ≡ xs
  take-drop zero xs = refl
  take-drop (suc n) [] = refl
  take-drop (suc n) (x ∷ xs) = ap (λ t. x ∷ t) (take-drop n xs)

  pub reversed-append : (xs : List A) (x : A) → reversed (xs ++ (x ∷ [])) ≡ x ∷ reversed xs
  unfolding reversed
  reversed-append [] x = refl
  reversed-append (y ∷ ys) x = rw (reversed-append ys x) refl
