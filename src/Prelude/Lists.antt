-- ===== src/Prelude/Lists.antt =====
-- Lists measured by native numbers.
use Prim.Native.Nat.{ℕ, zero, suc, ◌+◌, ◌<◌}
use mathlib.Core.Path.{◌≡◌, refl, ap}
use mathlib.Core.List.{List, [], ◌∷◌, ◌++◌}
use mathlib.Core.Option.{Option, none, some}
use native.Mathlib.Omega.{arith}

pub none_ne {ℓ} : {A : Type ℓ} → (a : A) → none ≡ some a → ⊥
none_ne a h = cc

pub some_inj {ℓ} : {A : Type ℓ} → (a b : A) → some a ≡ some b → a ≡ b
some_inj a b h = cc

module _ {ℓ} {A : Type ℓ} where
  abbrev pub length : List A → ℕ
  length [] = 0
  length (x ∷ xs) = suc (length xs)

  abbrev pub get_elem? : List A → ℕ → Option A
  get_elem? [] i = none
  get_elem? (x ∷ xs) zero = some x
  get_elem? (x ∷ xs) (suc i) = get_elem? xs i

  abbrev pub take : ℕ → List A → List A
  take zero xs = []
  take (suc n) [] = []
  take (suc n) (x ∷ xs) = x ∷ take n xs

  abbrev pub drop : ℕ → List A → List A
  drop zero xs = xs
  drop (suc n) [] = []
  drop (suc n) (x ∷ xs) = drop n xs

  abbrev pub set_elem : ℕ → A → List A → List A
  set_elem i a [] = []
  set_elem zero a (x ∷ xs) = a ∷ xs
  set_elem (suc i) a (x ∷ xs) = x ∷ set_elem i a xs

  pub get_elem?-set_elem :
      (i : ℕ) (a b : A) (xs : List A)
      → get_elem? xs i ≡ some a
      → get_elem? (set_elem i b xs) i ≡ some b
  get_elem?-set_elem i a b [] h = absurd (none_ne a h)
  get_elem?-set_elem zero a b (x ∷ xs) h = refl
  get_elem?-set_elem (suc i) a b (x ∷ xs) h = get_elem?-set_elem i a b xs h

  pub set_elem-set_elem :
      (i : ℕ) (a b : A) (xs : List A) → set_elem i b (set_elem i a xs) ≡ set_elem i b xs
  set_elem-set_elem i a b [] = refl
  set_elem-set_elem zero a b (x ∷ xs) = refl
  set_elem-set_elem (suc i) a b (x ∷ xs) = ap (λ t. x ∷ t) (set_elem-set_elem i a b xs)

  pub set_elem-get_elem? :
      (i : ℕ) (a : A) (xs : List A) → get_elem? xs i ≡ some a → set_elem i a xs ≡ xs
  set_elem-get_elem? i a [] h = refl
  set_elem-get_elem? zero a (x ∷ xs) h = cc
  set_elem-get_elem? (suc i) a (x ∷ xs) h = ap (λ t. x ∷ t) (set_elem-get_elem? i a xs h)

  pub length-append : (xs ys : List A) → length (xs ++ ys) ≡ length xs + length ys
  length-append [] ys = omega arith
  length-append (x ∷ xs) ys = omega (arith, length-append xs ys)

  pub get_elem?-set_elem_ne :
      (i j : ℕ) (b : A) (xs : List A) → (i ≡ j → ⊥) → get_elem? (set_elem i b xs) j ≡ get_elem? xs j
  get_elem?-set_elem_ne i j b [] h = refl
  get_elem?-set_elem_ne zero zero b (x ∷ xs) h = absurd (h refl)
  get_elem?-set_elem_ne zero (suc j) b (x ∷ xs) h = refl
  get_elem?-set_elem_ne (suc i) zero b (x ∷ xs) h = refl
  get_elem?-set_elem_ne (suc i) (suc j) b (x ∷ xs) h =
      get_elem?-set_elem_ne i j b xs (λ e. h (ap suc e))

  pub length-set_elem : (i : ℕ) (b : A) (xs : List A) → length (set_elem i b xs) ≡ length xs
  length-set_elem i b [] = refl
  length-set_elem zero b (x ∷ xs) = refl
  length-set_elem (suc i) b (x ∷ xs) = ap suc (length-set_elem i b xs)

  pub get_elem?-lt : (i : ℕ) (xs : List A) → i < length xs → (a : A) × (get_elem? xs i ≡ some a)
  get_elem?-lt i [] h = absurd (omega arith)
  get_elem?-lt zero (x ∷ xs) h = (x, refl)
  get_elem?-lt (suc i) (x ∷ xs) h = get_elem?-lt i xs (omega arith)
