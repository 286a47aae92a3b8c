-- ===== src/Prelude/Dict.antt =====
-- `BTreeMap` with numeric keys, as an association list: a lookup, an insertion that replaces, and
-- a removal. Laws in `if` form.
use Prim.Native.Nat.{ℕ}
use mathlib.Core.Path.{◌≡◌, refl}
use mathlib.Core.Logic.{◌≢◌}
use mathlib.Core.List.{List, [], ◌∷◌}
use mathlib.Core.Option.{Option, none, some}
use native.Mathlib.Omega.{arith}
use aurora_os_old.Prelude.Tests.{◌==◌, if◌then◌else◌}

module _ {V : Type 0} where
  unfoldable pub get : ℕ → List (ℕ × V) → Option V
  get k [] = none
  get k ((j, v) ∷ d) = if j == k then some v else get k d

  unfoldable pub put : ℕ → V → List (ℕ × V) → List (ℕ × V)
  put k v [] = (k, v) ∷ []
  put k v ((j, w) ∷ d) = if j == k then (k, v) ∷ d else (j, w) ∷ put k v d

  unfoldable pub delete : ℕ → List (ℕ × V) → List (ℕ × V)
  delete k [] = []
  delete k ((j, w) ∷ d) = let rest = delete k d in if j == k then rest else (j, w) ∷ rest

  pub get-put :
      (k j : ℕ) (v : V) (d : List (ℕ × V))
      → get j (put k v d) ≡ (if k == j then some v else get j d)
  unfolding get put
  get-put k j v [] = refl
  get-put k j v ((i, w) ∷ d) = ground (arith, get-put k j v d)

  pub get-delete :
      (k j : ℕ) (d : List (ℕ × V)) → get j (delete k d) ≡ (if k == j then none else get j d)
  unfolding get delete
  get-delete k j [] = ground arith
  get-delete k j ((i, w) ∷ d) = ground (arith, get-delete k j d)

  pub get-put_self : (k : ℕ) (v : V) (d : List (ℕ × V)) → get k (put k v d) ≡ some v
  get-put_self k v d = ground (arith, get-put k k v d)

  pub get-put_ne : (k j : ℕ) (v : V) (d : List (ℕ × V)) → k ≢ j → get j (put k v d) ≡ get j d
  get-put_ne k j v d h = ground (arith, get-put k j v d)

  pub get-delete_self : (k : ℕ) (d : List (ℕ × V)) → get k (delete k d) ≡ none
  get-delete_self k d = ground (arith, get-delete k k d)

  pub get-delete_ne : (k j : ℕ) (d : List (ℕ × V)) → k ≢ j → get j (delete k d) ≡ get j d
  get-delete_ne k j d h = ground (arith, get-delete k j d)

  -- a key that is present keeps its place
  pub put-put : (k : ℕ) (v w : V) (d : List (ℕ × V)) → put k w (put k v d) ≡ put k w d
  unfolding put
  put-put k v w [] = ground arith
  put-put k v w ((i, u) ∷ d) = ground (arith, put-put k v w d)

  pub put-get : (k : ℕ) (v : V) (d : List (ℕ × V)) → get k d ≡ some v → put k v d ≡ d
  unfolding put get
  put-get k v [] h = ground arith
  put-get k v ((i, u) ∷ d) h = ground (arith, put-get k v d)
