-- ===== src/LinkedList/Seg.antt =====
-- What a chain of nodes is in memory: every node's links name its neighbours.
use mathlib.Core.Bool.{false≢true}
use aurora_os_old.Prelude.{
  ◌≡◌, ◌≢◌, ◌⊎◌, refl, sym, ◌∙◌, Bool, true, false, ◌||◌, List, [], ◌∷◌, ◌++◌, arith, ◌==◌, length,
}
use native.Mathlib.Decide.{ℕ_discrete}
use aurora_os_old.LinkedList.{Ptr, null, Mem, update, LinkedList}

abbrev pub has : Ptr → List Ptr → Bool
has a [] = false
has a (x ∷ xs) = (a == x) || has a xs

abbrev pub Distinct : List Ptr → Type 0
Distinct [] = Unit
Distinct (x ∷ xs) = (has x xs ≡ false) × Distinct xs

-- the first node of `xs`, or else `a`
abbrev pub first_or : Ptr → List Ptr → Ptr
first_or a [] = a
first_or a (x ∷ xs) = x

-- the last node of `xs`, or else `b`
abbrev pub last_or : Ptr → List Ptr → Ptr
last_or b [] = b
last_or b (x ∷ xs) = last_or x xs

-- The nodes `xs` are linked in order, between the node `b` before and the node `a` after.
abbrev pub Seg : Mem → Ptr → List Ptr → Ptr → Type 0
Seg m b [] a = Unit
Seg m b (x ∷ xs) a = (x ≢ null) × (m.prev x ≡ b) × (m.next x ≡ first_or a xs) × Seg m x xs a

-- Two memories agree on the nodes of `xs`, or on all others.
abbrev pub SameOn : List Ptr → Mem → Mem → Type 0
SameOn xs m m' = (p : Ptr) → has p xs ≡ true → (m'.next p ≡ m.next p) × (m'.prev p ≡ m.prev p)

abbrev pub SameOutside : List Ptr → Mem → Mem → Type 0
SameOutside xs m m' = (p : Ptr) → has p xs ≡ false → (m'.next p ≡ m.next p) × (m'.prev p ≡ m.prev p)

-- `l` is the list of the nodes `xs`. The end pointers of an empty list mean nothing.
pub record IsList (m : Mem) (l : LinkedList) (xs : List Ptr) : Type 0 where
  pub chain : Seg m null xs null
  pub distinct : Distinct xs
  pub counted : l.len ≡ length xs
  pub starts : (xs ≡ []) ⊎ (l.start ≡ first_or null xs)
  pub ends : (xs ≡ []) ⊎ (l.end ≡ last_or null xs)

pub has-append : (a : Ptr) (xs ys : List Ptr) → has a (xs ++ ys) ≡ (has a xs || has a ys)
has-append a [] ys = refl
has-append a (x ∷ xs) ys = ground (arith, has-append a xs ys)

pub first_or-append :
    (a : Ptr) (xs ys : List Ptr) → first_or a (xs ++ ys) ≡ first_or (first_or a ys) xs
first_or-append a [] ys = refl
first_or-append a (x ∷ xs) ys = refl

pub last_or-append : (b : Ptr) (xs ys : List Ptr) → last_or b (xs ++ ys) ≡ last_or (last_or b xs) ys
last_or-append b [] ys = refl
last_or-append b (x ∷ xs) ys = last_or-append x xs ys

pub has-last_or : (x : Ptr) (xs : List Ptr) → has (last_or x xs) (x ∷ xs) ≡ true
has-last_or x [] = ground arith
has-last_or x (y ∷ xs) = ground (arith, has-last_or y xs)

pub ne_of_has : (x z : Ptr) (l : List Ptr) → has x l ≡ false → has z l ≡ true → (x == z) ≡ false
ne_of_has x z l out mem = elim (ℕ_discrete x z) [
  | yes e ↦ absurd (false≢true (sym (rw e at out) ∙ mem))
  | no ne ↦ ground arith
]

pub Distinct-append :
    (xs ys : List Ptr)
    → Distinct xs
    → Distinct ys
    → ((p : Ptr) → has p xs ≡ true → has p ys ≡ false)
    → Distinct (xs ++ ys)
Distinct-append [] ys dx dy apart = dy
Distinct-append (x ∷ xs) ys dx dy apart = (
  ground (arith, has-append x xs ys, apart x),
  Distinct-append xs ys dx.1 dy (λ p h. apart p (ground arith)),
)

pub Distinct-split :
    (xs ys : List Ptr)
    → Distinct (xs ++ ys)
    → Distinct xs × Distinct ys × ((p : Ptr) → has p xs ≡ true → has p ys ≡ false)
Distinct-split [] ys d = (tt, d, λ p h. cc)
Distinct-split (x ∷ xs) ys d =
    let (dx, dy, apart) = Distinct-split xs ys d.1 in
    (
      (ground (arith, has-append x xs ys), dx),
      dy,
      λ p h. ground (arith, has-append x xs ys, apart p),
    )

module _ {m m' : Mem} where
  -- A chain survives any change that spares its nodes.
  pub Seg-frame :
      (b : Ptr) (xs : List Ptr) (a : Ptr) → SameOn xs m m' → Seg m b xs a → Seg m' b xs a
  Seg-frame b [] a same s = tt
  Seg-frame b (x ∷ xs) a same s = (
    s.0,
    ground (arith, same x),
    ground (arith, same x),
    Seg-frame x xs a (λ p h. same p (ground arith)) s.3,
  )

module _ (m : Mem) where
  pub Seg-append :
      (b : Ptr) (xs ys : List Ptr) (a : Ptr)
      → Seg m b xs (first_or a ys)
      → Seg m (last_or b xs) ys a
      → Seg m b (xs ++ ys) a
  Seg-append b [] ys a s t = t
  Seg-append b (x ∷ xs) ys a s t =
      (s.0, s.1, rw (first_or-append a xs ys) s.2, Seg-append x xs ys a s.3 t)

  pub Seg-split :
      (b : Ptr) (xs ys : List Ptr) (a : Ptr)
      → Seg m b (xs ++ ys) a
      → Seg m b xs (first_or a ys) × Seg m (last_or b xs) ys a
  Seg-split b [] ys a s = (tt, s)
  Seg-split b (x ∷ xs) ys a s =
      let (front, back) = Seg-split x xs ys a s.3 in
      ((s.0, s.1, rw (first_or-append a xs ys) at (s.2), front), back)

  pub last_or-ne_null :
      (b x : Ptr) (xs : List Ptr) (a : Ptr) → Seg m b (x ∷ xs) a → last_or x xs ≢ null
  last_or-ne_null b x [] a s = s.0
  last_or-ne_null b x (y ∷ xs) a s = last_or-ne_null x y xs a s.3

  -- Writing the last node's `next` changes what comes after the chain.
  pub Seg-relink_last :
      (b x : Ptr) (xs : List Ptr) (a a' : Ptr)
      → Distinct (x ∷ xs)
      → Seg m b (x ∷ xs) a
      → Seg (record m { next = update m.next (last_or x xs) a' }) b (x ∷ xs) a'
  Seg-relink_last b x [] a a' d s = (s.0, s.1, ground arith, tt)
  Seg-relink_last b x (y ∷ xs) a a' d s = (
    s.0,
    s.1,
    rw (ne_of_has x (last_or y xs) (y ∷ xs) d.0 (has-last_or y xs)) s.2,
    Seg-relink_last x y xs a a' d.1 s.3,
  )

  -- Writing the first node's `prev` changes what comes before the chain.
  pub Seg-relink_first :
      (b b' x : Ptr) (xs : List Ptr) (a : Ptr)
      → Distinct (x ∷ xs)
      → Seg m b (x ∷ xs) a
      → Seg (record m { prev = update m.prev x b' }) b' (x ∷ xs) a
  Seg-relink_first b b' x xs a d s =
      (s.0, ground arith, s.2, Seg-frame x xs a (λ p h. ground arith) s.3)
