-- ===== src/VirtMap/Space/Entries.antt =====
-- `insert` and `remove` on the entries of an address space, and the lookup of an address.
use aurora_os_old.Prelude.{
  ℕ, ◌≤◌, ◌<◌, ◌≡◌, ◌≢◌, refl, sym, ap, ◌∙◌, ◌⊎◌, inl, inr, true, false, Bool-cases, some, none_ne,
  List, [], ◌∷◌, arith, if◌then◌else◌,
}
use aurora_os_old.Mem.{Range, end_addr}
use aurora_os_old.Mem.Split.{IsPages}
use aurora_os_old.VirtMap.Space.{range_lt, range_eq, get, insert, remove}
use aurora_os_old.VirtMap.Space.Zones.{Placed, Placed-low, Clear, lt-addr, not_lt-addr}

pub range_eq-≡ : (r k : Range) → range_eq r k ≡ true → (r.addr ≡ k.addr) × (r.size ≡ k.size)
unfolding range_eq
range_eq-≡ r k e = ground arith

pub range_eq_refl : (k : Range) → range_eq k k ≡ true
unfolding range_eq
range_eq_refl k = ground arith

pub addr-lt : (r k : Range) → r.addr < k.addr → range_lt r k ≡ true
unfolding range_lt
addr-lt r k h = ground arith

pub range_eq→≡ : (r k : Range) → range_eq r k ≡ true → r ≡ k
range_eq→≡ r k e =
    let (a, s) = range_eq-≡ r k e in
    ap (λ x. record { addr = x; size = r.size }) a ∙ ap (λ x. record { addr = k.addr; size = x }) s

lt_irrefl : (k : Range) → range_lt k k ≡ false
unfolding range_lt
lt_irrefl k = ground arith

pub lt_ne : (r k : Range) → range_lt r k ≡ true → range_eq r k ≢ true
unfolding range_lt range_eq
lt_ne r k e f = ground arith

module _ {V : Type 0} where
  -- Pages that are clear of the others come in at their place.
  pub insert-Placed :
      (lo hi : ℕ) (k : Range) (v : V) (m : List (Range × V))
      → IsPages k
      → lo ≤ k.addr
      → end_addr k ≤ hi
      → Clear k m
      → Placed lo hi m
      → Placed lo hi (insert k v m)
  unfolding insert
  insert-Placed lo hi k v [] i low high c p = (low, i, high, tt)
  insert-Placed lo hi k v ((r, w) ∷ m) i low high (d, c) (rlow, pages, rhigh, p) =
      elim (Bool-cases (range_lt r k)) [
        | inl e ↦
            let le = lt-addr r k e in
            let behind : end_addr r ≤ k.addr = elim d [
              | inl h ↦ h
              | inr h ↦ absurd (omega (arith, i.nonempty))
            ] in
            rw e (rlow, pages, rhigh, insert-Placed (end_addr r) hi k v m i behind high c p)
        | inr e ↦
            let le = not_lt-addr r k e in
            let before : end_addr k ≤ r.addr = elim d [
              | inl h ↦ absurd (omega (arith, pages.nonempty))
              | inr h ↦ h
            ] in
            elim (Bool-cases (range_eq r k)) [
              | inl same ↦ absurd (omega (arith, (range_eq-≡ r k same).0, i.nonempty))
              | inr other ↦ rw (e, other) (low, i, high, (before, pages, rhigh, p))
            ]
      ]

  pub remove-Placed :
      (lo hi : ℕ) (k : Range) (m : List (Range × V)) → Placed lo hi m → Placed lo hi (remove k m)
  unfolding remove
  remove-Placed lo hi k [] p = tt
  remove-Placed lo hi k ((r, v) ∷ m) (low, pages, high, p) = elim (Bool-cases (range_eq r k)) [
    | inl e ↦ rw e (Placed-low (end_addr r) lo hi m (omega arith) p)
    | inr e ↦ rw e (low, pages, high, remove-Placed (end_addr r) hi k m p)
  ]

  pub remove-Clear : (j k : Range) (m : List (Range × V)) → Clear j m → Clear j (remove k m)
  unfolding remove
  remove-Clear j k [] c = tt
  remove-Clear j k ((r, v) ∷ m) (d, c) = elim (Bool-cases (range_eq r k)) [
    | inl e ↦ rw e c
    | inr e ↦ rw e (d, remove-Clear j k m c)
  ]

  pub get-insert : (k : Range) (v : V) (m : List (Range × V)) → get k (insert k v m) ≡ some v
  unfolding get insert
  get-insert k v [] = rw (range_eq_refl k) refl
  get-insert k v ((r, w) ∷ m) = elim (Bool-cases (range_lt r k)) [
    | inl e ↦ elim (Bool-cases (range_eq r k)) [
      | inl same ↦ absurd (lt_ne r k e same)
      | inr other ↦ rw (e, other) (get-insert k v m)
    ]
    | inr e ↦ elim (Bool-cases (range_eq r k)) [
      | inl same ↦ rw (e, same, range_eq_refl k) refl
      | inr other ↦ rw (e, other, range_eq_refl k) refl
    ]
  ]

  -- `r` is a zone of the map.
  abbrev pub Zone : Range → List (Range × V) → Type 0
  Zone r [] = ⊥
  Zone r ((k, v) ∷ m) = (r ≡ k) ⊎ Zone r m

  pub Zone-low :
      (lo hi : ℕ) (r : Range) (m : List (Range × V))
      → Placed lo hi m
      → Zone r m
      → (lo ≤ r.addr) × IsPages r × (end_addr r ≤ hi)
  Zone-low lo hi r [] p z = absurd z
  Zone-low lo hi r ((k, v) ∷ m) (low, pages, high, p) (inl e) = rw e (low, pages, high)
  Zone-low lo hi r ((k, v) ∷ m) (low, pages, high, p) (inr z) =
      let (l, i, h) = Zone-low (end_addr k) hi r m p z in (omega arith, i, h)

  pub get-Zone : (k : Range) (v : V) (m : List (Range × V)) → get k m ≡ some v → Zone k m
  unfolding get
  get-Zone k v [] e = absurd (none_ne v e)
  get-Zone k v ((r, w) ∷ m) e = elim (Bool-cases (range_eq r k)) [
    | inl t ↦ inl (sym (range_eq→≡ r k t))
    | inr t ↦ inr (get-Zone k v m (sym (ap (λ b. if b then some w else get k m) t) ∙ e))
  ]

  pub insert-Zone : (k : Range) (v : V) (m : List (Range × V)) → Zone k (insert k v m)
  unfolding insert
  insert-Zone k v [] = inl refl
  insert-Zone k v ((r, w) ∷ m) = elim (Bool-cases (range_lt r k)) [
    | inl e ↦ rw e (inr (insert-Zone k v m))
    | inr e ↦ elim (Bool-cases (range_eq r k)) [
      | inl t ↦ rw (e, t) (inl refl)
      | inr t ↦ rw (e, t) (inl refl)
    ]
  ]

  -- A value that is put in for a zone of the map takes its place.
  pub replace-Placed :
      (lo hi : ℕ) (k : Range) (v : V) (m : List (Range × V))
      → Zone k m
      → Placed lo hi m
      → Placed lo hi (insert k v m)
  unfolding insert
  replace-Placed lo hi k v [] z p = absurd z
  replace-Placed lo hi k v ((r, w) ∷ m) (inl z) (low, pages, high, p) =
      let same : range_eq r k ≡ true = rw z (range_eq_refl r) in
      let not_lt : range_lt r k ≡ false = rw z (lt_irrefl r) in
      rw (not_lt, same, z) (low, pages, high, p)
  replace-Placed lo hi k v ((r, w) ∷ m) (inr z) (low, pages, high, p) =
      let (above, _, _) = Zone-low (end_addr r) hi k m p z in
      rw (addr-lt r k (omega (arith, pages.nonempty)))
        (low, pages, high, replace-Placed (end_addr r) hi k v m z p)
