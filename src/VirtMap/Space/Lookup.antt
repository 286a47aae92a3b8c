-- ===== src/VirtMap/Space/Lookup.antt =====
-- The lookup of an address among the zones, by the last zone before a key.
use aurora_os_old.Prelude.{
  ℕ, ◌-◌, ◌≤◌, ◌<◌, ◌≡◌, refl, sym, ap, ◌∙◌, ◌⊎◌, inl, inr, ◌↔◌, true, false, Bool-cases, Option,
  none, some, some_inj, none_ne, List, [], ◌∷◌, arith, word_mod, Option-cases, if◌then◌else◌,
}
use aurora_os_old.Mem.{Range, end_addr, contains}
use aurora_os_old.Mem.Split.{In}
use aurora_os_old.VirtMap.Space.{
  range_lt, prev_from, prev_iter, first, address_map, get_mapped_range,
}
use aurora_os_old.VirtMap.Space.Zones.{Placed}
use aurora_os_old.VirtMap.Space.Entries.{Zone, Zone-low}

above-lt : (r k : Range) → k.addr < r.addr → range_lt r k ≡ false
unfolding range_lt
above-lt r k h = ground arith

-- what `get_mapped_range` makes of the zone that `address_map` gives
within : ℕ → Option Range → Option Range
within x none = none
within x (some z) = if contains z x then some z else none

within_lem : (x : ℕ) (r : Range) → In x r → within x (some r) ≡ some r
unfolding within
within_lem x r i = ground (arith, i.0, i.1)

within_inv : (x : ℕ) (q r : Range) → within x (some q) ≡ some r → (q ≡ r) × In x q
unfolding within
within_inv x q r e = elim (Bool-cases (contains q x)) [
  | inl t ↦ (some_inj q r (sym (ap (λ b. if b then some q else none) t) ∙ e), ground arith)
  | inr f ↦ absurd (none_ne r (sym (ap (λ b. if b then some q else none) f) ∙ e))
]

-- the key with which `address_map` looks for the address `x`
abbrev pub probe : ℕ → Range
probe x = record { addr = x; size = word_mod - 1 }

probe-lt : (x : ℕ) (r : Range) → r.size < word_mod - 1 → r.addr ≤ x → range_lt r (probe x) ≡ true
unfolding range_lt
probe-lt x r s h = ground arith

module _ {V : Type 0} where
  pub prev-Zone :
      (k p : Range) (seen m : List (Range × V))
      → first (prev_from k seen m) ≡ some p
      → (first seen ≡ some p) ⊎ Zone p m
  unfolding prev_from
  prev-Zone k p seen [] e = inl e
  prev-Zone k p seen ((r, v) ∷ m) e = elim (Bool-cases (range_lt r k)) [
    | inl t ↦
        let e' = sym (ap (λ b. first (if b then prev_from k ((r, v) ∷ seen) m else seen)) t) ∙ e in
        elim (prev-Zone k p ((r, v) ∷ seen) m e') [
          | inl h ↦ inr (inl (sym (some_inj r p h)))
          | inr z ↦ inr (inr z)
        ]
    | inr t ↦ inl (sym (ap (λ b. first (if b then prev_from k ((r, v) ∷ seen) m else seen)) t) ∙ e)
  ]

  -- No zone from `lo` on comes before a key below `lo`.
  pub prev_stop :
      (lo hi : ℕ) (k : Range) (seen m : List (Range × V))
      → Placed lo hi m
      → k.addr < lo
      → prev_from k seen m ≡ seen
  unfolding prev_from
  prev_stop lo hi k seen [] p h = refl
  prev_stop lo hi k seen ((r, v) ∷ m) (low, pages, high, p) h = rw (above-lt r k (omega arith)) refl

  Zone-prev :
      (lo hi x : ℕ) (r : Range) (seen m : List (Range × V))
      → Placed lo hi m
      → Zone r m
      → In x r
      → first (prev_from (probe x) seen m) ≡ some r
  unfolding prev_from
  Zone-prev lo hi x r seen [] p z i = absurd z
  Zone-prev lo hi x r seen ((k, v) ∷ m) (low, pages, high, p) (inl e) (a, b) =
      let size : k.size < word_mod - 1 = omega (arith, pages.size_pages, pages.bounded) in
      let inside : (k.addr ≤ x) × (x < end_addr k) = rw (← e) (a, b) in
      rw
        (
          probe-lt x k size inside.0,
          prev_stop (end_addr k) hi (probe x) ((k, v) ∷ seen) m p inside.1,
        )
        (ap some (sym e))
  Zone-prev lo hi x r seen ((k, v) ∷ m) (low, pages, high, p) (inr z) i =
      let size : k.size < word_mod - 1 = omega (arith, pages.size_pages, pages.bounded) in
      let (behind, _, _) = Zone-low (end_addr k) hi r m p z in
      rw (probe-lt x k size (omega arith)) (Zone-prev (end_addr k) hi x r ((k, v) ∷ seen) m p z i)

  lookup_lem :
      (x : ℕ) (l m : List (Range × V))
      → prev_iter (probe x) m ≡ l
      → get_mapped_range x m ≡ within x (first l)
  unfolding get_mapped_range address_map within
  lookup_lem x [] m e = rw (get_mapped_range, address_map, e) refl
  lookup_lem x ((r, v) ∷ l) m e = rw (get_mapped_range, address_map, e) refl

  -- Where the zones are whole pages, in order and apart, `get_mapped_range` finds a zone for an address
  -- exactly when it is a zone of the map that the address lies in.
  pub get_mapped_range_iff :
      (lo hi x : ℕ) (r : Range) (m : List (Range × V))
      → Placed lo hi m
      → (get_mapped_range x m ≡ some r) ↔ (Zone r m × In x r)
  unfolding prev_iter within
  get_mapped_range_iff lo hi x r m p =
      let same = lookup_lem x (prev_iter (probe x) m) m refl in
      (
        λ e. elim (Option-cases (first (prev_iter (probe x) m))) [
          | inl n ↦ absurd (none_ne r (sym (same ∙ ap (λ o. within x o) n) ∙ e))
          | inr (q, s) ↦
              let (eq, i) = within_inv x q r (sym (same ∙ ap (λ o. within x o) s) ∙ e) in
              elim (prev-Zone (probe x) q [] m s) [
                | inl h ↦ absurd (none_ne q h)
                | inr z ↦ rw (← eq) (z, i)
              ]
        ],
        λ (z, i). same ∙ ap (λ o. within x o) (Zone-prev lo hi x r [] m p z i) ∙ within_lem x r i,
      )
