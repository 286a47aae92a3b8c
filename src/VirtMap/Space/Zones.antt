-- ===== src/VirtMap/Space/Zones.antt =====
-- The entries of an address space: whole pages in order, no two of which overlap, and the zones
-- around a range among them.
use aurora_os_old.Prelude.{
  ℕ, ◌≤◌, ◌<◌, ◌≡◌, ◌⊎◌, inl, inr, true, false, Bool-cases, Option, none, some, List, [], ◌∷◌,
  arith,
}
use aurora_os_old.Mem.{Range, end_addr}
use aurora_os_old.Mem.Split.{IsPages}
use aurora_os_old.VirtMap.Space.{range_lt, prev_from, next_iter, first}

pub lt-addr : (r k : Range) → range_lt r k ≡ true → r.addr ≤ k.addr
unfolding range_lt
lt-addr r k e = ground arith

pub not_lt-addr : (r k : Range) → range_lt r k ≡ false → k.addr ≤ r.addr
unfolding range_lt
not_lt-addr r k e = ground arith

-- `k` begins behind the zone `prev`, and without one behind the first page.
abbrev pub Below : Option Range → Range → Type 0
Below none k = 4096 ≤ k.addr
Below (some p) k = end_addr p ≤ k.addr

abbrev pub Above : ℕ → Option Range → Range → Type 0
Above hi none k = end_addr k ≤ hi
Above hi (some n) k = end_addr k ≤ n.addr

-- the last zone seen ends at `lo` at most
abbrev pub Seen : ℕ → Option Range → Type 0
Seen lo none = 4096 ≤ lo
Seen lo (some p) = end_addr p ≤ lo

pub Seen-Below :
    (lo : ℕ) (prev : Option Range) (k : Range) → Seen lo prev → lo ≤ k.addr → Below prev k
Seen-Below lo none k s h = omega arith
Seen-Below lo (some p) k s h = omega arith

module _ {V : Type 0} where
  -- The entries are whole pages from `lo` up to `hi`, in order and apart.
  abbrev pub Placed : (lo hi : ℕ) → List (Range × V) → Type 0
  Placed lo hi [] = Unit
  Placed lo hi ((r, v) ∷ m) =
      (lo ≤ r.addr) × IsPages r × (end_addr r ≤ hi) × Placed (end_addr r) hi m

  -- No entry overlaps `k`.
  abbrev pub Clear : Range → List (Range × V) → Type 0
  Clear k [] = Unit
  Clear k ((r, v) ∷ m) = ((end_addr r ≤ k.addr) ⊎ (end_addr k ≤ r.addr)) × Clear k m

  pub Placed-low :
      (lo lo' hi : ℕ) (m : List (Range × V)) → lo' ≤ lo → Placed lo hi m → Placed lo' hi m
  Placed-low lo lo' hi [] h p = tt
  Placed-low lo lo' hi ((r, v) ∷ m) h (low, pages, high, p) = (omega arith, pages, high, p)

  -- All entries from `lo` on are clear of a range that ends there.
  pub Placed-Clear :
      (lo hi : ℕ) (k : Range) (m : List (Range × V)) → end_addr k ≤ lo → Placed lo hi m → Clear k m
  Placed-Clear lo hi k [] h p = tt
  Placed-Clear lo hi k ((r, v) ∷ m) h (low, pages, high, p) =
      (inr (omega arith), Placed-Clear (end_addr r) hi k m (omega arith) p)

  -- A range is behind the zone before it and before the zone behind it exactly when it is clear of all.
  pub around :
      (lo hi : ℕ) (k : Range) (seen m : List (Range × V))
      → 0 < k.size
      → Seen lo (first seen)
      → Placed lo hi m
      → (Below (first (prev_from k seen m)) k × Above hi (first (next_iter k m)) k
          → Below (first seen) k × Clear k m × (end_addr k ≤ hi))
        × (Below (first seen) k × Clear k m × (end_addr k ≤ hi)
            → Below (first (prev_from k seen m)) k × Above hi (first (next_iter k m)) k)
  unfolding prev_from next_iter
  around lo hi k seen [] pos s p = (λ (b, a). (b, tt, a), λ (b, c, a). (b, a))
  around lo hi k seen ((r, v) ∷ m) pos s (low, pages, high, p) = elim (Bool-cases (range_lt r k)) [
    | inl e ↦ rw e (
        let ih = around (end_addr r) hi k ((r, v) ∷ seen) m pos (omega arith) p in
        let le : r.addr ≤ k.addr = lt-addr r k e in
        (
          λ ba.
              let (b, c, a) = ih.0 ba in
              (Seen-Below lo (first seen) k s (omega arith), (inl b, c), a),
          λ (b, (d, c), a). ih.1 (elim d [ inl h ↦ h | inr h ↦ absurd (omega arith) ], c, a),
        ))
    | inr e ↦ rw e (
        let le : k.addr ≤ r.addr = not_lt-addr r k e in
        (
          λ (b, a). (b, (inr a, Placed-Clear (end_addr r) hi k m (omega arith) p), omega arith),
          λ (b, (d, c), a).
              (b, elim d [ inl h ↦ absurd (omega (arith, pages.nonempty)) | inr h ↦ h ]),
        ))
  ]
