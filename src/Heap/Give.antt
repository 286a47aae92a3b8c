-- ===== src/Heap/Give.antt =====
-- Giving a block back where it was taken: it is merged with its neighbours, or put between them.
use aurora_os_old.Prelude.{
  ℕ, suc, ◌+◌, ◌≤◌, ◌<◌, ◌≡◌, refl, ap, true, false, none, some, List, [], ◌∷◌, lt→ltb, le→ltb,
  ◌==◌, if◌then◌else◌, arith,
}
use aurora_os_old.Heap.{Node, merge, merge_next, merge_prev, give_behind, give}
use aurora_os_old.Heap.Zone.{Spaced}

merge-apart : (a b : Node) → a.addr + a.size < b.addr → merge a b ≡ none
unfolding merge
merge-apart a b h =
    let e : (a.addr + a.size == b.addr) ≡ false = ground arith in
    ap (λ t. if t then some (record a { size = a.size + b.size }) else none) e

merge-touching :
    (a b : Node) → a.addr + a.size ≡ b.addr → merge a b ≡ some (record a { size = a.size + b.size })
unfolding merge
merge-touching a b h =
    let e : (a.addr + a.size == b.addr) ≡ true = ground (arith, h) in
    ap (λ t. if t then some (record a { size = a.size + b.size }) else none) e

-- A node that does not touch the next one stays.
merge_next-apart :
    (hi : ℕ) (c : Node) (ns : List Node)
    → Spaced (suc (c.addr + c.size)) hi ns
    → merge_next c ns ≡ c ∷ ns
unfolding merge_next
merge_next-apart hi c [] s = refl
merge_next-apart hi c (n ∷ ns) s = rw (merge-apart c n (omega (arith, s.0)), merge_next) refl

-- A block right behind a node grows it again.
pub merge_prev-touching :
    (hi : ℕ) (p c : Node) (ns : List Node)
    → p.addr + p.size ≡ c.addr
    → Spaced (suc (c.addr + c.size)) hi ns
    → merge_prev p c ns ≡ record p { size = p.size + c.size } ∷ ns
unfolding merge_prev
merge_prev-touching hi p c ns h s =
    let grown = record p { size = p.size + c.size } in
    let e : p.addr + (p.size + c.size) ≡ c.addr + c.size = omega (arith, h) in
    rw (merge-touching p c h, merge_prev) (merge_next-apart hi grown ns (rw e s))

pub merge_prev-apart :
    (hi : ℕ) (p c : Node) (ns : List Node)
    → p.addr + p.size < c.addr
    → Spaced (suc (c.addr + c.size)) hi ns
    → merge_prev p c ns ≡ p ∷ c ∷ ns
unfolding merge_prev
merge_prev-apart hi p c ns h s =
    rw (merge-apart p c h, merge_prev) (ap (λ t. p ∷ t) (merge_next-apart hi c ns s))

-- The block's place is right behind `p`.
pub give_behind-merge_prev :
    (hi : ℕ) (p c : Node) (ns : List Node)
    → Spaced (suc (c.addr + c.size)) hi ns
    → give_behind p c ns ≡ merge_prev p c ns
unfolding give_behind
give_behind-merge_prev hi p c [] s = refl
give_behind-merge_prev hi p c (n ∷ ns) s = rw (lt→ltb c.addr n.addr (omega (arith, s.0))) refl

-- The block's place is behind a node that starts below it.
pub give_behind-cons :
    (p c n : Node) (ns : List Node)
    → n.addr ≤ c.addr
    → give_behind p c (n ∷ ns) ≡ p ∷ give_behind n c ns
unfolding give_behind
give_behind-cons p c n ns h = rw (le→ltb c.addr n.addr h) refl

pub give-cons :
    (c n : Node) (ns : List Node) → n.addr ≤ c.addr → give c (n ∷ ns) ≡ give_behind n c ns
unfolding give
give-cons c n ns h = rw (le→ltb c.addr n.addr h) refl

pub give-first :
    (hi : ℕ) (c : Node) (ns : List Node) → Spaced (suc (c.addr + c.size)) hi ns → give c ns ≡ c ∷ ns
unfolding give
give-first hi c [] s = refl
give-first hi c (n ∷ ns) s =
    rw (lt→ltb c.addr n.addr (omega (arith, s.0))) (merge_next-apart hi c (n ∷ ns) s)
