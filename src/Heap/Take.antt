-- ===== src/Heap/Take.antt =====
-- Allocation from a zone, and giving the block back.
use aurora_os_old.Prelude.{
  ℕ, suc, ◌+◌, ◌-◌, ◌%◌, ◌≤◌, ◌<◌, ◌≡◌, ◌⊎◌, inl, inr, refl, ◌∙◌, ap, List, [], ◌∷◌, ltb, lt→ltb,
  le→ltb, le→leb, lt→leb, if◌then◌else◌, word_mod, arith,
}
use native.Mathlib.Decide.{dec_lt}
use aurora_os_old.Heap.{
  Node, shrink, remove, resize, HeapZone, alloc_nodes, zone_alloc, zone_dealloc, give, give_behind,
}
use aurora_os_old.Heap.Zone.{
  Spaced, IsNode, total, chunks, resize-shrink, resize-remove, dealloc_size-chunks,
}
use aurora_os_old.Heap.Give.{
  merge_prev-touching, merge_prev-apart, give_behind-merge_prev, give_behind-cons, give-cons,
  give-first,
}

-- every node is smaller than `size`
abbrev pub AllBelow : ℕ → List Node → Type 0
AllBelow size [] = Unit
AllBelow size (n ∷ ns) = (n.size < size) × AllBelow size ns

total-AllBelow : (size : ℕ) (ns : List Node) → total ns < size → AllBelow size ns
total-AllBelow size [] h = tt
total-AllBelow size (n ∷ ns) h = (omega arith, total-AllBelow size ns (omega arith))

-- the block of an allocation
abbrev pub block : ℕ → ℕ → Node
block addr size = record { addr = addr; size = chunks size }

-- The result `r` of an allocation from the nodes `ns` with the free space `free`: the block lies
-- between `lo` and `hi`, starts at a chunk and is counted, the other nodes stay apart, and giving
-- the block back restores the list.
pub record Fits (lo hi size free : ℕ) (ns : List Node) (r : ℕ × ℕ × List Node) : Type 0 where
  pub room : lo ≤ r.0
  pub top : r.0 + chunks size ≤ hi
  pub whole : r.0 % 32 ≡ 0
  pub freed : r.1 + chunks size ≡ free
  pub spaced : Spaced lo hi r.2
  pub back_first : give (block r.0 size) r.2 ≡ ns
  pub back : (p : Node) → p.addr + p.size < lo → give_behind p (block r.0 size) r.2 ≡ p ∷ ns

-- what `alloc_nodes` makes of a node that is kept
abbrev kept : Node → ℕ × ℕ × List Node → ℕ × ℕ × List Node
kept n (out, free, ns) = (out, free, n ∷ ns)

alloc_nodes-kept :
    (size align free : ℕ) (n : Node) (ns : List Node)
    → n.size < size
    → alloc_nodes size align free (n ∷ ns) ≡ kept n (alloc_nodes size align free ns)
unfolding alloc_nodes
alloc_nodes-kept size align free n ns h = rw (lt→leb size n.size h, alloc_nodes) refl

alloc_nodes-shrink :
    (size align free a : ℕ) (n n' : Node) (ns : List Node)
    → size ≤ n.size
    → resize n size align ≡ (shrink a, n')
    → alloc_nodes size align free (n ∷ ns) ≡ (a, free - n.size + n'.size, n' ∷ ns)
unfolding alloc_nodes
alloc_nodes-shrink size align free a n n' ns h e =
    rw (le→leb size n.size h, alloc_nodes, e) (ap (λ x. (a, free - n.size + x.1.size, x.1 ∷ ns)) e)

alloc_nodes-remove :
    (size align free a : ℕ) (n n' : Node) (ns : List Node)
    → size ≤ n.size
    → resize n size align ≡ (remove a, n')
    → alloc_nodes size align free (n ∷ ns) ≡ (a, free - n.size, ns)
unfolding alloc_nodes
alloc_nodes-remove size align free a n n' ns h e = rw (le→leb size n.size h, alloc_nodes, e) refl

Spaced-le : (lo lo' hi : ℕ) (ns : List Node) → lo' ≤ lo → Spaced lo hi ns → Spaced lo' hi ns
Spaced-le lo lo' hi [] h s = tt
Spaced-le lo lo' hi (n ∷ ns) h s = (omega (arith, s.0), s.1, s.2, s.3)

module _ (hi size align : ℕ) (bound : hi < word_mod) (pos : 0 < size) (small : align ≤ 32) where
  shrunk-Fits :
      (lo free : ℕ) (n : Node) (ns : List Node)
      → Spaced lo hi (n ∷ ns)
      → n.size + total ns ≤ free
      → chunks size < n.size
      → Fits lo hi size free (n ∷ ns) (
        n.addr + (n.size - chunks size),
        free - n.size + (n.size - chunks size),
        record n { size = n.size - chunks size } ∷ ns,
      )
  shrunk-Fits lo free n ns s enough less = record {
    room = omega (arith, s.0);
    top = omega (arith, s.2);
    whole = omega (arith, i.addr_chunks, i.size_chunks);
    freed = omega arith;
    spaced = (
      s.0,
      record {
        addr_chunks = i.addr_chunks;
        size_chunks = omega (arith, i.size_chunks);
        nonempty = omega (arith, i.size_chunks);
      },
      omega (arith, s.2),
      Spaced-le (suc (n.addr + n.size)) (suc (n.addr + (n.size - chunks size))) hi ns (omega arith)
          s.3,
    );
    back_first = give-cons c n' ns (omega arith) ∙ behind;
    back = λ p h. give_behind-cons p c n' ns (omega arith) ∙ ap (λ t. p ∷ t) behind;
  }
    where
      i : IsNode n
      i = s.1

      n' : Node
      n' = record n { size = n.size - chunks size }

      c : Node
      c = block (n.addr + (n.size - chunks size)) size

      ends : n.addr + (n.size - chunks size) + chunks size ≡ n.addr + n.size
      ends = omega arith

      sum : n.size - chunks size + chunks size ≡ n.size
      sum = omega arith

      behind : give_behind n' c ns ≡ n ∷ ns
      behind =
          let after : Spaced (suc (c.addr + c.size)) hi ns = rw ends s.3 in
          give_behind-merge_prev hi n' c ns after
          ∙ merge_prev-touching hi n' c ns refl after
          ∙ ap (λ z. record n { size = z } ∷ ns) sum

  removed-Fits :
      (lo free : ℕ) (n : Node) (ns : List Node)
      → Spaced lo hi (n ∷ ns)
      → n.size + total ns ≤ free
      → chunks size ≡ n.size
      → Fits lo hi size free (n ∷ ns) (n.addr, free - n.size, ns)
  removed-Fits lo free n ns s enough e = record {
    room = s.0;
    top = omega (arith, s.2);
    whole = s.1.addr_chunks;
    freed = omega arith;
    spaced = Spaced-le (suc (n.addr + n.size)) lo hi ns (omega (arith, s.0)) s.3;
    back_first = ap (λ z. give (record { addr = n.addr; size = z }) ns) e ∙ give-first hi n ns s.3;
    back = λ p h.
        ap (λ z. give_behind p (record { addr = n.addr; size = z }) ns) e
        ∙ give_behind-merge_prev hi p n ns s.3
        ∙ merge_prev-apart hi p n ns (omega (arith, s.0)) s.3;
  }

  kept-Fits :
      (lo free : ℕ) (n : Node) (ns : List Node) (r : ℕ × ℕ × List Node)
      → Spaced lo hi (n ∷ ns)
      → Fits (suc (n.addr + n.size)) hi size free ns r
      → Fits lo hi size free (n ∷ ns) (kept n r)
  kept-Fits lo free n ns r s f =
      let behind = f.back n (omega arith) in
      record {
        room = omega (arith, f.room, s.0);
        top = f.top;
        whole = f.whole;
        freed = f.freed;
        spaced = (s.0, s.1, s.2, f.spaced);
        back_first = give-cons (block r.0 size) n r.2 (omega (arith, f.room)) ∙ behind;
        back = λ p h.
            give_behind-cons p (block r.0 size) n r.2 (omega (arith, f.room))
            ∙ ap (λ t. p ∷ t) behind;
      }

  -- Allocating from a free list either finds no room and changes nothing, where every node is
  -- smaller than the request, or takes a block of it.
  pub alloc_nodes-Fits :
      (lo free : ℕ) (ns : List Node)
      → Spaced lo hi ns
      → total ns ≤ free
      → (alloc_nodes size align free ns ≡ (0, free, ns)) × AllBelow size ns
        ⊎ Fits lo hi size free ns (alloc_nodes size align free ns)
  unfolding alloc_nodes
  alloc_nodes-Fits lo free [] s enough = inl (refl, tt)
  alloc_nodes-Fits lo free (n ∷ ns) s enough = elim (dec_lt n.size size) [
    | yes less ↦ elim (alloc_nodes-Fits (suc (n.addr + n.size)) free ns s.3 (omega arith)) [
      | inl e ↦
          inl (alloc_nodes-kept size align free n ns less ∙ ap (λ r. kept n r) e.0, (less, e.1))
      | inr f ↦ inr (
          rw (alloc_nodes-kept size align free n ns less)
            (kept-Fits lo free n ns (alloc_nodes size align free ns) s f))
    ]
    | no room ↦ elim (dec_lt (chunks size) n.size) [
      | yes less ↦ inr (
          rw
            (alloc_nodes-shrink size align free (n.addr + (n.size - chunks size)) n
              (record n { size = n.size - chunks size }) ns (omega arith)
              (resize-shrink n size align small s.1 (omega (arith, s.2)) pos less))
            (shrunk-Fits lo free n ns s enough less))
      | no full ↦
          let e : chunks size ≡ n.size = omega (arith, s.1.size_chunks) in
          inr (
            rw
              (alloc_nodes-remove size align free n.addr n n ns (omega arith)
                (resize-remove n size align small s.1 (omega (arith, s.2)) pos e))
              (removed-Fits lo free n ns s enough e))
    ]
  ]

  -- The result of an allocation from the zone `z` is a failure that changes nothing, where every
  -- node is smaller than `size`, or a block of
  -- the zone from `lo` on that starts at a chunk and that restores the zone when it is given back.
  abbrev pub Restores : ℕ → HeapZone → ℕ × HeapZone → Type 0
  Restores lo z r =
      (r.0 ≡ 0) × (r.1 ≡ z) × AllBelow size z.nodes
      ⊎ (lo ≤ r.0) × (r.0 + size ≤ hi) × (r.0 % 32 ≡ 0) × (zone_dealloc r.1 r.0 size align ≡ z)

  -- the zone after an allocation from its nodes
  abbrev taken : HeapZone → ℕ × ℕ × List Node → ℕ × HeapZone
  taken z (out, free, ns) = (out, record z { free_space = free; nodes = ns })

  zone_alloc-taken :
      (z : HeapZone)
      → zone_alloc z size align ≡ (
          if ltb z.free_space size
          then (0, z)
          else taken z (alloc_nodes size align z.free_space z.nodes))
  unfolding zone_alloc
  zone_alloc-taken z = refl

  Fits-Restores :
      (lo : ℕ) (z : HeapZone) (r : ℕ × ℕ × List Node)
      → Fits lo hi size z.free_space z.nodes r
      → Restores lo z (taken z r)
  unfolding zone_dealloc
  Fits-Restores lo z r f = inr (
    f.room,
    omega (arith, f.top),
    f.whole,
    ap (λ d. record z { free_space = r.1 + d; nodes = give (record { addr = r.0; size = d }) r.2 })
          (dealloc_size-chunks size align small (omega (arith, f.top)))
        ∙ ap (λ x. record z { free_space = x; nodes = give (block r.0 size) r.2 }) f.freed
        ∙ ap (λ x. record z { nodes = x }) f.back_first,
  )

  -- A request of at least one byte with an alignment of at most a chunk, to a zone below 2 ^ 64
  -- whose free nodes stay apart and whose free space is their total size, either fails and changes
  -- nothing, where every free node is smaller than the request, or is given a block of the zone
  -- that starts at a chunk, and giving the block back restores the zone exactly.
  pub zone_alloc-Restores :
      (lo : ℕ) (z : HeapZone)
      → Spaced lo hi z.nodes
      → z.free_space ≡ total z.nodes
      → Restores lo z (zone_alloc z size align)
  zone_alloc-Restores lo z s count =
      let a = alloc_nodes size align z.free_space z.nodes in
      elim (dec_lt z.free_space size) [
        | yes less ↦
            rw (zone_alloc-taken z, lt→ltb z.free_space size less)
              (inl (refl, refl, total-AllBelow size z.nodes (omega (arith, count))))
        | no room ↦ elim (alloc_nodes-Fits lo z.free_space z.nodes s (omega (arith, count))) [
          | inl e ↦
              rw (zone_alloc-taken z, le→ltb z.free_space size (omega arith), e.0)
                (inl (refl, refl, e.1))
          | inr f ↦
              rw (zone_alloc-taken z, le→ltb z.free_space size (omega arith))
                (Fits-Restores lo z a f)
        ]
      ]
