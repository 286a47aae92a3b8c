-- ===== src/Heap.antt =====
-- libutil/src/mem/heap.rs: the heap. A zone is a block of pages with a list of free nodes in the
-- order of their addresses, and an allocation takes the end of the first node that has room.
-- The list of nodes and the list of zones are sequences (see LinkedList). A node's three link and
-- size words make `CHUNK_SIZE` 32. The pages come from a parameter, `alloc_pages`, the `alloc` of the
-- program that links the library; `initial` is `INITIAL_CHUNK_SIZE`, which the compiler computes from
-- the size of `HeapZone`. A null pointer is 0, and `none` is a panic.
pub mod Zone
pub mod Take
pub mod Give
mod Tests
use aurora_os_old.Prelude.{
  ℕ, ◌+◌, ◌-◌, ◌*◌, Bool, true, false, ◌&&◌, not, max, Option, none, some, List, [], ◌∷◌, ◌++◌, ltb,
  leb, ◌==◌, if◌then◌else◌, wadd, wsub,
}
use aurora_os_old.Misc.{align_up, align_down, align_of, page_size}

abbrev pub chunk_size : ℕ
chunk_size = 32

abbrev pub initial_heap_size : ℕ
initial_heap_size = page_size * 8

abbrev pub heap_inc_size : ℕ
heap_inc_size = page_size * 4

pub data ResizeResult : Type 0 where
  shrink : ℕ → ResizeResult
  remove : ℕ → ResizeResult
  no_capacity : ResizeResult

pub record Node : Type 0 where
  pub addr : ℕ
  pub size : ℕ

-- `Node::resize`: the answer, and the node afterwards
unfoldable pub resize : Node → (size align : ℕ) → ResizeResult × Node
resize n size align =
    let naddr = align_down (n.addr + (n.size - size)) (max align chunk_size) in
    if ltb n.size size
    then (no_capacity, n)
    else if ltb naddr n.addr
    then (no_capacity, n)
    else if leb chunk_size (naddr - n.addr)
    then (shrink naddr, record n { size = naddr - n.addr })
    else (remove naddr, n)

-- `Node::merge`: `none` is false
unfoldable pub merge : Node → Node → Option Node
merge a b = if a.addr + a.size == b.addr then some (record a { size = a.size + b.size }) else none

pub record HeapZone : Type 0 where
  pub addr : ℕ
  pub mem_len : ℕ
  pub free_space : ℕ
  pub nodes : List Node

-- The loop of `HeapZone::alloc` with the removal behind it: the pointer, the free space and the list
unfoldable pub alloc_nodes : (size align free : ℕ) → List Node → ℕ × ℕ × List Node
alloc_nodes size align free [] = (0, free, [])
alloc_nodes size align free (n ∷ ns) =
    let (out, free', ns') = alloc_nodes size align free ns in
    if leb size n.size
    then elim (resize n size align).0 [
      | shrink addr ↦
          (addr, free - n.size + (resize n size align).1.size, (resize n size align).1 ∷ ns)
      | remove addr ↦ (addr, free - n.size, ns)
      | no_capacity ↦ (out, free', n ∷ ns')
    ]
    else (out, free', n ∷ ns')

unfoldable pub zone_alloc : HeapZone → (size align : ℕ) → ℕ × HeapZone
zone_alloc z size align =
    let (out, free, ns) = alloc_nodes size align z.free_space z.nodes in
    if ltb z.free_space size then (0, z) else (out, record z { free_space = free; nodes = ns })

unfoldable pub contains : HeapZone → (addr size : ℕ) → Bool
contains z addr size =
    leb (z.addr + chunk_size) addr && leb (addr + size) (z.addr + chunk_size + z.mem_len)

-- `merge` of the node with the next one, which leaves the list
unfoldable pub merge_next : Node → List Node → List Node
merge_next c [] = c ∷ []
merge_next c (n ∷ ns) = elim (merge c n) [ none ↦ c ∷ n ∷ ns | some c' ↦ c' ∷ ns ]

-- The node `c` behind the node `p`, the previous one: it is merged into `p`, or put in behind it.
unfoldable pub merge_prev : Node → Node → List Node → List Node
merge_prev p c ns = elim (merge p c) [ none ↦ p ∷ merge_next c ns | some p' ↦ merge_next p' ns ]

-- The list behind `p`, after the node `c` was given back: `get_prev_next_node` goes on to the first
-- node above the address of `c`.
unfoldable pub give_behind : Node → Node → List Node → List Node
give_behind p c [] = merge_prev p c []
give_behind p c (n ∷ ns) =
    let rest = give_behind n c ns in if ltb c.addr n.addr then merge_prev p c (n ∷ ns) else p ∷ rest

unfoldable pub give : Node → List Node → List Node
give c [] = c ∷ []
give c (n ∷ ns) = if ltb c.addr n.addr then merge_next c (n ∷ ns) else give_behind n c ns

-- the number of bytes that `dealloc` gives back
unfoldable pub dealloc_size : (size align : ℕ) → ℕ
dealloc_size size align = align_up size (max chunk_size align)

unfoldable pub zone_dealloc : HeapZone → (addr size align : ℕ) → HeapZone
zone_dealloc z addr size align = record z {
  free_space = z.free_space + dealloc_size size align;
  nodes = give (record { addr = addr; size = dealloc_size size align }) z.nodes;
}

module _ {P : Type 0} (alloc_pages : ℕ → P → Option (ℕ × ℕ) × P) (initial : ℕ) where
  -- `HeapZone::new`
  unfoldable pub new_zone : ℕ → P → Option HeapZone × P
  new_zone size p =
      let (mem, p') = alloc_pages (align_up size page_size) p in
      elim mem [
        | none ↦ (none, p')
        | some (addr, len) ↦ (
          some (record {
            addr = addr;
            mem_len = len;
            free_space = len - initial;
            nodes = record { addr = addr + initial; size = len - initial } ∷ [];
          }),
          p',
        )
      ]

  -- `LinkedListAllocator::new`, which panics without pages
  unfoldable pub new : P → Option (List HeapZone × P)
  new p =
      let (zone, p') = new_zone initial_heap_size p in
      elim zone [ none ↦ none | some z ↦ some (z ∷ [], p') ]

  -- The loop of `alloc` over the zones: `none` where no zone has room
  unfoldable pub alloc_zones : List HeapZone → (size align : ℕ) → Option (ℕ × List HeapZone)
  alloc_zones [] size align = none
  alloc_zones (z ∷ zs) size align =
      let rest = alloc_zones zs size align in
      let (out, z') = zone_alloc z size align in
      if leb size z.free_space && not (out == 0)
      then some (out, z' ∷ zs)
      else elim rest [ none ↦ none | some (out', zs') ↦ some (out', z ∷ zs') ]

  -- `LinkedListAllocator::alloc`: a new zone where no zone has room
  unfoldable pub alloc : List HeapZone → (size align : ℕ) → P → ℕ × List HeapZone × P
  alloc zs size align p =
      let (zone, p') = new_zone (max heap_inc_size (size + max align chunk_size + initial)) p in
      elim (alloc_zones zs size align) [
        | some (out, zs') ↦ (out, zs', p)
        | none ↦ elim zone [
          | none ↦ (0, zs, p')
          | some z ↦ ((zone_alloc z size align).0, zs ++ (zone_alloc z size align).1 ∷ [], p')
        ]
      ]

  -- The loop of `dealloc` over the zones, which panics where no zone contains the pointer
  unfoldable pub dealloc_zones : List HeapZone → (addr size align : ℕ) → Option (List HeapZone)
  dealloc_zones [] addr size align = none
  dealloc_zones (z ∷ zs) addr size align =
      let rest = dealloc_zones zs addr size align in
      if contains z addr size
      then some (zone_dealloc z addr size align ∷ zs)
      else elim rest [ none ↦ none | some zs' ↦ some (z ∷ zs') ]

  unfoldable pub dealloc : List HeapZone → (addr size align : ℕ) → Option (List HeapZone)
  dealloc zs addr size align =
      if leb chunk_size (align_of addr) then dealloc_zones zs addr size align else none
