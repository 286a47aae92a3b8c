-- ===== src/BuddyAllocator.antt =====
-- kernel/src/mem/phys_alloc.rs: BuddyAllocator. Its lists of free nodes, one for each order, are
-- sequences (see LinkedList); the bitmap of allocated blocks is the function from the index of a
-- block. `none` of an outer Option is a panic, or that the fuel of a loop ran out.
pub mod Merge
pub mod Sizes
pub mod Given
mod Tests
use Prim.Native.Nat.{bit_xor}
use aurora_os_old.Prelude.{
  ℕ, zero, suc, ◌+◌, ◌-◌, ◌*◌, ◌/◌, ◌≤◌, Bool, true, false, not, ◌&&◌, ◌||◌, Option, none, some,
  List, [], ◌∷◌, get_elem?, set_elem, ltb, leb, ◌==◌, if◌then◌else◌, wshl, wsub,
}
use aurora_os_old.Misc.{align_of, log2_up}
use aurora_os_old.ZoneManager.{Allocation}

-- `MAX_ORDER`
abbrev pub max_order_count : ℕ
max_order_count = 32

pub record Node : Type 0 where
  pub addr : ℕ
  pub size : ℕ

pub record BuddyAllocator : Type 0 where
  pub start : ℕ
  pub meta_start : ℕ
  pub bitmap : ℕ → Bool
  pub olist : List (List Node)
  pub max_order : ℕ
  pub min_order_size : ℕ
  pub min_order_bits : ℕ
  pub free_space : ℕ

unfoldable pub get_order : BuddyAllocator → (size : ℕ) → ℕ
get_order b size =
    let bits = log2_up size in if leb bits b.min_order_bits then 0 else bits - b.min_order_bits

unfoldable pub get_order_size : BuddyAllocator → (order : ℕ) → ℕ
get_order_size b order = wshl 1 (order + b.min_order_bits)

unfoldable pub contains_addr : BuddyAllocator → ℕ → Bool
contains_addr b addr = leb b.start addr && ltb addr b.meta_start

unfoldable pub ucontains : BuddyAllocator → (addr size : ℕ) → Bool
ucontains b addr size =
    leb b.start addr && leb (addr + size) b.meta_start && leb b.min_order_size (align_of addr)

unfoldable pub contains : BuddyAllocator → Allocation → Bool
contains b m = ucontains b m.addr m.len

unfoldable pub is_alloced : BuddyAllocator → ℕ → Bool
is_alloced b addr =
    if ltb addr b.start || leb b.meta_start addr
    then false
    else b.bitmap ((addr - b.start) / b.min_order_size)

unfoldable pub set_is_alloced : ℕ → Bool → BuddyAllocator → BuddyAllocator
set_is_alloced addr alloced b = if ltb addr b.start || leb b.meta_start addr then b else record b {
  bitmap = λ i. if i == (addr - b.start) / b.min_order_size then alloced else b.bitmap i;
}

-- A list of nodes by its order, with what stands outside of the array left empty
unfoldable pub nodes : ℕ → BuddyAllocator → List Node
nodes order b = elim (get_elem? b.olist order) [ none ↦ [] | some ns ↦ ns ]

unfoldable pub set_nodes : ℕ → List Node → BuddyAllocator → BuddyAllocator
set_nodes order ns b = record b { olist = set_elem order ns b.olist }

-- The two halves of a node, in front of the list of the order below
unfoldable pub halves : Node → List Node → List Node
halves n ns =
    let half = n.size / 2 in
    record n { size = half } ∷ record { addr = bit_xor n.addr half; size = half } ∷ ns

-- The first node of the list of order `suc order` is split; a list that is empty panics with `none`.
unfoldable pub split_list : ℕ → BuddyAllocator → List Node → Option (Bool × BuddyAllocator)
split_list order b [] = none
split_list order b (n ∷ rest) =
    some (true, set_nodes order (halves n (nodes order b)) (set_nodes (suc order) rest b))

-- `split_order` on fuel; the Bool is its answer.
unfoldable pub split_order : (f order : ℕ) → BuddyAllocator → Option (Bool × BuddyAllocator)
split_order zero order b = none
split_order (suc f) zero b = some (false, b)
split_order (suc f) (suc order) b =
    if ltb b.max_order (suc order) then some (false, b) else elim (nodes (suc order) b) [
      | n ∷ rest ↦ split_list order b (n ∷ rest)
      | [] ↦ elim (split_order f (suc (suc order)) b) [
        | none ↦ none
        | some (false, b') ↦ some (false, b')
        | some (true, b') ↦ split_list order b' (nodes (suc order) b')
      ]
    ]

-- The end of `oalloc`: the first node of the list; an empty one panics with `none`.
unfoldable pub take_first : ℕ → BuddyAllocator → Option (Option Allocation × BuddyAllocator)
take_first order b = elim (nodes order b) [
  | [] ↦ none
  | n ∷ rest ↦
      let b' = set_is_alloced n.addr true (set_nodes order rest b) in
      some (
        some (record { addr = n.addr; len = n.size; zindex = 0 }),
        record b' { free_space = wsub b.free_space n.size },
      )
]

unfoldable pub oalloc : ℕ → BuddyAllocator → Option (Option Allocation × BuddyAllocator)
oalloc order b = if ltb b.max_order order then some (none, b) else elim (nodes order b) [
  | n ∷ rest ↦ take_first order b
  | [] ↦ elim (split_order (suc b.max_order) (suc order) b) [
    | none ↦ none
    | some (false, b') ↦ some (none, b')
    | some (true, b') ↦ take_first order b'
  ]
]

unfoldable pub alloc : ℕ → BuddyAllocator → Option (Option Allocation × BuddyAllocator)
alloc size b = if size == 0 then some (none, b) else oalloc (get_order b size) b

-- The node at an address, and the list without it
unfoldable pub node_at : ℕ → List Node → Option Node
node_at addr [] = none
node_at addr (n ∷ ns) = let rest = node_at addr ns in if n.addr == addr then some n else rest

unfoldable pub remove_at : ℕ → List Node → List Node
remove_at addr [] = []
remove_at addr (n ∷ ns) = let rest = remove_at addr ns in if n.addr == addr then ns else n ∷ rest

-- The loop of `insert_node` on fuel: the node and its order at the end, and the lists. The node that
-- stands at the address of the buddy is looked for in the list of the order; where none is, `none`.
unfoldable pub insert_loop :
    (f : ℕ) → Node → (order : ℕ) → BuddyAllocator → Option (Node × ℕ × BuddyAllocator)
insert_loop zero n order b = none
insert_loop (suc f) n order b =
    let addr2 = bit_xor n.addr n.size in
    let b' = set_nodes order (remove_at addr2 (nodes order b)) b in
    let next = insert_loop f (record n { size = n.size * 2 }) (suc order) b' in
    if ltb addr2 n.addr
      || ltb b.start addr2
      || ltb b.meta_start (addr2 + n.size)
      || is_alloced b addr2
    then some (n, order, b)
    else elim (node_at addr2 (nodes order b)) [
      | none ↦ none
      | some m ↦
          if not (n.size == m.size)
          then some (n, order, b)
          else if suc order == b.max_order
          then some (record n { size = n.size * 2 }, suc order, b')
          else next
    ]

unfoldable pub insert_node : Node → BuddyAllocator → Option BuddyAllocator
insert_node n b = elim (insert_loop max_order_count n (get_order b n.size) b) [
  | none ↦ none
  | some (m, order, b') ↦ some (set_nodes order (m ∷ nodes order b') b')
]

unfoldable pub dealloc : Allocation → BuddyAllocator → Option BuddyAllocator
dealloc m b =
    let b' = set_is_alloced m.addr false b in
    if ltb m.addr b.start || ltb b.meta_start (m.addr + m.len)
    then some b
    else if not (is_alloced b m.addr)
    then none
    else insert_node (record { addr = m.addr; size = m.len })
        (record b' { free_space = b.free_space + m.len })
