-- ===== src/BuddyAllocator/Merge.antt =====
-- `insert_node`, which is to join a freed node with its buddy.
use Prim.Native.Nat.{bit_xor, bit_xor-bitwise, differ}
use aurora_os_old.Prelude.{
  ℕ, zero, suc, ◌+◌, ◌*◌, ◌/◌, ◌%◌, ◌≤◌, ◌<◌, ◌≡◌, ◌≢◌, refl, inl, inr, ◌⊎◌, Bool, true, ◌||◌, some,
  ◌∷◌, lt→ltb, le→ltb, arith,
}
use aurora_os_old.Prelude.Bits.{digits_enough}
use native.Mathlib.Decide.{dec_lt}
use aurora_os_old.BuddyAllocator.{
  Node, BuddyAllocator, nodes, set_nodes, get_order, insert_loop, insert_node,
}

zero-bit_xor : (b : ℕ) → bit_xor 0 b ≡ b
zero-bit_xor b = bit_xor-bitwise 0 b

differ_zero : (x : ℕ) → differ x 0 ≡ x
differ_zero zero = refl
differ_zero (suc x) = refl

bit_xor_digit : (a b : ℕ) → bit_xor a b ≡ bit_xor (a / 2) (b / 2) * 2 + differ (a % 2) (b % 2)
bit_xor_digit zero b = omega (arith, zero-bit_xor b, zero-bit_xor (b / 2))
bit_xor_digit (suc a) b = omega (
  arith,
  bit_xor-bitwise (suc a) b,
  bit_xor-bitwise (suc a / 2) (b / 2),
  digits_enough (λ b. b) differ a (suc a / 2) (suc a / 2) (b / 2) (omega arith) (omega arith),
)

digit-cases : (a : ℕ) → (a % 2 ≡ 0) ⊎ (a % 2 ≡ 1)
digit-cases a = elim (dec_lt (a % 2) 1) [ yes p ↦ inl (omega arith) | no p ↦ inr (omega arith) ]

differ_bound :
    (a b : ℕ) → (differ (a % 2) (b % 2) < 2) × (b % 2 ≡ 1 → differ (a % 2) (b % 2) ≢ a % 2)
differ_bound a b = elim (digit-cases a) [
  | inl x ↦ elim (digit-cases b) [
    | inl y ↦ rw (x, y) (omega arith, λ e. absurd (omega arith))
    | inr y ↦ rw (x, y) (omega arith, λ _. omega arith)
  ]
  | inr x ↦ elim (digit-cases b) [
    | inl y ↦ rw (x, y) (omega arith, λ e. absurd (omega arith))
    | inr y ↦ rw (x, y) (omega arith, λ _. omega arith)
  ]
]

-- The buddy of a block is another one.
bit_xor_ne : (n a b : ℕ) → b ≤ n → 0 < b → bit_xor a b ≢ a
bit_xor_ne zero a b h pos e = omega arith
bit_xor_ne (suc n) a b h pos e =
    let d = bit_xor_digit a b in
    let (small, odd) = differ_bound a b in
    let low : differ (a % 2) (b % 2) ≡ a % 2 = omega (arith, d, e, small) in
    let high : bit_xor (a / 2) (b / 2) ≡ a / 2 = omega (arith, d, e, small) in
    elim (digit-cases b) [
      | inr y ↦ odd y low
      | inl y ↦ bit_xor_ne n (a / 2) (b / 2) (omega arith) (omega arith) high
    ]

or_left : (a b : Bool) → a ≡ true → (a || b) ≡ true
or_left a b h = rw h refl

insert_loop_stop :
    (f order : ℕ) (n : Node) (b : BuddyAllocator)
    → b.start ≤ n.addr
    → 0 < n.size
    → insert_loop (suc f) n order b ≡ some (n, order, b)
unfolding insert_loop
insert_loop_stop f order n b h pos =
    let addr2 = bit_xor n.addr n.size in
    let other = bit_xor_ne n.size n.addr n.size (omega arith) pos in
    elim (dec_lt addr2 n.addr) [
      | yes p ↦ rw (insert_loop, lt→ltb addr2 n.addr p) refl
      | no p ↦
          rw
            (
              insert_loop,
              le→ltb addr2 n.addr (omega arith),
              lt→ltb b.start addr2 (omega (arith, other)),
            )
            refl
    ]

-- For a node that is not empty and does not lie before the start of the zone, `insert_node` never joins
-- it with its buddy: it puts the node, as it is, in front of the list of its order.
pub insert_node-unmerged :
    (n : Node) (b : BuddyAllocator)
    → b.start ≤ n.addr
    → 0 < n.size
    → insert_node n b ≡ some (set_nodes (get_order b n.size) (n ∷ nodes (get_order b n.size) b) b)
unfolding insert_node
insert_node-unmerged n b h pos =
    let stop = insert_loop_stop 31 (get_order b n.size) n b h pos in rw (insert_node, stop) refl
