-- ===== src/BuddyAllocator/Given.antt =====
-- `split_order` and `oalloc`: they end without a panic, a block has the size of its order, and a request
-- is refused only where there is none.
use aurora_os_old.Prelude.{
  ℕ, zero, suc, ◌+◌, ◌≤◌, ◌<◌, ◌≡◌, refl, ap, sym, ◌∙◌, inl, inr, Bool, true, false, Bool-cases,
  Option, none, some, some_inj, none_ne, List, [], ◌∷◌, set_elem, length, length-set_elem,
  get_elem?-lt, get_elem?-set_elem, ltb, wsub, ◌^◌, arith,
}
use native.Mathlib.Decide.{dec_lt}
use mathlib.Core.Path.{subst}
use aurora_os_old.ZoneManager.{Allocation}
use aurora_os_old.BuddyAllocator.{
  Node, BuddyAllocator, nodes, set_nodes, halves, split_list, split_order, take_first, oalloc,
  set_is_alloced,
}
use aurora_os_old.BuddyAllocator.Sizes.{
  AllSize, Sized, list-cases, set_elem-Sized, nodes-AllSize, halves-AllSize, alloced-Sized,
}

Filled : ℕ → BuddyAllocator → Type 0
Filled order b = (n : Node) × (rest : List Node) × (nodes order b ≡ n ∷ rest)

nodes-set_nodes :
    (order : ℕ) (xs : List Node) (b : BuddyAllocator)
    → order < length b.olist
    → nodes order (set_nodes order xs b) ≡ xs
unfolding nodes set_nodes
nodes-set_nodes order xs b h =
    let (old, here) = get_elem?-lt order b.olist h in
    rw (nodes, set_nodes, get_elem?-set_elem order old xs b.olist here) refl

longer :
    (order : ℕ) (rest : List Node) (b : BuddyAllocator)
    → order < length b.olist
    → order < length (set_nodes (suc order) rest b).olist
unfolding set_nodes
longer order rest b h = omega (arith, h, length-set_elem (suc order) rest b.olist)

-- No list from the order `low` up to the highest one has a block.
abbrev pub NoneFrom : (low : ℕ) → BuddyAllocator → Type 0
NoneFrom low b = (j : ℕ) → low ≤ j → j ≤ b.max_order → nodes j b ≡ []

NoneFrom-suc :
    (low : ℕ) (b : BuddyAllocator) → nodes low b ≡ [] → NoneFrom (suc low) b → NoneFrom low b
NoneFrom-suc low b e later j h k = elim (dec_lt low j) [
  | yes above ↦ later j (omega arith) k
  | no same ↦ let eq : low ≡ j = omega arith in subst (λ i. nodes i b ≡ []) eq e
]

-- An answer of `split_order` for the order `suc order`
record IsSplit (k order : ℕ) (b : BuddyAllocator) (r : Bool × BuddyAllocator) : Type 0 where
  sized : Sized k r.1.olist
  same_length : length r.1.olist ≡ length b.olist
  filled : r.0 ≡ true → Filled order r.1
  refused : r.0 ≡ false → NoneFrom (suc order) b

split_list-IsSplit :
    (k order : ℕ) (b c : BuddyAllocator)
    → Filled (suc order) c
    → Sized k c.olist
    → length c.olist ≡ length b.olist
    → order < length b.olist
    → (r : Bool × BuddyAllocator) × (split_list order c (nodes (suc order) c) ≡ some r)
      × IsSplit k order b r
unfolding split_list set_nodes Filled halves
split_list-IsSplit k order b c (n, rest, e) s len h =
    let sized : AllSize (2 ^ (k + suc order)) (n ∷ rest) =
      subst (λ t. AllSize (2 ^ (k + suc order)) t) e (nodes-AllSize k (suc order) c s) in
    let up : k + suc order ≡ suc (k + order) = omega arith in
    let half : n.size ≡ 2 ^ suc (k + order) = sized.0 ∙ ap (λ x. 2 ^ x) up in
    let halved = halves-AllSize (k + order) n (nodes order c) half (nodes-AllSize k order c s) in
    let halved_list = halves n (nodes order c) in
    (
      (true, set_nodes order halved_list (set_nodes (suc order) rest c)),
      rw (split_list, e) refl,
      record {
        sized =
            set_elem-Sized k order halved_list (set_elem (suc order) rest c.olist) halved
              (set_elem-Sized k (suc order) rest c.olist sized.1 s);
        same_length =
            length-set_elem order halved_list (set_elem (suc order) rest c.olist)
            ∙ length-set_elem (suc order) rest c.olist
            ∙ len;
        filled = λ _. (
          _,
          _,
          nodes-set_nodes order halved_list (set_nodes (suc order) rest c)
              (longer order rest c (omega arith)),
        );
        refused = λ f. absurd (cc);
      },
    )

split_order-IsSplit :
    (k f order : ℕ) (b : BuddyAllocator)
    → b.max_order < length b.olist
    → Sized k b.olist
    → 0 < f
    → b.max_order + 2 ≤ f + suc order
    → (r : Bool × BuddyAllocator) × (split_order f (suc order) b ≡ some r) × IsSplit k order b r
unfolding split_order Filled
split_order-IsSplit k zero order b h s pos fuel = absurd (omega arith)
split_order-IsSplit k (suc f) order b h s pos fuel =
    elim (Bool-cases (ltb b.max_order (suc order))) [
      | inl t ↦
          let over : b.max_order < suc order = ground arith in
          (
            (false, b),
            rw (split_order, t) refl,
            record {
              sized = s;
              same_length = refl;
              filled = λ e. absurd (cc);
              refused = λ _ j low high. absurd (omega arith);
            },
          )
      | inr t ↦
          let under : suc order ≤ b.max_order = ground arith in
          elim (list-cases (nodes (suc order) b)) [
            | inr (n, rest, e) ↦
                let (r, q, i) = split_list-IsSplit k order b b (n, rest, e) s refl (omega arith) in
                (r, rw (split_order, t, e) (sym (ap (λ ns. split_list order b ns) e) ∙ q), i)
            | inl e ↦
                let (r, q, i) =
                  split_order-IsSplit k f (suc order) b h s (omega arith) (omega arith) in
                elim (Bool-cases r.0) [
                  | inl a ↦
                      let (r', q', i') =
                        split_list-IsSplit k order b r.1 (i.filled a) i.sized i.same_length
                          (omega arith) in
                      (r', rw (split_order, t, e, q, a) q', i')
                  | inr a ↦ (
                    (false, r.1),
                    rw (split_order, t, e, q, a) refl,
                    record {
                      sized = i.sized;
                      same_length = i.same_length;
                      filled = λ w. absurd (cc);
                      refused = λ _. NoneFrom-suc (suc order) b e (i.refused a);
                    },
                  )
                ]
          ]
    ]

-- What a call of `oalloc` gives: a block of the order's size, or none where there is no block of the order
-- or a higher one; and lists of the right sizes
pub record IsGiven (k order : ℕ) (b : BuddyAllocator) (r : Option Allocation × BuddyAllocator)
    : Type 0 where
  pub block : (m : Allocation) → r.0 ≡ some m → m.len ≡ 2 ^ (k + order)
  pub sized : Sized k r.1.olist
  pub refused : r.0 ≡ none → NoneFrom order b

take_first-IsGiven :
    (k order : ℕ) (b c : BuddyAllocator)
    → Filled order c
    → Sized k c.olist
    → (r : Option Allocation × BuddyAllocator) × (take_first order c ≡ some r) × IsGiven k order b r
unfolding take_first set_nodes Filled
take_first-IsGiven k order b c (n, rest, e) s =
    let sized : AllSize (2 ^ (k + order)) (n ∷ rest) =
      subst (λ t. AllSize (2 ^ (k + order)) t) e (nodes-AllSize k order c s) in
    let m : Allocation = record { addr = n.addr; len = n.size; zindex = 0 } in
    let c' = set_is_alloced n.addr true (set_nodes order rest c) in
    (
      (some m, record c' { free_space = wsub c.free_space n.size }),
      rw (take_first, e) refl,
      record {
        block = λ a x. rw (← some_inj m a x) sized.0;
        sized =
            alloced-Sized k n.addr (set_nodes order rest c)
              (set_elem-Sized k order rest c.olist sized.1 s);
        refused = λ x. absurd (none_ne m (sym x));
      },
    )

refused-IsGiven :
    (k order : ℕ) (b c : BuddyAllocator)
    → Sized k c.olist
    → NoneFrom order b
    → IsGiven k order b (none, c)
refused-IsGiven k order b c s n = record {
  block = λ m x. absurd (none_ne m x);
  sized = s;
  refused = λ _. n;
}

-- Where there is a list for every order up to the highest one, and the free blocks of every order `i`
-- have `2 ^ (k + i)` bytes, `oalloc` ends without a panic, a block that it answers has the size of the
-- order that was asked for, it refuses only where no list from that order on has a block, and the free
-- blocks of every order still have their size.
pub oalloc-IsGiven :
    (k order : ℕ) (b : BuddyAllocator)
    → b.max_order < length b.olist
    → Sized k b.olist
    → (r : Option Allocation × BuddyAllocator) × (oalloc order b ≡ some r) × IsGiven k order b r
unfolding oalloc Filled
oalloc-IsGiven k order b h s = elim (Bool-cases (ltb b.max_order order)) [
  | inl t ↦
      let over : b.max_order < order = ground arith in
      (
        (none, b),
        rw (oalloc, t) refl,
        refused-IsGiven k order b b s (λ j low high. absurd (omega arith)),
      )
  | inr t ↦ elim (list-cases (nodes order b)) [
    | inr (n, rest, e) ↦
        let (r, q, i) = take_first-IsGiven k order b b (n, rest, e) s in (r, rw (oalloc, t, e) q, i)
    | inl e ↦
        let (r, q, i) =
          split_order-IsSplit k (suc b.max_order) order b h s (omega arith) (omega arith) in
        elim (Bool-cases r.0) [
          | inl a ↦
              let (r', q', i') = take_first-IsGiven k order b r.1 (i.filled a) i.sized in
              (r', rw (oalloc, t, e, q, a) q', i')
          | inr a ↦ (
            (none, r.1),
            rw (oalloc, t, e, q, a) refl,
            refused-IsGiven k order b r.1 i.sized (NoneFrom-suc order b e (i.refused a)),
          )
        ]
  ]
]
