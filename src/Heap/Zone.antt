-- ===== src/Heap/Zone.antt =====
-- The free list of a zone: nodes of whole chunks, in order, with a gap between any two.
use aurora_os_old.Prelude.{
  ℕ, suc, ◌+◌, ◌-◌, ◌*◌, ◌/◌, ◌%◌, ◌^◌, ◌≤◌, ◌<◌, ◌≡◌, refl, ◌∙◌, ap, max, List, [], ◌∷◌, le→ltb,
  le→leb, word_mod, arith,
}
use aurora_os_old.Misc.{align_down, align_up}
use aurora_os_old.Misc.Align.{align_down_lem, align_up_lem}
use aurora_os_old.Heap.{Node, shrink, remove, resize, chunk_size, dealloc_size}

pub record IsNode (n : Node) : Type 0 where
  pub addr_chunks : n.addr % 32 ≡ 0
  pub size_chunks : n.size % 32 ≡ 0
  pub nonempty : 32 ≤ n.size

-- The nodes lie between `lo` and `hi`, in order, and no two touch.
abbrev pub Spaced : ℕ → ℕ → List Node → Type 0
Spaced lo hi [] = Unit
Spaced lo hi (n ∷ ns) =
    (lo ≤ n.addr) × IsNode n × (n.addr + n.size ≤ hi) × Spaced (suc (n.addr + n.size)) hi ns

abbrev pub total : List Node → ℕ
total [] = 0
total (n ∷ ns) = n.size + total ns

-- whole chunks for `size` bytes
abbrev pub chunks : ℕ → ℕ
chunks size = (size + 31) / 32 * 32

max_chunk : (align : ℕ) → align ≤ 32 → max align 32 ≡ 2 ^ 5
max_chunk align h = omega arith

pub dealloc_size-chunks :
    (size align : ℕ) → align ≤ 32 → size + 31 < word_mod → dealloc_size size align ≡ chunks size
unfolding dealloc_size
dealloc_size-chunks size align h small =
    let e : max 32 align ≡ 2 ^ 5 = omega arith in
    ap (λ a. align_up size a) e ∙ align_up_lem 5 size (omega arith) (omega arith)

-- the address that `resize` computes
resize_addr :
    (n : Node) (size align : ℕ)
    → align ≤ 32
    → IsNode n
    → size ≤ n.size
    → n.addr + n.size < word_mod
    → align_down (n.addr + (n.size - size)) (max align chunk_size) ≡ n.addr + (n.size - chunks size)
resize_addr n size align h i fits small =
    ap (λ a. align_down (n.addr + (n.size - size)) a) (max_chunk align h)
    ∙ align_down_lem 5 (n.addr + (n.size - size)) (omega arith) (omega arith)
    ∙ omega (arith, i.addr_chunks, i.size_chunks)

-- For an alignment of at most a chunk, a node that is larger than the chunks needed shrinks by
-- just these, and one that has exactly these is removed.
pub resize-shrink :
    (n : Node) (size align : ℕ)
    → align ≤ 32
    → IsNode n
    → n.addr + n.size < word_mod
    → 0 < size
    → chunks size < n.size
    → resize n size align
      ≡ (shrink (n.addr + (n.size - chunks size)), record n { size = n.size - chunks size })
unfolding resize
resize-shrink n size align h i small pos fits =
    let a = n.addr + (n.size - chunks size) in
    let diff : a - n.addr ≡ n.size - chunks size = omega arith in
    rw
      (
        resize_addr n size align h i (omega arith) small,
        le→ltb n.size size (omega arith),
        le→ltb a n.addr (omega arith),
        diff,
        le→leb chunk_size (n.size - chunks size) (omega (arith, i.size_chunks)),
      )
      refl

pub resize-remove :
    (n : Node) (size align : ℕ)
    → align ≤ 32
    → IsNode n
    → n.addr + n.size < word_mod
    → 0 < size
    → chunks size ≡ n.size
    → resize n size align ≡ (remove n.addr, n)
unfolding resize
resize-remove n size align h i small pos fits =
    let e : n.addr + (n.size - chunks size) ≡ n.addr = omega arith in
    let diff : n.addr - n.addr ≡ 0 = omega arith in
    rw
      (
        resize_addr n size align h i (omega arith) small ∙ e,
        le→ltb n.size size (omega arith),
        le→ltb n.addr n.addr (omega arith),
        diff,
      )
      refl
