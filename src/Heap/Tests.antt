-- ===== src/Heap/Tests.antt =====
-- A zone of one page with two free nodes.
use aurora_os_old.Prelude.{◌+◌, ◌≡◌, refl, [], ◌∷◌, arith}
use aurora_os_old.Misc.{align_up, align_down}
use aurora_os_old.Heap.{Node, HeapZone, resize, alloc_nodes, zone_alloc, dealloc_size}
use aurora_os_old.Heap.Zone.{Spaced}
use aurora_os_old.Heap.Take.{zone_alloc-Restores, Restores}

abbrev low : Node
low = record { addr = 4224; size = 32 }

abbrev high : Node
high = record { addr = 4608; size = 96 }

abbrev zone : HeapZone
zone = record { addr = 4096; mem_len = 4096; free_space = 128; nodes = low ∷ high ∷ [] }

spaced : Spaced 4224 8192 (low ∷ high ∷ [])
spaced = (
  omega arith,
  record { addr_chunks = refl; size_chunks = refl; nonempty = omega arith },
  omega arith,
  (
    omega arith,
    record { addr_chunks = refl; size_chunks = refl; nonempty = omega arith },
    omega arith,
    tt,
  ),
)

zone_alloc-Restores_example :
    Restores 8192 40 8 (omega arith) (omega arith) (omega arith) 4224 zone (zone_alloc zone 40 8)
zone_alloc-Restores_example =
    zone_alloc-Restores 8192 40 8 (omega arith) (omega arith) (omega arith) 4224 zone spaced refl

-- With an alignment above a chunk, 64, the block taken is the first node, 32 bytes up to 4256, and
-- 64 bytes are given back, up to 4288.
beyond : (zone_alloc zone 32 64).0 + dealloc_size 32 64 ≡ 4256 + 32
unfolding zone_alloc alloc_nodes resize align_down dealloc_size align_up
beyond = refl
