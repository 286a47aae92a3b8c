-- ===== src/BuddyAllocator/Tests.antt =====
-- A zone of two pages from the address 0 on.
use aurora_os_old.Prelude.{◌≡◌, refl, false, Option, some, [], ◌∷◌, arith}
use aurora_os_old.BuddyAllocator.{
  Node, BuddyAllocator, nodes, set_nodes, get_order, insert_node, oalloc,
}
use aurora_os_old.ZoneManager.{Allocation}
use aurora_os_old.BuddyAllocator.Sizes.{Sized}
use aurora_os_old.BuddyAllocator.Given.{IsGiven, oalloc-IsGiven}
use aurora_os_old.BuddyAllocator.Merge.{insert_node-unmerged}

abbrev lower : Node
lower = record { addr = 0; size = 4096 }

abbrev upper : Node
upper = record { addr = 4096; size = 4096 }

abbrev two_pages : BuddyAllocator
two_pages = record {
  start = 0;
  meta_start = 8192;
  bitmap = λ i. false;
  olist = (upper ∷ []) ∷ [] ∷ [] ∷ [];
  max_order = 1;
  min_order_size = 4096;
  min_order_bits = 12;
  free_space = 4096;
}

-- The lower page stays beside the upper one, which is its buddy and free.
insert_node-unmerged_example :
    insert_node lower two_pages
    ≡ some (
        set_nodes
          (get_order two_pages 4096)
          (lower ∷ nodes (get_order two_pages 4096) two_pages)
          two_pages)
insert_node-unmerged_example = insert_node-unmerged lower two_pages (omega arith) (omega arith)

-- both pages in one block, which is split
abbrev one_block : BuddyAllocator
one_block = record two_pages {
  olist = [] ∷ (record { addr = 0; size = 8192 } ∷ []) ∷ [] ∷ [];
  free_space = 8192;
}

one_block-Sized : Sized 12 one_block.olist
one_block-Sized = (tt, ((refl, tt), (tt, tt)))

oalloc-IsGiven_example :
    (r : Option Allocation × BuddyAllocator) × (oalloc 0 one_block ≡ some r)
    × IsGiven 12 0 one_block r
oalloc-IsGiven_example = oalloc-IsGiven 12 0 one_block (omega arith) one_block-Sized
