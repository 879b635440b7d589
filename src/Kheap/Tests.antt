-- ===== src/Kheap/Tests.antt =====
-- The allocator from an address inside a page.
use horizon_os.Prelude.{◌+◌, ◌≤◌, ◌<◌, ◌≡◌, refl, List, [], ◌∷◌, arith}
use horizon_os.Kheap.{Kheap, kmalloc, kmalloc_a, kmalloc_az, align_up, page_size}
use horizon_os.Kheap.Blocks.{
  Request, plain, aligned, zeroed, serve, demand, blocks, InOrder, blocks-InOrder, serve_block,
}

abbrev heap : Kheap
heap = record { placement_address = 10000; memory = λ a. 7 }

abbrev requests : List Request
requests = plain 100 ∷ aligned 64 ∷ zeroed 4096 ∷ []

blocks-requests : blocks requests heap ≡ (10000, 100) ∷ (12288, 64) ∷ (16384, 4096) ∷ []
unfolding blocks serve kmalloc kmalloc_a kmalloc_az align_up
blocks-requests = refl

blocks-InOrder_example : InOrder 10000 30000 (blocks requests heap)
unfolding demand
blocks-InOrder_example = blocks-InOrder requests heap 30000 (omega arith) (omega arith)

serve_block_example :
    let (ret, h') = serve (aligned 64) heap in
    (10000 ≤ ret) × (ret < 10000 + page_size) × (h'.placement_address ≡ ret + 64)
serve_block_example = serve_block (aligned 64) heap (omega arith)
