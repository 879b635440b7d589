-- ===== src/Kheap/Blocks.antt =====
-- The blocks that a run of requests is given.
use horizon_os.Prelude.{
  ℕ, ◌+◌, ◌-◌, ◌%◌, ◌^◌, ◌≤◌, ◌<◌, ◌≡◌, refl, subst, ◌&&◌, List, [], ◌∷◌, arith, ltb, leb,
  if◌then◌else◌,
}
use horizon_os.Kheap.{
  Kheap, page_size, align_up, kmalloc, kmalloc_a, kmalloc_p, kmalloc_ap, kmalloc_az, clear,
}

-- One call of the allocator, with the size asked for.
pub data Request : Type 0 where
  plain aligned with_phys aligned_phys zeroed : ℕ → Request

abbrev pub size : Request → ℕ
size (plain sz) = sz
size (aligned sz) = sz
size (with_phys sz) = sz
size (aligned_phys sz) = sz
size (zeroed sz) = sz

-- The address that the call returns, and the heap that it leaves.
unfoldable pub serve : Request → Kheap → ℕ × Kheap
serve (plain sz) h = kmalloc sz h
serve (aligned sz) h = kmalloc_a sz h
serve (with_phys sz) h = let (ret, phys, h') = kmalloc_p sz h in (ret, h')
serve (aligned_phys sz) h = let (ret, phys, h') = kmalloc_ap sz h in (ret, h')
serve (zeroed sz) h = kmalloc_az sz h

-- The blocks of the calls, made one after another: address and size.
unfoldable pub blocks : List Request → Kheap → List (ℕ × ℕ)
blocks [] h = []
blocks (r ∷ rs) h = let (ret, h') = serve r h in (ret, size r) ∷ blocks rs h'

-- An upper bound of what the calls take: each may lose a page to alignment.
unfoldable pub demand : List Request → ℕ
demand [] = 0
demand (r ∷ rs) = size r + page_size + demand rs

-- Every block starts at or above `a`, ends at or below `b`, and the next one starts at or above
-- its end.
abbrev pub InOrder : ℕ → ℕ → List (ℕ × ℕ) → Type 0
InOrder a b [] = a ≤ b
InOrder a b ((start, sz) ∷ rest) = (a ≤ start) × InOrder (start + sz) b rest

pub align_up_bounds :
    (a : ℕ)
    → a + page_size ≤ 2 ^ 64
    → (a ≤ align_up a) × (align_up a < a + page_size) × (align_up a % page_size ≡ 0)
unfolding align_up
align_up_bounds a h = ground arith

-- What one call does where the addresses do not run out: the block starts at or above the placement
-- address and at most a page above it, and the placement address moves to its end.
pub serve_block :
    (r : Request) (h : Kheap)
    → h.placement_address + size r + page_size ≤ 2 ^ 64 - 1
    → let (ret, h') = serve r h in
      (h.placement_address ≤ ret)
      × (ret < h.placement_address + page_size)
      × (h'.placement_address ≡ ret + size r)
unfolding serve kmalloc kmalloc_a kmalloc_p kmalloc_ap kmalloc_az
serve_block (plain sz) h fits = omega arith
serve_block (aligned sz) h fits = omega (arith, align_up_bounds h.placement_address (omega arith))
serve_block (with_phys sz) h fits = omega arith
serve_block (aligned_phys sz) h fits =
    omega (arith, align_up_bounds h.placement_address (omega arith))
serve_block (zeroed sz) h fits = omega (arith, align_up_bounds h.placement_address (omega arith))

-- Where the 64-bit addresses below `limit` suffice for all the requests, their blocks lie in order,
-- and so apart from one another, between the placement address and `limit`.
pub blocks-InOrder :
    (rs : List Request) (h : Kheap) (limit : ℕ)
    → h.placement_address + demand rs ≤ limit
    → limit < 2 ^ 64
    → InOrder h.placement_address limit (blocks rs h)
unfolding blocks demand
blocks-InOrder [] h limit fits small = omega arith
blocks-InOrder (r ∷ rs) h limit fits small =
    let b = serve_block r h (omega arith) in
    let rest : InOrder (serve r h).1.placement_address limit (blocks rs (serve r h).1) =
      blocks-InOrder rs (serve r h).1 limit (omega arith) small in
    (b.0, subst (λ a. InOrder a limit (blocks rs (serve r h).1)) b.2 rest)

-- Where the placement address is a page or more below 2^64, the calls that align answer a page
-- boundary, and `kmalloc_ap` stores the address that it answers.
pub aligned_block :
    (sz : ℕ) (h : Kheap)
    → h.placement_address + page_size ≤ 2 ^ 64
    → ((kmalloc_a sz h).0 % page_size ≡ 0)
      × ((kmalloc_az sz h).0 % page_size ≡ 0)
      × ((kmalloc_ap sz h).0 % page_size ≡ 0)
      × ((kmalloc_ap sz h).1 ≡ (kmalloc_ap sz h).0)
unfolding kmalloc_a kmalloc_ap kmalloc_az
aligned_block sz h fits = let a = (align_up_bounds h.placement_address fits).2 in (a, a, a, refl)

-- `kmalloc_az` clears the bytes of its block and changes no other byte.
pub zeroed_block :
    (sz a : ℕ) (h : Kheap)
    → let (ret, h') = kmalloc_az sz h in
      h'.memory a ≡ (if leb ret a && ltb a (ret + sz) then 0 else h.memory a)
unfolding kmalloc_az clear
zeroed_block sz a h = refl
