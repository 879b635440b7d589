-- ===== src/Kheap.antt =====
-- The bump allocator of mm/kheap.c (the x86_64 build: an address is a 64-bit number, a size a
-- 32-bit one). An operation takes the heap and returns its result beside the new heap.
-- `x & 0xFFF` is `x % 4096`, and `x & ~0xFFF` is `x - x % 4096`.
pub mod Blocks
mod Tests
use horizon_os.Prelude.{ℕ, ◌+◌, ◌-◌, ◌%◌, ◌^◌, Bool, ◌&&◌, ltb, leb, ◌==◌, if◌then◌else◌}

-- `placement_address`, and the bytes of memory that `kmalloc_az` clears.
pub record Kheap : Type 0 where
  pub placement_address : ℕ
  pub memory : ℕ → ℕ

abbrev pub page_size : ℕ
page_size = 4096

-- Addition of two addresses wraps.
abbrev pub add_addr : ℕ → ℕ → ℕ
add_addr a b = (a + b) % 2 ^ 64

-- The next page boundary, unless the address is on one.
unfoldable pub align_up : ℕ → ℕ
align_up a = if a % page_size == 0 then a else add_addr (a - a % page_size) page_size

unfoldable pub kmalloc : ℕ → Kheap → ℕ × Kheap
kmalloc sz h =
    (h.placement_address, record h { placement_address = add_addr h.placement_address sz })

unfoldable pub kmalloc_a : ℕ → Kheap → ℕ × Kheap
kmalloc_a sz h =
    let ret = align_up h.placement_address in
    (ret, record h { placement_address = add_addr ret sz })

-- The second result of `kmalloc_p` and of `kmalloc_ap` is what they store through `phys`.
unfoldable pub kmalloc_p : ℕ → Kheap → ℕ × ℕ × Kheap
unfolding kmalloc
kmalloc_p sz h = let (ret, h') = kmalloc sz h in (ret, h.placement_address, h')

unfoldable pub kmalloc_ap : ℕ → Kheap → ℕ × ℕ × Kheap
unfolding kmalloc
kmalloc_ap sz h =
    let aligned : Kheap = record h { placement_address = align_up h.placement_address } in
    let (ret, h') = kmalloc sz aligned in (ret, aligned.placement_address, h')

-- `memset((void *)start, 0, sz)`
unfoldable pub clear : ℕ → ℕ → (ℕ → ℕ) → ℕ → ℕ
clear start sz memory a = if leb start a && ltb a (start + sz) then 0 else memory a

unfoldable pub kmalloc_az : ℕ → Kheap → ℕ × Kheap
unfolding kmalloc_a
kmalloc_az sz h =
    let (ret, h') = kmalloc_a sz h in (ret, record h' { memory = clear ret sz h'.memory })
