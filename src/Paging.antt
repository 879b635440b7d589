-- ===== src/Paging.antt =====
-- The 4-level page tables of arch/x86_64/memory/paging.c and mm/mm.c. The heap's `memory` holds, at
-- the address of an entry, its 64-bit word. `x & 0xFFF` is `x % 4096`, and `x | (1 << n)` adds the
-- bit where it is missing. Log output is left out.
pub mod Split
pub mod Walk
pub mod Mapping
mod Tests
use horizon_os.Prelude.{
  bit, ℕ, zero, suc, ◌+◌, ◌-◌, ◌*◌, ◌/◌, ◌%◌, ◌^◌, Bool, true, false, Option, none, some, List, [],
  ◌∷◌, leb, ◌==◌, if◌then◌else◌,
}
pub use horizon_os.Prelude.Bits.{set_bit, clear_bit}
use horizon_os.Kheap.{Kheap, kmalloc_az, page_size, add_addr}

-- What is told to the processor: one page's translation is stale, or all are.
pub data Flush : Type 0 where
  page : ℕ → Flush
  everything : Flush

-- The heap with the tables, the register CR3, the offset of the direct map, where the kernel is
-- loaded, and the flushes so far, the newest first.
pub record Tables : Type 0 where
  pub heap : Kheap
  pub cr3 : ℕ
  pub hhdm_offset : ℕ
  pub kernel_virt_base : ℕ
  pub kernel_phys_base : ℕ
  pub flushes : List Flush

-- `to | (from & (1 << n))`
abbrev pub copy_bit : ℕ → ℕ → ℕ → ℕ
copy_bit n from to = if bit n from then set_bit n to else to

abbrev pub page_present : ℕ
page_present = 0

abbrev pub page_write : ℕ
page_write = 1

abbrev pub page_user : ℕ
page_user = 2

abbrev pub page_ps : ℕ
page_ps = 7

abbrev pub page_nx : ℕ
page_nx = 63

-- `PAGE_GET_ADDR`: bits 12 to 51.
unfoldable pub page_get_addr : ℕ → ℕ
page_get_addr entry = entry % 2 ^ 52 - entry % 2 ^ 12

unfoldable pub virt_to_phys : Tables → ℕ → ℕ
virt_to_phys t addr =
    if leb t.kernel_virt_base addr
    then add_addr (addr - t.kernel_virt_base) t.kernel_phys_base
    else (addr + 2 ^ 64 - t.hhdm_offset) % 2 ^ 64

unfoldable pub phys_to_virt : Tables → ℕ → ℕ
phys_to_virt t addr = add_addr addr t.hhdm_offset

unfoldable pub read : Tables → ℕ → ℕ
read t a = t.heap.memory a

unfoldable pub write : ℕ → ℕ → Tables → Tables
write a v t = record t {
  heap = record t.heap { memory = λ b. if b == a then v else t.heap.memory b };
}

unfoldable pub flush : Flush → Tables → Tables
flush f t = record t { flushes = f ∷ t.flushes }

-- A new table, cleared: its virtual address.
unfoldable pub new_table : Tables → ℕ × Tables
new_table t = let (a, heap') = kmalloc_az page_size t.heap in (a, record t { heap = heap' })

-- The loop of `split_huge_entry`: entries `0` to `n - 1`. The bits of the frame and of the flags lie
-- apart, so `|` is a sum.
unfoldable pub fill_split : ℕ → ℕ → ℕ → ℕ → ℕ → Tables → Tables
fill_split base step flags table zero t = t
fill_split base step flags table (suc i) t =
    write (table + 8 * i) (base + i * step + flags) (fill_split base step flags table i t)

unfoldable pub huge_flags : ℕ → ℕ → ℕ
huge_flags huge step =
    let flags = huge - page_get_addr huge in
    if step == page_size then clear_bit page_ps flags else flags

unfoldable pub huge_base : ℕ → ℕ → ℕ
huge_base huge step = page_get_addr huge - page_get_addr huge % (step * 512)

unfoldable pub split_huge_entry : ℕ → ℕ → Tables → ℕ × Tables
split_huge_entry huge step t =
    let (table, t₁) = new_table t in
    (
      virt_to_phys t table,
      fill_split (huge_base huge step) step (huge_flags huge step) table 512 t₁,
    )

-- The entry of a table for an index.
unfoldable pub entry_at : ℕ → ℕ → ℕ
entry_at table i = table + 8 * i

-- A level that is missing: `none` if it is not to be created, else a new table, linked in.
unfoldable pub missing : Bool → ℕ → Tables → Option ℕ × Tables
missing create entry t =
    let (table, t₁) = new_table t in
    if create
    then (
      some table,
      write entry (set_bit page_write (set_bit page_present (virt_to_phys t₁ table))) t₁,
    )
    else (none, t)

-- A huge page is split in place.
unfoldable pub split_at : ℕ → ℕ → ℕ → Tables → Tables
split_at step entry cr3 t =
    let huge = read t entry in
    let (split, t₁) = split_huge_entry huge step t in
    let linked = set_bit page_write (set_bit page_present split) in
    let t₂ = write entry (copy_bit page_nx huge (copy_bit page_user huge linked)) t₁ in
    if cr3 == t.cr3 then flush everything t₂ else t₂

-- From the entry of the top level, which is never huge, to the table below.
unfoldable pub next_top : Bool → ℕ → Tables → Option ℕ × Tables
next_top create entry t =
    if bit page_present (read t entry)
    then (some (phys_to_virt t (page_get_addr (read t entry))), t)
    else missing create entry t

-- The same for a level whose entries may be huge; one of the split table maps `step` bytes.
unfoldable pub next_level : Bool → ℕ → ℕ → ℕ → Tables → Option ℕ × Tables
next_level create step entry cr3 t =
    let t' = if bit page_ps (read t entry) then split_at step entry cr3 t else t in
    if bit page_present (read t entry)
    then (some (phys_to_virt t' (page_get_addr (read t' entry))), t')
    else missing create entry t

abbrev pub index : ℕ → ℕ → ℕ
index shift vaddr = vaddr / 2 ^ shift % 512

-- On with the table that was found, or back with NULL.
unfoldable pub and_then : Option ℕ × Tables → (ℕ → Tables → Option ℕ × Tables) → Option ℕ × Tables
and_then (none, t) f = (none, t)
and_then (some table, t) f = f table t

-- The address of the page table entry, or `none` for NULL.
unfoldable pub get_page_entry : ℕ → Bool → ℕ → Tables → Option ℕ × Tables
get_page_entry vaddr create cr3 t =
    let pml4 = phys_to_virt t (page_get_addr cr3) in
    and_then (next_top create (entry_at pml4 (index 39 vaddr)) t) λ pud t₁.
      and_then (next_level create (2 ^ 21) (entry_at pud (index 30 vaddr)) cr3 t₁) λ pd t₂.
        and_then (next_level create page_size (entry_at pd (index 21 vaddr)) cr3 t₂)
          λ pt t₃. (some (entry_at pt (index 12 vaddr)), t₃)

abbrev pub align_down : ℕ → ℕ
align_down a = a - a % 4096

-- The entry that `map_page` writes.
unfoldable pub leaf : ℕ → Bool → Bool → ℕ
leaf phys_addr iskernel writeable =
    let present = set_bit page_present (align_down phys_addr) in
    let writable = if writeable then set_bit page_write present else present in
    if iskernel then writable else set_bit page_user writable

-- `map_page` from the answer of the walk on; `none` is NULL, which is only logged.
unfoldable pub map_at : ℕ → ℕ → Option ℕ × Tables → Tables
map_at virt_addr entry (none, t) = t
map_at virt_addr entry (some pte, t) = flush (page virt_addr) (write pte entry t)

unfoldable pub map_page : ℕ → ℕ → Bool → Bool → ℕ → Tables → Tables
map_page virt_addr phys_addr iskernel writeable cr3 t =
    map_at (align_down virt_addr) (leaf phys_addr iskernel writeable)
      (get_page_entry (align_down virt_addr) true cr3 t)

-- The body of the loop of `map_physical_range`: a page that is mapped already is left alone.
unfoldable pub map_once : ℕ → Bool → Bool → ℕ → Tables → Tables
map_once phys_it iskernel writeable cr3 t =
    let virt = phys_to_virt t phys_it in
    let (pte, t₁) = get_page_entry virt false cr3 t in
    let mapped : Bool = elim pte [ none ↦ false | some pte ↦ bit page_present (read t₁ pte) ] in
    if mapped then t₁ else map_page virt phys_it iskernel writeable cr3 t₁

-- The loop, with `n` pages to go.
unfoldable pub map_pages : ℕ → ℕ → Bool → Bool → ℕ → Tables → Tables
map_pages zero phys_it iskernel writeable cr3 t = t
map_pages (suc n) phys_it iskernel writeable cr3 t =
    map_pages n (phys_it + 4096) iskernel writeable cr3 (map_once phys_it iskernel writeable cr3 t)

-- The pages of a range whose end is no address above the last page.
unfoldable pub map_physical_range : ℕ → ℕ → Bool → Bool → ℕ → Tables → Tables
map_physical_range phys_addr size iskernel writeable cr3 t =
    let start = align_down phys_addr in
    let end = align_down (add_addr phys_addr (size + 0xFFF)) in
    map_pages ((end - start) / 4096) start iskernel writeable cr3 t

-- `unmap_page` from the answer of the walk on: the frame that was mapped, or 0.
unfoldable pub unmap_at : ℕ → ℕ → Option ℕ × Tables → ℕ × Tables
unmap_at addr pml4_addr (none, t) = (0, t)
unmap_at addr pml4_addr (some pte, t) =
    let entry = read t pte in
    let t₁ = write pte 0 t in
    let t₂ = if pml4_addr == page_get_addr t.cr3 then flush (page addr) t₁ else t₁ in
    if bit page_present entry then (page_get_addr entry, t₂) else (0, t)

unfoldable pub unmap_page : ℕ → ℕ → Tables → ℕ × Tables
unmap_page addr pml4_addr t =
    unmap_at (align_down addr) pml4_addr (get_page_entry (align_down addr) false pml4_addr t)
