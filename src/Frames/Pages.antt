-- ===== src/Frames/Pages.antt =====
-- The walk of the two levels of page tables of i386, and mapping and unmapping one page, in
-- arch/i386/memory/paging.c. Memory holds, at the address of an entry, its 32-bit word.
use horizon_os.Prelude.{
  ℕ, ◌+◌, ◌-◌, ◌*◌, ◌/◌, ◌%◌, ◌^◌, Bool, false, not, ◌&&◌, Option, none, some, List, ◌∷◌, bit, leb,
  ltb, ◌==◌, if◌then◌else◌,
}
use horizon_os.Prelude.Bits.{set_bit, clear_bit}
use horizon_os.Frames.{
  Frames, set_frame, pte_set_frame, pte_present, pte_read_write, pte_user_supervisor, set_if,
}

-- The tables and all other memory, the heap's end, the map of frames, the register CR3, and the pages
-- whose translation was invalidated, the newest first.
pub record Space : Type 0 where
  pub memory : ℕ → ℕ
  pub placement : ℕ
  pub map : Frames
  pub cr3 : ℕ
  pub invalidated : List ℕ

abbrev pub page_base : ℕ → ℕ
page_base addr = addr - addr % 4096

abbrev pub write_at : ℕ → ℕ → Space → Space
write_at at word s = record s { memory = λ a. if a == at then word else s.memory a }

abbrev pub aligned : ℕ → ℕ
aligned p = if p % 4096 == 0 then p else (page_base p + 4096) % 2 ^ 32

-- `kmalloc_a(4096)` of a 32-bit heap, and `memset` of the page.
unfoldable pub zeroed_page : Space → ℕ × Space
zeroed_page s =
    let page = aligned s.placement in
    (
      page,
      record s {
        placement = (page + 4096) % 2 ^ 32;
        memory = λ a. if leb page a && ltb a (page + 4096) then 0 else s.memory a;
      },
    )

-- Where the directory of `cr3` has the entry for `addr`.
abbrev pub pde_address : ℕ → ℕ → ℕ
pde_address addr cr3 = page_base cr3 + addr / 2 ^ 22 * 4

-- The directory afterwards has a table for `addr`; where there was none, a new one.
unfoldable pub with_table : ℕ → ℕ → Space → Space
with_table addr cr3 s =
    let (page, s') = zeroed_page s in
    if bit pte_present (s.memory (pde_address addr cr3))
    then s
    else write_at (pde_address addr cr3) (set_bit pte_read_write (set_bit pte_present page)) s'

abbrev pub pte_address : ℕ → ℕ → Space → ℕ
pte_address addr cr3 s = page_base (s.memory (pde_address addr cr3)) + addr / 2 ^ 12 % 2 ^ 10 * 4

-- The address of the entry, with `make` false and true.
unfoldable pub find_page : ℕ → ℕ → Space → Option ℕ
find_page addr cr3 s =
    if bit pte_present (s.memory (pde_address addr cr3))
    then some (pte_address addr cr3 s)
    else none

unfoldable pub make_page : ℕ → ℕ → Space → ℕ × Space
make_page addr cr3 s = let s' = with_table addr cr3 s in (pte_address addr cr3 s', s')

-- The entry that `map_page` leaves.
abbrev pub mapped_entry : Bool → Bool → ℕ → ℕ → ℕ
mapped_entry iskernel writeable phys pte =
    let present = set_bit pte_present (pte_set_frame (phys / 0x1000) pte) in
    set_if (not iskernel) pte_user_supervisor
      (if writeable then set_bit pte_read_write present else clear_bit pte_read_write present)

unfoldable pub i386_map_page : ℕ → ℕ → Bool → Bool → ℕ → Space → Space
i386_map_page virt_addr phys_addr iskernel writeable cr3 s =
    let virt = page_base virt_addr in
    let phys = page_base phys_addr in
    let (at, s') = make_page virt cr3 s in
    let mapped = write_at at (mapped_entry iskernel writeable phys (s'.memory at)) s' in
    record mapped { map = set_frame phys s'.map; invalidated = virt ∷ s'.invalidated }

unfoldable pub i386_unmap_page : ℕ → ℕ → Space → ℕ × Space
i386_unmap_page virt_addr cr3 s =
    let virt = page_base virt_addr in
    elim (find_page virt cr3 s) [
      | none ↦ (0, s)
      | some at ↦
          let pte = s.memory at in
          let cleared = write_at at 0 s in
          if not (bit pte_present pte) then (0, s) else (
            page_base pte,
            if s.cr3 == cr3 then record cleared { invalidated = virt ∷ s.invalidated } else cleared,
          )
    ]

unfoldable pub i386_is_page_mapped : ℕ → ℕ → Space → Bool
i386_is_page_mapped virt_addr cr3 s = elim (find_page virt_addr cr3 s) [
  | none ↦ false
  | some at ↦ bit pte_present (s.memory at)
]
