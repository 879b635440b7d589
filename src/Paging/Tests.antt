-- ===== src/Paging/Tests.antt =====
-- Page tables at the addresses 4096 to 16384, in memory that is mapped to itself.
use horizon_os.Prelude.{
  ℕ, ◌+◌, ◌*◌, ◌^◌, ◌≡◌, ◌≢◌, inl, refl, true, [], ◌∷◌, arith, ◌==◌, if◌then◌else◌,
}
use horizon_os.Kheap.{page_size}
use horizon_os.Paging.{
  Tables, page, clear_bit, page_ps, page_get_addr, phys_to_virt, read, entry_at, new_table,
  split_huge_entry, map_page, unmap_page,
}
use horizon_os.Paging.Split.{frame_of, flags_of, split-frame_of}
use horizon_os.Paging.Walk.{last, HasTables}
use horizon_os.Paging.Mapping.{map_page-unmap_page}

abbrev words : ℕ → ℕ
words a = if a == 4096 then 8195 else if a == 8192 then 12291 else if a == 12288 then 16387 else 0

abbrev tables : Tables
tables = record {
  heap = record { placement_address = 32768; memory = words };
  cr3 = 4096;
  hhdm_offset = 0;
  kernel_virt_base = 2 ^ 63;
  kernel_phys_base = 0;
  flushes = [];
}

tables-HasTables : HasTables 4096 4096 tables
unfolding read phys_to_virt page_get_addr entry_at
tables-HasTables = record {
  top_there = refl;
  upper_there = refl;
  upper_small = refl;
  middle_there = refl;
  middle_small = refl;
  not_top = omega arith;
  not_upper = omega arith;
  not_middle = omega arith;
}

map_page-unmap_page_example :
    let t₁ = map_page 4101 40970 true true 4096 tables in
    let (frame, t₂) = unmap_page 4101 4096 t₁ in
    (frame ≡ 40960)
    × ((unmap_page 4101 4096 t₂).0 ≡ 0)
    × ((a : ℕ) → a ≢ last 4096 4096 tables → read t₂ a ≡ read tables a)
    × (t₁.flushes ≡ page 4096 ∷ [])
map_page-unmap_page_example =
    map_page-unmap_page 4101 40970 4096 true true tables tables-HasTables (omega arith)

-- A 2 MiB page at 2^21, present, writable and huge.
split-frame_of_example :
    let e =
      read (split_huge_entry (2 ^ 21 + 131) page_size tables).1 ((new_table tables).0 + 8 * 1) in
    (frame_of e 4096 + 4 ≡ frame_of (2 ^ 21 + 131) (4096 * 512) + 4100)
    × (flags_of e ≡ clear_bit page_ps (flags_of (2 ^ 21 + 131)))
split-frame_of_example =
    split-frame_of (2 ^ 21 + 131) page_size 4100 tables (inl refl) (omega arith)
