-- ===== src/Acpi/Find.antt =====
-- kernel/apic/rsdp.c, the x86_64 build: the search for the table of interrupt controllers, and the
-- set-up that uses it. The memory that is read is that of virtual addresses; the pages that are
-- mapped on the way are in the state of the page tables.
use horizon_os.Prelude.{
  ℕ, zero, suc, ◌+◌, ◌-◌, ◌*◌, ◌/◌, ◌%◌, ◌^◌, ◌<◌, ◌≡◌, inl, inr, Bool, true, false, not, Option,
  some, ◌≢◌, arith, leb, ◌==◌, if◌then◌else◌, Bool-cases, ℕ_discrete,
}
use horizon_os.Cstring.{Memory, strncmp}
use horizon_os.Paging.{Tables, map_physical_range}
use horizon_os.Acpi.{Madt, read_u32, read_u64, parse_madt}
use horizon_os.Acpi.Rsdp.{strings_equal, validate_rsdp_checksum}

-- `map_physical_range(phys, 4096, 1, 1, read_cr3())`, with no change to what is read later.
unfoldable pub map_table : ℕ → Tables → Tables
map_table phys t = map_physical_range phys 4096 true true t.cr3 t

-- How many pointers of `size` bytes follow the header of a table.
unfoldable pub num_entries : Memory → ℕ → ℕ → ℕ
num_entries m table size = (read_u32 m (table + 4) + 2 ^ 64 - 36) % 2 ^ 64 / size % 2 ^ 32

-- `entry_ptrs[i]`, of 8 bytes in the XSDT and of 4 in the RSDT.
unfoldable pub entry_ptr : Memory → ℕ → Bool → ℕ → ℕ
entry_ptr m table wide i =
    if wide then read_u64 m (table + 36 + 8 * i) else read_u32 m (table + 36 + 4 * i)

unfoldable pub is_madt : Memory → ℕ → ℕ → Bool
is_madt m literal table = strings_equal (strncmp m table literal 4)

-- The address of an entry's table, in the direct map.
unfoldable pub table_at : Memory → ℕ → ℕ → Bool → ℕ → ℕ
unfolding entry_ptr
table_at m hhdm_offset root wide i = (entry_ptr m root wide i + hhdm_offset) % 2 ^ 64

-- The loops over the pointers: `left` of them are still to be looked at, from `i` on.
unfoldable pub search : Memory → ℕ → ℕ → ℕ → Bool → ℕ → ℕ → Tables → ℕ × Tables
search m literal hhdm_offset root wide i zero t = (0, t)
search m literal hhdm_offset root wide i (suc left) t =
    let t₁ = map_table (entry_ptr m root wide i) t in
    let table = table_at m hhdm_offset root wide i in
    elim (is_madt m literal table) [
      | true ↦ (table, t₁)
      | false ↦ search m literal hhdm_offset root wide (i + 1) left t₁
    ]

-- Whether the XSDT is used, its address or that of the RSDT, and how many tables it lists.
unfoldable pub is_wide : Memory → ℕ → Bool
is_wide m rsdp = leb 2 (m (rsdp + 15))

unfoldable pub root_phys : Memory → ℕ → ℕ
unfolding is_wide
root_phys m rsdp = if is_wide m rsdp then read_u64 m (rsdp + 24) else read_u32 m (rsdp + 16)

unfoldable pub find_madt : Memory → ℕ → ℕ → Tables → ℕ × Tables
find_madt m literal rsdp t =
    let wide = is_wide m rsdp in
    let root = (root_phys m rsdp + t.hhdm_offset) % 2 ^ 64 in
    let n = num_entries m root (if wide then 8 else 4) in
    if rsdp == 0
    then (0, t)
    else search m literal t.hhdm_offset root wide 0 n (map_table (root_phys m rsdp) t)

-- The set-up: `none` where the table does not end. What is known of the controllers is as it was
-- where no root pointer or no table is found.
unfoldable pub initialize_apic : Memory → ℕ → ℕ → Madt → Tables → Option Madt × Tables
unfolding find_madt
initialize_apic m literal rsdp known t =
    let (madt, t₁) = find_madt m literal rsdp t in
    if rsdp == 0
    then (some known, t)
    else if not (validate_rsdp_checksum m rsdp == 0)
    then (some known, t)
    else if madt == 0
    then (some known, t₁)
    else (parse_madt m madt known, t₁)

-- The first of `n` tables that has a mark, or 0.
pub data Listed (test : ℕ → Bool) (at : ℕ → ℕ) (n : ℕ) : ℕ → Type 0 where
  marked :
      (i : ℕ) → i < n → test i ≡ true → ((j : ℕ) → j < i → test j ≡ false) → Listed test at n (at i)
  unmarked : ((j : ℕ) → j < n → test j ≡ false) → Listed test at n 0

search-Listed :
    (m : Memory) (literal hhdm_offset root : ℕ) (wide : Bool) (i left n : ℕ) (t : Tables)
    → i + left ≡ n
    → ((j : ℕ) → j < i → is_madt m literal (table_at m hhdm_offset root wide j) ≡ false)
    → Listed
        (λ j. is_madt m literal (table_at m hhdm_offset root wide j))
        (table_at m hhdm_offset root wide)
        n
        (search m literal hhdm_offset root wide i left t).0
unfolding search
search-Listed m literal hhdm_offset root wide i zero n t sum before =
    unmarked (λ j h. before j (omega arith))
search-Listed m literal hhdm_offset root wide i (suc left) n t sum before =
    elim (Bool-cases (is_madt m literal (table_at m hhdm_offset root wide i))) [
      | inl e ↦ rw (e, search) (marked i (omega arith) e before)
      | inr e ↦
          let passed : (j : ℕ)
              → j < i + 1
              → is_madt m literal (table_at m hhdm_offset root wide j) ≡ false =
            λ j h. elim (ℕ_discrete j i) [
              | yes same ↦ rw same e
              | no ne ↦ before j (omega arith)
            ] in
          rw (e, search)
            (search-Listed m literal hhdm_offset root wide (i + 1) left n _ (omega arith) passed)
    ]

-- For a root pointer other than 0, `find_madt` answers the address of the first table, among those
-- that the XSDT lists or, for revisions below 2, the RSDT, that has the signature of the table of
-- interrupt controllers; it answers 0 where none has.
pub find_madt_lem :
    (m : Memory) (literal rsdp : ℕ) (t : Tables)
    → rsdp ≢ 0
    → let wide = is_wide m rsdp in
      let root = (root_phys m rsdp + t.hhdm_offset) % 2 ^ 64 in
      let at = table_at m t.hhdm_offset root wide in
      Listed
        (λ i. is_madt m literal (at i))
        at
        (num_entries m root (if wide then 8 else 4))
        (find_madt m literal rsdp t).0
unfolding find_madt
find_madt_lem m literal rsdp t some_rsdp =
    let wide = is_wide m rsdp in
    let root = (root_phys m rsdp + t.hhdm_offset) % 2 ^ 64 in
    let n = num_entries m root (if wide then 8 else 4) in
    let test : (rsdp == 0) ≡ false = ground arith in
    rw test (
      search-Listed m literal t.hhdm_offset root wide 0 n n (map_table (root_phys m rsdp) t)
        (omega arith) (λ j h. absurd (omega arith)))
