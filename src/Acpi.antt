-- ===== src/Acpi.antt =====
-- kernel/apic/madt.c: the table of the interrupt controllers. Memory is a function from addresses to
-- bytes; an address in a loop does not wrap. The log, and the mapping of the pages that hold the
-- table, are left out.
pub mod Rsdp
pub mod Records
pub mod Table
pub mod Find
mod Tests
use horizon_os.Prelude.{
  ℕ, zero, suc, ◌+◌, ◌-◌, ◌*◌, ◌%◌, ◌^◌, Bool, true, false, Option, none, some, List, [], ◌∷◌, ◌++◌,
  length, ltb, ◌==◌, if◌then◌else◌,
}
use horizon_os.Cstring.{Memory}

-- Little-endian reads of 2, 4 and 8 bytes.
unfoldable pub read_u16 : Memory → ℕ → ℕ
read_u16 m a = m a + m (a + 1) * 2 ^ 8

unfoldable pub read_u32 : Memory → ℕ → ℕ
unfolding read_u16
read_u32 m a = read_u16 m a + read_u16 m (a + 2) * 2 ^ 16

unfoldable pub read_u64 : Memory → ℕ → ℕ
unfolding read_u32
read_u64 m a = read_u32 m a + read_u32 m (a + 4) * 2 ^ 32

-- `irq_overrides[i]`
pub record IrqOverride : Type 0 where
  pub source_irq : ℕ
  pub global_irq : ℕ
  pub flags : ℕ

-- The static data of the file; the list holds the overrides below `num_overrides`.
pub record Madt : Type 0 where
  pub ioapic_address : ℕ
  pub ioapic_irq_base : ℕ
  pub ioapic_id : ℕ
  pub lapic_address : ℕ
  pub irq_overrides : List IrqOverride

abbrev pub max_overrides : ℕ
max_overrides = 16

-- `sizeof(struct madt_extended_header)`
abbrev pub extended_header_size : ℕ
extended_header_size = 44

-- The case of an I/O APIC: `at` is the address behind the record's header.
unfoldable pub store_ioapic : Memory → ℕ → Madt → Madt
unfolding read_u32
store_ioapic m at t =
    if t.ioapic_address == 0
    then record t {
      ioapic_address = read_u32 m (at + 2);
      ioapic_irq_base = read_u32 m (at + 6);
      ioapic_id = m at;
    }
    else t

unfoldable pub store_override : Memory → ℕ → Madt → Madt
unfolding read_u16 read_u32
store_override m at t =
    let new : IrqOverride = record {
      source_irq = m (at + 1);
      global_irq = read_u32 m (at + 2);
      flags = read_u16 m (at + 6);
    } in
    if ltb (length t.irq_overrides) max_overrides
    then record t { irq_overrides = t.irq_overrides ++ new ∷ [] }
    else t

-- The other cases only write to the log.
unfoldable pub parse_record : Memory → ℕ → Madt → Madt
unfolding store_ioapic store_override
parse_record m entry t =
    if m entry == 1
    then store_ioapic m (entry + 2) t
    else if m entry == 2
    then store_override m (entry + 2) t
    else t

-- The loop over the records, for `fuel` of them at most: `none` where it goes on.
unfoldable pub parse_records : ℕ → Memory → ℕ → ℕ → Madt → Option Madt
unfolding parse_record
parse_records zero m entry end t = if ltb entry end then none else some t
parse_records (suc fuel) m entry end t =
    let rest = parse_records fuel m (entry + m (entry + 1)) end (parse_record m entry t) in
    if ltb entry end then rest else some t

-- Each record that is not empty takes a byte at least, so the table's length is fuel enough.
unfoldable pub parse_madt : Memory → ℕ → Madt → Option Madt
unfolding parse_records
parse_madt m madt t =
    let size = read_u32 m (madt + 4) in
    parse_records size m (madt + extended_header_size) (madt + size)
      (record t { lapic_address = read_u32 m (madt + 36) })

-- The first override of IRQ 1.
unfoldable pub keyboard_override : List IrqOverride → Option IrqOverride
keyboard_override [] = none
keyboard_override (o ∷ os) = if o.source_irq == 1 then some o else keyboard_override os

unfoldable pub get_keyboard_global_irq : Madt → ℕ
unfolding keyboard_override
get_keyboard_global_irq t = elim (keyboard_override t.irq_overrides) [
  | none ↦ 1
  | some o ↦ o.global_irq
]

unfoldable pub get_keyboard_irq_flags : Madt → ℕ
unfolding keyboard_override
get_keyboard_irq_flags t = elim (keyboard_override t.irq_overrides) [ none ↦ 0 | some o ↦ o.flags ]
