-- ===== src/Acpi/Tests.antt =====
-- A table of two records at address 0, one that does not end, and a root pointer in the EBDA.
use horizon_os.Prelude.{
  ℕ, ◌*◌, ◌≡◌, refl, some, List, [], ◌∷◌, ◌++◌, length, get_or, subst, ltb, ◌==◌, if◌then◌else◌,
  ◌-◌, length-append,
}
use mathlib.Core.List.{append_assoc}
use horizon_os.Cstring.{Memory}
use horizon_os.Cstring.Print.{Stands}
use horizon_os.Acpi.{Madt, read_u16, read_u32, parse_madt}
use horizon_os.Paging.{Tables}
use horizon_os.Acpi.Records.{Record, io_apic, irq_override, other, encode_all}
use horizon_os.Acpi.Table.{empty_madt, first_address, overrides_of, parse_madt-encode_all}

abbrev header : List ℕ
header =
    b'A' ∷ b'P' ∷ b'I' ∷ b'C' ∷ 74 ∷ 0 ∷ 0 ∷ 0 ∷ 0 ∷ 0 ∷ 0 ∷ 0 ∷ 0 ∷ 0 ∷ 0 ∷ 0 ∷ 0 ∷ 0 ∷ 0 ∷ 0 ∷ 0
    ∷ 0 ∷ 0 ∷ 0 ∷ 0 ∷ 0 ∷ 0 ∷ 0 ∷ 0 ∷ 0 ∷ 0 ∷ 0 ∷ 0 ∷ 0 ∷ 0 ∷ 0 ∷ 0 ∷ 0 ∷ 224 ∷ 254 ∷ 1 ∷ 0 ∷ 0 ∷ 0
    ∷ []

abbrev records : List Record
records =
    other 0 (0 ∷ 0 ∷ 1 ∷ 0 ∷ 0 ∷ 0 ∷ []) ∷ io_apic 5 0 4273995776 0 ∷ irq_override 0 1 21 13 ∷ []

abbrev table : Memory
table a = get_or (header ++ encode_all records) a 0

-- A list read as memory, from an index on.
at_end : (front : List ℕ) (c : ℕ) (cs : List ℕ) → get_or (front ++ c ∷ cs) (length front) 0 ≡ c
at_end [] c cs = refl
at_end (x ∷ xs) c cs = at_end xs c cs

reads : (cs front : List ℕ) → Stands (λ a. get_or (front ++ cs) a 0) (length front) cs
reads [] front = tt
reads (c ∷ cs) front =
    let rest = reads cs (front ++ c ∷ []) in
    let moved =
      subst (λ l. Stands (λ a. get_or l a 0) (length (front ++ c ∷ [])) cs)
        (append_assoc front (c ∷ []) cs) rest in
    (
      at_end front c cs,
      subst (λ n. Stands (λ a. get_or (front ++ c ∷ cs) a 0) n cs) (length-append front (c ∷ []))
          moved,
    )

parse_madt-encode_all_example :
    (t : Madt) × (parse_madt table 0 empty_madt ≡ some t)
    × (t.ioapic_address ≡ 4273995776)
    × (t.irq_overrides ≡ record { source_irq = 1; global_irq = 21; flags = 13 } ∷ [])
    × (t.lapic_address ≡ 4276092928)
unfolding first_address overrides_of read_u32 read_u16
parse_madt-encode_all_example =
    parse_madt-encode_all table 0 records ((λ e. cc), (λ e. cc), tt)
      (reads (encode_all records) header) refl

-- A record of length 0 stands behind the first one.
abbrev broken : Memory
broken a = get_or (1 ∷ 12 ∷ 5 ∷ 0 ∷ 0 ∷ 0 ∷ 192 ∷ 254 ∷ 0 ∷ 0 ∷ 0 ∷ 0 ∷ 3 ∷ 0 ∷ []) a 0

-- The EBDA is at 1024, with a root pointer of revision 0 at its start; the literal is at 2048.
abbrev signature : List ℕ
signature = b'R' ∷ b'S' ∷ b'D' ∷ b' ' ∷ b'P' ∷ b'T' ∷ b'R' ∷ b' ' ∷ 225 ∷ []

abbrev bios : Memory
bios a =
    if a == 1038
    then 64
    else if ltb a 2048
    then get_or signature (a - 1024) 0 * (if ltb a 1024 then 0 else 1)
    else get_or signature (a - 2048) 0

-- A machine with no tables yet, whose memory is mapped to itself.
abbrev machine : Tables
machine = record {
  heap = record { placement_address = 65536; memory = λ a. 0 };
  cr3 = 4096;
  hhdm_offset = 0;
  kernel_virt_base = 0xffffffff80000000;
  kernel_phys_base = 0;
  flushes = [];
}
