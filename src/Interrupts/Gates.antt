-- ===== src/Interrupts/Gates.antt =====
-- arch/x86_64/interrupts/descriptor_tables.c: the entries of the two descriptor tables. Loading the
-- tables, `gdt_flush` and `idt_flush`, is done in assembly.
use Prim.Native.Nat.{bit_and, bit_or}
use horizon_os.Prelude.{ℕ, zero, suc, ◌+◌, ◌/◌, ◌%◌, ◌^◌, List, set, replicate}

pub record GdtEntry : Type 0 where
  pub limit_low : ℕ
  pub base_low : ℕ
  pub base_middle : ℕ
  pub access : ℕ
  pub granularity : ℕ
  pub base_high : ℕ

pub record IdtEntry : Type 0 where
  pub offset_low : ℕ
  pub selector : ℕ
  pub ist : ℕ
  pub type_attr : ℕ
  pub offset_mid : ℕ
  pub offset_high : ℕ
  pub reserved : ℕ

abbrev pub zero_gate : IdtEntry
zero_gate = record {
  offset_low = 0;
  selector = 0;
  ist = 0;
  type_attr = 0;
  offset_mid = 0;
  offset_high = 0;
  reserved = 0;
}

unfoldable pub gdt_entry : ℕ → ℕ → ℕ → ℕ → GdtEntry
gdt_entry base limit access gran = record {
  limit_low = limit % 2 ^ 16;
  base_low = base % 2 ^ 16;
  base_middle = base / 2 ^ 16 % 2 ^ 8;
  access = access;
  granularity = bit_or (limit / 2 ^ 16 % 2 ^ 4) (bit_and gran 0xf0);
  base_high = base / 2 ^ 24 % 2 ^ 8;
}

unfoldable pub gdt_set_gate : ℕ → ℕ → ℕ → ℕ → ℕ → List GdtEntry → List GdtEntry
gdt_set_gate num base limit access gran entries = set entries num (gdt_entry base limit access gran)

-- Null, the kernel's code and data, the user's code and data.
unfoldable pub init_gdt : List GdtEntry → List GdtEntry
unfolding gdt_set_gate
init_gdt entries = gdt_set_gate 4 0 0xfffff 0xf2 0xcf (
    gdt_set_gate 3 0 0xfffff 0xfa 0xaf (
      gdt_set_gate 2 0 0xfffff 0x92 0xcf
        (gdt_set_gate 1 0 0xfffff 0x9a 0xaf (gdt_set_gate 0 0 0 0 0 entries))))

unfoldable pub idt_entry : ℕ → ℕ → ℕ → IdtEntry
idt_entry base sel flags = record {
  offset_low = base % 2 ^ 16;
  selector = sel;
  ist = 0;
  type_attr = flags;
  offset_mid = base / 2 ^ 16 % 2 ^ 16;
  offset_high = base / 2 ^ 32 % 2 ^ 32;
  reserved = 0;
}

unfoldable pub idt_set_gate : ℕ → ℕ → ℕ → ℕ → List IdtEntry → List IdtEntry
idt_set_gate num base sel flags entries = set entries num (idt_entry base sel flags)

-- The loop of `init_idt`, from gate `i` on with `left` gates to go.
unfoldable pub set_stubs : ℕ → ℕ → (ℕ → ℕ) → List IdtEntry → List IdtEntry
unfolding idt_set_gate
set_stubs zero i stubs entries = entries
set_stubs (suc left) i stubs entries =
    set_stubs left (i + 1) stubs (idt_set_gate i (stubs i) 0x08 0x8e entries)

-- `init_idt`; `stubs` is `isr_stub_table`, and the table is cleared first.
unfoldable pub init_idt : (ℕ → ℕ) → List IdtEntry
init_idt stubs = set_stubs 48 0 stubs (replicate 256 zero_gate)
