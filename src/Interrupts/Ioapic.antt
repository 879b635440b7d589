-- ===== src/Interrupts/Ioapic.antt =====
-- The I/O interrupt controller in kernel/apic/apic.c. Its registers are behind two words of memory:
-- a write of the first selects a register, which the second then reads or writes.
pub mod Entry
use Prim.Native.Nat.{bit_and, bit_or}
use horizon_os.Prelude.{ℕ, ◌+◌, ◌*◌, ◌%◌, ◌^◌, ◌≡◌, refl, ◌==◌, if◌then◌else◌}

-- The controller as its data sheet describes it. `reg` is the content of a register.
pub record Controller : Type 1 where
  pub Hw : Type 0
  pub select : ℕ → Hw → Hw
  pub read : Hw → ℕ
  pub write : ℕ → Hw → Hw
  pub reg : Hw → ℕ → ℕ
  pub reg-select : (i j : ℕ) (h : Hw) → reg (select i h) j ≡ reg h j
  pub read-select : (i : ℕ) (h : Hw) → read (select i h) ≡ reg h i
  pub reg-write :
      (v i j : ℕ) (h : Hw) → reg (write v (select i h)) j ≡ (if j == i then v else reg h j)

-- A controller that is its registers: the laws can be met.
abbrev pub plain_controller : Controller
plain_controller = record {
  Hw = ℕ × (ℕ → ℕ);
  select = λ i h. (i, h.1);
  read = λ h. h.1 h.0;
  write = λ v h. (h.0, λ j. if j == h.0 then v else h.1 j);
  reg = λ h. h.1;
  reg-select = λ i j h. refl;
  read-select = λ i h. refl;
  reg-write = λ v i j h. refl;
}

-- The low word of a redirection entry.
unfoldable pub low_value : ℕ → ℕ → ℕ
low_value vector flags =
    let polarity = if bit_and flags 0x02 == 0 then vector else bit_or vector (2 ^ 13) in
    if bit_and flags 0x08 == 0 then polarity else bit_or polarity (2 ^ 15)

module _ (C : Controller) where
  open C use {Hw, select, read, write}

  unfoldable pub ioapic_read : ℕ → Hw → ℕ
  ioapic_read index h = read (select (index % 256) h)

  unfoldable pub ioapic_write : ℕ → ℕ → Hw → Hw
  ioapic_write index value h = write value (select (index % 256) h)

  unfoldable pub configure_ioapic_irq_with_flags : ℕ → ℕ → ℕ → ℕ → Hw → Hw
  configure_ioapic_irq_with_flags irq vector dest_apic_id flags h =
      let low_reg = 0x10 + irq * 2 in
      let high_reg = 0x10 + irq * 2 + 1 in
      ioapic_write low_reg (low_value vector flags)
        (ioapic_write high_reg (dest_apic_id * 2 ^ 24 % 2 ^ 32) h)

  unfoldable pub configure_ioapic_irq : ℕ → ℕ → ℕ → Hw → Hw
  configure_ioapic_irq irq vector dest_apic_id h =
      configure_ioapic_irq_with_flags irq vector dest_apic_id 0 h
