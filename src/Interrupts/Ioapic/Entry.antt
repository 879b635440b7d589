-- ===== src/Interrupts/Ioapic/Entry.antt =====
-- The redirection entry that `configure_ioapic_irq_with_flags` writes.
use horizon_os.Prelude.{
  ==_iff, ap, ℕ, ◌+◌, ◌*◌, ◌/◌, ◌%◌, ◌^◌, ◌<◌, ◌≡◌, ◌≢◌, ◌∙◌, refl, Bool, true, false, ◌&&◌, not,
  arith, bit, ◌==◌, if◌then◌else◌, every_below, at-every_below,
}
use horizon_os.Interrupts.Ioapic.{
  Controller, low_value, ioapic_read, ioapic_write, configure_ioapic_irq_with_flags,
}

abbrev same : Bool → Bool → Bool
same true b = b
same false b = not b

-- What the controller reads in the low word.
abbrev fields_right : ℕ → ℕ → Bool
fields_right flags vector =
    let low = low_value vector flags in
    (low % 256 == vector)
    && (low / 2 ^ 8 % 2 ^ 5 == 0)
    && same (bit 13 low) (bit 1 flags)
    && same (bit 15 low) (bit 3 flags)
    && not (bit 14 low)
    && (low / 2 ^ 16 == 0)

low_table : every_below 16 (λ flags. every_below 256 (fields_right flags)) ≡ true
unfolding every_below low_value
low_table = refl

low_value_lem : (vector flags : ℕ) → vector < 256 → flags < 16 → fields_right flags vector ≡ true
low_value_lem vector flags hv hf =
    at-every_below 256 (fields_right flags) vector
      (at-every_below 16 (λ flags. every_below 256 (fields_right flags)) flags low_table hf) hv

both : (a b : Bool) → (a && b) ≡ true → (a ≡ true) × (b ≡ true)
both a b h = (ground arith, ground arith)

same_eq : (a b : Bool) → same a b ≡ true → a ≡ b
same_eq true b h = ground arith
same_eq false b h = ground arith

fields_of :
    (vector flags : ℕ)
    → fields_right flags vector ≡ true
    → let low = low_value vector flags in
      (low % 256 ≡ vector)
      × (low / 2 ^ 8 % 2 ^ 5 ≡ 0)
      × (bit 13 low ≡ bit 1 flags)
      × (bit 15 low ≡ bit 3 flags)
      × (low / 2 ^ 16 ≡ 0)
fields_of vector flags h =
    let (h1, f) = both _ _ h in
    let (h2, e) = both _ (not (bit 14 (low_value vector flags))) h1 in
    let (h3, d) = both _ _ h2 in
    let (h4, c) = both _ _ h3 in
    let (a, b) = both _ _ h4 in
    ((==_iff _ _).0 a, (==_iff _ _).0 b, same_eq _ _ c, same_eq _ _ d, (==_iff _ _).0 f)

-- What every register holds after the two writes.
pub reg-configure_ioapic_irq_with_flags :
    (C : Controller) (irq vector dest flags : ℕ) (h : C.Hw) (j : ℕ)
    → irq < 120
    → dest < 256
    → C.reg (configure_ioapic_irq_with_flags C irq vector dest flags h) j ≡ (
        if j == 0x10 + irq * 2
        then low_value vector flags
        else if j == 0x10 + irq * 2 + 1
        then dest * 2 ^ 24
        else C.reg h j)
unfolding configure_ioapic_irq_with_flags ioapic_write
reg-configure_ioapic_irq_with_flags C irq vector dest flags h j hi hd =
    let low : (0x10 + irq * 2) % 256 ≡ 0x10 + irq * 2 = omega arith in
    let high : (0x10 + irq * 2 + 1) % 256 ≡ 0x10 + irq * 2 + 1 = omega arith in
    let top : dest * 2 ^ 24 % 2 ^ 32 ≡ dest * 2 ^ 24 = omega arith in
    rw (C.reg-write _ _ j _, low, C.reg-write _ _ j _, high, top) refl

ioapic_read-reg : (C : Controller) (i : ℕ) (h : C.Hw) → i < 256 → ioapic_read C i h ≡ C.reg h i
unfolding ioapic_read
ioapic_read-reg C i h k =
    let small : i % 256 ≡ i = omega arith in C.read-select _ h ∙ ap (C.reg h) small

-- For one of the first 120 pins, a vector and a destination of a byte each, and flags of four bits:
-- the low register of the pin's entry then holds the vector with fixed delivery to a physical
-- destination, active low exactly where bit 1 of the flags is set, level triggered exactly where bit
-- 3 is, and not masked; the high register holds the destination in its top byte; every other
-- register holds what it held.
pub configure_ioapic_irq_with_flags_lem :
    (C : Controller) (irq vector dest flags : ℕ) (h : C.Hw)
    → irq < 120
    → vector < 256
    → dest < 256
    → flags < 16
    → let h' = configure_ioapic_irq_with_flags C irq vector dest flags h in
      let low = ioapic_read C (0x10 + irq * 2) h' in
      let high = ioapic_read C (0x10 + irq * 2 + 1) h' in
      ((low % 256 ≡ vector)
        × (low / 2 ^ 8 % 2 ^ 5 ≡ 0)
        × (bit 13 low ≡ bit 1 flags)
        × (bit 15 low ≡ bit 3 flags)
        × (low / 2 ^ 16 ≡ 0))
      × ((high / 2 ^ 24 ≡ dest) × (high % 2 ^ 24 ≡ 0))
      × ((j : ℕ) → j ≢ 0x10 + irq * 2 → j ≢ 0x10 + irq * 2 + 1 → C.reg h' j ≡ C.reg h j)
unfolding configure_ioapic_irq_with_flags ioapic_read ioapic_write
configure_ioapic_irq_with_flags_lem C irq vector dest flags h hi hv hd hf =
    let h' = configure_ioapic_irq_with_flags C irq vector dest flags h in
    let at = λ (j : ℕ). reg-configure_ioapic_irq_with_flags C irq vector dest flags h j hi hd in
    let low : ioapic_read C (0x10 + irq * 2) h' ≡ low_value vector flags =
      ioapic_read-reg C (0x10 + irq * 2) h' (omega arith) ∙ at (0x10 + irq * 2) ∙ ground arith in
    let high : ioapic_read C (0x10 + irq * 2 + 1) h' ≡ dest * 2 ^ 24 =
      ioapic_read-reg C (0x10 + irq * 2 + 1) h' (omega arith)
      ∙ at (0x10 + irq * 2 + 1)
      ∙ ground arith in
    let right = low_value_lem vector flags hv hf in
    rw (low, high)
      (
        fields_of vector flags right,
        (omega arith, omega arith),
        λ j n k. at j ∙ ground (arith, n, k),
      )
