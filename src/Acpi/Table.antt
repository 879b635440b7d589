-- ===== src/Acpi/Table.antt =====
-- What the parsed table says, and a table on which the parser does not end.
use mathlib.Core.List.{append_assoc}
use horizon_os.Prelude.{
  ℕ, zero, suc, ◌+◌, ◌≤◌, ◌<◌, ◌≡◌, refl, ap, sym, ◌∙◌, inl, inr, true, none, some, List, [], ◌∷◌,
  ◌++◌, arith, length, length-append, ltb, ◌==◌, if◌then◌else◌, take, Bool-cases,
}
use horizon_os.Cstring.{Memory}
use horizon_os.Cstring.Print.{Stands}
use horizon_os.Acpi.{
  Madt, IrqOverride, read_u32, parse_records, parse_madt, max_overrides, extended_header_size,
}
use horizon_os.Acpi.Records.{
  Record, io_apic, irq_override, other, encode, encode_all, Proper, apply, apply_all, Stands-append,
  Proper-head, some_bytes, round_lem, parse_records-apply_all, length-encode_all,
}

-- The overrides among the records, and the address of the first I/O APIC that has one.
unfoldable pub overrides_of : List Record → List IrqOverride
overrides_of [] = []
overrides_of (io_apic id reserved address base ∷ rs) = overrides_of rs
overrides_of (irq_override bus source global flags ∷ rs) =
    record { source_irq = source; global_irq = global; flags = flags } ∷ overrides_of rs
overrides_of (other type payload ∷ rs) = overrides_of rs

unfoldable pub first_address : List Record → ℕ
first_address [] = 0
first_address (io_apic id reserved address base ∷ rs) =
    if address == 0 then first_address rs else address
first_address (irq_override bus source global flags ∷ rs) = first_address rs
first_address (other type payload ∷ rs) = first_address rs

-- The table as it is before the parser runs.
abbrev pub empty_madt : Madt
empty_madt = record {
  ioapic_address = 0;
  ioapic_irq_base = 0;
  ioapic_id = 0;
  lapic_address = 0;
  irq_overrides = [];
}

take_all : (n : ℕ) (xs : List IrqOverride) → length xs ≤ n → take n (xs ++ []) ≡ xs
take_all zero [] h = refl
take_all zero (x ∷ xs) h = absurd (omega arith)
take_all (suc n) [] h = refl
take_all (suc n) (x ∷ xs) h = ap (λ l. x ∷ l) (take_all n xs (omega arith))

take_front : (n : ℕ) (xs ys : List IrqOverride) → length xs ≡ n → take n (xs ++ ys) ≡ xs
take_front zero [] ys e = refl
take_front zero (x ∷ xs) ys e = absurd (omega arith)
take_front (suc n) [] ys e = absurd (omega arith)
take_front (suc n) (x ∷ xs) ys e = ap (λ l. x ∷ l) (take_front n xs ys (omega arith))

-- One record keeps the overrides few, and adds its own while there is room.
apply-overrides :
    (r : Record) (rs : List Record) (t : Madt)
    → length t.irq_overrides ≤ max_overrides
    → (length (apply r t).irq_overrides ≤ max_overrides)
      × (take max_overrides ((apply r t).irq_overrides ++ overrides_of rs)
          ≡ take max_overrides (t.irq_overrides ++ overrides_of (r ∷ rs)))
unfolding apply overrides_of
apply-overrides (io_apic id reserved address base) rs t h =
    elim (Bool-cases (t.ioapic_address == 0)) [ inl e ↦ rw e (h, refl) | inr e ↦ rw e (h, refl) ]
apply-overrides (irq_override bus source global flags) rs t h =
    let o : IrqOverride = record { source_irq = source; global_irq = global; flags = flags } in
    elim (Bool-cases (ltb (length t.irq_overrides) max_overrides)) [
      | inl e ↦
          let room : length (t.irq_overrides ++ o ∷ []) ≤ max_overrides =
            ground (arith, e, length-append t.irq_overrides (o ∷ [])) in
          rw e (
            room,
            ap (take max_overrides) (append_assoc t.irq_overrides (o ∷ []) (overrides_of rs)),
          )
      | inr e ↦
          let full : length t.irq_overrides ≡ max_overrides = ground (arith, e) in
          rw e (
            h,
            take_front max_overrides t.irq_overrides (overrides_of rs) full
                ∙ sym (take_front max_overrides t.irq_overrides (o ∷ overrides_of rs) full),
          )
    ]
apply-overrides (other type payload) rs t h = (h, refl)

apply_all-overrides :
    (rs : List Record) (t : Madt)
    → length t.irq_overrides ≤ max_overrides
    → (apply_all rs t).irq_overrides ≡ take max_overrides (t.irq_overrides ++ overrides_of rs)
unfolding apply_all overrides_of
apply_all-overrides [] t h = sym (take_all max_overrides t.irq_overrides h)
apply_all-overrides (r ∷ rs) t h =
    let (few, same) = apply-overrides r rs t h in apply_all-overrides rs (apply r t) few ∙ same

-- The address that is kept, given the address so far.
kept_address : List Record → Madt → ℕ
kept_address rs t = if t.ioapic_address == 0 then first_address rs else t.ioapic_address

apply-address :
    (r : Record) (rs : List Record) (t : Madt)
    → kept_address rs (apply r t) ≡ kept_address (r ∷ rs) t
unfolding apply kept_address first_address
apply-address (io_apic id reserved address base) rs t = ground arith
apply-address (irq_override bus source global flags) rs t = ground arith
apply-address (other type payload) rs t = refl

apply_all-address :
    (rs : List Record) (t : Madt) → (apply_all rs t).ioapic_address ≡ kept_address rs t
unfolding apply_all first_address kept_address
apply_all-address [] t = ground arith
apply_all-address (r ∷ rs) t = apply_all-address rs (apply r t) ∙ apply-address r rs t

apply_all-lapic : (rs : List Record) (t : Madt) → (apply_all rs t).lapic_address ≡ t.lapic_address
unfolding apply_all apply
apply_all-lapic [] t = refl
apply_all-lapic (r ∷ rs) t = apply_all-lapic rs (apply r t) ∙ apply-lapic r t
  where
    apply-lapic : (r : Record) (t : Madt) → (apply r t).lapic_address ≡ t.lapic_address
    apply-lapic (io_apic id reserved address base) t = ground arith
    apply-lapic (irq_override bus source global flags) t = ground arith
    apply-lapic (other type payload) t = refl

-- For a table whose header gives its length and whose records are well formed (of any number, kinds
-- and order), and with the static data still zero: `parse_madt` returns, with the address of the first I/O APIC that has one, the first 16
-- interrupt overrides in the order of the table, and the address of the local APIC from the header.
pub parse_madt-encode_all :
    (m : Memory) (madt : ℕ) (rs : List Record)
    → Proper rs
    → Stands m (madt + extended_header_size) (encode_all rs)
    → read_u32 m (madt + 4) ≡ extended_header_size + length (encode_all rs)
    → (t : Madt) × (parse_madt m madt empty_madt ≡ some t)
      × (t.ioapic_address ≡ first_address rs)
      × (t.irq_overrides ≡ take max_overrides (overrides_of rs))
      × (t.lapic_address ≡ read_u32 m (madt + 36))
unfolding parse_madt kept_address
parse_madt-encode_all m madt rs p h size =
    let t₀ = record empty_madt { lapic_address = read_u32 m (madt + 36) } in
    (
      apply_all rs t₀,
      parse_records-apply_all rs (read_u32 m (madt + 4)) m (madt + extended_header_size)
          (madt + read_u32 m (madt + 4)) t₀ p h (omega (arith, size))
          (omega (arith, size, length-encode_all rs)),
      apply_all-address rs t₀,
      apply_all-overrides rs t₀ (omega arith),
      apply_all-lapic rs t₀,
    )

-- Where a record of length 0 follows well-formed records within the table, the loop of `parse_madt`
-- never ends: no number of rounds is enough.
pub parse_records-none :
    (fuel : ℕ) (rs : List Record) (m : Memory) (a end : ℕ) (t : Madt)
    → Proper rs
    → Stands m a (encode_all rs)
    → a + length (encode_all rs) < end
    → m (a + length (encode_all rs) + 1) ≡ 0
    → parse_records fuel m a end t ≡ none
unfolding parse_records
parse_records-none zero rs m a end t p h low stuck =
    let more : ltb a end ≡ true = ground (arith, low) in rw more refl
parse_records-none (suc fuel) [] m a end t p h low stuck =
    let more : ltb a end ≡ true = ground (arith, low) in
    let same : a + m (a + 1) ≡ a =
      let empty : m (a + 1) ≡ 0 = ap m (omega arith) ∙ stuck in omega (arith, empty) in
    rw (more, same) (parse_records-none fuel [] m a end _ p h low stuck)
parse_records-none (suc fuel) (r ∷ rs) m a end t p h low stuck =
    let (p₁, ps) = Proper-head r rs p in
    let (h₁, hs) = Stands-append m a (encode r) (encode_all rs) h in
    let sum = length-append (encode r) (encode_all rs) in
    let start : a + length (encode r) + length (encode_all rs) ≡ a + length (encode_all (r ∷ rs)) =
      omega (arith, sum) in
    round_lem m a end fuel r t p₁ h₁ (omega (arith, some_bytes r, sum, low))
    ∙ parse_records-none fuel rs m (a + length (encode r)) end (apply r t) ps hs
        (omega (arith, start, low)) (ap (λ b. m (b + 1)) start ∙ stuck)
