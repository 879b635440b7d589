-- ===== src/Acpi/Records.antt =====
-- The table that is read is the one that was written: an encoder of records, and what they mean.
use horizon_os.Prelude.{
  ℕ, zero, suc, ◌+◌, ◌/◌, ◌%◌, ◌^◌, ◌≤◌, ◌<◌, ◌≡◌, ◌≢◌, refl, ap, subst, ◌∙◌, true, false, some,
  List, [], ◌∷◌, ◌++◌, arith, length, length-append, ltb, ◌==◌, if◌then◌else◌,
}
use horizon_os.Cstring.{Memory}
use horizon_os.Cstring.Print.{Stands}
use horizon_os.Acpi.{
  Madt, read_u16, read_u32, store_ioapic, store_override, parse_record, parse_records,
  max_overrides,
}

-- The records that the parser keeps, and the rest.
pub data Record : Type 0 where
  io_apic : (id reserved address base : ℕ) → Record
  irq_override : (bus source global flags : ℕ) → Record
  other : ℕ → List ℕ → Record

abbrev pub le16 : ℕ → List ℕ
le16 n = (n % 2 ^ 8) ∷ (n / 2 ^ 8) ∷ []

abbrev pub le32 : ℕ → List ℕ
le32 n = (n % 2 ^ 8) ∷ (n / 2 ^ 8 % 2 ^ 8) ∷ (n / 2 ^ 16 % 2 ^ 8) ∷ (n / 2 ^ 24) ∷ []

abbrev pub encode : Record → List ℕ
encode (io_apic id reserved address base) = 1 ∷ 12 ∷ id ∷ reserved ∷ (le32 address ++ le32 base)
encode (irq_override bus source global flags) = 2 ∷ 10 ∷ bus ∷ source ∷ (le32 global ++ le16 flags)
encode (other type payload) = type ∷ (length payload + 2) ∷ payload

abbrev pub encode_all : List Record → List ℕ
encode_all [] = []
encode_all (r ∷ rs) = encode r ++ encode_all rs

-- The record types 1 and 2 have their own constructors.
abbrev pub Proper : List Record → Type 0
Proper [] = Unit {0}
Proper (io_apic id reserved address base ∷ rs) = Proper rs
Proper (irq_override bus source global flags ∷ rs) = Proper rs
Proper (other type payload ∷ rs) = (type ≢ 1) × (type ≢ 2) × Proper rs

-- What the parser makes of a record.
unfoldable pub apply : Record → Madt → Madt
apply (io_apic id reserved address base) t =
    if t.ioapic_address == 0
    then record t { ioapic_address = address; ioapic_irq_base = base; ioapic_id = id }
    else t
apply (irq_override bus source global flags) t =
    if ltb (length t.irq_overrides) max_overrides
    then record t {
      irq_overrides =
          t.irq_overrides
          ++ record { source_irq = source; global_irq = global; flags = flags } ∷ [];
    }
    else t
apply (other type payload) t = t

unfoldable pub apply_all : List Record → Madt → Madt
unfolding apply
apply_all [] t = t
apply_all (r ∷ rs) t = apply_all rs (apply r t)

pub Stands-append :
    (m : Memory) (a : ℕ) (xs ys : List ℕ)
    → Stands m a (xs ++ ys)
    → Stands m a xs × Stands m (a + length xs) ys
Stands-append m a [] ys h = (tt, subst (λ b. Stands m b ys) (omega arith) h)
Stands-append m a (x ∷ xs) ys (h, hs) =
    let (front, back) = Stands-append m (a + 1) xs ys hs in
    ((h, front), subst (λ b. Stands m b ys) (omega arith) back)

u32_of : (m : Memory) (a n : ℕ) → Stands m a (le32 n) → read_u32 m a ≡ n
unfolding read_u32 read_u16
u32_of m a n (h₀, (h₁, (h₂, (h₃, _)))) =
    let e₂ : m (a + 2) ≡ n / 2 ^ 16 % 2 ^ 8 = ap m (omega arith) ∙ h₂ in
    let e₃ : m (a + 2 + 1) ≡ n / 2 ^ 24 = ap m (omega arith) ∙ h₃ in
    rw (h₀, h₁, e₂, e₃) (omega arith)

u16_of : (m : Memory) (a n : ℕ) → Stands m a (le16 n) → read_u16 m a ≡ n
unfolding read_u16
u16_of m a n (h₀, (h₁, _)) = rw (h₀, h₁) (omega arith)

-- A word that stands a few bytes further on.
u32_at : (m : Memory) (a b n : ℕ) → a ≡ b → Stands m a (le32 n) → read_u32 m b ≡ n
u32_at m a b n e h = u32_of m b n (subst (λ c. Stands m c (le32 n)) e h)

-- The parser does to the table what the record says.
parse_record-apply :
    (m : Memory) (a : ℕ) (r : Record) (t : Madt)
    → Proper (r ∷ [])
    → Stands m a (encode r)
    → parse_record m a t ≡ apply r t
unfolding parse_record store_ioapic store_override apply
parse_record-apply m a (io_apic id reserved address base) t p (h, (_, (at_id, (_, words)))) =
    let (at_address, at_base) = Stands-append m _ (le32 address) (le32 base) words in
    let e₁ : m (a + 2) ≡ id = ap m (omega arith) ∙ at_id in
    let e₂ = u32_at m _ (a + 2 + 2) address (omega arith) at_address in
    let e₃ = u32_at m _ (a + 2 + 6) base (omega arith) at_base in rw (h, e₁, e₂, e₃) refl
parse_record-apply m a (irq_override bus source global flags) t p
      (h, (_, (_, (at_source, words)))) =
    let (at_global, at_flags) = Stands-append m _ (le32 global) (le16 flags) words in
    let e₁ : m (a + 2 + 1) ≡ source = ap m (omega arith) ∙ at_source in
    let e₂ = u32_at m _ (a + 2 + 2) global (omega arith) at_global in
    let e₃ : read_u16 m (a + 2 + 6) ≡ flags =
      u16_of m (a + 2 + 6) flags (subst (λ c. Stands m c (le16 flags)) (omega arith) at_flags) in
    rw (h, e₁, e₂, e₃) refl
parse_record-apply m a (other type payload) t (not_one, not_two, _) (h, _) =
    let one : (type == 1) ≡ false = ground arith in
    let two : (type == 2) ≡ false = ground arith in rw (h, one, two) refl

-- The second byte is the length, and no record is empty.
next_record :
    (m : Memory) (a : ℕ) (r : Record) → Stands m a (encode r) → m (a + 1) ≡ length (encode r)
next_record m a (io_apic id reserved address base) (_, (h, _)) = h
next_record m a (irq_override bus source global flags) (_, (h, _)) = h
next_record m a (other type payload) (_, (h, _)) = h ∙ omega arith

pub some_bytes : (r : Record) → 2 ≤ length (encode r)
some_bytes (io_apic id reserved address base) = omega arith
some_bytes (irq_override bus source global flags) = omega arith
some_bytes (other type payload) = omega arith

-- Whether the records are proper is asked of each.
pub Proper-head : (r : Record) (rs : List Record) → Proper (r ∷ rs) → Proper (r ∷ []) × Proper rs
Proper-head (io_apic id reserved address base) rs p = (tt, p)
Proper-head (irq_override bus source global flags) rs p = (tt, p)
Proper-head (other type payload) rs (p, q, ps) = ((p, q, tt), ps)

-- One round of the loop.
pub round_lem :
    (m : Memory) (a end fuel : ℕ) (r : Record) (t : Madt)
    → Proper (r ∷ [])
    → Stands m a (encode r)
    → a < end
    → parse_records (suc fuel) m a end t
      ≡ parse_records fuel m (a + length (encode r)) end (apply r t)
unfolding parse_records
round_lem m a end fuel r t p h low =
    let more : ltb a end ≡ true = ground arith in
    rw (more, next_record m a r h, parse_record-apply m a r t p h) refl

pub parse_records-apply_all :
    (rs : List Record) (fuel : ℕ) (m : Memory) (a end : ℕ) (t : Madt)
    → Proper rs
    → Stands m a (encode_all rs)
    → a + length (encode_all rs) ≡ end
    → length rs ≤ fuel
    → parse_records fuel m a end t ≡ some (apply_all rs t)
unfolding parse_records apply_all
parse_records-apply_all [] zero m a end t p h e enough =
    let done : ltb a end ≡ false = ground (arith, e) in rw done refl
parse_records-apply_all [] (suc fuel) m a end t p h e enough =
    let done : ltb a end ≡ false = ground (arith, e) in rw done refl
parse_records-apply_all (r ∷ rs) zero m a end t p h e enough = absurd (omega arith)
parse_records-apply_all (r ∷ rs) (suc fuel) m a end t p h e enough =
    let (p₁, ps) = Proper-head r rs p in
    let (h₁, hs) = Stands-append m a (encode r) (encode_all rs) h in
    let sum = length-append (encode r) (encode_all rs) in
    round_lem m a end fuel r t p₁ h₁ (omega (arith, some_bytes r, sum, e))
    ∙ parse_records-apply_all rs fuel m (a + length (encode r)) end (apply r t) ps hs
        (omega (arith, sum, e)) (omega arith)

pub length-encode_all : (rs : List Record) → length rs ≤ length (encode_all rs)
length-encode_all [] = omega arith
length-encode_all (r ∷ rs) =
    omega (arith, length-append (encode r) (encode_all rs), some_bytes r, length-encode_all rs)
