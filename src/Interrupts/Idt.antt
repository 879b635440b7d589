-- ===== src/Interrupts/Idt.antt =====
-- What the processor reads in the tables that `init_gdt` and `init_idt` write.
use Prim.Native.Nat.{bit_and, bit_or}
use horizon_os.Prelude.{
  ℕ, zero, suc, ◌+◌, ◌*◌, ◌/◌, ◌%◌, ◌^◌, ◌≤◌, ◌<◌, ◌≡◌, ◌∙◌, refl, true, false, ◌&&◌, some, List,
  get_elem?, set, replicate, length, length-set, length-replicate, get_elem?-set_self,
  get_elem?-set_ne, arith, ltb, lt→ltb, ◌==◌, if◌then◌else◌, every_below, at-every_below,
  ℕ_discrete,
}
use horizon_os.Interrupts.Gates.{
  GdtEntry, IdtEntry, zero_gate, gdt_entry, idt_entry, idt_set_gate, set_stubs, init_idt,
}

-- The fields that the processor puts together.
abbrev pub offset_of : IdtEntry → ℕ
offset_of g = g.offset_low + g.offset_mid * 2 ^ 16 + g.offset_high * 2 ^ 32

abbrev pub base_of : GdtEntry → ℕ
base_of g = g.base_low + g.base_middle * 2 ^ 16 + g.base_high * 2 ^ 24

abbrev pub limit_of : GdtEntry → ℕ
limit_of g = g.limit_low + g.granularity % 16 * 2 ^ 16

-- A half of the granularity byte from each operand.
halves_table :
    every_below 256 (λ gran. every_below 16 (λ limit.
      (bit_or limit (bit_and gran 0xf0) % 16 == limit)
      && (bit_or limit (bit_and gran 0xf0) / 16 == gran / 16)))
    ≡ true
unfolding every_below
halves_table = refl

-- For a base of 32 bits, a limit of 20 bits and a byte of flags: an entry of the GDT holds exactly
-- this base, this limit, the access byte, and the upper half of the flags.
pub gdt_entry_lem :
    (base limit access gran : ℕ)
    → base < 2 ^ 32
    → limit < 2 ^ 20
    → gran < 2 ^ 8
    → let g = gdt_entry base limit access gran in
      (base_of g ≡ base)
      × (limit_of g ≡ limit)
      × (g.access ≡ access)
      × (g.granularity / 16 ≡ gran / 16)
unfolding gdt_entry
gdt_entry_lem base limit access gran hb hl hg =
    let row =
      at-every_below 256
        (λ gran. every_below 16 (λ limit.
          (bit_or limit (bit_and gran 0xf0) % 16 == limit)
          && (bit_or limit (bit_and gran 0xf0) / 16 == gran / 16)))
        gran halves_table hg in
    let cell =
      at-every_below 16
        (λ limit.
          (bit_or limit (bit_and gran 0xf0) % 16 == limit)
          && (bit_or limit (bit_and gran 0xf0) / 16 == gran / 16))
        (limit / 2 ^ 16 % 2 ^ 4) row (omega arith) in
    (omega arith, ground (arith, cell), refl, ground (arith, cell))

get_elem?-replicate {ℓ} :
    {A : Type ℓ} (n i : ℕ) (a : A) → i < n → get_elem? (replicate n a) i ≡ some a
get_elem?-replicate zero i a h = elim h [ ]
get_elem?-replicate (suc n) zero a h = refl
get_elem?-replicate (suc n) (suc i) a h = get_elem?-replicate n i a (omega arith)

set_stubs_lem :
    (left i : ℕ) (stubs : ℕ → ℕ) (entries : List IdtEntry) (j : ℕ)
    → i + left ≤ length entries
    → get_elem? (set_stubs left i stubs entries) j ≡ (
        if ltb j i
        then get_elem? entries j
        else if ltb j (i + left)
        then some (idt_entry (stubs j) 0x08 0x8e)
        else get_elem? entries j)
unfolding set_stubs idt_set_gate
set_stubs_lem zero i stubs entries j h = ground arith
set_stubs_lem (suc left) i stubs entries j h =
    let gate = idt_entry (stubs i) 0x08 0x8e in
    let entries' = set entries i gate in
    let rest =
      set_stubs_lem left (i + 1) stubs entries' j (omega (arith, length-set entries i gate)) in
    elim (ℕ_discrete i j) [
      | yes e ↦
          let here = get_elem?-set_self entries i gate (omega arith) in
          let at_j : get_elem? entries' j ≡ some (idt_entry (stubs j) 0x08 0x8e) = rw (← e) here in
          rest ∙ ground (arith, at_j)
      | no ne ↦ rest ∙ ground (arith, get_elem?-set_ne entries gate ne)
    ]

-- The gates of a table of any length that was clear.
stubs_of_clear :
    (n count : ℕ) (stubs : ℕ → ℕ) (i : ℕ)
    → count ≤ n
    → i < n
    → get_elem? (set_stubs count 0 stubs (replicate n zero_gate)) i
      ≡ (if ltb i count then some (idt_entry (stubs i) 0x08 0x8e) else some zero_gate)
stubs_of_clear n count stubs i h k =
    set_stubs_lem count 0 stubs (replicate n zero_gate) i
      (omega (arith, length-replicate n zero_gate))
    ∙ ground (arith, get_elem?-replicate n i zero_gate k)

offset_of-idt_entry :
    (base sel flags : ℕ) → base < 2 ^ 64 → offset_of (idt_entry base sel flags) ≡ base
unfolding idt_entry
offset_of-idt_entry base sel flags h = omega arith

-- Where the addresses of the stubs are below 2^64: gate `i` below 48 leads to stub `i`, in the code
-- segment, as a present interrupt gate; every other gate of the 256 is not present.
pub init_idt_lem :
    (stubs : ℕ → ℕ) (i : ℕ)
    → ((j : ℕ) → stubs j < 2 ^ 64)
    → (i < 48
        → (g : IdtEntry) × (get_elem? (init_idt stubs) i ≡ some g)
          × (offset_of g ≡ stubs i)
          × (g.selector ≡ 0x08)
          × (g.type_attr ≡ 0x8e))
      × (48 ≤ i → i < 256 → get_elem? (init_idt stubs) i ≡ some zero_gate)
unfolding init_idt
init_idt_lem stubs i small = (
  (λ h. (
    idt_entry (stubs i) 0x08 0x8e,
    stubs_of_clear 256 48 stubs i (omega arith) (omega arith) ∙ rw (lt→ltb i 48 h),
    offset_of-idt_entry (stubs i) 0x08 0x8e (small i),
    unfold idt_entry in refl,
    unfold idt_entry in refl,
  )),
  λ h k.
      let past : ltb i 48 ≡ false = ground arith in
      stubs_of_clear 256 48 stubs i (omega arith) k ∙ rw past,
)
