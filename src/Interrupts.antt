-- ===== src/Interrupts.antt =====
-- Interrupts on x86_64: the descriptor tables of arch/x86_64/interrupts/descriptor_tables.c, the
-- dispatch of arch/x86_64/interrupts/isr.c, and the interrupt controllers of kernel/apic/apic.c.
pub mod Gates
pub mod Idt
pub mod Ioapic
pub mod Apic
mod Tests
use horizon_os.Prelude.{
  ℕ, zero, suc, ◌-◌, ◌*◌, ◌/◌, ◌%◌, ◌^◌, Option, none, some, List, [], ◌∷◌, ◌++◌, get_or, ltb, ◌==◌,
  if◌then◌else◌,
}

-- What the handlers need of `struct interrupt_context` and what the report of an exception shows.
pub record InterruptContext : Type 0 where
  pub int_no : ℕ
  pub err_code : ℕ
  pub rip : ℕ

-- `h[(val >> i) & 0xF]` for the digits that are left, the highest first.
unfoldable pub hex64_digits : ℕ → ℕ → List ℕ
hex64_digits zero val = []
hex64_digits (suc left) val =
    get_or
      (b'0' ∷ b'1' ∷ b'2' ∷ b'3' ∷ b'4' ∷ b'5' ∷ b'6' ∷ b'7' ∷ b'8' ∷ b'9' ∷ b'A' ∷ b'B' ∷ b'C'
        ∷ b'D' ∷ b'E' ∷ b'F' ∷ [])
      (val / 2 ^ (4 * left) % 16) 0
    ∷ hex64_digits left val

-- The bytes that `com1_hex64` sends.
unfoldable pub com1_hex64 : ℕ → List ℕ
unfolding hex64_digits
com1_hex64 val = b'0' ∷ b'x' ∷ hex64_digits 16 val

-- What `isr_handler` sends to the serial line before it panics; `cr2` is the register's value.
unfoldable pub exception_report : ℕ → InterruptContext → List ℕ
exception_report cr2 regs =
    (b'\n' ∷ b'[' ∷ b'E' ∷ b'X' ∷ b'C' ∷ b'E' ∷ b'P' ∷ b'T' ∷ b'I' ∷ b'O' ∷ b'N' ∷ b']' ∷ b' '
      ∷ b'v' ∷ b'e' ∷ b'c' ∷ b'=' ∷ [])
    ++ (com1_hex64 regs.int_no
        ++ ((b' ' ∷ b'e' ∷ b'r' ∷ b'r' ∷ b'=' ∷ [])
            ++ (com1_hex64 regs.err_code
                ++ ((b' ' ∷ b'r' ∷ b'i' ∷ b'p' ∷ b'=' ∷ [])
                    ++ (com1_hex64 regs.rip
                        ++ ((b' ' ∷ b'c' ∷ b'r' ∷ b'2' ∷ b'=' ∷ [])
                            ++ (com1_hex64 cr2 ++ b'\n' ∷ [])))))))

-- How an interrupt ends: a handler has run, the kernel panics behind its report, or nothing is done.
pub data Handled {ℓ} (World : Type ℓ) : Type ℓ where
  ran : World → Handled World
  panicked : List ℕ → Handled World
  ignored : Handled World

-- `interrupt_handlers`, with `none` for 0.
abbrev pub Handlers : Type 0 → Type 0
Handlers World = ℕ → Option (InterruptContext → World → World)

module _ {World : Type 0} where
  -- The argument `n` is a `uint8_t`.
  unfoldable pub register_interrupt_handler :
      ℕ → (InterruptContext → World → World) → Handlers World → Handlers World
  register_interrupt_handler n handler handlers i =
      if i == n % 256 then some handler else handlers i

  unfoldable pub isr_handler : Handlers World → ℕ → InterruptContext → World → Handled World
  isr_handler handlers cr2 regs w = elim (handlers regs.int_no) [
    | some handler ↦ ran (handler regs w)
    | none ↦ if ltb regs.int_no 32 then panicked (exception_report cr2 regs) else ignored
  ]
