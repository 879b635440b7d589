-- ===== src/Interrupts/Apic.antt =====
-- The local interrupt controller and its timer in kernel/apic/apic.c. Its registers are words of
-- memory from `lapic_virt_base` on; a sequence of writes is a list of addresses and values.
use Prim.Native.Nat.{bit_and, bit_or}
use horizon_os.Prelude.{
  ℕ, ◌+◌, ◌-◌, ◌*◌, ◌/◌, ◌%◌, ◌^◌, Bool, not, Option, none, some, List, [], ◌∷◌, ◌==◌,
  if◌then◌else◌,
}

abbrev pub apic_base : ℕ
apic_base = 0xfee00000

abbrev pub apic_id : ℕ
apic_id = 0x020

abbrev pub apic_eoi : ℕ
apic_eoi = 0x0b0

abbrev pub apic_spurious : ℕ
apic_spurious = 0x0f0

abbrev pub apic_lvt_timer : ℕ
apic_lvt_timer = 0x320

abbrev pub apic_timer_initcnt : ℕ
apic_timer_initcnt = 0x380

abbrev pub apic_timer_divide : ℕ
apic_timer_divide = 0x3e0

abbrev pub apic_timer_periodic : ℕ
apic_timer_periodic = 2 ^ 17

abbrev pub apic_timer_masked : ℕ
apic_timer_masked = 2 ^ 16

-- `check_msr` on the value of `edx` that `cpuid` gives.
unfoldable pub check_msr : ℕ → Bool
check_msr edx = not (bit_and edx (2 ^ 5) == 0)

-- What `enable_api_hardware` writes back to the register 0x1B.
unfoldable pub enable_api_hardware : ℕ → ℕ
enable_api_hardware msr_low = bit_or msr_low (2 ^ 11)

-- The write of `enable_apic_software` to the spurious vector register.
unfoldable pub enable_apic_software : ℕ → ℕ
enable_apic_software spurious = bit_or (bit_or spurious (2 ^ 8)) 0xff

unfoldable pub get_local_apic_id : ℕ → ℕ
get_local_apic_id id_reg = id_reg / 2 ^ 24 % 2 ^ 8

unfoldable pub get_ioapic_base : ℕ → ℕ
get_ioapic_base msr_low = msr_low - msr_low % 2 ^ 12

unfoldable pub apic_send_eoi : ℕ → ℕ × ℕ
apic_send_eoi lapic_virt_base = (lapic_virt_base + apic_eoi, 0)

-- The ports of `disable_pic` and the byte that each is written.
abbrev pub disable_pic : List (ℕ × ℕ)
disable_pic = (0x21, 0xff) ∷ (0xa1, 0xff) ∷ []

abbrev pub pit_freq : ℕ
pit_freq = 1193182

-- The writes of `pit_wait_ms` before its wait; `tmp` is what port 0x61 gives.
unfoldable pub pit_wait_ms : ℕ → ℕ → List (ℕ × ℕ)
pit_wait_ms tmp ms =
    let count = pit_freq * ms % 2 ^ 32 / 1000 in
    (0x61, bit_or (bit_and tmp 0xfd) 0x01)
    ∷ (0x43, 0xb0)
    ∷ (0x42, count % 2 ^ 8)
    ∷ (0x42, count / 2 ^ 8 % 2 ^ 8)
    ∷ []

-- `(ticks_per_10ms / 10) * (1000 / hz)` of the counter that is left after ten milliseconds.
unfoldable pub ticks_per_tick : ℕ → ℕ → ℕ
ticks_per_tick hz currcnt = (2 ^ 32 - 1 - currcnt) / 10 * (1000 / hz) % 2 ^ 32

-- The writes of `apic_timer_init` to the controller; `currcnt` is what it reads after the wait.
-- A division by 0 is no result.
unfoldable pub apic_timer_init : ℕ → ℕ → ℕ → Option (List (ℕ × ℕ))
apic_timer_init base hz currcnt =
    let divide = base + apic_timer_divide in
    let initcnt = base + apic_timer_initcnt in
    let lvt = base + apic_lvt_timer in
    if hz == 0
    then none
    else some (
        (divide, 0x0b)
        ∷ (lvt, bit_or apic_timer_masked 32)
        ∷ (initcnt, 2 ^ 32 - 1)
        ∷ (divide, 0x0b)
        ∷ (lvt, bit_or apic_timer_periodic 32)
        ∷ (initcnt, ticks_per_tick hz currcnt)
        ∷ [])
