-- ===== src/Clock.antt =====
-- The clock of kernel/time.c. `clock i` is how many timer interrupts have come before the i-th read of
-- the count, which has 32 bits.
pub mod Sleep
mod Tests
use horizon_os.Prelude.{
  ℕ, zero, suc, ◌+◌, ◌-◌, ◌*◌, ◌%◌, ◌^◌, Option, none, some, ltb, if◌then◌else◌,
}

unfoldable pub timer_interrupt_handler : ℕ → ℕ
timer_interrupt_handler tick_count = (tick_count + 1) % 2 ^ 32

-- The count after some interrupts.
abbrev pub tick_count : ℕ → ℕ
tick_count zero = 0
tick_count (suc interrupts) = timer_interrupt_handler (tick_count interrupts)

-- The loop of `sleep_ms`, from the i-th read on; the result is the number of reads.
unfoldable pub sleep_loop : ℕ → (ℕ → ℕ) → ℕ → ℕ → ℕ → Option ℕ
sleep_loop zero clock start ms i = none
sleep_loop (suc fuel) clock start ms i =
    let rest = sleep_loop fuel clock start ms (i + 1) in
    if ltb ((tick_count (clock i) + 2 ^ 32 - start) % 2 ^ 32) ms then rest else some i

unfoldable pub sleep_ms : ℕ → (ℕ → ℕ) → ℕ → Option ℕ
sleep_ms fuel clock ms = sleep_loop fuel clock (tick_count (clock 0)) ms 1

unfoldable pub sleep : ℕ → (ℕ → ℕ) → ℕ → Option ℕ
sleep fuel clock s = sleep_ms fuel clock (s * 1000 % 2 ^ 32)
