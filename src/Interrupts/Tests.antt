-- ===== src/Interrupts/Tests.antt =====
-- The tables and the controllers on small inputs.
use horizon_os.Prelude.{◌-◌, ◌^◌, ◌≡◌, refl, [], ◌∷◌}
use horizon_os.Interrupts.{com1_hex64}
use horizon_os.Interrupts.Apic.{pit_wait_ms, ticks_per_tick}

-- The report of the page fault vector.
hex_of_vector :
    com1_hex64 0xe
    ≡ b'0' ∷ b'x' ∷ b'0' ∷ b'0' ∷ b'0' ∷ b'0' ∷ b'0' ∷ b'0' ∷ b'0' ∷ b'0' ∷ b'0' ∷ b'0' ∷ b'0'
      ∷ b'0' ∷ b'0' ∷ b'0' ∷ b'0' ∷ b'E' ∷ []
unfolding com1_hex64
hex_of_vector = refl

-- Ten milliseconds of the interval timer are 11931 counts.
count_of_wait : pit_wait_ms 0 10 ≡ (0x61, 1) ∷ (0x43, 0xb0) ∷ (0x42, 0x9b) ∷ (0x42, 0x2e) ∷ []
unfolding pit_wait_ms
count_of_wait = refl

-- A counter that has fallen by ten million, at 1000 ticks in a second and at 2000.
reload_values :
    (ticks_per_tick 1000 (2 ^ 32 - 10_000_001) ≡ 1_000_000) × (ticks_per_tick 2000 5 ≡ 0)
unfolding ticks_per_tick
reload_values = (refl, refl)
