-- ===== src/Serial/Port.antt =====
-- The set-up of the port in drivers/serial.c, and the wait before a byte is sent. What the line
-- status register gives is a sequence that the device chooses.
use Prim.Native.Nat.{bit_and}
use horizon_os.Prelude.{
  ℕ, zero, suc, ◌+◌, ◌<◌, ◌≤◌, ◌≡◌, ◌≢◌, ap, true, false, Option, none, some, List, [], ◌∷◌, arith,
  ◌==◌, if◌then◌else◌, ℕ_discrete,
}

abbrev pub com1_port : ℕ
com1_port = 0x3f8

-- The writes of `init_serial`, in order.
unfoldable pub init_serial : List (ℕ × ℕ)
init_serial =
    (com1_port + 1, 0x00)
    ∷ (com1_port + 3, 0x80)
    ∷ (com1_port + 0, 0x03)
    ∷ (com1_port + 1, 0x00)
    ∷ (com1_port + 3, 0x03)
    ∷ (com1_port + 2, 0xc7)
    ∷ (com1_port + 4, 0x0b)
    ∷ []

unfoldable pub serial_transmit_empty : ℕ → ℕ
serial_transmit_empty status = bit_and status 0x20

-- The wait of `serial_putchar`, from read `i` on: after how many reads it ends. `none`: not within
-- the fuel.
unfoldable pub wait_transmit : ℕ → (ℕ → ℕ) → ℕ → Option ℕ
wait_transmit zero status i = none
wait_transmit (suc fuel) status i =
    let rest = wait_transmit fuel status (i + 1) in
    if serial_transmit_empty (status i) == 0 then rest else some (i + 1)

-- A byte is sent after the first read that finds the transmitter empty, and not before.
pub wait_transmit_lem :
    (fuel i n : ℕ) (status : ℕ → ℕ)
    → i ≤ n
    → n < i + fuel
    → ((k : ℕ) → i ≤ k → k < n → serial_transmit_empty (status k) ≡ 0)
    → serial_transmit_empty (status n) ≢ 0
    → wait_transmit fuel status i ≡ some (n + 1)
unfolding wait_transmit
wait_transmit_lem zero i n status low high busy ready = absurd (omega arith)
wait_transmit_lem (suc fuel) i n status low high busy ready = elim (ℕ_discrete i n) [
  | yes e ↦
      let here : (serial_transmit_empty (status i) == 0) ≡ false =
        ground (arith, ready, ap status e) in
      rw here (ground (arith, e))
  | no later ↦
      let here : (serial_transmit_empty (status i) == 0) ≡ true = ground (arith, busy i) in
      rw here (
        wait_transmit_lem fuel (i + 1) n status (omega arith) (omega arith)
          (λ k h l. busy k (omega arith) l) ready)
]
