-- ===== src/Keyboard/Controller.antt =====
-- The set-up of the PS/2 controller in drivers/keyboard/keyboard.c. The device behind the two ports
-- is a parameter: what it answers to a read, and what a read or a write makes of it. A run keeps the
-- writes in order. Log output is left out.
pub mod Sequence
use Prim.Native.Nat.{bit_and, bit_or}
use horizon_os.Prelude.{
  ℕ, zero, suc, ◌≡◌, Bool, true, false, List, [], ◌∷◌, ◌++◌, ◌==◌, if◌then◌else◌,
}

abbrev pub data_port : ℕ
data_port = 0x60

abbrev pub status_port : ℕ
status_port = 0x64

pub record Device : Type 1 where
  pub Hw : Type 0
  pub read : ℕ → Hw → ℕ × Hw
  pub write : ℕ → ℕ → Hw → Hw

-- The device, and the writes to it so far: port and value.
pub record Io (Hw : Type 0) : Type 0 where
  pub hw : Hw
  pub writes : List (ℕ × ℕ)

-- A stage of the set-up goes on, or ends in `halt`.
pub data Stage (Hw : Type 0) : Type 0 where
  done : Io Hw → Stage Hw
  halted : Io Hw → Stage Hw

infixl 5 ◌>>=◌
abbrev pub ◌>>=◌ : {Hw : Type 0} → Stage Hw → (Io Hw → Stage Hw) → Stage Hw
done io >>= f = f io
halted io >>= f = halted io

abbrev pub timeout : ℕ
timeout = 100000

module _ (D : Device) where
  open D use {Hw, read, write}

  unfoldable pub inb : ℕ → Io Hw → ℕ × Io Hw
  inb port io = let (v, hw') = read port io.hw in (v, record io { hw = hw' })

  unfoldable pub outb : ℕ → ℕ → Io Hw → Io Hw
  outb port v io = record { hw = write port v io.hw; writes = io.writes ++ (port, v) ∷ [] }

  -- `wait_for_kbd_input` with `left` looks at the status port to go.
  unfoldable pub wait_for_kbd_input : ℕ → Io Hw → Io Hw
  wait_for_kbd_input zero io = io
  wait_for_kbd_input (suc left) io =
      let (status, io') = inb status_port io in
      elim (bit_and status 0x02 == 0) [ true ↦ io' | false ↦ wait_for_kbd_input left io' ]

  unfoldable pub wait_for_kbd_output : ℕ → Io Hw → Bool × Io Hw
  wait_for_kbd_output zero io = (false, io)
  wait_for_kbd_output (suc left) io =
      let (status, io') = inb status_port io in
      elim (bit_and status 0x01 == 0) [ true ↦ wait_for_kbd_output left io' | false ↦ (true, io') ]

  -- A wait for the input buffer and the write behind it.
  unfoldable pub send : ℕ → ℕ → Io Hw → Io Hw
  send port v io = outb port v (wait_for_kbd_input timeout io)

  -- A byte of the controller, if it has one in time, for `f`.
  unfoldable pub on_answer : (ℕ → Io Hw → Stage Hw) → Io Hw → Stage Hw
  on_answer f io =
      let (full, io') = wait_for_kbd_output timeout io in
      let (v, io'') = inb data_port io' in if full then f v io'' else done io'

  unfoldable pub disable_ports : Io Hw → Stage Hw
  disable_ports io =
      let (v, io') = inb data_port (send status_port 0xa7 (send status_port 0xad io)) in done io'

  unfoldable pub write_config : ℕ → Io Hw → Stage Hw
  write_config config io =
      let config' = bit_or (bit_or config 0x01) 0x40 in
      done (send data_port config' (send status_port 0x60 io))

  unfoldable pub configure : Io Hw → Stage Hw
  configure io = on_answer write_config (send status_port 0x20 io)

  -- The answer must be `want`, or the kernel halts.
  unfoldable pub expect : ℕ → ℕ → Io Hw → Stage Hw
  expect want v io = if v == want then done io else halted io

  unfoldable pub self_test : Io Hw → Stage Hw
  self_test io = on_answer (expect 0x55) (send status_port 0xaa io)

  -- A failed test of the port is only logged.
  unfoldable pub port_test : Io Hw → Stage Hw
  port_test io = on_answer (λ v. done) (send status_port 0xab io)

  unfoldable pub reset_device : Io Hw → Stage Hw
  reset_device io =
      on_answer (λ ack io'. if ack == 0xfa then on_answer (expect 0xaa) io' else halted io')
        (send data_port 0xff (send status_port 0xae io))

  unfoldable pub enable_scanning : Io Hw → Stage Hw
  enable_scanning io = on_answer (expect 0xfa) (send data_port 0xf4 io)

  unfoldable pub init_ps2_controller : Io Hw → Stage Hw
  init_ps2_controller io =
      disable_ports io
      >>= configure
      >>= self_test
      >>= port_test
      >>= reset_device
      >>= enable_scanning
