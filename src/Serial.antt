-- ===== src/Serial.antt =====
-- drivers/serial.c: what is written to the serial line. The line is the list of the bytes that were
-- sent, the oldest first; the wait until the transmitter is empty is in Serial/Port.
pub mod Same
pub mod Port
use horizon_os.Prelude.{
  ℕ, zero, suc, ◌+◌, ◌-◌, ◌*◌, ◌/◌, ◌%◌, ◌^◌, Bool, true, false, Option, none, some, List, [], ◌∷◌,
  ◌++◌, ◌==◌, get_or, if◌then◌else◌,
}
use horizon_os.Prelude.Int.{ℤ, pos, negsuc, to_int}
use horizon_os.Console.Format.{Arg, va_num, va_text, to_int64, ◌>>=◌}

unfoldable pub serial_putchar : ℕ → List ℕ → List ℕ
serial_putchar ch sent = sent ++ ch ∷ []

-- A string is its bytes before the NUL.
unfoldable pub serial_write : List ℕ → List ℕ → List ℕ
unfolding serial_putchar
serial_write [] sent = sent
serial_write (ch ∷ chs) sent = serial_write chs (serial_putchar ch sent)

abbrev pub hex_digits : List ℕ
hex_digits =
    b'0' ∷ b'1' ∷ b'2' ∷ b'3' ∷ b'4' ∷ b'5' ∷ b'6' ∷ b'7' ∷ b'8' ∷ b'9' ∷ b'a' ∷ b'b' ∷ b'c' ∷ b'd'
    ∷ b'e' ∷ b'f' ∷ []

-- The loop that fills the buffer from its end: `i` places are left, and `filled` stands behind them.
unfoldable pub serial_digits : ℕ → ℕ → ℕ → List ℕ → List ℕ
serial_digits zero val base filled = filled
serial_digits (suc i) val base filled =
    let more = serial_digits i (val / base) base (get_or hex_digits (val % base) 0 ∷ filled) in
    if val == 0 then filled else more

unfoldable pub serial_write_uint : ℕ → ℕ → List ℕ → List ℕ
serial_write_uint val base sent =
    if val == 0 then serial_putchar b'0' sent else serial_write (serial_digits 64 val base []) sent

unfoldable pub serial_write_int : ℤ → List ℕ → List ℕ
unfolding serial_write_uint
serial_write_int (pos n) sent = serial_write_uint n 10 sent
serial_write_int (negsuc n) sent = serial_write_uint (n + 1) 10 (serial_putchar b'-' sent)

-- The character after `%`.
unfoldable pub serial_directive : ℕ → List Arg → List ℕ → Option (List Arg × List ℕ)
unfolding va_num va_text serial_write_int
serial_directive ch args sent =
    if ch == b'd'
    then (do (n, rest) ← va_num args; some (rest, serial_write_int (to_int (n % 2 ^ 32)) sent))
    else if ch == b'u'
    then (do (n, rest) ← va_num args; some (rest, serial_write_uint (n % 2 ^ 32) 10 sent))
    else if ch == b'x'
    then (do (n, rest) ← va_num args; some (rest, serial_write_uint (n % 2 ^ 32) 16 sent))
    else if ch == b'p'
    then (do
      (n, rest) ← va_num args
      some (rest, serial_write_uint n 16 (serial_write (b'0' ∷ b'x' ∷ []) sent)))
    else if ch == b's'
    then (do (s, rest) ← va_text args; some (rest, serial_write s sent))
    else if ch == b'c'
    then (do (n, rest) ← va_num args; some (rest, serial_putchar (n % 2 ^ 8) sent))
    else if ch == b'%'
    then some (args, serial_putchar b'%' sent)
    else some (args, serial_putchar ch (serial_putchar b'%' sent))

-- The character after `%l`.
unfoldable pub serial_long_directive : ℕ → List Arg → List ℕ → Option (List Arg × List ℕ)
unfolding va_num to_int64 serial_write_int
serial_long_directive ch args sent =
    if ch == b'd'
    then (do (n, rest) ← va_num args; some (rest, serial_write_int (to_int64 n) sent))
    else if ch == b'u'
    then (do (n, rest) ← va_num args; some (rest, serial_write_uint n 10 sent))
    else if ch == b'x'
    then (do (n, rest) ← va_num args; some (rest, serial_write_uint n 16 sent))
    else some (args, serial_putchar ch (serial_putchar b'l' (serial_putchar b'%' sent)))

-- `%` and `%l` at the end of the format make the loop step over its NUL: `none`.
unfoldable mutual
  unfolding serial_directive serial_long_directive

  pub serial_vprintf : List ℕ → List Arg → List ℕ → Option (List ℕ)
  serial_vprintf [] args sent = some sent
  serial_vprintf (ch ∷ fmt) args sent = elim (ch == b'%') [
    | true ↦ serial_percent fmt args sent
    | false ↦ serial_vprintf fmt args (serial_putchar ch sent)
  ]

  pub serial_percent : List ℕ → List Arg → List ℕ → Option (List ℕ)
  serial_percent [] args sent = none
  serial_percent (ch ∷ fmt) args sent = elim (ch == b'l') [
    | true ↦ serial_long fmt args sent
    | false ↦ serial_directive ch args sent >>= λ r. serial_vprintf fmt r.0 r.1
  ]

  pub serial_long : List ℕ → List Arg → List ℕ → Option (List ℕ)
  serial_long [] args sent = none
  serial_long (ch ∷ fmt) args sent =
      serial_long_directive ch args sent >>= λ r. serial_vprintf fmt r.0 r.1

-- The eight digits of a 32-bit number, filled from the end.
unfoldable pub hex_buffer : ℕ → ℕ → List ℕ → List ℕ
hex_buffer zero val filled = filled
hex_buffer (suc i) val filled =
    hex_buffer i (val / 2 ^ 4) (get_or hex_digits (val % 2 ^ 4) 0 ∷ filled)

unfoldable pub serial_write_hex : List ℕ → ℕ → List ℕ → List ℕ
unfolding hex_buffer serial_write
serial_write_hex prefix val sent =
    let s₁ = serial_write (b'0' ∷ b'x' ∷ []) (serial_write prefix sent) in
    serial_write (b'\n' ∷ []) (serial_write (hex_buffer 8 val []) s₁)
