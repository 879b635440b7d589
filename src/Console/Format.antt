-- ===== src/Console/Format.antt =====
-- `console_vprintf` of include/kernel/console.c: text with directives, and the numbers in it.
use horizon_os.Prelude.{
  ℕ, zero, suc, ◌+◌, ◌-◌, ◌/◌, ◌%◌, ◌^◌, true, false, Option, none, some, List, [], ◌∷◌, reverse,
  ltb, ◌==◌, if◌then◌else◌,
}
use horizon_os.Prelude.Int.{ℤ, pos, negsuc, to_int}
use horizon_os.Console.{Console, console_putchar, console_puts}

-- What is passed for a directive: a word of 64 bits, or a string.
pub data Arg : Type 0 where
  num : ℕ → Arg
  text : List ℕ → Arg

infixl 5 ◌>>=◌
abbrev pub ◌>>=◌ {ℓ κ} : {A : Type ℓ} {B : Type κ} → Option A → (A → Option B) → Option B
none >>= f = none
some a >>= f = f a

-- `va_arg`, for an integer and for a string. It is undefined where there is no such argument: `none`.
unfoldable pub va_num : List Arg → Option (ℕ × List Arg)
va_num (num n ∷ args) = some (n % 2 ^ 64, args)
va_num _ = none

unfoldable pub va_text : List Arg → Option (List ℕ × List Arg)
va_text (text s ∷ args) = some (s, args)
va_text _ = none

-- A word as an `int64_t`.
unfoldable pub to_int64 : ℕ → ℤ
to_int64 u = if ltb u (2 ^ 63) then pos u else negsuc (2 ^ 64 - 1 - u)

unfoldable pub digit_char : ℕ → ℕ
digit_char d = if ltb d 10 then b'0' + d else b'a' + d - 10

-- The loop that fills the buffer, the lowest digit first. A number of 64 bits has at most 64 digits.
unfoldable pub console_digits : ℕ → ℕ → ℕ → List ℕ
unfolding digit_char
console_digits zero val base = []
console_digits (suc left) val base =
    let rest = console_digits left (val / base) base in
    if val == 0 then [] else digit_char (val % base) ∷ rest

unfoldable pub console_write_uint : ℕ → ℕ → Console → Console
console_write_uint val base c =
    if val == 0
    then console_putchar b'0' c
    else console_puts (reverse (console_digits 64 val base)) c

unfoldable pub console_write_int : ℤ → Console → Console
unfolding console_write_uint
console_write_int (pos n) c = console_write_uint n 10 c
console_write_int (negsuc n) c = console_write_uint (n + 1) 10 (console_putchar b'-' c)

-- The character after `%`.
unfoldable pub console_directive : ℕ → List Arg → Console → Option (List Arg × Console)
unfolding va_num va_text console_write_int
console_directive ch args c =
    if ch == b'd'
    then (do (n, rest) ← va_num args; some (rest, console_write_int (to_int (n % 2 ^ 32)) c))
    else if ch == b'u'
    then (do (n, rest) ← va_num args; some (rest, console_write_uint (n % 2 ^ 32) 10 c))
    else if ch == b'x'
    then (do (n, rest) ← va_num args; some (rest, console_write_uint (n % 2 ^ 32) 16 c))
    else if ch == b'p'
    then (do
      (n, rest) ← va_num args
      some (rest, console_write_uint n 16 (console_puts (b'0' ∷ b'x' ∷ []) c)))
    else if ch == b's'
    then (do (s, rest) ← va_text args; some (rest, console_puts s c))
    else if ch == b'c'
    then (do (n, rest) ← va_num args; some (rest, console_putchar (n % 2 ^ 8) c))
    else if ch == b'%'
    then some (args, console_putchar b'%' c)
    else some (args, console_putchar ch (console_putchar b'%' c))

-- The character after `%l`.
unfoldable pub console_long_directive : ℕ → List Arg → Console → Option (List Arg × Console)
unfolding va_num to_int64 console_write_int
console_long_directive ch args c =
    if ch == b'd'
    then (do (n, rest) ← va_num args; some (rest, console_write_int (to_int64 n) c))
    else if ch == b'u'
    then (do (n, rest) ← va_num args; some (rest, console_write_uint n 10 c))
    else if ch == b'x'
    then (do (n, rest) ← va_num args; some (rest, console_write_uint n 16 c))
    else some (args, console_putchar ch (console_putchar b'l' (console_putchar b'%' c)))

-- `%` and `%l` at the end of the format make the loop step over its NUL: `none`.
unfoldable mutual
  unfolding console_directive console_long_directive

  pub console_vprintf : List ℕ → List Arg → Console → Option Console
  console_vprintf [] args c = some c
  console_vprintf (ch ∷ fmt) args c = elim (ch == b'%') [
    | true ↦ after_percent fmt args c
    | false ↦ console_vprintf fmt args (console_putchar ch c)
  ]

  pub after_percent : List ℕ → List Arg → Console → Option Console
  after_percent [] args c = none
  after_percent (ch ∷ fmt) args c = elim (ch == b'l') [
    | true ↦ after_long fmt args c
    | false ↦ console_directive ch args c >>= λ r. console_vprintf fmt r.0 r.1
  ]

  pub after_long : List ℕ → List Arg → Console → Option Console
  after_long [] args c = none
  after_long (ch ∷ fmt) args c =
      console_long_directive ch args c >>= λ r. console_vprintf fmt r.0 r.1
