-- ===== src/Printf.antt =====
-- `printf` of libc/stdio/printf.c. The bytes that `putchar` is given are a list, the oldest first; a
-- byte is never EOF, so `print` does not fail. A format is its bytes before the NUL.
pub mod Expand
pub mod Branches
pub mod Numerals
pub mod Text
pub mod Loop
mod Tests
use horizon_os.Prelude.{
  ℕ, zero, suc, ◌+◌, ◌-◌, ◌%◌, ◌^◌, Bool, true, false, not, ◌||◌, Option, none, some, List, [], ◌∷◌,
  ◌++◌, length, ltb, ◌==◌, if◌then◌else◌,
}
use horizon_os.Prelude.Int.{ℤ, pos, negsuc, to_int}
use horizon_os.Cstring.{nul, itoa_text, hex_text}
use horizon_os.Console.Format.{Arg, va_num, va_text}

abbrev pub int_max : ℕ
int_max = 2 ^ 31 - 1

-- How a call ends: with a result and the bytes put so far, or outside of what C defines, where an
-- argument is missing or the count of an `int` overflows.
pub data Printed : Type 0 where
  returned : ℤ → List ℕ → Printed
  undefined : Printed
  unfinished : Printed

-- After one round of the loop: the result, or what is left of the format and of the arguments, the
-- count, and the bytes put.
pub data Round : Type 0 where
  stop : Printed → Round
  on : List ℕ → List Arg → ℕ → List ℕ → Round

unfoldable pub print : List ℕ → List ℕ → List ℕ
print [] out = out
print (c ∷ cs) out = print cs (out ++ c ∷ [])

-- The bytes of a buffer before its NUL.
unfoldable pub before_nul : List ℕ → List ℕ
before_nul [] = []
before_nul (c ∷ cs) = if c == nul then [] else c ∷ before_nul cs

-- The characters up to the next `%`, and the rest.
unfoldable pub until_percent : List ℕ → List ℕ × List ℕ
until_percent [] = ([], [])
until_percent (c ∷ cs) =
    let (run, rest) = until_percent cs in if c == b'%' then ([], c ∷ cs) else (c ∷ run, rest)

unfoldable pub starts_percent : List ℕ → Bool
starts_percent [] = false
starts_percent (c ∷ cs) = c == b'%'

-- Prints a text and counts it, where `failed` is the test for the room that is left.
unfoldable pub put_run : Bool → List ℕ → List ℕ → List Arg → ℕ → List ℕ → Round
put_run failed str rest args written out =
    if failed
    then stop (returned (negsuc 0) out)
    else if ltb int_max (written + length str)
    then stop undefined
    else on rest args (written + length str) (print str out)

-- The first branch of the loop, from the character that it begins with.
unfoldable pub plain_run : ℕ → List ℕ → List Arg → ℕ → List ℕ → Round
plain_run c cs args written out =
    let (run, rest) = until_percent cs in
    put_run (ltb (int_max - written) (length (c ∷ run))) (c ∷ run) rest args written out

-- A branch that shows the next argument, if there is one.
unfoldable pub put_number : Round → Bool → (ℕ → List ℕ) → List ℕ → List Arg → ℕ → List ℕ → Round
put_number missing failed show rest args written out = elim (va_num args) [
  | none ↦ missing
  | some (n, args') ↦ put_run failed (show n) rest args' written out
]

unfoldable pub put_text : List ℕ → List Arg → ℕ → List ℕ → Round
put_text rest args written out = elim (va_text args) [
  | none ↦ stop undefined
  | some (str, args') ↦ put_run (ltb (int_max - written) (length str)) str rest args' written out
]

-- The branches of the characters behind a `%`; `format` begins with that character.
unfoldable pub directive : List ℕ → List Arg → ℕ → List ℕ → Round
directive [] args written out = put_run (ltb (int_max - written) 1) (b'%' ∷ []) [] args written out
directive (d ∷ ds) args written out =
    let full = int_max - written == 0 in
    let missing = if full then stop (returned (negsuc 0) out) else stop undefined in
    let str = b'%' ∷ d ∷ ds in
    if d == b'c'
    then put_number (stop undefined) full (λ n. n % 2 ^ 8 ∷ []) ds args written out
    else if d == b's'
    then put_text ds args written out
    else if d == b'd'
    then put_number missing full (λ n. before_nul (itoa_text (to_int (n % 2 ^ 32)))) ds args written
        out
    else if d == b'x'
    then put_number missing full (λ n. before_nul (hex_text (n % 2 ^ 32))) ds args written out
    else put_run (ltb (int_max - written) (length str)) str [] args written out

unfoldable pub round : List ℕ → List Arg → ℕ → List ℕ → Round
round [] args written out = stop (returned (pos written) out)
round (c ∷ cs) args written out =
    if not (c == b'%')
    then plain_run c cs args written out
    else if starts_percent cs
    then (elim cs [ [] ↦ stop undefined | d ∷ ds ↦ plain_run d ds args written out ])
    else directive cs args written out

-- The loop; `unfinished` means that the fuel ran out.
unfoldable pub printf_loop : ℕ → List ℕ → List Arg → ℕ → List ℕ → Printed
printf_loop zero format args written out = unfinished
printf_loop (suc fuel) format args written out = elim (round format args written out) [
  | stop result ↦ result
  | on format' args' written' out' ↦ printf_loop fuel format' args' written' out'
]

-- A round takes at least one character of the format.
unfoldable pub printf : List ℕ → List Arg → List ℕ → Printed
printf format args out = printf_loop (suc (length format)) format args 0 out
