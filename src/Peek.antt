-- ===== src/Peek.antt =====
-- The command `peek` of the shell, arch/i386/drivers/shell/builtins/peek.c, on the console of
-- Console.antt. A text is its bytes before the NUL, addresses have 64 bits, and `mem` is what memory
-- holds while the command runs. In `val << 4 | nibble` the low bits are free, so it is a sum.
pub mod Hex
pub mod Dump
mod Tests
use horizon_os.Prelude.{
  ℕ, zero, suc, ◌+◌, ◌-◌, ◌*◌, ◌%◌, ◌^◌, ◌≡◌, refl, Bool, true, false, ◌&&◌, ◌||◌, Option, none,
  some, List, [], ◌∷◌, ltb, leb, ◌==◌, if◌then◌else◌,
}
use horizon_os.Console.{Console, console_putchar, console_puts}
use horizon_os.Console.Format.{Arg, num, ◌>>=◌, console_vprintf}

-- The value of a hexadecimal digit.
unfoldable pub nibble : ℕ → Option ℕ
nibble ch =
    if leb b'0' ch && leb ch b'9'
    then some (ch - b'0')
    else if leb b'a' ch && leb ch b'f'
    then some (ch - b'a' + 10)
    else if leb b'A' ch && leb ch b'F'
    then some (ch - b'A' + 10)
    else none

-- The loop of `parse_hex`: the value, and the text behind the digits.
unfoldable pub hex_loop : ℕ → List ℕ → ℕ × List ℕ
hex_loop val [] = (val, [])
hex_loop val (ch ∷ s) = elim (nibble ch) [
  | none ↦ (val, ch ∷ s)
  | some d ↦ hex_loop (val * 2 ^ 4 % 2 ^ 64 + d) s
]

unfoldable pub skip_0x : List ℕ → List ℕ
skip_0x [] = []
skip_0x (z ∷ []) = z ∷ []
skip_0x (z ∷ x ∷ s) = if (z == b'0') && ((x == b'x') || (x == b'X')) then s else z ∷ x ∷ s

unfoldable pub parse_hex : List ℕ → ℕ × List ℕ
parse_hex s = hex_loop 0 (skip_0x s)

-- `%08x  ` and `%02x `
abbrev pub address_format : List ℕ
address_format = b'%' ∷ b'0' ∷ b'8' ∷ b'x' ∷ b' ' ∷ b' ' ∷ []

abbrev pub byte_format : List ℕ
byte_format = b'%' ∷ b'0' ∷ b'2' ∷ b'x' ∷ b' ' ∷ []

-- The character that stands for a byte.
abbrev pub visible : ℕ → ℕ
visible c = if leb 0x20 c && ltb c 0x7f then c else b'.'

-- The first inner loop, from column `j` on.
unfoldable pub hex_columns : ℕ → ℕ → (ℕ → ℕ) → ℕ → ℕ → ℕ → Console → Option Console
hex_columns zero j mem addr i len c = some c
hex_columns (suc left) j mem addr i len c =
    let cell : Option Console =
      if ltb (i + j) len
      then console_vprintf byte_format (num (mem ((addr + i + j) % 2 ^ 64) % 2 ^ 8) ∷ []) c
      else some (console_puts (b' ' ∷ b' ' ∷ b' ' ∷ []) c) in
    cell >>= λ c'.
    hex_columns left (j + 1) mem addr i len (if j == 7 then console_putchar b' ' c' else c')

-- The second one.
unfoldable pub characters : ℕ → ℕ → (ℕ → ℕ) → ℕ → ℕ → ℕ → Console → Console
characters zero j mem addr i len c = c
characters (suc left) j mem addr i len c =
    let rest =
      characters left (j + 1) mem addr i len
        (console_putchar (visible (mem ((addr + i + j) % 2 ^ 64) % 2 ^ 8)) c) in
    if ltb (i + j) len then rest else c

unfoldable pub dump_line : (ℕ → ℕ) → ℕ → ℕ → ℕ → Console → Option Console
dump_line mem addr i len c =
    console_vprintf address_format (num ((addr + i) % 2 ^ 64) ∷ []) c >>= λ c₁.
    hex_columns 16 0 mem addr i len c₁ >>= λ c₂. some (
      console_puts (b'|' ∷ b'\n' ∷ [])
        (characters 16 0 mem addr i len (console_puts (b' ' ∷ b'|' ∷ []) c₂)))

-- The loop over the lines; a length of at most 512 has at most 32.
unfoldable pub dump_lines : ℕ → (ℕ → ℕ) → ℕ → ℕ → ℕ → Console → Option Console
dump_lines zero mem addr i len c = some c
dump_lines (suc left) mem addr i len c =
    let line = dump_line mem addr i len c >>= dump_lines left mem addr (i + 16) len in
    if ltb i len then line else some c

abbrev pub dump_length : List (List ℕ) → ℕ
dump_length [] = 64
dump_length (s ∷ rest) = let len = (parse_hex s).0 in if (len == 0) || ltb 512 len then 64 else len

abbrev pub usage : List ℕ
usage =
    b'u' ∷ b's' ∷ b'a' ∷ b'g' ∷ b'e' ∷ b':' ∷ b' ' ∷ b'p' ∷ b'e' ∷ b'e' ∷ b'k' ∷ b' ' ∷ b'<' ∷ b'a'
    ∷ b'd' ∷ b'd' ∷ b'r' ∷ b'>' ∷ b' ' ∷ b'[' ∷ b'l' ∷ b'e' ∷ b'n' ∷ b']' ∷ b'\n' ∷ []

-- The arguments, as `argv` has them.
unfoldable pub cmd_peek : List (List ℕ) → (ℕ → ℕ) → Console → Option Console
cmd_peek [] mem c = some (console_puts usage c)
cmd_peek (s ∷ argv) mem c = dump_lines 32 mem (parse_hex s).0 0 (dump_length argv) c
