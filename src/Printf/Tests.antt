-- ===== src/Printf/Tests.antt =====
-- A line with every directive, and the result of `printf` on it.
use horizon_os.Prelude.{ℕ, ◌≡◌, refl, some, List, [], ◌∷◌, length, arith}
use horizon_os.Prelude.Int.{pos}
use horizon_os.Console.Format.{Arg, num, text, va_num, va_text}
use horizon_os.Printf.{returned, printf}
use horizon_os.Printf.Numerals.{digits_in}
use horizon_os.Printf.Text.{directive_text, format_text}
use horizon_os.Printf.Loop.{printf_lem}

-- "%s=0x%x, %d%c%%"
abbrev format : List ℕ
format =
    b'%' ∷ b's' ∷ b'=' ∷ b'0' ∷ b'x' ∷ b'%' ∷ b'x' ∷ b',' ∷ b' ' ∷ b'%' ∷ b'd' ∷ b'%' ∷ b'c' ∷ b'%'
    ∷ b'%' ∷ []

abbrev args : List Arg
args = text (b'i' ∷ b'd' ∷ []) ∷ num 0xbeef ∷ num 2026 ∷ num 65 ∷ []

abbrev shown : List ℕ
shown =
    b'i' ∷ b'd' ∷ b'=' ∷ b'0' ∷ b'x' ∷ b'b' ∷ b'e' ∷ b'e' ∷ b'f' ∷ b',' ∷ b' ' ∷ b'2' ∷ b'0' ∷ b'2'
    ∷ b'6' ∷ b'A' ∷ b'%' ∷ []

expanded : format_text format args ≡ some shown
unfolding format_text directive_text digits_in va_num va_text
expanded = refl

printf_lem_example : printf format args (b'>' ∷ []) ≡ returned (pos (length shown)) (b'>' ∷ shown)
printf_lem_example = printf_lem format args (b'>' ∷ []) shown expanded (omega arith)
