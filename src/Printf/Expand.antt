-- ===== src/Printf/Expand.antt =====
-- What a format stands for, character by character, with the texts that `itoa` and `itoa_hex` write
-- for numbers; Printf/Text has it with their digits.
use horizon_os.Prelude.{
  ℕ, ◌%◌, ◌^◌, not, Option, none, some, List, [], ◌∷◌, ◌++◌, ◌==◌, if◌then◌else◌,
}
use horizon_os.Prelude.Int.{to_int}
use horizon_os.Cstring.{itoa_text, hex_text}
use horizon_os.Console.Format.{Arg, va_num, va_text}
use horizon_os.Printf.{before_nul}

abbrev pub prepend : List ℕ → Option (List ℕ) → Option (List ℕ)
prepend str none = none
prepend str (some rest) = some (str ++ rest)

-- The text of a directive, and the arguments behind it; no result where its argument is missing.
-- A directive that is not known has none of its own.
abbrev pub number : (ℕ → List ℕ) → List Arg → Option (List ℕ × List Arg)
number show args = elim (va_num args) [ none ↦ none | some (n, rest) ↦ some (show n, rest) ]

pub data Meaning : Type 0 where
  text_of : Option (List ℕ × List Arg) → Meaning
  literal : Meaning

unfoldable pub meaning : ℕ → List Arg → Meaning
meaning d args =
    if d == b'c'
    then text_of (number (λ n. n % 2 ^ 8 ∷ []) args)
    else if d == b's'
    then text_of (va_text args)
    else if d == b'd'
    then text_of (number (λ n. before_nul (itoa_text (to_int (n % 2 ^ 32)))) args)
    else if d == b'x'
    then text_of (number (λ n. before_nul (hex_text (n % 2 ^ 32))) args)
    else literal

-- Text outside of directives stands for itself and `%%` for a `%`; from a directive that is not
-- known the format stands for itself.
unfoldable pub expand : List ℕ → List Arg → Option (List ℕ)
expand [] args = some []
expand (c ∷ []) args = some (c ∷ [])
expand (c ∷ d ∷ ds) args =
    if not (c == b'%')
    then prepend (c ∷ []) (expand (d ∷ ds) args)
    else if d == b'%'
    then prepend (b'%' ∷ []) (expand ds args)
    else elim (meaning d args) [
      | literal ↦ some (c ∷ d ∷ ds)
      | text_of none ↦ none
      | text_of (some (str, rest)) ↦ prepend str (expand ds rest)
    ]
