-- ===== src/Printf/Text.antt =====
-- The text of a format, with numbers as their digits.
use horizon_os.Prelude.{
  ℕ, ◌%◌, ◌^◌, ◌≡◌, ◌⊎◌, ◌∙◌, refl, ap, sym, not, Option, none, some, List, [], ◌∷◌, arith, ltb,
  ◌==◌, if◌then◌else◌, Bool-cases, Option-cases, inl, inr,
}
use horizon_os.Prelude.Int.{to_int}
use horizon_os.Cstring.{itoa_text, hex_text}
use horizon_os.Console.Format.{Arg, va_num, va_text}
use horizon_os.Printf.{before_nul}
use horizon_os.Printf.Expand.{prepend, number, Meaning, text_of, literal, meaning, expand}
use horizon_os.Printf.Numerals.{numeral, itoa_text-numeral, hex_text-numeral}

-- The number of an argument for `%d`, where it is not negative as an `int`.
abbrev pub decimal_arg : List Arg → Option (List ℕ × List Arg)
decimal_arg args = elim (va_num args) [
  | none ↦ none
  | some (n, rest) ↦
      if ltb (n % 2 ^ 32) (2 ^ 31) then some (numeral 10 (n % 2 ^ 32), rest) else none
]

-- The text of a directive, and the arguments behind it; no result where its argument is missing, or
-- is a negative number for `%d`.
unfoldable pub directive_text : ℕ → List Arg → Meaning
directive_text d args =
    if d == b'c'
    then text_of (number (λ n. n % 2 ^ 8 ∷ []) args)
    else if d == b's'
    then text_of (va_text args)
    else if d == b'd'
    then text_of (decimal_arg args)
    else if d == b'x'
    then text_of (number (λ n. numeral 16 (n % 2 ^ 32)) args)
    else literal

-- Text outside of directives stands for itself and `%%` for a `%`; from a directive that is not
-- known the format stands for itself.
unfoldable pub format_text : List ℕ → List Arg → Option (List ℕ)
format_text [] args = some []
format_text (c ∷ []) args = some (c ∷ [])
format_text (c ∷ d ∷ ds) args =
    if not (c == b'%')
    then prepend (c ∷ []) (format_text (d ∷ ds) args)
    else if d == b'%'
    then prepend (b'%' ∷ []) (format_text ds args)
    else elim (directive_text d args) [
      | literal ↦ some (c ∷ d ∷ ds)
      | text_of none ↦ none
      | text_of (some (str, rest)) ↦ prepend str (format_text ds rest)
    ]

Same : {A : Type 0} → A → A → A → Type 0
Same absent a b = (a ≡ absent) ⊎ (a ≡ b)

decimal_arg-number :
    (args : List Arg)
    → Same
        (text_of none)
        (text_of (decimal_arg args))
        (text_of (number (λ n. before_nul (itoa_text (to_int (n % 2 ^ 32)))) args))
unfolding Same to_int
decimal_arg-number args = elim (Option-cases (va_num args)) [
  | inl e ↦ inl (rw (decimal_arg, e) refl)
  | inr ((n, rest), e) ↦ elim (Bool-cases (ltb (n % 2 ^ 32) (2 ^ 31))) [
    | inl small ↦ inr (
        rw (decimal_arg, number, e, small)
          (ap (λ text. text_of (some (text, rest)))
            (sym (itoa_text-numeral (n % 2 ^ 32) (ground (arith, small))))))
    | inr large ↦ inl (rw (decimal_arg, e, large) refl)
  ]
]

hex_arg-number :
    (args : List Arg)
    → number (λ n. numeral 16 (n % 2 ^ 32)) args
      ≡ number (λ n. before_nul (hex_text (n % 2 ^ 32))) args
hex_arg-number args = elim (Option-cases (va_num args)) [
  | inl e ↦ rw (number, e) refl
  | inr ((n, rest), e) ↦
      rw (number, e)
        (ap (λ text. some (text, rest)) (sym (hex_text-numeral (n % 2 ^ 32) (omega arith))))
]

directive_text-meaning :
    (d : ℕ) (args : List Arg) → Same (text_of none) (directive_text d args) (meaning d args)
unfolding directive_text meaning Same
directive_text-meaning d args = elim (Bool-cases (d == b'c')) [
  | inl c ↦ inr (rw c refl)
  | inr not_c ↦ elim (Bool-cases (d == b's')) [
    | inl s ↦ inr (rw (not_c, s) refl)
    | inr not_s ↦ elim (Bool-cases (d == b'd')) [
      | inl e ↦ rw (not_c, not_s, e) (decimal_arg-number args)
      | inr not_d ↦ elim (Bool-cases (d == b'x')) [
        | inl x ↦ inr (rw (not_c, not_s, not_d, x) (ap (λ o. text_of o) (hex_arg-number args)))
        | inr other ↦ inr (rw (not_c, not_s, not_d, other) refl)
      ]
    ]
  ]
]

prepend-Same :
    (str : List ℕ) (a b : Option (List ℕ))
    → Same none a b
    → Same none (prepend str a) (prepend str b)
unfolding Same
prepend-Same str a b (inl absent) = inl (rw absent refl)
prepend-Same str a b (inr same) = inr (ap (prepend str) same)

behind :
    (m : Meaning) (c d : ℕ) (ds : List ℕ)
    → ((rest : List Arg) → Same none (format_text ds rest) (expand ds rest))
    → Same none
        (elim m [
          | literal ↦ some (c ∷ d ∷ ds)
          | text_of none ↦ none
          | text_of (some (str, rest)) ↦ prepend str (format_text ds rest)
        ])
        (elim m [
          | literal ↦ some (c ∷ d ∷ ds)
          | text_of none ↦ none
          | text_of (some (str, rest)) ↦ prepend str (expand ds rest)
        ])
unfolding Same
behind literal c d ds later = inr refl
behind (text_of none) c d ds later = inr refl
behind (text_of (some (str, rest))) c d ds later = prepend-Same str _ _ (later rest)

-- What a format expands to by the code's own texts, or no text at all.
format_text-expand :
    (format : List ℕ) (args : List Arg) → Same none (format_text format args) (expand format args)
unfolding format_text expand Same
format_text-expand [] args = inr refl
format_text-expand (c ∷ []) args = inr refl
format_text-expand (c ∷ d ∷ ds) args = elim (Bool-cases (c == b'%')) [
  | inr plain ↦ rw plain (prepend-Same (c ∷ []) _ _ (format_text-expand (d ∷ ds) args))
  | inl mark ↦ elim (Bool-cases (d == b'%')) [
    | inl again ↦ rw (mark, again) (prepend-Same (b'%' ∷ []) _ _ (format_text-expand ds args))
    | inr other ↦ elim (directive_text-meaning d args) [
      | inl absent ↦ inl (rw (mark, other, absent) refl)
      | inr same ↦ rw (mark, other, same) (behind (meaning d args) c d ds (format_text-expand ds))
    ]
  ]
]

pub expands :
    (format : List ℕ) (args : List Arg) (t : List ℕ)
    → format_text format args ≡ some t
    → expand format args ≡ some t
unfolding Same
expands format args t e = elim (format_text-expand format args) [
  | inl absent ↦ absurd (cc (absent, e))
  | inr same ↦ sym same ∙ e
]
