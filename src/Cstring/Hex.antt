-- ===== src/Cstring/Hex.antt =====
-- What `itoa_hex` writes.
use mathlib.Core.List.{reverse, reverse-cons}
use native.Mathlib.Nat.{pow-suc}
use horizon_os.Prelude.{
  ℕ, zero, suc, ◌+◌, ◌-◌, ◌*◌, ◌/◌, ◌%◌, ◌^◌, ◌≤◌, ◌<◌, ◌≡◌, ap, ◌∙◌, false, ◌&&◌, Option, none,
  some, List, [], ◌∷◌, ◌++◌, arith, ltb, leb, ◌==◌, if◌then◌else◌, length, Bool-cases, Option-cases,
  inl, inr, length-reverse, ℕ_discrete,
}
use horizon_os.Cstring.{hex_char, hex_stack, hex_text}

-- The value of a hexadecimal digit in lower case.
pub hex_digit : ℕ → Option ℕ
hex_digit c =
    if leb b'0' c && leb c b'9'
    then some (c - b'0')
    else if leb b'a' c && leb c b'f'
    then some (c - b'a' + 10)
    else none

-- The number that a text of hexadecimal digits stands for; `none` for any other character.
pub hex_from : ℕ → List ℕ → Option ℕ
unfolding hex_digit
hex_from acc [] = some acc
hex_from acc (c ∷ cs) = elim (hex_digit c) [ none ↦ none | some d ↦ hex_from (acc * 16 + d) cs ]

hex_digit-hex_char : (d : ℕ) → d < 16 → hex_digit (hex_char d) ≡ some d
unfolding hex_digit hex_char
hex_digit-hex_char d h = ground arith

hex_from-append :
    (acc v : ℕ) (xs ys : List ℕ)
    → hex_from acc xs ≡ some v
    → hex_from acc (xs ++ ys) ≡ hex_from v ys
unfolding hex_from
hex_from-append acc v [] ys h = ground arith
hex_from-append acc v (c ∷ xs) ys h = elim (Option-cases (hex_digit c)) [
  | inl e ↦ absurd (ground (arith, e))
  | inr (d, e) ↦ rw (e, hex_from) (hex_from-append (acc * 16 + d) v xs ys (rw (e, hex_from) at h))
]

hex_from_last : (acc d : ℕ) → d < 16 → hex_from acc (hex_char d ∷ []) ≡ some (acc * 16 + d)
unfolding hex_from
hex_from_last acc d h = rw (hex_digit-hex_char d h, hex_from)

-- The stack, from its end, reads back as the number.
stack_reads : (left n : ℕ) → n < 16 ^ left → hex_from 0 (reverse (hex_stack left n)) ≡ some n
unfolding hex_stack hex_from
stack_reads zero n h = ground arith
stack_reads (suc left) n h = elim (Bool-cases (ltb 0 n)) [
  | inl more ↦
      let small : n / 16 < 16 ^ left = omega (arith, pow-suc 16 left) in
      rw (more, reverse-cons)
        (hex_from-append 0 (n / 16) (reverse (hex_stack left (n / 16))) (hex_char (n % 16) ∷ [])
            (stack_reads left (n / 16) small)
          ∙ hex_from_last (n / 16) (n % 16) (omega arith)
          ∙ ap some (omega arith))
  | inr done ↦ let e : n ≡ 0 = ground arith in rw (done, e)
]

pub length-hex_stack : (left n : ℕ) → length (hex_stack left n) ≤ left
unfolding hex_stack
length-hex_stack zero n = omega arith
length-hex_stack (suc left) n = elim (Bool-cases (ltb 0 n)) [
  | inl more ↦ rw more (omega (arith, length-hex_stack left (n / 16)))
  | inr done ↦ rw done (omega arith)
]

-- The text that `itoa_hex` writes for a 32-bit number reads back as that number.
pub hex_from-hex_text : (n : ℕ) → n < 2 ^ 32 → hex_from 0 (hex_text n) ≡ some n
unfolding hex_text hex_from
hex_from-hex_text n h = elim (ℕ_discrete n 0) [
  | yes e ↦ rw e
  | no ne ↦ let test : (n == 0) ≡ false = ground arith in rw test (stack_reads 8 n (omega arith))
]

pub length-hex_text : (n : ℕ) → length (hex_text n) ≤ 8
unfolding hex_text
length-hex_text n = elim (Bool-cases (n == 0)) [
  | inl e ↦ rw e (omega arith)
  | inr e ↦ rw e (omega (arith, length-reverse (hex_stack 8 n), length-hex_stack 8 n))
]
