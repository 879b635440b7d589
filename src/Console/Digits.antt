-- ===== src/Console/Digits.antt =====
-- The numbers that `console_write_uint` writes.
use mathlib.Core.List.{reverse-cons}
use native.Mathlib.Nat.{div-add-mod', div-lt_iff_lt-mul, mul-le-mul_left, mul_comm}
use horizon_os.Prelude.{
  ℕ, zero, suc, ◌+◌, ◌-◌, ◌*◌, ◌/◌, ◌%◌, ◌^◌, ◌≤◌, ◌<◌, ◌≡◌, refl, sym, ◌∙◌, inl, inr, true, false,
  List, [], ◌∷◌, ◌++◌, reverse, length, length-reverse, arith, ltb, ◌==◌, if◌then◌else◌, Bool-cases,
}
use horizon_os.Console.{Console, console_puts}
use horizon_os.Console.Format.{digit_char, console_digits, console_write_uint}

-- What a digit stands for, and a text of digits in a base.
unfoldable pub digit_value : ℕ → ℕ
digit_value ch = if ltb ch b'a' then ch - b'0' else ch - b'a' + 10

unfoldable pub number : ℕ → ℕ → List ℕ → ℕ
number base so_far [] = so_far
number base so_far (ch ∷ chs) = number base (so_far * base + digit_value ch) chs

digit_value-digit_char : (d : ℕ) → digit_value (digit_char d) ≡ d
unfolding digit_value digit_char
digit_value-digit_char d = ground arith

pub number-append :
    (base so_far : ℕ) (xs ys : List ℕ)
    → number base so_far (xs ++ ys) ≡ number base (number base so_far xs) ys
unfolding number
number-append base so_far [] ys = refl
number-append base so_far (x ∷ xs) ys = number-append base (so_far * base + digit_value x) xs ys

pub div_small : (val base b m : ℕ) → 0 < base → b ≤ base → val < b * m → val / base < m
div_small val base b m some_base h k =
    let more : m * b ≤ m * base = mul-le-mul_left m h in
    let less : val < m * base = omega (arith, k, more, mul_comm b m) in
    (div-lt_iff_lt-mul some_base).1 less

number-digits :
    (left val base : ℕ)
    → 1 < base
    → val < 2 ^ left
    → number base 0 (reverse (console_digits left val base)) ≡ val
unfolding number console_digits
number-digits zero val base h k = omega arith
number-digits (suc left) val base h k = elim (Bool-cases (val == 0)) [
  | inl e ↦ rw e (ground (arith, e))
  | inr e ↦
      let rest = console_digits left (val / base) base in
      let half : val / base < 2 ^ left =
        div_small val base 2 (2 ^ left) (omega arith) h (omega arith) in
      let ih = number-digits left (val / base) base h half in
      rw
        (
          e,
          reverse-cons (digit_char (val % base)) rest,
          number-append base 0 (reverse rest) (digit_char (val % base) ∷ []),
          ih,
          digit_value-digit_char (val % base),
        )
        (div-add-mod' val base)
]

length-digits :
    (left val base n : ℕ) → 10 ≤ base → val < 10 ^ n → length (console_digits left val base) ≤ n
unfolding console_digits
length-digits zero val base n h k = omega arith
length-digits (suc left) val base zero h k =
    let e : (val == 0) ≡ true = ground (arith, k) in rw e (omega arith)
length-digits (suc left) val base (suc n) h k = elim (Bool-cases (val == 0)) [
  | inl e ↦ rw e (omega arith)
  | inr e ↦ rw e (
      omega (
        arith,
        length-digits left (val / base) base n h
            (div_small val base 10 (10 ^ n) (omega arith) h (omega arith)),
      ))
]

some_digit :
    (left val base : ℕ) → (val == 0) ≡ false → 0 < length (console_digits (suc left) val base)
unfolding console_digits
some_digit left val base e = rw e (omega arith)

-- For a number below 2^64 and a base from 10 to 16, `console_write_uint` shows a text of at most 20
-- digits, which the buffer of 21 holds, and the text read back in the base is the number.
pub console_write_uint_lem :
    (val base : ℕ) (c : Console)
    → val < 2 ^ 64
    → 10 ≤ base
    → base ≤ 16
    → (digits : List ℕ) × (console_write_uint val base c ≡ console_puts digits c)
      × (number base 0 digits ≡ val)
      × (0 < length digits)
      × (length digits ≤ 20)
unfolding console_write_uint console_puts number digit_value
console_write_uint_lem val base c h low high = elim (Bool-cases (val == 0)) [
  | inl e ↦
      let is_zero : val ≡ 0 = ground (arith, e) in
      let zero_digit : number base 0 (b'0' ∷ []) ≡ 0 = omega arith in
      (b'0' ∷ [], rw e refl, zero_digit ∙ sym is_zero, omega arith, omega arith)
  | inr e ↦
      let digits = console_digits 64 val base in
      let bound : length digits ≤ 20 = length-digits 64 val base 20 low (omega arith) in
      (
        reverse digits,
        rw e refl,
        number-digits 64 val base (omega arith) h,
        omega (arith, length-reverse digits, some_digit 63 val base e),
        omega (arith, length-reverse digits, bound),
      )
]
