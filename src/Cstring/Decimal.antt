-- ===== src/Cstring/Decimal.antt =====
-- What `itoa` writes.
use mathlib.Core.List.{reverse-cons}
use native.Mathlib.Nat.{pow-suc}
use horizon_os.Prelude.{
  ℕ, zero, suc, ◌+◌, ◌-◌, ◌*◌, ◌/◌, ◌%◌, ◌^◌, ◌≤◌, ◌<◌, ◌≡◌, ◌≢◌, refl, ap, ap₂, inl, inr, ◌∙◌,
  true, ◌&&◌, Option, none, some, List, [], ◌∷◌, ◌++◌, map, arith, leb, ◌==◌, if◌then◌else◌, length,
  reverse, Bool-cases, ℕ_discrete, length-map, length-reverse,
}
use horizon_os.Prelude.Int.{ℤ, pos, negsuc, ◌-ℤ◌}
use horizon_os.Cstring.{itoa_stack, itoa_text, digit_of, tenth_of, is_zero, to_char}

-- The number that a text of decimal digits stands for; `none` for any other character.
pub decimal_from : ℕ → List ℕ → Option ℕ
decimal_from acc [] = some acc
decimal_from acc (c ∷ cs) =
    let rest = decimal_from (acc * 10 + (c - b'0')) cs in
    if leb b'0' c && leb c b'9' then rest else none

pub decimal : List ℕ → Option ℕ
unfolding decimal_from
decimal cs = decimal_from 0 cs

-- The decimal digits of a number, the lowest first.
unfoldable pub digits : ℕ → ℕ → List ℕ
digits zero n = []
digits (suc left) n =
    let rest = digits left (n / 10) in (n % 10) ∷ (if n / 10 == 0 then [] else rest)

abbrev AllDigits : List ℕ → Type 0
AllDigits [] = Unit {0}
AllDigits (d ∷ ds) = (d < 10) × AllDigits ds

abbrev value : List ℕ → ℕ
value [] = 0
value (d ∷ ds) = d + 10 * value ds

digits-AllDigits : (left n : ℕ) → AllDigits (digits left n)
unfolding digits
digits-AllDigits zero n = tt
digits-AllDigits (suc left) n = elim (Bool-cases (n / 10 == 0)) [
  | inl e ↦ rw e (omega arith)
  | inr e ↦ rw e (omega arith, digits-AllDigits left (n / 10))
]

value-digits : (left n : ℕ) → n < 10 ^ left → value (digits left n) ≡ n
unfolding digits
value-digits zero n h = omega arith
value-digits (suc left) n h = elim (Bool-cases (n / 10 == 0)) [
  | inl e ↦ rw e (ground arith)
  | inr e ↦
      let small : n / 10 < 10 ^ left = omega (arith, pow-suc 10 left) in
      rw e (omega (arith, value-digits left (n / 10) small))
]

length-digits : (left n : ℕ) → length (digits left n) ≤ left
unfolding digits
length-digits zero n = omega arith
length-digits (suc left) n = elim (Bool-cases (n / 10 == 0)) [
  | inl e ↦ rw e (omega arith)
  | inr e ↦ rw e (omega (arith, length-digits left (n / 10)))
]

decimal_from-append :
    (acc v : ℕ) (xs ys : List ℕ)
    → decimal_from acc xs ≡ some v
    → decimal_from acc (xs ++ ys) ≡ decimal_from v ys
unfolding decimal_from
decimal_from-append acc v [] ys h = ground arith
decimal_from-append acc v (c ∷ xs) ys h =
    ground (arith, decimal_from-append (acc * 10 + (c - b'0')) v xs ys)

-- Written from the highest down, the digits stand for their value.
decimal-reverse :
    (ds : List ℕ) → AllDigits ds → decimal (reverse (map (λ d. d + b'0') ds)) ≡ some (value ds)
unfolding decimal decimal_from
decimal-reverse [] h = refl
decimal-reverse (d ∷ ds) h =
    rw (reverse-cons, decimal_from-append 0 (value ds) _ _ (decimal-reverse ds h.1)) (ground arith)

tenth_lt : (left n : ℕ) → n < 10 ^ suc left → n / 10 < 10 ^ left
tenth_lt left n h = omega (arith, pow-suc 10 left)

-- The stack of `itoa` holds the digits of the number, and for a negative one the digits of its
-- absolute value, each taken negative.
stack_pos :
    (left n : ℕ) → n < 10 ^ suc left → itoa_stack (suc left) (pos n) ≡ map pos (digits (suc left) n)
unfolding itoa_stack digits digit_of tenth_of is_zero
stack_pos zero n h = let e : (n / 10 == 0) ≡ true = ground arith in rw e
stack_pos (suc left) n h = elim (Bool-cases (n / 10 == 0)) [
  | inl e ↦ rw e
  | inr e ↦ rw e (ap (λ l. pos (n % 10) ∷ l) (stack_pos left (n / 10) (tenth_lt (suc left) n h)))
]

abbrev pub minus : ℕ → ℤ
minus d = pos 0 -ℤ pos d

minus-suc : (n : ℕ) → minus (suc n) ≡ negsuc n
unfolding ◌-ℤ◌
minus-suc n = ground arith

tenth_minus : (n : ℕ) → tenth_of (minus n) ≡ minus (n / 10)
unfolding tenth_of ◌-ℤ◌
tenth_minus zero = refl
tenth_minus (suc n) = ground arith

digit_minus : (n : ℕ) → digit_of (minus n) ≡ minus (n % 10)
unfolding digit_of ◌-ℤ◌
digit_minus zero = refl
digit_minus (suc n) = ground arith

is_zero-minus : (n : ℕ) → is_zero (minus n) ≡ (n == 0)
unfolding is_zero ◌-ℤ◌
is_zero-minus zero = refl
is_zero-minus (suc n) = ground arith

stack_minus :
    (left n : ℕ)
    → n < 10 ^ suc left
    → itoa_stack (suc left) (minus n) ≡ map minus (digits (suc left) n)
unfolding itoa_stack digits
stack_minus zero n h =
    let e : (n / 10 == 0) ≡ true = ground arith in
    rw (digit_minus n, tenth_minus n, is_zero-minus (n / 10), e)
stack_minus (suc left) n h = elim (Bool-cases (n / 10 == 0)) [
  | inl e ↦ rw (digit_minus n, tenth_minus n, is_zero-minus (n / 10), e)
  | inr e ↦
      rw (digit_minus n, tenth_minus n, is_zero-minus (n / 10), e)
        (ap (λ l. minus (n % 10) ∷ l) (stack_minus left (n / 10) (tenth_lt (suc left) n h)))
]

chars_pos : (ds : List ℕ) → AllDigits ds → map to_char (map pos ds) ≡ map (λ d. d + b'0') ds
unfolding to_char
chars_pos [] h = refl
chars_pos (d ∷ ds) h = ap₂ ◌∷◌ (omega arith) (chars_pos ds h.1)

to_char-minus : (d : ℕ) → d < 10 → to_char (minus d) ≡ b'0' - d
unfolding to_char ◌-ℤ◌
to_char-minus d h = ground arith

chars_minus : (ds : List ℕ) → AllDigits ds → map to_char (map minus ds) ≡ map (λ d. b'0' - d) ds
chars_minus [] h = refl
chars_minus (d ∷ ds) h = ap₂ ◌∷◌ (to_char-minus d h.0) (chars_minus ds h.1)

pub text_pos :
    (n : ℕ) → n < 2 ^ 31 → itoa_text (pos n) ≡ reverse (map (λ d. d + b'0') (digits 11 n))
unfolding itoa_text
text_pos n h = rw (stack_pos 10 n (omega arith), chars_pos (digits 11 n) (digits-AllDigits 11 n))

-- The text that `itoa` writes for a number that is not negative reads back as that number.
pub decimal-itoa_text : (n : ℕ) → n < 2 ^ 31 → decimal (itoa_text (pos n)) ≡ some n
decimal-itoa_text n h = rw (text_pos n h) (
    decimal-reverse (digits 11 n) (digits-AllDigits 11 n)
    ∙ ap some (value-digits 11 n (omega arith)))

last_bad : (acc : ℕ) (xs : List ℕ) (c : ℕ) → c < b'0' → decimal_from acc (xs ++ c ∷ []) ≡ none
unfolding decimal_from
last_bad acc [] c h = ground arith
last_bad acc (x ∷ xs) c h = ground (arith, last_bad (acc * 10 + (x - b'0')) xs c h)

decimal_from-append-none :
    (acc : ℕ) (xs ys : List ℕ) → decimal_from acc xs ≡ none → decimal_from acc (xs ++ ys) ≡ none
unfolding decimal_from
decimal_from-append-none acc [] ys h = absurd (ground arith)
decimal_from-append-none acc (x ∷ xs) ys h =
    ground (arith, decimal_from-append-none (acc * 10 + (x - b'0')) xs ys)

mirrored_bad :
    (ds : List ℕ)
    → AllDigits ds
    → value ds ≢ 0
    → decimal_from 0 (reverse (map (λ d. b'0' - d) ds)) ≡ none
mirrored_bad [] h nonzero = absurd (nonzero refl)
mirrored_bad (d ∷ ds) h nonzero = elim (ℕ_discrete (value ds) 0) [
  | yes e ↦ rw reverse-cons (last_bad 0 (reverse (map (λ d. b'0' - d) ds)) (b'0' - d) (omega arith))
  | no ne ↦
      rw reverse-cons
        (decimal_from-append-none 0 (reverse (map (λ d. b'0' - d) ds)) _ (mirrored_bad ds h.1 ne))
]

-- For a negative number of 32 bits `itoa` writes no decimal text: there is no sign, and each digit
-- `d` of the absolute value comes out as the character `'0' - d`.
pub itoa_text_negative :
    (n : ℕ)
    → 0 < n
    → n ≤ 2 ^ 31
    → (itoa_text (minus n) ≡ reverse (map (λ d. b'0' - d) (digits 11 n)))
      × (decimal (itoa_text (minus n)) ≡ none)
unfolding itoa_text decimal
itoa_text_negative n p h =
    let ok = digits-AllDigits 11 n in
    let text : itoa_text (minus n) ≡ reverse (map (λ d. b'0' - d) (digits 11 n)) =
      rw (stack_minus 10 n (omega arith), chars_minus (digits 11 n) ok) in
    let same : value (digits 11 n) ≡ n = value-digits 11 n (omega arith) in
    (text, ap (decimal_from 0) text ∙ mirrored_bad (digits 11 n) ok (omega arith))

-- At most eleven characters, so that they fit a buffer of twelve with the NUL behind them.
pub length-itoa_text : (n : ℕ) → n < 2 ^ 31 → length (itoa_text (pos n)) ≤ 11
length-itoa_text n h = rw (text_pos n h) (
    omega (
      arith,
      length-reverse (map (λ d. d + b'0') (digits 11 n)),
      length-map (digits 11 n) (λ d. d + b'0'),
      length-digits 11 n,
    ))
