-- ===== src/Printf/Numerals.antt =====
-- The digits of a number against what `itoa` and `itoa_hex` write.
use horizon_os.Prelude.{
  ℕ, zero, suc, ◌+◌, ◌/◌, ◌%◌, ◌^◌, ◌≤◌, ◌<◌, ◌≡◌, ◌≢◌, ◌∙◌, refl, ap, ap₂, sym, true, false, List,
  [], ◌∷◌, ◌++◌, map, reverse, get_or, every_below, at-every_below, arith, ltb, ◌==◌, if◌then◌else◌,
  Bool-cases, inl, inr, ==_iff,
}
use mathlib.Core.List.{reverse-cons}
use native.Mathlib.Nat.{pow-suc, mod-lt}
use horizon_os.Prelude.Int.{pos}
use horizon_os.Cstring.{itoa_text, hex_text, hex_stack, hex_char, nul}
use horizon_os.Cstring.Decimal.{text_pos, digits}
use horizon_os.Printf.{before_nul}

-- The digits of a number in a base, the lowest first, at most `left` of them.
unfoldable pub digits_in : ℕ → ℕ → ℕ → List ℕ
digits_in base zero n = []
digits_in base (suc left) n =
    let rest = digits_in base left (n / base) in (n % base) ∷ (if n / base == 0 then [] else rest)

abbrev pub digit_chars : List ℕ
digit_chars =
    b'0' ∷ b'1' ∷ b'2' ∷ b'3' ∷ b'4' ∷ b'5' ∷ b'6' ∷ b'7' ∷ b'8' ∷ b'9' ∷ b'a' ∷ b'b' ∷ b'c' ∷ b'd'
    ∷ b'e' ∷ b'f' ∷ []

abbrev digit_at : ℕ → ℕ
digit_at d = get_or digit_chars d 0

-- A number below 2^32 in a base of 10 or 16: its digits, the highest first. Eleven are enough.
abbrev pub numeral : ℕ → ℕ → List ℕ
numeral base n = reverse (map (λ d. digit_at d) (digits_in base 11 n))

digit_table : every_below 16 (λ d. digit_at d == hex_char d) ≡ true
unfolding every_below hex_char
digit_table = refl

digit_at-hex_char : (d : ℕ) → d < 16 → digit_at d ≡ hex_char d
digit_at-hex_char d h =
    (==_iff (digit_at d) (hex_char d)).0
      (at-every_below 16 (λ d. digit_at d == hex_char d) d digit_table h)

digit_at-decimal : (d : ℕ) → d < 10 → digit_at d ≡ d + b'0'
unfolding hex_char
digit_at-decimal d h = digit_at-hex_char d (omega (arith, h)) ∙ ground (arith, h)

decimal_digits :
    (left n : ℕ) → map (λ d. digit_at d) (digits_in 10 left n) ≡ map (λ d. d + b'0') (digits left n)
unfolding digits_in digits
decimal_digits zero n = refl
decimal_digits (suc left) n = elim (Bool-cases (n / 10 == 0)) [
  | inl e ↦ rw e (ap (λ c. c ∷ []) (digit_at-decimal (n % 10) (omega arith)))
  | inr e ↦ rw e (ap₂ ◌∷◌ (digit_at-decimal (n % 10) (omega arith)) (decimal_digits left (n / 10)))
]

hex_stack-zero : (left : ℕ) → hex_stack left 0 ≡ []
unfolding hex_stack
hex_stack-zero zero = refl
hex_stack-zero (suc left) = refl

hex_digits :
    (left more n : ℕ)
    → 0 < n
    → n < 16 ^ left
    → left ≤ more
    → map (λ d. digit_at d) (digits_in 16 more n) ≡ hex_stack left n
unfolding digits_in hex_stack
hex_digits zero more n some_digit h k = absurd (omega (arith, some_digit, h))
hex_digits (suc left) zero n some_digit h k = absurd (omega (arith, k))
hex_digits (suc left) (suc more) n some_digit h k =
    let stack : ltb 0 n ≡ true = ground (arith, some_digit) in
    let first = digit_at-hex_char (n % 16) (omega arith) in
    elim (Bool-cases (n / 16 == 0)) [
      | inl e ↦
          let last : n / 16 ≡ 0 = (==_iff (n / 16) 0).0 e in
          rw (e, stack) (ap₂ ◌∷◌ first (sym (ap (hex_stack left) last ∙ hex_stack-zero left)))
      | inr e ↦
          let small : n / 16 < 16 ^ left = omega (arith, pow-suc 16 left, h) in
          rw (e, stack)
            (ap₂ ◌∷◌ first
              (hex_digits left more (n / 16) (ground (arith, e)) small (omega (arith, k))))
    ]

before_nul-last :
    (xs : List ℕ) (c : ℕ) → c ≢ nul → before_nul xs ≡ xs → before_nul (xs ++ c ∷ []) ≡ xs ++ c ∷ []
unfolding before_nul
before_nul-last [] c other h = let e : (c == nul) ≡ false = ground (arith, other) in rw e refl
before_nul-last (x ∷ xs) c other h = elim (Bool-cases (x == nul)) [
  | inl e ↦ absurd (cc (rw e at h))
  | inr e ↦ rw e (ap (λ l. x ∷ l) (before_nul-last xs c other (cc (rw e at h))))
]

digits_plain :
    (base left n : ℕ)
    → 0 < base
    → base ≤ 16
    → before_nul (reverse (map (λ d. digit_at d) (digits_in base left n)))
      ≡ reverse (map (λ d. digit_at d) (digits_in base left n))
unfolding digits_in before_nul hex_char
digits_plain base zero n h k = refl
digits_plain base (suc left) n h k =
    let small : n % base < 16 = omega (arith, mod-lt n h, k) in
    let first : digit_at (n % base) ≢ nul =
      λ e. ground (arith, sym (digit_at-hex_char (n % base) small) ∙ e) in
    let rest =
      map (λ d. digit_at d) (if n / base == 0 then [] else digits_in base left (n / base)) in
    let plain : before_nul (reverse rest) ≡ reverse rest = elim (Bool-cases (n / base == 0)) [
      | inl e ↦ rw e refl
      | inr e ↦ rw e (digits_plain base left (n / base) h k)
    ] in
    rw (reverse-cons (digit_at (n % base)) rest) (before_nul-last (reverse rest) _ first plain)

pub itoa_text-numeral : (n : ℕ) → n < 2 ^ 31 → before_nul (itoa_text (pos n)) ≡ numeral 10 n
itoa_text-numeral n h =
    let same : itoa_text (pos n) ≡ numeral 10 n =
      text_pos n h ∙ ap reverse (sym (decimal_digits 11 n)) in
    ap before_nul same ∙ digits_plain 10 11 n (omega arith) (omega arith)

pub hex_text-numeral : (n : ℕ) → n < 2 ^ 32 → before_nul (hex_text n) ≡ numeral 16 n
unfolding hex_text digits_in
hex_text-numeral n h =
    let same : hex_text n ≡ numeral 16 n = elim (Bool-cases (n == 0)) [
      | inl e ↦ let null : n ≡ 0 = (==_iff n 0).0 e in rw e (ap (numeral 16) (sym null))
      | inr e ↦ rw e (
          ap reverse (sym (hex_digits 8 11 n (ground (arith, e)) (omega (arith, h)) (omega arith))))
    ] in
    ap before_nul same ∙ digits_plain 16 11 n (omega arith) (omega arith)
