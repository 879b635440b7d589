-- ===== src/Terminal/Decimal.antt =====
-- `terminal_write_dec` of arch/i386/drivers/tty.c. Its array `tmp` has 11 slots, which are the fuel of
-- the loop that fills it; `none` means that they do not suffice.
use mathlib.Core.List.{append_assoc, append-nil}
use horizon_os.Prelude.{
  ℕ, zero, suc, ◌+◌, ◌*◌, ◌/◌, ◌%◌, ◌^◌, ◌<◌, ◌≤◌, ◌≡◌, ◌∙◌, refl, ap, sym, false, true, Option,
  none, some, List, [], ◌∷◌, ◌++◌, map, length, length-append, length-map, arith, ◌==◌,
  if◌then◌else◌, Bool-cases, inl, inr,
}
use horizon_os.Console.Digits.{number, digit_value, div_small}
use horizon_os.Terminal.{Terminal, terminal_putchar, terminal_write}

-- The digits in `tmp`, the last one first.
unfoldable pub push_digits : ℕ → ℕ → List ℕ → Option (List ℕ)
push_digits zero n tmp = none
push_digits (suc slots) n tmp =
    let more = push_digits slots (n / 10) (n % 10 ∷ tmp) in
    if n / 10 == 0 then some (n % 10 ∷ tmp) else more

unfoldable pub pop_digits : List ℕ → Terminal → Terminal
pop_digits [] t = t
pop_digits (d ∷ tmp) t = pop_digits tmp (terminal_putchar (b'0' + d) t)

unfoldable pub terminal_write_dec : ℕ → Terminal → Option Terminal
terminal_write_dec n t = elim (push_digits 11 n []) [
  | none ↦ none
  | some tmp ↦ some (pop_digits tmp t)
]

abbrev text_of : List ℕ → List ℕ
text_of ds = map (λ d. b'0' + d) ds

pop_digits-write : (ds : List ℕ) (t : Terminal) → pop_digits ds t ≡ terminal_write (text_of ds) t
unfolding pop_digits terminal_write
pop_digits-write [] t = refl
pop_digits-write (d ∷ ds) t = pop_digits-write ds (terminal_putchar (b'0' + d) t)

abbrev value : List ℕ → ℕ
value ds = number 10 0 (text_of ds)

value-last :
    (ds : List ℕ) (so_far d : ℕ)
    → d < 10
    → number 10 so_far (text_of (ds ++ d ∷ [])) ≡ number 10 so_far (text_of ds) * 10 + d
unfolding number digit_value
value-last [] so_far d h = ground arith
value-last (x ∷ ds) so_far d h = value-last ds _ d h

more_slots : (slots n : ℕ) → n < 10 ^ suc slots → (n / 10 == 0) ≡ false → 0 < slots
more_slots zero n h more = ground arith
more_slots (suc slots) n h more = omega arith

-- Every character is one of `0` to `9`.
abbrev pub AllDecimal : List ℕ → Type 0
AllDecimal [] = Unit {0}
AllDecimal (ch ∷ text) = (b'0' ≤ ch) × (ch ≤ b'9') × AllDecimal text

AllDecimal-last :
    (ds : List ℕ) (d : ℕ) → d < 10 → AllDecimal (text_of ds) → AllDecimal (text_of (ds ++ d ∷ []))
AllDecimal-last [] d h k = (omega arith, omega arith, tt)
AllDecimal-last (x ∷ ds) d h (low, high, k) = (low, high, AllDecimal-last ds d h k)

Reads : List ℕ → ℕ → ℕ → Type 0
Reads ds n slots = AllDecimal (text_of ds) × (value ds ≡ n) × (0 < length ds) × (length ds ≤ slots)

one_digit : (n slots : ℕ) → (n / 10 == 0) ≡ true → 0 < slots → Reads (n % 10 ∷ []) n slots
unfolding Reads number digit_value
one_digit n slots done h =
    ((omega arith, omega arith, tt), ground arith, omega arith, omega (arith, h))

last_digit :
    (ds : List ℕ) (n slots : ℕ) → Reads ds (n / 10) slots → Reads (ds ++ n % 10 ∷ []) n (suc slots)
unfolding Reads
last_digit ds n slots (decimal, reads, some_digit, few) = (
  AllDecimal-last ds (n % 10) (omega arith) decimal,
  value-last ds 0 (n % 10) (omega arith) ∙ omega (arith, reads),
  omega (arith, length-append ds (n % 10 ∷ [])),
  omega (arith, length-append ds (n % 10 ∷ []), few),
)

push_digits-some :
    (slots m n : ℕ) (tmp : List ℕ)
    → 0 < m
    → m ≤ slots
    → n < 10 ^ m
    → (ds : List ℕ) × (push_digits slots n tmp ≡ some (ds ++ tmp)) × Reads ds n m
unfolding push_digits
push_digits-some zero m n tmp some_digit fits h = absurd (omega (arith, some_digit, fits))
push_digits-some (suc slots) zero n tmp some_digit fits h = absurd (omega (arith, some_digit))
push_digits-some (suc slots) (suc m) n tmp some_digit fits h = elim (Bool-cases (n / 10 == 0)) [
  | inl done ↦ (n % 10 ∷ [], rw done refl, one_digit n (suc m) done (omega arith))
  | inr more ↦
      let fewer : n / 10 < 10 ^ m =
        div_small n 10 10 (10 ^ m) (omega arith) (omega arith) (omega (arith, h)) in
      let (ds, pushed, reads) =
        push_digits-some slots m (n / 10) (n % 10 ∷ tmp) (more_slots m n h more)
          (omega (arith, fits)) fewer in
      (
        ds ++ n % 10 ∷ [],
        rw more (pushed ∙ ap some (sym (append_assoc ds (n % 10 ∷ []) tmp))),
        last_digit ds n m reads,
      )
]

-- For a number below 2^32 the array suffices, with at most ten digits, and `terminal_write_dec` writes
-- a text of the digits `0` to `9` that reads, in base 10, as the number.
pub terminal_write_dec_lem :
    (n : ℕ) (t : Terminal)
    → n < 2 ^ 32
    → (text : List ℕ) × (terminal_write_dec n t ≡ some (terminal_write text t))
      × AllDecimal text
      × (number 10 0 text ≡ n)
      × (0 < length text)
      × (length text ≤ 10)
unfolding terminal_write_dec Reads
terminal_write_dec_lem n t h =
    let (ds, pushed, (decimal, reads, some_digit, few)) =
      push_digits-some 11 10 n [] (omega arith) (omega arith) (omega (arith, h)) in
    (
      text_of ds,
      ap (λ (o : Option (List ℕ)). elim o [ none ↦ none | some tmp ↦ some (pop_digits tmp t) ])
            (pushed ∙ ap some (append-nil ds))
          ∙ ap some (pop_digits-write ds t),
      decimal,
      reads,
      omega (arith, length-map ds (λ d. b'0' + d), some_digit),
      omega (arith, length-map ds (λ d. b'0' + d), few),
    )
