-- ===== src/Serial/Same.antt =====
-- The console and the serial line show the same text.
use horizon_os.Prelude.{
  ℕ, zero, suc, ◌+◌, ◌/◌, ◌%◌, ◌^◌, ◌≤◌, ◌<◌, ◌≡◌, refl, ap, sym, ◌∙◌, inl, inr, Bool, true, false,
  Option, none, some, List, [], ◌∷◌, ◌++◌, reverse, arith, ◌==◌, get_or, if◌then◌else◌, Bool-cases,
  every_below, at-every_below,
}
use mathlib.Core.List.{reverse-cons, append_assoc, append-nil}
use native.Mathlib.Nat.{mod-lt}
use horizon_os.Prelude.Int.{ℤ, pos, negsuc, to_int}
use horizon_os.Console.{Console, console_putchar, console_puts}
use horizon_os.Console.Format.{
  Arg, va_num, va_text, to_int64, ◌>>=◌, digit_char, console_digits, console_write_uint,
  console_write_int, console_directive, console_long_directive, console_vprintf, after_percent,
  after_long,
}
use horizon_os.Serial.{
  serial_putchar, serial_write, hex_digits, serial_digits, serial_write_uint, serial_write_int,
  serial_directive, serial_long_directive, serial_vprintf, serial_percent, serial_long,
}

digit_same : (d : ℕ) → d < 16 → get_or hex_digits d 0 ≡ digit_char d
unfolding digit_char every_below
digit_same d h =
    ground (arith, at-every_below 16 (λ d. get_or hex_digits d 0 == digit_char d) d refl h)

digits_same :
    (left val base : ℕ) (filled : List ℕ)
    → 0 < base
    → base ≤ 16
    → serial_digits left val base filled ≡ reverse (console_digits left val base) ++ filled
unfolding serial_digits console_digits
digits_same zero val base filled h k = refl
digits_same (suc left) val base filled h k = elim (Bool-cases (val == 0)) [
  | inl e ↦ rw e refl
  | inr e ↦
      let digits = console_digits left (val / base) base in
      let first : get_or hex_digits (val % base) 0 ≡ digit_char (val % base) =
        digit_same (val % base) (omega (arith, mod-lt val h)) in
      rw (e, first)
        (digits_same left (val / base) base (digit_char (val % base) ∷ filled) h k
          ∙ (sym (append_assoc (reverse digits) (digit_char (val % base) ∷ []) filled)
              ∙ ap (λ l. l ++ filled) (sym (reverse-cons (digit_char (val % base)) digits))))
]

pub puts-append :
    (xs ys : List ℕ) (c : Console) → console_puts (xs ++ ys) c ≡ console_puts ys (console_puts xs c)
unfolding console_puts
puts-append [] ys c = refl
puts-append (x ∷ xs) ys c = puts-append xs ys (console_putchar x c)

pub serial_write-append : (s sent : List ℕ) → serial_write s sent ≡ sent ++ s
unfolding serial_write serial_putchar
serial_write-append [] sent = sym (append-nil sent)
serial_write-append (ch ∷ chs) sent =
    serial_write-append chs (sent ++ ch ∷ []) ∙ append_assoc sent (ch ∷ []) chs

module _ (c : Console) where
  puts_same :
      (s sent : List ℕ)
      → console_puts s (console_puts sent c) ≡ console_puts (serial_write s sent) c
  puts_same s sent =
      sym (puts-append sent s c) ∙ ap (λ l. console_puts l c) (sym (serial_write-append s sent))

  putchar_same :
      (ch : ℕ) (sent : List ℕ)
      → console_putchar ch (console_puts sent c) ≡ console_puts (serial_putchar ch sent) c
  unfolding serial_putchar console_puts
  putchar_same ch sent = sym (puts-append sent (ch ∷ []) c)

  uint_same :
      (val base : ℕ) (sent : List ℕ)
      → 0 < base
      → base ≤ 16
      → console_write_uint val base (console_puts sent c)
        ≡ console_puts (serial_write_uint val base sent) c
  unfolding console_write_uint serial_write_uint
  uint_same val base sent h k = elim (Bool-cases (val == 0)) [
    | inl e ↦ rw e (putchar_same b'0' sent)
    | inr e ↦
        let digits = reverse (console_digits 64 val base) in
        let same : serial_digits 64 val base [] ≡ digits =
          digits_same 64 val base [] h k ∙ append-nil digits in
        rw e (puts_same digits sent ∙ ap (λ l. console_puts (serial_write l sent) c) (sym same))
  ]

  int_same :
      (val : ℤ) (sent : List ℕ)
      → console_write_int val (console_puts sent c) ≡ console_puts (serial_write_int val sent) c
  unfolding console_write_int serial_write_int
  int_same (pos n) sent = uint_same n 10 sent (omega arith) (omega arith)
  int_same (negsuc n) sent =
      rw (putchar_same b'-' sent)
        (uint_same (n + 1) 10 (serial_putchar b'-' sent) (omega arith) (omega arith))

  -- What both do after a directive.
  shown : List Arg × List ℕ → Option (List Arg × Console)
  shown r = some (r.0, console_puts r.1 c)

  if_same :
      (b : Bool) (x y : Option (List Arg × Console)) (s t : Option (List Arg × List ℕ))
      → x ≡ (s >>= shown)
      → y ≡ (t >>= shown)
      → (if b then x else y) ≡ ((if b then s else t) >>= shown)
  if_same true x y s t e f = e
  if_same false x y s t e f = f

  arg_same :
      {A : Type 0} (o : Option (A × List Arg)) (f : A → Console) (g : A → List ℕ)
      → ((a : A) → f a ≡ console_puts (g a) c)
      → (o >>= λ r. some (r.1, f r.0)) ≡ ((o >>= λ r. some (r.1, g r.0)) >>= shown)
  unfolding shown
  arg_same none f g e = refl
  arg_same (some (a, rest)) f g e = ap (λ k. some (rest, k)) (e a)

  directive_same :
      (ch : ℕ) (args : List Arg) (sent : List ℕ)
      → console_directive ch args (console_puts sent c) ≡ (serial_directive ch args sent >>= shown)
  unfolding console_directive serial_directive shown
  directive_same ch args sent =
      let at = console_puts sent c in
      let prefix = b'0' ∷ b'x' ∷ [] in
      if_same (ch == b'd') _ _ _ _
        (arg_same (va_num args) (λ n. console_write_int (to_int (n % 2 ^ 32)) at)
          (λ n. serial_write_int (to_int (n % 2 ^ 32)) sent)
          (λ n. int_same (to_int (n % 2 ^ 32)) sent))
        (if_same (ch == b'u') _ _ _ _
          (arg_same (va_num args) (λ n. console_write_uint (n % 2 ^ 32) 10 at)
            (λ n. serial_write_uint (n % 2 ^ 32) 10 sent)
            (λ n. uint_same (n % 2 ^ 32) 10 sent (omega arith) (omega arith)))
          (if_same (ch == b'x') _ _ _ _
            (arg_same (va_num args) (λ n. console_write_uint (n % 2 ^ 32) 16 at)
              (λ n. serial_write_uint (n % 2 ^ 32) 16 sent)
              (λ n. uint_same (n % 2 ^ 32) 16 sent (omega arith) (omega arith)))
            (if_same (ch == b'p') _ _ _ _
              (arg_same (va_num args) (λ n. console_write_uint n 16 (console_puts prefix at))
                (λ n. serial_write_uint n 16 (serial_write prefix sent))
                (λ n.
                  ap (console_write_uint n 16) (puts_same prefix sent)
                  ∙ uint_same n 16 (serial_write prefix sent) (omega arith) (omega arith)))
              (if_same (ch == b's') _ _ _ _
                (arg_same (va_text args) (λ s. console_puts s at) (λ s. serial_write s sent)
                  (λ s. puts_same s sent))
                (if_same (ch == b'c') _ _ _ _
                  (arg_same (va_num args) (λ n. console_putchar (n % 2 ^ 8) at)
                    (λ n. serial_putchar (n % 2 ^ 8) sent) (λ n. putchar_same (n % 2 ^ 8) sent))
                  (if_same (ch == b'%') _ _ _ _ (ap (λ k. some (args, k)) (putchar_same b'%' sent))
                    (ap (λ k. some (args, k))
                      (ap (console_putchar ch) (putchar_same b'%' sent)
                        ∙ putchar_same ch (serial_putchar b'%' sent)))))))))

  long_directive_same :
      (ch : ℕ) (args : List Arg) (sent : List ℕ)
      → console_long_directive ch args (console_puts sent c)
        ≡ (serial_long_directive ch args sent >>= shown)
  unfolding console_long_directive serial_long_directive shown
  long_directive_same ch args sent =
      let at = console_puts sent c in
      if_same (ch == b'd') _ _ _ _
        (arg_same (va_num args) (λ n. console_write_int (to_int64 n) at)
          (λ n. serial_write_int (to_int64 n) sent) (λ n. int_same (to_int64 n) sent))
        (if_same (ch == b'u') _ _ _ _
          (arg_same (va_num args) (λ n. console_write_uint n 10 at)
            (λ n. serial_write_uint n 10 sent)
            (λ n. uint_same n 10 sent (omega arith) (omega arith)))
          (if_same (ch == b'x') _ _ _ _
            (arg_same (va_num args) (λ n. console_write_uint n 16 at)
              (λ n. serial_write_uint n 16 sent)
              (λ n. uint_same n 16 sent (omega arith) (omega arith)))
            (ap (λ k. some (args, k))
              (ap (λ k. console_putchar ch (console_putchar b'l' k)) (putchar_same b'%' sent)
                ∙ (ap (console_putchar ch) (putchar_same b'l' (serial_putchar b'%' sent))
                    ∙ putchar_same ch (serial_putchar b'l' (serial_putchar b'%' sent)))))))

  bind_same :
      (o : Option (List Arg × Console)) (p : Option (List Arg × List ℕ))
      (f : List Arg → Console → Option Console) (g : List Arg → List ℕ → Option (List ℕ))
      → o ≡ (p >>= shown)
      → ((args : List Arg) (sent : List ℕ)
          → f args (console_puts sent c) ≡ (g args sent >>= λ out. some (console_puts out c)))
      → (o >>= λ r. f r.0 r.1) ≡ ((p >>= λ r. g r.0 r.1) >>= λ out. some (console_puts out c))
  unfolding shown
  bind_same o none f g e h = rw e refl
  bind_same o (some (args, sent)) f g e h = rw e (h args sent)

  mutual
    unfolding console_vprintf serial_vprintf

    vprintf_same :
        (fmt : List ℕ) (args : List Arg) (sent : List ℕ)
        → console_vprintf fmt args (console_puts sent c)
          ≡ (serial_vprintf fmt args sent >>= λ out. some (console_puts out c))
    vprintf_same [] args sent = refl
    vprintf_same (ch ∷ fmt) args sent = elim (Bool-cases (ch == b'%')) [
      | inl e ↦ rw (e, console_vprintf, serial_vprintf) (percent_same fmt args sent)
      | inr e ↦
          rw (e, console_vprintf, serial_vprintf, putchar_same ch sent)
            (vprintf_same fmt args (serial_putchar ch sent))
    ]

    percent_same :
        (fmt : List ℕ) (args : List Arg) (sent : List ℕ)
        → after_percent fmt args (console_puts sent c)
          ≡ (serial_percent fmt args sent >>= λ out. some (console_puts out c))
    percent_same [] args sent = refl
    percent_same (ch ∷ fmt) args sent = elim (Bool-cases (ch == b'l')) [
      | inl e ↦ rw (e, after_percent, serial_percent) (long_same fmt args sent)
      | inr e ↦
          rw (e, after_percent, serial_percent)
            (bind_same _ _ (console_vprintf fmt) (serial_vprintf fmt) (directive_same ch args sent)
              (vprintf_same fmt))
    ]

    long_same :
        (fmt : List ℕ) (args : List Arg) (sent : List ℕ)
        → after_long fmt args (console_puts sent c)
          ≡ (serial_long fmt args sent >>= λ out. some (console_puts out c))
    long_same [] args sent = refl
    long_same (ch ∷ fmt) args sent =
        bind_same _ _ (console_vprintf fmt) (serial_vprintf fmt) (long_directive_same ch args sent)
          (vprintf_same fmt)

-- The console shows exactly the characters that go out on the serial line for the same format and
-- arguments, in the same order, and the one is undefined (a missing argument, one of the other kind,
-- or a format that ends within a directive) exactly where the other is.
pub console_vprintf-serial_vprintf :
    (fmt : List ℕ) (args : List Arg) (c : Console)
    → console_vprintf fmt args c ≡ (serial_vprintf fmt args [] >>= λ out. some (console_puts out c))
unfolding console_puts
console_vprintf-serial_vprintf fmt args c = vprintf_same c fmt args []
