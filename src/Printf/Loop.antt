-- ===== src/Printf/Loop.antt =====
-- `printf` against the text that its format stands for.
use mathlib.Core.List.{append_assoc, append-nil}
use horizon_os.Prelude.{
  ℕ, zero, suc, ◌+◌, ◌<◌, ◌≡◌, ◌∙◌, refl, sym, ap, ap₂, true, Bool-cases, ==_iff, ◌⊎◌, inl, inr,
  none, some, List, [], ◌∷◌, ◌++◌, length, length-append, arith, ◌==◌,
}
use horizon_os.Prelude.Int.{pos}
use horizon_os.Console.Format.{Arg}
use horizon_os.Printf.{
  int_max, returned, until_percent, starts_percent, directive, round, printf_loop, printf,
}
use horizon_os.Printf.Expand.{Meaning, text_of, literal, meaning, expand}
use horizon_os.Printf.Text.{format_text, expands}
use horizon_os.Printf.Branches.{
  prepend-some, expand-plain, put_lem, Goes, plain_lem, directive-text_of, directive-literal,
}

Meaning-cases :
    (m : Meaning)
    → (m ≡ literal)
      ⊎ (m ≡ text_of none)
      ⊎ ((str : List ℕ) × (rest : List Arg) × (m ≡ text_of (some (str, rest))))
Meaning-cases literal = inl refl
Meaning-cases (text_of none) = inr (inl refl)
Meaning-cases (text_of (some (str, rest))) = inr (inr (str, rest, refl))

module _ (c : ℕ) (args : List Arg) (written : ℕ) (out t : List ℕ) (mark : (c == b'%') ≡ true) where
  is_percent : c ≡ b'%'
  is_percent = (==_iff c b'%').0 mark

  -- The round at a `%`.
  percent_lem :
      (cs : List ℕ)
      → expand (c ∷ cs) args ≡ some t
      → written + length t < int_max
      → Goes (c ∷ cs) args written out t
  unfolding round starts_percent expand
  percent_lem [] e fits =
      let whole : t ≡ b'%' ∷ [] = sym (cc e) ∙ ap (λ x. x ∷ []) is_percent in
      let len : length t ≡ 1 = ap length whole in
      (
        b'%' ∷ [],
        [],
        args,
        [],
        (
          rw mark (
              unfold directive in
              put_lem _ (b'%' ∷ []) [] args written out (ground (arith, len, fits))
                (omega (arith, len))),
          whole,
          refl,
          omega arith,
        ),
      )
  percent_lem (d ∷ ds) e fits = elim (Bool-cases (d == b'%')) [
    | inl again ↦
        let (u, eu, tu) = prepend-some (b'%' ∷ []) t (expand ds args) (rw (mark, again) at e) in
        let len : length t ≡ suc (length u) = ap length tu in
        let (v, (went, uv, ev, shorter)) =
          plain_lem args written out d ds u eu (omega (arith, len)) in
        let same : d ≡ b'%' = (==_iff d b'%').0 again in
        (
          d ∷ (until_percent ds).0,
          (until_percent ds).1,
          args,
          v,
          (rw (mark, again) went, tu ∙ cc (uv, same), ev, omega (arith, shorter)),
        )
    | inr other ↦ elim (Meaning-cases (meaning d args)) [
      | inl none_known ↦
          let whole : t ≡ b'%' ∷ d ∷ ds =
            sym (cc (rw (mark, other, none_known) at e)) ∙ ap (λ x. x ∷ d ∷ ds) is_percent in
          let len : length t ≡ suc (suc (length ds)) = ap length whole in
          (
            b'%' ∷ d ∷ ds,
            [],
            args,
            [],
            (
              rw (mark, other)
                  (directive-literal args written out d ds none_known (omega (arith, len))),
              whole ∙ sym (append-nil (b'%' ∷ d ∷ ds)),
              refl,
              omega arith,
            ),
          )
      | inr (inl absent) ↦ absurd (cc (rw (mark, other, absent) at e))
      | inr (inr (str, rest, known)) ↦
          let (u, eu, tu) = prepend-some str t (expand ds rest) (rw (mark, other, known) at e) in
          let len : length t ≡ length str + length u = ap length tu ∙ length-append str u in
          (
            str,
            ds,
            rest,
            u,
            (
              rw (mark, other)
                  (directive-text_of args written out d ds str rest known (omega (arith, len))),
              tu,
              eu,
              omega arith,
            ),
          )
    ]
  ]

round_lem :
    (c : ℕ) (cs : List ℕ) (args : List Arg) (written : ℕ) (out t : List ℕ)
    → expand (c ∷ cs) args ≡ some t
    → written + length t < int_max
    → Goes (c ∷ cs) args written out t
unfolding round starts_percent
round_lem c cs args written out t e fits = elim (Bool-cases (c == b'%')) [
  | inl mark ↦ percent_lem c args written out t mark cs e fits
  | inr other ↦
      let (u, eu, tu) = expand-plain c cs args t other e in
      let len : length t ≡ suc (length u) = ap length tu in
      let (v, (went, uv, ev, shorter)) =
        plain_lem args written out c cs u eu (omega (arith, len)) in
      (
        c ∷ (until_percent cs).0,
        (until_percent cs).1,
        args,
        v,
        (rw other went, tu ∙ ap (λ x. c ∷ x) uv, ev, omega (arith, shorter)),
      )
]

printf_loop_lem :
    (fuel : ℕ) (format : List ℕ) (args : List Arg) (written : ℕ) (out t : List ℕ)
    → expand format args ≡ some t
    → written + length t < int_max
    → length format < fuel
    → printf_loop fuel format args written out ≡ returned (pos (written + length t)) (out ++ t)
unfolding printf_loop
printf_loop_lem zero format args written out t e fits enough = absurd (omega arith)
printf_loop_lem (suc fuel) [] args written out t e fits enough =
    let empty : [] ≡ t = unfold expand in cc e in
    rw (← empty, append-nil) (unfold round in ap (λ n. returned (pos n) out) (omega arith))
printf_loop_lem (suc fuel) (c ∷ cs) args written out t e fits enough =
    let (str, rest, args', u, (went, tu, eu, shorter)) = round_lem c cs args written out t e fits in
    let len : length t ≡ length str + length u = ap length tu ∙ length-append str u in
    let after =
      printf_loop_lem fuel rest args' (written + length str) (out ++ str) u eu (omega (arith, len))
        (omega (arith, shorter)) in
    let count : written + length str + length u ≡ written + length t = omega (arith, len) in
    rw (went, printf_loop)
      (after
        ∙ ap₂ (λ n x. returned (pos n) x) count
            (append_assoc out str u ∙ ap (λ x. out ++ x) (sym tu)))

-- Where every directive of the format has an argument of its kind, those of `%d` not negative as
-- `int`s, and the text that the format stands for, with a number as its digits in base 10 or 16, is
-- shorter than the largest `int`: `printf` puts exactly this text, and returns its length.
pub printf_lem :
    (format : List ℕ) (args : List Arg) (out t : List ℕ)
    → format_text format args ≡ some t
    → length t < int_max
    → printf format args out ≡ returned (pos (length t)) (out ++ t)
unfolding printf
printf_lem format args out t e fits =
    printf_loop_lem (suc (length format)) format args 0 out t (expands format args t e)
      (omega arith) (omega arith)
    ∙ ap (λ n. returned (pos n) (out ++ t)) (omega arith)
