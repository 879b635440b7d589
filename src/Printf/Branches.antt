-- ===== src/Printf/Branches.antt =====
-- What one round of the loop of `printf` puts.
use mathlib.Core.List.{append_assoc, append-nil}
use horizon_os.Prelude.{
  ℕ, suc, ◌+◌, ◌-◌, ◌≤◌, ◌<◌, ◌≡◌, ◌∙◌, refl, sym, ap, Bool, false, Bool-cases, inl, inr, Option,
  none, some, Option-cases, List, [], ◌∷◌, ◌++◌, length, length-append, arith, ltb, ◌==◌,
}
use horizon_os.Console.Format.{Arg, va_num, va_text}
use horizon_os.Printf.{
  int_max, Round, on, print, until_percent, put_run, put_number, put_text, plain_run, directive,
  round,
}
use horizon_os.Printf.Expand.{prepend, number, text_of, literal, meaning, expand}

print_lem : (cs out : List ℕ) → print cs out ≡ out ++ cs
unfolding print
print_lem [] out = sym (append-nil out)
print_lem (c ∷ cs) out = print_lem cs (out ++ c ∷ []) ∙ append_assoc out (c ∷ []) cs

pub prepend-some :
    (str t : List ℕ) (o : Option (List ℕ))
    → prepend str o ≡ some t
    → (u : List ℕ) × (o ≡ some u) × (t ≡ str ++ u)
prepend-some str t none e = absurd (cc e)
prepend-some str t (some u) e = (u, refl, cc e)

pub expand-plain :
    (c : ℕ) (cs : List ℕ) (args : List Arg) (t : List ℕ)
    → (c == b'%') ≡ false
    → expand (c ∷ cs) args ≡ some t
    → (u : List ℕ) × (expand cs args ≡ some u) × (t ≡ c ∷ u)
unfolding expand
expand-plain c [] args t h e = ([], refl, cc e)
expand-plain c (d ∷ ds) args t h e = prepend-some (c ∷ []) t (expand (d ∷ ds) args) (rw h at e)

-- A run of text stands for itself.
expand-until_percent :
    (cs : List ℕ) (args : List Arg) (t : List ℕ)
    → expand cs args ≡ some t
    → let (run, rest) = until_percent cs in
      (u : List ℕ) × (t ≡ run ++ u) × (expand rest args ≡ some u) × (length rest ≤ length cs)
unfolding until_percent
expand-until_percent [] args t e = (t, refl, e, omega arith)
expand-until_percent (c ∷ cs) args t e = elim (Bool-cases (c == b'%')) [
  | inl mark ↦ rw mark (t, refl, e, omega arith)
  | inr other ↦
      let (v, ev, tv) = expand-plain c cs args t other e in
      let (u, tu, eu, shorter) = expand-until_percent cs args v ev in
      rw other (u, tv ∙ ap (λ x. c ∷ x) tu, eu, omega (arith, shorter))
]

pub put_lem :
    (failed : Bool) (str rest : List ℕ) (args : List Arg) (written : ℕ) (out : List ℕ)
    → failed ≡ false
    → written + length str ≤ int_max
    → put_run failed str rest args written out ≡ on rest args (written + length str) (out ++ str)
unfolding put_run
put_lem failed str rest args written out e fits =
    let small : ltb int_max (written + length str) ≡ false = ground arith in
    rw (e, small, print_lem str out)

number-some :
    (show : ℕ → List ℕ) (args : List Arg) (str : List ℕ) (rest : List Arg)
    → number show args ≡ some (str, rest)
    → (n : ℕ) × (va_num args ≡ some (n, rest)) × (str ≡ show n)
number-some show args str rest e = elim (Option-cases (va_num args)) [
  | inl missing ↦ absurd (cc (rw (missing, number) at e))
  | inr ((n, args'), found) ↦
      let same : some (show n, args') ≡ some (str, rest) = rw (found, number) at e in
      (n, found ∙ cc same, cc same)
]

text_of-eq : (a b : Option (List ℕ × List Arg)) → text_of a ≡ text_of b → a ≡ b
text_of-eq a b e = cc e

-- A round takes some of the text, and something of the format.
abbrev pub Goes : List ℕ → List Arg → ℕ → List ℕ → List ℕ → Type 0
Goes format args written out t =
    (str : List ℕ) × (rest : List ℕ) × (args' : List Arg) × (u : List ℕ) × ((round format args
          written out
        ≡ on rest args' (written + length str) (out ++ str))
      × (t ≡ str ++ u)
      × (expand rest args' ≡ some u)
      × (length rest < length format))

module _ (args : List Arg) (written : ℕ) (out : List ℕ) where
  pub plain_lem :
      (c : ℕ) (cs u : List ℕ)
      → expand cs args ≡ some u
      → written + suc (length u) ≤ int_max
      → let (run, rest) = until_percent cs in
        (v : List ℕ) × ((plain_run c cs args written out
            ≡ on rest args (written + length (c ∷ run)) (out ++ c ∷ run))
          × (u ≡ run ++ v)
          × (expand rest args ≡ some v)
          × (length rest ≤ length cs))
  unfolding plain_run
  plain_lem c cs u e fits =
      let (run, rest) = until_percent cs in
      let (v, uv, ev, shorter) = expand-until_percent cs args u e in
      let len : length u ≡ length run + length v = ap length uv ∙ length-append run v in
      (
        v,
        (
          put_lem _ (c ∷ run) rest args written out (ground (arith, len, fits))
              (omega (arith, len)),
          uv,
          ev,
          shorter,
        ),
      )

  put_number_lem :
      (missing : Round) (show : ℕ → List ℕ) (ds str : List ℕ) (rest : List Arg)
      → text_of (number show args) ≡ text_of (some (str, rest))
      → written + length str < int_max
      → put_number missing (int_max - written == 0) show ds args written out
        ≡ on ds rest (written + length str) (out ++ str)
  unfolding put_number
  put_number_lem missing show ds str rest e fits =
      let (n, va, shown) = number-some show args str rest (text_of-eq _ _ e) in
      let room : (int_max - written == 0) ≡ false = ground (arith, fits) in
      rw (va, put_number, ← shown) (put_lem _ str ds rest written out room (omega arith))

  put_text_lem :
      (ds str : List ℕ) (rest : List Arg)
      → text_of (va_text args) ≡ text_of (some (str, rest))
      → written + length str < int_max
      → put_text ds args written out ≡ on ds rest (written + length str) (out ++ str)
  unfolding put_text
  put_text_lem ds str rest e fits =
      rw (text_of-eq _ _ e, put_text)
        (put_lem _ str ds rest written out (ground (arith, fits)) (omega arith))

  pub directive-text_of :
      (d : ℕ) (ds str : List ℕ) (rest : List Arg)
      → meaning d args ≡ text_of (some (str, rest))
      → written + length str < int_max
      → directive (d ∷ ds) args written out ≡ on ds rest (written + length str) (out ++ str)
  unfolding directive meaning
  directive-text_of d ds str rest e fits = elim (Bool-cases (d == b'c')) [
    | inl is_c ↦ rw is_c (put_number_lem _ _ ds str rest (rw is_c at e) fits)
    | inr no_c ↦
        let e1 = rw no_c at e in
        elim (Bool-cases (d == b's')) [
          | inl is_s ↦ rw (no_c, is_s) (put_text_lem ds str rest (rw is_s at e1) fits)
          | inr no_s ↦
              let e2 = rw no_s at e1 in
              elim (Bool-cases (d == b'd')) [
                | inl is_d ↦
                    rw (no_c, no_s, is_d) (put_number_lem _ _ ds str rest (rw is_d at e2) fits)
                | inr no_d ↦
                    let e3 = rw no_d at e2 in
                    elim (Bool-cases (d == b'x')) [
                      | inl is_x ↦
                          rw (no_c, no_s, no_d, is_x)
                            (put_number_lem _ _ ds str rest (rw is_x at e3) fits)
                      | inr no_x ↦ absurd (cc (rw no_x at e3))
                    ]
              ]
        ]
  ]

  pub directive-literal :
      (d : ℕ) (ds : List ℕ)
      → meaning d args ≡ literal
      → written + length (b'%' ∷ d ∷ ds) < int_max
      → directive (d ∷ ds) args written out
        ≡ on [] args (written + length (b'%' ∷ d ∷ ds)) (out ++ b'%' ∷ d ∷ ds)
  unfolding directive meaning
  directive-literal d ds e fits =
      let str = b'%' ∷ d ∷ ds in
      let shown =
        put_lem (ltb (int_max - written) (length str)) str [] args written out
          (ground (arith, fits)) (omega arith) in
      ground (arith, e, shown)
