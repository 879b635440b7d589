-- ===== src/Shell/Args.antt =====
-- What `parse_args` makes of the words behind the name.
use mathlib.Core.List.{append_assoc}
use horizon_os.Prelude.{ℕ, suc, ◌-◌, ◌≤◌, ◌≡◌, ◌∙◌, refl, ap, List, [], ◌∷◌, ◌++◌, length, arith}
use horizon_os.Cstring.{nul}
use horizon_os.Shell.{arg_len, read_at, skip_blanks, overwrite, parse_args}
use horizon_os.Shell.Words.{
  All, IsBlank, Field, IsField, fields, words, Texts, Ended, line_end, skip_blanks-append,
  skip_blanks-word, copy_word-append, Text-overwrite, Ended-fields, stops-blank,
  skip_blanks-line_end, read_at-word,
}

-- A row of `args`.
abbrev pub IsRow : List ℕ → Type 0
IsRow row = length row ≡ arg_len

pub fields-cons :
    (b w : List ℕ) (fs : List Field) (t : List ℕ)
    → fields ((b, w) ∷ fs) ++ t ≡ b ++ (w ++ (fields fs ++ t))
fields-cons b w fs t =
    append_assoc b (w ++ fields fs) t ∙ ap (λ x. b ++ x) (append_assoc w (fields fs) t)

parse_args-stop :
    (after : ℕ) (it dest : List ℕ) (slots : List (List ℕ))
    → read_at after (skip_blanks it) ≡ nul
    → parse_args after it (dest ∷ slots) ≡ (0, dest ∷ slots)
unfolding parse_args
parse_args-stop after it dest slots e = ground (arith, e)

parse_args-more :
    (after : ℕ) (b w it dest : List ℕ) (slots : List (List ℕ))
    → IsField (b, w)
    → Ended it
    → parse_args after (b ++ (w ++ it)) (dest ∷ slots) ≡ (
        let (n, slots') = parse_args after it slots in
        (suc n, overwrite dest (w ++ nul ∷ []) ∷ slots'))
unfolding parse_args
parse_args-more after b w it dest slots (blank, some_blank, (plain, some_plain, short)) e = rw (
  stops-blank b (w ++ it) blank some_blank,
  skip_blanks-append b (w ++ it) blank ∙ skip_blanks-word w it plain some_plain,
  copy_word-append (arg_len - 1) w it plain short e,
  read_at-word after w it plain some_plain,
)

pub parse_args-fields :
    (after : ℕ) (fs : List Field) (b stale : List ℕ) (slots : List (List ℕ))
    → All IsField fs
    → All IsBlank b
    → All IsRow slots
    → length fs ≤ length slots
    → let (n, rows) = parse_args after (fields fs ++ line_end b stale) slots in
      (n ≡ length fs) × Texts rows (words fs)
unfolding read_at
parse_args-fields after [] b stale [] hf hb hs le = unfold parse_args in (refl, tt)
parse_args-fields after [] b stale (dest ∷ slots) hf hb hs le =
    rw
      (parse_args-stop after (line_end b stale) dest slots
        (rw (skip_blanks-line_end b stale hb, read_at)))
      (refl, tt)
parse_args-fields after (f ∷ fs) b stale [] hf hb hs le = absurd (omega arith)
parse_args-fields after ((b', w) ∷ fs) b stale (dest ∷ slots) hf hb hs le =
    let more =
      parse_args-more after b' w (fields fs ++ line_end b stale) dest slots hf.0
        (Ended-fields fs b stale hf.1 hb) in
    let rest = parse_args-fields after fs b stale slots hf.1 hb hs.1 (omega arith) in
    rw (fields-cons b' w fs (line_end b stale), more)
      (ap suc rest.0, (Text-overwrite dest w (omega (arith, hs.0, hf.0)), rest.1))
