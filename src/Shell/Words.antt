-- ===== src/Shell/Words.antt =====
-- What the parser makes of white space and of a word.
use mathlib.Core.List.{append_assoc}
use horizon_os.Prelude.{
  ℕ, zero, suc, ◌-◌, ◌≤◌, ◌<◌, ◌≡◌, ◌≢◌, ◌∙◌, refl, ap, true, false, not, ◌&&◌, List, [], ◌∷◌, ◌++◌,
  length, arith, ◌==◌,
}
use horizon_os.Cstring.{nul}
use horizon_os.Shell.{arg_len, iswhitespace, stops, read_at, skip_blanks, copy_word, overwrite}

abbrev pub IsByte : ℕ → Type 0
IsByte c = c < 256

-- A character of a word.
abbrev pub IsPlain : ℕ → Type 0
IsPlain c = (c ≢ nul) × (iswhitespace c ≡ false) × IsByte c

-- A byte that a word cannot go on with.
abbrev pub EndsWord : ℕ → Type 0
EndsWord c = (not (c == nul) && not (iswhitespace c)) ≡ false

abbrev pub All {ℓ κ} : {A : Type ℓ} → (A → Type κ) → List A → Type κ
All P [] = Unit
All P (x ∷ xs) = P x × All P xs

abbrev pub IsBlank : ℕ → Type 0
IsBlank c = iswhitespace c ≡ true

-- At least one character, and at most `limit`.
abbrev pub IsWord : ℕ → List ℕ → Type 0
IsWord limit w = All IsPlain w × (0 < length w) × (length w ≤ limit)

-- The white space before a word, and the word.
abbrev pub Field : Type 0
Field = List ℕ × List ℕ

abbrev pub IsField : Field → Type 0
IsField (b, w) = All IsBlank b × (0 < length b) × IsWord (arg_len - 1) w

abbrev pub fields : List Field → List ℕ
fields [] = []
fields ((b, w) ∷ fs) = b ++ (w ++ fields fs)

abbrev pub words : List Field → List (List ℕ)
words [] = []
words ((b, w) ∷ fs) = w ∷ words fs

-- The array holds the C string of these characters.
abbrev pub Text : List ℕ → List ℕ → Type 0
Text cells w = (stale : List ℕ) × (cells ≡ w ++ nul ∷ stale)

-- The first rows hold these strings.
abbrev pub Texts : List (List ℕ) → List (List ℕ) → Type 0
Texts rows [] = Unit
Texts [] (w ∷ ws) = ⊥
Texts (row ∷ rows) (w ∷ ws) = Text row w × Texts rows ws

abbrev pub Ended : List ℕ → Type 0
Ended [] = Unit
Ended (c ∷ cs) = EndsWord c

pub skip_blanks-append : (b it : List ℕ) → All IsBlank b → skip_blanks (b ++ it) ≡ skip_blanks it
unfolding skip_blanks iswhitespace
skip_blanks-append [] it h = refl
skip_blanks-append (c ∷ b) it h = ground (arith, h.0, skip_blanks-append b it h.1)

pub skip_blanks-word :
    (w it : List ℕ) → All IsPlain w → 0 < length w → skip_blanks (w ++ it) ≡ w ++ it
unfolding skip_blanks
skip_blanks-word [] it h some_left = elim some_left [ ]
skip_blanks-word (c ∷ w) it h some_left = ground (arith, h.0.0, h.0.1)

pub stops-word : (w it : List ℕ) → All IsPlain w → 0 < length w → stops (w ++ it) ≡ false
unfolding stops
stops-word [] it h some_left = elim some_left [ ]
stops-word (c ∷ w) it h some_left = ground (arith, h.0.0)

pub copy_word-append :
    (room : ℕ) (w it : List ℕ)
    → All IsPlain w
    → length w ≤ room
    → Ended it
    → copy_word room (w ++ it) ≡ (w, it)
unfolding copy_word
copy_word-append zero [] it h le e = refl
copy_word-append zero (c ∷ w) it h le e = absurd (omega arith)
copy_word-append (suc room) [] [] h le e = refl
copy_word-append (suc room) [] (d ∷ it) h le e = ground arith
copy_word-append (suc room) (c ∷ w) it h le e =
    ground (arith, h.0.0, h.0.1, copy_word-append room w it h.1 (omega arith) e)

pub Text-overwrite :
    (cells w : List ℕ) → length w < length cells → Text (overwrite cells (w ++ nul ∷ [])) w
unfolding overwrite
Text-overwrite [] w h = elim h [ ]
Text-overwrite (x ∷ []) [] h = ([], refl)
Text-overwrite (x ∷ y ∷ cells) [] h = (y ∷ cells, refl)
Text-overwrite (x ∷ cells) (c ∷ w) h =
    let (stale, e) = Text-overwrite cells w (omega arith) in (stale, ap (λ t. c ∷ t) e)

-- What ends the line: white space, and the NUL.
abbrev pub line_end : List ℕ → List ℕ → List ℕ
line_end b stale = b ++ nul ∷ stale

pub Ended-blank : (b it : List ℕ) → All IsBlank b → 0 < length b → Ended (b ++ it)
Ended-blank [] it h some_left = elim some_left [ ]
Ended-blank (c ∷ b) it h some_left = ground (arith, h.0)

Ended-line_end : (b stale : List ℕ) → All IsBlank b → Ended (line_end b stale)
Ended-line_end [] stale h = refl
Ended-line_end (c ∷ b) stale h = ground (arith, h.0)

pub stops-blank : (b it : List ℕ) → All IsBlank b → 0 < length b → stops (b ++ it) ≡ false
unfolding stops iswhitespace
stops-blank [] it h some_left = elim some_left [ ]
stops-blank (c ∷ b) it h some_left = ground (arith, h.0)

pub skip_blanks-line_end :
    (b stale : List ℕ) → All IsBlank b → skip_blanks (line_end b stale) ≡ nul ∷ stale
unfolding skip_blanks
skip_blanks-line_end b stale h = skip_blanks-append b (nul ∷ stale) h ∙ refl

pub read_at-word :
    (after : ℕ) (w it : List ℕ)
    → All IsPlain w
    → 0 < length w
    → (read_at after (w ++ it) == nul) ≡ false
unfolding read_at
read_at-word after [] it h some_left = elim some_left [ ]
read_at-word after (c ∷ w) it h some_left = ground (arith, h.0.0)

pub Ended-fields :
    (fs : List Field) (b stale : List ℕ)
    → All IsField fs
    → All IsBlank b
    → Ended (fields fs ++ line_end b stale)
Ended-fields [] b stale h hb = Ended-line_end b stale hb
Ended-fields ((b', w) ∷ fs) b stale h hb =
    rw (append_assoc b' (w ++ fields fs) (line_end b stale)) (Ended-blank b' _ h.0.0 h.0.1)
