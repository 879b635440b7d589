-- ===== src/Shell/Line.antt =====
-- What `parse_command_buffer` makes of a line of words.
use mathlib.Core.List.{append_assoc}
use horizon_os.Prelude.{
  ℕ, suc, ◌-◌, ◌≤◌, ◌<◌, ◌≡◌, ◌∙◌, refl, ap, sym, inl, inr, Bool-cases, if◌then◌else◌, take, ltb,
  true, List, [], ◌∷◌, ◌++◌, length, arith,
}
use horizon_os.Prelude.Int.{pos}
use horizon_os.Cstring.{nul}
use horizon_os.Shell.{
  HushState, command_name_len, max_command_len, max_args, stops, overwrite, take_line, parse_args,
  parse_command_buffer,
}
use horizon_os.Shell.Words.{
  All, IsByte, IsPlain, IsBlank, IsWord, Field, IsField, fields, words, Text, Texts, Ended,
  line_end, skip_blanks-append, skip_blanks-word, stops-word, copy_word-append, Text-overwrite,
  Ended-fields, stops-blank,
}
use horizon_os.Shell.Args.{IsRow, fields-cons, parse_args-fields}

-- The arrays of the state have their sizes.
pub record IsShaped (s : HushState) : Type 0 where
  pub name_cells : length s.name ≡ command_name_len
  pub rows : All IsRow s.args
  pub row_count : length s.args ≡ max_args
  pub buffer_cells : length s.command_buffer ≡ max_command_len
  pub name_bytes : All IsByte s.name

abbrev pub line_of : List ℕ → List ℕ → List Field → List ℕ → List ℕ
line_of b name fs b' = b ++ (name ++ (fields fs ++ b'))

-- The state holds a command with these arguments.
pub record Parsed (s : HushState) (name : List ℕ) (ws : List (List ℕ)) : Type 0 where
  pub holds_cells : length s.name ≡ command_name_len
  pub holds_name : Text s.name name
  pub holds_bytes : All IsByte s.name
  pub holds_argc : s.argc ≡ pos (length ws)
  pub holds_args : Texts s.args ws

pub length-words : (fs : List Field) → length (words fs) ≡ length fs
length-words [] = refl
length-words (f ∷ fs) = ap suc (length-words fs)

pub length-overwrite : (xs ys : List ℕ) → length (overwrite xs ys) ≡ length xs
unfolding overwrite
length-overwrite [] ys = refl
length-overwrite (x ∷ xs) [] = refl
length-overwrite (x ∷ xs) (y ∷ ys) = ap suc (length-overwrite xs ys)

All-overwrite : (xs ys : List ℕ) → All IsByte xs → All IsByte ys → All IsByte (overwrite xs ys)
unfolding overwrite
All-overwrite [] ys hx hy = tt
All-overwrite (x ∷ xs) [] hx hy = hx
All-overwrite (x ∷ xs) (y ∷ ys) hx hy = (hy.0, All-overwrite xs ys hx.1 hy.1)

IsByte-word : (w : List ℕ) → All IsPlain w → All IsByte (w ++ nul ∷ [])
IsByte-word [] h = omega arith
IsByte-word (c ∷ w) h = (h.0.2, IsByte-word w h.1)

-- The parser behind the name, where the buffer goes on with `t`.
parse_command_buffer-name :
    (after : ℕ) (s : HushState) (b name t : List ℕ)
    → All IsBlank b
    → IsWord (command_name_len - 1) name
    → Ended t
    → s.command_buffer ≡ b ++ (name ++ t)
    → parse_command_buffer after s ≡ (
        let (n, args) = parse_args after t s.args in
        let name' = overwrite s.name (name ++ nul ∷ []) in
        if stops t
        then (record s { name = name'; argc = pos 0 }, pos 0)
        else (record s { name = name'; argc = pos n; args = args }, pos 0))
unfolding parse_command_buffer
parse_command_buffer-name after s b name t hb (plain, some_plain, short) ended e = rw (
  e,
  skip_blanks-append b (name ++ t) hb ∙ skip_blanks-word name t plain some_plain,
  copy_word-append (command_name_len - 1) name t plain short ended,
  stops-word name t plain some_plain,
)

stops-fields :
    (fs : List Field) (t : List ℕ) → All IsField fs → stops (fields fs ++ t) ≡ true → words fs ≡ []
stops-fields [] t h e = refl
stops-fields ((b, w) ∷ fs) t h e =
    let more = stops-blank b (w ++ (fields fs ++ t)) h.0.0 h.0.1 in
    absurd (cc (e, fields-cons b w fs t, more))

-- Where the buffer holds a line of a name and at most ten arguments, each with white space before
-- it, and a NUL behind the line: where the name has at most 9 characters and an argument at most 29,
-- the parser returns 0, and `name`, `argc` and `args` hold exactly the words of the line.
pub parse_command_buffer-line_of :
    (after : ℕ) (s : HushState) (b name : List ℕ) (fs : List Field) (b' stale : List ℕ)
    → IsShaped s
    → All IsBlank b
    → IsWord (command_name_len - 1) name
    → All IsField fs
    → All IsBlank b'
    → length fs ≤ max_args
    → s.command_buffer ≡ line_of b name fs b' ++ nul ∷ stale
    → let (s', code) = parse_command_buffer after s in (code ≡ pos 0) × Parsed s' name (words fs)
parse_command_buffer-line_of after s b name fs b' stale shaped hb hn hf hb' le e =
    let t = fields fs ++ line_end b' stale in
    let same : s.command_buffer ≡ b ++ (name ++ t) = e ∙ simp append_assoc in
    let run =
      parse_command_buffer-name after s b name t hb hn (Ended-fields fs b' stale hf hb') same in
    let named = Text-overwrite s.name name (omega (arith, shaped.name_cells, hn.2)) in
    let cells = length-overwrite s.name (name ++ nul ∷ []) ∙ shaped.name_cells in
    let bytes = All-overwrite s.name (name ++ nul ∷ []) shaped.name_bytes (IsByte-word name hn.0) in
    let args =
      parse_args-fields after fs b' stale s.args hf hb' shaped.rows
        (omega (arith, shaped.row_count)) in
    elim (Bool-cases (stops t)) [
      | inl last ↦
          let empty = stops-fields fs (line_end b' stale) hf last in
          rw (run, last, empty)
            (
              refl,
              record {
                holds_name = named;
                holds_bytes = bytes;
                holds_cells = cells;
                holds_argc = refl;
                holds_args = tt;
              },
            )
      | inr more ↦
          rw (run, more)
            (
              refl,
              record {
                holds_name = named;
                holds_bytes = bytes;
                holds_cells = cells;
                holds_argc = ap pos (args.0 ∙ sym (length-words fs));
                holds_args = args.1;
              },
            )
    ]

take-append : (xs ys : List ℕ) → take (length xs) (xs ++ ys) ≡ xs
take-append [] ys = refl
take-append (x ∷ xs) ys = ap (λ t. x ∷ t) (take-append xs ys)

-- A line of fewer than 80 characters is in the buffer as it was typed, with a NUL behind it.
pub take_line_lem :
    (s : HushState) (line junk : List ℕ)
    → IsShaped s
    → length line < max_command_len
    → IsShaped (take_line (length line) (line ++ junk) s)
      × Text (take_line (length line) (line ++ junk) s).command_buffer line
unfolding take_line
take_line_lem s line junk shaped short =
    let len : (if ltb (length line) (max_command_len - 1) then length line else max_command_len - 1)
        ≡ length line =
      ground arith in
    rw (len, take-append line junk)
      (
        record {
          name_cells = shaped.name_cells;
          rows = shaped.rows;
          row_count = shaped.row_count;
          name_bytes = shaped.name_bytes;
          buffer_cells = length-overwrite s.command_buffer (line ++ nul ∷ []) ∙ shaped.buffer_cells;
        },
        Text-overwrite s.command_buffer line (omega (arith, shaped.buffer_cells)),
      )
