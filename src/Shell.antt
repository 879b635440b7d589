-- ===== src/Shell.antt =====
-- The shell of arch/i386/drivers/shell/hush.c: the parser of a typed line, the registry of commands
-- and the run of a command. An array of characters is the list of its bytes, and a pointer `it` into
-- the command buffer is the rest of the buffer from there on. The byte behind the buffer, which the
-- loops read before they compare `it` with the end, is the argument `after`.
pub mod Words
pub mod Args
pub mod Line
pub mod Registry
mod Tests
use horizon_os.Prelude.{
  ℕ, zero, suc, ◌-◌, Bool, true, false, not, ◌&&◌, ◌||◌, List, [], ◌∷◌, ◌++◌, take, ltb, ◌==◌,
  if◌then◌else◌,
}
use horizon_os.Prelude.Int.{ℤ, pos, negsuc}
use horizon_os.Cstring.{nul}

abbrev pub command_name_len : ℕ
command_name_len = 10

abbrev pub max_command_len : ℕ
max_command_len = 80

abbrev pub max_args : ℕ
max_args = 10

abbrev pub arg_len : ℕ
arg_len = 30

-- `struct hush_state` without the history and the cursor, which are only cleared. `args` holds the
-- `max_args` rows of `arg_len` bytes.
pub record HushState : Type 0 where
  pub name : List ℕ
  pub argc : ℤ
  pub args : List (List ℕ)
  pub command_buffer : List ℕ
  pub command_len : ℕ

unfoldable pub iswhitespace : ℕ → Bool
iswhitespace c = (c == b' ') || (c == b'\t') || (c == b'\n') || (c == b'\r')

-- `!*it || it >= end`.
unfoldable pub stops : List ℕ → Bool
stops [] = true
stops (c ∷ cs) = c == nul

-- `*it`.
unfoldable pub read_at : ℕ → List ℕ → ℕ
read_at after [] = after
read_at after (c ∷ cs) = c

-- The loop over the white space.
unfoldable pub skip_blanks : List ℕ → List ℕ
skip_blanks [] = []
skip_blanks (c ∷ cs) =
    let rest = skip_blanks cs in if not (c == nul) && iswhitespace c then rest else c ∷ cs

-- The loop that copies a word: what it copies, with room for so many characters, and where it ends.
unfoldable pub copy_word : ℕ → List ℕ → List ℕ × List ℕ
copy_word zero it = ([], it)
copy_word (suc room) [] = ([], [])
copy_word (suc room) (c ∷ cs) =
    let (w, rest) = copy_word room cs in
    if not (c == nul) && not (iswhitespace c) then (c ∷ w, rest) else ([], c ∷ cs)

-- The bytes of `ys` over the first cells of an array.
unfoldable pub overwrite : List ℕ → List ℕ → List ℕ
overwrite [] ys = []
overwrite (x ∷ xs) [] = x ∷ xs
overwrite (x ∷ xs) (y ∷ ys) = y ∷ overwrite xs ys

-- The loop over the arguments, with the rows of `args` that are left: how many are filled, and the
-- rows after it.
unfoldable pub parse_args : ℕ → List ℕ → List (List ℕ) → ℕ × List (List ℕ)
parse_args after it [] = (0, [])
parse_args after it (dest ∷ slots) =
    let it' = skip_blanks it in
    let (w, rest) = copy_word (arg_len - 1) it' in
    let (n, slots') = parse_args after rest slots in
    if stops it || (read_at after it' == nul)
    then (0, dest ∷ slots)
    else (suc n, overwrite dest (w ++ nul ∷ []) ∷ slots')

-- `parse_command_buffer`: the state and what it returns.
unfoldable pub parse_command_buffer : ℕ → HushState → HushState × ℤ
parse_command_buffer after s =
    let it = skip_blanks s.command_buffer in
    let (w, rest) = copy_word (command_name_len - 1) it in
    let (n, args) = parse_args after rest s.args in
    let name = overwrite s.name (w ++ nul ∷ []) in
    if stops it
    then (record s { argc = negsuc 0 }, negsuc 0)
    else if stops rest
    then (record s { name = name; argc = pos 0 }, pos 0)
    else (record s { name = name; argc = pos n; args = args }, pos 0)

-- The loop body of `hush_init` up to the call of the parser, on the first `len` bytes of `buf`.
unfoldable pub take_line : ℕ → List ℕ → HushState → HushState
take_line len buf s =
    let copy_len = if ltb len (max_command_len - 1) then len else max_command_len - 1 in
    record s {
      command_buffer = overwrite s.command_buffer (take copy_len buf ++ nul ∷ []);
      command_len = copy_len;
    }
