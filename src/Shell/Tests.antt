-- ===== src/Shell/Tests.antt =====
-- The shell with two registered commands and the line " echo hi you".
use horizon_os.Prelude.{ℕ, ◌<◌, ◌≡◌, refl, List, [], ◌∷◌, ◌++◌, length, replicate, arith}
use horizon_os.Prelude.Int.{pos}
use horizon_os.Cstring.{Memory, nul, write_bytes, write}
use horizon_os.Cstring.Order.{Bytes}
use horizon_os.Shell.{
  HushState, iswhitespace, stops, read_at, skip_blanks, copy_word, overwrite, parse_args,
  parse_command_buffer, take_line,
}
use horizon_os.Shell.Words.{All, IsPlain, IsBlank, IsWord, Field, IsField, words}
use horizon_os.Shell.Line.{IsShaped, Parsed, line_of}
use horizon_os.Shell.Registry.{HushCommand, HushStatus, hush_execute_command, run_line}
use horizon_os.Shell.Registry.Lookup.{Entry, commands, Named}
use horizon_os.Shell.Registry.Strings.{Bytes-write_bytes}
use horizon_os.Shell.Registry.Run.{Outcome, run_line_lem}
use horizon_os.Shell.Registry.Long.{hush_execute_command-without}

abbrev echo_name : List ℕ
echo_name = b'e' ∷ b'c' ∷ b'h' ∷ b'o' ∷ []

abbrev test_paging_name : List ℕ
test_paging_name = b't' ∷ b'e' ∷ b's' ∷ b't' ∷ b'-' ∷ b'p' ∷ b'a' ∷ b'g' ∷ b'i' ∷ b'n' ∷ b'g' ∷ []

-- A handler that keeps its arguments, and messages that leave a mark.
abbrev World : Type 0
World = List (List ℕ)

abbrev echo : HushCommand World
echo = record { name = 100; description = 100; handler = λ argc argv w. argv ++ w }

abbrev test_paging : HushCommand World
test_paging = record { name = 200; description = 200; handler = λ argc argv w. [] }

abbrev entries : List (Entry World)
entries = (test_paging, test_paging_name) ∷ (echo, echo_name) ∷ []

abbrev console_puts : World → World
console_puts w = (b'?' ∷ []) ∷ w

abbrev log_warn : World → World
log_warn w = (b'!' ∷ []) ∷ w

strings : Memory
unfolding write_bytes write
strings =
    write_bytes 100 (echo_name ++ nul ∷ [])
      (write_bytes 200 (test_paging_name ++ nul ∷ []) (λ a. 0))

strings-Bytes : Bytes strings
unfolding strings
strings-Bytes =
    Bytes-write_bytes (echo_name ++ nul ∷ []) 100 _ (omega arith)
      (Bytes-write_bytes (test_paging_name ++ nul ∷ []) 200 _ (omega arith) (λ a. omega arith))

strings-Named : Named strings entries
unfolding strings
strings-Named = omega arith

abbrev state : HushState
state = record {
  name = replicate 10 0;
  argc = pos 0;
  args = replicate 10 (replicate 30 0);
  command_buffer = replicate 80 0;
  command_len = 0;
}

abbrev arguments : List Field
arguments = (b' ' ∷ [], b'h' ∷ b'i' ∷ []) ∷ (b'\t' ∷ b' ' ∷ [], b'y' ∷ b'o' ∷ b'u' ∷ []) ∷ []

abbrev line : List ℕ
line = line_of (b' ' ∷ []) echo_name arguments []

abbrev typed : HushState
typed = record state { command_buffer = overwrite (replicate 80 0) (line ++ nul ∷ []) }

letter : (c : ℕ) → 32 < c → c < 128 → IsPlain c
unfolding iswhitespace
letter c h k = (ground arith, ground arith, omega arith)

letters : (w : List ℕ) → All (λ c. (32 < c) × (c < 128)) w → All IsPlain w
letters [] h = tt
letters (c ∷ w) h = (letter c h.0.0 h.0.1, letters w h.1)

blank : All IsBlank (b' ' ∷ [])
unfolding iswhitespace
blank = (refl, tt)

command : IsWord 9 echo_name
command = (letters echo_name (omega arith), omega arith, omega arith)

separated : All IsField arguments
unfolding iswhitespace
separated = (
  (blank, omega arith, (letters (b'h' ∷ b'i' ∷ []) (omega arith), omega arith, omega arith)),
  (
    (
      (refl, (refl, tt)),
      omega arith,
      (letters (b'y' ∷ b'o' ∷ b'u' ∷ []) (omega arith), omega arith, omega arith),
    ),
    tt,
  ),
)

state-IsShaped : IsShaped state
state-IsShaped = omega arith

typed-IsShaped : IsShaped typed
unfolding overwrite
typed-IsShaped = omega arith

program : Unit {0}
unfolding iswhitespace stops read_at skip_blanks copy_word overwrite parse_args parse_command_buffer
    take_line
program = tt

parse_typed : (parse_command_buffer 0 typed).0.argc ≡ pos 2
unfolding program
parse_typed = refl

run_line_lem_example :
    let (s', w') =
      run_line console_puts log_warn strings 1000
        (commands entries)
        0
        (length line)
        (line ++ [])
        state
        [] in
    Parsed s' echo_name (words arguments)
    × ((status : HushStatus) × Outcome console_puts log_warn entries echo_name
          (words arguments)
          []
          (status, w'))
unfolding iswhitespace
run_line_lem_example =
    run_line_lem console_puts log_warn strings 1000 entries strings-Bytes strings-Named
      (omega arith) 0 state (b' ' ∷ []) echo_name arguments [] [] [] state-IsShaped blank command
      separated tt (omega arith) (omega arith)

hush_execute_command-without_example :
    let s' = (parse_command_buffer 0 typed).0 in
    hush_execute_command console_puts (λ w. w) strings 1000 (test_paging ∷ echo ∷ []) s' []
    ≡ hush_execute_command console_puts (λ w. w) strings 1000 (echo ∷ []) s' []
unfolding program
hush_execute_command-without_example =
    hush_execute_command-without console_puts (λ w. w) 0 typed strings 1000 test_paging
      test_paging_name [] (echo ∷ []) [] refl strings-Named.0 (omega arith) (omega arith) refl
