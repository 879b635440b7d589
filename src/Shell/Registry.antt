-- ===== src/Shell/Registry.antt =====
-- The registry of the shell and the run of the command that a line names. A command's name is the
-- address of a C string. `World` is what the handlers work on; `console_puts` and `log_warn` are
-- what the messages of the shell do to it.
pub mod Lookup
pub mod Strings
pub mod Run
pub mod Long
use horizon_os.Prelude.{
  ℕ, zero, suc, ◌+◌, Bool, ◌&&◌, Option, none, some, List, [], ◌∷◌, ◌++◌, length, take, ltb, ◌==◌,
  if◌then◌else◌,
}
use horizon_os.Prelude.Int.{ℤ, pos, negsuc}
use horizon_os.Cstring.{Memory, strnlen, strncmp, is_zero, write_bytes}
use horizon_os.Shell.{HushState, command_name_len, parse_command_buffer, take_line}

abbrev pub max_commands : ℕ
max_commands = 20

-- `struct hush_command`.
pub record HushCommand (World : Type 0) : Type 0 where
  pub name : ℕ
  pub description : ℕ
  pub handler : ℕ → List (List ℕ) → World → World

-- `enum HUSH_STATE`.
pub data HushStatus : Type 0 where
  success error invalid_command command_not_found : HushStatus

module _ {World : Type 0} where
  unfoldable pub hush_register_command :
      HushCommand World → List (HushCommand World) → List (HushCommand World)
  hush_register_command cmd registry =
      if ltb (length registry) max_commands then registry ++ cmd ∷ [] else registry

  -- The test of one entry against the string at `name`.
  unfoldable pub has_name : Memory → ℕ → HushCommand World → Bool
  has_name m name cmd =
      let name_len = strnlen m name command_name_len in
      is_zero (strncmp m cmd.name name name_len)
      && (strnlen m cmd.name command_name_len == name_len)

  -- The loop of `hush_lookup_registry`.
  unfoldable pub find_command : Memory → ℕ → List (HushCommand World) → Option (HushCommand World)
  find_command m name [] = none
  find_command m name (cmd ∷ registry) =
      let rest = find_command m name registry in if has_name m name cmd then some cmd else rest

  -- The end of `hush_execute_command`, with what the registry answers.
  unfoldable pub run_found : ℕ → HushState → Option (HushCommand World) × World → HushStatus × World
  run_found argc s (none, w) = (command_not_found, w)
  run_found argc s (some cmd, w) = (success, cmd.handler argc (take argc s.args) w)

module _ {World : Type 0} (console_puts log_warn : World → World) where
  unfoldable pub hush_lookup_registry :
      Memory → ℕ → List (HushCommand World) → World → Option (HushCommand World) × World
  hush_lookup_registry m name registry w = elim (find_command m name registry) [
    | none ↦ (none, console_puts w)
    | some cmd ↦ (some cmd, w)
  ]

  -- `hush_execute_command`; the array `hush_state.name` lies at `name_at`.
  unfoldable pub hush_execute_command :
      Memory → ℕ → List (HushCommand World) → HushState → World → HushStatus × World
  hush_execute_command m name_at registry s w = elim s.argc [
    | negsuc n ↦ (invalid_command, log_warn w)
    | pos argc ↦
        run_found argc s (hush_lookup_registry (write_bytes name_at s.name m) name_at registry w)
  ]

  -- One round of the loop of `hush_init`, after `readline` has put `len` bytes into `buf`.
  unfoldable pub run_line :
      Memory → ℕ → List (HushCommand World) → ℕ → ℕ → List ℕ → HushState → World → HushState × World
  run_line m name_at registry after len buf s w =
      let (s', code) = parse_command_buffer after (take_line len buf s) in
      let (status, w') = hush_execute_command m name_at registry s' w in
      if ltb 0 len then (s', w') else (s, w)
