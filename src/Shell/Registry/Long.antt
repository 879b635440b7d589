-- ===== src/Shell/Registry/Long.antt =====
-- A command with a long name is never run.
use horizon_os.Prelude.{
  ℕ, zero, suc, ◌-◌, ◌≤◌, ◌≡◌, ◌≢◌, ◌∙◌, subst, false, ◌&&◌, not, Bool-cases, List, [], ◌∷◌, ◌++◌,
  length, arith, ◌==◌, if◌then◌else◌, ap, none, some, refl, inl, inr,
}
use horizon_os.Prelude.Int.{pos, negsuc}
use horizon_os.Cstring.{Memory, nul, write_bytes}
use horizon_os.Cstring.Print.{Stands, Stands-write_bytes}
use horizon_os.Shell.{
  HushState, command_name_len, iswhitespace, skip_blanks, copy_word, overwrite,
  parse_command_buffer,
}
use horizon_os.Shell.Words.{All, Text-overwrite}
use horizon_os.Shell.Line.{length-overwrite}
use horizon_os.Shell.Registry.{
  HushCommand, invalid_command, has_name, find_command, run_found, hush_lookup_registry,
  hush_execute_command,
}
use horizon_os.Shell.Registry.Lookup.{IsText, has_name-long}
use horizon_os.Shell.Registry.Strings.{Clear, Stands-prefix, Named-write_bytes}

-- Whatever the buffer holds, a copied word has no NUL and fits.
copy_word_text :
    (room : ℕ) (it : List ℕ)
    → All (λ c. c ≢ nul) (copy_word room it).0 × (length (copy_word room it).0 ≤ room)
unfolding copy_word
copy_word_text zero it = (tt, omega arith)
copy_word_text (suc room) [] = (tt, omega arith)
copy_word_text (suc room) (c ∷ cs) =
    let rest = copy_word_text room cs in
    elim (Bool-cases (not (c == nul) && not (iswhitespace c))) [
      | inl plain ↦ rw plain (((λ e. ground (arith, plain)), rest.0), omega (arith, rest.1))
      | inr other ↦ rw other (tt, omega arith)
    ]

-- The name that the parser stores, where it finds one.
name_stored :
    (after : ℕ) (s : HushState)
    → (parse_command_buffer after s).1 ≡ pos 0
    → (parse_command_buffer after s).0.name
      ≡ overwrite s.name
          ((copy_word (command_name_len - 1) (skip_blanks s.command_buffer)).0 ++ nul ∷ [])
unfolding parse_command_buffer
name_stored after s e = ground (arith, e)

-- Whatever is typed: where the parser finds a name, it is not that of a command with a long name.
has_name-parse_command_buffer :
    {World : Type 0} (after : ℕ) (s : HushState) (m : Memory) (name_at : ℕ)
    (cmd : HushCommand World) (v : List ℕ)
    → length s.name ≡ command_name_len
    → IsText m cmd.name v
    → Clear name_at cmd.name (length v)
    → command_name_len ≤ length v
    → let (s', code) = parse_command_buffer after s in
      code ≡ pos 0 → has_name (write_bytes name_at s'.name m) name_at cmd ≡ false
has_name-parse_command_buffer after s m name_at cmd v len hv clear long e =
    let copied = copy_word (command_name_len - 1) (skip_blanks s.command_buffer) in
    let (no_nul, fits) = copy_word_text (command_name_len - 1) (skip_blanks s.command_buffer) in
    let w = copied.0 in
    let cells = overwrite s.name (w ++ nul ∷ []) in
    let m' = write_bytes name_at cells m in
    let cells_len = length-overwrite s.name (w ++ nul ∷ []) ∙ len in
    let (stale, stored) = Text-overwrite s.name w (omega (arith, len, fits)) in
    let stands =
      Stands-prefix m' name_at w stale
        (subst (Stands m' name_at) stored (Stands-write_bytes cells name_at m)) in
    let entry = Named-write_bytes m name_at cells ((cmd, v) ∷ []) cells_len (clear, tt) (hv, tt) in
    rw (name_stored after s e)
      (has_name-long m' name_at cmd v w entry.0 (stands, no_nul) (omega (arith, fits)) long)

-- A command that does not have the name is as good as not registered.
find_command-without :
    {World : Type 0} (m : Memory) (name : ℕ) (cmd : HushCommand World)
    (front back : List (HushCommand World))
    → has_name m name cmd ≡ false
    → find_command m name (front ++ cmd ∷ back) ≡ find_command m name (front ++ back)
unfolding find_command
find_command-without m name cmd [] back other = rw other refl
find_command-without m name cmd (c ∷ front) back other =
    ap (λ rest. if has_name m name c then some c else rest)
      (find_command-without m name cmd front back other)

-- Whatever is typed: where the parser finds a name, the shell executes the line as if a command whose
-- own name has ten characters or more were not registered, wherever it stands in the registry: it is
-- not run. The string of its name lies outside the shell's own array for a name, which has ten bytes.
pub hush_execute_command-without :
    {World : Type 0} (console_puts log_warn : World → World) (after : ℕ) (s : HushState)
    (m : Memory) (name_at : ℕ) (cmd : HushCommand World) (v : List ℕ)
    (front back : List (HushCommand World)) (w : World)
    → length s.name ≡ command_name_len
    → IsText m cmd.name v
    → Clear name_at cmd.name (length v)
    → command_name_len ≤ length v
    → (parse_command_buffer after s).1 ≡ pos 0
    → let s' = (parse_command_buffer after s).0 in
      hush_execute_command console_puts log_warn m name_at (front ++ cmd ∷ back) s' w
      ≡ hush_execute_command console_puts log_warn m name_at (front ++ back) s' w
unfolding hush_execute_command hush_lookup_registry
hush_execute_command-without console_puts log_warn after s m name_at cmd v front back w len hv clear
      long parsed =
    let s' = (parse_command_buffer after s).0 in
    let other = has_name-parse_command_buffer after s m name_at cmd v len hv clear long parsed in
    let same = find_command-without (write_bytes name_at s'.name m) name_at cmd front back other in
    ap
      (λ found. elim s'.argc [
        | negsuc n ↦ (invalid_command, log_warn w)
        | pos argc ↦
            run_found argc s' (elim found [ none ↦ (none, console_puts w) | some c ↦ (some c, w) ])
      ])
      same
