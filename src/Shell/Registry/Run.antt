-- ===== src/Shell/Registry/Run.antt =====
-- What the shell runs for a line that is typed.
use horizon_os.Prelude.{
  ℕ, ◌-◌, ◌≤◌, ◌<◌, ◌≡◌, ◌⊎◌, ap, subst, length-append, true, Option, none, some, List, ◌++◌,
  length, take, arith, ltb, inl, inr, Option-cases,
}
use horizon_os.Cstring.{Memory, write_bytes}
use horizon_os.Cstring.Order.{Bytes}
use horizon_os.Cstring.Print.{Stands, Stands-write_bytes}
use horizon_os.Shell.{
  HushState, command_name_len, max_command_len, max_args, parse_command_buffer, take_line,
}
use horizon_os.Shell.Words.{All, IsBlank, IsWord, Field, IsField, fields, words, Texts}
use horizon_os.Shell.Line.{IsShaped, Parsed, line_of, take_line_lem, parse_command_buffer-line_of}
use horizon_os.Shell.Registry.{
  HushCommand, HushStatus, success, command_not_found, find_command, hush_lookup_registry,
  run_found, hush_execute_command, run_line,
}
use horizon_os.Shell.Registry.Strings.{
  AllClear, Bytes-write_bytes, Stands-prefix, plain_text, Texts-take, Named-write_bytes,
}
use horizon_os.Shell.Registry.Lookup.{Entry, commands, Named, Found, find_command_lem}

some_typed :
    (b name : List ℕ) (fs : List Field) (b' : List ℕ)
    → 0 < length name
    → 0 < length (line_of b name fs b')
some_typed b name fs b' h =
    omega (arith, length-append b (name ++ (fields fs ++ b')), length-append name (fields fs ++ b'))

module _ {World : Type 0} (console_puts log_warn : World → World) where
  -- The run of a command with these arguments: the handler of the first command of the name, with
  -- the arguments in order; or, where none has the name, the message.
  abbrev pub Outcome :
      List (Entry World) → List ℕ → List (List ℕ) → World → HushStatus × World → Type 0
  Outcome es name ws w out =
      ((cmd : HushCommand World) × (argv : List (List ℕ)) × (Found name es (some cmd)
          × Texts argv ws
          × (length argv ≡ length ws)
          × (out ≡ (success, cmd.handler (length ws) argv w))))
      ⊎ (Found name es none × (out ≡ (command_not_found, console_puts w)))

  lookup-none :
      (m : Memory) (name : ℕ) (es : List (Entry World)) (w : World)
      → find_command m name (commands es) ≡ none
      → hush_lookup_registry console_puts log_warn m name (commands es) w ≡ (none, console_puts w)
  unfolding hush_lookup_registry
  lookup-none m name es w e = rw (e, hush_lookup_registry)

  lookup-some :
      (m : Memory) (name : ℕ) (es : List (Entry World)) (w : World) {cmd : HushCommand World}
      → find_command m name (commands es) ≡ some cmd
      → hush_lookup_registry console_puts log_warn m name (commands es) w ≡ (some cmd, w)
  unfolding hush_lookup_registry
  lookup-some m name es w e = rw (e, hush_lookup_registry)

  module _ (m : Memory) (name_at : ℕ) (es : List (Entry World)) (bytes : Bytes m)
      (named : Named m es) (clear : AllClear name_at es) where
    hush_execute_command_lem :
        (s : HushState) (name : List ℕ) (ws : List (List ℕ)) (w : World)
        → IsWord (command_name_len - 1) name
        → Parsed s name ws
        → Outcome es name ws w
            (hush_execute_command console_puts log_warn m name_at (commands es) s w)
    unfolding hush_execute_command run_found
    hush_execute_command_lem s name ws w word p =
        let m' = write_bytes name_at s.name m in
        let (stale, e) = p.holds_name in
        let stands =
          Stands-prefix m' name_at name stale
            (subst (Stands m' name_at) e (Stands-write_bytes s.name name_at m)) in
        let found =
          find_command_lem m' name_at es name
            (Bytes-write_bytes s.name name_at m p.holds_bytes bytes)
            (Named-write_bytes m name_at s.name es p.holds_cells clear named)
            (stands, plain_text name word.0) (omega (arith, word.2)) in
        let run : (out : Option (HushCommand World) × World)
            → hush_lookup_registry console_puts log_warn m' name_at (commands es) w ≡ out
            → hush_execute_command console_puts log_warn m name_at (commands es) s w
              ≡ run_found (length ws) s out =
          λ out h. rw (p.holds_argc, hush_execute_command) (ap (run_found (length ws) s) h) in
        let argv = Texts-take s.args ws p.holds_args in
        elim (Option-cases (find_command m' name_at (commands es))) [
          | inl miss ↦
              inr (subst (Found name es) miss found, run _ (lookup-none m' name_at es w miss))
          | inr (cmd, hit) ↦ inl (
            cmd,
            take (length ws) s.args,
            (
              subst (Found name es) hit found,
              argv.0,
              argv.1,
              run _ (lookup-some m' name_at es w hit),
            ),
          )
        ]

    -- Where a line of at most 79 characters is typed, a name of at most 9 and at most ten arguments
    -- of at most 29 characters, with white space before each and around the line: the shell runs the
    -- handler of the first registered command that has exactly this name, on exactly these
    -- arguments, and where no command has the name it says so. The names of the commands are C
    -- strings outside the shell's own array.
    pub run_line_lem :
        (after : ℕ) (s : HushState) (b name : List ℕ) (fs : List Field) (b' junk : List ℕ)
        (w : World)
        → IsShaped s
        → All IsBlank b
        → IsWord (command_name_len - 1) name
        → All IsField fs
        → All IsBlank b'
        → length fs ≤ max_args
        → length (line_of b name fs b') < max_command_len
        → let line = line_of b name fs b' in
          let (s', w') =
            run_line console_puts log_warn m name_at
              (commands es)
              after
              (length line)
              (line ++ junk)
              s
              w in
          Parsed s' name (words fs)
          × ((status : HushStatus) × Outcome es name (words fs) w (status, w'))
    unfolding run_line
    run_line_lem after s b name fs b' junk w shaped hb hn hf hb' few short =
        let line = line_of b name fs b' in
        let (shaped', (stale, e)) = take_line_lem s line junk shaped short in
        let s' = take_line (length line) (line ++ junk) s in
        let (code, parsed) =
          parse_command_buffer-line_of after s' b name fs b' stale shaped' hb hn hf hb' few e in
        let ran =
          hush_execute_command_lem (parse_command_buffer after s').0 name (words fs) w hn parsed in
        let typed : ltb 0 (length line) ≡ true = ground (arith, some_typed b name fs b' hn.1) in
        rw typed (
          parsed,
          (
            (hush_execute_command console_puts log_warn m name_at (commands es)
                (parse_command_buffer after s').0 w).0,
            ran,
          ),
        )
