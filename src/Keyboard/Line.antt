-- ===== src/Keyboard/Line.antt =====
-- `readline` of drivers/keyboard/keyboard.c. `keyboard_block_read` halts the processor until an
-- event is there, so the events that it returns, one for each call, are an argument: the list.
pub mod Edit
use horizon_os.Prelude.{
  ℕ, ◌+◌, ◌-◌, ◌&&◌, Option, none, some, List, [], ◌∷◌, ◌++◌, set, ltb, leb, ◌==◌, if◌then◌else◌,
}
use horizon_os.Keyboard.Queue.{KeyEvent, key_event_down}

-- A call into the console.
pub data Output : Type 0 where
  putchar : ℕ → Output
  backspace : Output

-- The variables of the loop, with the calls into the console so far.
pub record Line : Type 0 where
  pub buf : List ℕ
  pub pos : ℕ
  pub output : List Output

-- `buf[pos++] = c`, echoed, unless the buffer is full.
unfoldable pub add_char : ℕ → ℕ → Line → Line
add_char len c l =
    if ltb l.pos (len - 1)
    then record { buf = set l.buf l.pos c; pos = l.pos + 1; output = l.output ++ putchar c ∷ [] }
    else l

unfoldable pub rub_out : Line → Line
rub_out l =
    if ltb 0 l.pos then record l { pos = l.pos - 1; output = l.output ++ backspace ∷ [] } else l

-- The body of the loop for a key-down event that is no newline.
unfoldable pub edit : ℕ → ℕ → Line → Line
edit len c l = if c == 8 then rub_out l else if leb 32 c && ltb c 127 then add_char len c l else l

-- The loop. `none`: the events are used up, and the call has not returned.
unfoldable pub read_loop : ℕ → Line → List KeyEvent → Option (ℕ × Line)
read_loop len l [] = none
read_loop len l (ev ∷ evs) =
    let done : Option (ℕ × Line) =
      some (l.pos, record l { buf = set l.buf l.pos 0; output = l.output ++ putchar 10 ∷ [] }) in
    let skipped = read_loop len l evs in
    let edited = read_loop len (edit len ev.value l) evs in
    if ev.type == key_event_down then if ev.value == 10 then done else edited else skipped

unfoldable pub readline : List ℕ → ℕ → List KeyEvent → Option (ℕ × Line)
readline buf len evs =
    let start : Line = record { buf = buf; pos = 0; output = [] } in
    if len == 0 then some (0, start) else read_loop len start evs
