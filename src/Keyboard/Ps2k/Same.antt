-- ===== src/Keyboard/Ps2k/Same.antt =====
-- The handler of x86_64 beside that of i386.
use mathlib.Core.List.{append-nil}
use horizon_os.Prelude.{
  ℕ, ◌%◌, ◌<◌, ◌≡◌, ◌∙◌, refl, Bool, true, false, not, ◌&&◌, ◌||◌, none, some, List, ◌++◌, [], ◌∷◌,
  arith, ltb, leb, ◌==◌, if◌then◌else◌, Bool-cases, inl, inr,
}
use horizon_os.Serial.{serial_putchar}
use horizon_os.Keyboard.Queue.{Level}
use horizon_os.Keyboard.Handler.{
  Keyboard, base_code, is_release, key_index, ascii_of, next_shift, queue_event, broadcast,
  down_event, keyboard_interrupt_handler,
}
use horizon_os.Keyboard.Handler.Keys.{base_code_lem, is_release_lem, key_index_lem}
use horizon_os.Keyboard.Handler.Events.{event_of, chars}
use horizon_os.Keyboard.Ps2k.{Ps2k, is_shift_index, char_at, types_char, ps2k_irq_handler}

-- The variables that both drivers have.
abbrev pub as_keyboard : Ps2k → Keyboard
as_keyboard k = record {
  key_state = k.key_pressed;
  extended_prefix = k.e0_prefix;
  shift_pressed = k.shift_pressed;
  levels = k.levels;
  eois = k.eois;
}

-- A press of a shift key.
abbrev pub presses_shift : Ps2k → ℕ → Bool
presses_shift k scancode = not k.e0_prefix && ((scancode == 0x2a) || (scancode == 0x36))

-- What the serial line is sent: the character of the event, if the byte stands for one.
abbrev pub typed_chars : ℕ → ℕ → Ps2k → List ℕ
typed_chars ticks s k =
    if presses_shift k s
    then []
    else elim (event_of (as_keyboard k) ticks s) [ none ↦ [] | some ev ↦ ev.value ∷ [] ]

-- The same for the two states that decide it.
abbrev chars_of : Bool → Bool → ℕ → List ℕ
chars_of prefix shift s =
    if not prefix && (s == 0x2a || s == 0x36)
    then []
    else if prefix
    then []
    else if leb 1 s && ltb s 58
    then ascii_of shift s ∷ []
    else []

typed_chars-chars_of :
    (ticks s : ℕ) (k : Ps2k) → typed_chars ticks s k ≡ chars_of k.e0_prefix k.shift_pressed s
typed_chars-chars_of ticks s k = ground arith

zero_char : (shift : Bool) (s : ℕ) → s ≡ 0 → ascii_of shift s ≡ 0
unfolding ascii_of
zero_char true s e = rw e
zero_char false s e = rw e

char_at-ascii_of : (shift : Bool) (i : ℕ) → char_at shift i ≡ ascii_of shift i
unfolding char_at ascii_of
char_at-ascii_of shift i = refl

-- A prefixed key is none of the shift keys, and has no character.
module _ (s : ℕ) (h : s < 256) where
  shift_lem :
      (prefix shift : Bool)
      → next_shift prefix shift (base_code s) (is_release s)
        ≡ (if is_shift_index (key_index prefix (base_code s)) then not (is_release s) else shift)
  unfolding next_shift is_shift_index
  shift_lem true shift =
      rw (base_code_lem s h, key_index_lem true (s % 128) (omega arith)) (ground arith)
  shift_lem false shift =
      rw (base_code_lem s h, key_index_lem false (s % 128) (omega arith)) (ground arith)

  module _ (ticks : ℕ) (levels : List Level) where
    -- The levels after each handler.
    abbrev typed_levels : Bool → Bool → List Level
    typed_levels prefix shift =
        let index = key_index prefix (base_code s) in
        if types_char shift index (is_release s)
        then broadcast (down_event ticks index (char_at shift index)) levels
        else levels

    abbrev queued_levels : Bool → Bool → List Level
    queued_levels prefix shift =
        queue_event ticks (next_shift prefix shift (base_code s) (is_release s)) prefix
          (base_code s) (is_release s) levels

    levels_lem :
        (prefix shift : Bool)
        → typed_levels prefix shift
          ≡ (if not prefix && (s == 0x2a || s == 0x36) then levels else queued_levels prefix shift)
    unfolding types_char queue_event is_shift_index next_shift
    levels_lem true shift =
        rw (base_code_lem s h, key_index_lem true (s % 128) (omega arith), is_release_lem s h)
          (ground arith)
    levels_lem false shift =
        rw
          (
            base_code_lem s h,
            key_index_lem false (s % 128) (omega arith),
            is_release_lem s h,
            char_at-ascii_of,
          )
          (ground arith)

  sent_lem :
      (prefix shift : Bool) (sent : List ℕ)
      → (if types_char shift (key_index prefix (base_code s)) (is_release s)
          then serial_putchar (char_at shift (key_index prefix (base_code s))) sent
          else sent)
        ≡ sent ++ chars_of prefix shift s
  unfolding types_char is_shift_index serial_putchar
  sent_lem true shift sent =
      rw
        (
          base_code_lem s h,
          key_index_lem true (s % 128) (omega arith),
          is_release_lem s h,
          append-nil,
        )
        (ground arith)
  sent_lem false shift sent =
      rw
        (
          base_code_lem s h,
          key_index_lem false (s % 128) (omega arith),
          is_release_lem s h,
          char_at-ascii_of,
        )
        (ground (arith, append-nil sent, chars shift s, zero_char shift s))

-- The new state of the i386 driver, but for a press of a shift key, which queues nothing here.
abbrev pub without_shift_event : Bool → List Level → Keyboard → Keyboard
without_shift_event true levels k = record k { levels = levels }
without_shift_event false levels k = k

-- On every byte and in every state the handler of x86_64 leaves the key map, the prefix, the shift
-- state, the event queues and the acknowledgements as that of i386 does, with one difference: a
-- press of a shift key, which has a character in the table, queues an event there and none here.
-- And the serial line is sent exactly the character of the event that is queued.
pub ps2k_irq_handler-keyboard_interrupt_handler :
    (ticks s : ℕ) (k : Ps2k)
    → s < 256
    → let k' = ps2k_irq_handler ticks s k in
      (as_keyboard k'
        ≡ without_shift_event
            (presses_shift k s)
            k.levels
            (keyboard_interrupt_handler ticks s (as_keyboard k)))
      × (k'.sent ≡ k.sent ++ typed_chars ticks s k)
unfolding ps2k_irq_handler keyboard_interrupt_handler
ps2k_irq_handler-keyboard_interrupt_handler ticks s k h = elim (Bool-cases (s == 0xe0)) [
  | inl mark ↦
      let other : presses_shift k s ≡ false = ground arith in
      let nothing : typed_chars ticks s k ≡ [] = ground arith in
      (rw (mark, other), rw (mark, nothing, append-nil))
  | inr plain ↦
      let shift_same = shift_lem s h k.e0_prefix k.shift_pressed in
      let levels_same = levels_lem s h ticks k.levels k.e0_prefix k.shift_pressed in
      let sent_same = sent_lem s h k.e0_prefix k.shift_pressed k.sent in
      let text = typed_chars-chars_of ticks s k in
      elim (Bool-cases (presses_shift k s)) [
        | inl shift_key ↦
            let same_levels : typed_levels s h ticks k.levels k.e0_prefix k.shift_pressed
                ≡ k.levels =
              levels_same ∙ rw shift_key in
            (rw (plain, shift_key) (cc (shift_same, same_levels)), rw (plain, text) sent_same)
        | inr other ↦
            let same_levels : typed_levels s h ticks k.levels k.e0_prefix k.shift_pressed
                ≡ queued_levels s h ticks k.levels k.e0_prefix k.shift_pressed =
              levels_same ∙ rw other in
            (rw (plain, other) (cc (shift_same, same_levels)), rw (plain, text) sent_same)
      ]
]
