-- ===== src/Keyboard/Ps2k.antt =====
-- The keyboard driver of x86_64, arch/x86_64/drivers/ps2k.c: its interrupt handler, the resources
-- that ACPI gives for the device, and the set-up. It has the event queues of the i386 driver, and
-- the same sequence for the controller behind other ports. Log output is left out.
pub mod Same
pub mod Resources
pub mod Attach
use horizon_os.Prelude.{
  ℕ, ◌+◌, Bool, true, false, not, ◌&&◌, ◌||◌, List, [], ◌∷◌, length, get_or, ltb, ◌==◌,
  if◌then◌else◌,
}
use horizon_os.Serial.{serial_putchar}
use horizon_os.Keyboard.Queue.{Level}
use horizon_os.Keyboard.Handler.{base_code, is_release, key_index, update, broadcast, down_event}

-- Scan code set 1, unshifted and shifted.
abbrev pub ascii_table : List ℕ
ascii_table =
    0 ∷ 27 ∷ b'1' ∷ b'2' ∷ b'3' ∷ b'4' ∷ b'5' ∷ b'6' ∷ b'7' ∷ b'8' ∷ b'9' ∷ b'0' ∷ b'-' ∷ b'=' ∷ 8
    ∷ 9 ∷ b'q' ∷ b'w' ∷ b'e' ∷ b'r' ∷ b't' ∷ b'y' ∷ b'u' ∷ b'i' ∷ b'o' ∷ b'p' ∷ b'[' ∷ b']' ∷ 10 ∷ 1
    ∷ b'a' ∷ b's' ∷ b'd' ∷ b'f' ∷ b'g' ∷ b'h' ∷ b'j' ∷ b'k' ∷ b'l' ∷ b';' ∷ 39 ∷ b'`' ∷ 2 ∷ 92
    ∷ b'z' ∷ b'x' ∷ b'c' ∷ b'v' ∷ b'b' ∷ b'n' ∷ b'm' ∷ b',' ∷ b'.' ∷ b'/' ∷ 3 ∷ b'*' ∷ 4 ∷ b' ' ∷ []

abbrev pub ascii_table_uppercase : List ℕ
ascii_table_uppercase =
    0 ∷ 27 ∷ b'!' ∷ b'@' ∷ b'#' ∷ b'$' ∷ b'%' ∷ b'^' ∷ b'&' ∷ b'*' ∷ b'(' ∷ b')' ∷ b'_' ∷ b'+' ∷ 8
    ∷ 9 ∷ b'Q' ∷ b'W' ∷ b'E' ∷ b'R' ∷ b'T' ∷ b'Y' ∷ b'U' ∷ b'I' ∷ b'O' ∷ b'P' ∷ b'{' ∷ b'}' ∷ 10 ∷ 1
    ∷ b'A' ∷ b'S' ∷ b'D' ∷ b'F' ∷ b'G' ∷ b'H' ∷ b'J' ∷ b'K' ∷ b'L' ∷ b':' ∷ 34 ∷ b'~' ∷ 2 ∷ b'|'
    ∷ b'Z' ∷ b'X' ∷ b'C' ∷ b'V' ∷ b'B' ∷ b'N' ∷ b'M' ∷ b'<' ∷ b'>' ∷ b'?' ∷ 3 ∷ b'*' ∷ 4 ∷ b' ' ∷ []

-- The static variables; `sent` is what the serial line has been sent, and `eois` counts the calls
-- of `apic_send_eoi`.
pub record Ps2k : Type 0 where
  pub key_pressed : ℕ → Bool
  pub shift_pressed : Bool
  pub e0_prefix : Bool
  pub levels : List Level
  pub sent : List ℕ
  pub eois : ℕ

unfoldable pub is_shift_index : ℕ → Bool
is_shift_index index = (index == 0x2a) || (index == 0x36)

unfoldable pub char_at : Bool → ℕ → ℕ
char_at shift index =
    if shift then get_or ascii_table_uppercase index 0 else get_or ascii_table index 0

-- A press of a key with a character, other than a shift key.
unfoldable pub types_char : Bool → ℕ → Bool → Bool
unfolding is_shift_index char_at
types_char shift index released =
    not released
    && not (is_shift_index index)
    && ltb index (length ascii_table)
    && not (char_at shift index == 0)

-- `ps2k_irq_handler`, with the timer's count and the byte at the data port.
unfoldable pub ps2k_irq_handler : ℕ → ℕ → Ps2k → Ps2k
ps2k_irq_handler ticks scancode k =
    let index = key_index k.e0_prefix (base_code scancode) in
    let released = is_release scancode in
    let c = char_at k.shift_pressed index in
    let typed = types_char k.shift_pressed index released in
    if scancode == 0xe0 then record k { e0_prefix = true; eois = k.eois + 1 } else record {
      key_pressed = update k.key_pressed index (not released);
      shift_pressed = if is_shift_index index then not released else k.shift_pressed;
      e0_prefix = false;
      levels = if typed then broadcast (down_event ticks index c) k.levels else k.levels;
      sent = if typed then serial_putchar c k.sent else k.sent;
      eois = k.eois + 1;
    }
