-- ===== src/Keyboard/Handler.antt =====
-- `keyboard_interrupt_handler` and `is_key_pressed` of drivers/keyboard/keyboard.c (the i386
-- build). What the handler reads of the hardware, the scan code at port 0x60 and the timer's count,
-- is an argument; the field `eois` counts its calls of `apic_send_eoi`.
pub mod Keys
pub mod Events
use Prim.Native.Nat.{bit_and, bit_or}
use horizon_os.Prelude.{
  ℕ, ◌+◌, ◌%◌, Bool, true, false, ◌&&◌, ◌||◌, not, List, [], ◌∷◌, length, get_or, ltb, ◌==◌,
  if◌then◌else◌,
}
use horizon_os.Keyboard.Tables.{scancode_to_ascii, scancode_to_ascii_uppercase}
use horizon_os.Keyboard.Queue.{KeyEvent, Level, key_event_down, push}

-- The static variables that the handler works on. A cell of `key_state` holds 0 or 1.
pub record Keyboard : Type 0 where
  pub key_state : ℕ → Bool
  pub extended_prefix : Bool
  pub shift_pressed : Bool
  pub levels : List Level
  pub eois : ℕ

unfoldable pub is_key_pressed : Keyboard → ℕ → Bool
is_key_pressed k scan_code = k.key_state scan_code

-- The write `key_state[i] = v`.
unfoldable pub update : (ℕ → Bool) → ℕ → Bool → ℕ → Bool
update f i v j = if j == i then v else f j

-- The loop over the levels: each one in use is handed the event.
unfoldable pub broadcast : KeyEvent → List Level → List Level
broadcast ev [] = []
broadcast ev (q ∷ qs) = (if q.used then push q ev else q) ∷ broadcast ev qs

-- The scan code without its top bit, which marks a release.
unfoldable pub base_code : ℕ → ℕ
base_code scancode = bit_and scancode 0x7f

unfoldable pub is_release : ℕ → Bool
is_release scancode = not (bit_and scancode 0x80 == 0)

-- Extended keys have the upper half of `key_state`.
unfoldable pub key_index : Bool → ℕ → ℕ
key_index was_extended base = if was_extended then bit_or base 0x80 else base

unfoldable pub ascii_of : Bool → ℕ → ℕ
ascii_of shift base =
    if shift then get_or scancode_to_ascii_uppercase base 0 else get_or scancode_to_ascii base 0

unfoldable pub down_event : ℕ → ℕ → ℕ → KeyEvent
down_event ticks base c = record {
  type = key_event_down;
  scan_code = base % 256;
  value = c % 256;
  timestamp = ticks % 256;
}

unfoldable pub next_shift : Bool → Bool → ℕ → Bool → Bool
next_shift was_extended shift base release =
    if not was_extended && (base == 0x2a || base == 0x36) then not release else shift

-- The tail of the handler: a key-down event goes to the listeners.
unfoldable pub queue_event : ℕ → Bool → Bool → ℕ → Bool → List Level → List Level
queue_event ticks shift was_extended base release levels =
    let c = ascii_of shift base in
    if not release && not was_extended && ltb base (length scancode_to_ascii)
    then if c == 0 then levels else broadcast (down_event ticks base c) levels
    else levels

unfoldable pub keyboard_interrupt_handler : ℕ → ℕ → Keyboard → Keyboard
keyboard_interrupt_handler ticks scancode k =
    let base = base_code scancode in
    let release = is_release scancode in
    let shift = next_shift k.extended_prefix k.shift_pressed base release in
    if scancode == 0xe0 then record k { extended_prefix = true; eois = k.eois + 1 } else record {
      key_state = update k.key_state (key_index k.extended_prefix base) (not release);
      extended_prefix = false;
      shift_pressed = shift;
      levels = queue_event ticks shift k.extended_prefix base release k.levels;
      eois = k.eois + 1;
    }
