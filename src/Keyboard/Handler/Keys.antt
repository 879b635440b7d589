-- ===== src/Keyboard/Handler/Keys.antt =====
-- What the keyboard interrupt does to the table of pressed keys and to the shift state.
use Prim.Native.Nat.{bit_and, bit_or}
use horizon_os.Prelude.{
  ℕ, ◌+◌, ◌*◌, ◌%◌, ◌/◌, ◌<◌, ◌≡◌, ◌≢◌, refl, Bool, true, false, ◌&&◌, ◌||◌, not, arith, ltb, leb,
  ◌==◌, if◌then◌else◌, every_below, at-every_below, ==_iff,
}
use horizon_os.Keyboard.Handler.{
  Keyboard, is_key_pressed, update, base_code, is_release, key_index, next_shift, queue_event,
  keyboard_interrupt_handler,
}

base_table : every_below 256 (λ s. bit_and s 0x7f == s % 128) ≡ true
unfolding every_below
base_table = refl

release_table : every_below 256 (λ s. bit_and s 0x80 == s / 128 * 128) ≡ true
unfolding every_below
release_table = refl

index_table : every_below 128 (λ b. bit_or b 0x80 == b + 128) ≡ true
unfolding every_below
index_table = refl

-- The three bit operations of the handler, as arithmetic on a byte.
pub base_code_lem : (s : ℕ) → s < 256 → base_code s ≡ s % 128
unfolding base_code
base_code_lem s h = (==_iff _ _).0 (at-every_below 256 _ s base_table h)

pub is_release_lem : (s : ℕ) → s < 256 → is_release s ≡ leb 128 s
unfolding is_release
is_release_lem s h =
    let e : bit_and s 0x80 ≡ s / 128 * 128 =
      (==_iff _ _).0 (at-every_below 256 _ s release_table h) in
    ground (arith, e)

pub key_index_lem : (ext : Bool) (b : ℕ) → b < 128 → key_index ext b ≡ (if ext then b + 128 else b)
unfolding key_index
key_index_lem true b h = (==_iff _ _).0 (at-every_below 128 _ b index_table h)
key_index_lem false b h = refl

-- The cell of `key_state` for a key: an extended one has the upper half.
abbrev pub cell : Bool → ℕ → ℕ
cell ext s = if ext then s % 128 + 128 else s % 128

module _ (ticks s : ℕ) (k : Keyboard) (h : s < 256) (plain : s ≢ 0xe0) where
  pub is_plain : (s == 0xe0) ≡ false
  is_plain = ground arith

  pub pressed_lem : not (is_release s) ≡ ltb s 128
  pressed_lem = rw (is_release_lem s h) (ground arith)

  pub cell_lem : key_index k.extended_prefix (base_code s) ≡ cell k.extended_prefix s
  cell_lem = rw (base_code_lem s h, key_index_lem k.extended_prefix (s % 128) (omega arith)) (refl)

  -- Any byte but the prefix sets the cell of its key to whether the key is down, and leaves every
  -- other cell as it was.
  pub handler-is_key_pressed :
      (j : ℕ)
      → is_key_pressed (keyboard_interrupt_handler ticks s k) j
        ≡ (if j == cell k.extended_prefix s then ltb s 128 else is_key_pressed k j)
  unfolding keyboard_interrupt_handler is_key_pressed update
  handler-is_key_pressed j = rw (is_plain, pressed_lem, cell_lem)

  -- For any byte but the prefix, the shift state follows the two shift keys, pressed with no
  -- prefix, and nothing else.
  pub handler-shift_pressed : (keyboard_interrupt_handler ticks s k).shift_pressed ≡ (
      if not k.extended_prefix && (s % 128 == 0x2a || s % 128 == 0x36)
      then ltb s 128
      else k.shift_pressed)
  unfolding keyboard_interrupt_handler next_shift
  handler-shift_pressed = rw (is_plain, pressed_lem, base_code_lem s h)

-- A prefix and then any byte but a prefix together set the extended cell of the key and no other,
-- leave the shift state and every event queue alone, clear the prefix, and are acknowledged twice.
pub extended_sequence :
    (t u s : ℕ) (k : Keyboard)
    → s < 256
    → s ≢ 0xe0
    → let k' = keyboard_interrupt_handler u s (keyboard_interrupt_handler t 0xe0 k) in
      ((j : ℕ)
        → is_key_pressed k' j ≡ (if j == s % 128 + 128 then ltb s 128 else is_key_pressed k j))
      × (k'.shift_pressed ≡ k.shift_pressed)
      × (k'.levels ≡ k.levels)
      × (k'.extended_prefix ≡ false)
      × (k'.eois ≡ k.eois + 2)
unfolding keyboard_interrupt_handler is_key_pressed update next_shift queue_event
extended_sequence t u s k h plain =
    let prefixed : Keyboard = record k { extended_prefix = true; eois = k.eois + 1 } in
    let test = is_plain u s prefixed h plain in
    (
      λ j. rw (test, pressed_lem u s prefixed h plain, cell_lem u s prefixed h plain),
      rw test,
      rw test (ground arith),
      rw test,
      rw test (omega arith),
    )
