-- ===== src/Terminal.antt =====
-- The text terminal of i386, arch/i386/drivers/tty.c. The buffer is the memory from 0xB8000 on, by
-- words, so that a write outside the screen shows; a `size_t` has 32 bits. What `outb` sends is a
-- list of ports and bytes, the newest first, and `halts` counts the executions of `hlt`, after which
-- the code goes on with the next interrupt.
pub mod Scroll
pub mod Decimal
pub mod Page
pub mod Shown
mod Tests
use horizon_os.Prelude.{
  ℕ, zero, suc, ◌+◌, ◌-◌, ◌*◌, ◌/◌, ◌%◌, ◌^◌, Bool, not, ◌||◌, Option, none, some, List, [], ◌∷◌,
  ltb, leb, ◌==◌, if◌then◌else◌,
}
use horizon_os.Prelude.Int.{ℤ, pos, pos_part, ltb_ℤ}
use Prim.Native.Nat.{bit_or}

pub record Terminal : Type 0 where
  pub row : ℕ
  pub column : ℕ
  pub color : ℕ
  pub buffer : ℕ → ℕ
  pub sent : List (ℕ × ℕ)
  pub halts : ℕ

abbrev pub vga_width : ℕ
vga_width = 80

abbrev pub vga_height : ℕ
vga_height = 25

unfoldable pub vga_entry_color : ℕ → ℕ → ℕ
vga_entry_color fg bg = bit_or fg (bg * 2 ^ 4) % 2 ^ 8

unfoldable pub vga_entry : ℕ → ℕ → ℕ
vga_entry uc color = bit_or uc (color * 2 ^ 8 % 2 ^ 16)

abbrev pub blank_entry : ℕ → ℕ
blank_entry color = vga_entry b' ' color

-- `terminal_buffer[index] = v`
abbrev pub write_entry : ℕ → ℕ → (ℕ → ℕ) → ℕ → ℕ
write_entry index v buffer k = if k == index then v else buffer k

-- `for (i = 0; i < n; i++) body`
unfoldable pub loop : ℕ → (ℕ → (ℕ → ℕ) → ℕ → ℕ) → (ℕ → ℕ) → ℕ → ℕ
loop zero body buffer = buffer
loop (suc n) body buffer = body n (loop n body buffer)

unfoldable pub update_hardware_cursor : Terminal → Terminal
update_hardware_cursor t =
    let cursor_location = (t.row * vga_width + t.column) % 2 ^ 16 in
    record t {
      sent =
          (0x3D5, cursor_location % 2 ^ 8)
          ∷ (0x3D4, 0x0F)
          ∷ (0x3D5, cursor_location / 2 ^ 8)
          ∷ (0x3D4, 0x0E)
          ∷ t.sent;
    }

-- The cells of rows `from` to `from + rows - 1` become blanks.
unfoldable pub clear_row : ℕ → ℕ → (ℕ → ℕ) → ℕ → ℕ
clear_row color r = loop vga_width (λ c. write_entry (r * vga_width + c) (blank_entry color))

unfoldable pub clear_rows : ℕ → ℕ → ℕ → (ℕ → ℕ) → ℕ → ℕ
clear_rows color from rows = loop rows (λ r. clear_row color (from + r))

-- Row r of the first `kept` gets the row `rows` below it.
unfoldable pub move_row : ℕ → ℕ → (ℕ → ℕ) → ℕ → ℕ
move_row rows r =
    loop vga_width (λ c b. write_entry (r * vga_width + c) (b ((r + rows) * vga_width + c)) b)

unfoldable pub move_rows : ℕ → ℕ → (ℕ → ℕ) → ℕ → ℕ
move_rows rows kept = loop kept (move_row rows)

unfoldable pub terminal_initialize : Terminal → Terminal
terminal_initialize t =
    let color = vga_entry_color 15 0 in
    update_hardware_cursor (record t {
      row = 0;
      column = 0;
      color = color;
      buffer = clear_rows color 0 vga_height t.buffer;
    })

unfoldable pub terminal_setcolor : ℕ → Terminal → Terminal
terminal_setcolor color t = record t { color = color }

unfoldable pub terminal_set_cursor : ℕ → ℕ → Terminal → Terminal
terminal_set_cursor x y t = update_hardware_cursor (record t { row = y; column = x })

-- Out of bounds the code shows BUGBUGBUG, halts, and stores all the same when it goes on.
abbrev pub show_bug : ℕ → (ℕ → ℕ) → ℕ → ℕ
show_bug color = loop 9 (λ i.
    write_entry i
      (vga_entry (if i % 3 == 0 then b'B' else if i % 3 == 1 then b'U' else b'G') color))

unfoldable pub terminal_putentryat : ℕ → ℕ → ℕ → ℕ → Terminal → Terminal
terminal_putentryat c color x y t =
    let index = (y * vga_width + x) % 2 ^ 32 in
    if leb vga_width x || leb vga_height y
    then record t {
      buffer = write_entry index (vga_entry c color) (show_bug t.color t.buffer);
      halts = t.halts + 1;
    }
    else record t { buffer = write_entry index (vga_entry c color) t.buffer }

unfoldable pub terminal_scroll : Terminal → Terminal
terminal_scroll t = record t {
  buffer = clear_rows t.color (vga_height - 1) 1 (move_rows 1 (vga_height - 1) t.buffer);
}

unfoldable pub terminal_scrolln : ℕ → Terminal → Terminal
terminal_scrolln rows t =
    if rows == 0
    then t
    else if leb vga_height rows
    then record t {
      buffer = loop (vga_width * vga_height) (λ i. write_entry i (blank_entry t.color)) t.buffer;
    }
    else record t {
      buffer =
          clear_rows t.color (vga_height - rows) rows (move_rows rows (vga_height - rows) t.buffer);
    }

abbrev pub erase_back : Terminal → Terminal
erase_back t =
    if ltb 0 t.column
    then update_hardware_cursor
        (terminal_putentryat b' ' t.color (t.column - 1) t.row (record t { column = t.column - 1 }))
    else t

abbrev pub line_feed : Terminal → Terminal
line_feed t = update_hardware_cursor (
    if leb (vga_height - 1) t.row
    then record (terminal_scroll t) { row = vga_height - 1; column = 0 }
    else record t { row = t.row + 1; column = 0 })

-- The cursor one to the right, or at the start of the next row.
abbrev pub step_right : Terminal → Terminal
step_right t =
    let column = (t.column + 1) % 2 ^ 32 in
    let row = (t.row + 1) % 2 ^ 32 in
    if leb vga_width column
    then (if leb vga_height row
        then record (terminal_scroll t) { row = vga_height - 1; column = 0 }
        else record t { row = row; column = 0 })
    else record t { column = column }

unfoldable pub terminal_putchar : ℕ → Terminal → Terminal
terminal_putchar c t =
    if c == 8
    then erase_back t
    else if c == b'\n'
    then line_feed t
    else update_hardware_cursor (step_right (terminal_putentryat c t.color t.column t.row t))

unfoldable pub terminal_write : List ℕ → Terminal → Terminal
terminal_write [] t = t
terminal_write (c ∷ text) t = terminal_write text (terminal_putchar c t)

unfoldable pub print_colored : List ℕ → ℕ → ℕ → Terminal → Terminal
print_colored str fg bg t =
    record (terminal_write str (record t { color = vga_entry_color fg bg })) { color = t.color }

-- Of the debugging variants of `terminal_putentryat`, one marks the corner of the screen and returns
-- when out of bounds, and one only raises the breakpoint interrupt.
unfoldable pub terminal_putentryat_visual_debug : ℕ → ℕ → ℕ → ℕ → Terminal → Terminal
terminal_putentryat_visual_debug c color x y t = record t {
  buffer =
      if leb vga_width x || leb vga_height y
      then write_entry 0 (vga_entry b'!' (vga_entry_color 15 4)) t.buffer
      else write_entry (y * vga_width + x) (vga_entry c color) t.buffer;
}

unfoldable pub terminal_putentryat_interrupt_debug : ℕ → ℕ → ℕ → ℕ → Terminal → Terminal
terminal_putentryat_interrupt_debug c color x y t = record t {
  buffer =
      if leb vga_width x || leb vga_height y
      then t.buffer
      else write_entry (y * vga_width + x) (vga_entry c color) t.buffer;
}

-- `none`: out of bounds the code prints a message and halts for good.
unfoldable pub terminal_putchar_at : ℕ → ℤ → ℤ → Terminal → Option Terminal
terminal_putchar_at c x y t =
    if ltb_ℤ x (pos 0)
      || ltb_ℤ y (pos 0)
      || not (ltb_ℤ x (pos vga_width))
      || not (ltb_ℤ y (pos vga_height))
    then none
    else some (terminal_putentryat c t.color (pos_part x) (pos_part y) t)
