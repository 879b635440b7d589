-- ===== src/Console.antt =====
-- include/kernel/console.c: the text console on the frame buffer. The cursor's numbers are those of a
-- screen that holds at least one cell, so none of them is negative.
pub mod Cursor
pub mod Scroll
pub mod Format
pub mod Digits
use horizon_os.Prelude.{
  ℕ, zero, suc, ◌+◌, ◌-◌, ◌*◌, ◌/◌, ◌%◌, ◌^◌, Bool, true, false, Option, none, some, List, [], ◌∷◌,
  ltb, leb, ◌==◌, if◌then◌else◌,
}
use horizon_os.Prelude.Int.{pos}
use horizon_os.Graphics.{
  Gfx, framebuffer, stored, stride, rgb, gfx_set_target, gfx_fill_rect, gfx_clear_screen,
}
use horizon_os.Graphics.Font.{FontStyle, font_draw_char}

-- The static data of the file, the frame buffer and the interrupt flag.
pub record Console : Type 0 where
  pub gfx : Gfx
  pub font : FontStyle
  pub fg_color : ℕ
  pub bg_color : ℕ
  pub cursor_col : ℕ
  pub cursor_row : ℕ
  pub max_cols : ℕ
  pub max_rows : ℕ
  pub cell_w : ℕ
  pub cell_h : ℕ
  pub screen_w : ℕ
  pub screen_h : ℕ
  pub interrupts : Bool

unfoldable pub cell_width : FontStyle → ℕ
cell_width font =
    if font.fixed_width == 0
    then elim font.glyph_width [ none ↦ 0 | some widths ↦ widths 0 ]
    else font.fixed_width

-- The font is `FontStyle_MonaspaceArgonLight`, whose data is an argument.
unfoldable pub console_init : FontStyle → Console → Console
unfolding cell_width
console_init font c =
    let w = cell_width font in
    let h = font.glyph_height in
    record {
      gfx = gfx_set_target framebuffer c.gfx;
      font = font;
      fg_color = rgb 204 204 204;
      bg_color = rgb 0 0 0;
      cursor_col = 0;
      cursor_row = 0;
      max_cols = c.gfx.fb.width / w;
      max_rows = c.gfx.fb.height / h;
      cell_w = w;
      cell_h = h;
      screen_w = c.gfx.fb.width;
      screen_h = c.gfx.fb.height;
      interrupts = c.interrupts;
    }

-- The first loop of `scroll_up`: `left` words are still to be copied, from `i` on.
unfoldable pub copy_words : ℕ → ℕ → ℕ → (ℕ → ℕ) → ℕ → ℕ
copy_words row i zero words = words
copy_words row i (suc left) words = copy_words row (i + 1) left (stored words i (words (i + row)))

-- The second one.
unfoldable pub clear_words : ℕ → ℕ → ℕ → ℕ → (ℕ → ℕ) → ℕ → ℕ
clear_words last color i zero words = words
clear_words last color i (suc left) words =
    clear_words last color (i + 1) left (stored words (last + i) color)

unfoldable pub scroll_up : Console → Console
unfolding copy_words clear_words
scroll_up c =
    let s = stride c.gfx in
    let row_pixels = c.cell_h * s % 2 ^ 32 in
    let kept = s * ((c.screen_h + 2 ^ 32 - c.cell_h) % 2 ^ 32) % 2 ^ 32 in
    let moved = copy_words row_pixels 0 kept c.gfx.front in
    record c {
      gfx = record c.gfx { front = clear_words kept c.bg_color 0 row_pixels moved };
      cursor_row = c.max_rows - 1;
    }

unfoldable pub newline : Console → Console
unfolding scroll_up
newline c =
    let c₁ = record c { cursor_col = 0; cursor_row = c.cursor_row + 1 } in
    if leb c.max_rows (c.cursor_row + 1) then scroll_up c₁ else c₁

-- The cell under the cursor.
unfoldable pub clear_cell : Console → Console
clear_cell c =
    let px = c.cursor_col * c.cell_w in
    let py = c.cursor_row * c.cell_h in
    record c {
      gfx =
          gfx_fill_rect (pos px) (pos py) (pos (px + c.cell_w - 1)) (pos (py + c.cell_h - 1))
            c.bg_color c.gfx;
    }

-- A character that is shown.
unfoldable pub put_glyph : ℕ → Console → Console
unfolding clear_cell
put_glyph ch c =
    let c₁ = clear_cell c in
    let px = c.cursor_col * c.cell_w in
    let py = c.cursor_row * c.cell_h in
    record c₁ {
      gfx = (font_draw_char c.font ch (pos px) (pos py) c.fg_color c₁.gfx).1;
      cursor_col = c.cursor_col + 1;
    }

unfoldable pub tab : Console → Console
unfolding newline
tab c =
    let col = (c.cursor_col + 4) / 4 * 4 in
    let c₁ = record c { cursor_col = col } in if leb c.max_cols col then newline c₁ else c₁

-- `console_putchar` between `irq_save` and `irq_restore`.
unfoldable pub put : ℕ → Console → Console
unfolding newline tab put_glyph
put ch c =
    if ch == b'\n'
    then newline c
    else if ch == b'\t'
    then tab c
    else put_glyph ch (if leb c.max_cols c.cursor_col then newline c else c)

-- The character is a byte.
unfoldable pub console_putchar : ℕ → Console → Console
unfolding put
console_putchar ch c =
    let c₁ = put ch (record c { interrupts = false }) in
    if c.interrupts then record c₁ { interrupts = true } else c₁

unfoldable pub console_backspace : Console → Console
unfolding clear_cell
console_backspace c =
    if c.cursor_col == 0
    then (if c.cursor_row == 0
        then c
        else clear_cell (record c { cursor_row = c.cursor_row - 1; cursor_col = c.max_cols - 1 }))
    else clear_cell (record c { cursor_col = c.cursor_col - 1 })

-- A string is its bytes before the NUL.
unfoldable pub console_puts : List ℕ → Console → Console
unfolding console_putchar
console_puts [] c = c
console_puts (ch ∷ chs) c = console_puts chs (console_putchar ch c)

unfoldable pub console_set_fg : ℕ → Console → Console
console_set_fg color c = record c { fg_color = color }

unfoldable pub console_set_bg : ℕ → Console → Console
console_set_bg color c = record c { bg_color = color }

unfoldable pub console_clear : Console → Console
console_clear c = record c { gfx = gfx_clear_screen c.gfx; cursor_col = 0; cursor_row = 0 }
