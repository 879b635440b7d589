-- ===== src/Log/Tests.antt =====
-- The picture, the console and the messages on a screen of 16 by 8 pixels whose rows have 20 words.
use horizon_os.Prelude.{
  ℕ, ◌+◌, ◌*◌, ◌≡◌, refl, true, none, some, List, [], ◌∷◌, ◌++◌, arith, ltb, if◌then◌else◌,
}
use horizon_os.Prelude.Int.{pos, negsuc}
use horizon_os.Graphics.{Gfx, framebuffer, draw_buffer, gfx_fill_rect}
use horizon_os.Graphics.Fill.{WellFormed, gfx_fill_rect_lem}
use horizon_os.Graphics.Font.{FontStyle, font_draw_char, lit}
use horizon_os.Graphics.Glyphs.{font_draw_char_lem}
use horizon_os.Console.{Console, console_puts, console_set_fg, console_set_bg}
use horizon_os.Console.Cursor.{OnScreen}
use horizon_os.Console.Format.{Arg, num, ◌>>=◌, console_vprintf}
use horizon_os.Serial.{serial_vprintf, serial_putchar}
use horizon_os.Serial.Same.{console_vprintf-serial_vprintf}
use horizon_os.Log.{level_value, warn, debug, Log, tag, colours, info_fg, printk}
use horizon_os.Log.Shown.{printk_lem, printk-OnScreen}

abbrev screen : Gfx
screen = record {
  fb = record { pitch = 80; width = 16; height = 8 };
  front = λ i. i;
  back = λ i. 0;
  screen_size = 640;
  target = framebuffer;
}

screen-WellFormed : WellFormed screen
screen-WellFormed = record {
  row = omega arith;
  wide = omega arith;
  high = omega arith;
  size = omega arith;
}

-- The rectangle starts outside the screen, and the pixel is its corner on the screen.
gfx_fill_rect_lem_example :
    draw_buffer (gfx_fill_rect (negsuc 4) (pos 2) (pos 3) (pos 9) 7 screen) (2 * 20 + 3) ≡ 7
gfx_fill_rect_lem_example =
    gfx_fill_rect_lem (negsuc 4) (pos 2) (pos 3) (pos 9) 7 3 2 screen screen-WellFormed
      (omega arith)

-- A font of one character, of four rows, whose bitmap is a frame.
abbrev font : FontStyle
font = record {
  glyph_count = 1;
  first_ascii_code = 65;
  glyph_bytes_width = 1;
  glyph_height = 4;
  fixed_width = 8;
  glyph_width = none;
  glyph_bitmaps = λ i. if ltb i 1 then 255 else 129;
}

font_draw_char_lem_example :
    draw_buffer (font_draw_char font 65 (pos 8) (pos 4) 9 screen).1 (5 * 20 + 15) ≡ 9
unfolding lit
font_draw_char_lem_example =
    font_draw_char_lem font 65 8 4 9 5 15 screen screen-WellFormed (omega arith) (omega arith)
      (omega arith)

abbrev console : Console
console = record {
  gfx = screen;
  font = font;
  fg_color = 1;
  bg_color = 0;
  cursor_col = 2;
  cursor_row = 1;
  max_cols = 2;
  max_rows = 2;
  cell_w = 8;
  cell_h = 4;
  screen_w = 16;
  screen_h = 8;
  interrupts = true;
}

-- `a%d`
abbrev fmt : List ℕ
fmt = b'a' ∷ b'%' ∷ b'd' ∷ []

abbrev args : List Arg
args = num 4294967254 ∷ []

console_vprintf-serial_vprintf_example :
    console_vprintf fmt args console
    ≡ (serial_vprintf fmt args [] >>= λ out. some (console_puts out console))
console_vprintf-serial_vprintf_example = console_vprintf-serial_vprintf fmt args console

abbrev log : Log
log = record { log_level = debug; console = console; sent = b'x' ∷ [] }

abbrev hello : List ℕ
hello = b'h' ∷ b'i' ∷ b'\n' ∷ []

sent_alone : serial_vprintf hello [] [] ≡ some hello
unfolding serial_vprintf serial_putchar
sent_alone = refl

sent_after : serial_vprintf hello [] (log.sent ++ tag warn) ≡ some (log.sent ++ tag warn ++ hello)
unfolding serial_vprintf serial_putchar tag
sent_after = refl

-- A warning has the tag and the colours of a fatal error.
abbrev warned : Log
warned = record log {
  console =
      console_set_bg 0
        (console_set_fg info_fg (console_puts (tag warn ++ hello) (colours warn console)));
  sent = log.sent ++ tag warn ++ hello;
}

warned_by : printk warn hello [] log ≡ some warned
unfolding level_value
warned_by = printk_lem warn hello [] hello (log.sent ++ tag warn ++ hello) log sent_alone sent_after

start : OnScreen console
start = record { cols = omega arith; rows = omega arith; col = omega arith; row = omega arith }

printk-OnScreen_example : OnScreen warned.console
printk-OnScreen_example = printk-OnScreen warn hello [] log warned start warned_by
