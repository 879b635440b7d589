-- ===== src/Peek/Tests.antt =====
-- A memory of letters and one of control characters and a byte above them, and a number.
use horizon_os.Prelude.{ℕ, ◌+◌, ◌%◌, none, ltb, true, if◌then◌else◌}
use horizon_os.Graphics.{Gfx, framebuffer}
use horizon_os.Graphics.Font.{FontStyle}
use horizon_os.Console.{Console}

abbrev screen : Gfx
screen = record {
  fb = record { pitch = 80; width = 16; height = 8 };
  front = λ i. i;
  back = λ i. 0;
  screen_size = 640;
  target = framebuffer;
}

-- A font of one character, of four rows, whose bitmap is a frame.
abbrev font : FontStyle
font = record {
  glyph_count = 1;
  first_ascii_code = 65;
  glyph_bytes_width = 1;
  glyph_height = 4;
  fixed_width = 8;
  glyph_width = none;
  glyph_bitmaps = λ i. if ltb i 1 then 255 else 129;
}

abbrev console : Console
console = record {
  gfx = screen;
  font = font;
  fg_color = 1;
  bg_color = 0;
  cursor_col = 2;
  cursor_row = 1;
  max_cols = 2;
  max_rows = 2;
  cell_w = 8;
  cell_h = 4;
  screen_w = 16;
  screen_h = 8;
  interrupts = true;
}

abbrev low : ℕ → ℕ
low a = a % 32

abbrev high : ℕ → ℕ
high a = a % 32 + 128
