-- ===== src/Graphics/Font.antt =====
-- kernel/fonts/font.c: the drawing of characters from a bitmap font, `fontStyle_t` of
-- kernel/fonts/fontlibrary.h.
use horizon_os.Prelude.{
  List, [], ◌∷◌, ℕ, zero, suc, ◌+◌, ◌-◌, ◌*◌, ◌/◌, ◌%◌, Bool, ◌||◌, Option, none, some, ltb, leb,
  ◌==◌, if◌then◌else◌, bit,
}
use horizon_os.Prelude.Int.{ℤ, pos, ◌+ℤ◌, to_uint}
use horizon_os.Graphics.{Gfx, gfx_put_pixel}

-- A font whose `GlyphWidth` may be null.
pub record FontStyle : Type 0 where
  pub glyph_count : ℕ
  pub first_ascii_code : ℕ
  pub glyph_bytes_width : ℕ
  pub glyph_height : ℕ
  pub fixed_width : ℕ
  pub glyph_width : Option (ℕ → ℕ)
  pub glyph_bitmaps : ℕ → ℕ

-- `row_data[col >> 3] & (0x80 >> (col & 7))`
unfoldable pub lit : FontStyle → ℕ → ℕ → ℕ → Bool
lit font idx row col =
    let glyph_size = font.glyph_bytes_width * font.glyph_height in
    let byte = idx * glyph_size + row * font.glyph_bytes_width + col / 8 in
    bit (7 - col % 8) (font.glyph_bitmaps byte)

-- The inner loop: `left` columns from `col` on.
unfoldable pub draw_columns : FontStyle → ℕ → ℤ → ℤ → ℕ → ℕ → ℕ → ℕ → Gfx → Gfx
unfolding lit
draw_columns font idx x y color row col zero g = g
draw_columns font idx x y color row col (suc left) g =
    draw_columns font idx x y color row (col + 1) left (
      if lit font idx row col
      then gfx_put_pixel (to_uint (x +ℤ pos col)) (to_uint (y +ℤ pos row)) color g
      else g)

-- The outer loop: `left` rows from `row` on.
unfoldable pub draw_glyph : FontStyle → ℕ → ℤ → ℤ → ℕ → ℕ → ℕ → Gfx → Gfx
unfolding draw_columns
draw_glyph font idx x y color row zero g = g
draw_glyph font idx x y color row (suc left) g =
    draw_glyph font idx x y color (row + 1) left
      (draw_columns font idx x y color row 0 (font.glyph_bytes_width * 8) g)

-- The width that is answered for a character the font does not have.
unfoldable pub default_width : FontStyle → ℕ
default_width font =
    if font.fixed_width == 0
    then elim font.glyph_width [ none ↦ 0 | some widths ↦ widths 0 ]
    else font.fixed_width

-- `none` is a read of a null `GlyphWidth`.
unfoldable pub advance : FontStyle → ℕ → Option ℕ
advance font idx =
    if font.fixed_width == 0
    then elim font.glyph_width [ none ↦ none | some widths ↦ some (widths idx) ]
    else some font.fixed_width

-- The character is a byte.
unfoldable pub font_draw_char : FontStyle → ℕ → ℤ → ℤ → ℕ → Gfx → Option ℕ × Gfx
unfolding default_width advance draw_glyph
font_draw_char font code x y color g =
    if ltb code font.first_ascii_code || leb (font.first_ascii_code + font.glyph_count) code
    then (some (default_width font), g)
    else (let idx = code - font.first_ascii_code in
        (advance font idx, draw_glyph font idx x y color 0 font.glyph_height g))

-- A string is its bytes before the NUL; `none` is a read of a null `GlyphWidth`.
unfoldable pub font_draw_string : FontStyle → List ℕ → ℤ → ℤ → ℕ → Gfx → Option Gfx
unfolding font_draw_char
font_draw_string font [] x y color g = some g
font_draw_string font (c ∷ cs) x y color g =
    let (width, g₁) = font_draw_char font c x y color g in
    elim width [ none ↦ none | some w ↦ font_draw_string font cs (x +ℤ pos w) y color g₁ ]
