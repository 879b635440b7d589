-- ===== src/Graphics/Glyphs.antt =====
-- Which words of the buffer a pixel and a character write.
use horizon_os.Prelude.{
  ℕ, zero, suc, ◌+◌, ◌-◌, ◌*◌, ◌/◌, List, [], ◌∷◌, get_or, bit, ◌%◌, ◌^◌, ◌≤◌, ◌<◌, ◌≡◌, refl, ap,
  ◌∙◌, inl, inr, Bool, true, ◌&&◌, ◌||◌, arith, ltb, leb, ◌==◌, if◌then◌else◌, Bool-cases,
  ℕ_discrete,
}
use native.Mathlib.Nat.{mul-le-mul_right}
use horizon_os.Prelude.Int.{pos, ◌+ℤ◌, to_uint}
use horizon_os.Graphics.{Gfx, draw_buffer, stride, gfx_put_pixel}
use horizon_os.Graphics.Fill.{WellFormed, within, within_row, draw_buffer-draw, draw-fb}
use horizon_os.Graphics.Font.{FontStyle, lit, draw_columns, draw_glyph, font_draw_char}

gfx_put_pixel-fb : (x y val : ℕ) (g : Gfx) → (gfx_put_pixel x y val g).fb ≡ g.fb
unfolding gfx_put_pixel
gfx_put_pixel-fb x y val g = ground (arith, draw-fb ((y * stride g + x) % 2 ^ 32) val g)

-- In a well-formed buffer a pixel outside the screen writes nothing, and any other its own word.
pub gfx_put_pixel_lem :
    (x y val q r : ℕ) (g : Gfx)
    → WellFormed g
    → r < stride g
    → draw_buffer (gfx_put_pixel x y val g) (q * stride g + r) ≡ (
        if (q == y && r == x) && (ltb r g.fb.width && ltb q g.fb.height)
        then val
        else draw_buffer g (q * stride g + r))
unfolding gfx_put_pixel
gfx_put_pixel_lem x y val q r g wf h = elim (Bool-cases (leb g.fb.width x || leb g.fb.height y)) [
  | inl out ↦ rw out (ground (arith, out))
  | inr on ↦
      let inside : (x < g.fb.width) × (y < g.fb.height) = ground (arith, on) in
      let room : (y + 1) * stride g ≤ g.fb.height * stride g =
        mul-le-mul_right (stride g) (omega (arith, inside.1)) in
      let low : (y * stride g + x) % 2 ^ 32 ≡ y * stride g + x =
        omega (arith, room, wf.size, wf.row, inside.0) in
      let row = within_row (stride g) q r y x 1 h (omega (arith, wf.row, inside.0)) in
      rw (on, draw_buffer-draw ((y * stride g + x) % 2 ^ 32) val (q * stride g + r) g, low)
        (ground (arith, row, inside))
]

WellFormed-fb : (g g' : Gfx) → g'.fb ≡ g.fb → WellFormed g → WellFormed g'
WellFormed-fb g g' e wf = record {
  row = rw e (wf.row);
  wide = rw e (wf.wide);
  high = rw e (wf.high);
  size = rw e (wf.size);
}

-- A column of a glyph's row: a pixel, where it is lit.
column : FontStyle → ℕ → ℕ → ℕ → ℕ → ℕ → ℕ → Gfx → Gfx
column font idx x y color row col g =
    if lit font idx row col
    then gfx_put_pixel (to_uint (pos x +ℤ pos col)) (to_uint (pos y +ℤ pos row)) color g
    else g

to_uint_sum : (a b : ℕ) → a + b < 2 ^ 32 → to_uint (pos a +ℤ pos b) ≡ a + b
unfolding to_uint ◌+ℤ◌
to_uint_sum a b h = ground arith

-- Whether a pixel is one that the font lights, of a character drawn at `x` and `y`, and on the screen.
abbrev pub on_screen : Gfx → ℕ → ℕ → Bool
on_screen g q r = ltb r g.fb.width && ltb q g.fb.height

module _ (font : FontStyle) (idx x y color q r : ℕ) where
  column-fb : (row col : ℕ) (g : Gfx) → (column font idx x y color row col g).fb ≡ g.fb
  unfolding column
  column-fb row col g =
      ground
        (arith, gfx_put_pixel-fb (to_uint (pos x +ℤ pos col)) (to_uint (pos y +ℤ pos row)) color g)

  column_lem :
      (row col : ℕ) (g : Gfx)
      → WellFormed g
      → r < stride g
      → x + col < 2 ^ 32
      → y + row < 2 ^ 32
      → draw_buffer (column font idx x y color row col g) (q * stride g + r) ≡ (
          if (q == y + row && (r == x + col && lit font idx row col)) && on_screen g q r
          then color
          else draw_buffer g (q * stride g + r))
  unfolding column
  column_lem row col g wf h wide high = elim (Bool-cases (lit font idx row col)) [
    | inl e ↦
        rw (e, to_uint_sum x col wide, to_uint_sum y row high)
          (gfx_put_pixel_lem (x + col) (y + row) color q r g wf h ∙ ground arith)
    | inr e ↦ rw e (ground arith)
  ]

  draw_columns_lem :
      (row col left : ℕ) (g : Gfx)
      → WellFormed g
      → r < stride g
      → x + col + left ≤ 2 ^ 32
      → y + row < 2 ^ 32
      → draw_buffer (draw_columns font idx (pos x) (pos y) color row col left g) (q * stride g + r)
        ≡ (if (q == y + row && (within (x + col) left r && lit font idx row (r - x)))
              && on_screen g q r
            then color
            else draw_buffer g (q * stride g + r))
  unfolding draw_columns column
  draw_columns_lem row col zero g wf h wide high = ground arith
  draw_columns_lem row col (suc left) g wf h wide high =
      let g' = column font idx x y color row col g in
      let e = column-fb row col g in
      let first = column_lem row col g wf h (omega arith) high in
      let rest =
        draw_columns_lem row (col + 1) left g' (WellFormed-fb g g' e wf) (rw e h) (omega arith)
          high in
      let rest' = rw (e, first) at rest in
      elim (ℕ_discrete r (x + col)) [
        | yes same ↦
            let here : r - x ≡ col = omega (arith, same) in
            rw rest' (rw here (ground (arith, same)))
        | no ne ↦ rw rest' (ground (arith, ne))
      ]

  draw_columns-fb :
      (row col left : ℕ) (g : Gfx)
      → (draw_columns font idx (pos x) (pos y) color row col left g).fb ≡ g.fb
  unfolding draw_columns column
  draw_columns-fb row col zero g = refl
  draw_columns-fb row col (suc left) g =
      draw_columns-fb row (col + 1) left (column font idx x y color row col g) ∙ column-fb row col g

  draw_glyph_lem :
      (row left : ℕ) (g : Gfx)
      → WellFormed g
      → r < stride g
      → x + font.glyph_bytes_width * 8 ≤ 2 ^ 32
      → y + row + left ≤ 2 ^ 32
      → draw_buffer (draw_glyph font idx (pos x) (pos y) color row left g) (q * stride g + r) ≡ (
          if (within (y + row) left q
              && (within x (font.glyph_bytes_width * 8) r && lit font idx (q - y) (r - x)))
            && on_screen g q r
          then color
          else draw_buffer g (q * stride g + r))
  unfolding draw_glyph
  draw_glyph_lem row zero g wf h wide high = ground arith
  draw_glyph_lem row (suc left) g wf h wide high =
      let n = font.glyph_bytes_width * 8 in
      let g' = draw_columns font idx (pos x) (pos y) color row 0 n g in
      let e = draw_columns-fb row 0 n g in
      let first = draw_columns_lem row 0 n g wf h (omega (arith, wide)) (omega arith) in
      let rest =
        draw_glyph_lem (row + 1) left g' (WellFormed-fb g g' e wf) (rw e h) wide (omega arith) in
      let rest' = rw (e, first) at rest in
      elim (ℕ_discrete q (y + row)) [
        | yes same ↦
            let here : q - y ≡ row = omega (arith, same) in
            rw rest' (rw here (ground (arith, same)))
        | no ne ↦ rw rest' (ground (arith, ne))
      ]

-- The weights of the eight pixels of a byte, from left to right.
abbrev weights : List ℕ
weights = 128 ∷ 64 ∷ 32 ∷ 16 ∷ 8 ∷ 4 ∷ 2 ∷ 1 ∷ []

-- Whether the picture of a character has a pixel in a row and a column. Characters and rows follow
-- each other byte by byte, and the leftmost pixel of a byte is its highest bit.
abbrev pub in_bitmap : FontStyle → ℕ → ℕ → ℕ → Bool
in_bitmap font idx row col =
    let byte =
      font.glyph_bitmaps ((idx * font.glyph_height + row) * font.glyph_bytes_width + col / 8) in
    byte / get_or weights (col % 8) 1 % 2 == 1

bit-weights : (b c : ℕ) → c < 8 → bit (7 - c) b ≡ (b / get_or weights c 1 % 2 == 1)
bit-weights b zero h = ground arith
bit-weights b (suc zero) h = ground arith
bit-weights b (suc (suc zero)) h = ground arith
bit-weights b (suc (suc (suc zero))) h = ground arith
bit-weights b (suc (suc (suc (suc zero)))) h = ground arith
bit-weights b (suc (suc (suc (suc (suc zero))))) h = ground arith
bit-weights b (suc (suc (suc (suc (suc (suc zero)))))) h = ground arith
bit-weights b (suc (suc (suc (suc (suc (suc (suc zero))))))) h = ground arith
bit-weights b (suc (suc (suc (suc (suc (suc (suc (suc c)))))))) h = absurd (omega (arith, h))

byte_place : (idx h w row k : ℕ) → idx * (w * h) + row * w + k ≡ (idx * h + row) * w + k
byte_place idx h w row k = grind arith

lit-in_bitmap :
    (font : FontStyle) (idx row col : ℕ) → lit font idx row col ≡ in_bitmap font idx row col
unfolding lit
lit-in_bitmap font idx row col =
    bit-weights _ (col % 8) (omega arith)
    ∙ ap (λ a. font.glyph_bitmaps a / get_or weights (col % 8) 1 % 2 == 1)
        (byte_place idx font.glyph_height font.glyph_bytes_width row (col / 8))

&&_regroup : (a b c d : Bool) → ((a && (b && c)) && d) ≡ ((a && b) && (c && d))
&&_regroup a b c d = ground arith

-- A character of the font, drawn in a well-formed buffer at `x` and `y` (and so near the origin that
-- no coordinate passes 2^32), sets the pixels on the screen that its bitmap has, the highest bit of a
-- byte at the left, and leaves every other word of the buffer as it was. Any other byte draws nothing.
pub font_draw_char_lem :
    (font : FontStyle) (code x y color q r : ℕ) (g : Gfx)
    → WellFormed g
    → r < stride g
    → x + font.glyph_bytes_width * 8 ≤ 2 ^ 32
    → y + font.glyph_height ≤ 2 ^ 32
    → let idx = code - font.first_ascii_code in
      let has = within font.first_ascii_code font.glyph_count code in
      let cell = within y font.glyph_height q && within x (font.glyph_bytes_width * 8) r in
      draw_buffer (font_draw_char font code (pos x) (pos y) color g).1 (q * stride g + r) ≡ (
        if has && (cell && (in_bitmap font idx (q - y) (r - x) && on_screen g q r))
        then color
        else draw_buffer g (q * stride g + r))
unfolding font_draw_char
font_draw_char_lem font code x y color q r g wf h wide high =
    elim (Bool-cases
      (ltb code font.first_ascii_code || leb (font.first_ascii_code + font.glyph_count) code)) [
        | inl out ↦ rw out (ground (arith, out))
        | inr on ↦
            let drawn =
              draw_glyph_lem font (code - font.first_ascii_code) x y color q r 0 font.glyph_height g
                wf h wide (omega (arith, high)) in
            let known : within font.first_ascii_code font.glyph_count code ≡ true =
              ground (arith, on) in
            let same : y + 0 ≡ y = omega arith in
            rw
              (
                on,
                ← lit-in_bitmap font (code - font.first_ascii_code) (q - y) (r - x),
                drawn,
                known,
                same,
              )
              (ap (λ b. if b then color else draw_buffer g (q * stride g + r))
                (&&_regroup (within y font.glyph_height q) (within x (font.glyph_bytes_width * 8) r)
                  (lit font (code - font.first_ascii_code) (q - y) (r - x)) (on_screen g q r)))
      ]
