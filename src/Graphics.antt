-- ===== src/Graphics.antt =====
-- drivers/graphics.c: the frame buffer and the buffer behind it. A buffer gives the word at each
-- index; the addresses of the two are left out.
pub mod Fill
pub mod Shape
pub mod Font
pub mod Glyphs
use horizon_os.Prelude.{
  ℕ, zero, suc, ◌+◌, ◌-◌, ◌*◌, ◌/◌, ◌%◌, ◌^◌, ◌||◌, ltb, leb, ◌==◌, if◌then◌else◌,
}
use horizon_os.Prelude.Int.{ℤ, pos, ◌-ℤ◌, pos_part, ltb_ℤ, to_int}

-- `gfx_framebuffer_t`, in bytes and pixels.
pub record Framebuffer : Type 0 where
  pub pitch : ℕ
  pub width : ℕ
  pub height : ℕ

pub data Target : Type 0 where
  backbuffer framebuffer : Target

-- The static data of the file: `front` is what `fb.address` points to, `back` what `backbuffer` does.
pub record Gfx : Type 0 where
  pub fb : Framebuffer
  pub front : ℕ → ℕ
  pub back : ℕ → ℕ
  pub screen_size : ℕ
  pub target : Target

-- The back buffer is allocated, at an address that is left out, and cleared; its end is that of
-- `memset`, in bytes.
unfoldable pub gfx_init : Framebuffer → (ℕ → ℕ) → Gfx → Gfx
gfx_init fb words g =
    let size = fb.pitch * fb.height % 2 ^ 32 in
    record g {
      fb = fb;
      front = words;
      back = λ i. if ltb i (size / 4) then 0 else g.back i;
      screen_size = size;
    }

unfoldable pub gfx_set_target : Target → Gfx → Gfx
gfx_set_target t g = record g { target = t }

-- The words of `draw_buffer()`.
unfoldable pub draw_buffer : Gfx → ℕ → ℕ
draw_buffer g = elim g.target [ framebuffer ↦ g.front | backbuffer ↦ g.back ]

abbrev pub stored : (ℕ → ℕ) → ℕ → ℕ → ℕ → ℕ
stored words at val i = if i == at then val else words i

-- `draw_buffer()[at] = val`
unfoldable pub draw : ℕ → ℕ → Gfx → Gfx
draw at val g = elim g.target [
  | framebuffer ↦ record g { front = stored g.front at val }
  | backbuffer ↦ record g { back = stored g.back at val }
]

-- `fb.pitch / 4`
abbrev pub stride : Gfx → ℕ
stride g = g.fb.pitch / 4

unfoldable pub rgb : ℕ → ℕ → ℕ → ℕ
rgb r g b = r * 2 ^ 16 + g * 2 ^ 8 + b

unfoldable pub gfx_put_pixel : ℕ → ℕ → ℕ → Gfx → Gfx
gfx_put_pixel x y val g =
    if leb g.fb.width x || leb g.fb.height y then g else draw ((y * stride g + x) % 2 ^ 32) val g

-- The inner loop of `gfx_fill_rect`: `left` words of the row are still to be written, from `x` on.
unfoldable pub fill_row : ℕ → ℕ → ℕ → ℕ → Gfx → Gfx
fill_row row x zero val g = g
fill_row row x (suc left) val g = fill_row row (x + 1) left val (draw (row + x) val g)

-- The outer loop: `left` rows from `y` on, of `n` words each.
unfoldable pub fill_rows : ℕ → ℕ → ℕ → ℕ → ℕ → Gfx → Gfx
unfolding fill_row
fill_rows y zero x n val g = g
fill_rows y (suc left) x n val g =
    fill_rows (y + 1) left x n val (fill_row (y * stride g % 2 ^ 32) x n val g)

unfoldable pub clip_low : ℤ → ℕ
clip_low a = pos_part a

unfoldable pub clip_high : ℤ → ℤ → ℤ
clip_high a bound = if ltb_ℤ a bound then a else bound -ℤ pos 1

unfoldable pub gfx_fill_rect : ℤ → ℤ → ℤ → ℤ → ℕ → Gfx → Gfx
unfolding clip_low clip_high fill_rows
gfx_fill_rect x0 y0 x1 y1 val g =
    let left = clip_low x0 in
    let top = clip_low y0 in
    let right = clip_high x1 (to_int g.fb.width) in
    let bottom = clip_high y1 (to_int g.fb.height) in
    if ltb_ℤ right (pos left) || ltb_ℤ bottom (pos top)
    then g
    else fill_rows top (pos_part bottom + 1 - top) left (pos_part right + 1 - left) val g

-- `rep stosl` from the start of the buffer.
unfoldable pub gfx_clear_screen : Gfx → Gfx
gfx_clear_screen g =
    let cleared : (ℕ → ℕ) → ℕ → ℕ = λ words i. if ltb i (g.screen_size / 4) then 0 else words i in
    elim g.target [
      | framebuffer ↦ record g { front = cleared g.front }
      | backbuffer ↦ record g { back = cleared g.back }
    ]

-- `fast_copy32`, with `rep movsl`.
unfoldable pub gfx_render : Gfx → Gfx
gfx_render g = elim g.target [
  | framebuffer ↦ g
  | backbuffer ↦ record g { front = λ i. if ltb i (g.screen_size / 4) then g.back i else g.front i }
]
