-- ===== src/Graphics/Shape.antt =====
-- What `gfx_fill_rect` and `gfx_clear_screen` of drivers/graphics.c leave of the shape of the buffer.
use horizon_os.Prelude.{
  ℕ, zero, suc, ◌+◌, ◌-◌, ◌*◌, ◌/◌, ◌%◌, ◌^◌, ◌≡◌, refl, ◌∙◌, inl, inr, ◌||◌, ltb, if◌then◌else◌,
  Bool-cases,
}
use horizon_os.Prelude.Int.{ℤ, pos, pos_part, ltb_ℤ, to_int}
use horizon_os.Graphics.{
  Gfx, Framebuffer, Target, framebuffer, backbuffer, draw_buffer, stride, fill_row, fill_rows,
  clip_low, clip_high, gfx_fill_rect, gfx_clear_screen,
}
use horizon_os.Graphics.Fill.{fill_row-fb}

fill_rows-fb : (y m x n val : ℕ) (g : Gfx) → (fill_rows y m x n val g).fb ≡ g.fb
unfolding fill_rows
fill_rows-fb y zero x n val g = refl
fill_rows-fb y (suc m) x n val g =
    fill_rows-fb (y + 1) m x n val (fill_row (y * stride g % 2 ^ 32) x n val g)
    ∙ fill_row-fb (y * stride g % 2 ^ 32) x n val g

-- A rectangle leaves the shape of the buffer alone.
pub gfx_fill_rect-fb :
    (x0 y0 x1 y1 : ℤ) (val : ℕ) (g : Gfx) → (gfx_fill_rect x0 y0 x1 y1 val g).fb ≡ g.fb
unfolding gfx_fill_rect
gfx_fill_rect-fb x0 y0 x1 y1 val g =
    let left = clip_low x0 in
    let top = clip_low y0 in
    let right = clip_high x1 (to_int g.fb.width) in
    let bottom = clip_high y1 (to_int g.fb.height) in
    elim (Bool-cases (ltb_ℤ right (pos left) || ltb_ℤ bottom (pos top))) [
      | inl e ↦ rw e refl
      | inr e ↦
          rw e (fill_rows-fb top (pos_part bottom + 1 - top) left (pos_part right + 1 - left) val g)
    ]

cleared_at :
    (fb : Framebuffer) (front back : ℕ → ℕ) (screen_size : ℕ) (t : Target) (i : ℕ)
    → let g : Gfx = record {
      fb = fb;
      front = front;
      back = back;
      screen_size = screen_size;
      target = t;
    } in
      ((gfx_clear_screen g).fb ≡ fb)
      × (draw_buffer (gfx_clear_screen g) i
          ≡ (if ltb i (screen_size / 4) then 0 else draw_buffer g i))
unfolding gfx_clear_screen draw_buffer
cleared_at fb front back screen_size framebuffer i = (refl, refl)
cleared_at fb front back screen_size backbuffer i = (refl, refl)

-- Clearing sets the words of the screen to 0.
pub gfx_clear_screen_lem :
    (g : Gfx) (i : ℕ)
    → ((gfx_clear_screen g).fb ≡ g.fb)
      × (draw_buffer (gfx_clear_screen g) i
          ≡ (if ltb i (g.screen_size / 4) then 0 else draw_buffer g i))
gfx_clear_screen_lem g i = cleared_at g.fb g.front g.back g.screen_size g.target i
