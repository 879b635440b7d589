-- ===== src/Graphics/Fill.antt =====
-- Which words of the buffer `gfx_fill_rect` writes.
use horizon_os.Prelude.{
  ℕ, zero, suc, ◌+◌, ◌-◌, ◌*◌, ◌/◌, ◌%◌, ◌^◌, ◌≤◌, ◌<◌, ◌≡◌, refl, ap, ◌∙◌, ◌⊎◌, inl, inr, Bool,
  true, false, not, ◌&&◌, arith, ltb, leb, ◌==◌, if◌then◌else◌, Bool-cases,
}
use native.Mathlib.Nat.{mul-le-mul_right}
use horizon_os.Prelude.Int.{ℤ, pos, pos_part, ltb_ℤ, ◌-ℤ◌, to_int}
use horizon_os.Graphics.{
  Gfx, draw_buffer, draw, stride, fill_row, fill_rows, clip_low, clip_high, gfx_fill_rect,
}

-- `start ≤ i < start + n`
abbrev pub within : ℕ → ℕ → ℕ → Bool
within start n i = leb start i && ltb i (start + n)

-- The buffers differ in what `draw_buffer` gives alone.
pub draw_buffer-draw :
    (at val i : ℕ) (g : Gfx)
    → draw_buffer (draw at val g) i ≡ (if i == at then val else draw_buffer g i)
unfolding draw_buffer draw
draw_buffer-draw at val i g = ground arith

pub draw-fb : (at val : ℕ) (g : Gfx) → (draw at val g).fb ≡ g.fb
unfolding draw
draw-fb at val g = ground arith

draw_buffer-fill_row :
    (row x n val i : ℕ) (g : Gfx)
    → draw_buffer (fill_row row x n val g) i
      ≡ (if within (row + x) n i then val else draw_buffer g i)
unfolding fill_row
draw_buffer-fill_row row x zero val i g = ground arith
draw_buffer-fill_row row x (suc n) val i g = ground (
  arith,
  draw_buffer-fill_row row (x + 1) n val i (draw (row + x) val g),
  draw_buffer-draw (row + x) val i g,
)

pub fill_row-fb : (row x n val : ℕ) (g : Gfx) → (fill_row row x n val g).fb ≡ g.fb
unfolding fill_row
fill_row-fb row x zero val g = refl
fill_row-fb row x (suc n) val g =
    fill_row-fb row (x + 1) n val (draw (row + x) val g) ∙ draw-fb (row + x) val g

-- A word of one row is not in another row.
pub row_before : (s q y r : ℕ) → q < y → r < s → q * s + r < y * s
row_before s q y r h k =
    let more : (q + 1) * s ≤ y * s = mul-le-mul_right s (omega arith) in omega (arith, more)

-- The range of `n` words from column `x` on of row `y`, at the word in row `q` and column `r`.
pub within_row :
    (s q r y x n : ℕ)
    → r < s
    → x + n ≤ s
    → within (y * s + x) n (q * s + r) ≡ ((q == y) && within x n r)
within_row s q r y x n h fits = elim (lt_trichotomy q y) [
  | inl before ↦ let b = row_before s q y r before h in ground (arith, b)
  | inr (inl same) ↦ rw same (ground arith)
  | inr (inr past) ↦
      let more : (y + 1) * s ≤ q * s = mul-le-mul_right s (omega arith) in ground (arith, more)
]
  where
    lt_trichotomy : (a b : ℕ) → (a < b) ⊎ ((a ≡ b) ⊎ (b < a))
    lt_trichotomy a b = omega arith

one_more_row :
    (y m q : ℕ) (b : Bool) (val w : ℕ)
    → (if within (y + 1) m q && b then val else (if (q == y) && b then val else w))
      ≡ (if within y (suc m) q && b then val else w)
one_more_row y m q b val w = ground arith

-- The columns and rows of the loops, in a buffer of rows of `s` words.
pub draw_buffer-fill_rows :
    (s y m x n val q r : ℕ) (g : Gfx)
    → stride g ≡ s
    → r < s
    → x + n ≤ s
    → (y + m) * s ≤ 2 ^ 32
    → draw_buffer (fill_rows y m x n val g) (q * s + r)
      ≡ (if within y m q && within x n r then val else draw_buffer g (q * s + r))
unfolding fill_rows
draw_buffer-fill_rows s y zero x n val q r g e h fits room = ground arith
draw_buffer-fill_rows s y (suc m) x n val q r g e h fits room =
    let row = y * stride g % 2 ^ 32 in
    let g' = fill_row row x n val g in
    let e' : stride g' ≡ s = ap (λ fb. fb.pitch / 4) (fill_row-fb row x n val g) ∙ e in
    let more : (y + 1) * s ≤ (y + suc m) * s = mul-le-mul_right s (omega arith) in
    let low : row ≡ y * s = ap (λ k. y * k % 2 ^ 32) e ∙ omega (arith, more, room, h) in
    let rest = draw_buffer-fill_rows s (y + 1) m x n val q r g' e' h fits (omega (arith, room)) in
    let first = draw_buffer-fill_row row x n val (q * s + r) g in
    let place : within (row + x) n (q * s + r) ≡ ((q == y) && within x n r) =
      ap (λ k. within (k + x) n (q * s + r)) low ∙ within_row s q r y x n h fits in
    rest
    ∙ ap (λ w. if within (y + 1) m q && within x n r then val else w)
        (first ∙ ap (λ b. if b then val else draw_buffer g (q * s + r)) place)
    ∙ one_more_row y m q (within x n r) val (draw_buffer g (q * s + r))

-- `a ≤ x ≤ b`
abbrev pub between : ℤ → ℤ → ℕ → Bool
between a b x = not (ltb_ℤ (pos x) a) && not (ltb_ℤ b (pos x))

clip_empty :
    (a b : ℤ) (w x : ℕ)
    → w < 2 ^ 31
    → ltb_ℤ (clip_high b (to_int w)) (pos (clip_low a)) ≡ true
    → (between a b x && ltb x w) ≡ false
unfolding clip_high clip_low to_int ◌-ℤ◌
clip_empty a b w x h e = ground arith

clip_range :
    (a b : ℤ) (w x : ℕ)
    → w < 2 ^ 31
    → ltb_ℤ (clip_high b (to_int w)) (pos (clip_low a)) ≡ false
    → within (clip_low a) (pos_part (clip_high b (to_int w)) + 1 - clip_low a) x
      ≡ (between a b x && ltb x w)
unfolding clip_high clip_low to_int ◌-ℤ◌
clip_range a b w x h e = ground arith

clip_end :
    (a b : ℤ) (w : ℕ)
    → w < 2 ^ 31
    → ltb_ℤ (clip_high b (to_int w)) (pos (clip_low a)) ≡ false
    → clip_low a + (pos_part (clip_high b (to_int w)) + 1 - clip_low a) ≤ w
unfolding clip_high clip_low to_int ◌-ℤ◌
clip_end a b w h e = ground arith

-- A buffer whose rows hold the width, below 2^31 pixels either way and 2^32 words in all.
pub record WellFormed (g : Gfx) : Type 0 where
  pub row : g.fb.width ≤ stride g
  pub wide : g.fb.width < 2 ^ 31
  pub high : g.fb.height < 2 ^ 31
  pub size : g.fb.height * stride g ≤ 2 ^ 32

-- In a well-formed buffer `gfx_fill_rect` sets the pixels of the screen that lie in the rectangle,
-- whose corners may lie anywhere, and leaves every other word of the buffer as it was, those between
-- the width and the end of a row included.
pub gfx_fill_rect_lem :
    (x0 y0 x1 y1 : ℤ) (val x y : ℕ) (g : Gfx)
    → WellFormed g
    → x < stride g
    → draw_buffer (gfx_fill_rect x0 y0 x1 y1 val g) (y * stride g + x) ≡ (
        if (between y0 y1 y && ltb y g.fb.height) && (between x0 x1 x && ltb x g.fb.width)
        then val
        else draw_buffer g (y * stride g + x))
unfolding gfx_fill_rect
gfx_fill_rect_lem x0 y0 x1 y1 val x y g wf h =
    let left = clip_low x0 in
    let top = clip_low y0 in
    let right = clip_high x1 (to_int g.fb.width) in
    let bottom = clip_high y1 (to_int g.fb.height) in
    elim (Bool-cases (ltb_ℤ right (pos left))) [
      | inl e ↦ rw (e, clip_empty x0 x1 g.fb.width x wf.wide e) (ground arith)
      | inr e ↦ elim (Bool-cases (ltb_ℤ bottom (pos top))) [
        | inl f ↦ rw (e, f, clip_empty y0 y1 g.fb.height y wf.high f) refl
        | inr f ↦
            let m = pos_part bottom + 1 - top in
            let n = pos_part right + 1 - left in
            let rows : (top + m) * stride g ≤ g.fb.height * stride g =
              mul-le-mul_right (stride g) (clip_end y0 y1 g.fb.height wf.high f) in
            let fits : left + n ≤ stride g =
              omega (arith, clip_end x0 x1 g.fb.width wf.wide e, wf.row) in
            let drawn =
              draw_buffer-fill_rows (stride g) top m left n val y x g refl h fits
                (omega (arith, rows, wf.size)) in
            rw
              (
                e,
                f,
                ← clip_range x0 x1 g.fb.width x wf.wide e,
                ← clip_range y0 y1 g.fb.height y wf.high f,
              )
              drawn
      ]
    ]
