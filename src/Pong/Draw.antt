-- ===== src/Pong/Draw.antt =====
-- The drawing of kernel/games/pong.c: the rectangles that it fills, in order.
use horizon_os.Prelude.{
  ℕ, ◌+◌, ◌*◌, ◌%◌, ◌≤◌, ◌≡◌, Bool, true, List, [], ◌∷◌, ◌++◌, get_or, length, arith, ◌==◌,
  if◌then◌else◌, Bool-cases, inl, inr, ◌<◌, ◌&&◌, leb, refl, every_below, at-every_below,
}
use horizon_os.Prelude.Int.{ℤ, pos, ◌+ℤ◌, ◌≤ℤ◌}
use horizon_os.Pong.Display.{display}

-- A call of `gfx_fill_rect`, in white.
pub record Rect : Type 0 where
  pub left : ℤ
  pub top : ℤ
  pub right : ℤ
  pub bottom : ℤ

abbrev pub font_scale : ℕ
font_scale = 4

unfoldable pub cell_rect : ℤ → ℤ → ℕ → ℕ → Rect
cell_rect x y row col = record {
  left = x +ℤ pos (col * font_scale);
  top = y +ℤ pos (row * font_scale);
  right = x +ℤ pos ((col + 1) * font_scale);
  bottom = y +ℤ pos ((row + 1) * font_scale);
}

-- The inner loop of `draw_score`, from column `col` on, and the outer one, from `row` on.
unfoldable pub draw_row : ℤ → ℤ → ℕ → ℕ → List ℕ → List Rect
draw_row x y row col [] = []
draw_row x y row col (c ∷ cs) =
    let rest = draw_row x y row (col + 1) cs in
    if c == 0 then rest else cell_rect x y row col ∷ rest

unfoldable pub draw_rows : ℤ → ℤ → ℕ → List (List ℕ) → List Rect
draw_rows x y row [] = []
draw_rows x y row (r ∷ rs) = draw_row x y row 0 r ++ draw_rows x y (row + 1) rs

unfoldable pub draw_score : ℕ → ℤ → ℤ → List Rect
draw_score score x y = draw_rows x y 0 (get_or display (score % 10) [])

abbrev pub Inside : ℤ → ℤ → Rect → Type 0
Inside x y r = (x ≤ℤ r.left) × (r.right ≤ℤ x +ℤ pos 20) × (y ≤ℤ r.top) × (r.bottom ≤ℤ y +ℤ pos 28)

abbrev pub AllInside : ℤ → ℤ → List Rect → Type 0
AllInside x y [] = Unit {0}
AllInside x y (r ∷ rs) = Inside x y r × AllInside x y rs

right_of : (x : ℤ) (a : ℕ) → x ≤ℤ x +ℤ pos a
unfolding ◌+ℤ◌
right_of x a = ground arith

left_of : (x : ℤ) (a b : ℕ) → a ≤ b → x +ℤ pos a ≤ℤ x +ℤ pos b
unfolding ◌+ℤ◌
left_of x a b h = ground arith

cell_rect-Inside : (x y : ℤ) (row col : ℕ) → row < 7 → col < 5 → Inside x y (cell_rect x y row col)
unfolding cell_rect
cell_rect-Inside x y row col h k = (
  right_of x (col * 4),
  left_of x ((col + 1) * 4) 20 (omega arith),
  right_of y (row * 4),
  left_of y ((row + 1) * 4) 28 (omega arith),
)

AllInside-append :
    (x y : ℤ) (rs ss : List Rect) → AllInside x y rs → AllInside x y ss → AllInside x y (rs ++ ss)
AllInside-append x y [] ss h k = k
AllInside-append x y (r ∷ rs) ss h k = (h.0, AllInside-append x y rs ss h.1 k)

draw_row-AllInside :
    (x y : ℤ) (row col : ℕ) (cs : List ℕ)
    → row < 7
    → col + length cs ≤ 5
    → AllInside x y (draw_row x y row col cs)
unfolding draw_row
draw_row-AllInside x y row col [] h k = tt
draw_row-AllInside x y row col (c ∷ cs) h k =
    let rest = draw_row-AllInside x y row (col + 1) cs h (omega arith) in
    elim (Bool-cases (c == 0)) [
      | inl off ↦ rw off rest
      | inr on ↦ rw on (cell_rect-Inside x y row col h (omega arith), rest)
    ]

-- No row has more than five columns.
unfoldable pub narrow : List (List ℕ) → Bool
narrow [] = true
narrow (r ∷ rs) = leb (length r) 5 && narrow rs

draw_rows-AllInside :
    (x y : ℤ) (row : ℕ) (rs : List (List ℕ))
    → row + length rs ≤ 7
    → narrow rs ≡ true
    → AllInside x y (draw_rows x y row rs)
unfolding draw_rows narrow
draw_rows-AllInside x y row [] h k = tt
draw_rows-AllInside x y row (r ∷ rs) h k =
    AllInside-append x y (draw_row x y row 0 r) (draw_rows x y (row + 1) rs)
      (draw_row-AllInside x y row 0 r (omega arith) (ground (arith, k)))
      (draw_rows-AllInside x y (row + 1) rs (omega arith) (ground (arith, k)))

font_table :
    every_below 10 (λ d. leb (length (get_or display d [])) 7 && narrow (get_or display d []))
    ≡ true
unfolding every_below narrow
font_table = refl

-- Every rectangle of a score lies in the box of 20 by 28 pixels at the place given for it, whatever
-- the score.
draw_score-AllInside : (score : ℕ) (x y : ℤ) → AllInside x y (draw_score score x y)
unfolding draw_score
draw_score-AllInside score x y =
    let shape = at-every_below 10 _ (score % 10) font_table (omega arith) in
    draw_rows-AllInside x y 0 (get_or display (score % 10) []) (ground (arith, shape))
      (ground (arith, shape))
