-- ===== src/Pong/Picture.antt =====
-- What `pong_draw` of kernel/games/pong.c shows: the pixels of the net, and of the frame.
use horizon_os.Prelude.{
  ℕ, zero, suc, ◌+◌, ◌-◌, ◌*◌, ◌/◌, ◌%◌, ◌<◌, ◌≤◌, ◌≡◌, ◌⊎◌, ◌∙◌, refl, ap, ap₂, get_or, ◌==◌, not,
  false, Bool, ◌&&◌, ◌||◌, some, List, [], ◌∷◌, ◌++◌, arith, ltb, leb, if◌then◌else◌, Bool-cases,
  Option-cases, inl, inr,
}
use horizon_os.Prelude.Int.{ℤ, pos, ◌+ℤ◌, ◌-ℤ◌, ltb_ℤ}
use horizon_os.Graphics.{Gfx, draw_buffer, stride, gfx_clear_screen}
use horizon_os.Graphics.Fill.{between, WellFormed}
use horizon_os.Graphics.Shape.{gfx_clear_screen_lem}
use horizon_os.Pong.State.{Obj, Game, quot}
use horizon_os.Pong.Draw.{Rect, cell_rect, draw_row, draw_rows, draw_score}
use horizon_os.Pong.Display.{display}
use horizon_os.Pong.Screen.{
  white, net_width, net_rect, net_loop, game_rects, fill_all, pong_draw, covers, WellFormed-fb,
  fill_all_lem, net_height_lem, net_loop-some, obj_rect, thrice,
}
use native.Mathlib.Nat.{mod-eq-sub-mod, mod-eq_of_lt}

-- Whether the net, of dashes of n rows and gaps as long, shows in row y from row i on.
abbrev in_dash : ℕ → ℕ → ℕ → Bool
in_dash n i y = leb i y && leb ((y - i) % (2 * n)) n

-- The columns of the net.
abbrev pub in_net : Game → ℕ → Bool
in_net g x =
    between (quot g.screen_width 2 -ℤ pos (net_width / 2))
      (quot g.screen_width 2 +ℤ pos (net_width / 2)) x

mod_first : (n i y : ℕ) → 0 < n → y < i + 2 * n → (y - i) % (2 * n) ≡ y - i
mod_first n i y pos_n h = mod-eq_of_lt (omega (arith, pos_n, h))

mod_next : (n i y : ℕ) → i + 2 * n ≤ y → (y - i) % (2 * n) ≡ (y - (i + 2 * n)) % (2 * n)
mod_next n i y h = mod-eq-sub-mod (omega (arith, h)) ∙ ap (λ z. z % (2 * n)) (omega (arith, h))

in_dash_next :
    (n i y : ℕ) → 0 < n → in_dash n i y ≡ (leb i y && leb y (i + n)) || in_dash n (i + 2 * n) y
in_dash_next n i y h = elim (Bool-cases (ltb y (i + 2 * n))) [
  | inl near ↦ rw (mod_first n i y h (ground arith)) (ground arith)
  | inr far ↦ rw (mod_next n i y (ground arith)) (ground arith)
]

between_row : (i n y : ℕ) → between (pos i) (pos i +ℤ pos n) y ≡ leb i y && leb y (i + n)
unfolding ◌+ℤ◌
between_row i n y = ground arith

covers-append :
    (rs ss : List Rect) (x y : ℕ) → covers (rs ++ ss) x y ≡ covers rs x y || covers ss x y
covers-append [] ss x y = refl
covers-append (r ∷ rs) ss x y =
    ap (λ b. (between r.left r.right x && between r.top r.bottom y) || b) (covers-append rs ss x y)
    ∙ ground arith

quot_height : (g : Game) (k : ℕ) → g.screen_height ≡ pos k → quot g.screen_height 20 ≡ pos (k / 20)
unfolding quot
quot_height g k e = ap (λ z. quot z 20) e

-- A round of the loop over the net that has not run out of fuel.
net_loop-cases :
    (fuel : ℕ) (g : Game) (k i : ℕ) (net : List Rect)
    → g.screen_height ≡ pos k
    → net_loop (suc fuel) g i ≡ some net
    → ((k ≤ i) × (net ≡ []))
      ⊎ ((rest : List Rect) × (net ≡ net_rect g i ∷ rest)
          × (net_loop fuel g (i + 2 * (k / 20)) ≡ some rest))
unfolding net_loop
net_loop-cases fuel g k i net e done =
    let high : ltb_ℤ (pos i) g.screen_height ≡ ltb_ℤ (pos i) (pos k) =
      ap (λ z. ltb_ℤ (pos i) z) e in
    let step = ap (λ n. net_loop fuel g (i + 2 * n)) (net_height_lem g k e) in
    elim (Bool-cases (ltb_ℤ (pos i) (pos k))) [
      | inl more ↦ elim (Option-cases (net_loop fuel g (i + 2 * (k / 20)))) [
        | inl out ↦ ground arith
        | inr (rest, more_net) ↦ inr (rest, ground arith, more_net)
      ]
      | inr over ↦ inl (ground arith, ground arith)
    ]

net_rect-covers :
    (g : Game) (k i x y : ℕ) (rest : List Rect)
    → g.screen_height ≡ pos k
    → covers (net_rect g i ∷ rest) x y
      ≡ (in_net g x && (leb i y && leb y (i + k / 20))) || covers rest x y
unfolding net_rect
net_rect-covers g k i x y rest e =
    ap (λ b. (in_net g x && b) || covers rest x y)
      (ap (λ z. between (pos i) (pos i +ℤ z) y) (quot_height g k e) ∙ between_row i (k / 20) y)

-- The net covers a pixel of its columns, above the bottom of the screen, in the rows of a dash.
net_loop-covers :
    (fuel : ℕ) (g : Game) (k i x y : ℕ) (net : List Rect)
    → g.screen_height ≡ pos k
    → 20 ≤ k
    → y < k
    → net_loop fuel g i ≡ some net
    → covers net x y ≡ (in_net g x && in_dash (k / 20) i y)
unfolding net_loop
net_loop-covers zero g k i x y net e h hy done = ground (arith, done)
net_loop-covers (suc fuel) g k i x y net e h hy done = elim (net_loop-cases fuel g k i net e done) [
  | inl (over, empty) ↦ rw empty (ground arith)
  | inr (rest, first, more) ↦
      let later = net_loop-covers fuel g k (i + 2 * (k / 20)) x y rest e h hy more in
      ap (λ l. covers l x y) first
      ∙ net_rect-covers g k i x y rest e
      ∙ rw (later, in_dash_next (k / 20) i y (omega (arith, h))) (ground arith)
]

from_top : (b : Bool) (n y : ℕ) → (b && in_dash n 0 y) ≡ (b && leb (y % (2 * n)) n)
from_top b n y = ground arith

-- Whether a paddle or the ball holds a pixel.
abbrev pub in_obj : Obj → ℕ → ℕ → Bool
in_obj o x y = between o.x (o.x +ℤ o.width) x && between o.y (o.y +ℤ o.height) y

-- Whether one of the cells of a digit holds a pixel, from cell `i` on. There are seven rows of five
-- cells, each of 4 by 4 pixels, from a corner on, and the table `display` has those of each digit.
unfoldable pub in_cells : ℕ → ℕ → List (List ℕ) → ℤ → ℤ → ℕ → ℕ → Bool
in_cells zero i digit left top x y = false
in_cells (suc more) i digit left top x y =
    (not (get_or (get_or digit (i / 5) []) (i % 5) 0 == 0)
      && (between (left +ℤ pos (i % 5 * 4)) (left +ℤ pos ((i % 5 + 1) * 4)) x
          && between (top +ℤ pos (i / 5 * 4)) (top +ℤ pos ((i / 5 + 1) * 4)) y))
    || in_cells more (i + 1) digit left top x y

-- Whether the last digit of a score, from a corner on, holds a pixel.
abbrev pub in_score : ℕ → ℤ → ℤ → ℕ → ℕ → Bool
in_score score left top x y = in_cells 35 0 (get_or display (score % 10) []) left top x y

digit-covers :
    (d : ℕ) (left top : ℤ) (x y : ℕ)
    → d < 10
    → covers (draw_rows left top 0 (get_or display d [])) x y
      ≡ in_cells 35 0 (get_or display d []) left top x y
unfolding draw_rows draw_row cell_rect in_cells
digit-covers zero left top x y h = refl
digit-covers (suc zero) left top x y h = refl
digit-covers (suc (suc zero)) left top x y h = refl
digit-covers (suc (suc (suc zero))) left top x y h = refl
digit-covers (suc (suc (suc (suc zero)))) left top x y h = refl
digit-covers (suc (suc (suc (suc (suc zero))))) left top x y h = refl
digit-covers (suc (suc (suc (suc (suc (suc zero)))))) left top x y h = refl
digit-covers (suc (suc (suc (suc (suc (suc (suc zero))))))) left top x y h = refl
digit-covers (suc (suc (suc (suc (suc (suc (suc (suc zero)))))))) left top x y h = refl
digit-covers (suc (suc (suc (suc (suc (suc (suc (suc (suc zero))))))))) left top x y h = refl
digit-covers (suc (suc (suc (suc (suc (suc (suc (suc (suc (suc d)))))))))) left top x y h =
    absurd (omega (arith, h))

draw_score-covers :
    (score : ℕ) (left top : ℤ) (x y : ℕ)
    → covers (draw_score score left top) x y ≡ in_score score left top x y
unfolding draw_score
draw_score-covers score left top x y = digit-covers (score % 10) left top x y (omega arith)

-- Whether a paddle, the ball or a score holds a pixel. The scores begin 20 rows from the top, 10
-- columns left of a quarter and of three quarters of the width.
abbrev pub in_game : Game → ℕ → ℕ → Bool
in_game g x y =
    in_obj g.player1 x y
    || (in_obj g.player2 x y
        || (in_obj g.ball x y
            || (in_score g.score_player1 (quot g.screen_width 4 -ℤ pos 10) (pos 20) x y
                || in_score g.score_player2
                    (quot (g.screen_width +ℤ (g.screen_width +ℤ g.screen_width)) 4 -ℤ pos 10)
                    (pos 20) x y)))

game_rects-in_game : (g : Game) (x y : ℕ) → covers (game_rects g) x y ≡ in_game g x y
unfolding game_rects obj_rect
game_rects-in_game g x y =
    let left = quot g.screen_width 4 -ℤ pos 10 in
    let right = quot (thrice g.screen_width) 4 -ℤ pos 10 in
    ap (λ b. in_obj g.player1 x y || (in_obj g.player2 x y || (in_obj g.ball x y || b)))
      (covers-append (draw_score g.score_player1 left (pos 20))
          (draw_score g.score_player2 right (pos 20)) x y
        ∙ ap₂ ◌||◌ (draw_score-covers g.score_player1 left (pos 20) x y)
            (draw_score-covers g.score_player2 right (pos 20) x y))

-- The frame. In a well-formed buffer of the game's height, which is at least 20 rows, with fuel above
-- the height: `pong_draw` ends, and a pixel is white exactly where a paddle, the ball or a score
-- covers it, or in the columns of the net in the rows 0 to n of every 2n, n being a twentieth of the
-- height; every other pixel is 0, if its word belongs to the screen's bytes, and else as it was.
pub pong_draw_lem :
    (fuel : ℕ) (g : Game) (gfx : Gfx) (x y : ℕ)
    → WellFormed gfx
    → g.screen_height ≡ pos gfx.fb.height
    → 20 ≤ gfx.fb.height
    → gfx.fb.height < fuel
    → x < gfx.fb.width
    → y < gfx.fb.height
    → let n = gfx.fb.height / 20 in
      let word = y * stride gfx + x in
      (gfx' : Gfx) × (pong_draw fuel g gfx ≡ some gfx')
      × (draw_buffer gfx' word ≡ (
          if in_game g x y || (in_net g x && leb (y % (2 * n)) n)
          then white
          else if ltb word (gfx.screen_size / 4)
          then 0
          else draw_buffer gfx word))
unfolding pong_draw
pong_draw_lem fuel g gfx x y wf e h enough hx hy =
    let k = gfx.fb.height in
    let word = y * stride gfx + x in
    let (net, done) =
      net_loop-some fuel g k 0 e h (omega (arith, enough)) (omega (arith, enough)) in
    let cleared = gfx_clear_screen gfx in
    let (kept, dark) = gfx_clear_screen_lem gfx word in
    let rects = game_rects g ++ net in
    let covered =
      covers-append (game_rects g) net x y
      ∙ ap₂ ◌||◌ (game_rects-in_game g x y)
          (net_loop-covers fuel g k 0 x y net e h hy done ∙ from_top (in_net g x) (k / 20) y) in
    (
      fill_all rects cleared,
      rw (done, pong_draw) refl,
      fill_all_lem rects gfx.fb x y cleared kept (WellFormed-fb gfx cleared kept wf) hx hy
          ∙ ap (λ w. if covers rects x y then white else w) dark
          ∙ ap
              (λ b.
                if b
                then white
                else if ltb word (gfx.screen_size / 4)
                then 0
                else draw_buffer gfx word)
              covered,
    )
