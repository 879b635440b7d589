-- ===== src/Pong/Screen.antt =====
-- `pong_draw` of kernel/games/pong.c: the frame, on the buffer of drivers/graphics.c. The loop over
-- the net has fuel; a screen of fewer than 20 rows makes its step 0.
use horizon_os.Prelude.{
  ℕ, zero, suc, ◌+◌, ◌*◌, ◌/◌, ◌^◌, ◌<◌, ◌≤◌, ◌≡◌, ◌∙◌, refl, ap, sym, subst, Bool, true, false,
  ◌&&◌, ◌||◌, Option, none, some, List, [], ◌∷◌, ◌++◌, arith, ltb, if◌then◌else◌, Bool-cases, inl,
  inr,
}
use horizon_os.Prelude.Int.{ℤ, pos, ◌+ℤ◌, ◌-ℤ◌, pos_part, ltb_ℤ}
use horizon_os.Graphics.{Gfx, Framebuffer, draw_buffer, rgb, gfx_fill_rect, gfx_clear_screen}
use horizon_os.Graphics.Fill.{between, WellFormed, gfx_fill_rect_lem}
use horizon_os.Graphics.Shape.{gfx_fill_rect-fb}
use horizon_os.Pong.State.{Obj, Game, quot}
use horizon_os.Pong.Draw.{Rect, draw_score}

abbrev pub white : ℕ
unfolding rgb
white = rgb 0xff 0xff 0xff

unfoldable pub obj_rect : Obj → Rect
obj_rect o = record { left = o.x; top = o.y; right = o.x +ℤ o.width; bottom = o.y +ℤ o.height }

-- `3 * a`, of an `int` that does not overflow.
abbrev pub thrice : ℤ → ℤ
thrice a = a +ℤ (a +ℤ a)

abbrev pub net_width : ℕ
net_width = 15

unfoldable pub net_rect : Game → ℕ → Rect
net_rect g i = record {
  left = quot g.screen_width 2 -ℤ pos (net_width / 2);
  top = pos i;
  right = quot g.screen_width 2 +ℤ pos (net_width / 2);
  bottom = pos i +ℤ quot g.screen_height 20;
}

-- The loop over the net; `none` means that the fuel ran out.
unfoldable pub net_loop : ℕ → Game → ℕ → Option (List Rect)
net_loop zero g i = none
net_loop (suc fuel) g i =
    let rest : Option (List Rect) =
      elim (net_loop fuel g (i + 2 * pos_part (quot g.screen_height 20))) [
        | none ↦ none
        | some rs ↦ some (net_rect g i ∷ rs)
      ] in
    if ltb_ℤ (pos i) g.screen_height then rest else some []

-- What is filled before the net, in order.
unfoldable pub game_rects : Game → List Rect
game_rects g =
    obj_rect g.player1
    ∷ obj_rect g.player2
    ∷ obj_rect g.ball
    ∷ (draw_score g.score_player1 (quot g.screen_width 4 -ℤ pos 10) (pos 20)
        ++ draw_score g.score_player2 (quot (thrice g.screen_width) 4 -ℤ pos 10) (pos 20))

unfoldable pub fill_all : List Rect → Gfx → Gfx
fill_all [] gfx = gfx
fill_all (r ∷ rs) gfx = fill_all rs (gfx_fill_rect r.left r.top r.right r.bottom white gfx)

unfoldable pub pong_draw : ℕ → Game → Gfx → Option Gfx
pong_draw fuel g gfx = elim (net_loop fuel g 0) [
  | none ↦ none
  | some net ↦ some (fill_all (game_rects g ++ net) (gfx_clear_screen gfx))
]

-- Whether a rectangle of the list holds a pixel.
abbrev pub covers : List Rect → ℕ → ℕ → Bool
covers [] x y = false
covers (r ∷ rs) x y = (between r.left r.right x && between r.top r.bottom y) || covers rs x y

pub WellFormed-fb : (g h : Gfx) → h.fb ≡ g.fb → WellFormed g → WellFormed h
WellFormed-fb g h e wf = record {
  row = subst (λ fb. fb.width ≤ fb.pitch / 4) (sym e) wf.row;
  wide = subst (λ fb. fb.width < 2 ^ 31) (sym e) wf.wide;
  high = subst (λ fb. fb.height < 2 ^ 31) (sym e) wf.high;
  size = subst (λ fb. fb.height * (fb.pitch / 4) ≤ 2 ^ 32) (sym e) wf.size;
}

one_of :
    (c a b p q : Bool) (w : ℕ)
    → p ≡ true
    → q ≡ true
    → (if c then white else (if (b && q) && (a && p) then white else w))
      ≡ (if (a && b) || c then white else w)
one_of c a b p q w hp hq = ground (arith, hp, hq)

-- The pixels of the screen that a rectangle of the list holds are white, and all else is as it was.
pub fill_all_lem :
    (rs : List Rect) (fb : Framebuffer) (x y : ℕ) (g : Gfx)
    → g.fb ≡ fb
    → WellFormed g
    → x < fb.width
    → y < fb.height
    → draw_buffer (fill_all rs g) (y * (fb.pitch / 4) + x)
      ≡ (if covers rs x y then white else draw_buffer g (y * (fb.pitch / 4) + x))
unfolding fill_all
fill_all_lem [] fb x y g e wf hx hy = refl
fill_all_lem (r ∷ rs) fb x y g e wf hx hy =
    let g' = gfx_fill_rect r.left r.top r.right r.bottom white g in
    let kept = gfx_fill_rect-fb r.left r.top r.right r.bottom white g in
    let rest = fill_all_lem rs fb x y g' (kept ∙ e) (WellFormed-fb g g' kept wf) hx hy in
    let one : draw_buffer g' (y * (fb.pitch / 4) + x) ≡ (
        if (between r.top r.bottom y && ltb y fb.height)
          && (between r.left r.right x && ltb x fb.width)
        then white
        else draw_buffer g (y * (fb.pitch / 4) + x)) =
      subst
        (λ b. draw_buffer g' (y * (b.pitch / 4) + x) ≡ (
          if (between r.top r.bottom y && ltb y b.height)
            && (between r.left r.right x && ltb x b.width)
          then white
          else draw_buffer g (y * (b.pitch / 4) + x)))
        e
        (gfx_fill_rect_lem r.left r.top r.right r.bottom white x y g wf
          (omega (arith, wf.row, hx, ap (λ b. b.width) e))) in
    rest
    ∙ ap (λ w. if covers rs x y then white else w) one
    ∙ one_of (covers rs x y) (between r.left r.right x) (between r.top r.bottom y) (ltb x fb.width)
        (ltb y fb.height) _ (ground arith) (ground arith)

pub net_height_lem :
    (g : Game) (k : ℕ) → g.screen_height ≡ pos k → pos_part (quot g.screen_height 20) ≡ k / 20
unfolding quot
net_height_lem g k e = ap (λ z. pos_part (quot z 20)) e

-- Enough fuel for the net.
pub net_loop-some :
    (fuel : ℕ) (g : Game) (k i : ℕ)
    → g.screen_height ≡ pos k
    → 20 ≤ k
    → 0 < fuel
    → k < i + fuel
    → (net : List Rect) × (net_loop fuel g i ≡ some net)
unfolding net_loop
net_loop-some zero g k i e h some_fuel enough = absurd (omega (arith, some_fuel))
net_loop-some (suc fuel) g k i e h some_fuel enough =
    let high : ltb_ℤ (pos i) g.screen_height ≡ ltb_ℤ (pos i) (pos k) =
      ap (λ z. ltb_ℤ (pos i) z) e in
    elim (Bool-cases (ltb_ℤ (pos i) (pos k))) [
      | inl more ↦
          let step = net_height_lem g k e in
          let (net, done) =
            net_loop-some fuel g k (i + 2 * pos_part (quot g.screen_height 20)) e h (ground arith)
              (ground arith) in
          (net_rect g i ∷ net, rw (high, more, done) refl)
      | inr over ↦ ([], rw (high, over) refl)
    ]
