-- ===== src/Pong.antt =====
-- The game of kernel/games/pong.c, with `rand_range` of libc/rand.c and `abs` of libc/math/math.c. A
-- C `int` is an integer: what overflows has no meaning in C. A `uint32_t` is a number below 2^32. The
-- timer, the random numbers and the keys come from outside: `clock n` and `draws n` are what the
-- n-th read of each answers. Sounds are kept in a list, the newest first.
pub mod Display
pub mod State
pub mod Rules
pub mod Draw
pub mod Screen
pub mod Picture
mod Tests
use horizon_os.Prelude.{
  ℕ, suc, ◌+◌, ◌-◌, ◌*◌, ◌/◌, ◌%◌, ◌^◌, Bool, true, false, ◌&&◌, ◌||◌, List, [], ◌∷◌, ◌++◌, get_or,
  ltb, leb, ◌==◌, if◌then◌else◌,
}
use horizon_os.Prelude.Int.{ℤ, pos, negsuc, ◌+ℤ◌, ◌-ℤ◌, ◌*ℤ◌, ltb_ℤ, to_uint, to_int}
use horizon_os.Pong.State.{
  Obj, Sound, Game, paddle_width, paddle_height, ball_radius, player_speed, ball_max_speed,
  event_debounce_ticks, pong_win_score, negate, quot, abs, timer_ticks, past_debounce, rand_range,
  paddle, wall, score,
}

unfoldable pub pong_init : ℤ → ℤ → Game → Game
pong_init width height g =
    let middle = quot height 2 in
    record g {
      screen_width = width;
      screen_height = height;
      player1 = record {
        x = pos 0;
        y = middle -ℤ quot paddle_height 2;
        width = paddle_width;
        height = paddle_height;
        vel_x = pos 0;
        vel_y = pos 0;
      };
      player2 = record {
        x = width -ℤ paddle_width;
        y = middle -ℤ quot paddle_height 2;
        width = paddle_width;
        height = paddle_height;
        vel_x = pos 0;
        vel_y = pos 0;
      };
      ball = record {
        x = quot width 2 -ℤ quot ball_radius 2;
        y = middle -ℤ quot ball_radius 2;
        width = ball_radius;
        height = ball_radius;
        vel_x = pos 0;
        vel_y = pos 0;
      };
    }

-- A paddle's speed by its two keys: the one for down is asked last.
unfoldable pub paddle_speed : Bool → Bool → ℤ
paddle_speed up down =
    if down then pos player_speed else if up then negsuc (player_speed - 1) else pos 0

unfoldable pub pong_handle_input : (ℕ → Bool) → Game → Game
pong_handle_input key g = record g {
  player1 = record g.player1 { vel_y = paddle_speed (key 0x11) (key 0x1F) };
  player2 = record g.player2 { vel_y = paddle_speed (key 0xC8) (key 0xD0) };
}

unfoldable pub rects_overlap : Obj → Obj → Bool
rects_overlap a b =
    ltb_ℤ a.x (b.x +ℤ b.width)
    && ltb_ℤ b.x (a.x +ℤ a.width)
    && ltb_ℤ a.y (b.y +ℤ b.height)
    && ltb_ℤ b.y (a.y +ℤ a.height)

-- The two velocities of the start of a round.
unfoldable pub serve_x : Game → ℤ × Game
serve_x g =
    let (fast, g₁) = rand_range 1 ball_max_speed g in
    let (any, g₂) = rand_range (to_uint (negsuc (ball_max_speed - 1))) ball_max_speed g in
    if g.last_player_scored == 1
    then (to_int fast, g₁)
    else if g.last_player_scored == 2
    then (to_int ((2 ^ 32 - fast) % 2 ^ 32), g₁)
    else (to_int any, g₂)

unfoldable pub reset : Game → Game
reset g =
    let (vel_x, g₁) = serve_x g in
    let (vel_y, g₂) = rand_range (to_uint (negsuc (ball_max_speed - 1))) ball_max_speed g₁ in
    record g₂ {
      ball = record g.ball {
        x = quot g.screen_width 2 -ℤ quot g.ball.width 2;
        y = quot g.screen_height 2 -ℤ quot g.ball.height 2;
        vel_x = vel_x;
        vel_y = to_int vel_y;
      };
    }

-- The ball thrown back by a paddle.
unfoldable pub hit_ball : Obj → Game → Obj
hit_ball p g = record g.ball {
  vel_x = if ltb_ℤ p.x (quot g.screen_width 2) then abs g.ball.vel_x else pos 0 -ℤ abs g.ball.vel_x;
  vel_y = g.ball.vel_y +ℤ quot p.vel_y 2;
}

unfoldable pub pong_on_player_hit : Obj → Game → Game
pong_on_player_hit p g =
    let (now, g₁) = timer_ticks g in
    if past_debounce now g
    then record g₁ { last_event = now; ball = hit_ball p g; sounds = paddle ∷ g.sounds }
    else g₁

unfoldable pub bounce : Game → ℤ
bounce g =
    if ltb_ℤ (pos 0) g.ball.y
    then if ltb_ℤ (g.ball.y +ℤ g.ball.height) g.screen_height
      then g.ball.vel_y
      else pos 0 -ℤ abs g.ball.vel_y
    else abs g.ball.vel_y

unfoldable pub pong_on_wall_hit : Game → Game
pong_on_wall_hit g =
    let (now, g₁) = timer_ticks g in
    if past_debounce now g
    then record g₁ {
      last_event = now;
      ball = record g.ball { vel_y = bounce g };
      sounds = wall ∷ g.sounds;
    }
    else g₁

unfoldable pub count_score : ℕ → Game → Game
count_score player g = record g {
  score_player1 = if player == 1 then g.score_player1 + 1 else g.score_player1;
  score_player2 = if player == 2 then g.score_player2 + 1 else g.score_player2;
}

unfoldable pub pong_on_score : ℕ → Game → Game
pong_on_score player g =
    let (now, g₁) = timer_ticks g in
    let scored = count_score player (record g₁ { last_event = now; sounds = score ∷ g.sounds }) in
    if past_debounce now g then reset scored else g₁

unfoldable pub moved : ℤ → Obj → Obj
moved delta o = record o { y = o.y +ℤ quot (o.vel_y *ℤ delta) 1000 }

unfoldable pub move_all : ℤ → Game → Game
move_all delta g =
    let b = moved delta g.ball in
    record g {
      player1 = moved delta g.player1;
      player2 = moved delta g.player2;
      ball = record b { x = b.x +ℤ quot (b.vel_x *ℤ delta) 1000 };
    }

unfoldable pub check_wall : Game → Game
check_wall g =
    if ltb_ℤ (pos 0) g.ball.y && ltb_ℤ (g.ball.y +ℤ g.ball.height) g.screen_height
    then g
    else pong_on_wall_hit g

unfoldable pub check_player : Obj → Game → Game
check_player p g = if rects_overlap g.ball p then pong_on_player_hit p g else g

unfoldable pub check_left : Game → Game
check_left g = if ltb_ℤ (pos 0) (g.ball.x +ℤ g.ball.width) then g else pong_on_score 1 g

unfoldable pub check_right : Game → Game
check_right g = if ltb_ℤ (g.ball.x -ℤ g.ball.width) g.screen_width then g else pong_on_score 2 g

unfoldable pub pong_update : ℤ → Game → Game
pong_update delta g =
    let g₁ = check_wall (move_all delta g) in
    let g₂ = check_player g₁.player1 g₁ in check_right (check_left (check_player g₂.player2 g₂))

-- What the outside does in one turn of the loop: the keys, and how often the wait at its end reads
-- the timer.
pub record Frame : Type 0 where
  pub key : ℕ → Bool
  pub waits : ℕ

unfoldable pub pong_frame : Frame → ℕ → Game → ℕ × Game
pong_frame f last g =
    let (frame_start, g₁) = timer_ticks g in
    let g₂ =
      pong_update (to_int ((frame_start + 2 ^ 32 - last) % 2 ^ 32)) (pong_handle_input f.key g₁) in
    (frame_start, record g₂ { ticks_read = g₂.ticks_read + f.waits })

-- The loop of `pong_start`, over the turns that there is time for.
unfoldable pub pong_loop : List Frame → ℕ → Game → Game
pong_loop [] last g = g
pong_loop (f ∷ fs) last g =
    let (last', g') = pong_frame f last g in
    let rest = pong_loop fs last' g' in
    if ltb g.score_player1 pong_win_score && ltb g.score_player2 pong_win_score then rest else g

unfoldable pub pong_start : List Frame → Game → Game
pong_start fs g =
    let g₁ = reset (record g { score_player1 = 0; score_player2 = 0; last_player_scored = 0 }) in
    let (last, g₂) = timer_ticks g₁ in pong_loop fs last g₂
