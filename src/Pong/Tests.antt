-- ===== src/Pong/Tests.antt =====
-- Pong on a screen of 640 by 480.
use horizon_os.Prelude.{◌+◌, ◌*◌, ◌≡◌, refl, some, List, [], replicate, arith, ◌==◌}
use horizon_os.Graphics.{Gfx, framebuffer, draw_buffer}
use horizon_os.Graphics.Fill.{WellFormed}
use horizon_os.Pong.Screen.{pong_draw, white}
use horizon_os.Pong.Picture.{in_cells, pong_draw_lem}
use horizon_os.Prelude.Int.{pos, ◌-ℤ◌, ◌+ℤ◌}
use horizon_os.Pong.State.{Obj, Game, quot}
use horizon_os.Pong.{Frame, pong_init}

abbrev still : Obj
still = record { x = pos 0; y = pos 0; width = pos 0; height = pos 0; vel_x = pos 0; vel_y = pos 0 }

-- The timer goes up by eight ticks from one read to the next.
abbrev game : Game
unfolding pong_init
game = pong_init (pos 640) (pos 480) (record {
  screen_width = pos 0;
  screen_height = pos 0;
  last_player_scored = 0;
  player1 = still;
  player2 = still;
  ball = still;
  score_player1 = 0;
  score_player2 = 0;
  last_event = 0;
  sounds = [];
  clock = λ n. 100 + 8 * n;
  ticks_read = 0;
  draws = λ n. n;
  drawn = 0;
})

abbrev frames : List Frame
frames = replicate 3 (record { key = λ k. k == 0x11; waits = 2 })

-- A screen of 640 by 480 whose words are all 5.
abbrev screen : Gfx
screen = record {
  fb = record { pitch = 2560; width = 640; height = 480 };
  front = λ i. 5;
  back = λ i. 5;
  screen_size = 1228800;
  target = framebuffer;
}

screen-WellFormed : WellFormed screen
screen-WellFormed = record {
  row = omega arith;
  wide = omega arith;
  high = omega arith;
  size = omega arith;
}

-- A pixel of the net.
pong_draw_lem_example :
    (gfx' : Gfx) × (pong_draw 500 game screen ≡ some gfx')
    × (draw_buffer gfx' (3 * 640 + 320) ≡ white)
unfolding pong_init quot in_cells ◌-ℤ◌ ◌+ℤ◌
pong_draw_lem_example =
    pong_draw_lem 500 game screen 320 3 screen-WellFormed refl (omega arith) (omega arith)
      (omega arith) (omega arith)
