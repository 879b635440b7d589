-- ===== src/Pong/State.antt =====
-- The state of kernel/games/pong.c, the numbers of C in it, the timer, and `rand_range` of
-- libc/rand.c.
use horizon_os.Prelude.{ℕ, suc, ◌+◌, ◌-◌, ◌/◌, ◌%◌, ◌^◌, Bool, List, leb, if◌then◌else◌}
use horizon_os.Prelude.Int.{ℤ, pos, negsuc, ◌-ℤ◌, ltb_ℤ}

-- `struct obj`
pub record Obj : Type 0 where
  pub x : ℤ
  pub y : ℤ
  pub width : ℤ
  pub height : ℤ
  pub vel_x : ℤ
  pub vel_y : ℤ

pub data Sound : Type 0 where
  paddle wall score : Sound

pub record Game : Type 0 where
  pub screen_width : ℤ
  pub screen_height : ℤ
  pub last_player_scored : ℕ
  pub player1 : Obj
  pub player2 : Obj
  pub ball : Obj
  pub score_player1 : ℕ
  pub score_player2 : ℕ
  pub last_event : ℕ
  pub sounds : List Sound
  pub clock : ℕ → ℕ
  pub ticks_read : ℕ
  pub draws : ℕ → ℕ
  pub drawn : ℕ

abbrev pub paddle_width : ℤ
paddle_width = pos 10

abbrev pub paddle_height : ℤ
paddle_height = pos 100

abbrev pub ball_radius : ℤ
ball_radius = pos 10

abbrev pub player_speed : ℕ
player_speed = 1000

abbrev pub ball_max_speed : ℕ
ball_max_speed = 500

abbrev pub event_debounce_ticks : ℕ
event_debounce_ticks = 10

abbrev pub pong_win_score : ℕ
pong_win_score = 9

abbrev pub negate : ℤ → ℤ
unfolding ◌-ℤ◌
negate a = pos 0 -ℤ a

-- `a / n` of C: towards zero.
unfoldable pub quot : ℤ → ℕ → ℤ
quot (pos a) n = pos (a / n)
quot (negsuc a) n = pos 0 -ℤ pos (suc a / n)

unfoldable pub abs : ℤ → ℤ
abs a = if ltb_ℤ a (pos 0) then pos 0 -ℤ a else a

unfoldable pub timer_ticks : Game → ℕ × Game
timer_ticks g = (g.clock g.ticks_read % 2 ^ 32, record g { ticks_read = g.ticks_read + 1 })

-- `now - last_event >= EVENT_DEBOUNCE_TICKS`, on 32 bits.
unfoldable pub past_debounce : ℕ → Game → Bool
past_debounce now g = leb event_debounce_ticks ((now + 2 ^ 32 - g.last_event) % 2 ^ 32)

-- `rand_range`, of which both arguments are unsigned.
unfoldable pub rand_range : ℕ → ℕ → Game → ℕ × Game
rand_range min max g =
    if leb max min
    then (min, g)
    else ((min + g.draws g.drawn % 2 ^ 32 % (max - min)) % 2 ^ 32, record g { drawn = g.drawn + 1 })
