-- ===== src/Pong/Rules.antt =====
-- What a turn of the game does to the scores, and how every round starts.
use horizon_os.Prelude.{
  ℕ, ◌+◌, ◌-◌, ◌%◌, ◌^◌, ◌≤◌, ◌<◌, ◌≡◌, refl, ◌∙◌, inl, inr, ◌&&◌, List, [], ◌∷◌, ltb, leb, ◌==◌,
  if◌then◌else◌, arith, Bool-cases,
}
use horizon_os.Prelude.Int.{ℤ, negsuc, ◌-ℤ◌, to_int, to_uint}
use horizon_os.Pong.State.{
  Game, Obj, score, past_debounce, timer_ticks, rand_range, pong_win_score, ball_max_speed, quot,
}
use horizon_os.Pong.{
  Frame, serve_x, reset, pong_on_player_hit, pong_on_wall_hit, count_score, pong_on_score,
  pong_handle_input, move_all, check_wall, check_player, check_left, check_right, pong_update,
  pong_frame, pong_loop,
}

-- The scores and the player to serve are the same.
abbrev pub SameScores : Game → Game → Type 0
SameScores g g' =
    (g'.last_player_scored ≡ g.last_player_scored)
    × (g'.score_player1 ≡ g.score_player1)
    × (g'.score_player2 ≡ g.score_player2)

rand_range-SameScores : (a b : ℕ) (g : Game) → SameScores g (rand_range a b g).1
unfolding rand_range
rand_range-SameScores a b g = elim (Bool-cases (leb b a)) [
  | inl e ↦ rw e (refl, refl, refl)
  | inr e ↦ rw e (refl, refl, refl)
]

serve_x-SameScores : (g : Game) → SameScores g (serve_x g).1
unfolding serve_x
serve_x-SameScores g = elim (Bool-cases (g.last_player_scored == 1)) [
  | inl e ↦ rw e (rand_range-SameScores _ _ g)
  | inr e ↦ elim (Bool-cases (g.last_player_scored == 2)) [
    | inl f ↦ rw (e, f) (rand_range-SameScores _ _ g)
    | inr f ↦ rw (e, f) (rand_range-SameScores _ _ g)
  ]
]

reset-SameScores : (g : Game) → SameScores g (reset g)
unfolding reset
reset-SameScores g =
    let a = serve_x-SameScores g in
    let b =
      rand_range-SameScores (to_uint (negsuc (ball_max_speed - 1))) ball_max_speed (serve_x g).1 in
    (b.0 ∙ a.0, b.1 ∙ a.1, b.2 ∙ a.2)

check_wall-SameScores : (g : Game) → SameScores g (check_wall g)
unfolding check_wall pong_on_wall_hit timer_ticks
check_wall-SameScores g = ground arith

check_player-SameScores : (p : Obj) (g : Game) → SameScores g (check_player p g)
unfolding check_player pong_on_player_hit timer_ticks
check_player-SameScores p g = ground arith

-- A point counts for its player, by one, where at least ten ticks have passed since the last event,
-- on the 32 bits of the timer; else neither score changes. The player to serve is never set.
pub pong_on_score_lem :
    (player : ℕ) (g : Game)
    → let now = (timer_ticks g).0 in
      let g' = pong_on_score player g in
      (g'.last_player_scored ≡ g.last_player_scored)
      × (g'.score_player1
          ≡ (if past_debounce now g && player == 1 then g.score_player1 + 1 else g.score_player1))
      × (g'.score_player2
          ≡ (if past_debounce now g && player == 2 then g.score_player2 + 1 else g.score_player2))
unfolding pong_on_score timer_ticks count_score
pong_on_score_lem player g =
    let now = g.clock g.ticks_read % 2 ^ 32 in
    let scored : Game =
      count_score player
        (record g { ticks_read = g.ticks_read + 1; last_event = now; sounds = score ∷ g.sounds }) in
    elim (Bool-cases (past_debounce now g)) [
      | inl late ↦ rw late (reset-SameScores scored)
      | inr early ↦ rw early (refl, refl, refl)
    ]

-- What one part of a turn may do: each score goes up by as much as is given, at most.
abbrev pub GrowsBy : ℕ → ℕ → Game → Game → Type 0
GrowsBy a b g g' =
    (g'.last_player_scored ≡ g.last_player_scored)
    × (g'.score_player1 ≤ g.score_player1 + a)
    × (g'.score_player2 ≤ g.score_player2 + b)

check_left-GrowsBy : (g : Game) → GrowsBy 1 0 g (check_left g)
unfolding check_left
check_left-GrowsBy g = ground (arith, pong_on_score_lem 1 g)

check_right-GrowsBy : (g : Game) → GrowsBy 0 1 g (check_right g)
unfolding check_right
check_right-GrowsBy g = ground (arith, pong_on_score_lem 2 g)

pong_update-GrowsBy : (delta : ℤ) (g : Game) → GrowsBy 1 1 g (pong_update delta g)
unfolding pong_update move_all
pong_update-GrowsBy delta g =
    let g₁ = check_wall (move_all delta g) in
    let g₂ = check_player g₁.player1 g₁ in
    let g₃ = check_player g₂.player2 g₂ in
    let wall = check_wall-SameScores (move_all delta g) in
    let left = check_player-SameScores g₁.player1 g₁ in
    let right = check_player-SameScores g₂.player2 g₂ in
    let out_left = check_left-GrowsBy g₃ in
    let out_right = check_right-GrowsBy (check_left g₃) in
    (out_right.0 ∙ out_left.0 ∙ right.0 ∙ left.0 ∙ wall.0, omega arith, omega arith)

pong_frame-GrowsBy : (f : Frame) (last : ℕ) (g : Game) → GrowsBy 1 1 g (pong_frame f last g).1
unfolding pong_frame pong_handle_input timer_ticks
pong_frame-GrowsBy f last g = pong_update-GrowsBy _ (pong_handle_input f.key (timer_ticks g).1)

-- From scores of nine at most, a game of any length, whatever the timer, the keys and the random
-- numbers do, ends with no score above nine, and the player to serve is as it was.
pub pong_loop-scores :
    (fs : List Frame) (last : ℕ) (g : Game)
    → g.score_player1 ≤ pong_win_score
    → g.score_player2 ≤ pong_win_score
    → let g' = pong_loop fs last g in
      (g'.score_player1 ≤ pong_win_score)
      × (g'.score_player2 ≤ pong_win_score)
      × (g'.last_player_scored ≡ g.last_player_scored)
unfolding pong_loop
pong_loop-scores [] last g a b = (a, b, refl)
pong_loop-scores (f ∷ fs) last g a b =
    elim (Bool-cases (ltb g.score_player1 pong_win_score && ltb g.score_player2 pong_win_score)) [
      | inl on ↦
          let turn = pong_frame-GrowsBy f last g in
          let low : (g.score_player1 < 9) × (g.score_player2 < 9) = ground (arith, on) in
          let rest =
            pong_loop-scores fs (pong_frame f last g).0 (pong_frame f last g).1 (omega (arith, low))
              (omega (arith, low)) in
          rw on (rest.0, rest.1, rest.2 ∙ turn.0)
      | inr over ↦ rw over (a, b, refl)
    ]

-- Where nobody has been made the player to serve, a round starts with the ball in the middle and the
-- same velocity, -500 both ways, whatever the random numbers are: `rand_range` takes its bounds as
-- unsigned, where -500 is above 500.
pub reset_lem :
    (g : Game)
    → g.last_player_scored ≡ 0
    → ((reset g).ball.vel_x ≡ negsuc 499)
      × ((reset g).ball.vel_y ≡ negsuc 499)
      × ((reset g).ball.x ≡ quot g.screen_width 2 -ℤ quot g.ball.width 2)
      × ((reset g).ball.y ≡ quot g.screen_height 2 -ℤ quot g.ball.height 2)
unfolding reset serve_x rand_range to_uint to_int
reset_lem g h = rw h (refl, refl, refl, refl)
