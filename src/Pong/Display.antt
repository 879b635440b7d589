-- ===== src/Pong/Display.antt =====
-- The pixel font of kernel/games/pong.h: ten digits, of seven rows with five columns.
use horizon_os.Prelude.{ℕ, List, [], ◌∷◌}

abbrev pub display : List (List (List ℕ))
display =
    ((0 ∷ 1 ∷ 1 ∷ 1 ∷ 0 ∷ [])
      ∷ (1 ∷ 0 ∷ 0 ∷ 0 ∷ 1 ∷ [])
      ∷ (1 ∷ 0 ∷ 0 ∷ 1 ∷ 1 ∷ [])
      ∷ (1 ∷ 0 ∷ 1 ∷ 0 ∷ 1 ∷ [])
      ∷ (1 ∷ 1 ∷ 0 ∷ 0 ∷ 1 ∷ [])
      ∷ (1 ∷ 0 ∷ 0 ∷ 0 ∷ 1 ∷ [])
      ∷ (0 ∷ 1 ∷ 1 ∷ 1 ∷ 0 ∷ [])
      ∷ [])
    ∷ ((0 ∷ 0 ∷ 1 ∷ 0 ∷ 0 ∷ [])
        ∷ (0 ∷ 1 ∷ 1 ∷ 0 ∷ 0 ∷ [])
        ∷ (0 ∷ 0 ∷ 1 ∷ 0 ∷ 0 ∷ [])
        ∷ (0 ∷ 0 ∷ 1 ∷ 0 ∷ 0 ∷ [])
        ∷ (0 ∷ 0 ∷ 1 ∷ 0 ∷ 0 ∷ [])
        ∷ (0 ∷ 0 ∷ 1 ∷ 0 ∷ 0 ∷ [])
        ∷ (0 ∷ 1 ∷ 1 ∷ 1 ∷ 0 ∷ [])
        ∷ [])
    ∷ ((0 ∷ 1 ∷ 1 ∷ 1 ∷ 0 ∷ [])
        ∷ (1 ∷ 0 ∷ 0 ∷ 0 ∷ 1 ∷ [])
        ∷ (0 ∷ 0 ∷ 0 ∷ 0 ∷ 1 ∷ [])
        ∷ (0 ∷ 0 ∷ 0 ∷ 1 ∷ 0 ∷ [])
        ∷ (0 ∷ 0 ∷ 1 ∷ 0 ∷ 0 ∷ [])
        ∷ (0 ∷ 1 ∷ 0 ∷ 0 ∷ 0 ∷ [])
        ∷ (1 ∷ 1 ∷ 1 ∷ 1 ∷ 1 ∷ [])
        ∷ [])
    ∷ ((0 ∷ 1 ∷ 1 ∷ 1 ∷ 0 ∷ [])
        ∷ (1 ∷ 0 ∷ 0 ∷ 0 ∷ 1 ∷ [])
        ∷ (0 ∷ 0 ∷ 0 ∷ 0 ∷ 1 ∷ [])
        ∷ (0 ∷ 0 ∷ 1 ∷ 1 ∷ 0 ∷ [])
        ∷ (0 ∷ 0 ∷ 0 ∷ 0 ∷ 1 ∷ [])
        ∷ (1 ∷ 0 ∷ 0 ∷ 0 ∷ 1 ∷ [])
        ∷ (0 ∷ 1 ∷ 1 ∷ 1 ∷ 0 ∷ [])
        ∷ [])
    ∷ ((0 ∷ 0 ∷ 0 ∷ 1 ∷ 0 ∷ [])
        ∷ (0 ∷ 0 ∷ 1 ∷ 1 ∷ 0 ∷ [])
        ∷ (0 ∷ 1 ∷ 0 ∷ 1 ∷ 0 ∷ [])
        ∷ (1 ∷ 0 ∷ 0 ∷ 1 ∷ 0 ∷ [])
        ∷ (1 ∷ 1 ∷ 1 ∷ 1 ∷ 1 ∷ [])
        ∷ (0 ∷ 0 ∷ 0 ∷ 1 ∷ 0 ∷ [])
        ∷ (0 ∷ 0 ∷ 0 ∷ 1 ∷ 0 ∷ [])
        ∷ [])
    ∷ ((1 ∷ 1 ∷ 1 ∷ 1 ∷ 1 ∷ [])
        ∷ (1 ∷ 0 ∷ 0 ∷ 0 ∷ 0 ∷ [])
        ∷ (1 ∷ 1 ∷ 1 ∷ 1 ∷ 0 ∷ [])
        ∷ (0 ∷ 0 ∷ 0 ∷ 0 ∷ 1 ∷ [])
        ∷ (0 ∷ 0 ∷ 0 ∷ 0 ∷ 1 ∷ [])
        ∷ (1 ∷ 0 ∷ 0 ∷ 0 ∷ 1 ∷ [])
        ∷ (0 ∷ 1 ∷ 1 ∷ 1 ∷ 0 ∷ [])
        ∷ [])
    ∷ ((0 ∷ 1 ∷ 1 ∷ 1 ∷ 0 ∷ [])
        ∷ (1 ∷ 0 ∷ 0 ∷ 0 ∷ 0 ∷ [])
        ∷ (1 ∷ 0 ∷ 0 ∷ 0 ∷ 0 ∷ [])
        ∷ (1 ∷ 1 ∷ 1 ∷ 1 ∷ 0 ∷ [])
        ∷ (1 ∷ 0 ∷ 0 ∷ 0 ∷ 1 ∷ [])
        ∷ (1 ∷ 0 ∷ 0 ∷ 0 ∷ 1 ∷ [])
        ∷ (0 ∷ 1 ∷ 1 ∷ 1 ∷ 0 ∷ [])
        ∷ [])
    ∷ ((1 ∷ 1 ∷ 1 ∷ 1 ∷ 1 ∷ [])
        ∷ (0 ∷ 0 ∷ 0 ∷ 0 ∷ 1 ∷ [])
        ∷ (0 ∷ 0 ∷ 0 ∷ 1 ∷ 0 ∷ [])
        ∷ (0 ∷ 0 ∷ 1 ∷ 0 ∷ 0 ∷ [])
        ∷ (0 ∷ 1 ∷ 0 ∷ 0 ∷ 0 ∷ [])
        ∷ (0 ∷ 1 ∷ 0 ∷ 0 ∷ 0 ∷ [])
        ∷ (0 ∷ 1 ∷ 0 ∷ 0 ∷ 0 ∷ [])
        ∷ [])
    ∷ ((0 ∷ 1 ∷ 1 ∷ 1 ∷ 0 ∷ [])
        ∷ (1 ∷ 0 ∷ 0 ∷ 0 ∷ 1 ∷ [])
        ∷ (1 ∷ 0 ∷ 0 ∷ 0 ∷ 1 ∷ [])
        ∷ (0 ∷ 1 ∷ 1 ∷ 1 ∷ 0 ∷ [])
        ∷ (1 ∷ 0 ∷ 0 ∷ 0 ∷ 1 ∷ [])
        ∷ (1 ∷ 0 ∷ 0 ∷ 0 ∷ 1 ∷ [])
        ∷ (0 ∷ 1 ∷ 1 ∷ 1 ∷ 0 ∷ [])
        ∷ [])
    ∷ ((0 ∷ 1 ∷ 1 ∷ 1 ∷ 0 ∷ [])
        ∷ (1 ∷ 0 ∷ 0 ∷ 0 ∷ 1 ∷ [])
        ∷ (1 ∷ 0 ∷ 0 ∷ 0 ∷ 1 ∷ [])
        ∷ (0 ∷ 1 ∷ 1 ∷ 1 ∷ 1 ∷ [])
        ∷ (0 ∷ 0 ∷ 0 ∷ 0 ∷ 1 ∷ [])
        ∷ (0 ∷ 0 ∷ 0 ∷ 0 ∷ 1 ∷ [])
        ∷ (0 ∷ 1 ∷ 1 ∷ 1 ∷ 0 ∷ [])
        ∷ [])
    ∷ []
