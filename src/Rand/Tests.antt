-- ===== src/Rand/Tests.antt =====
-- The generator on a processor whose `rdrand` never has a number.
use horizon_os.Prelude.{ℕ, ◌^◌, ◌≡◌, refl, Option, none, false, replicate}
use horizon_os.Rand.{Rng, init_rand, randuls}
use horizon_os.Rand.Stuck.{init_rand-randuls}

abbrev off : Rng
off = record { has_rdrand = false; rng_state = 0; executed = 0 }

abbrev never : ℕ → Option ℕ
never i = none

init_rand-randuls_example : randuls 50 never (init_rand (2 ^ 30) 7 9 off) ≡ replicate 50 0
init_rand-randuls_example = init_rand-randuls 50 (2 ^ 30) 7 9 never off refl refl (λ i. refl)
