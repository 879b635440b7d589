-- ===== src/Clock/Tests.antt =====
-- A clock that is about to wrap.
use horizon_os.Prelude.{ℕ, ◌+◌, ◌-◌, ◌*◌, ◌^◌, ◌≡◌, some, arith}
use horizon_os.Clock.{sleep_ms}
use horizon_os.Clock.Sleep.{First, sleep_ms_lem}

abbrev wrapping : ℕ → ℕ
wrapping i = 2 ^ 32 - 3 + 2 * i

sleep_ms_lem_example : (k : ℕ) × (sleep_ms 6 wrapping 10 ≡ some k) × First wrapping 10 k
sleep_ms_lem_example =
    sleep_ms_lem wrapping 2 10 6 (λ j. omega arith) (λ j. omega arith) (omega arith) (omega arith)
      (omega arith)
