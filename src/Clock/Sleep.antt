-- ===== src/Clock/Sleep.antt =====
-- How long `sleep_ms` of kernel/time.c waits.
use horizon_os.Prelude.{
  ℕ, zero, suc, ◌+◌, ◌-◌, ◌%◌, ◌^◌, ◌<◌, ◌≤◌, ◌≡◌, ◌∙◌, refl, true, false, sym, subst, ==_iff, some,
  arith, ltb, ◌==◌, Bool-cases, inl, inr,
}
use horizon_os.Clock.{timer_interrupt_handler, tick_count, sleep_loop, sleep_ms}

tick_count_lem : (n : ℕ) → tick_count n ≡ n % 2 ^ 32
unfolding timer_interrupt_handler
tick_count_lem zero = omega arith
tick_count_lem (suc n) = omega (arith, tick_count_lem n)

-- Between two counts less than 2^32 apart the difference is that of the counts with no bound.
elapsed :
    (now start : ℕ)
    → start ≤ now
    → now < start + 2 ^ 32
    → (tick_count now + 2 ^ 32 - tick_count start) % 2 ^ 32 ≡ now - start
elapsed now start h l = omega (arith, tick_count_lem now, tick_count_lem start, h, l)

zeroth : (j : ℕ) → j ≤ 0 → 0 ≡ j
zeroth j l = omega (arith, l)

sleep_loop-more :
    (fuel start ms i d : ℕ) (clock : ℕ → ℕ)
    → (tick_count (clock i) + 2 ^ 32 - start) % 2 ^ 32 ≡ d
    → ltb d ms ≡ true
    → sleep_loop (suc fuel) clock start ms i ≡ sleep_loop fuel clock start ms (i + 1)
unfolding sleep_loop
sleep_loop-more fuel start ms i d clock e more = rw (e, more) refl

sleep_loop-done :
    (fuel start ms i d : ℕ) (clock : ℕ → ℕ)
    → (tick_count (clock i) + 2 ^ 32 - start) % 2 ^ 32 ≡ d
    → ltb d ms ≡ false
    → sleep_loop (suc fuel) clock start ms i ≡ some i
unfolding sleep_loop
sleep_loop-done fuel start ms i d clock e over = rw (e, over) refl

-- Read `k` is the first one that comes `ms` ticks or more after the first read of all.
pub record First (clock : ℕ → ℕ) (ms k : ℕ) : Type 0 where
  pub late : clock 0 + ms ≤ clock k
  pub before : (j : ℕ) → j < k → clock j < clock 0 + ms

-- The count never goes back, and up by `gap` at most from read to read.
module _ (clock : ℕ → ℕ) (gap ms n : ℕ) (up : (j : ℕ) → clock j ≤ clock (j + 1))
    (near : (j : ℕ) → clock (j + 1) ≤ clock j + gap) (fits : ms + gap ≤ 2 ^ 32)
    (enough : clock 0 + ms ≤ clock n) where
  sleep_loop-First :
      (fuel i : ℕ)
      → n ≤ i + fuel
      → clock 0 ≤ clock i
      → ((j : ℕ) → j ≤ i → clock j < clock 0 + ms)
      → (k : ℕ) × (sleep_loop fuel clock (tick_count (clock 0)) ms (i + 1) ≡ some k)
        × First clock ms k
  unfolding sleep_loop
  sleep_loop-First zero i h low early = absurd (omega (arith, early n (omega (arith, h)), enough))
  sleep_loop-First (suc fuel) i h low early =
      let now = clock (i + 1) in
      let passed : (tick_count now + 2 ^ 32 - tick_count (clock 0)) % 2 ^ 32 ≡ now - clock 0 =
        elapsed now (clock 0) (omega (arith, low, up i))
          (omega (arith, near i, early i (omega arith), fits)) in
      elim (Bool-cases (ltb (now - clock 0) ms)) [
        | inl more ↦
            let still : (j : ℕ) → j ≤ i + 1 → clock j < clock 0 + ms = λ j l.
              elim (Bool-cases (j == i + 1)) [
                | inl last ↦
                    subst (λ j. clock j < clock 0 + ms) (sym ((==_iff j (i + 1)).0 last))
                      (ground (arith, more, low, up i))
                | inr earlier ↦ early j (ground (arith, l, earlier))
              ] in
            let (k, done, first) =
              sleep_loop-First fuel (i + 1) (omega (arith, h)) (omega (arith, low, up i)) still in
            (
              k,
              sleep_loop-more fuel (tick_count (clock 0)) ms (i + 1) _ clock passed more ∙ done,
              first,
            )
        | inr over ↦ (
          i + 1,
          sleep_loop-done fuel (tick_count (clock 0)) ms (i + 1) _ clock passed over,
          record {
            late = ground (arith, over, low, up i);
            before = λ j l. early j (omega (arith, l));
          },
        )
      ]

  -- For a time other than 0, and where the count never goes back, and from read to read goes up by so little that it and the time
  -- fit 32 bits, and the time passes by read `n`: `sleep_ms` ends at the first read that comes the
  -- time or more after the first, also where the count wraps.
  pub sleep_ms_lem : 0 < ms → (k : ℕ) × (sleep_ms n clock ms ≡ some k) × First clock ms k
  unfolding sleep_ms
  sleep_ms_lem some_time =
      sleep_loop-First n 0 (omega arith) (omega arith)
        (λ j l. subst (λ j. clock j < clock 0 + ms) (zeroth j l) (omega (arith, some_time)))
