-- ===== src/Rand/Stuck.antt =====
-- What `randul` of libc/rand.c answers: the loop of `rdrand64`, and the generator it falls back on.
use horizon_os.Prelude.{
  ℕ, zero, suc, ◌+◌, ◌<◌, ◌≡◌, ◌∙◌, refl, ap, sym, subst, Bool, true, Option, none, some, ◌∷◌,
  replicate, arith, bit, if◌then◌else◌,
}
use horizon_os.Rand.{Rng, init_rand, shifted, xorshift64, attempts, rdrand64, randul, randuls}

-- A call answers `x`, which is the generator's state then.
abbrev Answers : ℕ × Rng → ℕ → Bool → Type 0
Answers out x has = (out.0 ≡ x) × (out.1.rng_state ≡ x) × (out.1.has_rdrand ≡ has)

-- The loop falls back on the other generator when every attempt that is left fails.
attempts-none :
    (left : ℕ) (hw : ℕ → Option ℕ) (r : Rng)
    → ((i : ℕ) → hw i ≡ none)
    → Answers (attempts left hw r) (shifted r.rng_state) r.has_rdrand
unfolding attempts xorshift64
attempts-none zero hw r fails = (refl, refl, refl)
attempts-none (suc left) hw r fails =
    let next : Rng = record r { executed = r.executed + 1 } in
    subst
      (λ o.
        Answers (elim o [ none ↦ attempts left hw next | some value ↦ (value, next) ])
          (shifted r.rng_state) r.has_rdrand)
      (sym (fails r.executed)) (attempts-none left hw next fails)

shifted-zero : shifted 0 ≡ 0
unfolding shifted
shifted-zero = refl

randul-none :
    (hw : ℕ → Option ℕ) (r : Rng)
    → r.rng_state ≡ 0
    → r.has_rdrand ≡ true
    → ((i : ℕ) → hw i ≡ none)
    → Answers (randul hw r) 0 true
unfolding randul rdrand64
randul-none hw r z h fails =
    let (value, state, has) = attempts-none 10 hw r fails in
    let stuck : shifted r.rng_state ≡ 0 = ap shifted z ∙ shifted-zero in
    subst (λ b. Answers (if b then rdrand64 hw r else xorshift64 r) 0 true) (sym h)
      (value ∙ stuck, state ∙ stuck, has ∙ h)

randuls-none :
    (n : ℕ) (hw : ℕ → Option ℕ) (r : Rng)
    → r.rng_state ≡ 0
    → r.has_rdrand ≡ true
    → ((i : ℕ) → hw i ≡ none)
    → randuls n hw r ≡ replicate n 0
randuls-none zero hw r z h fails = refl
randuls-none (suc n) hw r z h fails =
    let (value, state, has) = randul-none hw r z h fails in
    ap (λ x. x ∷ randuls n hw (randul hw r).1) value
    ∙ ap (λ l. 0 ∷ l) (randuls-none n hw (randul hw r).1 state has fails)

-- On a processor with `rdrand` (bit 30 of what `cpuid` answers), `init_rand` leaves the state 0 as it
-- is; from there, while `rdrand` fails, every call of `randul` answers 0.
pub init_rand-randuls :
    (n ecx lo hi : ℕ) (hw : ℕ → Option ℕ) (r : Rng)
    → r.rng_state ≡ 0
    → bit 30 ecx ≡ true
    → ((i : ℕ) → hw i ≡ none)
    → randuls n hw (init_rand ecx lo hi r) ≡ replicate n 0
unfolding init_rand
init_rand-randuls n ecx lo hi hw r z has fails =
    rw has (randuls-none n hw (record r { has_rdrand = true }) z refl fails)

attempts-miss :
    (left : ℕ) (hw : ℕ → Option ℕ) (r : Rng)
    → hw r.executed ≡ none
    → attempts (suc left) hw r ≡ attempts left hw (record r { executed = r.executed + 1 })
unfolding attempts
attempts-miss left hw r h = rw (h, attempts) refl

attempts-hit :
    (left x : ℕ) (hw : ℕ → Option ℕ) (r : Rng)
    → hw r.executed ≡ some x
    → attempts (suc left) hw r ≡ (x, record r { executed = r.executed + 1 })
unfolding attempts
attempts-hit left x hw r h = rw (h, attempts) refl

-- The first number that `rdrand` has within the attempts that are left is the answer.
attempts-some :
    (left j x : ℕ) (hw : ℕ → Option ℕ) (r : Rng)
    → j < left
    → ((i : ℕ) → i < j → hw (r.executed + i) ≡ none)
    → hw (r.executed + j) ≡ some x
    → attempts left hw r ≡ (x, record r { executed = r.executed + j + 1 })
attempts-some zero j x hw r h fails works = absurd (omega arith)
attempts-some (suc left) zero x hw r h fails works =
    attempts-hit left x hw r (ap hw (omega arith) ∙ works)
    ∙ ap (λ e. (x, record r { executed = e })) (omega arith)
attempts-some (suc left) (suc j) x hw r h fails works =
    let next : Rng = record r { executed = r.executed + 1 } in
    let later =
      attempts-some left j x hw next (omega (arith, h))
        (λ i k. ap hw (omega arith) ∙ fails (i + 1) (omega (arith, k)))
        (ap hw (omega arith) ∙ works) in
    attempts-miss left hw r (ap hw (omega arith) ∙ fails 0 (omega arith))
    ∙ later
    ∙ ap (λ e. (x, record r { executed = e })) (omega arith)

-- On a processor with `rdrand`, `randul` answers the first number that it has within ten attempts,
-- and the state of the other generator stays as it is.
randul_lem :
    (j x : ℕ) (hw : ℕ → Option ℕ) (r : Rng)
    → r.has_rdrand ≡ true
    → j < 10
    → ((i : ℕ) → i < j → hw (r.executed + i) ≡ none)
    → hw (r.executed + j) ≡ some x
    → randul hw r ≡ (x, record r { executed = r.executed + j + 1 })
unfolding randul rdrand64
randul_lem j x hw r has h fails works =
    ap (λ b. if b then rdrand64 hw r else xorshift64 r) has
    ∙ attempts-some 10 j x hw r h fails works
