-- ===== src/Cstring/Compare.antt =====
-- What `memcmp`, `strlen`, `strnlen`, `strncmp` and `strcmp` answer.
use native.Mathlib.Nat.{add-zero}
use horizon_os.Prelude.{
  ℕ, zero, suc, ◌+◌, ◌≤◌, ◌<◌, ◌≡◌, ◌≢◌, ◌⊎◌, inl, inr, refl, ap, true, false, some, arith, ltb,
  leb, ◌==◌, if◌then◌else◌, ℕ_discrete, dec_lt,
}
use horizon_os.Prelude.Int.{ℤ, pos, negsuc}
use horizon_os.Cstring.{Memory, nul, memcmp, strlen, strlen_loop, strnlen, strnlen_loop}

-- The two ranges agree on their first `n` bytes.
abbrev pub Agree : Memory → ℕ → ℕ → ℕ → Type 0
Agree m a b n = (i : ℕ) → i < n → m (a + i) ≡ m (b + i)

-- What the answer of `memcmp` says: equal ranges, or a first byte where they differ, and how.
abbrev pub Compared : Memory → ℕ → ℕ → ℕ → ℤ → Type 0
Compared m a b size r =
    (r ≡ pos 0) × Agree m a b size
    ⊎ ((i : ℕ) × (i < size) × Agree m a b i × (m (a + i) < m (b + i)) × (r ≡ negsuc 0))
    ⊎ ((i : ℕ) × (i < size) × Agree m a b i × (m (b + i) < m (a + i)) × (r ≡ pos 1))

step : (x i : ℕ) → x + 1 + i ≡ x + suc i
step x i = omega arith

pub Agree-suc :
    (m : Memory) (a b n : ℕ) → m a ≡ m b → Agree m (a + 1) (b + 1) n → Agree m a b (suc n)
Agree-suc m a b n h rest zero lt = rw (add-zero, add-zero) h
Agree-suc m a b n h rest (suc i) lt = rw (← step a i, ← step b i) (rest i (omega arith))

Compared-suc :
    (m : Memory) (a b size : ℕ) (r : ℤ)
    → m a ≡ m b
    → Compared m (a + 1) (b + 1) size r
    → Compared m a b (suc size) r
Compared-suc m a b size r h (inl (e, same)) = inl (e, Agree-suc m a b size h same)
Compared-suc m a b size r h (inr (inl (i, lt, same, less, e))) =
    inr (inl (suc i, omega arith, Agree-suc m a b i h same, rw (← step a i, ← step b i) less, e))
Compared-suc m a b size r h (inr (inr (i, lt, same, less, e))) =
    inr (inr (suc i, omega arith, Agree-suc m a b i h same, rw (← step a i, ← step b i) less, e))

none_before : (m : Memory) (a b : ℕ) → Agree m a b 0
none_before m a b i h = elim h [ ]

-- `memcmp` answers 0 exactly for equal ranges, and otherwise -1 or 1 as the first bytes that differ
-- are ordered.
pub memcmp_lem : (size : ℕ) (m : Memory) (a b : ℕ) → Compared m a b size (memcmp m a b size)
unfolding memcmp
memcmp_lem zero m a b = inl (refl, none_before m a b)
memcmp_lem (suc size) m a b = elim (dec_lt (m a) (m b)) [
  | yes lt ↦
      let test : ltb (m a) (m b) ≡ true = ground arith in
      rw test (inr (inl (0, omega arith, none_before m a b, rw (add-zero, add-zero) lt, refl)))
  | no ge ↦ elim (dec_lt (m b) (m a)) [
    | yes gt ↦
        let less : ltb (m a) (m b) ≡ false = ground arith in
        let more : ltb (m b) (m a) ≡ true = ground arith in
        rw (less, more)
          (inr (inr (0, omega arith, none_before m a b, rw (add-zero, add-zero) gt, refl)))
    | no le ↦
        let less : ltb (m a) (m b) ≡ false = ground arith in
        let more : ltb (m b) (m a) ≡ false = ground arith in
        rw (less, more)
          (Compared-suc m a b size _ (omega arith) (memcmp_lem size m (a + 1) (b + 1)))
  ]
]

-- A C string of `n` characters stands at `s`.
pub record IsString (m : Memory) (s n : ℕ) : Type 0 where
  pub ends : m (s + n) ≡ nul
  pub text : (i : ℕ) → i < n → m (s + i) ≢ nul

strlen_loop_lem :
    (fuel : ℕ) (m : Memory) (s n len : ℕ)
    → IsString m s n
    → len ≤ n
    → n < len + fuel
    → strlen_loop fuel m s len ≡ some n
unfolding strlen_loop
strlen_loop_lem zero m s n len str le lt = absurd (omega arith)
strlen_loop_lem (suc fuel) m s n len str le lt = elim (ℕ_discrete len n) [
  | yes e ↦ let test : (m (s + len) == nul) ≡ true = rw (e, str.ends) refl in rw test (ap some e)
  | no ne ↦
      let more : m (s + len) ≢ nul = str.text len (omega arith) in
      let test : (m (s + len) == nul) ≡ false = ground arith in
      rw test (strlen_loop_lem fuel m s n (len + 1) str (omega arith) (omega arith))
]

-- With fuel above the length of the string, `strlen` returns, and answers the number of characters
-- before the NUL.
pub strlen_lem :
    (fuel : ℕ) (m : Memory) (s n : ℕ) → IsString m s n → n < fuel → strlen fuel m s ≡ some n
unfolding strlen
strlen_lem fuel m s n str lt = strlen_loop_lem fuel m s n 0 str (omega arith) (omega arith)

strnlen_loop_lem :
    (left : ℕ) (m : Memory) (s n i : ℕ)
    → IsString m s n
    → i ≤ n
    → strnlen_loop left m s i i ≡ (if leb n (i + left) then n else i + left)
unfolding strnlen_loop
strnlen_loop_lem zero m s n i str le = ground arith
strnlen_loop_lem (suc left) m s n i str le = elim (ℕ_discrete i n) [
  | yes e ↦ let test : (m (s + i) == nul) ≡ true = rw (e, str.ends) refl in rw test (ground arith)
  | no ne ↦
      let more : m (s + i) ≢ nul = str.text i (omega arith) in
      let test : (m (s + i) == nul) ≡ false = ground arith in
      rw test (ground (arith, strnlen_loop_lem left m s n (i + 1) str))
]

-- `strnlen` answers the length of the string, or the bound where that is smaller.
pub strnlen_lem :
    (m : Memory) (s n maxlen : ℕ)
    → IsString m s n
    → strnlen m s maxlen ≡ (if leb n maxlen then n else maxlen)
unfolding strnlen
strnlen_lem m s n maxlen str = ground (arith, strnlen_loop_lem maxlen m s n 0 str)
