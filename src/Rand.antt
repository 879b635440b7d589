-- ===== src/Rand.antt =====
-- The source of random numbers, libc/rand.c. An execution of `rdrand` gives a number or, with the
-- carry clear, nothing; its outcomes are a sequence, and the state counts the executions.
pub mod Stuck
mod Tests
use horizon_os.Prelude.{
  ℕ, zero, suc, ◌+◌, ◌*◌, ◌/◌, ◌%◌, ◌^◌, Bool, Option, none, some, List, [], ◌∷◌, ◌==◌, bit,
  if◌then◌else◌,
}
use Prim.Native.Nat.{bit_or, bit_xor}

pub record Rng : Type 0 where
  pub has_rdrand : Bool
  pub rng_state : ℕ
  pub executed : ℕ

-- The answer of `cpuid` in ECX, and the two halves of the time stamp counter.
unfoldable pub init_rand : ℕ → ℕ → ℕ → Rng → Rng
init_rand ecx lo hi r =
    let seed = bit_or (hi * 2 ^ 32) lo in
    if bit 30 ecx
    then record r { has_rdrand = bit 30 ecx }
    else record r { has_rdrand = bit 30 ecx; rng_state = (if seed == 0 then 1 else seed) }

unfoldable pub srand : ℕ → Rng → Rng
srand seed r = record r { rng_state = (if seed == 0 then 1 else seed) }

-- The three shifts of `xorshift64`, on 64 bits.
unfoldable pub shifted : ℕ → ℕ
shifted x =
    let x1 = bit_xor x (x * 2 ^ 13 % 2 ^ 64) in
    let x2 = bit_xor x1 (x1 / 2 ^ 7) in bit_xor x2 (x2 * 2 ^ 17 % 2 ^ 64)

unfoldable pub xorshift64 : Rng → ℕ × Rng
xorshift64 r = (shifted r.rng_state, record r { rng_state = shifted r.rng_state })

-- The loop of `rdrand64`, with the attempts that are left.
unfoldable pub attempts : ℕ → (ℕ → Option ℕ) → Rng → ℕ × Rng
attempts zero hw r = xorshift64 r
attempts (suc left) hw r =
    let next : Rng = record r { executed = r.executed + 1 } in
    elim (hw r.executed) [ none ↦ attempts left hw next | some value ↦ (value, next) ]

unfoldable pub rdrand64 : (ℕ → Option ℕ) → Rng → ℕ × Rng
rdrand64 hw r = attempts 10 hw r

unfoldable pub randul : (ℕ → Option ℕ) → Rng → ℕ × Rng
randul hw r = if r.has_rdrand then rdrand64 hw r else xorshift64 r

unfoldable pub randu : (ℕ → Option ℕ) → Rng → ℕ × Rng
randu hw r = let (x, r') = randul hw r in (x % 2 ^ 32, r')

-- The answers of `n` calls of `randul`.
abbrev pub randuls : ℕ → (ℕ → Option ℕ) → Rng → List ℕ
randuls zero hw r = []
randuls (suc n) hw r = (randul hw r).0 ∷ randuls n hw (randul hw r).1
