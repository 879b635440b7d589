-- ===== src/Cstring/Tests.antt =====
-- The string functions on small memories.
use horizon_os.Prelude.{
  ℕ, zero, suc, ◌+◌, ◌<◌, ◌≡◌, ◌≢◌, refl, List, [], ◌∷◌, arith, ltb, if◌then◌else◌, get_or,
}
use horizon_os.Cstring.{Memory, memmove, memset, nul}
use horizon_os.Cstring.Copy.{memmove_lem, memset_lem}
use horizon_os.Cstring.Compare.{IsString}
use horizon_os.Cstring.Order.{Bytes}

-- "ab" at 0, "ac" at 3, and NULs.
abbrev cells : List ℕ
cells = 97 ∷ 98 ∷ 0 ∷ 97 ∷ 99 ∷ 0 ∷ []

abbrev memory : Memory
memory a = get_or cells a 0

memory-Bytes : Bytes memory
memory-Bytes zero = omega arith
memory-Bytes (suc zero) = omega arith
memory-Bytes (suc (suc zero)) = omega arith
memory-Bytes (suc (suc (suc zero))) = omega arith
memory-Bytes (suc (suc (suc (suc zero)))) = omega arith
memory-Bytes (suc (suc (suc (suc (suc zero))))) = omega arith
memory-Bytes (suc (suc (suc (suc (suc (suc a)))))) = omega arith

ab : IsString memory 0 2
ab = record { ends = refl; text = letters }
  where
    letters : (i : ℕ) → i < 2 → memory (0 + i) ≢ nul
    letters zero h e = ground arith
    letters (suc zero) h e = ground arith
    letters (suc (suc i)) h e = ground arith

ac : IsString memory 3 2
ac = record { ends = refl; text = letters }
  where
    letters : (i : ℕ) → i < 2 → memory (3 + i) ≢ nul
    letters zero h e = ground arith
    letters (suc zero) h e = ground arith
    letters (suc (suc i)) h e = ground arith

-- The two ranges overlap.
memmove_lem_example : (memmove 1 0 3 memory).1 3 ≡ 0
memmove_lem_example = memmove_lem 1 0 3 memory 3

memset_lem_example : (memset 1 300 2 memory).1 2 ≡ 44
memset_lem_example = memset_lem 1 300 2 memory 2

-- 1000 letters with a NUL behind them.
abbrev long : Memory
long a = if ltb a 1000 then 97 else 0

long-IsString : IsString long 0 1000
long-IsString = record { ends = refl; text = λ i h. ground arith }
