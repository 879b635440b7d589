-- ===== src/Cstring/Print.antt =====
-- The bytes that `itoa` and `itoa_hex` leave in memory.
use horizon_os.Prelude.{
  ℕ, ◌+◌, ◌^◌, ◌≤◌, ◌<◌, ◌≡◌, refl, ◌∙◌, false, some, List, [], ◌∷◌, ◌++◌, arith, length,
  length-append,
}
use horizon_os.Cstring.{Memory, nul, write, write_bytes, itoa, itoa_text, itoa_hex, hex_text}
use horizon_os.Cstring.Copy.{within}
use horizon_os.Cstring.Decimal.{decimal, decimal-itoa_text, length-itoa_text}
use horizon_os.Cstring.Hex.{hex_from, hex_from-hex_text, length-hex_text}
use horizon_os.Prelude.Int.{pos}

-- The bytes of `cs` stand from `a` on.
abbrev pub Stands : Memory → ℕ → List ℕ → Type 0
Stands m a [] = Unit {0}
Stands m a (c ∷ cs) = (m a ≡ c) × Stands m (a + 1) cs

Stands-write :
    (m : Memory) (a b v : ℕ) (cs : List ℕ) → b < a → Stands m a cs → Stands (write m b v) a cs
unfolding write
Stands-write m a b v [] h s = tt
Stands-write m a b v (c ∷ cs) h s =
    (ground (arith, s.0), Stands-write m (a + 1) b v cs (omega arith) s.1)

written : (m : Memory) (a v : ℕ) → write m a v a ≡ v
unfolding write
written m a v = ground arith

-- No write of `write_bytes` is below its start or past its end.
pub write_bytes_outside :
    (cs : List ℕ) (dest a : ℕ) (m : Memory)
    → within dest (length cs) a ≡ false
    → write_bytes dest cs m a ≡ m a
unfolding write_bytes write
write_bytes_outside [] dest a m h = refl
write_bytes_outside (c ∷ cs) dest a m h =
    ground (arith, write_bytes_outside cs (dest + 1) a (write m dest c))

pub Stands-write_bytes :
    (cs : List ℕ) (dest : ℕ) (m : Memory) → Stands (write_bytes dest cs m) dest cs
unfolding write_bytes
Stands-write_bytes [] dest m = tt
Stands-write_bytes (c ∷ cs) dest m =
    let first : write m dest c dest ≡ c = written m dest c in
    let kept = write_bytes_outside cs (dest + 1) dest (write m dest c) (ground arith) in
    (kept ∙ first, Stands-write_bytes cs (dest + 1) (write m dest c))

-- For a number below 2^31, `itoa` writes a decimal text of the number with a NUL behind it, twelve
-- bytes at most, and no byte outside those twelve.
pub itoa_lem :
    (dest n : ℕ) (m : Memory)
    → n < 2 ^ 31
    → (cs : List ℕ) × (decimal cs ≡ some n)
      × (length (cs ++ nul ∷ []) ≤ 12)
      × Stands (itoa dest (pos n) m) dest (cs ++ nul ∷ [])
      × ((a : ℕ) → within dest 12 a ≡ false → itoa dest (pos n) m a ≡ m a)
unfolding itoa
itoa_lem dest n m h =
    let cs = itoa_text (pos n) in
    let fits : length (cs ++ nul ∷ []) ≤ 12 =
      omega (arith, length-append cs (nul ∷ []), length-itoa_text n h) in
    (
      cs,
      decimal-itoa_text n h,
      fits,
      Stands-write_bytes (cs ++ nul ∷ []) dest m,
      λ a out. write_bytes_outside (cs ++ nul ∷ []) dest a m (ground (arith, fits)),
    )

-- For a number below 2^32, `itoa_hex` writes a hexadecimal text of the number with a NUL behind it,
-- nine bytes at most, and no byte outside those nine.
pub itoa_hex_lem :
    (dest n : ℕ) (m : Memory)
    → n < 2 ^ 32
    → (cs : List ℕ) × (hex_from 0 cs ≡ some n)
      × (length (cs ++ nul ∷ []) ≤ 9)
      × Stands (itoa_hex dest n m) dest (cs ++ nul ∷ [])
      × ((a : ℕ) → within dest 9 a ≡ false → itoa_hex dest n m a ≡ m a)
unfolding itoa_hex
itoa_hex_lem dest n m h =
    let cs = hex_text n in
    let fits : length (cs ++ nul ∷ []) ≤ 9 =
      omega (arith, length-append cs (nul ∷ []), length-hex_text n) in
    (
      cs,
      hex_from-hex_text n h,
      fits,
      Stands-write_bytes (cs ++ nul ∷ []) dest m,
      λ a out. write_bytes_outside (cs ++ nul ∷ []) dest a m (ground (arith, fits)),
    )
