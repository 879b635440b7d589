-- ===== src/Cstring/Copy.antt =====
-- What `memcpy`, `memmove` and `memset` leave in memory.
use horizon_os.Prelude.{
  ℕ, zero, suc, ◌+◌, ◌-◌, ◌%◌, ◌≤◌, ◌≡◌, ◌⊎◌, inl, dec_lt, Bool, true, false, ◌&&◌, arith, ltb, leb,
  if◌then◌else◌,
}
use horizon_os.Cstring.{Memory, write, copy_up, copy_down, memcpy, memmove, memset, memset_loop}

abbrev pub within : ℕ → ℕ → ℕ → Bool
within start size a = leb start a && ltb a (start + size)

-- A copy upwards is right where the destination starts below the source, or past its end.
copy_up_lem :
    (size dst src : ℕ) (m : Memory) (a : ℕ)
    → (dst ≤ src) ⊎ (src + size ≤ dst)
    → copy_up dst src size m a ≡ (if within dst size a then m (src + (a - dst)) else m a)
unfolding copy_up write
copy_up_lem zero dst src m a h = ground arith
copy_up_lem (suc size) dst src m a h =
    ground (arith, copy_up_lem size (dst + 1) (src + 1) (write m dst (m src)) a)

copy_down_lem :
    (size dst src : ℕ) (m : Memory) (a : ℕ)
    → src ≤ dst
    → copy_down dst src size m a ≡ (if within dst size a then m (src + (a - dst)) else m a)
unfolding copy_down write
copy_down_lem zero dst src m a h = ground arith
copy_down_lem (suc size) dst src m a h =
    ground (arith, copy_down_lem size dst src (write m (dst + size) (m (src + size))) a)

memset_loop_lem :
    (size buf value : ℕ) (m : Memory) (a : ℕ)
    → memset_loop buf value size m a ≡ (if within buf size a then value % 256 else m a)
unfolding memset_loop write
memset_loop_lem zero buf value m a = ground arith
memset_loop_lem (suc size) buf value m a =
    ground (arith, memset_loop_lem size (buf + 1) value (write m buf (value % 256)) a)

-- `memcpy` copies the bytes in order where the two ranges are apart, and also where the destination
-- starts below the source; it changes no byte outside the destination.
pub memcpy_lem :
    (dst src size : ℕ) (m : Memory) (a : ℕ)
    → (dst ≤ src) ⊎ (src + size ≤ dst)
    → (memcpy dst src size m).1 a ≡ (if within dst size a then m (src + (a - dst)) else m a)
unfolding memcpy
memcpy_lem dst src size m a h = copy_up_lem size dst src m a h

-- `memmove` copies the bytes as they were before the call, however the two ranges overlap, and
-- changes no byte outside the destination.
pub memmove_lem :
    (dst src size : ℕ) (m : Memory) (a : ℕ)
    → (memmove dst src size m).1 a ≡ (if within dst size a then m (src + (a - dst)) else m a)
unfolding memmove
memmove_lem dst src size m a = elim (dec_lt dst src) [
  | yes below ↦
      let test : ltb dst src ≡ true = ground arith in
      rw test (copy_up_lem size dst src m a (inl (omega arith)))
  | no above ↦
      let test : ltb dst src ≡ false = ground arith in
      rw test (copy_down_lem size dst src m a (omega arith))
]

-- `memset` stores the lowest byte of its argument in each byte of the range, and nowhere else.
pub memset_lem :
    (buf value size : ℕ) (m : Memory) (a : ℕ)
    → (memset buf value size m).1 a ≡ (if within buf size a then value % 256 else m a)
unfolding memset
memset_lem buf value size m a = memset_loop_lem size buf value m a
