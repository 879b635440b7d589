-- ===== src/Cstring.antt =====
-- The functions of libc/string/string.c. Memory is a function from addresses to bytes; a C string
-- is read as the bytes from an address on. A signed `char` is its bit pattern, below 256.
pub mod Copy
pub mod Compare
pub mod Order
pub mod Decimal
pub mod Hex
pub mod Print
mod Tests
use mathlib.Core.List.{reverse}
use horizon_os.Prelude.{
  ℕ, zero, suc, ◌+◌, ◌-◌, ◌*◌, ◌/◌, ◌%◌, Bool, true, false, Option, none, some, List, [], ◌∷◌, ◌++◌,
  map, ltb, leb, ◌==◌, ◌||◌, if◌then◌else◌,
}
use horizon_os.Prelude.Int.{ℤ, pos, negsuc, ◌-ℤ◌}

abbrev pub Memory : Type 0
Memory = ℕ → ℕ

-- The write of one byte.
unfoldable pub write : Memory → ℕ → ℕ → Memory
write m a v b = if b == a then v else m b

abbrev pub nul : ℕ
nul = 0

-- The loop of `memcmp`: `size` bytes are left.
unfoldable pub memcmp : Memory → ℕ → ℕ → ℕ → ℤ
memcmp m a b zero = pos 0
memcmp m a b (suc size) =
    let rest = memcmp m (a + 1) (b + 1) size in
    if ltb (m a) (m b) then negsuc 0 else if ltb (m b) (m a) then pos 1 else rest

-- The ascending loop of `memcpy` and `memmove`.
unfoldable pub copy_up : ℕ → ℕ → ℕ → Memory → Memory
copy_up dst src zero m = m
copy_up dst src (suc size) m = copy_up (dst + 1) (src + 1) size (write m dst (m src))

unfoldable pub memcpy : ℕ → ℕ → ℕ → Memory → ℕ × Memory
memcpy dst src size m = (dst, copy_up dst src size m)

-- The descending loop of `memmove`, from index `i`.
unfoldable pub copy_down : ℕ → ℕ → ℕ → Memory → Memory
copy_down dst src zero m = m
copy_down dst src (suc i) m = copy_down dst src i (write m (dst + i) (m (src + i)))

unfoldable pub memmove : ℕ → ℕ → ℕ → Memory → ℕ × Memory
memmove dst src size m =
    (dst, if ltb dst src then copy_up dst src size m else copy_down dst src size m)

unfoldable pub memset_loop : ℕ → ℕ → ℕ → Memory → Memory
memset_loop buf value zero m = m
memset_loop buf value (suc size) m = memset_loop (buf + 1) value size (write m buf (value % 256))

-- The argument `value` is its bit pattern, and `(unsigned char)value` the lowest byte.
unfoldable pub memset : ℕ → ℕ → ℕ → Memory → ℕ × Memory
memset buf value size m = (buf, memset_loop buf value size m)

-- `strlen` runs until it meets a NUL; `none`: none was met within the fuel.
unfoldable pub strlen_loop : ℕ → Memory → ℕ → ℕ → Option ℕ
strlen_loop zero m str len = none
strlen_loop (suc fuel) m str len =
    let rest = strlen_loop fuel m str (len + 1) in if m (str + len) == nul then some len else rest

unfoldable pub strlen : ℕ → Memory → ℕ → Option ℕ
strlen fuel m str = strlen_loop fuel m str 0

unfoldable pub strnlen_loop : ℕ → Memory → ℕ → ℕ → ℕ → ℕ
strnlen_loop zero m str i len = len
strnlen_loop (suc left) m str i len =
    let rest = strnlen_loop left m str (i + 1) (len + 1) in if m (str + i) == nul then len else rest

unfoldable pub strnlen : Memory → ℕ → ℕ → ℕ
strnlen m str maxlen = strnlen_loop maxlen m str 0 0

-- The value of a `char`, which is signed on this target.
unfoldable pub char_value : ℕ → ℤ
char_value c = if ltb c 128 then pos c else negsuc (255 - c)

-- The body that `strncmp` and `strcmp` share: an answer, or on to the next byte.
unfoldable pub compare_at : ℕ → ℕ → Option ℤ
compare_at c d =
    if (c == nul) || (d == nul)
    then some (char_value c -ℤ char_value d)
    else if c == d
    then none
    else some (char_value c -ℤ char_value d)

unfoldable pub strncmp : Memory → ℕ → ℕ → ℕ → ℤ
strncmp m s t zero = pos 0
strncmp m s t (suc n) = elim (compare_at (m s) (m t)) [
  | some r ↦ r
  | none ↦ strncmp m (s + 1) (t + 1) n
]

abbrev pub max_strcmp_comparisons : ℕ
max_strcmp_comparisons = 1000

-- `none`: the panic after the loop.
unfoldable pub strcmp_loop : ℕ → Memory → ℕ → ℕ → Option ℤ
strcmp_loop zero m s t = none
strcmp_loop (suc n) m s t = elim (compare_at (m s) (m t)) [
  | some r ↦ some r
  | none ↦ strcmp_loop n m (s + 1) (t + 1)
]

unfoldable pub strcmp : Memory → ℕ → ℕ → Option ℤ
strcmp m s t = strcmp_loop max_strcmp_comparisons m s t

-- `num % 10` and `num / 10` of a C `int`: both round towards zero.
unfoldable pub digit_of : ℤ → ℤ
digit_of (pos n) = pos (n % 10)
digit_of (negsuc n) = pos 0 -ℤ pos (suc n % 10)

unfoldable pub tenth_of : ℤ → ℤ
tenth_of (pos n) = pos (n / 10)
tenth_of (negsuc n) = pos 0 -ℤ pos (suc n / 10)

unfoldable pub is_zero : ℤ → Bool
is_zero (pos n) = n == 0
is_zero (negsuc n) = false

-- `(char)(d + '0')`, as a byte.
unfoldable pub to_char : ℤ → ℕ
to_char (pos d) = (d + b'0') % 256
to_char (negsuc d) = (256 + b'0' - suc d) % 256

-- The first loop of `itoa`, the lowest digit first. A loop that ends without its `break` leaves
-- `i` at 11, and the cell of that index holds 0.
unfoldable pub itoa_stack : ℕ → ℤ → List ℤ
itoa_stack zero num = pos 0 ∷ []
itoa_stack (suc left) num =
    let rest = itoa_stack left (tenth_of num) in
    digit_of num ∷ (if is_zero (tenth_of num) then [] else rest)

unfoldable pub write_bytes : ℕ → List ℕ → Memory → Memory
write_bytes dest [] m = m
write_bytes dest (c ∷ cs) m = write_bytes (dest + 1) cs (write m dest c)

-- The bytes that the second loop writes: the stack from its end.
unfoldable pub itoa_text : ℤ → List ℕ
itoa_text num = reverse (map to_char (itoa_stack 11 num))

unfoldable pub itoa : ℕ → ℤ → Memory → Memory
itoa dest num m = write_bytes dest (itoa_text num ++ nul ∷ []) m

unfoldable pub hex_char : ℕ → ℕ
hex_char digit = if ltb digit 10 then digit + b'0' else digit - 10 + b'a'

-- The first loop of `itoa_hex`: while a digit is left, and eight at most.
unfoldable pub hex_stack : ℕ → ℕ → List ℕ
hex_stack zero num = []
hex_stack (suc left) num =
    let rest = hex_char (num % 16) ∷ hex_stack left (num / 16) in if ltb 0 num then rest else []

unfoldable pub hex_text : ℕ → List ℕ
hex_text num = if num == 0 then b'0' ∷ [] else reverse (hex_stack 8 num)

unfoldable pub itoa_hex : ℕ → ℕ → Memory → Memory
itoa_hex dest num m = write_bytes dest (hex_text num ++ nul ∷ []) m
