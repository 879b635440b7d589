-- ===== src/Acpi/Rsdp.antt =====
-- kernel/apic/rsdp.c: the search for the root pointer, and its checksums. The log is left out. The
-- string that is compared with is a literal, whose address is an argument.
use horizon_os.Prelude.{
  ℕ, zero, suc, ◌+◌, ◌*◌, ◌%◌, ◌^◌, ◌<◌, ◌≡◌, subst, inl, inr, Bool, true, false, not, ◌&&◌, Option,
  none, some, arith, leb, ◌==◌, if◌then◌else◌, Bool-cases, ℕ_discrete,
}
use horizon_os.Prelude.Int.{ℤ, pos, negsuc}
use horizon_os.Cstring.{Memory, strncmp}
use horizon_os.Acpi.{read_u16, read_u32}

-- The loops over the bytes: `left` of them are still to be added.
unfoldable pub byte_sum : Memory → ℕ → ℕ → ℕ → ℕ
byte_sum m a zero sum = sum
byte_sum m a (suc left) sum = byte_sum m (a + 1) left ((sum + m a) % 2 ^ 8)

unfoldable pub validate_rsdp_checksum : Memory → ℕ → ℕ
unfolding byte_sum read_u32
validate_rsdp_checksum m rsdp =
    if rsdp == 0
    then 1
    else if not (byte_sum m rsdp 20 0 == 0)
    then 2
    else if leb 2 (m (rsdp + 15)) && not (byte_sum m rsdp (read_u32 m (rsdp + 20)) 0 == 0)
    then 3
    else 0

unfoldable pub strings_equal : ℤ → Bool
strings_equal (pos n) = n == 0
strings_equal (negsuc n) = false

-- The body of both loops.
unfoldable pub is_rsdp : Memory → ℕ → ℕ → Bool
unfolding strings_equal
is_rsdp m literal a = strings_equal (strncmp m a literal 8) && (validate_rsdp_checksum m a == 0)

-- A loop over boundaries of 16 bytes: `left` of them are still to be looked at, from `a` on.
unfoldable pub scan : Memory → ℕ → ℕ → ℕ → Option ℕ
unfolding is_rsdp
scan m literal a zero = none
scan m literal a (suc left) = elim (is_rsdp m literal a) [
  | true ↦ some a
  | false ↦ scan m literal (a + 16) left
]

abbrev pub ebda : Memory → ℕ
ebda m = read_u16 m 1038 * 16

unfoldable pub find_rsdp : Memory → ℕ → ℕ
unfolding scan
find_rsdp m literal = elim (scan m literal (ebda m) 64) [
  | some a ↦ a
  | none ↦ elim (scan m literal 917504 8192) [ some a ↦ a | none ↦ 0 ]
]

-- Whether the body of the loops accepts boundary `i` from `a` on.
abbrev pub accepts : Memory → ℕ → ℕ → ℕ → Bool
accepts m literal a i = is_rsdp m literal (a + 16 * i)

-- What a loop over `n` boundaries finds: the first that is accepted.
pub data Scanned (m : Memory) (literal a n : ℕ) : Option ℕ → Type 0 where
  first :
      (i : ℕ)
      → i < n
      → accepts m literal a i ≡ true
      → ((j : ℕ) → j < i → accepts m literal a j ≡ false)
      → Scanned m literal a n (some (a + 16 * i))
  missing : ((j : ℕ) → j < n → accepts m literal a j ≡ false) → Scanned m literal a n none

scan-Scanned :
    (m : Memory) (literal a left n k : ℕ)
    → k + left ≡ n
    → ((j : ℕ) → j < k → accepts m literal a j ≡ false)
    → Scanned m literal a n (scan m literal (a + 16 * k) left)
unfolding scan
scan-Scanned m literal a zero n k sum before = missing (λ j h. before j (omega arith))
scan-Scanned m literal a (suc left) n k sum before =
    elim (Bool-cases (is_rsdp m literal (a + 16 * k))) [
      | inl e ↦ rw (e, scan) (first k (omega arith) e before)
      | inr e ↦
          let next : a + 16 * k + 16 ≡ a + 16 * (k + 1) = omega arith in
          let passed : (j : ℕ) → j < k + 1 → accepts m literal a j ≡ false = λ j h.
            elim (ℕ_discrete j k) [ yes same ↦ rw same e | no ne ↦ before j (omega arith) ] in
          rw (e, scan, next) (scan-Scanned m literal a left n (k + 1) (omega arith) passed)
    ]

scan-all : (m : Memory) (literal a n : ℕ) → Scanned m literal a n (scan m literal a n)
scan-all m literal a n =
    subst (λ b. Scanned m literal a n (scan m literal b n)) (omega arith)
      (scan-Scanned m literal a n n 0 (omega arith) (λ j h. absurd (omega arith)))

-- The answers of the search, by where the root pointer is.
pub data Root (m : Memory) (literal : ℕ) : ℕ → Type 0 where
  in_ebda :
      (i : ℕ)
      → i < 64
      → accepts m literal (ebda m) i ≡ true
      → ((j : ℕ) → j < i → accepts m literal (ebda m) j ≡ false)
      → Root m literal (ebda m + 16 * i)
  in_bios :
      (i : ℕ)
      → ((j : ℕ) → j < 64 → accepts m literal (ebda m) j ≡ false)
      → i < 8192
      → accepts m literal 917504 i ≡ true
      → ((j : ℕ) → j < i → accepts m literal 917504 j ≡ false)
      → Root m literal (917504 + 16 * i)
  nowhere :
      ((j : ℕ) → j < 64 → accepts m literal (ebda m) j ≡ false)
      → ((j : ℕ) → j < 8192 → accepts m literal 917504 j ≡ false)
      → Root m literal 0

Root-of :
    (m : Memory) (literal : ℕ) {o p : Option ℕ}
    → Scanned m literal (ebda m) 64 o
    → Scanned m literal 917504 8192 p
    → Root m literal (elim o [ some a ↦ a | none ↦ elim p [ some a ↦ a | none ↦ 0 ] ])
Root-of m literal (first i h yes_i before) q = in_ebda i h yes_i before
Root-of m literal (missing all) (first i h yes_i before) = in_bios i all h yes_i before
Root-of m literal (missing all) (missing all') = nowhere all all'

-- Whatever memory holds, `find_rsdp` answers the first of the 64 boundaries of 16 bytes from the
-- EBDA's start on that has the signature and passes the checksums; where there is none, the first of
-- the 8192 boundaries from 0xE0000 on; and where there is none either, 0.
pub find_rsdp_lem : (m : Memory) (literal : ℕ) → Root m literal (find_rsdp m literal)
unfolding find_rsdp
find_rsdp_lem m literal =
    Root-of m literal (scan-all m literal (ebda m) 64) (scan-all m literal 917504 8192)
