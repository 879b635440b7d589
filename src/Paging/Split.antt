-- ===== src/Paging/Split.antt =====
-- A huge page that is split keeps its translation.
use horizon_os.Prelude.{
  ℕ, zero, suc, ◌+◌, ◌-◌, ◌*◌, ◌/◌, ◌%◌, ◌^◌, ◌<◌, ◌≡◌, ◌⊎◌, inl, inr, sym, ap, true, false, arith,
  ◌==◌, if◌then◌else◌, ℕ_discrete,
}
use horizon_os.Kheap.{page_size}
use horizon_os.Paging.{
  Tables, clear_bit, page_ps, page_get_addr, read, write, new_table, fill_split, huge_flags,
  huge_base, split_huge_entry,
}

-- The loop writes the entries below `n`, each once, and nothing else.
fill_split_lem :
    (n base step flags table i : ℕ) (t : Tables)
    → i < n
    → read (fill_split base step flags table n t) (table + 8 * i) ≡ base + i * step + flags
unfolding fill_split read write
fill_split_lem zero base step flags table i t h = absurd (omega arith)
fill_split_lem (suc n) base step flags table i t h = elim (ℕ_discrete i n) [
  | yes e ↦
      let test : (table + 8 * i == table + 8 * n) ≡ true = ground (arith, e) in
      rw test (ap (λ k. base + k * step + flags) (sym e))
  | no ne ↦
      let test : (table + 8 * i == table + 8 * n) ≡ false = ground arith in
      rw test (fill_split_lem n base step flags table i t (omega arith))
]

-- The first address of the frame of an entry that maps `size` bytes.
abbrev pub frame_of : ℕ → ℕ → ℕ
frame_of entry size = page_get_addr entry - page_get_addr entry % size

-- The bits of an entry that are not its frame.
abbrev pub flags_of : ℕ → ℕ
flags_of entry = entry - page_get_addr entry

-- A frame and flags whose bits lie apart come back out of their sum.
page_get_addr_sum :
    (base flags : ℕ)
    → base % 4096 ≡ 0
    → base < 2 ^ 52
    → flags % 2 ^ 52 < 4096
    → page_get_addr (base + flags) ≡ base
unfolding page_get_addr
page_get_addr_sum base flags aligned low apart = omega arith

flags_apart : (entry : ℕ) → flags_of entry % 2 ^ 52 < 4096
unfolding page_get_addr
flags_apart entry = omega arith

cleared_apart : (flags : ℕ) → flags % 2 ^ 52 < 4096 → clear_bit page_ps flags % 2 ^ 52 < 4096
cleared_apart flags h = ground arith

huge_flags_apart : (huge step : ℕ) → huge_flags huge step % 2 ^ 52 < 4096
unfolding huge_flags
huge_flags_apart huge step =
    ground (arith, flags_apart huge, cleared_apart (flags_of huge) (flags_apart huge))

base_4k : (huge i : ℕ) → i < 512 → (huge_base huge 4096 + i * 4096) % 4096 ≡ 0
unfolding huge_base page_get_addr
base_4k huge i h = omega arith

low_4k : (huge i : ℕ) → i < 512 → huge_base huge 4096 + i * 4096 < 2 ^ 52
unfolding huge_base page_get_addr
low_4k huge i h = omega arith

base_2m : (huge i : ℕ) → i < 512 → (huge_base huge (2 ^ 21) + i * 2 ^ 21) % 2 ^ 21 ≡ 0
unfolding huge_base page_get_addr
base_2m huge i h = omega arith

low_2m : (huge i : ℕ) → i < 512 → huge_base huge (2 ^ 21) + i * 2 ^ 21 < 2 ^ 52
unfolding huge_base page_get_addr
low_2m huge i h = omega arith

-- The entry at index `i` of a split huge page.
abbrev pub split_entry : ℕ → ℕ → ℕ → ℕ
split_entry huge step i = huge_base huge step + i * step + huge_flags huge step

small_frame :
    (huge o : ℕ)
    → o < 4096 * 512
    → frame_of (split_entry huge 4096 (o / 4096)) 4096 + o % 4096 ≡ frame_of huge (4096 * 512) + o
unfolding huge_base
small_frame huge o h =
    let low : o / 4096 < 512 = omega arith in
    let e =
      page_get_addr_sum (huge_base huge 4096 + o / 4096 * 4096) (huge_flags huge 4096)
        (base_4k huge (o / 4096) low) (low_4k huge (o / 4096) low) (huge_flags_apart huge 4096) in
    rw e (omega (arith, base_4k huge (o / 4096) low))

large_frame :
    (huge o : ℕ)
    → o < 2 ^ 21 * 512
    → frame_of (split_entry huge (2 ^ 21) (o / 2 ^ 21)) (2 ^ 21) + o % 2 ^ 21
      ≡ frame_of huge (2 ^ 21 * 512) + o
unfolding huge_base
large_frame huge o h =
    let low : o / 2 ^ 21 < 512 = omega arith in
    let aligned = base_2m huge (o / 2 ^ 21) low in
    let e =
      page_get_addr_sum (huge_base huge (2 ^ 21) + o / 2 ^ 21 * 2 ^ 21) (huge_flags huge (2 ^ 21))
        (omega arith) (low_2m huge (o / 2 ^ 21) low) (huge_flags_apart huge (2 ^ 21)) in
    rw e (omega arith)

flags_sum : (base flags : ℕ) → page_get_addr (base + flags) ≡ base → flags_of (base + flags) ≡ flags
flags_sum base flags e = rw e (omega arith)

-- For a page of 1 GiB or of 2 MiB that is split: every address in it has, through the new table,
-- the translation that it had: the frame of its entry there and the offset in it give the same
-- physical address. The entry has the huge page's flags, less, at the lowest level, the bit that
-- marks a huge page.
pub split-frame_of :
    (huge step o : ℕ) (t : Tables)
    → (step ≡ page_size) ⊎ (step ≡ 2 ^ 21)
    → o < step * 512
    → let e = read (split_huge_entry huge step t).1 ((new_table t).0 + 8 * (o / step)) in
      (frame_of e step + o % step ≡ frame_of huge (step * 512) + o)
      × (flags_of e
          ≡ (if step == page_size then clear_bit page_ps (flags_of huge) else flags_of huge))
unfolding split_huge_entry huge_flags
split-frame_of huge step o t (inl small) h =
    let low : o / 4096 < 512 = omega arith in
    let (table, t₁) = new_table t in
    rw
      (
        small,
        fill_split_lem 512 (huge_base huge 4096) 4096 (huge_flags huge 4096) table (o / 4096) t₁
            low,
      )
      (
        small_frame huge o (omega (arith, small)),
        flags_sum (huge_base huge 4096 + o / 4096 * 4096) (huge_flags huge 4096) (
            page_get_addr_sum (huge_base huge 4096 + o / 4096 * 4096) (huge_flags huge 4096)
              (base_4k huge (o / 4096) low) (low_4k huge (o / 4096) low)
              (huge_flags_apart huge 4096)),
      )
split-frame_of huge step o t (inr large) h =
    let low : o / 2 ^ 21 < 512 = omega arith in
    let (table, t₁) = new_table t in
    rw
      (
        large,
        fill_split_lem 512 (huge_base huge (2 ^ 21)) (2 ^ 21) (huge_flags huge (2 ^ 21)) table
            (o / 2 ^ 21) t₁ low,
      )
      (
        large_frame huge o (omega (arith, large)),
        flags_sum (huge_base huge (2 ^ 21) + o / 2 ^ 21 * 2 ^ 21) (huge_flags huge (2 ^ 21)) (
            page_get_addr_sum (huge_base huge (2 ^ 21) + o / 2 ^ 21 * 2 ^ 21)
              (huge_flags huge (2 ^ 21)) (omega (arith, base_2m huge (o / 2 ^ 21) low))
              (low_2m huge (o / 2 ^ 21) low) (huge_flags_apart huge (2 ^ 21))),
      )
