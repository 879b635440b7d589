-- ===== src/Frames.antt =====
-- The allocator of physical frames of i386, arch/i386/memory/paging.c: one bit for each frame, in
-- words of 32. `frames` is the memory from that pointer on, by words, so that a write behind the array
-- shows. A page is its entry in the table, a 32-bit word.
pub mod First
pub mod Alloc
pub mod Freed
pub mod Owned
pub mod Pages
pub mod Mapped
mod Tests
use horizon_os.Prelude.{
  ℕ, zero, suc, ◌+◌, ◌*◌, ◌/◌, ◌%◌, ◌^◌, ◌-◌, Bool, Option, none, some, List, [], ◌∷◌, bit, ◌==◌,
  not, if◌then◌else◌,
}
use horizon_os.Prelude.Bits.{set_bit, clear_bit}

pub record Frames : Type 0 where
  pub frames : ℕ → ℕ
  pub nframes : ℕ

abbrev pub bitset_index : ℕ → ℕ
bitset_index a = a / (8 * 4)

abbrev pub bitset_offset : ℕ → ℕ
bitset_offset a = a % (8 * 4)

-- `frames[idx] = word`
abbrev pub write_word : ℕ → ℕ → (ℕ → ℕ) → ℕ → ℕ
write_word idx word frames i = if i == idx then word else frames i

unfoldable pub set_frame : ℕ → Frames → Frames
set_frame frame_addr m =
    let frame = frame_addr / 0x1000 in
    let idx = bitset_index frame in
    record m { frames = write_word idx (set_bit (bitset_offset frame) (m.frames idx)) m.frames }

unfoldable pub clear_frame : ℕ → Frames → Frames
clear_frame frame_addr m =
    let frame = frame_addr / 0x1000 in
    let idx = bitset_index frame in
    record m { frames = write_word idx (clear_bit (bitset_offset frame) (m.frames idx)) m.frames }

unfoldable pub test_frame : ℕ → Frames → Bool
test_frame frame_addr m =
    let frame = frame_addr / 0x1000 in bit (bitset_offset frame) (m.frames (bitset_index frame))

-- The inner loop of `first_frame`, from bit `j` on, with the bits that are left.
unfoldable pub free_bit : ℕ → ℕ → ℕ → Option ℕ
free_bit zero j word = none
free_bit (suc left) j word =
    let rest = free_bit left (j + 1) word in if not (bit j word) then some j else rest

abbrev pub no_frame : ℕ
no_frame = 2 ^ 32 - 1

-- The outer loop, from word `i` on.
unfoldable pub first_free_from : ℕ → ℕ → (ℕ → ℕ) → ℕ
first_free_from zero i frames = no_frame
first_free_from (suc left) i frames =
    let rest = first_free_from left (i + 1) frames in
    if frames i == 0xFFFFFFFF
    then rest
    else elim (free_bit 32 0 (frames i)) [ none ↦ rest | some j ↦ i * 32 + j ]

unfoldable pub first_frame : Frames → ℕ
first_frame m = first_free_from (bitset_index m.nframes) 0 m.frames

-- The frame of an entry, and an entry with another frame.
abbrev pub pte_get_frame : ℕ → ℕ
pte_get_frame pte = pte / 2 ^ 12 % 2 ^ 20

abbrev pub pte_set_frame : ℕ → ℕ → ℕ
pte_set_frame frame pte = pte % 2 ^ 12 + frame % 2 ^ 20 * 2 ^ 12

abbrev pub pte_present : ℕ
pte_present = 0

abbrev pub pte_read_write : ℕ
pte_read_write = 1

abbrev pub pte_user_supervisor : ℕ
pte_user_supervisor = 2

abbrev pub set_if : Bool → ℕ → ℕ → ℕ
set_if wanted n pte = if wanted then set_bit n pte else pte

-- `none`: no frame is free, and the code halts.
unfoldable pub alloc_frame : Bool → Bool → ℕ → Frames → Option (ℕ × Frames)
alloc_frame iskernel writeable pte m =
    let idx = first_frame m in
    if not (pte_get_frame pte == 0)
    then some (pte, m)
    else if idx == no_frame
    then none
    else let flagged =
        set_if (not iskernel) pte_user_supervisor
          (set_if writeable pte_read_write (set_bit pte_present pte)) in
      some (pte_set_frame idx flagged, set_frame (idx * 0x1000 % 2 ^ 32) m)

unfoldable pub free_frame : ℕ → Frames → ℕ × Frames
free_frame pte m =
    let frame = pte_get_frame pte in
    if frame == 0 then (pte, m) else (0, clear_frame (frame * 0x1000 % 2 ^ 32) m)
