-- ===== src/Audio.antt =====
-- The stream of sound in drivers/ac97.c: the ring of buffer descriptors, and the interrupt that refills
-- it. `sent` are the writes to the registers of the channel, by offset, the newest first. The wait for
-- the channel's halt, log output and the end of the interrupt are left out; `none` means that the code
-- stops the processor.
pub mod Chunks
pub mod Stream
pub mod Finish
pub mod Ending
mod Tests
use horizon_os.Prelude.{
  ℕ, zero, suc, ◌+◌, ◌-◌, ◌*◌, ◌/◌, ◌%◌, ◌^◌, Bool, not, ◌&&◌, ◌||◌, Option, none, some, List, [],
  ◌∷◌, bit, ltb, leb, ◌==◌, if◌then◌else◌,
}

pub record BdlEntry : Type 0 where
  pub buffer_addr_phys : ℕ
  pub num_samples : ℕ
  pub flags : ℕ

pub record Audio : Type 0 where
  pub ring_buffer : ℕ → BdlEntry
  pub last_valid_index : ℕ
  pub bdl_entries_filled : ℕ
  pub audio_cur_pos : ℕ
  pub audio_data_end : ℕ
  pub sent : List (ℕ × ℕ)

abbrev pub num_bdl_entries : ℕ
num_bdl_entries = 32

abbrev pub max_samples_per_entry : ℕ
max_samples_per_entry = 0xFFE

unfoldable pub samples_in_chunk : ℕ → ℕ → ℕ
samples_in_chunk start end =
    let remaining = (end + 2 ^ 64 - start) % 2 ^ 32 in
    let samples = remaining / 2 % 2 ^ 16 in
    if leb (max_samples_per_entry * 2) remaining
    then max_samples_per_entry
    else samples - samples % 2

-- A descriptor that interrupts when it is complete.
abbrev pub bdl_entry : ℕ → ℕ → BdlEntry
bdl_entry start samples = record {
  buffer_addr_phys = start % 2 ^ 32;
  num_samples = samples;
  flags = 2 ^ 15;
}

abbrev pub set_slot : ℕ → BdlEntry → (ℕ → BdlEntry) → ℕ → BdlEntry
set_slot slot e ring i = if i == slot then e else ring i

-- The loop that fills the ring, from slot `i` on: the slots filled, the next position, the ring.
unfoldable pub fill_ring : ℕ → ℕ → ℕ → ℕ → (ℕ → BdlEntry) → ℕ × ℕ × (ℕ → BdlEntry)
fill_ring zero i start end ring = (i, start, ring)
fill_ring (suc left) i start end ring =
    let samples = samples_in_chunk start end in
    let rest =
      fill_ring left (i + 1) (start + samples * 2) end
        (set_slot i (bdl_entry start samples) ring) in
    if not (ltb start end) || (samples == 0) then (i, start, ring) else rest

abbrev pub channel_control : ℕ
channel_control = 0x0B

abbrev pub channel_status : ℕ
channel_status = 0x06

unfoldable pub ac97_setup_bdl : ℕ → ℕ → Audio → Option Audio
ac97_setup_bdl audio_start audio_end a =
    let (filled, next, ring) = fill_ring num_bdl_entries 0 audio_start audio_end a.ring_buffer in
    if ltb 0xFFFFFFFF audio_start || ltb 0xFFFFFFFF audio_end
    then none
    else some (record {
      ring_buffer = ring;
      last_valid_index = a.last_valid_index;
      bdl_entries_filled = filled;
      audio_cur_pos = next;
      audio_data_end = audio_end;
      sent = (channel_status, 0x1E) ∷ (channel_control, 2) ∷ a.sent;
    })

-- The physical address of the ring, and the control register as it is read.
unfoldable pub ac97_start_playback : ℕ → ℕ → Audio → Audio
ac97_start_playback bdl_phys control a = if a.bdl_entries_filled == 0 then a else record a {
  last_valid_index = a.bdl_entries_filled - 1;
  sent =
      (channel_control, if bit 0 control then control else control + 1)
      ∷ (0x05, a.bdl_entries_filled - 1)
      ∷ (0x00, bdl_phys % 2 ^ 32)
      ∷ a.sent;
}

unfoldable pub ac97_play : ℕ → ℕ → ℕ → ℕ → Audio → Option Audio
ac97_play bdl_phys control start end a =
    if leb end start then some a else elim (ac97_setup_bdl start end a) [
      | none ↦ none
      | some a' ↦ some (ac97_start_playback bdl_phys control a')
    ]

-- The next slot of the ring gets the next part of the clip.
unfoldable pub refill : Audio → Audio
refill a =
    let next_slot = (a.last_valid_index + 1) % num_bdl_entries in
    let samples = samples_in_chunk a.audio_cur_pos a.audio_data_end in
    record a {
      ring_buffer = set_slot next_slot (bdl_entry a.audio_cur_pos samples) a.ring_buffer;
      audio_cur_pos = a.audio_cur_pos + samples * 2;
      last_valid_index = next_slot;
      sent = (0x05, next_slot) ∷ a.sent;
    }

-- The status register as the handler reads it: bit 3 says that a buffer is complete, bit 4 that the
-- FIFO failed.
unfoldable pub ac97_irq_handler : ℕ → Audio → Option Audio
ac97_irq_handler status a =
    let acknowledged : Audio = record a { sent = (channel_status, status) ∷ a.sent } in
    if bit 4 status
    then none
    else if not (bit 3 status)
    then some acknowledged
    else if leb a.audio_data_end a.audio_cur_pos
    then some acknowledged
    else some (refill acknowledged)

-- The interrupts with these statuses, in order.
abbrev pub interrupts : List ℕ → Audio → Option Audio
interrupts [] a = some a
interrupts (status ∷ rest) a = elim (ac97_irq_handler status a) [
  | none ↦ none
  | some a' ↦ interrupts rest a'
]
