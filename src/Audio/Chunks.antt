-- ===== src/Audio/Chunks.antt =====
-- The parts in which drivers/ac97.c queues a clip.
use horizon_os.Prelude.{
  ℕ, zero, suc, ◌+◌, ◌-◌, ◌*◌, ◌%◌, ◌^◌, ◌<◌, ◌≤◌, ◌≡◌, ◌⊎◌, refl, arith, leb, Bool-cases, inl, inr,
}
use horizon_os.Audio.{BdlEntry, samples_in_chunk, bdl_entry}

-- What the next part of a clip is: an even number of samples, no more than an entry takes, none past
-- the end; and it is a full entry, or all but less than a frame of what is left.
pub record Chunk (start end n : ℕ) : Type 0 where
  pub even : n % 2 ≡ 0
  pub fits : n ≤ 4094
  pub inside : start + n * 2 ≤ end
  pub full_or_last : (n ≡ 4094) ⊎ (end < start + n * 2 + 4)

pub samples-Chunk :
    (start end : ℕ) → start ≤ end → end < 2 ^ 32 → Chunk start end (samples_in_chunk start end)
unfolding samples_in_chunk
samples-Chunk start end h small =
    let left : (end + 2 ^ 64 - start) % 2 ^ 32 ≡ end - start = omega (arith, h, small) in
    elim (Bool-cases (leb 8188 (end - start))) [
      | inl full ↦
          rw (left, full)
            (record {
              even = omega arith;
              fits = omega arith;
              inside = ground arith;
              full_or_last = inl refl;
            })
      | inr last ↦
          rw (left, last)
            (record {
              even = ground arith;
              fits = ground arith;
              inside = ground arith;
              full_or_last = inr (ground arith);
            })
    ]

-- Where the part after `n` parts of a clip starts.
unfoldable pub position : ℕ → ℕ → ℕ → ℕ
position start end zero = start
position start end (suc n) = let here = position start end n in here + samples_in_chunk here end * 2

pub position_inside :
    (start end n : ℕ)
    → start ≤ end
    → end < 2 ^ 32
    → (start ≤ position start end n) × (position start end n ≤ end)
unfolding position
position_inside start end zero h small = (omega arith, h)
position_inside start end (suc n) h small =
    let (low, high) = position_inside start end n h small in
    let chunk = samples-Chunk (position start end n) end high small in
    (omega (arith, low), chunk.inside)

-- After enough parts less than a frame of 4 bytes is left.
pub position_last :
    (start end n : ℕ)
    → start ≤ end
    → end < 2 ^ 32
    → (end < position start end n + 4) ⊎ (start + n * 8188 ≤ position start end n)
unfolding position
position_last start end zero h small = inr (omega arith)
position_last start end (suc n) h small =
    let (low, high) = position_inside start end n h small in
    let chunk = samples-Chunk (position start end n) end high small in
    elim chunk.full_or_last [
      | inr last ↦ inl last
      | inl full ↦ elim (position_last start end n h small) [
        | inl done ↦ inl (omega (arith, done))
        | inr more ↦ inr (omega (arith, more, full))
      ]
    ]

-- The `n`-th part, as an entry of the ring.
abbrev pub part : ℕ → ℕ → ℕ → BdlEntry
part start end n = bdl_entry (position start end n) (samples_in_chunk (position start end n) end)
