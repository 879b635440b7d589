-- ===== src/Audio/Ending.antt =====
-- How a clip of drivers/ac97.c ends, when the controller completes buffer after buffer.
use horizon_os.Prelude.{
  ℕ, zero, suc, ◌+◌, ◌-◌, ◌*◌, ◌%◌, ◌^◌, ◌<◌, ◌≤◌, ◌≡◌, ◌≢◌, ◌⊎◌, ◌∙◌, refl, ap, subst, true, false,
  ◌&&◌, some, List, [], ◌∷◌, length, arith, bit, ltb, if◌then◌else◌, Bool-cases, inl, inr,
}
use horizon_os.Audio.{Audio, BdlEntry, samples_in_chunk, interrupts}
use horizon_os.Audio.Chunks.{samples-Chunk, position, position_inside, position_last, part}
use horizon_os.Audio.Stream.{Playing, ac97_play-Playing, handler-Playing}
use horizon_os.Audio.Finish.{play_and_interrupts, Tiles, Queued, part-Tiles, Playing-Queued}

-- Every interrupt reports a complete buffer and no error.
abbrev pub Complete : List ℕ → Type 0
Complete [] = Unit {0}
Complete (status ∷ rest) = (bit 4 status ≡ false) × (bit 3 status ≡ true) × Complete rest

frame_step :
    (start here n : ℕ)
    → start ≤ here
    → (here - start) % 4 ≡ 0
    → n % 2 ≡ 0
    → (here + n * 2 - start) % 4 ≡ 0
frame_step start here n h frame even = omega (arith, h, frame, even)

-- Parts start on frames.
position-frame :
    (start end n : ℕ) → start ≤ end → end < 2 ^ 32 → (position start end n - start) % 4 ≡ 0
unfolding position
position-frame start end zero h small = omega arith
position-frame start end (suc n) h small =
    let here = position start end n in
    let (low, high) = position_inside start end n h small in
    let chunk = samples-Chunk here end high small in
    let before = position-frame start end n h small in
    frame_step start here (samples_in_chunk here end) low before chunk.even

-- At its end a clip stays as it is.
interrupts-over :
    (statuses : List ℕ) (start end total : ℕ) (a : Audio)
    → Complete statuses
    → Playing start end total a
    → end ≤ position start end total
    → (a' : Audio) × (interrupts statuses a ≡ some a') × Playing start end total a'
interrupts-over [] start end total a h p over = (a, refl, p)
interrupts-over (status ∷ rest) start end total a (healthy, complete, h) p over =
    let (a₁, done, p₁) = handler-Playing status start end total a healthy p in
    let no_more : (bit 3 status && ltb (position start end total) end) ≡ false =
      ground (arith, over, complete) in
    let kept : Playing start end total a₁ =
      subst (λ b. Playing start end (if b then total + 1 else total) a₁) no_more p₁ in
    let (a', all, p') = interrupts-over rest start end total a₁ h kept over in
    (a', rw (done, interrupts) all, p')

-- Complete buffers add a part each until the clip is at its end.
interrupts-Complete :
    (statuses : List ℕ) (start end total : ℕ) (a : Audio)
    → Complete statuses
    → Playing start end total a
    → (more : ℕ) × (a' : Audio) × (interrupts statuses a ≡ some a')
      × Playing start end more a'
      × ((more ≡ total + length statuses) ⊎ (end ≤ position start end more))
interrupts-Complete [] start end total a h p = (total, a, refl, p, inl (omega arith))
interrupts-Complete (status ∷ rest) start end total a (healthy, complete, h) p =
    let (a₁, done, p₁) = handler-Playing status start end total a healthy p in
    elim (Bool-cases (ltb (position start end total) end)) [
      | inl open_end ↦
          let one_more : (bit 3 status && ltb (position start end total) end) ≡ true =
            ground (arith, open_end, complete) in
          let p₂ : Playing start end (total + 1) a₁ =
            subst (λ b. Playing start end (if b then total + 1 else total) a₁) one_more p₁ in
          let (more, a', all, p', counted) =
            interrupts-Complete rest start end (total + 1) a₁ h p₂ in
          (
            more,
            a',
            rw (done, interrupts) all,
            p',
            elim counted [ inl e ↦ inl (omega (arith, e)) | inr over ↦ inr over ],
          )
      | inr over ↦
          let at_end : end ≤ position start end total = ground (arith, over) in
          let (a', all, p') =
            interrupts-over (status ∷ rest) start end total a (healthy, complete, h) p at_end in
          (total, a', all, p', inr at_end)
    ]

-- With as many parts as the clip has, less than a frame of it is left.
near_end :
    (start end m k : ℕ)
    → start ≤ end
    → end < 2 ^ 32
    → k ≤ m
    → end ≤ start + k * 8188
    → end < position start end m + 4
near_end start end m k h small few enough =
    let (low, high) = position_inside start end m h small in
    elim (position_last start end m h small) [
      | inl done ↦ done
      | inr more ↦ omega (arith, more, few, enough)
    ]

no_samples :
    (start end : ℕ) → start ≤ end → end < 2 ^ 32 → end < start + 4 → samples_in_chunk start end ≡ 0
no_samples start end h small few =
    let chunk = samples-Chunk start end h small in omega (arith, chunk.inside, chunk.even, few)

-- Before its end, a clip has had a part for each complete buffer.
counted_parts :
    (start end total parts : ℕ)
    → (total ≡ parts) ⊎ (end ≤ position start end total)
    → position start end total < end
    → total ≡ parts
counted_parts start end total parts (inl e) before = e
counted_parts start end total parts (inr over) before = absurd (omega (arith, over, before))

-- A clip of whole frames below 4 GiB, with one frame or more, ends: after as many complete buffers as
-- it has parts of 8188 bytes, the last one shorter, or more, entries that give the clip in order and
-- without a gap have been queued, and the last of them ends where the clip does, which is the next
-- position.
pub clip_ends :
    (bdl_phys control start end : ℕ) (statuses : List ℕ) (a : Audio)
    → start + 4 ≤ end
    → end < 2 ^ 32
    → (end - start) % 4 ≡ 0
    → Complete statuses
    → end ≤ start + length statuses * 8188
    → (total : ℕ) × (entry : ℕ → BdlEntry) × (a' : Audio) × (play_and_interrupts bdl_phys control
          start end statuses a
        ≡ some a')
      × Tiles start end entry
      × Queued end total entry a'
      × (a'.audio_cur_pos ≡ end)
clip_ends bdl_phys control start end statuses a long small frames complete enough =
    let (n, a₁, played, _, p) = ac97_play-Playing bdl_phys control start end a long small in
    let (total, a', done, p', counted) = interrupts-Complete statuses start end n a₁ complete p in
    (
      total,
      part start end,
      a',
      rw (played, play_and_interrupts) done,
      part-Tiles start end (omega (arith, long)) small,
      Playing-Queued start end total a' (omega (arith, long)) small p',
      p'.next
          ∙ (let (low, high) = position_inside start end total (omega (arith, long)) small in
              let frame = position-frame start end total (omega (arith, long)) small in
              let near : end < position start end total + 4 = elim counted [
                | inl e ↦
                    near_end start end total (length statuses) (omega (arith, long)) small
                      (omega (arith, e)) enough
                | inr over ↦ omega (arith, over)
              ] in
              omega (arith, low, high, near, frame, frames)),
    )

-- A clip below 4 GiB of more than a frame, but not of whole frames, never ends: after any number of
-- complete buffers the next position is before its end; and where they are as many as its parts of
-- 8188 bytes, the last one shorter, or more, the newest entry has no samples.
pub clip_never_ends :
    (bdl_phys control start end : ℕ) (statuses : List ℕ) (a : Audio)
    → start + 4 ≤ end
    → end < 2 ^ 32
    → (end - start) % 4 ≢ 0
    → Complete statuses
    → (a' : Audio) × (play_and_interrupts bdl_phys control start end statuses a ≡ some a')
      × (a'.audio_cur_pos < end)
      × ((start + length statuses * 8188 < end)
          ⊎ ((a'.ring_buffer a'.last_valid_index).num_samples ≡ 0))
clip_never_ends bdl_phys control start end statuses a long small rest complete =
    let (n, a₁, played, _, p) = ac97_play-Playing bdl_phys control start end a long small in
    let (total, a', done, p', counted) = interrupts-Complete statuses start end n a₁ complete p in
    let h : start ≤ end = omega (arith, long) in
    let (low, high) = position_inside start end total h small in
    let frame = position-frame start end total h small in
    let before : position start end total < end = omega (arith, low, high, frame, rest) in
    let parts = counted_parts start end total (n + length statuses) counted before in
    let (low', high') = position_inside start end (total - 1) h small in
    let newest =
      p'.queued (total - 1) (omega (arith, p'.some_part)) (omega (arith, p'.some_part)) in
    (
      a',
      rw (played, play_and_interrupts) done,
      omega (arith, p'.next, before),
      elim (Bool-cases (ltb (start + length statuses * 8188) end)) [
        | inl fewer ↦ inl (ground (arith, fewer))
        | inr enough ↦
            let near =
              near_end start end (total - 1) (length statuses) h small
                (omega (arith, parts, p.some_part)) (ground (arith, enough)) in
            inr (
              ap (λ slot. (a'.ring_buffer slot).num_samples) p'.last
              ∙ ap (λ e. e.num_samples) newest
              ∙ no_samples (position start end (total - 1)) end high' small near)
      ],
    )
