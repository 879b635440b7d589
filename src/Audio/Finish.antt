-- ===== src/Audio/Finish.antt =====
-- What the controller of drivers/ac97.c is given to play, from the start of a clip to its end.
use horizon_os.Prelude.{
  ℕ, ◌+◌, ◌-◌, ◌*◌, ◌%◌, ◌^◌, ◌<◌, ◌≤◌, ◌≡◌, ◌⊎◌, ◌∙◌, inl, inr, refl, ap, sym, false, Option, none,
  some, List, [], ◌∷◌, arith, bit,
}
use horizon_os.Audio.{Audio, BdlEntry, samples_in_chunk, ac97_play, interrupts}
use horizon_os.Audio.Chunks.{samples-Chunk, position, position_inside, part}
use horizon_os.Audio.Stream.{Playing, ac97_play-Playing, handler-Playing, position_step}

-- A clip is played, and these interrupts follow.
abbrev pub play_and_interrupts : ℕ → ℕ → ℕ → ℕ → List ℕ → Audio → Option Audio
play_and_interrupts bdl_phys control start end statuses a =
    elim (ac97_play bdl_phys control start end a) [ none ↦ none | some a' ↦ interrupts statuses a' ]

-- No interrupt of the list reports an error.
abbrev pub Healthy : List ℕ → Type 0
Healthy [] = Unit {0}
Healthy (status ∷ rest) = (bit 4 status ≡ false) × Healthy rest

interrupts-Playing :
    (statuses : List ℕ) (start end total : ℕ) (a : Audio)
    → Healthy statuses
    → Playing start end total a
    → (more : ℕ) × (a' : Audio) × (interrupts statuses a ≡ some a') × Playing start end more a'
interrupts-Playing [] start end total a h p = (total, a, refl, p)
interrupts-Playing (status ∷ rest) start end total a (healthy, h) p =
    let (a', done, p') = handler-Playing status start end total a healthy p in
    let (more, a'', all, p'') = interrupts-Playing rest start end _ a' h p' in
    (more, a'', rw (done, interrupts) all, p'')

-- Entries that give a clip in order, without a gap, an even number of samples at a time, and nothing
-- outside it; each is full, or what it leaves of the clip is less than a frame.
pub record Tiles (start end : ℕ) (entry : ℕ → BdlEntry) : Type 0 where
  pub first : (entry 0).buffer_addr_phys ≡ start
  pub next :
      (m : ℕ)
      → (entry (m + 1)).buffer_addr_phys ≡ (entry m).buffer_addr_phys + (entry m).num_samples * 2
  pub even : (m : ℕ) → (entry m).num_samples % 2 ≡ 0
  pub fits : (m : ℕ) → (entry m).num_samples ≤ 4094
  pub inside : (m : ℕ) → (entry m).buffer_addr_phys + (entry m).num_samples * 2 ≤ end
  pub full_or_last :
      (m : ℕ)
      → ((entry m).num_samples ≡ 4094)
        ⊎ (end < (entry m).buffer_addr_phys + (entry m).num_samples * 2 + 4)

-- The ring holds the last 32, or all, of `total` entries, of which there is at least one, and 32 unless
-- they leave less than a frame before the end of the clip; the last of them is the last valid one, and the part after them is the next to be queued.
pub record Queued (end total : ℕ) (entry : ℕ → BdlEntry) (a : Audio) : Type 0 where
  pub some_entry : 0 < total
  pub ahead : (32 ≤ total) ⊎ (end < (entry total).buffer_addr_phys + 4)
  pub held : (m : ℕ) → m < total → total ≤ m + 32 → a.ring_buffer (m % 32) ≡ entry m
  pub last : a.last_valid_index ≡ (total - 1) % 32
  pub next : a.audio_cur_pos ≡ (entry total).buffer_addr_phys

pub part-Tiles : (start end : ℕ) → start ≤ end → end < 2 ^ 32 → Tiles start end (part start end)
unfolding position
part-Tiles start end h small =
    let inside = λ (m : ℕ). position_inside start end m h small in
    let chunk = λ (m : ℕ). samples-Chunk (position start end m) end (inside m).1 small in
    let exact : (m : ℕ) → position start end m % 2 ^ 32 ≡ position start end m =
      λ m. omega (arith, (inside m).1, small) in
    record {
      first = exact 0;
      next = λ m.
          exact (m + 1)
          ∙ position_step start end m
          ∙ ap (λ b. b + samples_in_chunk (position start end m) end * 2) (sym (exact m));
      even = λ m. (chunk m).even;
      fits = λ m. (chunk m).fits;
      inside = λ m. rw (exact m) (chunk m).inside;
      full_or_last = λ m. rw (exact m) (chunk m).full_or_last;
    }

pub Playing-Queued :
    (start end total : ℕ) (a : Audio)
    → start ≤ end
    → end < 2 ^ 32
    → Playing start end total a
    → Queued end total (part start end) a
Playing-Queued start end total a h small p = record {
  some_entry = p.some_part;
  ahead = elim p.ahead [
    | inl enough ↦ inl enough
    | inr over ↦
        let (low, high) = position_inside start end total h small in
        inr (omega (arith, over, high, small))
  ];
  held = p.queued;
  last = p.last;
  next =
      let (low, high) = position_inside start end total h small in
      omega (arith, p.next, high, small);
}

-- Of a clip of a frame or more below 4 GiB, after any interrupts that report no error: 32 or more
-- entries have been queued, or at least one, and less than a frame is left. They give the clip in
-- order, without a gap, an even number of samples at a time, and nothing outside it, and each is full
-- or leaves less than a frame of it. The ring holds the last 32 of them, or all; the last is the last
-- valid one, and the next part starts where they end.
pub play_and_interrupts-Tiles :
    (bdl_phys control start end : ℕ) (statuses : List ℕ) (a : Audio)
    → start + 4 ≤ end
    → end < 2 ^ 32
    → Healthy statuses
    → (total : ℕ) × (entry : ℕ → BdlEntry) × (a' : Audio) × (play_and_interrupts bdl_phys control
          start end statuses a
        ≡ some a')
      × Tiles start end entry
      × Queued end total entry a'
play_and_interrupts-Tiles bdl_phys control start end statuses a long small healthy =
    let (n, a₁, played, _, p) = ac97_play-Playing bdl_phys control start end a long small in
    let (total, a', done, p') = interrupts-Playing statuses start end n a₁ healthy p in
    (
      total,
      part start end,
      a',
      rw (played, play_and_interrupts) done,
      part-Tiles start end (omega (arith, long)) small,
      Playing-Queued start end total a' (omega (arith, long)) small p',
    )
