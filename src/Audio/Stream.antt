-- ===== src/Audio/Stream.antt =====
-- The ring of drivers/ac97.c while a clip plays.
use horizon_os.Prelude.{
  ℕ, zero, suc, ◌+◌, ◌-◌, ◌*◌, ◌%◌, ◌^◌, ◌<◌, ◌≤◌, ◌≡◌, ◌⊎◌, ◌∙◌, refl, ap, sym, true, false, not,
  ◌&&◌, ◌||◌, some, List, ◌∷◌, arith, bit, ltb, leb, ◌==◌, ==_iff, if◌then◌else◌, Bool-cases, inl,
  inr,
}
use horizon_os.Audio.{
  Audio, BdlEntry, samples_in_chunk, set_slot, fill_ring, ac97_setup_bdl, ac97_start_playback,
  ac97_play, refill, ac97_irq_handler,
}
use horizon_os.Audio.Chunks.{samples-Chunk, position, position_inside, part}

-- Of the clip `total` parts have been queued, of which the ring holds the last 32; there are that many, or
-- less than a frame of the clip is left.
pub record Playing (start end total : ℕ) (a : Audio) : Type 0 where
  pub some_part : 0 < total
  pub ahead : (32 ≤ total) ⊎ (end < position start end total + 4)
  pub next : a.audio_cur_pos ≡ position start end total
  pub data_end : a.audio_data_end ≡ end
  pub last : a.last_valid_index ≡ (total - 1) % 32
  pub queued : (m : ℕ) → m < total → total ≤ m + 32 → a.ring_buffer (m % 32) ≡ part start end m

pub position_step :
    (start end n : ℕ)
    → position start end (n + 1)
      ≡ position start end n + samples_in_chunk (position start end n) end * 2
unfolding position
position_step start end n =
    let one_more : n + 1 ≡ suc n = omega arith in ap (position start end) one_more

-- One part more.
refill-Playing :
    (start end total : ℕ) (a : Audio)
    → Playing start end total a
    → Playing start end (total + 1) (refill a)
unfolding refill
refill-Playing start end total a p =
    let slot : (a.last_valid_index + 1) % 32 ≡ total % 32 = omega (arith, p.last, p.some_part) in
    record {
      some_part = omega arith;
      ahead = elim p.ahead [
        | inl enough ↦ inl (omega (arith, enough))
        | inr done ↦ inr (omega (arith, done, position_step start end total))
      ];
      next = rw (p.next, p.data_end) (sym (position_step start end total));
      data_end = p.data_end;
      last = omega (arith, slot);
      queued = λ m before recent. elim (Bool-cases (m == total)) [
        | inl newest ↦
            let same : m ≡ total = (==_iff m total).0 newest in
            let here : (m % 32 == (a.last_valid_index + 1) % 32) ≡ true =
              ground (arith, slot, same) in
            rw (here, p.next, p.data_end) (ap (part start end) (sym same))
        | inr older ↦
            let elsewhere : (m % 32 == (a.last_valid_index + 1) % 32) ≡ false =
              ground (arith, slot, older, before, recent) in
            rw elsewhere (p.queued m (ground (arith, older, before)) (omega (arith, recent)))
      ];
    }

-- The loop that fills the ring.
Filled : ℕ → ℕ → ℕ → (ℕ → BdlEntry) → Type 0
Filled start end i ring = (m : ℕ) → m < i → ring m ≡ part start end m

add_slot :
    (start end i : ℕ) (ring : ℕ → BdlEntry)
    → Filled start end i ring
    → Filled start end (i + 1) (set_slot i (part start end i) ring)
unfolding Filled
add_slot start end i ring f m h = elim (Bool-cases (m == i)) [
  | inl newest ↦ rw newest (ap (part start end) (sym ((==_iff m i).0 newest)))
  | inr older ↦ rw older (f m (ground (arith, h, older)))
]

-- Where the loop stops, less than a frame of the clip is left.
all_queued :
    (here end : ℕ)
    → here ≤ end
    → end < 2 ^ 32
    → (not (ltb here end) || (samples_in_chunk here end == 0)) ≡ true
    → end < here + 4
all_queued here end h small done = elim (samples-Chunk here end h small).full_or_last [
  | inl full ↦ ground (arith, full, done)
  | inr last ↦ ground (arith, last, done)
]

fill_ring-Filled :
    (left i start end : ℕ) (ring : ℕ → BdlEntry)
    → start ≤ end
    → end < 2 ^ 32
    → Filled start end i ring
    → (n : ℕ) × (ring' : ℕ → BdlEntry) × (fill_ring left i (position start end i) end ring
        ≡ (n, position start end n, ring'))
      × (i ≤ n)
      × (n ≤ i + left)
      × ((n ≡ i + left) ⊎ (end < position start end n + 4))
      × Filled start end n ring'
unfolding fill_ring
fill_ring-Filled zero i start end ring h small f =
    (i, ring, refl, omega arith, omega arith, inl (omega arith), f)
fill_ring-Filled (suc left) i start end ring h small f =
    let here = position start end i in
    elim (Bool-cases (not (ltb here end) || (samples_in_chunk here end == 0))) [
      | inl done ↦
          let (low, high) = position_inside start end i h small in
          let over = all_queued here end high small done in
          (i, ring, rw done refl, omega arith, omega arith, inr over, f)
      | inr more ↦
          let (n, ring', filled, low, high, ahead, f') =
            fill_ring-Filled left (i + 1) start end _ h small (add_slot start end i ring f) in
          (
            n,
            ring',
            rw more (
                ap (λ next. fill_ring left (i + 1) next end (set_slot i (part start end i) ring))
                  (sym (position_step start end i))
                ∙ filled),
            omega (arith, low),
            omega (arith, high),
            elim ahead [ inl all ↦ inl (omega (arith, all)) | inr over ↦ inr over ],
            f',
          )
    ]

small_slot : (m : ℕ) → m < 32 → m % 32 ≡ m
small_slot m h = omega (arith, h)

-- The first slot is filled where the clip has a frame.
fill_ring-some :
    (left start end : ℕ) (ring : ℕ → BdlEntry)
    → start + 4 ≤ end
    → end < 2 ^ 32
    → (n : ℕ) × (ring' : ℕ → BdlEntry) × (fill_ring (suc left) 0 start end ring
        ≡ (n, position start end n, ring'))
      × (0 < n)
      × (n ≤ suc left)
      × ((n ≡ suc left) ⊎ (end < position start end n + 4))
      × Filled start end n ring'
unfolding fill_ring Filled position
fill_ring-some left start end ring long small =
    let chunk = samples-Chunk start end (omega (arith, long)) small in
    let some_samples : 0 < samples_in_chunk start end = elim chunk.full_or_last [
      | inl full ↦ omega (arith, full)
      | inr last ↦ omega (arith, last, long)
    ] in
    let more : (not (ltb start end) || (samples_in_chunk start end == 0)) ≡ false =
      ground (arith, long, some_samples) in
    let (n, ring', filled, low, high, ahead, f) =
      fill_ring-Filled left 1 start end _ (omega (arith, long)) small
        (add_slot start end 0 ring (λ m h. absurd (omega (arith, h)))) in
    (
      n,
      ring',
      rw more filled,
      omega (arith, low),
      omega (arith, high),
      elim ahead [ inl all ↦ inl (omega (arith, all)) | inr over ↦ inr over ],
      f,
    )

-- From a clip of a frame or more, what playing it leaves.
pub ac97_play-Playing :
    (bdl_phys control start end : ℕ) (a : Audio)
    → start + 4 ≤ end
    → end < 2 ^ 32
    → (n : ℕ) × (a' : Audio) × (ac97_play bdl_phys control start end a ≡ some a')
      × (n ≤ 32)
      × Playing start end n a'
unfolding ac97_play ac97_setup_bdl ac97_start_playback Filled
ac97_play-Playing bdl_phys control start end a long small =
    let (n, ring, filled, some_part, high, ahead, f) =
      fill_ring-some 31 start end a.ring_buffer long small in
    let not_empty : leb end start ≡ false = ground (arith, long) in
    let low_start : ltb 0xFFFFFFFF start ≡ false = ground (arith, long, small) in
    let low_end : ltb 0xFFFFFFFF end ≡ false = ground (arith, small) in
    let queued : (n == 0) ≡ false = ground (arith, some_part) in
    (
      n,
      record {
        ring_buffer = ring;
        last_valid_index = n - 1;
        bdl_entries_filled = n;
        audio_cur_pos = position start end n;
        audio_data_end = end;
        sent =
            (0x0B, if bit 0 control then control else control + 1)
            ∷ (0x05, n - 1)
            ∷ (0x00, bdl_phys % 2 ^ 32)
            ∷ (0x06, 0x1E)
            ∷ (0x0B, 2)
            ∷ a.sent;
      },
      rw (not_empty, filled, low_start, low_end, queued) refl,
      high,
      record {
        some_part = some_part;
        ahead = elim ahead [ inl all ↦ inl (omega (arith, all)) | inr over ↦ inr over ];
        next = refl;
        data_end = refl;
        last = omega (arith, some_part, high);
        queued =
            λ m before recent. ap ring (small_slot m (omega (arith, before, high))) ∙ f m before;
      },
    )

sent-Playing :
    (sent : List (ℕ × ℕ)) (start end total : ℕ) (a : Audio)
    → Playing start end total a
    → Playing start end total (record a { sent = sent })
sent-Playing sent start end total a p = record {
  some_part = p.some_part;
  ahead = p.ahead;
  next = p.next;
  data_end = p.data_end;
  last = p.last;
  queued = p.queued;
}

-- An interrupt without an error keeps the stream. Where a buffer is complete and the clip is not at
-- its end, it has one part more.
pub handler-Playing :
    (status start end total : ℕ) (a : Audio)
    → bit 4 status ≡ false
    → Playing start end total a
    → (a' : Audio) × (ac97_irq_handler status a ≡ some a')
      × Playing start end
          (if bit 3 status && ltb (position start end total) end then total + 1 else total)
          a'
unfolding ac97_irq_handler
handler-Playing status start end total a healthy p =
    let acknowledged : Audio = record a { sent = (0x06, status) ∷ a.sent } in
    let kept = sent-Playing ((0x06, status) ∷ a.sent) start end total a p in
    elim (Bool-cases (bit 3 status)) [
      | inr idle ↦ (acknowledged, rw (healthy, idle) refl, rw idle kept)
      | inl complete ↦ elim (Bool-cases (ltb (position start end total) end)) [
        | inr done ↦
            let over : leb a.audio_data_end a.audio_cur_pos ≡ true =
              ground (arith, done, p.next, p.data_end) in
            (acknowledged, rw (healthy, complete, over) refl, rw (complete, done) kept)
        | inl more ↦
            let open_end : leb a.audio_data_end a.audio_cur_pos ≡ false =
              ground (arith, more, p.next, p.data_end) in
            (
              refill acknowledged,
              rw (healthy, complete, open_end) refl,
              rw (complete, more) (refill-Playing start end total acknowledged kept),
            )
      ]
    ]
