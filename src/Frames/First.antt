-- ===== src/Frames/First.antt =====
-- The search for a free frame in arch/i386/memory/paging.c.
use horizon_os.Prelude.{
  ℕ, zero, suc, ◌+◌, ◌*◌, ◌/◌, ◌%◌, ◌<◌, ◌≤◌, ◌≡◌, ◌⊎◌, refl, sym, subst, Bool, true, false, none,
  some, arith, bit, ltb, ◌==◌, ==_iff, Bool-cases, inl, inr, every_below, at-every_below,
  Option-cases,
}
use horizon_os.Frames.{Frames, free_bit, no_frame, first_free_from, first_frame}

-- Whether the bit of a frame is set.
abbrev pub used : (ℕ → ℕ) → ℕ → Bool
used frames n = bit (n % 32) (frames (n / 32))

free_bit-none :
    (left j k word : ℕ) → free_bit left j word ≡ none → j ≤ k → k < j + left → bit k word ≡ true
unfolding free_bit
free_bit-none zero j k word e h l = absurd (omega arith)
free_bit-none (suc left) j k word e h l = elim (Bool-cases (bit j word)) [
  | inl one ↦ elim (Bool-cases (j == k)) [
    | inl here ↦ subst (λ i. bit i word ≡ true) ((==_iff j k).0 here) one
    | inr above ↦
        free_bit-none left (j + 1) k word (ground (arith, e, one)) (ground (arith, h, above))
          (omega (arith, l))
  ]
  | inr null ↦ ground (arith, e, null)
]

free_bit-some :
    (left j k word : ℕ)
    → free_bit left j word ≡ some k
    → (j ≤ k)
      × (k < j + left)
      × (bit k word ≡ false)
      × ((i : ℕ) → j ≤ i → i < k → bit i word ≡ true)
unfolding free_bit
free_bit-some zero j k word e = ground (arith, e)
free_bit-some (suc left) j k word e = elim (Bool-cases (bit j word)) [
  | inl one ↦
      let (low, high, found, before) = free_bit-some left (j + 1) k word (ground (arith, e, one)) in
      (
        omega (arith, low),
        omega (arith, high),
        found,
        λ i h l. elim (Bool-cases (j == i)) [
          | inl here ↦ subst (λ i. bit i word ≡ true) ((==_iff j i).0 here) one
          | inr above ↦ before i (ground (arith, h, above)) l
        ],
      )
  | inr null ↦
      let here : j ≡ k = ground (arith, e, null) in
      (
        omega (arith, here),
        omega (arith, here),
        subst (λ i. bit i word ≡ false) here null,
        λ i h l. absurd (omega (arith, here, h, l)),
      )
]

full_word : every_below 32 (λ j. bit j 0xFFFFFFFF) ≡ true
unfolding every_below
full_word = refl

-- The bits of a word that the search passes over are set.
passed : (word k : ℕ) → (word == 0xFFFFFFFF) ≡ true → k < 32 → bit k word ≡ true
passed word k full h =
    subst (λ w. bit k w ≡ true) (sym ((==_iff word 0xFFFFFFFF).0 full))
      (at-every_below 32 (λ j. bit j 0xFFFFFFFF) k full_word h)

-- From the first `i` words, all used, to one more.
one_more :
    (frames : ℕ → ℕ) (i : ℕ)
    → ((n : ℕ) → n < i * 32 → used frames n ≡ true)
    → ((k : ℕ) → k < 32 → bit k (frames i) ≡ true)
    → (n : ℕ) → n < (i + 1) * 32
    → used frames n ≡ true
one_more frames i below word n h = elim (Bool-cases (ltb n (i * 32))) [
  | inl before ↦ below n (ground arith)
  | inr within ↦
      let here : i ≡ n / 32 = ground (arith, h, within) in
      subst (λ w. bit (n % 32) (frames w) ≡ true) here (word (n % 32) (omega arith))
]

-- What the search answers: the lowest frame whose bit is clear, or that there is none.
abbrev pub Lowest : (ℕ → ℕ) → ℕ → ℕ → Type 0
Lowest frames words f =
    (f ≡ no_frame) × ((n : ℕ) → n < words * 32 → used frames n ≡ true)
    ⊎ (f < words * 32) × (used frames f ≡ false) × ((n : ℕ) → n < f → used frames n ≡ true)

found :
    (frames : ℕ → ℕ) (i j words : ℕ)
    → i < words
    → ((n : ℕ) → n < i * 32 → used frames n ≡ true)
    → free_bit 32 0 (frames i) ≡ some j
    → Lowest frames words (i * 32 + j)
found frames i j words h below e =
    let (low, high, null, ones) = free_bit-some 32 0 j (frames i) e in
    let offset : (i * 32 + j) % 32 ≡ j = omega (arith, high) in
    let index : (i * 32 + j) / 32 ≡ i = omega (arith, high) in
    inr (
      omega (arith, h, high),
      rw (offset, index) null,
      λ n l. elim (Bool-cases (ltb n (i * 32))) [
        | inl before ↦ below n (ground arith)
        | inr within ↦
            let here : i ≡ n / 32 = ground (arith, l, high, within) in
            subst (λ w. bit (n % 32) (frames w) ≡ true) here
              (ones (n % 32) (omega arith) (ground (arith, l, high, within)))
      ],
    )

first_from_lem :
    (left i : ℕ) (frames : ℕ → ℕ)
    → ((n : ℕ) → n < i * 32 → used frames n ≡ true)
    → Lowest frames (i + left) (first_free_from left i frames)
unfolding first_free_from
first_from_lem zero i frames below = inl (refl, λ n h. below n (omega (arith, h)))
first_from_lem (suc left) i frames below =
    let rest = first_free_from left (i + 1) frames in
    let next : ((k : ℕ) → k < 32 → bit k (frames i) ≡ true) → Lowest frames (i + suc left) rest =
      λ word.
        subst (λ words. Lowest frames words rest) (omega arith)
          (first_from_lem left (i + 1) frames (one_more frames i below word)) in
    elim (Bool-cases (frames i == 0xFFFFFFFF)) [
      | inl full ↦ rw full (next (λ k h. passed (frames i) k full h))
      | inr some_free ↦ elim (Option-cases (free_bit 32 0 (frames i))) [
        | inl nothing ↦
            rw (some_free, nothing)
              (next
                (λ k h. free_bit-none 32 0 k (frames i) nothing (omega arith) (omega (arith, h))))
        | inr (j, e) ↦ rw (some_free, e) (found frames i j (i + suc left) (omega arith) below e)
      ]
    ]

-- The search answers the lowest of the frames of the whole words whose bit is clear; or that there is
-- none, and then all their bits are set.
pub first_frame_lem : (m : Frames) → Lowest m.frames (m.nframes / 32) (first_frame m)
unfolding first_frame
first_frame_lem m =
    subst (λ words. Lowest m.frames words (first_free_from (m.nframes / 32) 0 m.frames))
      (omega arith) (first_from_lem (m.nframes / 32) 0 m.frames (λ n h. absurd (omega (arith, h))))
