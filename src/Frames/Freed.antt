-- ===== src/Frames/Freed.antt =====
-- What `free_frame` of arch/i386/memory/paging.c takes back, and what it does not.
use horizon_os.Prelude.{
  ℕ, ◌*◌, ◌%◌, ◌^◌, ◌≤◌, ◌≡◌, ◌≢◌, ◌⊎◌, ◌∙◌, refl, ap, sym, Bool, true, false, Option, none, some,
  arith, ltb, ◌==◌, ==_iff, if◌then◌else◌, Bool-cases, inl, inr,
}
use horizon_os.Frames.{Frames, clear_frame, pte_get_frame, alloc_frame, free_frame}
use horizon_os.Frames.First.{used}
use horizon_os.Frames.Alloc.{clear_frame-used, alloc_frame_lem}

clash : (b : Bool) → b ≡ true → b ≡ false → ⊥
clash b one null = ground (arith, one, null)

abbrev entry_in : Option (ℕ × Frames) → ℕ
entry_in none = 0
entry_in (some (pte, m)) = pte

-- Of a map of at most 2^20 frames and at least 32, with frame 0 free, an entry without a frame is
-- given frame 0: its frame field is 0 as before. So `free_frame` leaves the entry and the map as they
-- are, frame 0 stays marked as used, and another `alloc_frame` for the same entry halts or gives it
-- another frame, which was free.
pub frame_zero_lem :
    (iskernel writeable : Bool) (pte : ℕ) (m : Frames)
    → 32 ≤ m.nframes
    → m.nframes ≤ 2 ^ 20
    → pte_get_frame pte ≡ 0
    → used m.frames 0 ≡ false
    → (pte' : ℕ) × (m' : Frames) × ((alloc_frame iskernel writeable pte m ≡ some (pte', m'))
        × (pte_get_frame pte' ≡ 0)
        × (free_frame pte' m' ≡ (pte', m'))
        × (used m'.frames 0 ≡ true)
        × ((alloc_frame iskernel writeable pte' m' ≡ none)
            ⊎ ((pte'' : ℕ) × (m'' : Frames) × (alloc_frame iskernel writeable pte' m'
                  ≡ some (pte'', m''))
                × (pte_get_frame pte'' ≢ 0)
                × (used m'.frames (pte_get_frame pte'') ≡ false))))
unfolding free_frame
frame_zero_lem iskernel writeable pte m some_frames small fresh free =
    elim (alloc_frame_lem iskernel writeable pte m small fresh) [
      | inl (halts, all) ↦
          absurd (clash (used m.frames 0) (all 0 (omega (arith, some_frames))) free)
      | inr (f, pte', m', (done, low, null, before, marks, size, entry)) ↦
          let lowest : f ≡ 0 = elim (Bool-cases (ltb 0 f)) [
            | inl above ↦ absurd (clash (used m.frames 0) (before 0 (ground (arith, above))) free)
            | inr least ↦ ground (arith, least)
          ] in
          let unnamed : pte_get_frame pte' ≡ 0 = entry.frame ∙ lowest in
          let taken : used m'.frames 0 ≡ true = marks 0 ∙ ground (arith, lowest) in
          (
            pte',
            m',
            (
              done,
              unnamed,
              rw ((==_iff (pte_get_frame pte') 0).1 unnamed) refl,
              taken,
              elim (alloc_frame_lem iskernel writeable pte' m' (omega (arith, size, small))
                  unnamed) [
                    | inl (halts, all) ↦ inl halts
                    | inr (g, pte'', m'', (next, high, null', before', marks', size', entry')) ↦
                        let null'' : used m'.frames (pte_get_frame pte'') ≡ false =
                          ap (used m'.frames) entry'.frame ∙ null' in
                        inr (
                          pte'',
                          m'',
                          next,
                          (λ zeroth.
                              clash (used m'.frames 0) taken
                                (ap (used m'.frames) (sym zeroth) ∙ null'')),
                          null'',
                        )
                  ],
            ),
          )
    ]

abbrev map_in : Frames → Option (ℕ × Frames) → Frames
map_in m none = m
map_in m (some (pte, m')) = m'

unequal_zero : (g : ℕ) → g ≢ 0 → (g == 0) ≡ false
unequal_zero g h = ground (arith, h)

-- The bit that was set is cleared, and so all bits are as they were.
undone :
    (b c : Bool)
    → c ≡ false
    → (n f : ℕ) → (n ≡ f → b ≡ c)
    → (if n == f then false else (if n == f then true else b)) ≡ b
undone b c h n f same = elim (Bool-cases (n == f)) [
  | inl here ↦ rw (here, same ((==_iff n f).0 here)) (sym h)
  | inr apart ↦ rw apart refl
]

-- Of a map of at most 2^20 frames, for an entry without a frame: where `alloc_frame` gives it a frame
-- other than 0, `free_frame` clears the entry, and every bit of the map is as before both calls.
pub alloc_frame-free_frame :
    (iskernel writeable : Bool) (pte pte' : ℕ) (m m' : Frames)
    → m.nframes ≤ 2 ^ 20
    → pte_get_frame pte ≡ 0
    → alloc_frame iskernel writeable pte m ≡ some (pte', m')
    → pte_get_frame pte' ≢ 0
    → (m'' : Frames) × (free_frame pte' m' ≡ (0, m''))
      × ((n : ℕ) → used m''.frames n ≡ used m.frames n)
unfolding free_frame
alloc_frame-free_frame iskernel writeable pte pte' m m' small fresh e other =
    elim (alloc_frame_lem iskernel writeable pte m small fresh) [
      | inl (halts, all) ↦ ground (arith, halts, e)
      | inr (f, pte₁, m₁, (done, low, null, before, marks, size, entry)) ↦
          let same_entry : pte₁ ≡ pte' = ap entry_in (sym done ∙ e) in
          let same_map : m₁ ≡ m' = ap (map_in m) (sym done ∙ e) in
          let named : pte_get_frame pte' ≡ f =
            ap (λ p. pte_get_frame p) (sym same_entry) ∙ entry.frame in
          let g = pte_get_frame pte' in
          (
            clear_frame (g * 0x1000 % 2 ^ 32) m',
            rw (unequal_zero g other) refl,
            λ n.
                clear_frame-used g n m' (omega arith)
                ∙ ap (λ b. if n == g then false else b)
                    (ap (λ k. used k.frames n) (sym same_map)
                      ∙ marks n
                      ∙ ap (λ k. if n == k then true else used m.frames n) (sym named))
                ∙ undone (used m.frames n) (used m.frames f) null n g
                    (λ e. ap (used m.frames) (e ∙ named)),
          )
    ]
