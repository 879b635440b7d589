-- ===== src/Frames/Owned.antt =====
-- Who owns which frame, over any sequence of calls of arch/i386/memory/paging.c.
use horizon_os.Prelude.{
  ℕ, ◌*◌, ◌%◌, ◌^◌, ◌≤◌, ◌≡◌, ◌≢◌, ◌∙◌, refl, sym, subst, Bool, true, false, Option, none, some,
  List, [], ◌∷◌, arith, ◌==◌, ==_iff, if◌then◌else◌, Bool-cases, inl, inr, Option-cases,
}
use horizon_os.Frames.{Frames, clear_frame, pte_get_frame, alloc_frame, free_frame}
use horizon_os.Frames.First.{used}
use horizon_os.Frames.Alloc.{clear_frame-used, alloc_frame_lem}

-- The map, and the entries of all pages.
pub record State : Type 0 where
  pub map : Frames
  pub entry : ℕ → ℕ

pub data Call : Type 0 where
  alloc : ℕ → Bool → Bool → Call
  free : ℕ → Call

-- `*pte_ptr(page) = pte`
abbrev pub set_entry : ℕ → ℕ → (ℕ → ℕ) → ℕ → ℕ
set_entry page pte entry i = if i == page then pte else entry i

abbrev store_at : ℕ → State → Option (ℕ × Frames) → Option State
store_at page s none = none
store_at page s (some (pte, map)) = some (record { map = map; entry = set_entry page pte s.entry })

abbrev pub step : Call → State → Option State
step (alloc page iskernel writeable) s =
    store_at page s (alloc_frame iskernel writeable (s.entry page) s.map)
step (free page) s = store_at page s (some (free_frame (s.entry page) s.map))

-- The calls up to one that halts.
abbrev pub run : List Call → State → Option State
run [] s = some s
run (c ∷ calls) s = elim (step c s) [ none ↦ none | some s' ↦ run calls s' ]

abbrev pub frame_of : State → ℕ → ℕ
frame_of s page = pte_get_frame (s.entry page)

-- The frames that entries name, 0 apart, are marked as used, and no two entries name the same.
pub record Owned (s : State) : Type 0 where
  pub small : s.map.nframes ≤ 2 ^ 20
  pub marked : (i : ℕ) → frame_of s i ≢ 0 → used s.map.frames (frame_of s i) ≡ true
  pub distinct : (i j : ℕ) → frame_of s i ≢ 0 → frame_of s i ≡ frame_of s j → i ≡ j

abbrev pub AllOwned : Option State → Type 0
AllOwned none = Unit {0}
AllOwned (some s) = Owned s

apart_from : (i j : ℕ) → (i == j) ≡ false → i ≢ j
apart_from i j h e = ground (arith, h, e)

unequal : (i j : ℕ) → i ≢ j → (i == j) ≡ false
unequal i j h = ground (arith, h)

-- One entry gets a frame `f` that was free, or 0.
replace :
    (page pte f : ℕ) (s : State) (map : Frames)
    → Owned s
    → map.nframes ≡ s.map.nframes
    → pte_get_frame pte ≡ f
    → ((i : ℕ) → i ≢ page → frame_of s i ≢ 0 → used map.frames (frame_of s i) ≡ true)
    → (f ≢ 0 → used map.frames f ≡ true)
    → (f ≢ 0 → (i : ℕ) → frame_of s i ≡ f → i ≡ page)
    → Owned (record { map = map; entry = set_entry page pte s.entry })
replace page pte f s map o n e others mine fresh =
    let new : State = record { map = map; entry = set_entry page pte s.entry } in
    let own : (i : ℕ) → (i == page) ≡ true → frame_of new i ≡ f = λ i here. rw here e in
    let old : (i : ℕ) → (i == page) ≡ false → frame_of new i ≡ frame_of s i =
      λ i there. rw there refl in
    record {
      small = omega (arith, n, o.small);
      marked = λ i some_frame. elim (Bool-cases (i == page)) [
        | inl here ↦
            subst (λ k. used map.frames k ≡ true) (sym (own i here))
              (mine (λ z. some_frame (own i here ∙ z)))
        | inr there ↦
            subst (λ k. used map.frames k ≡ true) (sym (old i there))
              (others i (ground (arith, there)) (λ z. some_frame (old i there ∙ z)))
      ];
      distinct = λ i j some_frame same. elim (Bool-cases (i == page)) [
        | inl here ↦ elim (Bool-cases (j == page)) [
          | inl also ↦ ground (arith, here, also)
          | inr apart ↦ absurd (
              apart_from j page apart (
                fresh (λ z. some_frame (own i here ∙ z)) j
                  (sym (old j apart) ∙ sym same ∙ own i here)))
        ]
        | inr there ↦ elim (Bool-cases (j == page)) [
          | inl here ↦ absurd (
              apart_from i page there (
                fresh (λ z. some_frame (same ∙ own j here ∙ z)) i
                  (sym (old i there) ∙ same ∙ own j here)))
          | inr apart ↦
              o.distinct i j (λ z. some_frame (old i there ∙ z))
                (sym (old i there) ∙ same ∙ old j apart)
        ]
      ];
    }

clash : (b : Bool) → b ≡ true → b ≡ false → ⊥
clash b one null = ground (arith, one, null)

-- A call that leaves an entry and the map as they are.
same-Owned :
    (page : ℕ) (s : State) → Owned s → AllOwned (store_at page s (some (s.entry page, s.map)))
same-Owned page s o =
    replace page (s.entry page) (frame_of s page) s s.map o refl refl (λ i _ h. o.marked i h)
      (λ h. o.marked page h) (λ h i e. o.distinct i page (λ z. h (sym e ∙ z)) e)

alloc-Owned :
    (page : ℕ) (iskernel writeable : Bool) (s : State)
    → Owned s
    → AllOwned (step (alloc page iskernel writeable) s)
unfolding alloc_frame
alloc-Owned page iskernel writeable s o = elim (Bool-cases (frame_of s page == 0)) [
  | inr mapped ↦ rw mapped (same-Owned page s o)
  | inl unmapped ↦
      elim (alloc_frame_lem iskernel writeable (s.entry page) s.map o.small
        ((==_iff (frame_of s page) 0).0 unmapped)) [
          | inl (halts, all) ↦ subst (λ out. AllOwned (store_at page s out)) (sym halts) tt
          | inr (f, pte, map, (done, low, null, before, marks, size, entry)) ↦
              subst (λ out. AllOwned (store_at page s out)) (sym done)
                (replace page pte f s map o size entry.frame
                  (λ i other h. marks (frame_of s i) ∙ ground (arith, o.marked i h))
                  (λ h. marks f ∙ ground arith)
                  (λ h i e. absurd (
                    clash (used s.map.frames f)
                      (subst (λ k. used s.map.frames k ≡ true) e (o.marked i (λ z. h (sym e ∙ z))))
                      null)))
        ]
]

free-Owned : (page : ℕ) (s : State) → Owned s → AllOwned (step (free page) s)
unfolding free_frame clear_frame
free-Owned page s o = elim (Bool-cases (frame_of s page == 0)) [
  | inl unmapped ↦ rw unmapped (same-Owned page s o)
  | inr mapped ↦
      let f = frame_of s page in
      rw mapped (
        replace page 0 0 s (clear_frame (f * 0x1000 % 2 ^ 32) s.map) o refl refl
          (λ i other h.
            let apart : frame_of s i ≢ f = λ e. other (o.distinct i page h e) in
            clear_frame-used f (frame_of s i) s.map (omega arith)
            ∙ rw (unequal (frame_of s i) f apart) (o.marked i h))
          (λ h. absurd (h refl)) (λ h. absurd (h refl)))
]

step-Owned : (c : Call) (s : State) → Owned s → AllOwned (step c s)
step-Owned (alloc page iskernel writeable) s o = alloc-Owned page iskernel writeable s o
step-Owned (free page) s o = free-Owned page s o

-- From a map of at most 2^20 frames, and entries of which no two have the same frame, 0 apart, each
-- frame being marked as used: whatever pages are then given frames and lose them, in any order, and
-- until no frame is free, the same holds of the map and the entries.
pub run-Owned : (calls : List Call) (s : State) → Owned s → AllOwned (run calls s)
run-Owned [] s o = o
run-Owned (c ∷ calls) s o =
    let after : Option State → Type 0 =
      λ out. AllOwned (elim out [ none ↦ none | some s' ↦ run calls s' ]) in
    elim (Option-cases (step c s)) [
      | inl halts ↦ subst after (sym halts) tt
      | inr (s', done) ↦
          subst after (sym done) (run-Owned calls s' (subst AllOwned done (step-Owned c s o)))
    ]
