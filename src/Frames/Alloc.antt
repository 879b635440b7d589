-- ===== src/Frames/Alloc.antt =====
-- `alloc_frame` and `free_frame` of arch/i386/memory/paging.c.
use horizon_os.Prelude.{
  ℕ, ◌*◌, ◌/◌, ◌%◌, ◌^◌, ◌<◌, ◌≤◌, ◌≡◌, ◌⊎◌, ◌∙◌, refl, ap, sym, Bool, true, false, not, ◌&&◌, ◌||◌,
  Option, none, some, arith, bit, ◌==◌, ==_iff, if◌then◌else◌, Bool-cases, inl, inr,
}
use horizon_os.Prelude.Bits.{set_bit, clear_bit, bit-set_bit, bit-clear_bit}
use horizon_os.Frames.{
  Frames, write_word, set_frame, clear_frame, no_frame, first_frame, pte_get_frame, pte_set_frame,
  set_if, alloc_frame,
}
use horizon_os.Frames.First.{used, first_frame_lem}

-- Two frames are the same when their words and their bits are.
same_frame : (n f : ℕ) → (n == f) ≡ (n / 32 == f / 32) && (n % 32 == f % 32)
same_frame n f = ground arith

address : (f : ℕ) → f < 2 ^ 20 → f * 0x1000 % 2 ^ 32 / 0x1000 ≡ f
address f h = omega (arith, h)

-- One bit of the map is written.
written :
    (n f word : ℕ) (frames : ℕ → ℕ) (b : Bool)
    → bit (n % 32) word ≡ (if n % 32 == f % 32 then b else bit (n % 32) (frames (f / 32)))
    → used (write_word (f / 32) word frames) n ≡ (if n == f then b else used frames n)
written n f word frames b e = elim (Bool-cases (n / 32 == f / 32)) [
  | inl here ↦
      let index : n / 32 ≡ f / 32 = (==_iff (n / 32) (f / 32)).0 here in
      let same : (n == f) ≡ (n % 32 == f % 32) = ground (arith, here) in
      rw (here, same)
        (e ∙ ap (λ i. if n % 32 == f % 32 then b else bit (n % 32) (frames i)) (sym index))
  | inr elsewhere ↦
      let other : (n == f) ≡ false = ground (arith, elsewhere) in rw (elsewhere, other) refl
]

pub set_frame-used :
    (f n : ℕ) (m : Frames)
    → f < 2 ^ 20
    → used (set_frame (f * 0x1000 % 2 ^ 32) m).frames n ≡ (if n == f then true else used m.frames n)
unfolding set_frame
set_frame-used f n m h = rw (address f h) (
    written n f (set_bit (f % 32) (m.frames (f / 32))) m.frames true
      (bit-set_bit (f % 32) (n % 32) (m.frames (f / 32)) ∙ ground arith))

pub clear_frame-used :
    (f n : ℕ) (m : Frames)
    → f < 2 ^ 20
    → used (clear_frame (f * 0x1000 % 2 ^ 32) m).frames n
      ≡ (if n == f then false else used m.frames n)
unfolding clear_frame
clear_frame-used f n m h = rw (address f h) (
    written n f (clear_bit (f % 32) (m.frames (f / 32))) m.frames false
      (bit-clear_bit (f % 32) (n % 32) (m.frames (f / 32)) ∙ ground arith))

bit-set_if :
    (wanted : Bool) (n j x : ℕ) → bit j (set_if wanted n x) ≡ (wanted && (j == n)) || bit j x
bit-set_if true n j x = bit-set_bit n j x
bit-set_if false n j x = refl

abbrev flagged : Bool → Bool → ℕ → ℕ
flagged iskernel writeable pte = set_if (not iskernel) 2 (set_if writeable 1 (set_bit 0 pte))

-- The entry that `alloc_frame` leaves: its frame, and its flags.
pub record Entry (iskernel writeable : Bool) (pte f pte' : ℕ) : Type 0 where
  pub frame : pte_get_frame pte' ≡ f
  pub present : bit 0 pte' ≡ true
  pub write : bit 1 pte' ≡ writeable || bit 1 pte
  pub user : bit 2 pte' ≡ not iskernel || bit 2 pte

flag :
    (iskernel writeable : Bool) (j pte : ℕ)
    → bit j (flagged iskernel writeable pte)
      ≡ (not iskernel && (j == 2)) || ((writeable && (j == 1)) || ((j == 0) || bit j pte))
flag iskernel writeable j pte =
    bit-set_if (not iskernel) 2 j (set_if writeable 1 (set_bit 0 pte))
    ∙ ap (λ b. (not iskernel && (j == 2)) || b)
        (bit-set_if writeable 1 j (set_bit 0 pte)
          ∙ ap (λ b. (writeable && (j == 1)) || b) (bit-set_bit 0 j pte))

low_bits :
    (a f : ℕ)
    → (bit 0 (pte_set_frame f a) ≡ bit 0 a)
      × (bit 1 (pte_set_frame f a) ≡ bit 1 a)
      × (bit 2 (pte_set_frame f a) ≡ bit 2 a)
low_bits a f = (ground arith, ground arith, ground arith)

entry_of :
    (iskernel writeable : Bool) (pte f : ℕ)
    → f < 2 ^ 20
    → Entry iskernel writeable pte f (pte_set_frame f (flagged iskernel writeable pte))
entry_of iskernel writeable pte f h =
    let (first, second, third) = low_bits (flagged iskernel writeable pte) f in
    record {
      frame = omega (arith, h);
      present = first ∙ flag iskernel writeable 0 pte ∙ ground arith;
      write = second ∙ flag iskernel writeable 1 pte ∙ ground arith;
      user = third ∙ flag iskernel writeable 2 pte ∙ ground arith;
    }

-- What a call for a page without a frame does: it halts where no frame is free, and else takes the
-- lowest that is.
abbrev pub Allocated : Bool → Bool → ℕ → Frames → Option (ℕ × Frames) → Type 0
Allocated iskernel writeable pte m out =
    (out ≡ none) × ((n : ℕ) → n < m.nframes / 32 * 32 → used m.frames n ≡ true)
    ⊎ (f : ℕ) × (pte' : ℕ) × (m' : Frames) × ((out ≡ some (pte', m'))
        × (f < m.nframes / 32 * 32)
        × (used m.frames f ≡ false)
        × ((n : ℕ) → n < f → used m.frames n ≡ true)
        × ((n : ℕ) → used m'.frames n ≡ (if n == f then true else used m.frames n))
        × (m'.nframes ≡ m.nframes)
        × Entry iskernel writeable pte f pte')

-- Of a map of at most 2^20 frames, for an entry whose frame field is 0: where every bit of the whole
-- words is set `alloc_frame` halts; else it sets the bit of the lowest frame that is free and no other
-- bit, and leaves an entry with that frame, which is present, and for writing or for user code where
-- it is asked to be or was.
pub alloc_frame_lem :
    (iskernel writeable : Bool) (pte : ℕ) (m : Frames)
    → m.nframes ≤ 2 ^ 20
    → pte_get_frame pte ≡ 0
    → Allocated iskernel writeable pte m (alloc_frame iskernel writeable pte m)
unfolding alloc_frame set_frame
alloc_frame_lem iskernel writeable pte m small fresh =
    let unmapped : (pte_get_frame pte == 0) ≡ true = (==_iff (pte_get_frame pte) 0).1 fresh in
    elim (first_frame_lem m) [
      | inl (e, all) ↦ inl (rw (unmapped, e) refl, all)
      | inr (low, free, before) ↦
          let f = first_frame m in
          let some_frame : (f == no_frame) ≡ false = ground (arith, low, small) in
          inr (
            f,
            pte_set_frame f (flagged iskernel writeable pte),
            set_frame (f * 0x1000 % 2 ^ 32) m,
            (
              rw (unmapped, some_frame) refl,
              low,
              free,
              before,
              λ n. set_frame-used f n m (omega (arith, low, small)),
              refl,
              entry_of iskernel writeable pte f (omega (arith, low, small)),
            ),
          )
    ]
