-- ===== src/Sched/Clone/Chain.antt =====
-- The copied stack: the child's frame pointers are the parent's, moved.
use horizon_os.Prelude.{
  ℕ, zero, suc, ◌+◌, ◌-◌, ◌%◌, ◌^◌, ◌≤◌, ◌<◌, ◌≡◌, refl, ap, ◌∙◌, ◌⊎◌, ◌≢◌, ◌*◌, ◌/◌, sym,
  ℕ_discrete, inl, inr, Bool, true, false, ◌&&◌, Option, some, arith, ltb, leb, ◌==◌, if◌then◌else◌,
}
use horizon_os.Sched.Kernel.{Region}
use horizon_os.Sched.Clone.{walk, copy_stack, fork_frame_fp_slot, clone_stack_rebased}

-- Whether an address is on the part of the stack that is copied.
abbrev pub on_stack : ℕ → ℕ → ℕ → Bool
on_stack frame top a = leb frame a && ltb a top

-- The frame pointers from `a` on, on the parent's stack and in the child's memory, whose stack begins
-- at `base`: each that is on the stack is moved with it, and the first that is not is kept.
pub data Chain (frame top base : ℕ) (parent child : ℕ → ℕ) : ℕ → Type 0 where
  ends :
      {a : ℕ}
      → on_stack frame top (parent a) ≡ false
      → child (base + (a - frame)) ≡ parent a
      → Chain frame top base parent child a
  link :
      {a : ℕ}
      → on_stack frame top (parent a) ≡ true
      → child (base + (a - frame)) ≡ base + (parent a - frame)
      → Chain frame top base parent child (parent a)
      → Chain frame top base parent child a

-- The frame pointers from `a` on, up to the first that is not on the stack, go up, and are the
-- addresses of words.
pub data Rises (frame top : ℕ) (words : ℕ → ℕ) : ℕ → Type 0 where
  stops : {a : ℕ} → on_stack frame top (words a) ≡ false → Rises frame top words a
  climbs :
      {a : ℕ}
      → on_stack frame top (words a) ≡ true
      → a < words a
      → words a % 8 ≡ 0
      → Rises frame top words (words a)
      → Rises frame top words a

-- A round of the walk, and its end.
walk_step :
    (fuel frame top delta : ℕ) (words : ℕ → ℕ) (slot v there : ℕ)
    → words slot ≡ v
    → on_stack frame top v ≡ true
    → (v + delta) % 2 ^ 64 ≡ there
    → walk (suc fuel) frame top delta words slot
      ≡ walk fuel frame top delta (λ a. if a == slot then there else words a) there
unfolding walk
walk_step fuel frame top delta words slot v there value on moved = rw (value, on, moved) refl

walk_end :
    (fuel frame top delta : ℕ) (words : ℕ → ℕ) (slot v : ℕ)
    → words slot ≡ v
    → on_stack frame top v ≡ false
    → walk (suc fuel) frame top delta words slot ≡ some words
unfolding walk
walk_end fuel frame top delta words slot v value off = rw (value, off) refl

-- One write, and the ranges from it on and behind it.
next_copied :
    (words : ℕ → ℕ) (x slot there : ℕ) → slot < x → (if x == slot then there else words x) ≡ words x
next_copied words x slot there h = ground arith

at_slot : (words : ℕ → ℕ) (slot there : ℕ) → (if slot == slot then there else words slot) ≡ there
at_slot words slot there = ground arith

before_range : (x from to : ℕ) → x < from → on_stack from to x ≡ false
before_range x from to h = ground arith

out_of_rest :
    (x slot there end : ℕ)
    → slot < there
    → on_stack slot end x ≡ false
    → on_stack there end x ≡ false
out_of_rest x slot there end h out = ground arith

not_slot :
    (words : ℕ → ℕ) (x slot there end : ℕ)
    → slot < end
    → on_stack slot end x ≡ false
    → (if x == slot then there else words x) ≡ words x
not_slot words x slot there end h out = ground arith

module _ (frame top delta base : ℕ) (parent : ℕ → ℕ) (start : (frame + delta) % 2 ^ 64 ≡ base)
    (fits : base + (top - frame) ≤ 2 ^ 64) where
  moved_lem : (v : ℕ) → on_stack frame top v ≡ true → (v + delta) % 2 ^ 64 ≡ base + (v - frame)
  moved_lem v on = ground (arith, on, start, fits)

  -- Memory after the walk from `a` on, when it was `words` before: the chain, and nothing below the
  -- slot of `a` or outside the child's stack is written.
  Walked : ℕ → (ℕ → ℕ) → Option (ℕ → ℕ) → Type 0
  Walked a words o =
      (words' : ℕ → ℕ) × (o ≡ some words')
      × Chain frame top base parent words' a
      × ((x : ℕ)
          → on_stack (base + (a - frame)) (base + (top - frame)) x ≡ false
          → words' x ≡ words x)

  walk-Walked :
      (fuel a : ℕ) (words : ℕ → ℕ)
      → on_stack frame top a ≡ true
      → top - a ≤ fuel
      → ((b : ℕ) → a ≤ b → b < top → b % 8 ≡ 0 → words (base + (b - frame)) ≡ parent b)
      → a % 8 ≡ 0
      → Rises frame top parent a
      → Walked a words (walk fuel frame top delta words (base + (a - frame)))
  unfolding walk Walked
  walk-Walked zero a words on enough copied word rises = absurd (ground (arith, on))
  walk-Walked (suc fuel) a words on enough copied word (stops e) =
      let value = copied a (omega arith) (ground (arith, on)) word in
      (
        words,
        walk_end fuel frame top delta words (base + (a - frame)) (parent a) value e,
        ends e value,
        λ x out. refl,
      )
  walk-Walked (suc fuel) a words on enough copied word (climbs e up next_word rises) =
      let slot = base + (a - frame) in
      let value : words slot ≡ parent a = copied a (omega arith) (ground (arith, on)) word in
      let v = parent a in
      let low : frame ≤ a = ground (arith, on) in
      let there = base + (v - frame) in
      let words₁ : ℕ → ℕ = λ x. if x == slot then there else words x in
      let inside : slot < base + (top - frame) = ground (arith, on) in
      let apart : slot < there = omega (arith, up, low) in
      let copied₁ : (b : ℕ) → v ≤ b → b < top → b % 8 ≡ 0 → words₁ (base + (b - frame)) ≡ parent b =
        λ b up' b_low b_word.
          next_copied words (base + (b - frame)) slot there (omega (arith, up, up', low))
          ∙ copied b (omega (arith, up, up')) b_low b_word in
      let (words', eq, chain, kept) =
        walk-Walked fuel v words₁ e (omega (arith, up, enough)) copied₁ next_word rises in
      let first : words' slot ≡ there =
        kept slot (before_range slot there (base + (top - frame)) apart)
        ∙ at_slot words slot there in
      (
        words',
        walk_step fuel frame top delta words slot v there value e (moved_lem v e) ∙ eq,
        link e first chain,
        λ x out.
            kept x (out_of_rest x slot there (base + (top - frame)) apart out)
            ∙ not_slot words x slot there (base + (top - frame)) inside out,
      )

-- Two ranges of bytes without a byte in common.
abbrev pub Disjoint : ℕ → ℕ → ℕ → Type 0
Disjoint a b n = (a + n ≤ b) ⊎ (b + n ≤ a)

copied_outside :
    (left base frame x : ℕ) (words : ℕ → ℕ)
    → on_stack base (base + left * 8) x ≡ false
    → copy_stack left base frame words x ≡ words x
unfolding copy_stack
copied_outside zero base frame x words out = refl
copied_outside (suc left) base frame x words out =
    copied_outside left (base + 8) (frame + 8) x _ (ground (arith, out)) ∙ ground (arith, out)

-- The copy, word for word, of a range that it does not write into.
copied_lem :
    (left base frame b : ℕ) (words : ℕ → ℕ)
    → Disjoint base frame (left * 8)
    → frame ≤ b
    → b < frame + left * 8
    → (b - frame) % 8 ≡ 0
    → copy_stack left base frame words (base + (b - frame)) ≡ words b
unfolding copy_stack
copied_lem zero base frame b words apart h k word = absurd (omega (arith, h, k))
copied_lem (suc left) base frame b words apart h k word = elim (ℕ_discrete b frame) [
  | yes first ↦
      let here : base + (b - frame) ≡ base = omega (arith, first) in
      ap (copy_stack left (base + 8) (frame + 8) _) here
      ∙ copied_outside left (base + 8) (frame + 8) base _ (ground arith)
      ∙ at_slot words base (words frame)
      ∙ ap words (sym first)
  | no later ↦
      let there : base + (b - frame) ≡ base + 8 + (b - (frame + 8)) =
        omega (arith, later, h, word) in
      let unwritten : b ≢ base = λ e. elim apart [
        | inl below ↦ omega (arith, below, e, h)
        | inr above ↦ omega (arith, above, e, k)
      ] in
      let apart' : Disjoint (base + 8) (frame + 8) (left * 8) = elim apart [
        | inl below ↦ inl (omega (arith, below))
        | inr above ↦ inr (omega (arith, above))
      ] in
      ap (copy_stack left (base + 8) (frame + 8) _) there
      ∙ copied_lem left (base + 8) (frame + 8) b _ apart' (omega (arith, later, h, word))
          (omega (arith, k)) (omega (arith, later, h, word))
      ∙ ground (arith, unwritten)
]

clone_stack_rebased-some :
    (from to : Region) (frame : ℕ) (words words' : ℕ → ℕ) (base : ℕ)
    → (frame + (to.end + 2 ^ 64 - from.end) % 2 ^ 64) % 2 ^ 64 ≡ base
    → walk
        (from.end - frame)
        frame
        from.end
        ((to.end + 2 ^ 64 - from.end) % 2 ^ 64)
        (copy_stack ((from.end - frame) / 8) base frame words)
        (base + fork_frame_fp_slot)
      ≡ some words'
    → clone_stack_rebased from to frame words ≡ some (base, words')
unfolding clone_stack_rebased
clone_stack_rebased-some from to frame words words' base start eq =
    rw (clone_stack_rebased, start, eq) (ap (λ b. some (b, words')) start)

-- For a frame whose slot of a frame pointer is on the parent's stack, of which no more is copied than
-- fits below the end of the child's; for a frame and ends of both stacks that are multiples of 8 below
-- 2^64; where the part of the parent's stack that is
-- copied and the as large top of the child's have no byte in common, and where the parent's chain of
-- frame pointers goes up, over addresses of words, to its end: the walk ends, the child's stack
-- pointer is the frame's place in its own stack, its chain of frame pointers is the parent's, moved,
-- and no word outside its stack is written.
pub clone_stack_rebased_lem :
    (from to : Region) (frame : ℕ) (words : ℕ → ℕ)
    → frame + fork_frame_fp_slot < from.end
    → from.end < 2 ^ 64
    → to.end < 2 ^ 64
    → from.end - frame ≤ to.end
    → frame % 8 ≡ 0
    → from.end % 8 ≡ 0
    → to.end % 8 ≡ 0
    → Disjoint (to.end - (from.end - frame)) frame (from.end - frame)
    → Rises frame from.end words (frame + fork_frame_fp_slot)
    → let sp = to.end - (from.end - frame) in
      (words' : ℕ → ℕ) × (clone_stack_rebased from to frame words ≡ some (sp, words'))
      × Chain frame from.end sp words words' (frame + fork_frame_fp_slot)
      × ((x : ℕ) → on_stack sp to.end x ≡ false → words' x ≡ words x)
unfolding Walked
clone_stack_rebased_lem from to frame words room small_from small_to fits low_word top_word to_word
      apart rises =
    let sp = to.end - (from.end - frame) in
    let delta = (to.end + 2 ^ 64 - from.end) % 2 ^ 64 in
    let start : (frame + delta) % 2 ^ 64 ≡ sp = omega (arith, room, small_from, small_to, fits) in
    let n = from.end - frame in
    let all : n / 8 * 8 ≡ n = omega (arith, low_word, top_word, room) in
    let a = frame + fork_frame_fp_slot in
    let copied = copy_stack (n / 8) sp frame words in
    let slot : sp + fork_frame_fp_slot ≡ sp + (a - frame) = omega arith in
    let (words', eq, chain, kept) =
      walk-Walked frame from.end delta sp words start (omega (arith, fits, small_to)) n a copied
        (ground (arith, room)) (omega (arith, room))
        (λ b up low word.
          copied_lem (n / 8) sp frame b words (rw all apart) (omega (arith, up))
            (omega (arith, low, all)) (omega (arith, word, low_word, up)))
        (omega (arith, low_word)) rises in
    let ends_at : sp + n ≡ to.end = omega (arith, fits) in
    let copy_ends : sp + n / 8 * 8 ≡ to.end = omega (arith, fits, all) in
    (
      words',
      clone_stack_rebased-some from to frame words words' sp start
          (ap (walk n frame from.end delta copied) slot ∙ eq),
      chain,
      λ x out.
          let outside : on_stack sp (sp + n) x ≡ false = rw ends_at out in
          let uncopied : on_stack sp (sp + n / 8 * 8) x ≡ false = rw copy_ends out in
          kept x (out_of_rest x sp (sp + (a - frame)) (sp + n) (omega arith) outside)
          ∙ copied_outside (n / 8) sp frame x words uncopied,
    )
