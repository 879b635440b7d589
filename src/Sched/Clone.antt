-- ===== src/Sched/Clone.antt =====
-- `clone_stack_rebased` of kernel/scheduler/process.c: the copy of a stack, whose frame pointers are
-- moved to where the copy lies.
pub mod Chain
use horizon_os.Prelude.{
  ℕ, zero, suc, ◌+◌, ◌-◌, ◌*◌, ◌/◌, ◌%◌, ◌^◌, ◌≤◌, ◌<◌, ◌≡◌, ◌≢◌, refl, ap, sym, ◌∙◌, ◌⊎◌, inl, inr,
  Bool, true, false, ◌&&◌, Option, none, some, arith, ltb, leb, ◌==◌, if◌then◌else◌, Bool-cases,
}
use horizon_os.Sched.Kernel.{Region}

-- The loop over the frame pointers, for `fuel` of them at most: `none` where it goes on.
unfoldable pub walk : ℕ → ℕ → ℕ → ℕ → (ℕ → ℕ) → ℕ → Option (ℕ → ℕ)
walk zero frame top delta words slot =
    if leb frame (words slot) && ltb (words slot) top then none else some words
walk (suc fuel) frame top delta words slot =
    let moved = (words slot + delta) % 2 ^ 64 in
    let rest = walk fuel frame top delta (λ a. if a == slot then moved else words a) moved in
    if leb frame (words slot) && ltb (words slot) top then rest else some words

-- `memcpy` of this many words, upwards. Memory is its words, by the addresses they begin at, so what
-- is copied begins and ends on a multiple of 8.
unfoldable pub copy_stack : ℕ → ℕ → ℕ → (ℕ → ℕ) → ℕ → ℕ
copy_stack zero to from words = words
copy_stack (suc left) to from words =
    copy_stack left (to + 8) (from + 8) (λ a. if a == to then words from else words a)

-- `FORK_FRAME_FP_SLOT`, in bytes.
abbrev pub fork_frame_fp_slot : ℕ
fork_frame_fp_slot = 5 * 8

-- The stack of the running process, the child's, and the frame at which the running stack begins:
-- the child's stack pointer, and memory after the copy. Frame pointers that go up end within the
-- fuel.
unfoldable pub clone_stack_rebased : Region → Region → ℕ → (ℕ → ℕ) → Option (ℕ × (ℕ → ℕ))
unfolding walk copy_stack
clone_stack_rebased from to frame words =
    let delta = (to.end + 2 ^ 64 - from.end) % 2 ^ 64 in
    let child_frame = (frame + delta) % 2 ^ 64 in
    let copied = copy_stack ((from.end - frame) / 8) child_frame frame words in
    elim (walk (from.end - frame) frame from.end delta copied (child_frame + fork_frame_fp_slot)) [
      | none ↦ none
      | some words' ↦ some (child_frame, words')
    ]
