-- ===== src/Sched/Steps/Clones.antt =====
-- The copy of the parent's stack, as `fork` makes it, is not seen by the queues.
use horizon_os.Prelude.{Option-cases, ℕ, ◌≡◌, refl, inl, inr, some, arith}
use horizon_os.Sched.Lists.{ListHead}
use horizon_os.Sched.Kernel.{Kernel, Region, ok, Outcome-cases, state_at, modify}
use horizon_os.Sched.Kernel.States.{modify_same}
use horizon_os.Sched.Clone.{clone_stack_rebased}
use horizon_os.Sched.Table.{Machine, clone_parent_base_frame, find_stack, clone_into}
use horizon_os.Sched.Table.Alloc.{SameQueues}

module _ (L : ListHead) {Mem : Type 0} (M : Machine Mem) where
  open L use {Store}

  -- The kernel once the child `c` has a stack pointer and a copied stack.
  cloned : ℕ → (ℕ → ℕ) → ℕ → Kernel Store Mem → Kernel Store Mem
  cloned sp words' c k = record k {
    processes = modify k.processes c (λ p. record p { parent = some k.task; sp = sp });
    words = words';
  }

  cloned_same :
      (sp : ℕ) (words' : ℕ → ℕ) (c : ℕ) (k : Kernel Store Mem)
      → ((q : ℕ) → state_at (cloned sp words' c k).processes q ≡ state_at k.processes q)
        × SameQueues k (cloned sp words' c k)
  unfolding cloned
  cloned_same sp words' c k = (
    (λ q. modify_same k.processes c q _ (λ p. refl)),
    record { mlfq = refl; mlfq_lock = refl; task = refl; scheduler_proc = refl },
  )

  abbrev pub Same : Kernel Store Mem → Kernel Store Mem → Type 0
  Same k k' = ((q : ℕ) → state_at k'.processes q ≡ state_at k.processes q) × SameQueues k k'

  -- The copy of the parent's stack changes no state and no queue.
  frame-Same :
      (from to : Region) (c : ℕ) (k k' : Kernel Store Mem)
      → clone_parent_base_frame M c from to k ≡ ok k'
      → Same k k'
  unfolding clone_parent_base_frame cloned
  frame-Same from to c k k' h =
      let (frame, pushed) = M.push_frame from k.words in
      elim (Option-cases (clone_stack_rebased from to frame pushed)) [
        | inl g ↦ absurd (cc (rw (g, clone_parent_base_frame) at h))
        | inr ((sp, words'), g) ↦
            let same : cloned sp words' c k ≡ k' =
              ground (arith, rw (g, clone_parent_base_frame) at h) in
            rw (← same) (cloned_same sp words' c k)
      ]

  pub clone-Same : (c : ℕ) (k k' : Kernel Store Mem) → clone_into M c k ≡ ok k' → Same k k'
  unfolding clone_into
  clone-Same c k k' h = elim (Outcome-cases (find_stack k.processes k.task)) [
    | inl e ↦ absurd (cc (rw (e, clone_into) at h))
    | inr (inl e) ↦ absurd (cc (rw (e, clone_into) at h))
    | inr (inr (from, e)) ↦ elim (Outcome-cases (find_stack k.processes c)) [
      | inl f ↦ absurd (cc (rw (e, f, clone_into) at h))
      | inr (inl f) ↦ absurd (cc (rw (e, f, clone_into) at h))
      | inr (inr (to, f)) ↦ frame-Same from to c k k' (rw (e, f, clone_into) at h)
    ]
  ]
