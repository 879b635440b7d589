-- ===== src/Sched/Steps/Reach.antt =====
-- Every step of the system keeps the invariant.
use horizon_os.Prelude.{ℕ, ◌≡◌, subst, inl, inr, false, none, arith, Option-cases}
use horizon_os.Sched.Lists.{ListHead}
use horizon_os.Sched.Kernel.{Kernel, Outcome, ok, ◌>>=◌}
use horizon_os.Sched.Mlfq.{yield, exit_process, preempt}
use horizon_os.Sched.Mlfq.Total.{total}
use horizon_os.Sched.Table.{Machine}
use horizon_os.Sched.Steps.{
  Phase, scheduling, Step, runs, spins, yields, exits, interrupted, forks, Steps, here, next,
}
use horizon_os.Sched.Steps.Inv.{Inv, due}
use horizon_os.Sched.Steps.Run.{run-Inv, spin-Inv}
use horizon_os.Sched.Steps.Back.{yield-resume, preempt-resume, exit-resume}
use horizon_os.Sched.Steps.Forks.{fork-Inv}

module _ (L : ListHead) {Mem : Type 0} where
  open L use {Store}

  -- With no scheduler process no way leads back.
  no_scheduler :
      (k k' : Kernel Store Mem)
      → k.scheduler_proc ≡ none
      → (yield L k ≡ ok k' → ⊥) × (exit_process L k ≡ ok k' → ⊥) × (preempt L k ≡ ok k' → ⊥)
  unfolding yield exit_process preempt
  no_scheduler k k' e = ((λ h. cc (rw e at h)), (λ h. cc (rw e at h)), λ h. cc (rw e at h))

  two_stages :
      (m : Outcome (Kernel Store Mem)) (f : Kernel Store Mem → Outcome (Kernel Store Mem))
      (k₁ k₂ k₃ : Kernel Store Mem)
      → m ≡ ok k₁
      → f k₁ ≡ ok k₂
      → (m >>= f) ≡ ok k₃
      → k₃ ≡ k₂
  two_stages m f k₁ k₂ k₃ e g h = ground (arith, g, rw e at h)

module _ (L : ListHead) {Mem : Type 0} (M : Machine Mem) where
  open L use {Store}

  -- One step, whatever it is: a claim, an idle round, a yield, an exit, a timer interrupt or a fork.
  pub Step-Inv :
      {ph ph' : Phase} {k k' : Kernel Store Mem} → Step L M ph k ph' k' → Inv L ph k → Inv L ph' k'
  Step-Inv (runs {p} {level} {k} {k'} e) inv = (run-Inv L k inv p level k' e).0
  Step-Inv (spins {k} {k'} e) inv = spin-Inv L k inv k' e
  Step-Inv (yields {p} {level} {k} {k₁} {k₂} e f) inv = elim (Option-cases k.scheduler_proc) [
    | inl n ↦ absurd ((no_scheduler L k k₁ n).0 e)
    | inr (s, sched) ↦
        let r = yield-resume L p level k inv s sched in
        subst (Inv L scheduling) (two_stages L _ _ k₁ k₂ _ e f r.0) r.1
  ]
  Step-Inv (exits {p} {level} {k} {k₁} {k₂} e f) inv = elim (Option-cases k.scheduler_proc) [
    | inl n ↦ absurd ((no_scheduler L k k₁ n).1 e)
    | inr (s, sched) ↦
        let r = exit-resume L p level k inv s sched in
        subst (Inv L scheduling) (two_stages L _ _ k₁ k₂ _ e f r.0) r.1
  ]
  Step-Inv (interrupted {p} {level} {k} {k₁} {k₂} e f) inv = elim (Option-cases k.scheduler_proc) [
    | inl n ↦ absurd ((no_scheduler L k k₁ n).2 e)
    | inr (s, sched) ↦
        let r = preempt-resume L p level k inv s sched in
        subst (Inv L scheduling) (two_stages L _ _ k₁ k₂ _ e f r.0) r.1
  ]
  Step-Inv (forks {p} {level} {k} {k'} {answer} name at e) inv =
      fork-Inv L M p level k k' name at answer inv e

  Steps-Inv :
      {ph : Phase} {k : Kernel Store Mem} {ph' : Phase} {k' : Kernel Store Mem}
      → Steps L M ph k ph' k'
      → Inv L ph k
      → Inv L ph' k'
  Steps-Inv here inv = inv
  Steps-Inv (next steps step) inv = Step-Inv step (Steps-Inv steps inv)

  -- In every state that steps lead to from one where the invariant holds, each process that can run,
  -- and is neither the scheduler nor on the cpu, stands exactly once on the run queues, and no other
  -- slot stands on them; and the lock of the queues is free.
  pub Steps-queued :
      {ph ph' : Phase} {k k' : Kernel Store Mem}
      → Steps L M ph k ph' k'
      → Inv L ph k
      → ((q : ℕ) → total L k'.mlfq q ≡ due ph' k'.processes k'.scheduler_proc q)
        × (k'.mlfq_lock ≡ false)
  Steps-queued steps inv = let i = Steps-Inv steps inv in (i.queued, i.unlocked)
