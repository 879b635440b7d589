-- ===== src/Sched/Steps.antt =====
-- The scheduler and the processes that it runs, as a step relation: once the scheduler has its own
-- process, control is either in its loop or in the process that it switched into. A process that is
-- on the cpu yields, exits, is interrupted by the timer, or forks.
pub mod Inv
pub mod Run
pub mod Back
pub mod Clones
pub mod Forks
pub mod Reach
pub mod Turns
pub mod Wait
pub mod Fair
use horizon_os.Prelude.{ℕ, ◌≡◌, Option, none, some, List}
use horizon_os.Prelude.Int.{ℤ}
use horizon_os.Sched.Lists.{ListHead}
use horizon_os.Sched.Kernel.{Kernel, Name, Outcome, ok, ◌>>=◌}
use horizon_os.Sched.Mlfq.{claim, dispatch, resume, yield, exit_process, preempt}
use horizon_os.Sched.Table.{Machine, fork}

-- Where control is: `on_cpu p level` holds the variables `p` and `level` of the scheduler's loop.
pub data Phase : Type 0 where
  scheduling : Phase
  on_cpu : ℕ → ℕ → Phase

module _ (L : ListHead) {Mem : Type 0} (M : Machine Mem) where
  open L use {Store}

  pub data Step : Phase → Kernel Store Mem → Phase → Kernel Store Mem → Type 0 where
    runs :
        {p level : ℕ} {k k' : Kernel Store Mem}
        → claim L k ≡ ok (some (p, level), k')
        → Step scheduling k (on_cpu p level) (dispatch L p k')
    spins : {k k' : Kernel Store Mem} → claim L k ≡ ok (none, k') → Step scheduling k scheduling k'
    yields :
        {p level : ℕ} {k k₁ k₂ : Kernel Store Mem}
        → yield L k ≡ ok k₁
        → resume L p level k₁ ≡ ok k₂
        → Step (on_cpu p level) k scheduling k₂
    exits :
        {p level : ℕ} {k k₁ k₂ : Kernel Store Mem}
        → exit_process L k ≡ ok k₁
        → resume L p level k₁ ≡ ok k₂
        → Step (on_cpu p level) k scheduling k₂
    interrupted :
        {p level : ℕ} {k k₁ k₂ : Kernel Store Mem}
        → preempt L k ≡ ok k₁
        → resume L p level k₁ ≡ ok k₂
        → Step (on_cpu p level) k scheduling k₂
    forks :
        {p level : ℕ} {k k' : Kernel Store Mem} {answer : ℤ} (name : Name) (at : ℤ)
        → fork L M name at k ≡ ok (answer, k')
        → Step (on_cpu p level) k (on_cpu p level) k'

  -- Any number of steps.
  pub data Steps (ph : Phase) (k : Kernel Store Mem) : Phase → Kernel Store Mem → Type 0 where
    here : Steps ph k ph k
    next :
        {ph' ph'' : Phase} {k' k'' : Kernel Store Mem}
        → Steps ph k ph' k'
        → Step ph' k' ph'' k''
        → Steps ph k ph'' k''
