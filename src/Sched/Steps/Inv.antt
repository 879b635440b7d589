-- ===== src/Sched/Steps/Inv.antt =====
-- What holds of the process table and the run queues between two steps, and what the operations on
-- the queues do to it.
use horizon_os.Prelude.{
  ℕ, ◌<◌, ◌≡◌, ◌≢◌, inl, inr, Bool, true, false, ◌&&◌, not, Option, none, some, List, arith, leb,
  ◌==◌, if◌then◌else◌, Bool-cases,
}
use horizon_os.Prelude.Int.{pos}
use horizon_os.Sched.Lists.{ListHead}
use horizon_os.Sched.Kernel.{
  Kernel, Process, ProcessState, unused, ready, running, ok, state_at, irq_save, irq_restore,
  spinlock, release,
}
use horizon_os.Sched.Mlfq.{claim, claim_from, sched_enqueue}
use horizon_os.Sched.Mlfq.Total.{total, OnlyQueues}
use horizon_os.Sched.Steps.{Phase, scheduling, on_cpu}

abbrev pub runnable : ProcessState → Bool
runnable ready = true
runnable running = true
runnable _ = false

abbrev pub is_slot : Option ℕ → ℕ → Bool
is_slot none q = false
is_slot (some s) q = q == s

abbrev pub holds_cpu : Phase → ℕ → Bool
holds_cpu scheduling q = false
holds_cpu (on_cpu p level) q = q == p

-- How often a process should stand on the queues: once, if it can run and is neither the scheduler
-- nor on the cpu, and else not at all.
abbrev pub due : Phase → List Process → Option ℕ → ℕ → ℕ
due ph ps sched q =
    if runnable (state_at ps q) && (not (is_slot sched q) && not (holds_cpu ph q)) then 1 else 0

-- The cpu's task: the process that the scheduler switched into.
abbrev pub AtPhase : Phase → List Process → ℕ → Option ℕ → Type 0
AtPhase scheduling ps task sched = Unit {0}
AtPhase (on_cpu p level) ps task sched =
    (task ≡ p) × (level < 3) × (state_at ps p ≡ running) × (is_slot sched p ≡ false)

module _ (L : ListHead) {Mem : Type 0} where
  open L use {Store, list_add_tail}

  pub record Inv (ph : Phase) (k : Kernel Store Mem) : Type 0 where
    pub queued : (q : ℕ) → total L k.mlfq q ≡ due ph k.processes k.scheduler_proc q
    pub only : OnlyQueues L k.mlfq
    pub unlocked : k.mlfq_lock ≡ false
    pub at : AtPhase ph k.processes k.task k.scheduler_proc
    pub live : (q : ℕ) → is_slot k.scheduler_proc q ≡ true → state_at k.processes q ≢ unused

  -- With the lock free and the level in range, `sched_enqueue` returns, with the process at the end
  -- of the level's queue and all else as it was.
  pub enqueue_lem :
      (p level : ℕ) (k : Kernel Store Mem)
      → k.mlfq_lock ≡ false
      → level < 3
      → sched_enqueue L p (pos level) k
        ≡ ok (record k { mlfq = list_add_tail p level k.mlfq; mlfq_lock = false })
  unfolding sched_enqueue irq_save irq_restore spinlock release
  enqueue_lem p level k free h = elim (Bool-cases k.interrupts) [
    | inl on ↦ let low : leb 3 level ≡ false = ground arith in rw (low, free, on)
    | inr off ↦ let low : leb 3 level ≡ false = ground arith in rw (low, free, off)
  ]

  -- With the lock free `claim` returns what the loop over the queues finds, with interrupts on and
  -- all else as it was.
  pub claim_ok :
      (k : Kernel Store Mem)
      → k.mlfq_lock ≡ false
      → let (found, s) = claim_from L 3 0 k.mlfq in
        claim L k ≡ ok (found, record k { mlfq = s; mlfq_lock = false; interrupts = true })
  unfolding claim irq_save irq_restore spinlock release
  claim_ok k free = rw free
