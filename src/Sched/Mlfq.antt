-- ===== src/Sched/Mlfq.antt =====
-- kernel/scheduler/scheduler.c: the run queues, one round of the scheduler's loop, and the ways in
-- which a process hands the cpu back.
pub mod Claim
pub mod Total
pub mod Ahead
use horizon_os.Prelude.{
  ℕ, zero, suc, ◌+◌, Bool, true, false, Option, none, some, List, [], ◌∷◌, ltb, leb, if◌then◌else◌,
}
use horizon_os.Prelude.Int.{ℤ, pos, negsuc}
use horizon_os.Sched.Lists.{ListHead}
use horizon_os.Sched.Kernel.{
  Kernel, Process, ProcessState, ready, running, zombie, num_priority_levels, Outcome, ok, panic,
  hang, ◌>>=◌, state_at, set_state, irq_save, irq_restore, spinlock, release, ctx_switch,
}

unfoldable pub demote : ℕ → ℕ
demote level = if ltb (level + 1) num_priority_levels then level + 1 else level

unfoldable pub is_zombie : ProcessState → Bool
is_zombie zombie = true
is_zombie _ = false

module _ (L : ListHead) where
  open L use {Store, init_list_head, list_empty_careful, list_first_entry, list_del_init_careful}

  -- The loop of `init_scheduler`: the heads `0` to `2` are the queues.
  unfoldable pub init_lists : ℕ → Store → Store
  init_lists zero s = s
  init_lists (suc n) s = init_list_head n (init_lists n s)

  -- The scheduler's loop over the levels: `left` of them are still to be looked at, from `i` on.
  unfoldable pub claim_from : ℕ → ℕ → Store → Option (ℕ × ℕ) × Store
  claim_from zero i s = (none, s)
  claim_from (suc left) i s =
      let p = list_first_entry i s in
      let found : Option (ℕ × ℕ) × Store = (some (p, i), list_del_init_careful p s) in
      elim (list_empty_careful i s) [ true ↦ claim_from left (i + 1) s | false ↦ found ]

module _ (L : ListHead) {Mem : Type 0} where
  open L use {Store, list_add_tail}

  unfoldable pub init_scheduler : Kernel Store Mem → Kernel Store Mem
  unfolding init_lists
  init_scheduler k = record k { mlfq = init_lists L num_priority_levels k.mlfq; mlfq_lock = false }

  -- The critical section of `sched_enqueue`.
  unfoldable pub enqueue_locked : ℕ → ℕ → Kernel Store Mem → Outcome (Kernel Store Mem)
  enqueue_locked p level k =
      let (flags, k₁) = irq_save k in
      do
        k₂ ← spinlock k₁
        ok (irq_restore flags (release (record k₂ { mlfq = list_add_tail p level k₂.mlfq })))

  unfoldable pub sched_enqueue : ℕ → ℤ → Kernel Store Mem → Outcome (Kernel Store Mem)
  unfolding enqueue_locked
  sched_enqueue p (negsuc n) k = panic
  sched_enqueue p (pos level) k =
      if leb num_priority_levels level then panic else enqueue_locked p level k

  -- From the top of the scheduler's loop to the end of its critical section.
  unfoldable pub claim : Kernel Store Mem → Outcome (Option (ℕ × ℕ) × Kernel Store Mem)
  unfolding claim_from
  claim k =
      let (flags, k₁) = irq_save (record k { interrupts = true }) in
      do
        k₂ ← spinlock k₁
        let (found, s) = claim_from L num_priority_levels 0 k₂.mlfq
        ok (found, irq_restore flags (release (record k₂ { mlfq = s })))

  -- The claimed process is switched into.
  unfoldable pub dispatch : ℕ → Kernel Store Mem → Kernel Store Mem
  dispatch p k = ctx_switch p (record k { processes = set_state k.processes p running })

  -- The scheduler goes on after `p`, claimed from `level`, handed the cpu back.
  unfoldable pub resume : ℕ → ℕ → Kernel Store Mem → Outcome (Kernel Store Mem)
  unfolding is_zombie sched_enqueue
  resume p level k =
      if is_zombie (state_at k.processes p) then ok k else sched_enqueue p (pos (demote level)) k

  unfoldable pub yield : Kernel Store Mem → Outcome (Kernel Store Mem)
  yield k = elim k.scheduler_proc [
    | none ↦ panic
    | some s ↦ ok (ctx_switch s (record k { processes = set_state k.processes k.task ready }))
  ]

  -- `exit_process`, up to the switch it never comes back from. It does not look whether there is a
  -- scheduler: `none` is a switch through a null pointer, and `panic` here.
  unfoldable pub exit_process : Kernel Store Mem → Outcome (Kernel Store Mem)
  exit_process k = elim k.scheduler_proc [
    | none ↦ panic
    | some s ↦ ok (ctx_switch s (record k { processes = set_state k.processes k.task zombie }))
  ]

  -- `timer_interrupt_handler_sched` of kernel/time.c: the process stays in state RUNNING.
  unfoldable pub preempt : Kernel Store Mem → Outcome (Kernel Store Mem)
  preempt k = elim k.scheduler_proc [ none ↦ panic | some s ↦ ok (ctx_switch s k) ]
