-- ===== src/Sched/Steps/Back.antt =====
-- The ways back to the scheduler: each keeps the invariant, and only a process that exits is not
-- queued again.
use horizon_os.Prelude.{
  ℕ, ◌+◌, ◌<◌, ◌≡◌, ◌≢◌, refl, ap, sym, ◌∙◌, true, false, ◌&&◌, Option, some, List, arith, ◌==◌,
  if◌then◌else◌, ℕ_discrete,
}
use horizon_os.Sched.Lists.{ListHead}
use horizon_os.Sched.Kernel.{
  Kernel, Process, ProcessState, unused, ready, running, zombie, ok, state_at, set_state,
  ctx_switch, ◌>>=◌,
}
use horizon_os.Sched.Kernel.States.{set_state_self, set_state_ne}
use horizon_os.Sched.Mlfq.{demote, is_zombie, resume, yield, exit_process, preempt}
use horizon_os.Sched.Mlfq.Total.{total, total-add, only-add}
use horizon_os.Sched.Steps.{scheduling, on_cpu}
use horizon_os.Sched.Steps.Inv.{Inv, due, runnable, is_slot, enqueue_lem}

pub demote_lt : (level : ℕ) → level < 3 → demote level < 3
unfolding demote
demote_lt level h = ground arith

not_zombie : (st : ProcessState) → runnable st ≡ true → is_zombie st ≡ false
unfolding is_zombie
not_zombie st h = ground arith

not_unused : (st : ProcessState) → st ≡ running → st ≢ unused
not_unused st e u = cc

-- What is due once `p` is off the cpu, by whether its new state can run.
due_back :
    (ps ps' : List Process) (sched : Option ℕ) (p level q : ℕ)
    → ((j : ℕ) → j ≢ p → state_at ps' j ≡ state_at ps j)
    → is_slot sched p ≡ false
    → due scheduling ps' sched q
      ≡ due (on_cpu p level) ps sched q + (if (q == p) && runnable (state_at ps' p) then 1 else 0)
due_back ps ps' sched p level q others apart = elim (ℕ_discrete q p) [
  | yes e ↦ rw e (ground (arith, apart))
  | no ne ↦ ground (arith, others q ne)
]

module _ (L : ListHead) {Mem : Type 0} where
  open L use {Store, items, list_add_tail}

  -- The kernel once `p` is queued at a level.
  abbrev pub queued_at : ℕ → ℕ → Kernel Store Mem → Kernel Store Mem
  queued_at p level k = record k { mlfq = list_add_tail p level k.mlfq; mlfq_lock = false }

  resume-runnable :
      (p level : ℕ) (k : Kernel Store Mem)
      → k.mlfq_lock ≡ false
      → level < 3
      → runnable (state_at k.processes p) ≡ true
      → resume L p level k ≡ ok (queued_at p (demote level) k)
  unfolding resume
  resume-runnable p level k free h can =
      rw (not_zombie (state_at k.processes p) can)
        (enqueue_lem L p (demote level) k free (demote_lt level h))

  module _ (p level : ℕ) (k : Kernel Store Mem) (inv : Inv L (on_cpu p level) k) where
    not_queued : total L k.mlfq p ≡ 0
    not_queued = ground (arith, inv.queued p)

    apart : (q : ℕ) → is_slot k.scheduler_proc q ≡ true → q ≢ p
    apart q is same = absurd (cc (ap (is_slot k.scheduler_proc) same, inv.at.3, is))

    add_here :
        (q : ℕ)
        → total L (list_add_tail p (demote level) k.mlfq) q
          ≡ total L k.mlfq q + (if q == p then 1 else 0)
    add_here q =
        total-add L k.mlfq inv.only p not_queued (demote level) q (demote_lt level inv.at.1)

    -- The process goes back on a queue: its new state can run.
    requeue-Inv :
        (ps : List Process) (task : ℕ)
        → ((q : ℕ) → q ≢ p → state_at ps q ≡ state_at k.processes q)
        → runnable (state_at ps p) ≡ true
        → Inv L scheduling (queued_at p (demote level) (record k { processes = ps; task = task }))
    requeue-Inv ps task others can = record {
      queued = λ q. ground (
        arith,
        can,
        add_here q,
        inv.queued q,
        due_back k.processes ps k.scheduler_proc p level q others inv.at.3,
      );
      only = only-add L k.mlfq inv.only p not_queued (demote level) (demote_lt level inv.at.1);
      unlocked = refl;
      at = tt;
      live = λ q is e. inv.live q is (sym (others q (apart q is)) ∙ e);
    }

    -- The process is gone: its new state cannot run.
    gone-Inv :
        (ps : List Process) (task : ℕ)
        → ((q : ℕ) → q ≢ p → state_at ps q ≡ state_at k.processes q)
        → runnable (state_at ps p) ≡ false
        → Inv L scheduling (record k { processes = ps; task = task })
    gone-Inv ps task others cannot = record {
      queued = λ q. ground (
        arith,
        cannot,
        inv.queued q,
        due_back k.processes ps k.scheduler_proc p level q others inv.at.3,
      );
      only = inv.only;
      unlocked = inv.unlocked;
      at = tt;
      live = λ q is e. inv.live q is (sym (others q (apart q is)) ∙ e);
    }

    alive : state_at k.processes p ≢ unused
    alive = not_unused _ inv.at.2

    -- The three ways, each with the kernel that the scheduler goes on with.
    module _ (s : ℕ) (sched : k.scheduler_proc ≡ some s) where
      abbrev pub after : ProcessState → Kernel Store Mem
      after st = record k { processes = set_state k.processes p st; task = s }

      yield_lem : yield L k ≡ ok (after ready)
      unfolding yield ctx_switch
      yield_lem = rw (sched, inv.at.0)

      exit_lem : exit_process L k ≡ ok (after zombie)
      unfolding exit_process ctx_switch
      exit_lem = rw (sched, inv.at.0)

      preempt_lem : preempt L k ≡ ok (record k { task = s })
      unfolding preempt ctx_switch
      preempt_lem = rw sched

      kept :
          (st : ProcessState) (q : ℕ)
          → q ≢ p
          → state_at (set_state k.processes p st) q ≡ state_at k.processes q
      kept st q ne = set_state_ne k.processes p q st ne

      now : (st : ProcessState) → state_at (set_state k.processes p st) p ≡ st
      now st = set_state_self k.processes p st alive

      -- Where the invariant holds, with `p` on the cpu and a scheduler to go back to: a process
      -- that yields, and the scheduler after it, do not panic and do not hang; the process is READY
      -- at the end of the queue one level down, or of its own where there is none, and the
      -- invariant is kept.
      pub yield-resume :
          (yield L k >>= resume L p level ≡ ok (queued_at p (demote level) (after ready)))
          × Inv L scheduling (queued_at p (demote level) (after ready))
      yield-resume =
          let can : runnable (state_at (set_state k.processes p ready) p) ≡ true =
            rw (now ready) refl in
          (
            rw yield_lem (resume-runnable p level (after ready) inv.unlocked inv.at.1 can),
            requeue-Inv (set_state k.processes p ready) s (kept ready) can,
          )

      -- Where the invariant holds, with `p` on the cpu and a scheduler to go back to: a process
      -- that the timer interrupts stays RUNNING, goes to the same queue as one that yields, and the
      -- invariant is kept.
      pub preempt-resume :
          (preempt L k >>= resume L p level
            ≡ ok (queued_at p (demote level) (record k { task = s })))
          × Inv L scheduling (queued_at p (demote level) (record k { task = s }))
      preempt-resume =
          let can : runnable (state_at k.processes p) ≡ true = rw (inv.at.2) refl in
          (
            rw preempt_lem
                (resume-runnable p level (record k { task = s }) inv.unlocked inv.at.1 can),
            requeue-Inv k.processes s (λ q ne. refl) can,
          )

      -- Where the invariant holds, with `p` on the cpu and a scheduler to go back to: a process
      -- that exits is a ZOMBIE, the queues are as they were, and the invariant is kept.
      pub exit-resume :
          (exit_process L k >>= resume L p level ≡ ok (after zombie))
          × Inv L scheduling (after zombie)
      unfolding resume
      exit-resume =
          let gone : is_zombie (state_at (set_state k.processes p zombie) p) ≡ true =
            rw (now zombie) refl in
          (
            rw (exit_lem, gone),
            gone-Inv (set_state k.processes p zombie) s (kept zombie) (rw (now zombie) refl),
          )
