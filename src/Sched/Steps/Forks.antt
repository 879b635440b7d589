-- ===== src/Sched/Steps/Forks.antt =====
-- `fork` keeps the invariant, and so does every sequence of steps.
use horizon_os.Prelude.{
  ℕ, ◌+◌, ◌<◌, ◌≡◌, ◌≢◌, refl, ap, sym, ◌∙◌, inl, inr, Bool, true, false, Option, none, some, List,
  arith, leb, ◌==◌, if◌then◌else◌, Bool-cases, ℕ_discrete, dec_lt,
}
use horizon_os.Prelude.Int.{ℤ, pos, negsuc}
use horizon_os.Sched.Lists.{ListHead}
use horizon_os.Sched.Kernel.{
  Kernel, Name, Process, unused, ready, Outcome, ok, ◌>>=◌, Outcome-cases, state_at, irq_save,
  irq_restore,
}
use horizon_os.Sched.Mlfq.{sched_enqueue}
use horizon_os.Sched.Mlfq.Total.{total, total-add, only-add}
use horizon_os.Sched.Steps.Clones.{clone-Same}
use horizon_os.Sched.Table.{Machine, clone_into, alloc_process_no_entry, pid_at, fork}
use horizon_os.Sched.Table.Alloc.{
  NewProcess, SameQueues, alloc_no_entry-NewProcess, alloc_no_entry-full,
}
use horizon_os.Sched.Steps.{on_cpu}
use horizon_os.Sched.Steps.Inv.{Inv, due, is_slot, enqueue_lem}

-- What is due once the slot `c`, UNUSED before, is READY.
due_new :
    (ps ps' : List Process) (sched : Option ℕ) (p level c q : ℕ)
    → state_at ps c ≡ unused
    → state_at ps' c ≡ ready
    → ((j : ℕ) → j ≢ c → state_at ps' j ≡ state_at ps j)
    → is_slot sched c ≡ false
    → c ≢ p
    → due (on_cpu p level) ps' sched q ≡ due (on_cpu p level) ps sched q + (if q == c then 1 else 0)
due_new ps ps' sched p level c q was is others apart ne = elim (ℕ_discrete q c) [
  | yes e ↦ rw e (ground (arith, was, is, apart, ne))
  | no other ↦ ground (arith, others q other)
]

module _ (L : ListHead) {Mem : Type 0} (M : Machine Mem) where
  open L use {Store, items, list_add_tail}

  -- A level out of range makes the kernel panic, so an enqueue that returns had one in range.
  enqueue_inv :
      (p : ℕ) (at : ℤ) (k k' : Kernel Store Mem)
      → k.mlfq_lock ≡ false
      → sched_enqueue L p at k ≡ ok k'
      → (level : ℕ) × (level < 3)
        × (at ≡ pos level)
        × (k' ≡ record k { mlfq = list_add_tail p level k.mlfq; mlfq_lock = false })
  unfolding sched_enqueue
  enqueue_inv p (negsuc n) k k' free h = absurd (ground arith)
  enqueue_inv p (pos level) k k' free h = elim (dec_lt level 3) [
    | yes low ↦ (level, low, refl, ground (arith, h, enqueue_lem L p level k free low))
    | no high ↦ let out : leb 3 level ≡ true = ground arith in absurd (ground (arith, h, out))
  ]

  module _ (p level : ℕ) where
    -- The interrupt flag plays no part in the invariant.
    restore-Inv :
        (b : Bool) (k : Kernel Store Mem)
        → Inv L (on_cpu p level) k
        → Inv L (on_cpu p level) (irq_restore b k)
    unfolding irq_restore
    restore-Inv true k inv = record {
      queued = inv.queued;
      only = inv.only;
      unlocked = inv.unlocked;
      at = inv.at;
      live = inv.live;
    }
    restore-Inv false k inv = inv

    masked-Inv :
        (k : Kernel Store Mem)
        → Inv L (on_cpu p level) k
        → Inv L (on_cpu p level) (record k { interrupts = false })
    masked-Inv k inv = record {
      queued = inv.queued;
      only = inv.only;
      unlocked = inv.unlocked;
      at = inv.at;
      live = inv.live;
    }

    -- The new process `c` is READY in the kernel `k₃` and goes to the end of a queue.
    module _ (k k₃ : Kernel Store Mem) (inv : Inv L (on_cpu p level) k) (c : ℕ)
        (new : NewProcess c k k₃) where
      differs : c ≢ p
      differs e = absurd (cc (new.was_unused, inv.at.2, ap (state_at k.processes) e))

      apart : is_slot k.scheduler_proc c ≡ false
      apart = elim (Bool-cases (is_slot k.scheduler_proc c)) [
        | inl is ↦ absurd (inv.live c is new.was_unused)
        | inr isnt ↦ isnt
      ]

      not_queued : total L k.mlfq c ≡ 0
      not_queued = ground (arith, inv.queued c, new.was_unused)

      forked-Inv :
          (at : ℕ)
          → at < 3
          → Inv L
              (on_cpu p level)
              (record k₃ { mlfq = list_add_tail c at k₃.mlfq; mlfq_lock = false })
      forked-Inv at low = record {
        queued = λ q.
            rw (new.queues.mlfq, new.queues.scheduler_proc)
              (total-add L k.mlfq inv.only c not_queued at q low
                ∙ ap (λ n. n + (if q == c then 1 else 0)) (inv.queued q)
                ∙ sym (
                    due_new k.processes k₃.processes k.scheduler_proc p level c q new.was_unused
                      new.is_ready new.others apart differs));
        only = rw new.queues.mlfq (only-add L k.mlfq inv.only c not_queued at low);
        unlocked = refl;
        at = (
          new.queues.task ∙ inv.at.0,
          inv.at.1,
          new.others p (λ e. differs (sym e)) ∙ inv.at.2,
          rw new.queues.scheduler_proc inv.at.3,
        );
        live = λ q is e.
            let was : is_slot k.scheduler_proc q ≡ true = rw (← new.queues.scheduler_proc) is in
            let other : q ≢ c = λ same. cc (ap (is_slot k.scheduler_proc) same, apart, was) in
            inv.live q was (sym (new.others q other) ∙ e);
      }

  -- The new process after the clone is as new as before it.
  NewProcess-clone :
      {c : ℕ} {k k₂ k₃ : Kernel Store Mem}
      → NewProcess c k k₂
      → ((q : ℕ) → state_at k₃.processes q ≡ state_at k₂.processes q) × SameQueues k₂ k₃
      → NewProcess c k k₃
  NewProcess-clone {c} new (same, queues) = record {
    was_unused = new.was_unused;
    is_ready = same c ∙ new.is_ready;
    others = λ q ne. same q ∙ new.others q ne;
    queues = record {
      mlfq = queues.mlfq ∙ new.queues.mlfq;
      mlfq_lock = queues.mlfq_lock ∙ new.queues.mlfq_lock;
      task = queues.task ∙ new.queues.task;
      scheduler_proc = queues.scheduler_proc ∙ new.queues.scheduler_proc;
    };
  }

  -- The rest of `fork` once it has a child.
  fork_child : (c : ℕ) (at : ℤ) (flags : Bool) → Kernel Store Mem → Outcome (ℤ × Kernel Store Mem)
  fork_child c at flags k₂ = clone_into M c k₂ >>= λ k₃.
      sched_enqueue L c at k₃ >>= λ k₄. ok (pos (pid_at k₄.processes c), irq_restore flags k₄)

  fork_child-Inv :
      (p level : ℕ) (k k₂ k' : Kernel Store Mem) (c : ℕ) (at : ℤ) (flags : Bool) (answer : ℤ)
      → Inv L (on_cpu p level) k
      → NewProcess c k k₂
      → fork_child c at flags k₂ ≡ ok (answer, k')
      → Inv L (on_cpu p level) k'
  unfolding fork_child
  fork_child-Inv p level k k₂ k' c at flags answer inv new h =
      elim (Outcome-cases (clone_into M c k₂)) [
        | inl e ↦ absurd (cc (rw e at h))
        | inr (inl e) ↦ absurd (cc (rw e at h))
        | inr (inr (k₃, e)) ↦ elim (Outcome-cases (sched_enqueue L c at k₃)) [
          | inl f ↦ absurd (cc (rw (e, f) at h))
          | inr (inl f) ↦ absurd (cc (rw (e, f) at h))
          | inr (inr (k₄, f)) ↦
              let newer = NewProcess-clone new (clone-Same L M c k₂ k₃ e) in
              let free : k₃.mlfq_lock ≡ false = newer.queues.mlfq_lock ∙ inv.unlocked in
              let (to, low, is, same) = enqueue_inv c at k₃ k₄ free f in
              let end : irq_restore flags k₄ ≡ k' = ground (arith, rw (e, f) at h) in
              rw (← end, same)
                (restore-Inv p level flags
                  (record k₃ { mlfq = list_add_tail c to k₃.mlfq; mlfq_lock = false })
                  (forked-Inv p level k k₃ inv c newer to low))
        ]
      ]

  -- A `fork` that returns keeps the invariant, be the table full or not. The name has at most 31
  -- bytes, as the type of names says.
  pub fork-Inv :
      (p level : ℕ) (k k' : Kernel Store Mem) (name : Name) (at : ℤ) (answer : ℤ)
      → Inv L (on_cpu p level) k
      → fork L M name at k ≡ ok (answer, k')
      → Inv L (on_cpu p level) k'
  unfolding fork irq_save fork_child
  fork-Inv p level k k' name at answer inv h =
      let k₁ : Kernel Store Mem = record k { interrupts = false } in
      let inv₁ = masked-Inv p level k inv in
      elim (Outcome-cases (alloc_process_no_entry M name k₁)) [
        | inl e ↦ absurd (cc (rw (e, fork) at h))
        | inr (inl e) ↦ absurd (cc (rw (e, fork) at h))
        | inr (inr ((none, k₂), e)) ↦
            let full = alloc_no_entry-full M name k₁ k₂ e in
            let end : irq_restore k.interrupts k₂ ≡ k' = ground (arith, rw (e, fork) at h) in
            rw (← end, full.1)
              (restore-Inv p level k.interrupts _
                (restore-Inv p level false _ (masked-Inv p level k₁ inv₁)))
        | inr (inr ((some c, k₂), e)) ↦
            fork_child-Inv p level k₁ k₂ k' c at k.interrupts answer inv₁
              (alloc_no_entry-NewProcess M name k₁ k₂ c e) (rw (e, fork) at h)
      ]
