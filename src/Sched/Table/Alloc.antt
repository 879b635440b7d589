-- ===== src/Sched/Table/Alloc.antt =====
-- What the allocation of a process does to the table, and what it leaves alone.
use horizon_os.Prelude.{
  ℕ, zero, suc, ◌≡◌, ◌≢◌, refl, ap, ◌∙◌, inl, inr, Bool, true, false, none, some, List, [], ◌∷◌,
  arith, Option-cases,
}
use horizon_os.Sched.Kernel.{
  Kernel, Name, Process, ProcessState, unused, ready, Region, ok, panic, hang, Outcome-cases,
  state_at, modify, irq_save, irq_restore,
}
use horizon_os.Sched.Kernel.States.{modify_ne, modify_same}
use horizon_os.Sched.Table.{Machine, find_unused, alloc_stack, claim_slot, alloc_process_no_entry}

-- The slot that is found is UNUSED, and lies in the table.
find_unused-state : (ps : List Process) (i : ℕ) → find_unused ps ≡ some i → state_at ps i ≡ unused
unfolding find_unused state_at
find_unused-state [] i h = absurd (ground arith)
find_unused-state (p ∷ ps) zero h = ground arith
find_unused-state (p ∷ ps) (suc i) h = ground (arith, find_unused-state ps i)

find_unused-modify :
    (ps : List Process) (i : ℕ) (f : Process → Process) (st : ProcessState)
    → find_unused ps ≡ some i
    → ((p : Process) → (f p).state ≡ st)
    → state_at (modify ps i f) i ≡ st
unfolding find_unused state_at modify
find_unused-modify [] i f st h e = absurd (ground arith)
find_unused-modify (p ∷ ps) zero f st h e = e p
find_unused-modify (p ∷ ps) (suc i) f st h e = find_unused-modify ps i f st (ground (arith, h)) e

-- Two kernels with the same queues, lock, task and scheduler.
pub record SameQueues {Lists Mem : Type 0} (k k' : Kernel Lists Mem) : Type 0 where
  pub mlfq : k'.mlfq ≡ k.mlfq
  pub mlfq_lock : k'.mlfq_lock ≡ k.mlfq_lock
  pub task : k'.task ≡ k.task
  pub scheduler_proc : k'.scheduler_proc ≡ k.scheduler_proc

-- `slot` was UNUSED and is READY, and no other slot has changed its state.
pub record NewProcess {Lists Mem : Type 0} (slot : ℕ) (k k' : Kernel Lists Mem) : Type 0 where
  pub was_unused : state_at k.processes slot ≡ unused
  pub is_ready : state_at k'.processes slot ≡ ready
  pub others : (q : ℕ) → q ≢ slot → state_at k'.processes q ≡ state_at k.processes q
  pub queues : SameQueues k k'

module _ {Lists Mem : Type 0} (M : Machine Mem) where
  -- A stack comes out of the heap and the page tables, and touches nothing else.
  alloc_stack-same :
      (k k' : Kernel Lists Mem) {r : Region}
      → alloc_stack M k ≡ ok (r, k')
      → (k'.processes ≡ k.processes) × SameQueues k k'
  unfolding alloc_stack
  alloc_stack-same k k' h = ground arith

  pub irq_restore-same :
      (b : Bool) (k : Kernel Lists Mem)
      → ((irq_restore b k).processes ≡ k.processes) × SameQueues k (irq_restore b k)
  unfolding irq_restore
  irq_restore-same true k =
      (refl, record { mlfq = refl; mlfq_lock = refl; task = refl; scheduler_proc = refl })
  irq_restore-same false k =
      (refl, record { mlfq = refl; mlfq_lock = refl; task = refl; scheduler_proc = refl })

  -- The slot `i` once it is claimed, has its stack, and the interrupts are as before.
  finished : ℕ → Kernel Lists Mem → Region → Kernel Lists Mem → Kernel Lists Mem
  finished i k region k₂ = irq_restore k.interrupts (record k₂ {
    processes = modify k₂.processes i (λ p. record p { vm_list = region ∷ p.vm_list });
  })

  begun : ℕ → Name → Kernel Lists Mem → Kernel Lists Mem
  begun i name k = claim_slot M i name (record k { interrupts = false })

  alloc_no_entry_ok :
      (name : Name) (k k₂ : Kernel Lists Mem) (i : ℕ) (region : Region)
      → find_unused k.processes ≡ some i
      → alloc_stack M (begun i name k) ≡ ok (region, k₂)
      → alloc_process_no_entry M name k ≡ ok (some i, finished i k region k₂)
  unfolding alloc_process_no_entry irq_save finished begun
  alloc_no_entry_ok name k k₂ i region e a = rw (e, a, alloc_process_no_entry)

  finished-NewProcess :
      (name : Name) (k k₂ : Kernel Lists Mem) (i : ℕ) (region : Region)
      → find_unused k.processes ≡ some i
      → alloc_stack M (begun i name k) ≡ ok (region, k₂)
      → NewProcess i k (finished i k region k₂)
  unfolding finished begun claim_slot
  finished-NewProcess name k k₂ i region e a =
      let fields = alloc_stack-same (begun i name k) k₂ a in
      let restored = irq_restore-same k.interrupts (record k₂ {
        processes = modify k₂.processes i (λ p. record p { vm_list = region ∷ p.vm_list });
      }) in
      record {
        was_unused = find_unused-state k.processes i e;
        is_ready =
            ap (λ ps. state_at ps i) restored.0
            ∙ modify_same k₂.processes i i _ (λ p. refl)
            ∙ ap (λ ps. state_at ps i) fields.0
            ∙ find_unused-modify k.processes i _ ready e (λ p. refl);
        others = λ q ne.
            ap (λ ps. state_at ps q) restored.0
            ∙ modify_same k₂.processes i q _ (λ p. refl)
            ∙ ap (λ ps. state_at ps q) fields.0
            ∙ modify_ne k.processes i q _ ne;
        queues = record {
          mlfq = restored.1.mlfq ∙ fields.1.mlfq;
          mlfq_lock = restored.1.mlfq_lock ∙ fields.1.mlfq_lock;
          task = restored.1.task ∙ fields.1.task;
          scheduler_proc = restored.1.scheduler_proc ∙ fields.1.scheduler_proc;
        };
      }

  alloc_no_entry-panic :
      (name : Name) (k : Kernel Lists Mem) (i : ℕ)
      → find_unused k.processes ≡ some i
      → alloc_stack M (begun i name k) ≡ panic
      → alloc_process_no_entry M name k ≡ panic
  unfolding alloc_process_no_entry irq_save begun
  alloc_no_entry-panic name k i e a = rw (e, a, alloc_process_no_entry)

  alloc_no_entry-hang :
      (name : Name) (k : Kernel Lists Mem) (i : ℕ)
      → find_unused k.processes ≡ some i
      → alloc_stack M (begun i name k) ≡ hang
      → alloc_process_no_entry M name k ≡ hang
  unfolding alloc_process_no_entry irq_save begun
  alloc_no_entry-hang name k i e a = rw (e, a, alloc_process_no_entry)

  alloc_no_entry-none :
      (name : Name) (k : Kernel Lists Mem)
      → find_unused k.processes ≡ none
      → alloc_process_no_entry M name k
        ≡ ok (none, irq_restore k.interrupts (record k { interrupts = false }))
  unfolding alloc_process_no_entry irq_save
  alloc_no_entry-none name k e = rw (e, alloc_process_no_entry)

  -- Where `alloc_process_no_entry` answers a slot, that slot was UNUSED and is READY, no other slot
  -- has changed its state, and the run queues, their lock, the task and the scheduler are as they
  -- were.
  pub alloc_no_entry-NewProcess :
      (name : Name) (k k' : Kernel Lists Mem) (slot : ℕ)
      → alloc_process_no_entry M name k ≡ ok (some slot, k')
      → NewProcess slot k k'
  alloc_no_entry-NewProcess name k k' slot h = elim (Option-cases (find_unused k.processes)) [
    | inl e ↦ absurd (cc (h, alloc_no_entry-none name k e))
    | inr (i, e) ↦ elim (Outcome-cases (alloc_stack M (begun i name k))) [
      | inl p ↦ absurd (cc (h, alloc_no_entry-panic name k i e p))
      | inr (inl p) ↦ absurd (cc (h, alloc_no_entry-hang name k i e p))
      | inr (inr ((region, k₂), a)) ↦
          let is = alloc_no_entry_ok name k k₂ i region e a in
          let slot_is : i ≡ slot = ground (arith, h, is) in
          let kernel_is : finished i k region k₂ ≡ k' = ground (arith, h, is) in
          rw (← slot_is, ← kernel_is) (finished-NewProcess name k k₂ i region e a)
    ]
  ]

  -- A table with no UNUSED slot is left as it is, the interrupts with it.
  pub alloc_no_entry-full :
      (name : Name) (k k' : Kernel Lists Mem)
      → alloc_process_no_entry M name k ≡ ok (none, k')
      → (find_unused k.processes ≡ none)
        × (k' ≡ irq_restore k.interrupts (record k { interrupts = false }))
  alloc_no_entry-full name k k' h = elim (Option-cases (find_unused k.processes)) [
    | inl e ↦ (e, ground (arith, h, alloc_no_entry-none name k e))
    | inr (i, e) ↦ elim (Outcome-cases (alloc_stack M (begun i name k))) [
      | inl p ↦ absurd (cc (h, alloc_no_entry-panic name k i e p))
      | inr (inl p) ↦ absurd (cc (h, alloc_no_entry-hang name k i e p))
      | inr (inr ((region, k₂), a)) ↦ absurd (cc (h, alloc_no_entry_ok name k k₂ i region e a))
    ]
  ]
