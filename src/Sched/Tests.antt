-- ===== src/Sched/Tests.antt =====
-- The scheduler on a table of four slots.
use horizon_os.Prelude.{
  ℕ, zero, suc, ◌≡◌, ◌≢◌, refl, inr, true, false, some, List, [], ◌∷◌, ◌++◌, arith, ◌==◌,
  if◌then◌else◌,
}
use horizon_os.Prelude.Int.{pos}
use horizon_os.Kheap.{kmalloc, kmalloc_a, align_up}
use horizon_os.Sched.Kernel.{
  Kernel, Name, Region, unused, ready, Outcome, ok, ◌>>=◌, state_at, set_state, modify, ctx_switch,
  irq_save, irq_restore, spinlock, release,
}
use horizon_os.Sched.Mlfq.{
  demote, is_zombie, claim_from, enqueue_locked, sched_enqueue, claim, dispatch, resume, yield,
}
use horizon_os.Sched.Mlfq.Total.{total, OnlyQueues}
use horizon_os.Sched.Clone.{clone_stack_rebased}
use horizon_os.Sched.Clone.Chain.{Chain, Rises, stops, climbs, on_stack, clone_stack_rebased_lem}
use horizon_os.Sched.Table.{
  clone_parent_base_frame, find_unused, alloc_stack, fresh_process, claim_slot,
  alloc_process_no_entry, clone_into, fork,
}
use horizon_os.Sched.Steps.{scheduling, on_cpu, Step, runs, yields, here, next}
use horizon_os.Sched.Steps.Inv.{Inv, due, enqueue_lem}
use horizon_os.Sched.Steps.Run.{run-Inv, Oldest}
use horizon_os.Sched.Steps.Back.{yield-resume}
use horizon_os.Sched.Steps.Forks.{fork-Inv}
use horizon_os.Sched.Lists.{elem}
use horizon_os.Sched.Steps.Reach.{Steps-queued}
use horizon_os.Sched.Steps.Turns.{Leave, yielding, exiting, preempted}
use horizon_os.Sched.Steps.Fair.{Done, scheduler-Between, scheduler-elem}
use horizon_os.Sched.Table.{find_stack, pid_at}
use horizon_os.Sched.Example.{lists, machine, kernel, table, queues, without}

queued : (q : ℕ) → total lists queues q ≡ due (on_cpu 1 0) table (some 0) q
unfolding state_at
queued zero = refl
queued (suc zero) = refl
queued (suc (suc zero)) = refl
queued (suc (suc (suc zero))) = refl
queued (suc (suc (suc (suc q)))) = ground arith

only : OnlyQueues lists queues
only j h = ground arith

live : (q : ℕ) → (q == 0) ≡ true → state_at table q ≢ unused
unfolding state_at
live zero h e = cc
live (suc q) h e = absurd (ground arith)

kernel-Inv : Inv lists (on_cpu 1 0) kernel
unfolding state_at
kernel-Inv = record {
  queued = queued;
  only = only;
  unlocked = refl;
  at = (refl, omega arith, refl, refl);
  live = live;
}

-- Slot 1 yields, and the scheduler picks slot 2.
abbrev yielded : Kernel (ℕ → List ℕ) ℕ
yielded = record kernel { processes = set_state table 1 ready; task = 0 }

abbrev waiting : Kernel (ℕ → List ℕ) ℕ
waiting = record yielded { mlfq = λ j. if j == 1 then queues j ++ 1 ∷ [] else queues j }

abbrev claimed : Kernel (ℕ → List ℕ) ℕ
claimed = record waiting { mlfq = λ j. without 2 (waiting.mlfq j) }

first-Step : Step lists machine (on_cpu 1 0) kernel scheduling waiting
unfolding yield ctx_switch resume is_zombie state_at set_state modify sched_enqueue enqueue_locked
    irq_save irq_restore spinlock release demote
first-Step = yields {k₁ = yielded} refl refl

found_two : claim lists waiting ≡ ok (some (2, 0), claimed)
unfolding claim claim_from irq_save irq_restore spinlock release
found_two = refl

waiting-Inv : Inv lists scheduling waiting
unfolding state_at set_state modify demote
waiting-Inv = (yield-resume lists 1 0 kernel kernel-Inv 0 refl).1

Steps-queued_example :
    ((q : ℕ)
      → total lists claimed.mlfq q
        ≡ due
            (on_cpu 2 0)
            (dispatch lists 2 claimed).processes
            (dispatch lists 2 claimed).scheduler_proc
            q)
    × ((dispatch lists 2 claimed).mlfq_lock ≡ false)
unfolding dispatch ctx_switch
Steps-queued_example =
    Steps-queued lists machine (next (next here first-Step) (runs found_two)) kernel-Inv

run-Inv_example :
    Inv lists (on_cpu 2 0) (dispatch lists 2 claimed) × Oldest lists waiting waiting-Inv 2 0
run-Inv_example = run-Inv lists waiting waiting-Inv 2 0 claimed found_two

yield-resume_example :
    (yield lists kernel >>= resume lists 1 0 ≡ ok waiting) × Inv lists scheduling waiting
unfolding demote
yield-resume_example = yield-resume lists 1 0 kernel kernel-Inv 0 refl

enqueue_lem_example :
    sched_enqueue lists 1 (pos 2) kernel
    ≡ ok (record kernel { mlfq = λ j. if j == 2 then queues j ++ 1 ∷ [] else queues j })
enqueue_lem_example = enqueue_lem lists 1 2 kernel refl (omega arith)

-- Slot 3 is the one that `fork` and the allocation find.
abbrev result {ℓ} : {A : Type ℓ} → A → Outcome A → A
result a (ok b) = b
result a _ = a

abbrev child_name : Name
child_name = record { bytes = b'p' ∷ b'o' ∷ b'n' ∷ b'g' ∷ []; fits = omega arith }

-- What `fork` leaves behind.
abbrev forked : Kernel (ℕ → List ℕ) ℕ
unfolding fork
forked = (result (pos 0, kernel) (fork lists machine child_name (pos 1) kernel)).1

fork_returns : fork lists machine child_name (pos 1) kernel ≡ ok (pos 4, forked)
unfolding fork alloc_process_no_entry irq_save irq_restore find_unused claim_slot fresh_process
    alloc_stack kmalloc kmalloc_a align_up modify clone_into find_stack sched_enqueue enqueue_locked
    spinlock release pid_at clone_parent_base_frame clone_stack_rebased
fork_returns = refl

fork-Inv_example : Inv lists (on_cpu 1 0) forked
fork-Inv_example =
    fork-Inv lists machine 1 0 kernel forked child_name (pos 1) (pos 4) kernel-Inv fork_returns

-- Slots 2 and 1 wait, and hand the cpu back in three ways.
abbrev leaves : List Leave
leaves = yielding ∷ preempted ∷ yielding ∷ yielding ∷ preempted ∷ exiting ∷ []

scheduler-Between_example : Done lists 0 leaves waiting (λ ps. Unit)
scheduler-Between_example = scheduler-Between lists 0 leaves waiting (waiting-Inv, refl)

scheduler-elem_example : Done lists 0 leaves waiting (λ ps. elem 1 ps ≡ true)
scheduler-elem_example =
    scheduler-elem lists 0 leaves waiting 1 1 (waiting-Inv, refl) (omega arith) refl (omega arith)

-- A parent's stack with one frame pointer on it, and one that ends the chain; the child's lies higher.
abbrev parent_stack : Region
parent_stack = record { start = 4096; end = 8192 }

abbrev child_stack : Region
child_stack = record { start = 12288; end = 16384 }

abbrev frame_pointers : ℕ → ℕ
frame_pointers a = if a == 8168 then 8184 else 0

frame_pointers-Rises : Rises 8128 8192 frame_pointers 8168
frame_pointers-Rises = climbs refl (omega arith) refl (stops refl)

clone_stack_rebased_lem_example :
    (words' : ℕ → ℕ) × (clone_stack_rebased parent_stack child_stack 8128 frame_pointers
      ≡ some (16320, words'))
    × Chain 8128 8192 16320 frame_pointers words' 8168
    × ((x : ℕ) → on_stack 16320 16384 x ≡ false → words' x ≡ frame_pointers x)
clone_stack_rebased_lem_example =
    clone_stack_rebased_lem parent_stack child_stack 8128 frame_pointers (omega arith) (omega arith)
      (omega arith) (omega arith) refl refl refl (inr (omega arith)) frame_pointers-Rises
