-- ===== src/Sched/Table.antt =====
-- The process table of kernel/scheduler/process.c: kernel stacks, new processes and `fork`.
pub mod Alloc
use horizon_os.Prelude.{
  ℕ, zero, suc, ◌+◌, ◌-◌, ◌*◌, ◌%◌, ◌^◌, Bool, true, false, Option, none, some, List, [], ◌∷◌, ◌==◌,
  if◌then◌else◌, get_elem?,
}
use horizon_os.Prelude.Int.{ℤ, pos, negsuc}
use horizon_os.Kheap.{Kheap, kmalloc, kmalloc_a}
use horizon_os.Sched.Lists.{ListHead}
use horizon_os.Sched.Kernel.{
  Kernel, Name, Process, zero_process, ProcessState, unused, ready, Region, Outcome, ok, panic,
  hang, ◌>>=◌, state_at, modify, irq_save, irq_restore,
}
use horizon_os.Sched.Mlfq.{sched_enqueue}
use horizon_os.Sched.Clone.{clone_stack_rebased}

-- What the table uses of the machine: `unmap_page` of the page tables, which answers the frame that
-- was mapped or 0, and the frame that the assembly `clone_parent_base_frame` pushes on the running
-- stack before it calls `clone_stack_rebased`: its address, and memory with it.
pub record Machine (Mem : Type 0) : Type 0 where
  pub unmap_page : ℕ → ℕ → Mem → ℕ × Mem
  pub push_frame : Region → (ℕ → ℕ) → ℕ × (ℕ → ℕ)

abbrev pub kstack_pages : ℕ
kstack_pages = 32

abbrev pub kstack_size : ℕ
kstack_size = (kstack_pages + 1) * 4096

-- `sizeof(struct vm_region)`
abbrev pub vm_region_size : ℕ
vm_region_size = 48

-- The first slot in state UNUSED.
unfoldable pub find_unused : List Process → Option ℕ
find_unused [] = none
find_unused (p ∷ ps) =
    let rest : Option ℕ = elim (find_unused ps) [ none ↦ none | some i ↦ some (suc i) ] in
    elim p.state [ unused ↦ some 0 | _ ↦ rest ]

-- The write of a 64-bit word.
unfoldable pub store : (ℕ → ℕ) → ℕ → ℕ → ℕ → ℕ
store words a v b = if b == a then v else words b

-- The frame that `swtch` pops, below the end of a stack: a padding word, the return address and six
-- registers.
unfoldable pub seed_frame : (ℕ → ℕ) → ℕ → ℕ → ℕ → ℕ
unfolding store
seed_frame words end entry =
    let w₁ = store words (end - 8) 0 in
    let w₂ = store w₁ (end - 16) entry in
    let w₃ = store w₂ (end - 24) 0 in
    let w₄ = store w₃ (end - 32) 0 in
    let w₅ = store w₄ (end - 40) 0 in
    let w₆ = store w₅ (end - 48) 0 in let w₇ = store w₆ (end - 56) 0 in store w₇ (end - 64) 0

-- `cr3_to_pml4_addr(read_cr3())` and `PAGE_GET_ADDR(read_cr3())`: bits 12 to 51.
unfoldable pub pml4_of : ℕ → ℕ
pml4_of cr3 = cr3 % 2 ^ 52 - cr3 % 2 ^ 12

-- `find_stack`: the one kind of region is a stack, so the first region is the answer.
unfoldable pub find_stack : List Process → ℕ → Outcome Region
find_stack ps slot = elim (get_elem? ps slot) [
  | none ↦ panic
  | some p ↦ elim p.vm_list [ [] ↦ panic | r ∷ rs ↦ ok r ]
]

-- The process number of a slot.
unfoldable pub pid_at : List Process → ℕ → ℕ
pid_at ps slot = elim (get_elem? ps slot) [ none ↦ 0 | some p ↦ p.pid ]

module _ {Lists Mem : Type 0} (M : Machine Mem) where
  open M use {unmap_page, push_frame}

  unfoldable pub alloc_stack : Kernel Lists Mem → Outcome (Region × Kernel Lists Mem)
  alloc_stack k =
      let (stack, h₁) = kmalloc_a kstack_size k.heap in
      let (vma, h₂) = kmalloc vm_region_size h₁ in
      let region : Region = record { start = stack; end = (stack + kstack_size) % 2 ^ 64 } in
      let (guard_frame, mem') = unmap_page stack k.cr3 k.mem in
      let done : Outcome (Region × Kernel Lists Mem) =
        if guard_frame == 0 then panic else ok (region, record k { heap = h₂; mem = mem' }) in
      if stack == 0 then panic else if vma == 0 then panic else done

  -- `init_stack`: the region, and the stack pointer of the first frame.
  unfoldable pub init_stack : ℕ → Kernel Lists Mem → Outcome (Region × ℕ × Kernel Lists Mem)
  init_stack entry k = do
    (region, k₁) ← alloc_stack k
    ok (region, region.end - 64, record k₁ { words = seed_frame k₁.words region.end entry })

  -- The claimed slot in its known state, with the next process number.
  unfoldable pub fresh_process : Name → ℕ → Kernel Lists Mem → Process
  fresh_process name pml4 k = record zero_process {
    pid = k.glbl_pid;
    state = ready;
    name = name.bytes;
    pml4_addr = pml4;
  }

  -- The claim that `alloc_process` and `alloc_process_no_entry` begin with.
  unfoldable pub claim_slot : ℕ → Name → Kernel Lists Mem → Kernel Lists Mem
  unfolding fresh_process pml4_of
  claim_slot slot name k =
      let p = fresh_process name (pml4_of k.cr3) k in
      record k { processes = modify k.processes slot (λ _. p); glbl_pid = (k.glbl_pid + 1) % 256 }

  -- `alloc_process`; `forkret` is the address that a new process starts at. The answer is the slot,
  -- or `none` for the null pointer of a full table.
  unfoldable pub alloc_process :
      ℕ → Name → ℕ → Kernel Lists Mem → Outcome (Option ℕ × Kernel Lists Mem)
  alloc_process forkret name entry k =
      let (flags, k₁) = irq_save k in
      elim (find_unused k₁.processes) [
        | none ↦ ok (none, irq_restore flags k₁)
        | some slot ↦ do
          (region, sp, k₂) ← init_stack forkret (claim_slot slot name k₁)
          let finish : Process → Process =
              λ p. record p { entry = some entry; sp = sp; vm_list = region ∷ p.vm_list }
          ok (
            some slot,
            irq_restore flags (record k₂ { processes = modify k₂.processes slot finish }),
          )
      ]

  unfoldable pub alloc_process_no_entry :
      Name → Kernel Lists Mem → Outcome (Option ℕ × Kernel Lists Mem)
  alloc_process_no_entry name k =
      let (flags, k₁) = irq_save k in
      elim (find_unused k₁.processes) [
        | none ↦ ok (none, irq_restore flags k₁)
        | some slot ↦ do
          (region, k₂) ← alloc_stack (claim_slot slot name k₁)
          let finish : Process → Process = λ p. record p { vm_list = region ∷ p.vm_list }
          ok (
            some slot,
            irq_restore flags (record k₂ { processes = modify k₂.processes slot finish }),
          )
      ]

  -- `clone_parent_base_frame`, with the parent's stack and the child's: the frame is pushed, and the
  -- stack copied; a chain of frame pointers that goes round is `hang`.
  unfoldable pub clone_parent_base_frame :
      ℕ → Region → Region → Kernel Lists Mem → Outcome (Kernel Lists Mem)
  clone_parent_base_frame child from to k =
      let (frame, pushed) = push_frame from k.words in
      elim (clone_stack_rebased from to frame pushed) [
        | none ↦ hang
        | some (sp, words') ↦ ok (record k {
          processes = modify k.processes child (λ p. record p { parent = some k.task; sp = sp });
          words = words';
        })
      ]

  -- What `fork` does to the child once it has one: its parent, and the copy of the parent's stack.
  unfoldable pub clone_into : ℕ → Kernel Lists Mem → Outcome (Kernel Lists Mem)
  clone_into child k = do
    from ← find_stack k.processes k.task
    to ← find_stack k.processes child
    clone_parent_base_frame child from to k

module _ (L : ListHead) {Mem : Type 0} (M : Machine Mem) where
  open L use {Store}

  -- `fork` as its parent sees it: the child's process number, or -1.
  unfoldable pub fork : Name → ℤ → Kernel Store Mem → Outcome (ℤ × Kernel Store Mem)
  fork name level k =
      let (flags, k₁) = irq_save k in
      do
        (child, k₂) ← alloc_process_no_entry M name k₁
        elim child [
          | none ↦ ok (negsuc 0, irq_restore flags k₂)
          | some c ↦ do
            k₃ ← clone_into M c k₂
            k₄ ← sched_enqueue L c level k₃
            ok (pos (pid_at k₄.processes c), irq_restore flags k₄)
        ]
