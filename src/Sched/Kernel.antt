-- ===== src/Sched/Kernel.antt =====
-- The state that kernel/scheduler/process.c and kernel/scheduler/scheduler.c work on. A pointer to a
-- process is the index of its slot in the table, an entry point or a stack pointer an address.
pub mod States
use horizon_os.Prelude.{
  ℕ, zero, suc, Bool, true, false, ◌≡◌, ◌⊎◌, inl, inr, refl, Option, none, some, List, [], ◌∷◌, ◌<◌,
  length,
}
use horizon_os.Kheap.{Kheap}

pub data ProcessState : Type 0 where
  unused ready running sleeping zombie : ProcessState

-- `struct vm_region` of a stack.
pub record Region : Type 0 where
  pub start : ℕ
  pub end : ℕ

-- A name for a process: its bytes before the NUL. The array of `struct process` has 32 bytes, and the
-- code leaves it to its callers that a name fits, so longer names are not modelled.
pub record Name : Type 0 where
  pub bytes : List ℕ
  pub fits : length bytes < 32

-- `struct process`. The list of its regions holds its stack, once it has one.
pub record Process : Type 0 where
  pub pid : ℕ
  pub name : List ℕ
  pub parent : Option ℕ
  pub vm_list : List Region
  pub state : ProcessState
  pub pml4_addr : ℕ
  pub sp : ℕ
  pub entry : Option ℕ

-- `(struct process){ 0 }`
abbrev pub zero_process : Process
zero_process = record {
  pid = 0;
  name = [];
  parent = none;
  vm_list = [];
  state = unused;
  pml4_addr = 0;
  sp = 0;
  entry = none;
}

abbrev pub num_processes : ℕ
num_processes = 10

abbrev pub num_priority_levels : ℕ
num_priority_levels = 3

-- The static data of the two files, `cpus[0]`, the interrupt flag, the heap, the words of memory and
-- the page tables (`Mem`). `Lists` is the store of the run queues.
pub record Kernel (Lists Mem : Type 0) : Type 0 where
  pub processes : List Process
  pub glbl_pid : ℕ
  pub mlfq : Lists
  pub mlfq_lock : Bool
  pub task : ℕ
  pub scheduler_proc : Option ℕ
  pub interrupts : Bool
  pub heap : Kheap
  pub words : ℕ → ℕ
  pub cr3 : ℕ
  pub mem : Mem

-- A call that returns, panics, or spins on a lock that is held.
pub data Outcome {ℓ} (A : Type ℓ) : Type ℓ where
  ok : A → Outcome A
  panic : Outcome A
  hang : Outcome A

infixl 5 ◌>>=◌
abbrev pub ◌>>=◌ {ℓ κ} : {A : Type ℓ} {B : Type κ} → Outcome A → (A → Outcome B) → Outcome B
ok a >>= f = f a
panic >>= f = panic
hang >>= f = hang

-- The state of a slot.
unfoldable pub state_at : List Process → ℕ → ProcessState
state_at [] i = unused
state_at (p ∷ ps) zero = p.state
state_at (p ∷ ps) (suc i) = state_at ps i

-- A write to a slot.
unfoldable pub modify : List Process → ℕ → (Process → Process) → List Process
modify [] i f = []
modify (p ∷ ps) zero f = f p ∷ ps
modify (p ∷ ps) (suc i) f = p ∷ modify ps i f

unfoldable pub set_state : List Process → ℕ → ProcessState → List Process
unfolding modify
set_state ps i st = modify ps i (λ p. record p { state = st })

module _ {Lists Mem : Type 0} where
  unfoldable pub irq_save : Kernel Lists Mem → Bool × Kernel Lists Mem
  irq_save k = (k.interrupts, record k { interrupts = false })

  unfoldable pub irq_restore : Bool → Kernel Lists Mem → Kernel Lists Mem
  irq_restore true k = record k { interrupts = true }
  irq_restore false k = k

  -- `spinlock` of kernel/scheduler/lock.c: there is one processor, so a lock that is held stays held.
  unfoldable pub spinlock : Kernel Lists Mem → Outcome (Kernel Lists Mem)
  spinlock k = elim k.mlfq_lock [ true ↦ hang | false ↦ ok (record k { mlfq_lock = true }) ]

  unfoldable pub release : Kernel Lists Mem → Kernel Lists Mem
  release k = record k { mlfq_lock = false }

  -- `ctx_switch`: the cpu's task is `new` from here on.
  unfoldable pub ctx_switch : ℕ → Kernel Lists Mem → Kernel Lists Mem
  ctx_switch new k = record k { task = new }

pub Outcome-cases {ℓ} :
    {A : Type ℓ} (o : Outcome A) → (o ≡ panic) ⊎ (o ≡ hang) ⊎ ((a : A) × (o ≡ ok a))
Outcome-cases (ok a) = inr (inr (a, refl))
Outcome-cases panic = inl refl
Outcome-cases hang = inr (inl refl)
