-- ===== src/Sched/Example.antt =====
-- Lists that meet the interface of list.h, a machine, and a kernel with three processes, for the
-- tests. A store gives the nodes on each head; a node is taken off every list.
use horizon_os.Prelude.{
  ℕ, ◌-◌, ◌≡◌, ◌≢◌, refl, ap, inl, inr, true, false, some, List, [], ◌∷◌, ◌++◌, arith, ◌==◌,
  if◌then◌else◌, Bool-cases,
}
use horizon_os.Sched.Lists.{ListHead, elem, is_nil}
use horizon_os.Sched.Kernel.{Kernel, Process, zero_process, ready, running}
use horizon_os.Sched.Table.{Machine}

abbrev pub without : ℕ → List ℕ → List ℕ
without p [] = []
without p (x ∷ xs) = if p == x then without p xs else x ∷ without p xs

abbrev pub head_of : List ℕ → ℕ
head_of [] = 0
head_of (x ∷ xs) = x

pub without_id : (p : ℕ) (xs : List ℕ) → elem p xs ≡ false → without p xs ≡ xs
without_id p [] h = refl
without_id p (x ∷ xs) h = elim (Bool-cases (p == x)) [
  | inl e ↦ absurd (ground (arith, e))
  | inr e ↦
      let rest : elem p xs ≡ false = ground (arith, e) in
      rw e (ap (λ l. x ∷ l) (without_id p xs rest))
]

pub without_head : (p : ℕ) (ps xs : List ℕ) → xs ≡ p ∷ ps → elem p ps ≡ false → without p xs ≡ ps
without_head p ps xs e h =
    let same : (p == p) ≡ true = ground arith in rw (e, same) (without_id p ps h)

pub init_self_ok : (h : ℕ) (s : ℕ → List ℕ) → (if h == h then [] else s h) ≡ []
init_self_ok h s = ground arith

pub init_other_ok : (h j : ℕ) (s : ℕ → List ℕ) → j ≢ h → (if j == h then [] else s j) ≡ s j
init_other_ok h j s ne = ground arith

pub add_self_ok :
    (p h : ℕ) (s : ℕ → List ℕ) → (if h == h then s h ++ p ∷ [] else s h) ≡ s h ++ p ∷ []
add_self_ok p h s = ground arith

pub add_other_ok :
    (p h j : ℕ) (s : ℕ → List ℕ) → j ≢ h → (if j == h then s j ++ p ∷ [] else s j) ≡ s j
add_other_ok p h j s ne = ground arith

abbrev pub lists : ListHead
lists = record {
  Store = ℕ → List ℕ;
  items = λ s h. s h;
  init_list_head = λ h s j. if j == h then [] else s j;
  list_add_tail = λ p h s j. if j == h then s j ++ p ∷ [] else s j;
  list_empty_careful = λ h s. is_nil (s h);
  list_first_entry = λ h s. head_of (s h);
  list_del_init_careful = λ p s j. without p (s j);
  init_self = init_self_ok;
  init_other = init_other_ok;
  add_self = λ p h s fresh. add_self_ok p h s;
  add_other = λ p h j s fresh ne. add_other_ok p h j s ne;
  empty_lem = λ h s. refl;
  first_lem = λ h p ps s e. ap head_of e;
  del_self = λ h p ps s e once apart. without_head p ps (s h) e once;
  del_other = λ h p j ps s e once apart ne. without_id p (s j) (apart j ne);
}

-- A machine whose pages are all mapped, and whose frames lie at the end of a stack.
abbrev pub machine : Machine ℕ
machine = record {
  unmap_page = λ start cr3 mem. (4096, mem);
  push_frame = λ from words. (from.end - 64, words);
}

abbrev pub scheduler_process : Process
scheduler_process = record zero_process {
  pid = 1;
  state = running;
  vm_list = record { start = 4096; end = 8192 } ∷ [];
}

abbrev pub table : List Process
table =
    scheduler_process
    ∷ record scheduler_process { pid = 2 }
    ∷ record scheduler_process { pid = 3; state = ready }
    ∷ zero_process
    ∷ []

abbrev pub queues : ℕ → List ℕ
queues j = if j == 0 then 2 ∷ [] else []

-- Slot 0 is the scheduler, slot 1 is on the cpu, slot 2 waits.
abbrev pub kernel : Kernel (ℕ → List ℕ) ℕ
kernel = record {
  processes = table;
  glbl_pid = 4;
  mlfq = queues;
  mlfq_lock = false;
  task = 1;
  scheduler_proc = some 0;
  interrupts = true;
  heap = record { placement_address = 65536; memory = λ a. 0 };
  words = λ a. 0;
  cr3 = 8192;
  mem = 0;
}
