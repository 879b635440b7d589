-- ===== src/Sched/Steps/Turns.antt =====
-- `scheduler` of kernel/scheduler/scheduler.c: the rounds of its loop. What a process does on the
-- cpu comes to how it hands it back.
use horizon_os.Prelude.{ℕ, Option, none, some, List, [], ◌∷◌}
use horizon_os.Sched.Lists.{ListHead}
use horizon_os.Sched.Kernel.{Kernel, Outcome, ok, ◌>>=◌}
use horizon_os.Sched.Mlfq.{claim, dispatch, resume, yield, exit_process, preempt}

pub data Leave : Type 0 where
  yielding exiting preempted : Leave

-- The processes that a round of the loop has switched into, before those of the later rounds.
unfoldable pub served : Option (ℕ × ℕ) → List ℕ → List ℕ
served none ps = ps
served (some (p, level)) ps = p ∷ ps

module _ (L : ListHead) {Mem : Type 0} where
  open L use {Store}

  unfoldable pub leave : Leave → Kernel Store Mem → Outcome (Kernel Store Mem)
  leave yielding k = yield L k
  leave exiting k = exit_process L k
  leave preempted k = preempt L k

  -- A round after its claim.
  unfoldable pub turn : Leave → Option (ℕ × ℕ) → Kernel Store Mem → Outcome (Kernel Store Mem)
  turn how none k = ok k
  turn how (some (p, level)) k = leave how (dispatch L p k) >>= resume L p level

  -- One round for each entry of the list: the processes that are switched into, in order, and the
  -- kernel at the end.
  unfoldable pub scheduler : List Leave → Kernel Store Mem → Outcome (List ℕ × Kernel Store Mem)
  unfolding turn served
  scheduler [] k = ok ([], k)
  scheduler (how ∷ rest) k = do
    (found, k₁) ← claim L k
    k₂ ← turn how found k₁
    (ps, k₃) ← scheduler rest k₂
    ok (served found ps, k₃)
