-- ===== src/Sched/Steps/Run.antt =====
-- The scheduler's switch into a process keeps the invariant, and picks by priority and age.
use horizon_os.Prelude.{
  ℕ, ◌+◌, ◌≤◌, ◌<◌, ◌≡◌, ◌≢◌, refl, ap, sym, ◌∙◌, true, false, Option, none, some, List, ◌∷◌, arith,
  ◌==◌, if◌then◌else◌, ℕ_discrete,
}
use horizon_os.Sched.Lists.{ListHead}
use horizon_os.Sched.Kernel.{
  Kernel, Process, ProcessState, unused, running, ok, state_at, set_state, ctx_switch,
}
use horizon_os.Sched.Kernel.States.{set_state_self, set_state_ne}
use horizon_os.Sched.Mlfq.{claim, dispatch}
use horizon_os.Sched.Mlfq.Claim.{Claimed, nothing, oldest, EmptyBelow, claim_lem}
use horizon_os.Sched.Mlfq.Total.{total, total-del, only-del}
use horizon_os.Sched.Steps.{Phase, scheduling, on_cpu}
use horizon_os.Sched.Steps.Inv.{Inv, due, runnable, is_slot, claim_ok}

pub due-le-one : (ph : Phase) (ps : List Process) (sched : Option ℕ) (q : ℕ) → due ph ps sched q ≤ 1
due-le-one ph ps sched q = ground arith

-- A process that is due on a queue can run and is not the scheduler.
due_one :
    (ps : List Process) (sched : Option ℕ) (q : ℕ)
    → 0 < due scheduling ps sched q
    → (runnable (state_at ps q) ≡ true) × (is_slot sched q ≡ false)
due_one ps sched q h = ground arith

not_unused : (st : ProcessState) → runnable st ≡ true → st ≢ unused
not_unused st h e = ground (arith, e)

-- What is due once `p` is switched into.
due_dispatch :
    (ps : List Process) (sched : Option ℕ) (p level q : ℕ)
    → due scheduling ps sched p ≡ 1
    → due (on_cpu p level) (set_state ps p running) sched q + (if q == p then 1 else 0)
      ≡ due scheduling ps sched q
due_dispatch ps sched p level q h = elim (ℕ_discrete q p) [
  | yes e ↦ rw e (ground (arith, h))
  | no ne ↦ ground (arith, set_state_ne ps p q running ne)
]

module _ (L : ListHead) {Mem : Type 0} where
  open L use {Store, items, list_del_init_careful}

  module _ (k : Kernel Store Mem) (inv : Inv L scheduling k) where
    -- The kernel as the claim of `p` leaves it.
    claimed : ℕ → Kernel Store Mem
    claimed p = record k {
      mlfq = list_del_init_careful p k.mlfq;
      mlfq_lock = false;
      interrupts = true;
    }

    module _ (p level : ℕ) (ps : List ℕ) (h : level < 3) (at : items k.mlfq level ≡ p ∷ ps) where
      once : total L k.mlfq p ≤ 1
      once = omega (arith, inv.queued p, due-le-one scheduling k.processes k.scheduler_proc p)

      count :
          (q : ℕ)
          → total L (list_del_init_careful p k.mlfq) q + (if q == p then 1 else 0)
            ≡ total L k.mlfq q
      count = total-del L k.mlfq inv.only p level ps at h once

      due_p : due scheduling k.processes k.scheduler_proc p ≡ 1
      due_p =
          ground
            (arith, count p, inv.queued p, due-le-one scheduling k.processes k.scheduler_proc p)

      can_run : (runnable (state_at k.processes p) ≡ true) × (is_slot k.scheduler_proc p ≡ false)
      can_run = due_one k.processes k.scheduler_proc p (omega (arith, due_p))

      apart : (q : ℕ) → is_slot k.scheduler_proc q ≡ true → q ≢ p
      apart q is same = absurd (cc (ap (is_slot k.scheduler_proc) same, can_run.1, is))

      dispatch-Inv : Inv L (on_cpu p level) (dispatch L p (claimed p))
      unfolding dispatch ctx_switch claimed
      dispatch-Inv = record {
        queued = λ q. omega (
          arith,
          count q,
          inv.queued q,
          due_dispatch k.processes k.scheduler_proc p level q due_p,
        );
        only = only-del L k.mlfq inv.only p level ps at h once;
        unlocked = refl;
        at = (refl, h, set_state_self k.processes p running (not_unused _ can_run.0), can_run.1);
        live = λ q is e.
            inv.live q is
              (sym (set_state_ne k.processes p q running (λ same. apart q is same)) ∙ e);
      }

    -- What a claim that finds a process says of it: it is the oldest of its level, and all levels
    -- above are empty.
    abbrev pub Oldest : ℕ → ℕ → Type 0
    Oldest p level =
        (ps : List ℕ) × (items k.mlfq level ≡ p ∷ ps) × (level < 3) × EmptyBelow L level k.mlfq

    from_claim :
        (p level : ℕ) (k' : Kernel Store Mem) {out : Option (ℕ × ℕ) × Store}
        → Claimed L 3 k.mlfq out
        → out.0 ≡ some (p, level)
        → record k { mlfq = out.1; mlfq_lock = false; interrupts = true } ≡ k'
        → Inv L (on_cpu p level) (dispatch L p k') × Oldest p level
    unfolding claimed
    from_claim p level k' (nothing below) e f = cc e
    from_claim p level k' (oldest p' level' ps h below at) e f =
        let same : (p' ≡ p) × (level' ≡ level) = ground (arith, e) in
        rw (← f, ← same.0, ← same.1) (dispatch-Inv p' level' ps h at, (ps, at, h, below))

    -- Where the invariant holds in the scheduler: a claim that finds a process finds the oldest of
    -- its level, with every higher level empty, and the switch into it keeps the invariant.
    pub run-Inv :
        (p level : ℕ) (k' : Kernel Store Mem)
        → claim L k ≡ ok (some (p, level), k')
        → Inv L (on_cpu p level) (dispatch L p k') × Oldest p level
    run-Inv p level k' e =
        let is = sym (claim_ok L k inv.unlocked) ∙ e in
        from_claim p level k' (claim_lem L k.mlfq) (ground (arith, is)) (ground (arith, is))

    from_spin :
        (k' : Kernel Store Mem) {out : Option (ℕ × ℕ) × Store}
        → Claimed L 3 k.mlfq out
        → out.0 ≡ none
        → record k { mlfq = out.1; mlfq_lock = false; interrupts = true } ≡ k'
        → Inv L scheduling k'
    from_spin k' (nothing below) e f =
        rw (← f) (record {
          queued = inv.queued;
          only = inv.only;
          unlocked = refl;
          at = tt;
          live = inv.live;
        })
    from_spin k' (oldest p' level' ps h below at) e f = cc e

    -- A claim that finds nothing keeps the invariant.
    pub spin-Inv : (k' : Kernel Store Mem) → claim L k ≡ ok (none, k') → Inv L scheduling k'
    spin-Inv k' e =
        let is = sym (claim_ok L k inv.unlocked) ∙ e in
        from_spin k' (claim_lem L k.mlfq) (ground (arith, is)) (ground (arith, is))
