-- ===== src/Sched/Steps/Wait.antt =====
-- What a round of the scheduler does to the queues, and how long a process waits on them.
use horizon_os.Prelude.{
  ℕ, ◌≤◌, ◌<◌, ◌≡◌, ◌≢◌, refl, ap, sym, subst, ◌∙◌, ◌⊎◌, inl, inr, Bool, true, false, Option, none,
  some, List, [], ◌∷◌, arith, ℕ_discrete,
}
use horizon_os.Sched.Lists.{ListHead, elem}
use horizon_os.Sched.Kernel.{Kernel, Outcome, ok, ◌>>=◌}
use horizon_os.Sched.Mlfq.{demote, claim, resume}
use horizon_os.Sched.Mlfq.Claim.{Claimed, nothing, oldest, EmptyBelow, claim_lem}
use horizon_os.Sched.Mlfq.Total.{
  total, OnlyQueues, three, absent, off_tail, off_others, total-del, only-del,
}
use horizon_os.Sched.Mlfq.Ahead.{
  waits, ahead, Nearer-first, Nearer-second, Nearer-third, Behind, unchanged, appended,
}
use horizon_os.Sched.Steps.{scheduling, on_cpu}
use horizon_os.Sched.Steps.Inv.{Inv, claim_ok}
use horizon_os.Sched.Steps.Back.{yield-resume, preempt-resume, exit-resume}
use horizon_os.Sched.Steps.Turns.{Leave, yielding, exiting, preempted, leave}

-- The queues after a turn of `p` from a level: as they were, or with `p` one level down.
abbrev pub TurnTaken : (L : ListHead) → ℕ → ℕ → L.Store → L.Store → Type 0
TurnTaken L p level s s' = (s' ≡ s) ⊎ (s' ≡ L.list_add_tail p (demote level) s)

abbrev pub waits_on : (L : ListHead) → ℕ → L.Store → Bool
waits_on L q s = waits q (L.items s 0) (L.items s 1) (L.items s 2)

abbrev pub ahead_on : (L : ListHead) → ℕ → L.Store → ℕ
ahead_on L q s = ahead q (L.items s 0) (L.items s 1) (L.items s 2)

module _ (L : ListHead) {Mem : Type 0} where
  open L use {
    Store, items, list_add_tail, list_del_init_careful, add_self, add_other, del_self, del_other,
  }

  -- The kernel after a turn: the invariant and the scheduler are as before.
  abbrev pub Back : ℕ → ℕ → ℕ → Kernel Store Mem → Outcome (Kernel Store Mem) → Type 0
  Back p level s k o =
      (k' : Kernel Store Mem) × (o ≡ ok k')
      × Inv L scheduling k'
      × (k'.scheduler_proc ≡ some s)
      × TurnTaken L p level k.mlfq k'.mlfq

  pub leave-Back :
      (how : Leave) (p level s : ℕ) (k : Kernel Store Mem)
      → Inv L (on_cpu p level) k
      → k.scheduler_proc ≡ some s
      → Back p level s k (leave L how k >>= resume L p level)
  unfolding leave
  leave-Back yielding p level s k inv sched =
      let r = yield-resume L p level k inv s sched in (_, r.0, r.1, sched, inr refl)
  leave-Back exiting p level s k inv sched =
      let r = exit-resume L p level k inv s sched in (_, r.0, r.1, sched, inl refl)
  leave-Back preempted p level s k inv sched =
      let r = preempt-resume L p level k inv s sched in (_, r.0, r.1, sched, inr refl)

  -- What a claim finds, and what it leaves as it was.
  pub data Found (k : Kernel Store Mem) : Type 0 where
    idle :
        {k' : Kernel Store Mem}
        → claim L k ≡ ok (none, k')
        → k'.scheduler_proc ≡ k.scheduler_proc
        → EmptyBelow L 3 k.mlfq
        → Found k
    took :
        {k' : Kernel Store Mem} (p level : ℕ)
        → claim L k ≡ ok (some (p, level), k')
        → k'.scheduler_proc ≡ k.scheduler_proc
        → k'.mlfq ≡ list_del_init_careful p k.mlfq
        → Found k

  pub claim-Found : (k : Kernel Store Mem) → Inv L scheduling k → Found k
  claim-Found k inv = go (claim_lem L k.mlfq) (claim_ok L k inv.unlocked)
    where
      go :
          {out : Option (ℕ × ℕ) × Store}
          → Claimed L 3 k.mlfq out
          → claim L k ≡ ok (out.0, record k { mlfq = out.1; mlfq_lock = false; interrupts = true })
          → Found k
      go (nothing below) e = idle e refl below
      go (oldest p level ps h below at) e = took p level e refl refl

-- What a turn of `p`, taken from a level of the store `s`, does for another process that waits.
module _ (L : ListHead) (p level : ℕ) (ps : List ℕ) (s s' : L.Store) (h : level < 3)
    (only : OnlyQueues L s) (once : total L s p ≤ 1) (at : L.items s level ≡ p ∷ ps)
    (taken : TurnTaken L p level (L.list_del_init_careful p s) s') where
  open L use {items, list_add_tail, list_del_init_careful, add_self, add_other, del_self, del_other}

  off : L.Store
  off = list_del_init_careful p s

  gone : total L off p ≡ 0
  unfolding off
  gone = ground (arith, once, total-del L s only p level ps at h once p)

  absent_off : (j : ℕ) → elem p (items off j) ≡ false
  unfolding off
  absent_off j = absent L off (only-del L s only p level ps at h once) p j gone

  off_level : items off level ≡ ps
  unfolding off
  off_level =
      del_self level p ps s at (off_tail L s only p level ps at h once)
        (off_others L s only p level ps at h once)

  off_other : (j : ℕ) → j ≢ level → items off j ≡ items s j
  unfolding off
  off_other j ne =
      del_other level p j ps s at (off_tail L s only p level ps at h once)
        (off_others L s only p level ps at h once) ne

  back_other : (j : ℕ) → j ≢ demote level → items s' j ≡ items off j
  unfolding off
  back_other j ne = elim taken [
    | inl e ↦ ap (λ t. items t j) e
    | inr e ↦ ap (λ t. items t j) e ∙ add_other p (demote level) j off absent_off ne
  ]

  back-Behind : (q j : ℕ) → q ≢ p → Behind q (items off j) (items s' j)
  unfolding off
  back-Behind q j ne = elim taken [
    | inl e ↦ rw e (unchanged q (items off j))
    | inr e ↦ elim (ℕ_discrete j (demote level)) [
      | yes same ↦ rw (e, same, add_self p (demote level) off absent_off) (appended q p _ ne)
      | no other ↦
          rw (e, add_other p (demote level) j off absent_off other) (unchanged q (items off j))
    ]
  ]

  other-Behind : (q j : ℕ) → q ≢ p → j ≢ level → Behind q (items s j) (items s' j)
  other-Behind q j ne far = rw (← off_other j far) (back-Behind q j ne)

  -- A level that `p` does not leave for, and one above its own.
  stays : (j : ℕ) → j ≡ level → j < 2 → items s' j ≡ ps
  unfolding demote
  stays j e low = back_other j (ground (arith, e)) ∙ subst (λ l. items off l ≡ ps) (sym e) off_level

  still_empty : (j : ℕ) → EmptyBelow L level s → j < level → items s' j ≡ []
  unfolding demote
  still_empty j below low =
      back_other j (ground (arith, low, h)) ∙ off_other j (omega arith) ∙ below j low

  pub nearer :
      (q : ℕ)
      → q ≢ p
      → EmptyBelow L level s
      → waits_on L q s ≡ true
      → (waits_on L q s' ≡ true) × (ahead_on L q s' < ahead_on L q s)
  nearer q ne below w = elim (three level h) [
    | inl e ↦
        let from : items s 0 ≡ p ∷ ps = ap (items s) (sym e) ∙ at in
        rw (from, stays 0 (sym e) (omega arith))
          (Nearer-first q p ne ps _ _ _ _ (rw from at w) (other-Behind q 1 ne (omega arith))
            (other-Behind q 2 ne (omega arith)))
    | inr (inl e) ↦
        let from : items s 1 ≡ p ∷ ps = ap (items s) (sym e) ∙ at in
        let empty : items s 0 ≡ [] = below 0 (omega arith) in
        rw (from, empty, stays 1 (sym e) (omega arith), still_empty 0 below (omega arith))
          (Nearer-second q p ne ps _ _ (rw (from, empty) at w) (other-Behind q 2 ne (omega arith)))
    | inr (inr e) ↦
        let from : items s 2 ≡ p ∷ ps = ap (items s) (sym e) ∙ at in
        let last : items off 2 ≡ ps = subst (λ l. items off l ≡ ps) e off_level in
        let behind : Behind q ps (items s' 2) = rw (← last) (back-Behind q 2 ne) in
        let empty₀ : items s 0 ≡ [] = below 0 (omega arith) in
        let empty₁ : items s 1 ≡ [] = below 1 (omega arith) in
        rw
          (
            from,
            empty₀,
            empty₁,
            still_empty 0 below (omega arith),
            still_empty 1 below (omega arith),
          )
          (Nearer-third q p ne ps _ (rw (from, empty₀, empty₁) at w) behind)
  ]
