-- ===== src/Sched/Steps/Fair.antt =====
-- The rounds of the scheduler: they come to an end, and whoever waits is switched into.
use horizon_os.Prelude.{
  ℕ, zero, suc, ◌+◌, ◌*◌, ◌≤◌, ◌<◌, ◌≡◌, ◌≢◌, refl, ap, ◌∙◌, true, some, List, [], ◌∷◌, arith,
  length, ℕ_discrete,
}
use horizon_os.Sched.Lists.{ListHead, elem}
use horizon_os.Sched.Kernel.{Kernel, Outcome, ok, panic, hang, ctx_switch, ◌>>=◌}
use horizon_os.Sched.Mlfq.{dispatch}
use horizon_os.Sched.Mlfq.Claim.{EmptyBelow}
use horizon_os.Sched.Mlfq.Total.{total}
use horizon_os.Sched.Mlfq.Ahead.{ahead-lt}
use horizon_os.Sched.Steps.{scheduling}
use horizon_os.Sched.Steps.Inv.{Inv}
use horizon_os.Sched.Steps.Run.{run-Inv, spin-Inv, due-le-one}
use horizon_os.Sched.Steps.Turns.{Leave, turn, served, scheduler}
use horizon_os.Sched.Steps.Wait.{leave-Back, idle, took, claim-Found, waits_on, ahead_on, nearer}

waits_at :
    (L : ListHead) (q : ℕ) (s : L.Store) (level : ℕ)
    → level < 3
    → elem q (L.items s level) ≡ true
    → waits_on L q s ≡ true
waits_at L q s zero h e = ground (arith, e)
waits_at L q s (suc zero) h e = ground (arith, e)
waits_at L q s (suc (suc zero)) h e = ground (arith, e)
waits_at L q s (suc (suc (suc level))) h e = absurd (omega arith)

module _ (L : ListHead) {Mem : Type 0} (s : ℕ) where
  open L use {Store, items}

  -- Between two rounds: the invariant holds, and slot `s` is the scheduler.
  abbrev pub Between : Kernel Store Mem → Type 0
  Between k = Inv L scheduling k × (k.scheduler_proc ≡ some s)

  -- One round: what it leaves to the rounds after it.
  pub data Round (how : Leave) (rest : List Leave) (k : Kernel Store Mem) : Type 0 where
    idled :
        (k' : Kernel Store Mem)
        → EmptyBelow L 3 k.mlfq
        → Between k'
        → scheduler L (how ∷ rest) k ≡ scheduler L rest k'
        → Round how rest k
    ran :
        (p : ℕ) (k' : Kernel Store Mem)
        → Between k'
        → ((q : ℕ)
            → q ≢ p
            → waits_on L q k.mlfq ≡ true
            → (waits_on L q k'.mlfq ≡ true) × (ahead_on L q k'.mlfq < ahead_on L q k.mlfq))
        → scheduler L (how ∷ rest) k ≡ (scheduler L rest k' >>= λ r. ok (p ∷ r.0, r.1))
        → Round how rest k

  ok_self : (o : Outcome (List ℕ × Kernel Store Mem)) → (o >>= λ r. ok (r.0, r.1)) ≡ o
  ok_self (ok r) = refl
  ok_self panic = refl
  ok_self hang = refl

  into : (p : ℕ) (k : Kernel Store Mem) → (dispatch L p k).scheduler_proc ≡ k.scheduler_proc
  unfolding dispatch ctx_switch
  into p k = refl

  queues : (p : ℕ) (k : Kernel Store Mem) → (dispatch L p k).mlfq ≡ k.mlfq
  unfolding dispatch ctx_switch
  queues p k = refl

  round_lem :
      (how : Leave) (rest : List Leave) (k : Kernel Store Mem) → Between k → Round how rest k
  unfolding scheduler turn served
  round_lem how rest k (inv, sched) = elim (claim-Found L k inv) [
    | idle {k'} e same below ↦
        idled k' below (spin-Inv L k inv k' e, same ∙ sched) (rw e (ok_self (scheduler L rest k')))
    | took {k'} p level e same off ↦
        let run = run-Inv L k inv p level k' e in
        let (ps, at, h, below) = run.1 in
        let once : total L k.mlfq p ≤ 1 =
          omega (arith, inv.queued p, due-le-one scheduling k.processes k.scheduler_proc p) in
        let (k'', back, inv'', sched'', taken) =
          leave-Back L how p level s (dispatch L p k') run.0 (into p k' ∙ (same ∙ sched)) in
        ran p k'' (inv'', sched'')
          (λ q ne w.
            nearer L p level ps k.mlfq k''.mlfq h inv.only once at (rw (queues p k', off) at taken)
              q ne below w)
          (rw (e, back) refl)
  ]

  -- The rounds end, with the invariant, and what they switched into has the property.
  abbrev pub Done : List Leave → Kernel Store Mem → (List ℕ → Type 0) → Type 0
  Done leaves k P =
      (ps : List ℕ) × (k' : Kernel Store Mem) × (scheduler L leaves k ≡ ok (ps, k'))
      × Between k'
      × P ps

  same_round :
      (how : Leave) (rest : List Leave) (k k' : Kernel Store Mem) (P : List ℕ → Type 0)
      → scheduler L (how ∷ rest) k ≡ scheduler L rest k'
      → Done rest k' P
      → Done (how ∷ rest) k P
  same_round how rest k k' P e (ps, k'', e', b, w) = (ps, k'', e ∙ e', b, w)

  one_more :
      (how : Leave) (rest : List Leave) (p : ℕ) (k k' : Kernel Store Mem) (P : List ℕ → Type 0)
      → scheduler L (how ∷ rest) k ≡ (scheduler L rest k' >>= λ r. ok (p ∷ r.0, r.1))
      → Done rest k' (λ ps. P (p ∷ ps))
      → Done (how ∷ rest) k P
  one_more how rest p k k' P e (ps, k'', e', b, w) =
      (p ∷ ps, k'', e ∙ ap (λ o. o >>= λ r. ok (p ∷ r.0, r.1)) e', b, w)

  -- Between two rounds: whatever number of rounds follows, and however the processes hand the cpu
  -- back, the scheduler does not panic and does not hang, and the invariant is kept.
  pub scheduler-Between :
      (leaves : List Leave) (k : Kernel Store Mem) → Between k → Done leaves k (λ ps. Unit)
  unfolding scheduler
  scheduler-Between [] k b = ([], k, refl, b, tt)
  scheduler-Between (how ∷ rest) k b = elim (round_lem how rest k b) [
    | idled k' below b' e ↦ same_round how rest k k' _ e (scheduler-Between rest k' b')
    | ran p k' b' near e ↦ one_more how rest p k k' _ e (scheduler-Between rest k' b')
  ]

  no_wait : (q : ℕ) (k : Kernel Store Mem) → EmptyBelow L 3 k.mlfq → waits_on L q k.mlfq ≡ true → ⊥
  no_wait q k below w =
      cc (rw (below 0 (omega arith), below 1 (omega arith), below 2 (omega arith)) at w)

  soon :
      (leaves : List Leave) (k : Kernel Store Mem) (q : ℕ)
      → Between k
      → waits_on L q k.mlfq ≡ true
      → ahead_on L q k.mlfq < length leaves
      → Done leaves k (λ ps. elem q ps ≡ true)
  soon [] k q b w h = absurd (omega arith)
  soon (how ∷ rest) k q b w h = elim (round_lem how rest k b) [
    | idled k' below b' e ↦ absurd (no_wait q k below w)
    | ran p k' b' near e ↦ elim (ℕ_discrete q p) [
      | yes same ↦
          let found : (ps : List ℕ) → elem q (p ∷ ps) ≡ true = λ ps. ground (arith, same) in
          let (ps, k'', e', b'', w') = scheduler-Between rest k' b' in
          one_more how rest p k k' _ e (ps, k'', e', b'', found ps)
      | no ne ↦
          let (w', less) = near q ne w in
          let (ps, k'', e', b'', in_rest) = soon rest k' q b' w' (omega (arith, less)) in
          let found : elem q (p ∷ ps) ≡ true = ground (arith, ne, in_rest) in
          one_more how rest p k k' _ e (ps, k'', e', b'', found)
    ]
  ]

  -- Between two rounds, with slot `q` on one of the three queues: in at least three times as many
  -- rounds as there are processes on the queues, however the processes hand the cpu back (none forks
  -- meanwhile), the scheduler does not panic or hang, keeps the invariant, and switches into `q`.
  pub scheduler-elem :
      (leaves : List Leave) (k : Kernel Store Mem) (q level : ℕ)
      → Between k
      → level < 3
      → elem q (items k.mlfq level) ≡ true
      → 3 * (length (items k.mlfq 0) + length (items k.mlfq 1) + length (items k.mlfq 2))
        ≤ length leaves
      → Done leaves k (λ ps. elem q ps ≡ true)
  scheduler-elem leaves k q level b h on_level enough =
      let w = waits_at L q k.mlfq level h on_level in
      let near = ahead-lt q (items k.mlfq 0) (items k.mlfq 1) (items k.mlfq 2) w in
      soon leaves k q b w (omega (arith, near, enough))
