-- ===== src/Sched/Mlfq/Claim.antt =====
-- Which process the scheduler claims.
use horizon_os.Prelude.{
  ℕ, zero, suc, ◌+◌, ◌<◌, ◌≡◌, refl, ◌⊎◌, inl, inr, true, false, Option, none, some, List, [], ◌∷◌,
  arith, ℕ_discrete,
}
use horizon_os.Sched.Lists.{ListHead}
use horizon_os.Sched.Mlfq.{claim_from}

module _ (L : ListHead) where
  open L use {
    Store, items, list_empty_careful, list_first_entry, list_del_init_careful, empty_lem, first_lem,
  }

  abbrev pub EmptyBelow : ℕ → Store → Type 0
  EmptyBelow n s = (j : ℕ) → j < n → items s j ≡ []

  -- What the loop over the levels below `n` finds: nothing, where they are all empty; else the oldest
  -- process of the first level that is not, which is taken off.
  pub data Claimed (n : ℕ) (s : Store) : Option (ℕ × ℕ) × Store → Type 0 where
    nothing : EmptyBelow n s → Claimed n s (none, s)
    oldest :
        (p level : ℕ) (ps : List ℕ)
        → level < n
        → EmptyBelow level s
        → items s level ≡ p ∷ ps
        → Claimed n s (some (p, level), list_del_init_careful p s)

  List-cases : (xs : List ℕ) → (xs ≡ []) ⊎ ((x : ℕ) × (ys : List ℕ) × (xs ≡ x ∷ ys))
  List-cases [] = inl refl
  List-cases (x ∷ xs) = inr (x, xs, refl)

  EmptyBelow-suc : (i : ℕ) (s : Store) → EmptyBelow i s → items s i ≡ [] → EmptyBelow (i + 1) s
  EmptyBelow-suc i s below e j h = elim (ℕ_discrete j i) [
    | yes same ↦ rw same e
    | no ne ↦ below j (omega arith)
  ]

  claim_from_lem :
      (left i n : ℕ) (s : Store)
      → i + left ≡ n
      → EmptyBelow i s
      → Claimed n s (claim_from L left i s)
  unfolding claim_from
  claim_from_lem zero i n s sum below = nothing (λ j h. below j (omega arith))
  claim_from_lem (suc left) i n s sum below = elim (List-cases (items s i)) [
    | inl e ↦
        let empty : list_empty_careful i s ≡ true = rw (empty_lem i s, e) refl in
        rw (empty, claim_from)
          (claim_from_lem left (i + 1) n s (omega arith) (EmptyBelow-suc i s below e))
    | inr (p, ps, e) ↦
        let full : list_empty_careful i s ≡ false = rw (empty_lem i s, e) refl in
        rw (full, first_lem i p ps s e, claim_from) (oldest p i ps (omega arith) below e)
  ]

  -- One pass over the three queues.
  pub claim_lem : (s : Store) → Claimed 3 s (claim_from L 3 0 s)
  claim_lem s = claim_from_lem 3 0 3 s refl (λ j h. elim h [ ])
