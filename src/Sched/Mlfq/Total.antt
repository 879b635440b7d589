-- ===== src/Sched/Mlfq/Total.antt =====
-- How often a process stands on the run queues.
use horizon_os.Prelude.{
  ℕ, zero, suc, ◌+◌, ◌≤◌, ◌<◌, ◌≡◌, ◌≢◌, refl, ap, ◌∙◌, ◌⊎◌, inl, inr, false, List, [], ◌∷◌, ◌++◌,
  arith, ◌==◌, if◌then◌else◌, dec_lt, subst, ◌%◌,
}
use horizon_os.Sched.Lists.{ListHead, elem}

abbrev pub occ : ℕ → List ℕ → ℕ
occ p [] = 0
occ p (x ∷ xs) = (if p == x then 1 else 0) + occ p xs

occ-append : (p : ℕ) (xs ys : List ℕ) → occ p (xs ++ ys) ≡ occ p xs + occ p ys
occ-append p [] ys = omega arith
occ-append p (x ∷ xs) ys = omega (arith, occ-append p xs ys)

elem_of_occ : (p : ℕ) (xs : List ℕ) → occ p xs ≡ 0 → elem p xs ≡ false
elem_of_occ p [] h = refl
elem_of_occ p (x ∷ xs) h = ground (arith, elem_of_occ p xs)

pub three : (l : ℕ) → l < 3 → (l ≡ 0) ⊎ ((l ≡ 1) ⊎ (l ≡ 2))
three l h = omega arith

module _ (L : ListHead) where
  open L use {
    Store, items, list_add_tail, list_del_init_careful, add_self, add_other, del_self, del_other,
  }

  -- The three queues together.
  abbrev pub total : Store → ℕ → ℕ
  total s p = occ p (items s 0) + occ p (items s 1) + occ p (items s 2)

  -- No other list is in use.
  abbrev pub OnlyQueues : Store → Type 0
  OnlyQueues s = (j : ℕ) → 3 ≤ j → items s j ≡ []

  module _ (s : Store) (only : OnlyQueues s) where
    pub absent : (p j : ℕ) → total s p ≡ 0 → elem p (items s j) ≡ false
    absent p zero h = elem_of_occ p (items s 0) (omega arith)
    absent p (suc zero) h = elem_of_occ p (items s 1) (omega arith)
    absent p (suc (suc zero)) h = elem_of_occ p (items s 2) (omega arith)
    absent p (suc (suc (suc j))) h = rw (only (suc (suc (suc j))) (omega arith))

    -- A process that stands on no queue is added once.
    module _ (p : ℕ) (e : total s p ≡ 0) where
      occ-add_self :
          (h q : ℕ) → occ q (items (list_add_tail p h s) h) ≡ occ q (items s h) + occ q (p ∷ [])
      occ-add_self h q =
          ap (occ q) (add_self p h s (λ i. absent p i e)) ∙ occ-append q (items s h) (p ∷ [])

      occ-add_other :
          (h j q : ℕ) → j ≢ h → occ q (items (list_add_tail p h s) j) ≡ occ q (items s j)
      occ-add_other h j q ne = ap (occ q) (add_other p h j s (λ i. absent p i e) ne)

      pub total-add :
          (level q : ℕ)
          → level < 3
          → total (list_add_tail p level s) q ≡ total s q + (if q == p then 1 else 0)
      total-add zero q h = omega (
        arith,
        occ-add_self 0 q,
        occ-add_other 0 1 q (omega arith),
        occ-add_other 0 2 q (omega arith),
      )
      total-add (suc zero) q h = omega (
        arith,
        occ-add_self 1 q,
        occ-add_other 1 0 q (omega arith),
        occ-add_other 1 2 q (omega arith),
      )
      total-add (suc (suc zero)) q h = omega (
        arith,
        occ-add_self 2 q,
        occ-add_other 2 0 q (omega arith),
        occ-add_other 2 1 q (omega arith),
      )
      total-add (suc (suc (suc l))) q h = absurd (omega arith)

      pub only-add : (level : ℕ) → level < 3 → OnlyQueues (list_add_tail p level s)
      only-add level h j out = add_other p level j s (λ i. absent p i e) (omega arith) ∙ only j out

    -- Two queues hold no more than the three together.
    pair : (p i j : ℕ) → i < 3 → j < 3 → i ≢ j → occ p (items s i) + occ p (items s j) ≤ total s p
    pair p zero zero hi hj ne = omega arith
    pair p zero (suc zero) hi hj ne = omega arith
    pair p zero (suc (suc zero)) hi hj ne = omega arith
    pair p zero (suc (suc (suc j))) hi hj ne = omega arith
    pair p (suc zero) zero hi hj ne = omega arith
    pair p (suc zero) (suc zero) hi hj ne = omega arith
    pair p (suc zero) (suc (suc zero)) hi hj ne = omega arith
    pair p (suc zero) (suc (suc (suc j))) hi hj ne = omega arith
    pair p (suc (suc zero)) zero hi hj ne = omega arith
    pair p (suc (suc zero)) (suc zero) hi hj ne = omega arith
    pair p (suc (suc zero)) (suc (suc zero)) hi hj ne = omega arith
    pair p (suc (suc zero)) (suc (suc (suc j))) hi hj ne = omega arith
    pair p (suc (suc (suc i))) j hi hj ne = omega arith

    -- The first process of a queue that stands nowhere else is taken off.
    module _ (p level : ℕ) (ps : List ℕ) (at : items s level ≡ p ∷ ps) (h : level < 3)
        (once : total s p ≤ 1) where
      occ_at : (q : ℕ) → occ q (items s level) ≡ (if q == p then 1 else 0) + occ q ps
      occ_at q = ap (occ q) at

      occ_self : occ p (items s level) ≡ 1 + occ p ps
      occ_self = ground (arith, occ_at p)

      other : (j : ℕ) → j < 3 → j ≢ level → occ p (items s j) ≡ 0
      other j lt ne = omega (arith, pair p j level lt h ne, occ_self)

      pub off_others : (j : ℕ) → j ≢ level → elem p (items s j) ≡ false
      off_others j ne = elim (dec_lt j 3) [
        | yes lt ↦ elem_of_occ p (items s j) (other j lt ne)
        | no ge ↦ rw (only j (omega arith))
      ]

      pub off_tail : elem p ps ≡ false
      off_tail =
          let next : (level + 1) % 3 ≢ level = omega arith in
          elem_of_occ p ps
            (omega (arith, pair p ((level + 1) % 3) level (omega arith) h next, occ_self))

      occ-del_self :
          (q : ℕ)
          → occ q (items (list_del_init_careful p s) level) + (if q == p then 1 else 0)
            ≡ occ q (items s level)
      occ-del_self q = rw (del_self level p ps s at off_tail off_others) (omega (arith, occ_at q))

      occ-del_other :
          (j q : ℕ) → j ≢ level → occ q (items (list_del_init_careful p s) j) ≡ occ q (items s j)
      occ-del_other j q ne = ap (occ q) (del_other level p j ps s at off_tail off_others ne)

      pub only-del : OnlyQueues (list_del_init_careful p s)
      only-del j out = del_other level p j ps s at off_tail off_others (omega arith) ∙ only j out

      pub total-del :
          (q : ℕ) → total (list_del_init_careful p s) q + (if q == p then 1 else 0) ≡ total s q
      total-del q = elim (three level h) [
        | inl e ↦ omega (
          arith,
          at_level q 0 e,
          occ-del_other 1 q (omega arith),
          occ-del_other 2 q (omega arith),
        )
        | inr (inl e) ↦ omega (
          arith,
          at_level q 1 e,
          occ-del_other 0 q (omega arith),
          occ-del_other 2 q (omega arith),
        )
        | inr (inr e) ↦ omega (
          arith,
          at_level q 2 e,
          occ-del_other 0 q (omega arith),
          occ-del_other 1 q (omega arith),
        )
      ]
        where
          at_level :
              (q l : ℕ)
              → level ≡ l
              → occ q (items (list_del_init_careful p s) l) + (if q == p then 1 else 0)
                ≡ occ q (items s l)
          at_level q l e =
              subst
                (λ k.
                  occ q (items (list_del_init_careful p s) k) + (if q == p then 1 else 0)
                  ≡ occ q (items s k))
                e (occ-del_self q)
