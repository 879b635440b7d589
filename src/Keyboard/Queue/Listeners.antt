-- ===== src/Keyboard/Queue/Listeners.antt =====
-- `register_keyboard_listener` and `remove_keyboard_listener`: which queue a listener is given.
use horizon_os.Prelude.{
  ℕ, zero, suc, ◌≡◌, ◌≢◌, refl, ap, inl, inr, true, false, none, some, List, [], ◌∷◌, get_elem?,
  set, arith, Bool-cases, Option-cases,
}
use horizon_os.Keyboard.Queue.{Level, register, remove}

abbrev pub AllUsed : List Level → Type 0
AllUsed [] = Unit {0}
AllUsed (q ∷ qs) = (q.used ≡ true) × AllUsed qs

-- The levels before `n` are in use.
abbrev pub UsedBelow : ℕ → List Level → Type 0
UsedBelow zero qs = Unit {0}
UsedBelow (suc n) [] = Unit {0}
UsedBelow (suc n) (q ∷ qs) = (q.used ≡ true) × UsedBelow n qs

-- Where every level is in use, a listener is refused.
pub register_full : (qs : List Level) → AllUsed qs → register qs ≡ none
unfolding register
register_full [] h = refl
register_full (q ∷ qs) h = rw (h.0, register_full qs h.1)

-- What `register` answers when it gives level `n`.
abbrev pub First : List Level → ℕ → List Level → Type 0
First qs n qs' =
    (q : Level) × (get_elem? qs n ≡ some q)
    × (q.used ≡ false)
    × UsedBelow n qs
    × (qs' ≡ set qs n (record q { used = true }))

First-cons :
    (q : Level) (qs : List Level) (n : ℕ) (qs' : List Level)
    → q.used ≡ true
    → First qs n qs'
    → First (q ∷ qs) (suc n) (q ∷ qs')
First-cons q qs n qs' u (p, at, free, below, same) = (p, at, free, (u, below), ap (λ l. q ∷ l) same)

-- Where a listener is given a level, it is the first that is not in use: that level was free, all
-- before it are in use, and the only change is that it is now in use.
pub register-First :
    (qs : List Level) (n : ℕ) (qs' : List Level) → register qs ≡ some (n, qs') → First qs n qs'
unfolding register
register-First [] n qs' h = cc
register-First (q ∷ qs) n qs' h = elim (Bool-cases q.used) [
  | inl u ↦ elim (Option-cases (register qs)) [
    | inl e ↦ absurd (ground (arith, u, e))
    | inr ((m, rs), e) ↦
        let same : (n ≡ suc m) × (qs' ≡ q ∷ rs) = ground (arith, u, e) in
        rw (same.0, same.1) (First-cons q qs m rs u (register-First qs m rs e))
  ]
  | inr u ↦
      let same : (n ≡ 0) × (qs' ≡ record q { used = true } ∷ qs) = ground (arith, u) in
      rw (same.0, same.1) (q, refl, u, tt, refl)
]

-- A removed listener's level is free and empty, and the other levels are as they were.
pub get_elem?-remove_self :
    (n : ℕ) (qs : List Level) {q : Level}
    → get_elem? qs n ≡ some q
    → get_elem? (remove n qs) n ≡ some (record q { head = 0; tail = 0; used = false })
unfolding remove
get_elem?-remove_self n [] h = ground arith
get_elem?-remove_self zero (q ∷ qs) h = ground arith
get_elem?-remove_self (suc n) (q ∷ qs) h = get_elem?-remove_self n qs h

pub remove_ne : (n m : ℕ) (qs : List Level) → n ≢ m → get_elem? (remove n qs) m ≡ get_elem? qs m
unfolding remove
remove_ne n m [] h = refl
remove_ne zero zero (q ∷ qs) h = absurd (h refl)
remove_ne zero (suc m) (q ∷ qs) h = refl
remove_ne (suc n) zero (q ∷ qs) h = refl
remove_ne (suc n) (suc m) (q ∷ qs) h = remove_ne n m qs (λ e. h (ap suc e))
