-- ===== src/Sched/Kernel/States.antt =====
-- What a write to a slot of the process table does to the states of the slots.
use horizon_os.Prelude.{ℕ, zero, suc, ◌≡◌, ◌≢◌, refl, ap, List, [], ◌∷◌}
use horizon_os.Sched.Kernel.{Process, ProcessState, unused, state_at, modify, set_state}

pub modify_self :
    (ps : List Process) (i : ℕ) (f : Process → Process) (st : ProcessState)
    → state_at ps i ≢ unused
    → ((p : Process) → (f p).state ≡ st)
    → state_at (modify ps i f) i ≡ st
unfolding state_at modify
modify_self [] i f st h e = absurd (h refl)
modify_self (p ∷ ps) zero f st h e = e p
modify_self (p ∷ ps) (suc i) f st h e = modify_self ps i f st h e

pub modify_ne :
    (ps : List Process) (i j : ℕ) (f : Process → Process)
    → j ≢ i
    → state_at (modify ps i f) j ≡ state_at ps j
unfolding state_at modify
modify_ne [] i j f h = refl
modify_ne (p ∷ ps) zero zero f h = absurd (h refl)
modify_ne (p ∷ ps) zero (suc j) f h = refl
modify_ne (p ∷ ps) (suc i) zero f h = refl
modify_ne (p ∷ ps) (suc i) (suc j) f h = modify_ne ps i j f (λ e. h (ap suc e))

pub modify_same :
    (ps : List Process) (i j : ℕ) (f : Process → Process)
    → ((p : Process) → (f p).state ≡ p.state)
    → state_at (modify ps i f) j ≡ state_at ps j
unfolding state_at modify
modify_same [] i j f h = refl
modify_same (p ∷ ps) zero zero f h = h p
modify_same (p ∷ ps) zero (suc j) f h = refl
modify_same (p ∷ ps) (suc i) zero f h = refl
modify_same (p ∷ ps) (suc i) (suc j) f h = modify_same ps i j f h

pub set_state_self :
    (ps : List Process) (i : ℕ) (st : ProcessState)
    → state_at ps i ≢ unused
    → state_at (set_state ps i st) i ≡ st
unfolding set_state
set_state_self ps i st h = modify_self ps i _ st h (λ p. refl)

pub set_state_ne :
    (ps : List Process) (i j : ℕ) (st : ProcessState)
    → j ≢ i
    → state_at (set_state ps i st) j ≡ state_at ps j
unfolding set_state
set_state_ne ps i j st h = modify_ne ps i j _ h
