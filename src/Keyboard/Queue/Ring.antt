-- ===== src/Keyboard/Queue/Ring.antt =====
-- What one ring of drivers/keyboard/keyboard.c holds: its invariant and its events in order.
use horizon_os.Prelude.{
  ℕ, zero, suc, ◌+◌, ◌-◌, ◌%◌, ◌<◌, ◌≡◌, ◌≢◌, refl, ap, List, [], ◌∷◌, ◌++◌, set, get_or, length,
  length-set, arith,
}
use horizon_os.Keyboard.Queue.{KeyEvent, zero_event, Level, push, poll, ring_buffer_size}

-- The indices stay inside the storage.
pub record IsValid (q : Level) : Type 0 where
  pub storage : length q.queue ≡ ring_buffer_size
  pub head_in : q.head < ring_buffer_size
  pub tail_in : q.tail < ring_buffer_size

-- The `n` events from index `t` on, going round at the end of the storage.
abbrev pub events_from : List KeyEvent → ℕ → ℕ → List KeyEvent
events_from buf t zero = []
events_from buf t (suc n) = get_or buf t zero_event ∷ events_from buf ((t + 1) % ring_buffer_size) n

abbrev pub count : Level → ℕ
count q = (q.head + ring_buffer_size - q.tail) % ring_buffer_size

-- The events that a ring holds, oldest first.
abbrev pub contents : Level → List KeyEvent
contents q = events_from q.queue q.tail (count q)

pub length-events_from : (buf : List KeyEvent) (t n : ℕ) → length (events_from buf t n) ≡ n
length-events_from buf t zero = refl
length-events_from buf t (suc n) = ap suc (length-events_from buf ((t + 1) % ring_buffer_size) n)

pub get_or-set_self :
    (xs : List KeyEvent) (i : ℕ) (v d : KeyEvent) → i < length xs → get_or (set xs i v) i d ≡ v
get_or-set_self [] i v d h = absurd (omega arith)
get_or-set_self (x ∷ xs) zero v d h = refl
get_or-set_self (x ∷ xs) (suc i) v d h = get_or-set_self xs i v d (omega arith)

pub get_or-set_ne :
    (xs : List KeyEvent) (i j : ℕ) (v d : KeyEvent)
    → i ≢ j
    → get_or (set xs i v) j d ≡ get_or xs j d
get_or-set_ne [] i j v d h = refl
get_or-set_ne (x ∷ xs) zero zero v d h = absurd (h refl)
get_or-set_ne (x ∷ xs) zero (suc j) v d h = refl
get_or-set_ne (x ∷ xs) (suc i) zero v d h = refl
get_or-set_ne (x ∷ xs) (suc i) (suc j) v d h = get_or-set_ne xs i j v d (λ e. h (ap suc e))

-- A write just past the events that a ring holds adds one behind them.
pub events_from-set :
    (buf : List KeyEvent) (v : KeyEvent) (n t i : ℕ)
    → length buf ≡ ring_buffer_size
    → t < ring_buffer_size
    → n < ring_buffer_size
    → i ≡ (t + n) % ring_buffer_size
    → events_from (set buf i v) t (suc n) ≡ events_from buf t n ++ v ∷ []
events_from-set buf v zero t i hs ht hn e =
    let here : i ≡ t = omega arith in
    ap (λ x. x ∷ []) (rw here (get_or-set_self buf t v zero_event (omega arith)))
events_from-set buf v (suc n) t i hs ht hn e =
    let apart : i ≢ t = omega arith in
    let rest =
      events_from-set buf v n ((t + 1) % ring_buffer_size) i hs (omega arith) (omega arith)
        (omega arith) in
    rw (get_or-set_ne buf i t v zero_event apart) (ap (λ x. get_or buf t zero_event ∷ x) rest)

pub push-IsValid : {q : Level} (entry : KeyEvent) → IsValid q → IsValid (push q entry)
unfolding push
push-IsValid {q} entry v = ground (arith, length-set q.queue q.head entry)

pub poll-IsValid : {q : Level} → IsValid q → IsValid (poll q).1
unfolding poll
poll-IsValid v = ground arith
