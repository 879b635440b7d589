-- ===== src/Keyboard/Queue/Refine.antt =====
-- A ring behaves as a queue of at most 99 events that forgets its oldest when one more comes.
use horizon_os.Prelude.{
  ℕ, zero, suc, ◌+◌, ◌-◌, ◌%◌, ◌≡◌, ◌≢◌, ◌∙◌, refl, ap, true, false, Option, none, some, List, [],
  ◌∷◌, ◌++◌, set, get_or, length, arith, ◌==◌, if◌then◌else◌, ℕ_discrete,
}
use horizon_os.Keyboard.Queue.{KeyEvent, zero_event, Level, push, poll, ring_buffer_size}
use horizon_os.Keyboard.Queue.Ring.{
  IsValid, events_from, count, contents, length-events_from, events_from-set, push-IsValid,
  poll-IsValid,
}

-- A client's call of a ring.
pub data Call : Type 0 where
  put : KeyEvent → Call
  get : Call

abbrev pub drop_oldest : List KeyEvent → List KeyEvent
drop_oldest [] = []
drop_oldest (x ∷ xs) = xs

-- The specification of `keyboard_push` and `keyboard_poll`, over the events in order.
unfoldable pub spec_push : List KeyEvent → KeyEvent → List KeyEvent
spec_push xs v = if length xs == 99 then drop_oldest xs ++ v ∷ [] else xs ++ v ∷ []

unfoldable pub spec_poll : List KeyEvent → Option KeyEvent × List KeyEvent
spec_poll [] = (none, [])
spec_poll (x ∷ xs) = (some x, xs)

unfoldable pub run : Level → List Call → List (Option KeyEvent)
run q [] = []
run q (put v ∷ calls) = none ∷ run (push q v) calls
run q (get ∷ calls) = let (out, q') = poll q in out ∷ run q' calls

unfoldable pub spec_run : List KeyEvent → List Call → List (Option KeyEvent)
spec_run xs [] = []
spec_run xs (put v ∷ calls) = none ∷ spec_run (spec_push xs v) calls
spec_run xs (get ∷ calls) = let (out, xs') = spec_poll xs in out ∷ spec_run xs' calls

-- `events_from` goes by the number of events, the code by the two indices.
events_from_of_pos :
    (buf : List KeyEvent) (t n : ℕ)
    → n ≢ 0
    → events_from buf t n
      ≡ get_or buf t zero_event ∷ events_from buf ((t + 1) % ring_buffer_size) (n - 1)
events_from_of_pos buf t zero h = absurd (h refl)
events_from_of_pos buf t (suc n) h = ap (λ k. events_from buf t (suc k)) (omega arith)

drop_oldest-append :
    (xs : List KeyEvent) (v : KeyEvent)
    → length xs ≢ 0
    → drop_oldest (xs ++ v ∷ []) ≡ drop_oldest xs ++ v ∷ []
drop_oldest-append [] v h = absurd (h refl)
drop_oldest-append (x ∷ xs) v h = refl

module _ (q : Level) (v : KeyEvent) (h : IsValid q) where
  written : List KeyEvent
  written = set q.queue q.head v

  added : events_from written q.tail (suc (count q)) ≡ contents q ++ v ∷ []
  unfolding written
  added =
      events_from-set q.queue v (count q) q.tail q.head h.storage h.tail_in (omega arith)
        (omega arith)

  push_room :
      (q.head + 1) % ring_buffer_size ≢ q.tail → contents (push q v) ≡ spec_push (contents q) v
  unfolding push spec_push written
  push_room room =
      let n : ℕ = count q in
      let size = length-events_from q.queue q.tail n in
      let test : ((q.head + 1) % ring_buffer_size == q.tail) ≡ false = ground arith in
      let few : (n == 99) ≡ false = ground arith in
      let grown : ((q.head + 1) % ring_buffer_size + ring_buffer_size - q.tail) % ring_buffer_size
          ≡ suc n =
        omega arith in
      rw (test, size, few, grown) added

  push_full :
      (q.head + 1) % ring_buffer_size ≡ q.tail → contents (push q v) ≡ spec_push (contents q) v
  unfolding push spec_push written
  push_full full =
      let n : ℕ = count q in
      let all : n ≡ 99 = omega arith in
      let size = length-events_from q.queue q.tail n in
      let test : ((q.head + 1) % ring_buffer_size == q.tail) ≡ true = ground arith in
      let many : (n == 99) ≡ true = ground arith in
      let kept : ((q.head + 1) % ring_buffer_size
              + ring_buffer_size
              - (q.tail + 1) % ring_buffer_size)
            % ring_buffer_size
          ≡ n =
        omega arith in
      rw (test, size, many, kept)
        (ap drop_oldest added ∙ drop_oldest-append (contents q) v (omega (arith, size)))

-- `keyboard_push` adds the event behind those that the ring holds; a full ring loses its oldest.
pub push_refines :
    {q : Level} (v : KeyEvent) → IsValid q → contents (push q v) ≡ spec_push (contents q) v
push_refines {q} v h = elim (ℕ_discrete ((q.head + 1) % ring_buffer_size) q.tail) [
  | yes full ↦ push_full q v h full
  | no room ↦ push_room q v h room
]

-- `keyboard_poll` takes the oldest event, and says so when there is none.
pub poll_refines :
    {q : Level} → IsValid q → let (out, q') = poll q in (out, contents q') ≡ spec_poll (contents q)
unfolding poll spec_poll
poll_refines {q} h = ground (arith, events_from_of_pos q.queue q.tail (count q))

-- No sequence of calls tells a valid ring from the bounded queue of the events that it holds.
pub run_refines :
    (calls : List Call) {q : Level} → IsValid q → run q calls ≡ spec_run (contents q) calls
unfolding run spec_run
run_refines [] h = refl
run_refines (put v ∷ calls) h = rw (run_refines calls (push-IsValid v h), push_refines v h)
run_refines (get ∷ calls) h = rw (run_refines calls (poll-IsValid h), ← poll_refines h)
