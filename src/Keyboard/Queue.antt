-- ===== src/Keyboard/Queue.antt =====
-- The event queues of drivers/keyboard/keyboard.c: one ring of 100 events for each listener.
-- An `int` index of a ring starts at 0 and is only ever taken modulo 100, so it is a number.
pub mod Ring
pub mod Refine
pub mod Listeners
use horizon_os.Prelude.{
  ℕ, zero, suc, ◌+◌, ◌-◌, ◌%◌, Bool, true, false, Option, none, some, List, [], ◌∷◌, set, get_or,
  replicate, ◌==◌, if◌then◌else◌,
}

abbrev pub ring_buffer_size : ℕ
ring_buffer_size = 100

abbrev pub keyboard_queue_levels : ℕ
keyboard_queue_levels = 10

abbrev pub key_event_down : ℕ
key_event_down = 1

-- `struct key_event_t`. Each `int8_t` is its bit pattern, below 256.
pub record KeyEvent : Type 0 where
  pub type : ℕ
  pub scan_code : ℕ
  pub value : ℕ
  pub timestamp : ℕ

abbrev pub zero_event : KeyEvent
zero_event = record { type = 0; scan_code = 0; value = 0; timestamp = 0 }

-- One row of `keyboard_multilevel_queue` with its entry of `keyboard_queue_state`.
pub record Level : Type 0 where
  pub queue : List KeyEvent
  pub head : ℕ
  pub tail : ℕ
  pub used : Bool

abbrev pub fresh_level : Level
fresh_level = record {
  queue = replicate ring_buffer_size zero_event;
  head = 0;
  tail = 0;
  used = false;
}

unfoldable pub push : Level → KeyEvent → Level
push q entry =
    let next = (q.head + 1) % ring_buffer_size in
    record q {
      queue = set q.queue q.head entry;
      head = next;
      tail = if next == q.tail then (q.tail + 1) % ring_buffer_size else q.tail;
    }

unfoldable pub poll : Level → Option KeyEvent × Level
poll q = if q.tail == q.head then (none, q) else (
  some (get_or q.queue q.tail zero_event),
  record q { tail = (q.tail + 1) % ring_buffer_size },
)

-- `keyboard_push(level, entry)`: only the row of `level` changes.
unfoldable pub keyboard_push : ℕ → KeyEvent → List Level → List Level
keyboard_push level entry [] = []
keyboard_push zero entry (q ∷ qs) = push q entry ∷ qs
keyboard_push (suc level) entry (q ∷ qs) = q ∷ keyboard_push level entry qs

unfoldable pub keyboard_poll : ℕ → List Level → Option KeyEvent × List Level
keyboard_poll level [] = (none, [])
keyboard_poll zero (q ∷ qs) = let (out, q') = poll q in (out, q' ∷ qs)
keyboard_poll (suc level) (q ∷ qs) = let (out, qs') = keyboard_poll level qs in (out, q ∷ qs')

-- The loop of `register_keyboard_listener`; `none` is the panic at its end.
unfoldable pub register : List Level → Option (ℕ × List Level)
register [] = none
register (q ∷ qs) =
    let rest : Option (ℕ × List Level) = elim (register qs) [
      | none ↦ none
      | some (level, qs') ↦ some (suc level, q ∷ qs')
    ] in
    if q.used then rest else some (0, record q { used = true } ∷ qs)

-- `remove_keyboard_listener` clears the state of the level, and leaves its events where they are.
unfoldable pub remove : ℕ → List Level → List Level
remove level [] = []
remove zero (q ∷ qs) = record q { head = 0; tail = 0; used = false } ∷ qs
remove (suc level) (q ∷ qs) = q ∷ remove level qs
