-- ===== src/Keyboard/Handler/Events.antt =====
-- Which key-down events the keyboard interrupt hands to the listeners.
use horizon_os.Prelude.{
  ℕ, zero, suc, ◌%◌, ◌≤◌, ◌<◌, ◌≡◌, ◌∙◌, refl, inl, inr, Bool, true, false, ◌&&◌, ◌||◌, Option,
  none, some, List, [], ◌∷◌, get_elem?, arith, ltb, leb, ◌==◌, if◌then◌else◌, every_below,
  at-every_below, Bool-cases, dec_lt, ℕ_discrete,
}
use horizon_os.Keyboard.Queue.{KeyEvent, key_event_down, Level, push}
use horizon_os.Keyboard.Queue.Ring.{IsValid, contents, push-IsValid}
use horizon_os.Keyboard.Queue.Refine.{spec_push, push_refines}
use horizon_os.Keyboard.Handler.{
  Keyboard, ascii_of, next_shift, down_event, queue_event, broadcast, keyboard_interrupt_handler,
}
use horizon_os.Keyboard.Handler.Keys.{base_code_lem, is_release_lem}

-- The event of a scan code byte: a code from 1 to 57 with no prefix stands for a key with a
-- character, read in the shift state that the key finds.
abbrev pub event_of : Keyboard → ℕ → ℕ → Option KeyEvent
event_of k ticks s =
    if k.extended_prefix
    then none
    else if leb 1 s && ltb s 58
    then some (record {
      type = key_event_down;
      scan_code = s;
      value = ascii_of k.shift_pressed s;
      timestamp = ticks % 256;
    })
    else none

-- What a level holds after the interrupt: with an event, what its ring makes of it, if it is in
-- use.
abbrev pub handed : Option KeyEvent → Level → List KeyEvent
handed none q = contents q
handed (some ev) q = if q.used then spec_push (contents q) ev else contents q

-- The two tables on the codes with a character, and on the shift keys.
chars_table :
    every_below 58 (λ s.
      leb s 0
      || (ltb 0 (ascii_of true s)
          && ltb (ascii_of true s) 256
          && ltb 0 (ascii_of false s)
          && ltb (ascii_of false s) 256))
    ≡ true
unfolding every_below ascii_of
chars_table = refl

pub chars :
    (shift : Bool) (s : ℕ) → 1 ≤ s → s < 58 → (0 < ascii_of shift s) × (ascii_of shift s < 256)
chars true s pos lt = ground (
  arith,
  at-every_below 58
      (λ s.
        leb s 0
        || (ltb 0 (ascii_of true s)
            && ltb (ascii_of true s) 256
            && ltb 0 (ascii_of false s)
            && ltb (ascii_of false s) 256))
      s chars_table lt,
)
chars false s pos lt = ground (
  arith,
  at-every_below 58
      (λ s.
        leb s 0
        || (ltb 0 (ascii_of true s)
            && ltb (ascii_of true s) 256
            && ltb 0 (ascii_of false s)
            && ltb (ascii_of false s) 256))
      s chars_table lt,
)

-- A shift key has the same character in both tables, so its own press does not matter.
same_char_table :
    every_below 58 (λ s.
      (ascii_of (next_shift false true s false) s == ascii_of true s)
      && (ascii_of (next_shift false false s false) s == ascii_of false s))
    ≡ true
unfolding every_below ascii_of next_shift
same_char_table = refl

same_char :
    (shift : Bool) (s : ℕ) → s < 58 → ascii_of (next_shift false shift s false) s ≡ ascii_of shift s
same_char true s h = ground (arith, at-every_below 58 _ s same_char_table h)
same_char false s h = ground (arith, at-every_below 58 _ s same_char_table h)

abbrev broadcast? : Option KeyEvent → List Level → List Level
broadcast? none qs = qs
broadcast? (some ev) qs = broadcast ev qs

-- The tail of the handler for a key with a character, and for any other byte.
queue_event_char :
    (ticks s : ℕ) (shift : Bool) (qs : List Level)
    → 1 ≤ s
    → s < 58
    → queue_event ticks (next_shift false shift s false) false s false qs
      ≡ broadcast
          (record {
            type = key_event_down;
            scan_code = s;
            value = ascii_of shift s;
            timestamp = ticks % 256;
          })
          qs
unfolding queue_event down_event
queue_event_char ticks s shift qs pos lt =
    let c = chars shift s pos lt in
    let in_table : ltb s 58 ≡ true = ground arith in
    let shown : (ascii_of shift s == 0) ≡ false = ground arith in
    let small : s % 256 ≡ s = omega arith in
    let byte : ascii_of shift s % 256 ≡ ascii_of shift s = omega arith in
    rw (same_char shift s lt, in_table, shown, small, byte)

ascii_of_zero : (shift : Bool) → ascii_of shift 0 ≡ 0
unfolding ascii_of
ascii_of_zero true = refl
ascii_of_zero false = refl

queue_event_other :
    (ticks s : ℕ) (shift : Bool) (qs : List Level)
    → s < 256
    → (leb 1 s && ltb s 58) ≡ false
    → queue_event ticks shift false (s % 128) (leb 128 s) qs ≡ qs
unfolding queue_event
queue_event_other ticks s shift qs h other = elim (dec_lt s 128) [
  | no up ↦ let release : leb 128 s ≡ true = ground arith in rw release
  | yes down ↦
      let release : leb 128 s ≡ false = ground arith in
      let base : s % 128 ≡ s = omega arith in
      elim (dec_lt s 58) [
        | yes low ↦ let e : s ≡ 0 = ground arith in rw (e, ascii_of_zero shift)
        | no high ↦ let outside : ltb s 58 ≡ false = ground arith in rw (release, base, outside)
      ]
]

queue_event_extended :
    (ticks base : ℕ) (shift release : Bool) (qs : List Level)
    → queue_event ticks shift true base release qs ≡ qs
unfolding queue_event
queue_event_extended ticks base shift true qs = refl
queue_event_extended ticks base shift false qs = refl

-- Any byte but the prefix, in the two states of the prefix.
plain-levels :
    (ticks s : ℕ) (ext shift : Bool) (k : Keyboard)
    → s < 256
    → k.extended_prefix ≡ ext
    → k.shift_pressed ≡ shift
    → queue_event ticks
        (next_shift ext shift (s % 128) (leb 128 s))
        ext
        (s % 128)
        (leb 128 s)
        k.levels
      ≡ broadcast? (event_of k ticks s) k.levels
plain-levels ticks s true shift k h e f = rw e (queue_event_extended ticks _ _ _ k.levels)
plain-levels ticks s false shift k h e f = elim (Bool-cases (leb 1 s && ltb s 58)) [
  | inl key ↦
      let base : s % 128 ≡ s = ground arith in
      let down : leb 128 s ≡ false = ground arith in
      rw (e, f, key, base, down)
        (queue_event_char ticks s shift k.levels (ground arith) (ground arith))
  | inr other ↦ rw (e, other) (queue_event_other ticks s _ k.levels h other)
]

-- The interrupt hands its event, if it has one, to the levels in use.
handler-levels :
    (ticks s : ℕ) (k : Keyboard)
    → s < 256
    → (keyboard_interrupt_handler ticks s k).levels ≡ broadcast? (event_of k ticks s) k.levels
unfolding keyboard_interrupt_handler
handler-levels ticks s k h = elim (ℕ_discrete s 0xe0) [
  | yes prefix ↦ elim (Bool-cases k.extended_prefix) [
    | inl ext ↦ rw (prefix, ext)
    | inr plain ↦ rw (prefix, plain)
  ]
  | no ne ↦
      let test : (s == 0xe0) ≡ false = ground arith in
      rw (test, base_code_lem s h, is_release_lem s h)
        (plain-levels ticks s k.extended_prefix k.shift_pressed k h refl refl)
]

used-push : (q : Level) (ev : KeyEvent) → (push q ev).used ≡ q.used
unfolding push
used-push q ev = refl

handed_level :
    (ev : KeyEvent) (q : Level)
    → IsValid q
    → let q' = if q.used then push q ev else q in
      IsValid q' × (q'.used ≡ q.used) × (contents q' ≡ handed (some ev) q)
handed_level ev q v = elim (Bool-cases q.used) [
  | inl listening ↦
      simp listening (push-IsValid ev v, used-push q ev ∙ listening, push_refines ev v)
  | inr idle ↦ simp idle (v, refl, refl)
]

level-broadcast :
    (o : Option KeyEvent) (qs : List Level) (n : ℕ) {q : Level}
    → get_elem? qs n ≡ some q
    → IsValid q
    → (q' : Level) × (get_elem? (broadcast? o qs) n ≡ some q')
      × IsValid q'
      × (q'.used ≡ q.used)
      × (contents q' ≡ handed o q)
unfolding broadcast
level-broadcast none qs n {q} at v = (q, at, v, refl, refl)
level-broadcast (some ev) [] n at v = absurd (ground arith)
level-broadcast (some ev) (p ∷ qs) (suc n) at v = level-broadcast (some ev) qs n at v
level-broadcast (some ev) (p ∷ qs) zero {q} at v =
    let same : p ≡ q = ground arith in
    let h = handed_level ev q v in rw same ((if q.used then push q ev else q), refl, h.0, h.1, h.2)

-- After the interrupt for a byte, every valid level holds what it held, with the byte's event, if
-- it has one, put behind it where the level is in use. The level stays valid, and in use or not as
-- it was.
pub handler-contents :
    (ticks s : ℕ) (k : Keyboard) (n : ℕ) {q : Level}
    → s < 256
    → get_elem? k.levels n ≡ some q
    → IsValid q
    → (q' : Level) × (get_elem? (keyboard_interrupt_handler ticks s k).levels n ≡ some q')
      × IsValid q'
      × (q'.used ≡ q.used)
      × (contents q' ≡ handed (event_of k ticks s) q)
handler-contents ticks s k n h at v =
    rw (handler-levels ticks s k h) (level-broadcast (event_of k ticks s) k.levels n at v)
