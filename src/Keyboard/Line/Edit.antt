-- ===== src/Keyboard/Line/Edit.antt =====
-- `readline` against a line editor over the keys alone: a stack of characters, newest first.
use mathlib.Core.List
use horizon_os.Prelude.{
  ℕ, zero, suc, ◌-◌, ◌≤◌, ◌<◌, ◌≡◌, ◌∙◌, refl, ap, sym, inl, inr, inl, inr, true, false, ◌&&◌,
  Option, none, some, List, [], ◌∷◌, ◌++◌, set, ltb, leb, ◌==◌, if◌then◌else◌, length, get_elem?,
  take, arith, length-set, get_elem?-set_self, get_elem?-set_ne, Bool-cases,
}
use horizon_os.Keyboard.Queue.{KeyEvent, key_event_down}
use horizon_os.Keyboard.Line.{
  Output, putchar, backspace, Line, add_char, rub_out, edit, read_loop, readline,
}

abbrev pub drop_last : List ℕ → List ℕ
drop_last [] = []
drop_last (c ∷ cs) = cs

-- One key of the line editor, in a line of at most `room` characters.
unfoldable pub type_key : ℕ → ℕ → List ℕ → List ℕ
type_key room c typed =
    if c == 8
    then drop_last typed
    else if leb 32 c && ltb c 127
    then if ltb (length typed) room then c ∷ typed else typed
    else typed

-- The line that the keys give, once a newline ends it.
unfoldable pub typed_line : ℕ → List ℕ → List KeyEvent → Option (List ℕ)
typed_line room typed [] = none
typed_line room typed (ev ∷ evs) =
    let skipped = typed_line room typed evs in
    let next = typed_line room (type_key room ev.value typed) evs in
    if ev.type == key_event_down then if ev.value == 10 then some typed else next else skipped

-- What stands on the screen after the calls, newest first.
unfoldable pub shown : List ℕ → List Output → List ℕ
shown screen [] = screen
shown screen (putchar c ∷ os) = shown (c ∷ screen) os
shown screen (backspace ∷ os) = shown (drop_last screen) os

shown-append :
    (screen : List ℕ) (os ps : List Output) → shown screen (os ++ ps) ≡ shown (shown screen os) ps
unfolding shown
shown-append screen [] ps = refl
shown-append screen (putchar c ∷ os) ps = shown-append (c ∷ screen) os ps
shown-append screen (backspace ∷ os) ps = shown-append (drop_last screen) os ps

-- The buffer holds the characters, the oldest at index 0.
abbrev pub Holds : List ℕ → List ℕ → Type 0
Holds buf [] = Unit {0}
Holds buf (c ∷ cs) = (get_elem? buf (length cs) ≡ some c) × Holds buf cs

Holds-set : (buf cs : List ℕ) (i c : ℕ) → length cs ≤ i → Holds buf cs → Holds (set buf i c) cs
Holds-set buf [] i c h holds = tt
Holds-set buf (d ∷ cs) i c h holds =
    (get_elem?-set_ne buf c (omega arith) ∙ holds.0, Holds-set buf cs i c (omega arith) holds.1)

take-suc :
    (n : ℕ) (xs : List ℕ) {c : ℕ} → get_elem? xs n ≡ some c → take (suc n) xs ≡ take n xs ++ c ∷ []
take-suc n [] h = absurd (ground arith)
take-suc zero (x ∷ xs) h = ground arith
take-suc (suc n) (x ∷ xs) h = ap (λ l. x ∷ l) (take-suc n xs h)

take_of_Holds : (buf cs : List ℕ) → Holds buf cs → take (length cs) buf ≡ List.reverse cs
take_of_Holds buf [] h = refl
take_of_Holds buf (c ∷ cs) h =
    take-suc (length cs) buf h.0
    ∙ ap (λ l. l ++ c ∷ []) (take_of_Holds buf cs h.1)
    ∙ sym (List.reverse-cons c cs)

-- The loop's variables hold the line typed so far.
pub record Tracks (len : ℕ) (l : Line) (typed : List ℕ) : Type 0 where
  pub size : length l.buf ≡ len
  pub at : l.pos ≡ length typed
  pub fits : length typed < len
  pub holds : Holds l.buf typed
  pub echo : shown [] l.output ≡ typed

add_char-Tracks :
    (len c : ℕ) (l : Line) (typed : List ℕ)
    → Tracks len l typed
    → Tracks len (add_char len c l) (if ltb (length typed) (len - 1) then c ∷ typed else typed)
unfolding add_char shown
add_char-Tracks len c l typed t = elim (Bool-cases (ltb (length typed) (len - 1))) [
  | inl room ↦
      let test : ltb l.pos (len - 1) ≡ true = rw t.at room in
      let inside : l.pos < length l.buf = omega (arith, t.size, t.at, t.fits) in
      rw (test, room)
        (record {
          size = length-set l.buf l.pos c ∙ t.size;
          at = omega (arith, t.at);
          fits = ground arith;
          holds = (
            rw (← t.at) (get_elem?-set_self l.buf l.pos c inside),
            Holds-set l.buf typed l.pos c (omega (arith, t.at)) t.holds,
          );
          echo = shown-append [] l.output (putchar c ∷ []) ∙ ap (λ s. c ∷ s) t.echo;
        })
  | inr full ↦ let test : ltb l.pos (len - 1) ≡ false = rw t.at full in rw (test, full) t
]

rub_out-Tracks :
    (len : ℕ) (l : Line) (typed : List ℕ)
    → Tracks len l typed
    → Tracks len (rub_out l) (drop_last typed)
unfolding rub_out shown
rub_out-Tracks len l [] t = let test : ltb 0 l.pos ≡ false = rw t.at refl in rw test t
rub_out-Tracks len l (c ∷ cs) t =
    let test : ltb 0 l.pos ≡ true = rw t.at (ground arith) in
    rw test (record {
      size = t.size;
      at = omega (arith, t.at);
      fits = omega (arith, t.fits);
      holds = t.holds.1;
      echo = shown-append [] l.output (backspace ∷ []) ∙ ap drop_last t.echo;
    })

edit-Tracks :
    (len c : ℕ) (l : Line) (typed : List ℕ)
    → Tracks len l typed
    → Tracks len (edit len c l) (type_key (len - 1) c typed)
unfolding edit type_key
edit-Tracks len c l typed t = elim (Bool-cases (c == 8)) [
  | inl back ↦ rw back (rub_out-Tracks len l typed t)
  | inr other ↦ elim (Bool-cases (leb 32 c && ltb c 127)) [
    | inl print ↦ rw (other, print) (add_char-Tracks len c l typed t)
    | inr control ↦ rw (other, control) t
  ]
]

-- What `readline` answers for the typed line `cs`: its length, and the line in the buffer with a
-- NUL behind it. The screen shows the line and a newline.
pub record Reads (len : ℕ) (cs : List ℕ) (n : ℕ) (l : Line) : Type 0 where
  pub count : n ≡ length cs
  pub in_bounds : n < len
  pub text : take n l.buf ≡ List.reverse cs
  pub ends : get_elem? l.buf n ≡ some 0
  pub size : length l.buf ≡ len
  pub echo : shown [] l.output ≡ 10 ∷ cs

abbrev pub Answers : ℕ → Option (ℕ × Line) → Option (List ℕ) → Type 0
Answers len (some (n, l)) (some cs) = Reads len cs n l
Answers len none none = Unit {0}
Answers len _ _ = ⊥

finish :
    (len : ℕ) (l : Line) (typed : List ℕ)
    → Tracks len l typed
    → Reads len typed l.pos
        (record l { buf = set l.buf l.pos 0; output = l.output ++ putchar 10 ∷ [] })
unfolding shown
finish len l typed t = record {
  count = t.at;
  in_bounds = omega (arith, t.at, t.fits);
  text = rw t.at (
      take_of_Holds (set l.buf (length typed) 0) typed
        (Holds-set l.buf typed (length typed) 0 (omega arith) t.holds));
  ends = get_elem?-set_self l.buf l.pos 0 (omega (arith, t.size, t.at, t.fits));
  size = length-set l.buf l.pos 0 ∙ t.size;
  echo = shown-append [] l.output (putchar 10 ∷ []) ∙ ap (λ s. 10 ∷ s) t.echo;
}

read_loop-Answers :
    (len : ℕ) (evs : List KeyEvent) (l : Line) (typed : List ℕ)
    → Tracks len l typed
    → Answers len (read_loop len l evs) (typed_line (len - 1) typed evs)
unfolding read_loop typed_line
read_loop-Answers len [] l typed t = tt
read_loop-Answers len (ev ∷ evs) l typed t = elim (Bool-cases (ev.type == key_event_down)) [
  | inl down ↦ elim (Bool-cases (ev.value == 10)) [
    | inl newline ↦ rw (down, newline) (finish len l typed t)
    | inr key ↦
        rw (down, key)
          (read_loop-Answers len evs (edit len ev.value l) (type_key (len - 1) ev.value typed)
            (edit-Tracks len ev.value l typed t))
  ]
  | inr other ↦ rw other (read_loop-Answers len evs l typed t)
]

-- In a buffer of `len` bytes, `len` above 0, `readline` returns exactly when the keys hold a
-- newline. It then answers the length of the line that the editor makes of the keys before it, cut
-- off at `len - 1` characters, with the line in the buffer, a NUL behind it, no byte written out
-- of bounds, and the line and a newline on the screen.
pub readline_lem :
    (len : ℕ) (buf : List ℕ) (evs : List KeyEvent)
    → length buf ≡ len
    → 0 < len
    → Answers len (readline buf len evs) (typed_line (len - 1) [] evs)
unfolding readline shown
readline_lem len buf evs size pos =
    let test : (len == 0) ≡ false = ground arith in
    let start : Line = record { buf = buf; pos = 0; output = [] } in
    rw test (
      read_loop-Answers len evs start []
        (record { size = size; at = refl; fits = pos; holds = tt; echo = refl }))
