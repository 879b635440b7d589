-- ===== src/Terminal/Scroll.antt =====
-- What scrolling in arch/i386/drivers/tty.c leaves in the buffer.
use horizon_os.Prelude.{
  ℕ, zero, suc, ◌+◌, ◌-◌, ◌*◌, ◌<◌, ◌≤◌, ◌≡◌, ◌∙◌, refl, ap, sym, fun_ext, false, ◌&&◌, arith, ltb,
  leb, ◌==◌, if◌then◌else◌, Bool-cases, inl, inr,
}
use horizon_os.Terminal.{
  Terminal, blank_entry, write_entry, loop, clear_row, clear_rows, move_row, move_rows,
  terminal_scroll, terminal_scrolln,
}

-- The loop over the cells that a row, or the whole screen, has.
pub clear_cells :
    (n start v k : ℕ) (b : ℕ → ℕ)
    → loop n (λ c. write_entry (start + c) v) b k
      ≡ (if leb start k && ltb k (start + n) then v else b k)
unfolding loop
clear_cells zero start v k b = ground arith
clear_cells (suc n) start v k b = rw (clear_cells n start v k b) (ground arith)

clear_row_lem :
    (color r k : ℕ) (b : ℕ → ℕ)
    → clear_row color r b k
      ≡ (if leb (r * 80) k && ltb k (r * 80 + 80) then blank_entry color else b k)
unfolding clear_row
clear_row_lem color r k b = clear_cells 80 (r * 80) (blank_entry color) k b

pub clear_rows_lem :
    (rows color from k : ℕ) (b : ℕ → ℕ)
    → clear_rows color from rows b k
      ≡ (if leb (from * 80) k && ltb k ((from + rows) * 80) then blank_entry color else b k)
unfolding clear_rows loop
clear_rows_lem zero color from k b = ground arith
clear_rows_lem (suc rows) color from k b =
    clear_row_lem color (from + rows) k (clear_rows color from rows b)
    ∙ rw (clear_rows_lem rows color from k b) (ground arith)

-- The inner loop of a moving loop: what it reads lies a row or more behind what it writes.
move_cells :
    (n to from k : ℕ) (b : ℕ → ℕ)
    → to + n ≤ from
    → loop n (λ c b. write_entry (to + c) (b (from + c)) b) b k
      ≡ (if leb to k && ltb k (to + n) then b (k + (from - to)) else b k)
unfolding loop
move_cells zero to from k b h = ground arith
move_cells (suc n) to from k b h =
    let read = move_cells n to from (from + n) b (omega (arith, h)) in
    rw (read, move_cells n to from k b (omega (arith, h)))
      (elim (Bool-cases (k == to + n)) [
        | inl last ↦
            let same : b (k + (from - to)) ≡ b (from + n) = ap b (ground arith) in ground arith
        | inr other ↦ ground arith
      ])

move_row_lem :
    (rows r k : ℕ) (b : ℕ → ℕ)
    → 0 < rows
    → move_row rows r b k
      ≡ (if leb (r * 80) k && ltb k (r * 80 + 80) then b (k + rows * 80) else b k)
unfolding move_row
move_row_lem rows r k b h =
    move_cells 80 (r * 80) ((r + rows) * 80) k b (omega (arith, h))
    ∙ ap (λ d. if leb (r * 80) k && ltb k (r * 80 + 80) then b (k + d) else b k) (omega arith)

pub move_rows_lem :
    (kept rows k : ℕ) (b : ℕ → ℕ)
    → 0 < rows
    → move_rows rows kept b k ≡ (if ltb k (kept * 80) then b (k + rows * 80) else b k)
unfolding move_rows loop
move_rows_lem zero rows k b h = ground arith
move_rows_lem (suc kept) rows k b h =
    let below = move_rows_lem kept rows (k + rows * 80) b h in
    let here = move_rows_lem kept rows k b h in
    move_row_lem rows kept k (move_rows rows kept b) h ∙ rw (below, here) (ground arith)

clear_all :
    (n v k : ℕ) (b : ℕ → ℕ) → loop n (λ i. write_entry i v) b k ≡ (if ltb k n then v else b k)
unfolding loop
clear_all zero v k b = ground arith
clear_all (suc n) v k b = rw (clear_all n v k b) (ground arith)

-- The rows of the screen below the first `rows`, and blank rows in their place.
abbrev scrolled : ℕ → Terminal → ℕ → ℕ
scrolled rows t k =
    if leb 2000 k
    then t.buffer k
    else if ltb (k + rows * 80) 2000
    then t.buffer (k + rows * 80)
    else blank_entry t.color

-- A scroll by some of the rows.
move_and_clear :
    (rows k : ℕ) (t : Terminal)
    → 0 < rows
    → rows < 25
    → clear_rows t.color (25 - rows) rows (move_rows rows (25 - rows) t.buffer) k
      ≡ scrolled rows t k
move_and_clear rows k t h few =
    clear_rows_lem rows t.color (25 - rows) k (move_rows rows (25 - rows) t.buffer)
    ∙ rw (move_rows_lem (25 - rows) rows k t.buffer h) (ground arith)

pub terminal_scroll_cells : (k : ℕ) (t : Terminal) → (terminal_scroll t).buffer k ≡ scrolled 1 t k
unfolding terminal_scroll
terminal_scroll_cells k t = move_and_clear 1 k t (omega arith) (omega arith)

terminal_scrolln_cells :
    (rows k : ℕ) (t : Terminal) → (terminal_scrolln rows t).buffer k ≡ scrolled rows t k
unfolding terminal_scrolln
terminal_scrolln_cells zero k t = ground arith
terminal_scrolln_cells (suc rows) k t =
    let moves : (suc rows == 0) ≡ false = ground arith in
    elim (Bool-cases (leb 25 (suc rows))) [
      | inl all ↦ rw (moves, all) (clear_all 2000 (blank_entry t.color) k t.buffer ∙ ground arith)
      | inr few ↦ rw (moves, few) (move_and_clear (suc rows) k t (omega arith) (ground arith))
    ]

abbrev pub scrolls : ℕ → Terminal → Terminal
scrolls zero t = t
scrolls (suc n) t = terminal_scroll (scrolls n t)

-- Scrolling changes nothing but the buffer.
with_buffer : Terminal → (ℕ → ℕ) → Terminal
with_buffer t b = record t { buffer = b }

scrolls-rest : (n : ℕ) (t : Terminal) → scrolls n t ≡ with_buffer t (scrolls n t).buffer
unfolding terminal_scroll with_buffer
scrolls-rest zero t = refl
scrolls-rest (suc n) t = ap (λ u. with_buffer u (scrolls (suc n) t).buffer) (scrolls-rest n t)

terminal_scrolln-rest :
    (rows : ℕ) (t : Terminal)
    → terminal_scrolln rows t ≡ with_buffer t (terminal_scrolln rows t).buffer
unfolding terminal_scrolln with_buffer
terminal_scrolln-rest rows t = elim (Bool-cases (rows == 0)) [
  | inl none ↦ rw none refl
  | inr moves ↦ elim (Bool-cases (leb 25 rows)) [
    | inl all ↦ rw (moves, all) refl
    | inr few ↦ rw (moves, few) refl
  ]
]

scrolls-color : (n : ℕ) (t : Terminal) → (scrolls n t).color ≡ t.color
unfolding with_buffer
scrolls-color n t = ap (λ u. u.color) (scrolls-rest n t)

scrolls-cells : (n k : ℕ) (t : Terminal) → (scrolls n t).buffer k ≡ scrolled n t k
scrolls-cells zero k t = ground arith
scrolls-cells (suc n) k t =
    terminal_scroll_cells k (scrolls n t)
    ∙ rw (scrolls-cells n k t, scrolls-cells n (k + 1 * 80) t, scrolls-color n t) (ground arith)

-- One scroll by `rows` rows, be they more than the screen has, leaves the whole terminal as `rows`
-- scrolls by one do, every word of the buffer included.
pub terminal_scrolln-scrolls : (rows : ℕ) (t : Terminal) → terminal_scrolln rows t ≡ scrolls rows t
terminal_scrolln-scrolls rows t =
    terminal_scrolln-rest rows t
    ∙ ap (with_buffer t)
        (fun_ext λ k. terminal_scrolln_cells rows k t ∙ sym (scrolls-cells rows k t))
    ∙ sym (scrolls-rest rows t)
