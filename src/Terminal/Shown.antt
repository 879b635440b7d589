-- ===== src/Terminal/Shown.antt =====
-- What writing in arch/i386/drivers/tty.c shows.
use horizon_os.Prelude.{
  ℕ, ◌+◌, ◌-◌, ◌%◌, ◌^◌, ◌<◌, ◌≡◌, refl, subst, true, false, List, [], ◌∷◌, arith, ltb, leb, ◌==◌,
  if◌then◌else◌, Bool-cases, inl, inr,
}
use horizon_os.Terminal.{
  Terminal, blank_entry, erase_back, line_feed, step_right, terminal_putchar, terminal_write,
}
use horizon_os.Terminal.Page.{
  Page, Shows, next_row, page_putchar, page_write, update_hardware_cursor-Shows, putentryat-Shows,
  move-Shows, down-Shows, scroll-Shows,
}

step_right-Shows :
    (s t : Terminal) (p : Page)
    → Shows s p t
    → Shows s
        (if ltb p.column 79 then record p { column = p.column + 1 } else next_row p)
        (step_right t)
step_right-Shows s t p w =
    let column : (t.column + 1) % 2 ^ 32 ≡ t.column + 1 = omega (arith, w.column_fits) in
    let row : (t.row + 1) % 2 ^ 32 ≡ t.row + 1 = omega (arith, w.row_fits) in
    elim (Bool-cases (leb 80 (t.column + 1))) [
      | inl end ↦
          let last : ltb p.column 79 ≡ false = ground (arith, end, w.same_column) in
          elim (Bool-cases (leb 25 (t.row + 1))) [
            | inl full ↦
                rw (last, column, row, end, full) (scroll-Shows s t p w (ground (arith, full)))
            | inr room ↦
                rw (last, column, row, end, room) (down-Shows s t p w (ground (arith, room)))
          ]
      | inr within ↦
          let more : ltb p.column 79 ≡ true = ground (arith, within, w.same_column) in
          rw (more, column, within)
            (move-Shows (p.column + 1) (t.column + 1) s t p (omega (arith, w.same_column))
              (ground (arith, within)) w)
    ]

line_feed-Shows : (s t : Terminal) (p : Page) → Shows s p t → Shows s (next_row p) (line_feed t)
line_feed-Shows s t p w = elim (Bool-cases (leb 24 t.row)) [
  | inl last ↦
      rw last (update_hardware_cursor-Shows s _ _ (scroll-Shows s t p w (ground (arith, last))))
  | inr more ↦
      rw more (update_hardware_cursor-Shows s _ _ (down-Shows s t p w (ground (arith, more))))
]

erase_back-Shows :
    (s t : Terminal) (p : Page) → Shows s p t → Shows s (page_putchar t.color 8 p) (erase_back t)
erase_back-Shows s t p w = elim (Bool-cases (ltb 0 t.column)) [
  | inl back ↦
      let more : ltb 0 p.column ≡ true = ground (arith, back, w.same_column) in
      rw (more, back)
        (update_hardware_cursor-Shows s _ _ (
          putentryat-Shows b' ' s _ _ (
            move-Shows (p.column - 1) (t.column - 1) s t p (omega (arith, w.same_column))
              (omega (arith, w.column_fits)) w)))
  | inr start ↦
      let none : ltb 0 p.column ≡ false = ground (arith, start, w.same_column) in rw (none, start) w
]

putchar-Shows :
    (c : ℕ) (s t : Terminal) (p : Page)
    → Shows s p t
    → Shows s (page_putchar t.color c p) (terminal_putchar c t)
unfolding terminal_putchar
putchar-Shows c s t p w = elim (Bool-cases (c == 8)) [
  | inl back ↦ rw back (erase_back-Shows s t p w)
  | inr other ↦ elim (Bool-cases (c == b'\n')) [
    | inl line ↦ rw (other, line) (line_feed-Shows s t p w)
    | inr shown ↦
        rw (other, shown)
          (update_hardware_cursor-Shows s _ _ (step_right-Shows s _ _ (putentryat-Shows c s t p w)))
  ]
]

write-Shows :
    (text : List ℕ) (s t : Terminal) (p : Page)
    → Shows s p t
    → Shows s (page_write s.color text p) (terminal_write text t)
unfolding terminal_write
write-Shows [] s t p w = w
write-Shows (c ∷ text) s t p w =
    write-Shows text s (terminal_putchar c t) (page_putchar s.color c p) (
      subst (λ color. Shows s (page_putchar color c p) (terminal_putchar c t)) w.same_color
        (putchar-Shows c s t p w))

-- The page whose first 25 rows are the screen, and the rest blank.
abbrev pub page_of : Terminal → Page
page_of t = record {
  row = t.row;
  column = t.column;
  cell = λ k. if ltb k 2000 then t.buffer k else blank_entry t.color;
}

-- Where the cursor is on the screen: whatever is written, backspaces, newlines and text past the end
-- of a row or of the screen included, the screen shows what the same text leaves on a page that never
-- scrolls, the rows up to the cursor's, which stays on the screen; and no word outside the screen has
-- changed, nor has the terminal halted.
pub terminal_write_refines :
    (text : List ℕ) (t : Terminal)
    → t.row < 25
    → t.column < 80
    → Shows t (page_write t.color text (page_of t)) (terminal_write text t)
terminal_write_refines text t h k = write-Shows text t t (page_of t) (record {
  row_fits = h;
  column_fits = k;
  same_row = omega (arith, h);
  same_column = refl;
  screen = λ i l. ground (arith, l, h);
  below = λ i l. ground (arith, l);
  outside = λ i l. refl;
  same_color = refl;
  same_halts = refl;
})
