-- ===== src/Terminal/Page.antt =====
-- The terminal of arch/i386/drivers/tty.c as a window on a page that never scrolls.
use horizon_os.Prelude.{
  ℕ, ◌+◌, ◌-◌, ◌*◌, ◌<◌, ◌≤◌, ◌≡◌, ◌∙◌, refl, ap, sym, ◌||◌, true, false, List, [], ◌∷◌, arith, ltb,
  leb, ◌==◌, if◌then◌else◌, Bool-cases, inl, inr,
}
use horizon_os.Terminal.{
  Terminal, vga_entry, blank_entry, write_entry, update_hardware_cursor, terminal_putentryat,
  terminal_scroll,
}
use horizon_os.Terminal.Scroll.{terminal_scroll_cells}

-- A page of 80 columns and of as many rows as a text needs.
pub record Page : Type 0 where
  pub row : ℕ
  pub column : ℕ
  pub cell : ℕ → ℕ

abbrev pub next_row : Page → Page
next_row p = record p { row = p.row + 1; column = 0 }

abbrev pub page_putchar : ℕ → ℕ → Page → Page
page_putchar color c p =
    if c == 8
    then (if ltb 0 p.column
        then record p {
          column = p.column - 1;
          cell = write_entry (p.row * 80 + (p.column - 1)) (blank_entry color) p.cell;
        }
        else p)
    else if c == b'\n'
    then next_row p
    else let shown : Page = record p {
      cell = write_entry (p.row * 80 + p.column) (vga_entry c color) p.cell;
    } in
      if ltb p.column 79 then record shown { column = p.column + 1 } else next_row shown

abbrev pub page_write : ℕ → List ℕ → Page → Page
page_write color [] p = p
page_write color (c ∷ text) p = page_write color text (page_putchar color c p)

-- The terminal shows the 25 rows of the page up to the cursor's, or the first 25, below them the page
-- is blank; and of `start` the terminal still has its colour, its halts and all words outside the
-- screen.
pub record Shows (start : Terminal) (p : Page) (t : Terminal) : Type 0 where
  pub row_fits : t.row < 25
  pub column_fits : t.column < 80
  pub same_row : p.row ≡ t.row + (p.row - 24)
  pub same_column : p.column ≡ t.column
  pub screen : (k : ℕ) → k < 2000 → t.buffer k ≡ p.cell (k + (p.row - 24) * 80)
  pub below : (k : ℕ) → (p.row - 24 + 25) * 80 ≤ k → p.cell k ≡ blank_entry t.color
  pub outside : (k : ℕ) → 2000 ≤ k → t.buffer k ≡ start.buffer k
  pub same_color : t.color ≡ start.color
  pub same_halts : t.halts ≡ start.halts

le→leb : (a b : ℕ) → a ≤ b → leb a b ≡ true
le→leb a b h = ground arith

pub update_hardware_cursor-Shows :
    (s t : Terminal) (p : Page) → Shows s p t → Shows s p (update_hardware_cursor t)
unfolding update_hardware_cursor
update_hardware_cursor-Shows s t p w = record {
  row_fits = w.row_fits;
  column_fits = w.column_fits;
  same_row = w.same_row;
  same_column = w.same_column;
  screen = w.screen;
  below = w.below;
  outside = w.outside;
  same_color = w.same_color;
  same_halts = w.same_halts;
}

-- The cell under the cursor.
pub putentryat-Shows :
    (c : ℕ) (s t : Terminal) (p : Page)
    → Shows s p t
    → Shows s
        (record p { cell = write_entry (p.row * 80 + p.column) (vga_entry c t.color) p.cell })
        (terminal_putentryat c t.color t.column t.row t)
unfolding terminal_putentryat
putentryat-Shows c s t p w =
    let fits : (leb 80 t.column || leb 25 t.row) ≡ false =
      ground (arith, w.row_fits, w.column_fits) in
    rw fits (record {
      row_fits = w.row_fits;
      column_fits = w.column_fits;
      same_row = w.same_row;
      same_column = w.same_column;
      screen = λ k l.
          rw (w.screen k l)
            (ground (arith, l, w.same_row, w.same_column, w.row_fits, w.column_fits));
      below = λ k l.
          rw (w.below k l)
            (ground (arith, l, w.same_row, w.same_column, w.row_fits, w.column_fits));
      outside = λ k l.
          rw (w.outside k l)
            (ground (arith, l, w.same_row, w.same_column, w.row_fits, w.column_fits));
      same_color = w.same_color;
      same_halts = w.same_halts;
    })

pub move-Shows :
    (to column : ℕ) (s t : Terminal) (p : Page)
    → to ≡ column
    → column < 80
    → Shows s p t
    → Shows s (record p { column = to }) (record t { column = column })
move-Shows to column s t p e h w = record {
  row_fits = w.row_fits;
  column_fits = h;
  same_row = w.same_row;
  same_column = e;
  screen = w.screen;
  below = w.below;
  outside = w.outside;
  same_color = w.same_color;
  same_halts = w.same_halts;
}

-- The next row, with no scrolling and with it.
pub down-Shows :
    (s t : Terminal) (p : Page)
    → Shows s p t
    → t.row < 24
    → Shows s (next_row p) (record t { row = t.row + 1; column = 0 })
down-Shows s t p w h =
    let top : p.row + 1 - 24 ≡ p.row - 24 = omega (arith, h, w.same_row) in
    record {
      row_fits = omega (arith, h);
      column_fits = omega arith;
      same_row = omega (arith, h, w.same_row);
      same_column = refl;
      screen = λ k l. rw top (w.screen k l);
      below = λ k l. w.below k (omega (arith, l, top));
      outside = w.outside;
      same_color = w.same_color;
      same_halts = w.same_halts;
    }

pub scroll-Shows :
    (s t : Terminal) (p : Page)
    → Shows s p t
    → 24 ≤ t.row
    → Shows s (next_row p) (record (terminal_scroll t) { row = 24; column = 0 })
unfolding terminal_scroll
scroll-Shows s t p w h =
    let top : p.row + 1 - 24 ≡ p.row - 24 + 1 = omega (arith, h, w.same_row, w.row_fits) in
    record {
      row_fits = omega arith;
      column_fits = omega arith;
      same_row = omega (arith, h, w.same_row, w.row_fits);
      same_column = refl;
      screen = λ k l.
          terminal_scroll_cells k t
          ∙ (let on : leb 2000 k ≡ false = ground (arith, l) in
              elim (Bool-cases (ltb (k + 1 * 80) 2000)) [
                | inl kept ↦
                    rw (on, kept)
                      (w.screen (k + 1 * 80) (ground (arith, kept))
                        ∙ ap p.cell (omega (arith, top)))
                | inr cleared ↦
                    rw (on, cleared)
                      (sym (w.below (k + (p.row + 1 - 24) * 80) (ground (arith, cleared, top))))
              ]);
      below = λ k l. w.below k (omega (arith, l, top));
      outside = λ k l. terminal_scroll_cells k t ∙ rw (le→leb 2000 k l) (w.outside k l);
      same_color = w.same_color;
      same_halts = w.same_halts;
    }
