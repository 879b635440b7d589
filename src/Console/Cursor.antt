-- ===== src/Console/Cursor.antt =====
-- The cursor stays on the screen.
use horizon_os.Prelude.{
  ℕ, ◌+◌, ◌≤◌, ◌<◌, ◌≡◌, arith, Bool, true, false, inl, inr, Bool-cases, ◌/◌, ◌*◌, List, [], ◌∷◌,
  leb, ◌==◌,
}
use native.Mathlib.Nat.{div-eq-sub-div}
use horizon_os.Graphics.{gfx_set_target}
use horizon_os.Graphics.Font.{FontStyle}
use horizon_os.Console.{
  cell_width, Console, console_init, newline, scroll_up, tab, clear_cell, put_glyph, put,
  console_putchar, console_puts, console_backspace,
}

-- The screen holds a cell, the cursor's row is one of the screen's, and its column is at most one
-- past the last.
pub record OnScreen (c : Console) : Type 0 where
  pub cols : 0 < c.max_cols
  pub rows : 0 < c.max_rows
  pub col : c.cursor_col ≤ c.max_cols
  pub row : c.cursor_row < c.max_rows

div_pos : (a b : ℕ) → 0 < b → b ≤ a → 0 < a / b
div_pos a b h k = omega (arith, div-eq-sub-div h k)

-- A column past the screen is mended by the line break.
newline-OnScreen : (c : Console) → 0 < c.max_cols → c.cursor_row < c.max_rows → OnScreen (newline c)
unfolding newline scroll_up
newline-OnScreen c some_cols low = elim (Bool-cases (leb c.max_rows (c.cursor_row + 1))) [
  | inl e ↦ rw e (record {
    cols = some_cols;
    rows = omega (arith, low);
    col = omega arith;
    row = omega (arith, low);
  })
  | inr e ↦ rw e (record {
    cols = some_cols;
    rows = omega (arith, low);
    col = omega arith;
    row = ground (arith, e);
  })
]

newline-col : (c : Console) → (newline c).cursor_col ≡ 0
unfolding newline scroll_up
newline-col c = ground arith

tab-OnScreen : (c : Console) → OnScreen c → OnScreen (tab c)
unfolding tab
tab-OnScreen c on = elim (Bool-cases (leb c.max_cols ((c.cursor_col + 4) / 4 * 4))) [
  | inl e ↦
      rw e (newline-OnScreen (record c { cursor_col = (c.cursor_col + 4) / 4 * 4 }) on.cols on.row)
  | inr e ↦ rw e (record { cols = on.cols; rows = on.rows; col = ground (arith, e); row = on.row })
]

put_glyph-OnScreen :
    (ch : ℕ) (c : Console) → OnScreen c → c.cursor_col < c.max_cols → OnScreen (put_glyph ch c)
unfolding put_glyph clear_cell
put_glyph-OnScreen ch c on h = record {
  cols = on.cols;
  rows = on.rows;
  col = omega (arith, h);
  row = on.row;
}

put-OnScreen : (ch : ℕ) (c : Console) → OnScreen c → OnScreen (put ch c)
unfolding put
put-OnScreen ch c on = elim (Bool-cases (ch == b'\n')) [
  | inl e ↦ rw e (newline-OnScreen c on.cols on.row)
  | inr e ↦ elim (Bool-cases (ch == b'\t')) [
    | inl f ↦ rw (e, f) (tab-OnScreen c on)
    | inr f ↦ elim (Bool-cases (leb c.max_cols c.cursor_col)) [
      | inl g ↦
          let broken = newline-OnScreen c on.cols on.row in
          rw (e, f, g)
            (put_glyph-OnScreen ch (newline c) broken (omega (arith, newline-col c, broken.cols)))
      | inr g ↦ rw (e, f, g) (put_glyph-OnScreen ch c on (ground (arith, g)))
    ]
  ]
]

-- The interrupt flag aside.
with_interrupts : (b : Bool) (c : Console) → OnScreen c → OnScreen (record c { interrupts = b })
with_interrupts b c on = record { cols = on.cols; rows = on.rows; col = on.col; row = on.row }

pub console_putchar-OnScreen : (ch : ℕ) (c : Console) → OnScreen c → OnScreen (console_putchar ch c)
unfolding console_putchar
console_putchar-OnScreen ch c on =
    let c₁ = put ch (record c { interrupts = false }) in
    let on₁ : OnScreen c₁ =
      put-OnScreen ch (record c { interrupts = false }) (with_interrupts false c on) in
    elim (Bool-cases c.interrupts) [ inl e ↦ rw e (with_interrupts true c₁ on₁) | inr e ↦ rw e on₁ ]

pub console_puts-OnScreen :
    (chs : List ℕ) (c : Console) → OnScreen c → OnScreen (console_puts chs c)
unfolding console_puts
console_puts-OnScreen [] c on = on
console_puts-OnScreen (ch ∷ chs) c on =
    console_puts-OnScreen chs (console_putchar ch c) (console_putchar-OnScreen ch c on)

pub console_backspace-OnScreen : (c : Console) → OnScreen c → OnScreen (console_backspace c)
unfolding console_backspace clear_cell
console_backspace-OnScreen c on = elim (Bool-cases (c.cursor_col == 0)) [
  | inl e ↦ elim (Bool-cases (c.cursor_row == 0)) [
    | inl f ↦ rw (e, f) on
    | inr f ↦
        rw (e, f)
          (record {
            cols = on.cols;
            rows = on.rows;
            col = omega arith;
            row = omega (arith, on.row);
          })
  ]
  | inr e ↦
      rw e (record { cols = on.cols; rows = on.rows; col = omega (arith, on.col); row = on.row })
]

-- After `console_init` with a font whose cell has a size and fits on the frame buffer, the cursor is
-- on the screen.
pub console_init-OnScreen :
    (font : FontStyle) (c : Console)
    → 0 < cell_width font
    → cell_width font ≤ c.gfx.fb.width
    → 0 < font.glyph_height
    → font.glyph_height ≤ c.gfx.fb.height
    → OnScreen (console_init font c)
unfolding console_init gfx_set_target
console_init-OnScreen font c w fits_w h fits_h = record {
  cols = div_pos _ _ w fits_w;
  rows = div_pos _ _ h fits_h;
  col = omega arith;
  row = div_pos _ _ h fits_h;
}
