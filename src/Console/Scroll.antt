-- ===== src/Console/Scroll.antt =====
-- What scrolling does to the picture.
use horizon_os.Prelude.{
  ℕ, zero, suc, ◌+◌, ◌-◌, ◌*◌, ◌%◌, ◌^◌, ◌≤◌, ◌<◌, ◌≡◌, ap, sym, ◌∙◌, arith, ltb, if◌then◌else◌,
  dec_lt,
}
use native.Mathlib.Nat.{mul-le-mul_right, mul_comm, add-mul}
use horizon_os.Graphics.{stored, stride}
use horizon_os.Graphics.Fill.{WellFormed, within, row_before}
use horizon_os.Console.{Console, copy_words, clear_words, scroll_up}

copy_words_lem :
    (row i left j : ℕ) (words : ℕ → ℕ)
    → copy_words row i left words j ≡ (if within i left j then words (j + row) else words j)
unfolding copy_words
copy_words_lem row i zero j words = ground arith
copy_words_lem row i (suc left) j words =
    ground (arith, copy_words_lem row (i + 1) left j (stored words i (words (i + row))))

clear_words_lem :
    (last color i left j : ℕ) (words : ℕ → ℕ)
    → clear_words last color i left words j ≡ (if within (last + i) left j then color else words j)
unfolding clear_words
clear_words_lem last color i zero j words = ground arith
clear_words_lem last color i (suc left) j words =
    ground (arith, clear_words_lem last color (i + 1) left j (stored words (last + i) color))

-- A word lies before a row if its own row does.
ltb_row : (s b y x : ℕ) → x < s → ltb (y * s + x) (b * s) ≡ ltb y b
ltb_row s b y x h = elim (dec_lt y b) [
  | yes before ↦ let less = row_before s y b x before h in ground (arith, before)
  | no past ↦
      let more : b * s ≤ y * s = mul-le-mul_right s (omega (arith, past)) in
      ground (arith, past, more)
]

-- The numbers of words that `scroll_up` computes, on 32 bits.
module _ (h cell s : ℕ) (low : h < 2 ^ 31) (fits : cell ≤ h) (room : h * s < 2 ^ 32) where
  row_words : cell * s % 2 ^ 32 ≡ cell * s
  row_words = omega (arith, mul-le-mul_right s fits)

  kept_words : s * ((h + 2 ^ 32 - cell) % 2 ^ 32) % 2 ^ 32 ≡ (h - cell) * s
  kept_words =
      let rows : (h + 2 ^ 32 - cell) % 2 ^ 32 ≡ h - cell = omega arith in
      let less : (h - cell) * s ≤ h * s = mul-le-mul_right s (omega arith) in
      rw (rows, mul_comm s (h - cell)) (omega (arith, less))

  rows_sum : (h - cell) * s + cell * s ≡ h * s
  rows_sum =
      let k = h - cell in
      let e : (k + cell) * s ≡ h * s = ap (λ n. n * s) (omega arith) in
      let split : (k + cell) * s ≡ k * s + cell * s = add-mul k cell s in sym split ∙ e

-- On a well-formed buffer as high as the console's screen, with a cell that fits: `scroll_up` moves the picture up by one
-- row of cells, fills the last row of cells with the background, and writes no other word of the
-- frame buffer.
pub scroll_up_lem :
    (c : Console) (y x : ℕ)
    → WellFormed c.gfx
    → c.screen_h ≡ c.gfx.fb.height
    → c.cell_h ≤ c.screen_h
    → c.gfx.fb.height * stride c.gfx < 2 ^ 32
    → x < stride c.gfx
    → let s = stride c.gfx in
      (scroll_up c).gfx.front (y * s + x) ≡ (
        if ltb y (c.screen_h - c.cell_h)
        then c.gfx.front ((y + c.cell_h) * s + x)
        else if ltb y c.screen_h
        then c.bg_color
        else c.gfx.front (y * s + x))
unfolding scroll_up
scroll_up_lem c y x wf tall fits room h =
    let s = stride c.gfx in
    let k = c.screen_h - c.cell_h in
    let low : c.screen_h < 2 ^ 31 = rw tall (wf.high) in
    let room' : c.screen_h * s < 2 ^ 32 = rw tall room in
    let total : k * s + c.cell_h * s ≡ c.screen_h * s =
      rows_sum c.screen_h c.cell_h s low fits room' in
    let moved : (y + c.cell_h) * s + x ≡ y * s + x + c.cell_h * s = omega arith in
    rw
      (
        row_words c.screen_h c.cell_h s low fits room',
        kept_words c.screen_h c.cell_h s low fits room',
        clear_words_lem (k * s) c.bg_color 0 (c.cell_h * s) (y * s + x),
        copy_words_lem (c.cell_h * s) 0 (k * s) (y * s + x) c.gfx.front,
        moved,
        ← ltb_row s k y x h,
        ← ltb_row s c.screen_h y x h,
      )
      (ground (arith, total))
