-- ===== src/Terminal/Tests.antt =====
-- The terminal, with its cursor in the last row.
use horizon_os.Prelude.{ℕ, ◌-◌, ◌^◌, ◌<◌, ◌≤◌, ◌≡◌, some, List, [], ◌∷◌, length, arith}
use horizon_os.Console.Digits.{number}
use horizon_os.Terminal.{Terminal, terminal_scrolln, terminal_write}
use horizon_os.Terminal.Scroll.{scrolls, terminal_scrolln-scrolls}
use horizon_os.Terminal.Page.{Shows, page_write}
use horizon_os.Terminal.Shown.{page_of, terminal_write_refines}
use horizon_os.Terminal.Decimal.{AllDecimal, terminal_write_dec, terminal_write_dec_lem}

abbrev terminal : Terminal
terminal = record { row = 24; column = 78; color = 7; buffer = λ i. i; sent = []; halts = 0 }

-- `ab`, a newline, and a backspace at the start of the row.
abbrev text : List ℕ
text = b'a' ∷ b'b' ∷ 10 ∷ 8 ∷ b'c' ∷ []

terminal_write_refines_example :
    Shows terminal (page_write 7 text (page_of terminal)) (terminal_write text terminal)
terminal_write_refines_example = terminal_write_refines text terminal (omega arith) (omega arith)

terminal_scrolln-scrolls_example : terminal_scrolln 30 terminal ≡ scrolls 30 terminal
terminal_scrolln-scrolls_example = terminal_scrolln-scrolls 30 terminal

terminal_write_dec_lem_example :
    (text : List ℕ) × (terminal_write_dec (2 ^ 32 - 1) terminal
      ≡ some (terminal_write text terminal))
    × AllDecimal text
    × (number 10 0 text ≡ 4294967295)
    × (0 < length text)
    × (length text ≤ 10)
terminal_write_dec_lem_example = terminal_write_dec_lem (2 ^ 32 - 1) terminal (omega arith)
