-- ===== src/Keyboard/Tables.antt =====
-- The constants of drivers/keyboard/keyboard.h and the two scan code tables of
-- drivers/keyboard/keyboard.c. A `char` is its byte.
use horizon_os.Prelude.{ℕ, List, [], ◌∷◌}

abbrev pub escape : ℕ
escape = 27

abbrev pub backspace : ℕ
backspace = 8

abbrev pub tab : ℕ
tab = 9

abbrev pub enter : ℕ
enter = 10

abbrev pub left_ctrl : ℕ
left_ctrl = 1

abbrev pub left_shift : ℕ
left_shift = 2

abbrev pub right_shift : ℕ
right_shift = 3

abbrev pub left_alt : ℕ
left_alt = 4

abbrev pub scancode_to_ascii : List ℕ
scancode_to_ascii =
    0 ∷ escape ∷ b'1' ∷ b'2' ∷ b'3' ∷ b'4' ∷ b'5' ∷ b'6' ∷ b'7' ∷ b'8' ∷ b'9' ∷ b'0' ∷ b'-' ∷ b'='
    ∷ backspace ∷ tab ∷ b'q' ∷ b'w' ∷ b'e' ∷ b'r' ∷ b't' ∷ b'y' ∷ b'u' ∷ b'i' ∷ b'o' ∷ b'p' ∷ b'['
    ∷ b']' ∷ enter ∷ left_ctrl ∷ b'a' ∷ b's' ∷ b'd' ∷ b'f' ∷ b'g' ∷ b'h' ∷ b'j' ∷ b'k' ∷ b'l' ∷ b';'
    ∷ 39 ∷ b'`' ∷ left_shift ∷ 92 ∷ b'z' ∷ b'x' ∷ b'c' ∷ b'v' ∷ b'b' ∷ b'n' ∷ b'm' ∷ b',' ∷ b'.'
    ∷ b'/' ∷ right_shift ∷ b'*' ∷ left_alt ∷ b' ' ∷ []

abbrev pub scancode_to_ascii_uppercase : List ℕ
scancode_to_ascii_uppercase =
    0 ∷ escape ∷ b'!' ∷ b'@' ∷ b'#' ∷ b'$' ∷ b'%' ∷ b'^' ∷ b'&' ∷ b'*' ∷ b'(' ∷ b')' ∷ b'_' ∷ b'+'
    ∷ backspace ∷ tab ∷ b'Q' ∷ b'W' ∷ b'E' ∷ b'R' ∷ b'T' ∷ b'Y' ∷ b'U' ∷ b'I' ∷ b'O' ∷ b'P' ∷ b'{'
    ∷ b'}' ∷ enter ∷ left_ctrl ∷ b'A' ∷ b'S' ∷ b'D' ∷ b'F' ∷ b'G' ∷ b'H' ∷ b'J' ∷ b'K' ∷ b'L' ∷ b':'
    ∷ 34 ∷ b'~' ∷ left_shift ∷ b'|' ∷ b'Z' ∷ b'X' ∷ b'C' ∷ b'V' ∷ b'B' ∷ b'N' ∷ b'M' ∷ b'<' ∷ b'>'
    ∷ b'?' ∷ right_shift ∷ b'*' ∷ left_alt ∷ b' ' ∷ []
