-- ===== src/Log.antt =====
-- kernel/log.c: kernel messages by level, on the console and the serial line.
pub mod Shown
mod Tests
use horizon_os.Prelude.{
  ℕ, ◌+◌, ◌<◌, Bool, true, false, Option, none, some, List, [], ◌∷◌, ltb, if◌then◌else◌,
}
use horizon_os.Graphics.{rgb}
use horizon_os.Console.{Console, console_puts, console_set_fg, console_set_bg}
use horizon_os.Console.Format.{Arg, console_vprintf, ◌>>=◌}
use horizon_os.Serial.{serial_write, serial_vprintf}

pub data LogLevel : Type 0 where
  raw debug info okay warn error fatal : LogLevel

-- The value of the enumerator.
unfoldable pub level_value : LogLevel → ℕ
level_value raw = 0
level_value debug = 1
level_value info = 2
level_value okay = 3
level_value warn = 4
level_value error = 5
level_value fatal = 6

-- The state that a message changes: what is shown, and what was sent.
pub record Log : Type 0 where
  pub log_level : LogLevel
  pub console : Console
  pub sent : List ℕ

unfoldable pub set_log_level : LogLevel → Log → Log
set_log_level level log = record log { log_level = level }

abbrev pub debug_fg : ℕ
debug_fg = 8900346

abbrev pub info_fg : ℕ
info_fg = 13421772

abbrev pub error_fg : ℕ
error_fg = 16711680

abbrev pub fatal_fg : ℕ
fatal_fg = 16777215

abbrev pub ok_fg : ℕ
ok_fg = 52224

abbrev pub fatal_bg : ℕ
fatal_bg = 13369344

-- The tag of a level. The case of warnings falls through to that of fatal errors.
unfoldable pub tag : LogLevel → List ℕ
tag raw = []
tag debug = b'[' ∷ b'D' ∷ b'B' ∷ b'U' ∷ b'G' ∷ b']' ∷ b':' ∷ []
tag info = b'[' ∷ b'I' ∷ b'N' ∷ b'F' ∷ b'O' ∷ b']' ∷ b':' ∷ []
tag okay = b'[' ∷ b' ' ∷ b'O' ∷ b'K' ∷ b' ' ∷ b']' ∷ b':' ∷ []
tag error = b'[' ∷ b'E' ∷ b'R' ∷ b'R' ∷ b'O' ∷ b'R' ∷ b']' ∷ b':' ∷ []
tag warn = b'[' ∷ b'F' ∷ b'A' ∷ b'T' ∷ b'A' ∷ b'L' ∷ b']' ∷ b':' ∷ []
tag fatal = b'[' ∷ b'F' ∷ b'A' ∷ b'T' ∷ b'A' ∷ b'L' ∷ b']' ∷ b':' ∷ []

-- The colours that the switch sets.
unfoldable pub colours : LogLevel → Console → Console
unfolding console_set_fg console_set_bg
colours raw c = console_set_fg info_fg c
colours debug c = console_set_fg debug_fg c
colours info c = console_set_fg info_fg c
colours okay c = console_set_fg ok_fg c
colours error c = console_set_fg error_fg c
colours warn c = console_set_bg fatal_bg (console_set_fg fatal_fg (console_set_fg 16776960 c))
colours fatal c = console_set_bg fatal_bg (console_set_fg fatal_fg c)

-- `none` where the format or the arguments make the code undefined.
unfoldable pub printk : LogLevel → List ℕ → List Arg → Log → Option Log
unfolding colours
printk level fmt args log =
    if ltb (level_value level) (level_value log.log_level) then some log else (do
      shown ← console_vprintf fmt args (console_puts (tag level) (colours level log.console))
      out ← serial_vprintf fmt args (serial_write (tag level) log.sent)
      some (record log { console = console_set_bg 0 (console_set_fg info_fg shown); sent = out }))
