-- ===== src/Log/Shown.antt =====
-- What a message leaves behind.
use horizon_os.Prelude.{
  ℕ, ◌≡◌, refl, ap, sym, subst, ◌∙◌, inl, inr, false, Option, none, some, List, [], ◌++◌, ltb,
  if◌then◌else◌, Bool-cases,
}
use horizon_os.Console.{Console, console_puts, console_set_fg, console_set_bg}
use horizon_os.Console.Format.{Arg, console_vprintf, ◌>>=◌}
use horizon_os.Serial.{serial_write, serial_vprintf}
use horizon_os.Serial.Same.{console_vprintf-serial_vprintf, serial_write-append, puts-append}
use horizon_os.Console.Cursor.{OnScreen, console_puts-OnScreen}
use horizon_os.Log.{
  LogLevel, raw, debug, info, okay, warn, error, fatal, Log, level_value, info_fg, tag, colours,
  printk,
}

-- The text of a message: what the serial line is sent for it.
abbrev pub message : List ℕ → List Arg → Option (List ℕ)
message fmt args = serial_vprintf fmt args []

-- A message below the log's level changes nothing. At any other level, where `words` is the text of
-- the message and `out` what the serial line has been sent once the text follows the tag on it: the
-- console shows the tag and the text in the level's colours, the line has been sent `out`, and the
-- colours after the message are the default ones.
pub printk_lem :
    (level : LogLevel) (fmt : List ℕ) (args : List Arg) (words out : List ℕ) (log : Log)
    → message fmt args ≡ some words
    → serial_vprintf fmt args (log.sent ++ tag level) ≡ some out
    → let shown = console_puts (tag level ++ words) (colours level log.console) in
      printk level fmt args log
      ≡ some (
          if ltb (level_value level) (level_value log.log_level)
          then log
          else record log { console = console_set_bg 0 (console_set_fg info_fg shown); sent = out })
unfolding printk
printk_lem level fmt args words out log e o =
    elim (Bool-cases (ltb (level_value level) (level_value log.log_level))) [
      | inl low ↦ rw low refl
      | inr high ↦
          let c = console_puts (tag level) (colours level log.console) in
          let on_console : console_vprintf fmt args c ≡ some (console_puts words c) =
            console_vprintf-serial_vprintf fmt args c
            ∙ ap (λ o. o >>= λ out. some (console_puts out c)) e in
          rw
            (
              high,
              on_console,
              serial_write-append (tag level) log.sent,
              o,
              puts-append (tag level) words (colours level log.console),
            )
            refl
    ]

-- The colours aside.
coloured : (level : LogLevel) (c : Console) → OnScreen c → OnScreen (colours level c)
unfolding colours console_set_fg console_set_bg
coloured raw c on = record { cols = on.cols; rows = on.rows; col = on.col; row = on.row }
coloured debug c on = record { cols = on.cols; rows = on.rows; col = on.col; row = on.row }
coloured info c on = record { cols = on.cols; rows = on.rows; col = on.col; row = on.row }
coloured okay c on = record { cols = on.cols; rows = on.rows; col = on.col; row = on.row }
coloured error c on = record { cols = on.cols; rows = on.rows; col = on.col; row = on.row }
coloured warn c on = record { cols = on.cols; rows = on.rows; col = on.col; row = on.row }
coloured fatal c on = record { cols = on.cols; rows = on.rows; col = on.col; row = on.row }

Kept : Option Log → Type 0
Kept none = Unit
Kept (some log) = OnScreen log.console

-- The end of `printk`, once the console and the line have been given the text.
finish : Log → Option (List ℕ) → Option (List ℕ) → Console → Option Log
finish log text line c = do
  words ← text
  out ← line
  some (record log {
    console = console_set_bg 0 (console_set_fg info_fg (console_puts words c));
    sent = out;
  })

same_finish :
    (log : Log) (text line : Option (List ℕ)) (c : Console)
    → (text >>= (λ words. some (console_puts words c)) >>= λ shown. line >>= λ out.
        some (record log { console = console_set_bg 0 (console_set_fg info_fg shown); sent = out }))
      ≡ finish log text line c
unfolding finish
same_finish log none line c = refl
same_finish log (some words) line c = refl

finish-Kept :
    (log : Log) (text line : Option (List ℕ)) (c : Console)
    → OnScreen c
    → Kept (finish log text line c)
unfolding Kept finish console_set_fg console_set_bg
finish-Kept log none line c on = tt
finish-Kept log (some words) none c on = tt
finish-Kept log (some words) (some out) c on =
    let after : OnScreen (console_puts words c) = console_puts-OnScreen words c on in
    record { cols = after.cols; rows = after.rows; col = after.col; row = after.row }

printk-finish :
    (level : LogLevel) (fmt : List ℕ) (args : List Arg) (log : Log)
    → ltb (level_value level) (level_value log.log_level) ≡ false
    → printk level fmt args log
      ≡ finish log
          (message fmt args)
          (serial_vprintf fmt args (serial_write (tag level) log.sent))
          (console_puts (tag level) (colours level log.console))
unfolding printk
printk-finish level fmt args log high =
    let c = console_puts (tag level) (colours level log.console) in
    let line = serial_vprintf fmt args (serial_write (tag level) log.sent) in
    rw (high, console_vprintf-serial_vprintf fmt args c) (same_finish log (message fmt args) line c)

printk-Kept :
    (level : LogLevel) (fmt : List ℕ) (args : List Arg) (log : Log)
    → OnScreen log.console
    → Kept (printk level fmt args log)
unfolding printk Kept
printk-Kept level fmt args log on =
    elim (Bool-cases (ltb (level_value level) (level_value log.log_level))) [
      | inl low ↦ rw low on
      | inr high ↦
          let c = colours level log.console in
          let start = console_puts-OnScreen (tag level) c (coloured level log.console on) in
          subst Kept (sym (printk-finish level fmt args log high)) (finish-Kept log _ _ _ start)
    ]

-- Whatever a message holds, and however often it breaks lines or scrolls: where `printk` is defined,
-- a cursor that was on the screen (its row one of the screen's, its column at most one past the last)
-- is on the screen.
pub printk-OnScreen :
    (level : LogLevel) (fmt : List ℕ) (args : List Arg) (log log' : Log)
    → OnScreen log.console
    → printk level fmt args log ≡ some log'
    → OnScreen log'.console
unfolding Kept
printk-OnScreen level fmt args log log' on e = subst Kept e (printk-Kept level fmt args log on)
