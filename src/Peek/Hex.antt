-- ===== src/Peek/Hex.antt =====
-- `parse_hex` of arch/i386/drivers/shell/builtins/peek.c reads what the console writes for `%lx`.
use horizon_os.Prelude.{List}
use horizon_os.Console.{Console}
