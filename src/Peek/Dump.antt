-- ===== src/Peek/Dump.antt =====
-- What the dump of arch/i386/drivers/shell/builtins/peek.c shows on the console, whose formats know no
-- width.
use horizon_os.Console.{Console}
