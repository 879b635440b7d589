-- ===== src/Keyboard.antt =====
-- The PS/2 keyboard driver of drivers/keyboard/keyboard.c: its scan code tables, the event queues
-- of its listeners, the interrupt handler and the line editor.
pub mod Tables
pub mod Queue
pub mod Handler
pub mod Line
pub mod Controller
pub mod Ps2k
mod Tests
