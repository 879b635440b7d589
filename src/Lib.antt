-- ===== src/Lib.antt =====
-- The program is a hobby kernel for x86. Its drivers put input into queues, its C library moves
-- bytes and text, its scheduler runs processes out of a table, and its heap gives out memory that
-- is never freed.
--
-- Keyboard.antt and the files below it are about drivers/keyboard/keyboard.c (the i386 build).
-- Keyboard/Tables holds the two scan code tables, Keyboard/Queue the rings of keyboard_push and
-- keyboard_poll and the listeners, Keyboard/Handler the interrupt handler, Keyboard/Line the
-- function readline, Keyboard/Controller the set-up of the PS/2 controller. The device behind the
-- ports is a parameter, and every wait for it has the 100000 tries of the source.
--
-- Keyboard/Ps2k.antt is about the driver of x86_64, arch/x86_64/drivers/ps2k.c: its handler
-- (compared with that of i386 in Keyboard/Ps2k/Same), the ports and the line out of the ACPI
-- resources (Keyboard/Ps2k/Resources, where the loop of the ACPI library is a parameter), and its
-- set-up (Keyboard/Ps2k/Attach). Its sequence for the controller is that of i386 behind other
-- ports.
--
-- Interrupts.antt is about arch/x86_64/interrupts/isr.c, Interrupts/Gates and Interrupts/Idt about
-- descriptor_tables.c beside it, and Interrupts/Ioapic and Interrupts/Apic about
-- kernel/apic/apic.c. The I/O interrupt controller is a parameter with the laws of its register
-- window.
--
-- Kheap.antt is about mm/kheap.c. An address is a number below 2^64 and sums wrap.
--
-- Cstring.antt is about libc/string/string.c. Memory is a function from addresses to bytes. strlen
-- has fuel, and the theorem on it says how much is enough; strcmp has the source's own bound of
-- 1000.
--
-- Sched.antt and the files below it are about kernel/scheduler/, with ctx_switch of
-- arch/x86_64/switch.c and the timer handler of kernel/time.c. Sched/Lists is the interface of the
-- list heads of libc/include/dsa/list.h, a copy of the Linux lists, with their documented behaviour
-- as laws; Sched/Example has an instance. Sched/Kernel is the state, Sched/Mlfq the run queues and
-- the scheduler's loop cut at its context switches, Sched/Table the process table and fork,
-- Sched/Steps the step relation that puts them together. The processor is one, so a lock that is
-- held is never let go. Interrupts in the scheduler's own loop are not modelled, and of the flags
-- across a context switch only what the code saves and restores. What the process table uses of the
-- machine, unmap_page and the frame that the assembly of fork pushes on the running stack, is the
-- parameter Machine of Sched/Table. Sched/Clone is about clone_stack_rebased; the walk over the
-- frame pointers has as much fuel as the copied stack has bytes, which is enough where frame
-- pointers go up (Sched/Clone/Chain). Memory is words there, and memcpy goes up over them. The name
-- of a process has at most 31 bytes: the code leaves it to the callers that it fits its array.
-- Sched/Steps/Turns has the rounds of the scheduler as a function of how the processes hand the cpu
-- back, which Sched/Steps/Fair reasons about.
--
-- Paging.antt is about arch/x86_64/memory/paging.c and mm/mm.c: Paging/Split on the splitting of
-- huge pages, Paging/Walk on the walk down the tables, Paging/Mapping on mapping and unmapping.
-- What the processor is told to flush is kept in a list.
--
-- Graphics.antt is about drivers/graphics.c (Graphics/Shape has what filling keeps) and
-- Graphics/Font about kernel/fonts/font.c: the pixels of a rectangle (Graphics/Fill) and of a
-- character (Graphics/Glyphs). Console.antt is about include/kernel/console.c, with Console/Format
-- on console_vprintf, and Serial.antt about drivers/serial.c (its port in Serial/Port); Serial/Same
-- compares the two formatters. Log.antt is about kernel/log.c, which uses both. A string is its
-- bytes before the NUL, the arguments of a format are a list, and a format or an argument that
-- makes the code undefined gives no result. The loops over the digits have fuel for 64, enough for
-- 64 bits in any base.
--
-- Printf.antt is about libc/stdio/printf.c; Printf/Text has the text that a format stands for, with
-- the digits of Printf/Numerals for its numbers, and Printf/Expand the same with what itoa and
-- itoa_hex write. The loop has fuel for one round for each character of the format and one more,
-- and a round takes at least one. Pci.antt is about drivers/pci.c, with what the bus answers as a
-- parameter.
--
-- Acpi.antt is about kernel/apic/madt.c, and Acpi/Rsdp and Acpi/Find about kernel/apic/rsdp.c, with
-- the page tables of Paging.antt. The loop over the records has fuel for as many as the table has
-- bytes, which is enough unless a record is empty. Acpi/Records has an encoder of tables, and
-- Acpi/Table what a parsed table says.
--
-- Shell.antt is about arch/i386/drivers/shell/hush.c: Shell/Words, Shell/Args and Shell/Line on the
-- parser of a line, Shell/Registry on the commands and their lookup with strncmp and strnlen of
-- Cstring.antt. A pointer into the command buffer is the rest of the buffer, a handler and the
-- messages of the shell are functions on a world that is a parameter.
--
-- Terminal.antt is about arch/i386/drivers/tty.c: Terminal/Scroll on scrolling, Terminal/Page and
-- Terminal/Shown on the page that the screen shows a part of, and Terminal/Decimal on
-- terminal_write_dec, whose fuel are the slots of its array. Frames.antt is about
-- arch/i386/memory/paging.c: Frames/First on the search of the bit map, Frames/Alloc, Frames/Freed
-- and Frames/Owned on the two operations, alone and in any sequence; Frames/Pages and Frames/Mapped
-- on the tables of two levels.
--
-- Audio.antt is about the stream of drivers/ac97.c: Audio/Chunks on the parts of a clip,
-- Audio/Stream and Audio/Finish on the ring of descriptors while it plays, and Audio/Ending on its
-- end. The loop that fills the ring has the slots of the ring as its fuel.
--
-- Clock.antt is about the waits of kernel/time.c, Clock/Sleep on their end; the fuel is a bound on
-- the reads of the count. Peek.antt is about the command of
-- arch/i386/drivers/shell/builtins/peek.c: Peek/Hex on the numbers it reads, Peek/Dump on what it
-- shows. The loop over the lines has the 32 lines of the largest length as its fuel.
--
-- Pong.antt is about kernel/games/pong.c, with rand_range of libc/rand.c, whose other functions are
-- in Rand.antt. The timer, the keys and the random numbers come from outside, and a game is a list
-- of turns, of any length. Pong/Draw is about the drawing of the scores, Pong/Screen about
-- pong_draw and Pong/Picture about the pixels that it leaves; the fuel of its loop is above the
-- height of the screen.
--
-- Not modelled: boot code, the set-up of the sound device, uACPI, the data structures of the C
-- library, the maze, the older copies of Pong and of the keyboard driver, and the rest of the older
-- i386 kernel. Prelude.antt has the shared names: Boolean tests, lists and signed integers over the
-- native numbers.
pub mod Prelude
pub mod Keyboard
pub mod Kheap
pub mod Cstring
pub mod Sched
pub mod Paging
pub mod Graphics
pub mod Console
pub mod Serial
pub mod Log
pub mod Acpi
pub mod Pong
pub mod Shell
pub mod Interrupts
pub mod Printf
pub mod Pci
pub mod Rand
pub mod Terminal
pub mod Frames
pub mod Audio
pub mod Clock
pub mod Peek
