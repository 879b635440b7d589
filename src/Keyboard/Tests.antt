-- ===== src/Keyboard/Tests.antt =====
-- The keyboard driver on small inputs.
use horizon_os.Interrupts.{InterruptContext, ran, register_interrupt_handler, isr_handler}
use horizon_os.Interrupts.Ioapic.{plain_controller, ioapic_read, configure_ioapic_irq}
use horizon_os.Keyboard.Ps2k.{Ps2k, ps2k_irq_handler}
use horizon_os.Keyboard.Ps2k.Same.{
  as_keyboard, presses_shift, without_shift_event, typed_chars,
  ps2k_irq_handler-keyboard_interrupt_handler,
}
use horizon_os.Keyboard.Ps2k.Resources.{
  ForEach, Resource, irq, fixed_io, flexible_io, unhandled, end_tag, goes_on, breaks, Ps2kResources,
  probe_resources, ps2k_handle_resource, store_port,
}
use horizon_os.Keyboard.Ps2k.Attach.{
  Setup, init_ps2k_driver, ps2k_create_device, ps2k_create_device-isr_handler,
}
use horizon_os.Prelude.{
  ℕ, ◌+◌, ◌*◌, ◌/◌, ◌%◌, ◌^◌, ◌≡◌, refl, true, false, none, some, List, [], ◌∷◌, ◌++◌, arith, ◌==◌,
  if◌then◌else◌, get_elem?, replicate,
}
use horizon_os.Keyboard.Queue.{KeyEvent, Level, fresh_level, remove}
use horizon_os.Keyboard.Queue.Ring.{IsValid, contents}
use horizon_os.Keyboard.Queue.Refine.{Call, put, get, run, spec_run, run_refines}
use horizon_os.Keyboard.Queue.Listeners.{get_elem?-remove_self}
use horizon_os.Keyboard.Handler.{Keyboard, keyboard_interrupt_handler}
use horizon_os.Keyboard.Handler.Events.{handler-contents, event_of, handed}
use horizon_os.Keyboard.Line.{readline}
use horizon_os.Keyboard.Line.Edit.{Answers, typed_line, readline_lem}
use horizon_os.Keyboard.Controller.{
  Device, done, disable_ports, configure, write_config, self_test, port_test, reset_device,
  enable_scanning, expect, on_answer, send, wait_for_kbd_input, wait_for_kbd_output, inb, outb,
  init_ps2_controller, status_port,
}
use horizon_os.Keyboard.Controller.Sequence.{
  Command, config_commands, opening, closing, init_sequence,
}

abbrev key : ℕ → KeyEvent
key c = record { type = 1; scan_code = 0; value = c; timestamp = 0 }

fresh-IsValid : IsValid fresh_level
fresh-IsValid = record { storage = refl; head_in = omega arith; tail_in = omega arith }

abbrev calls : List Call
calls = put (key 97) ∷ put (key 98) ∷ get ∷ get ∷ get ∷ []

run_refines_example : run fresh_level calls ≡ spec_run [] calls
run_refines_example = run_refines calls fresh-IsValid

-- The first level is in use, the second is not.
abbrev two_levels : List Level
two_levels = record fresh_level { used = true } ∷ fresh_level ∷ []

abbrev both_used : List Level
both_used = record fresh_level { used = true } ∷ record fresh_level { used = true } ∷ []

get_elem?-remove_self_example : get_elem? (remove 0 two_levels) 0 ≡ some fresh_level
get_elem?-remove_self_example = get_elem?-remove_self 0 two_levels refl

abbrev keyboard : Keyboard
keyboard = record {
  key_state = λ i. false;
  extended_prefix = false;
  shift_pressed = false;
  levels = two_levels;
  eois = 0;
}

handler-contents_example :
    (q' : Level) × (get_elem? (keyboard_interrupt_handler 5 0x1e keyboard).levels 0 ≡ some q')
    × IsValid q'
    × (q'.used ≡ true)
    × (contents q' ≡ handed (event_of keyboard 5 0x1e) (record fresh_level { used = true }))
handler-contents_example =
    handler-contents 5 0x1e keyboard 0 (omega arith) refl
      (record { storage = refl; head_in = omega arith; tail_in = omega arith })

-- "a", a backspace, "b", and a newline, in a buffer of four bytes.
abbrev typed : List KeyEvent
typed = key 97 ∷ key 8 ∷ key 98 ∷ key 10 ∷ []

readline_lem_example : Answers 4 (readline (replicate 4 0) 4 typed) (typed_line 3 [] typed)
readline_lem_example = readline_lem 4 (replicate 4 0) typed refl (omega arith)

-- A controller with a keyboard that passes its tests. `Hw` holds the bytes that it has to give.
abbrev answers : ℕ → List ℕ → List ℕ
answers v bytes =
    if v == 0x20
    then 0x10 ∷ []
    else if v == 0xaa
    then 0x55 ∷ []
    else if v == 0xab
    then 0 ∷ []
    else if v == 0xff
    then 0xfa ∷ 0xaa ∷ []
    else if v == 0xf4
    then 0xfa ∷ []
    else bytes

abbrev give : List ℕ → ℕ × List ℕ
give [] = (0, [])
give (v ∷ bytes) = (v, bytes)

abbrev working : Device
working = record {
  Hw = List ℕ;
  read = λ port bytes. if port == status_port then (1, bytes) else give bytes;
  write = λ port v bytes. answers v bytes;
}

abbrev commands : List Command
commands =
    (0x64, 0xad)
    ∷ (0x64, 0xa7)
    ∷ (0x64, 0x20)
    ∷ (0x64, 0x60)
    ∷ (0x60, 0x51)
    ∷ (0x64, 0xaa)
    ∷ (0x64, 0xab)
    ∷ (0x64, 0xae)
    ∷ (0x60, 0xff)
    ∷ (0x60, 0xf4)
    ∷ []

set_up :
    init_ps2_controller working (record { hw = []; writes = [] })
    ≡ done (record { hw = []; writes = commands })
unfolding init_ps2_controller disable_ports configure write_config self_test port_test reset_device
    enable_scanning expect on_answer send wait_for_kbd_input wait_for_kbd_output inb outb
set_up = refl

init_sequence_example :
    commands
    ≡ [] ++ ((opening ++ config_commands working (record { hw = []; writes = [] })) ++ closing)
init_sequence_example =
    init_sequence working (record { hw = []; writes = [] }) (record { hw = []; writes = commands })
      set_up

-- The handler of x86_64 with a key, and the resources of a controller at the usual ports.
abbrev ps2k : Ps2k
ps2k = record {
  key_pressed = λ i. false;
  shift_pressed = true;
  e0_prefix = false;
  levels = two_levels;
  sent = [];
  eois = 0;
}

ps2k_irq_handler-keyboard_interrupt_handler_example :
    let k' = ps2k_irq_handler 5 0x1e ps2k in
    (as_keyboard k'
      ≡ without_shift_event
          (presses_shift ps2k 0x1e)
          two_levels
          (keyboard_interrupt_handler 5 0x1e (as_keyboard ps2k)))
    × (k'.sent ≡ [] ++ typed_chars 5 0x1e ps2k)
ps2k_irq_handler-keyboard_interrupt_handler_example =
    ps2k_irq_handler-keyboard_interrupt_handler 5 0x1e ps2k (omega arith)

-- The loop over the resources of a device.
each : ForEach
each [] f res = res
each (r ∷ rs) f res =
    let (res', decision) = f res r in
    let rest = each rs f res' in elim decision [ goes_on ↦ rest | breaks ↦ res' ]

abbrev current : List Resource
current = irq 1 ∷ fixed_io 0x60 ∷ unhandled ∷ flexible_io 0x64 ∷ []

abbrev found : Ps2kResources
found = record { gsi = 1; port_data = 0x60; port_cmd = 0x64 }

resources_found :
    probe_resources each
      (current ++ end_tag ∷ irq 7 ∷ [])
      (record { gsi = 0; port_data = 0; port_cmd = 0 })
    ≡ found
unfolding probe_resources ps2k_handle_resource store_port each
resources_found = refl

abbrev before : Setup plain_controller working ℕ
before = record {
  handlers = λ i. none;
  ioapic = (0, λ j. 0x10000);
  io = record { hw = []; writes = [] };
}

abbrev count_up : InterruptContext → ℕ → ℕ
count_up regs w = w + 1

abbrev after : Setup plain_controller working ℕ
after = record {
  handlers = register_interrupt_handler 33 count_up (λ i. none);
  ioapic = configure_ioapic_irq plain_controller 1 33 2 (0, λ j. 0x10000);
  io = record { hw = []; writes = commands };
}

created : ps2k_create_device plain_controller working count_up 2 found before ≡ some after
unfolding ps2k_create_device init_ps2k_driver init_ps2_controller disable_ports configure
    write_config self_test port_test reset_device enable_scanning expect on_answer send
    wait_for_kbd_input wait_for_kbd_output inb outb
created = refl

ps2k_create_device-isr_handler_example :
    let low = ioapic_read plain_controller (0x10 + 1 * 2) after.ioapic in
    let high = ioapic_read plain_controller (0x10 + 1 * 2 + 1) after.ioapic in
    (low / 2 ^ 16 ≡ 0)
    × (high / 2 ^ 24 ≡ 2)
    × (33 ≡ low % 256
        → isr_handler after.handlers 0 (record { int_no = 33; err_code = 0; rip = 0 }) 5 ≡ ran 6)
ps2k_create_device-isr_handler_example =
    ps2k_create_device-isr_handler plain_controller working count_up 2 found before after 0
      (record { int_no = 33; err_code = 0; rip = 0 }) 5 (omega arith) (omega arith) created
