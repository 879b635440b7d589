-- ===== src/Keyboard/Ps2k/Attach.antt =====
-- `ps2k_create_device` of arch/x86_64/drivers/ps2k.c: the handler in the table of interrupts, the
-- set-up of the controller, and the entry of the I/O interrupt controller.
use horizon_os.Prelude.{
  ℕ, ◌+◌, ◌*◌, ◌/◌, ◌%◌, ◌^◌, ◌<◌, ◌≡◌, ◌∙◌, ap, Option, none, some, arith, ◌==◌, if◌then◌else◌,
}
use horizon_os.Keyboard.Controller.{Device, Io, Stage, done, halted, data_port, init_ps2_controller}
use horizon_os.Keyboard.Ps2k.Resources.{Ps2kResources}
use horizon_os.Interrupts.{InterruptContext, Handlers, ran, register_interrupt_handler, isr_handler}
use horizon_os.Interrupts.Ioapic.{Controller, ioapic_read, configure_ioapic_irq}
use horizon_os.Interrupts.Ioapic.Entry.{configure_ioapic_irq_with_flags_lem}

-- The device behind the ports of the resources, by the names that the sequence has for them.
abbrev pub behind : Ps2kResources → Device → Device
behind res D = record {
  Hw = D.Hw;
  read = λ port. D.read (if port == data_port then res.port_data else res.port_cmd);
  write = λ port. D.write (if port == data_port then res.port_data else res.port_cmd);
}

-- A panic is `halted`.
unfoldable pub init_ps2k_driver : (D : Device) → Ps2kResources → Io D.Hw → Stage D.Hw
init_ps2k_driver D res io = init_ps2_controller (behind res D) io

-- What the set-up works on.
pub record Setup (C : Controller) (D : Device) (World : Type 0) : Type 0 where
  pub handlers : Handlers World
  pub ioapic : C.Hw
  pub io : Io D.Hw

isr_handler-some :
    {World : Type 0} (handlers : Handlers World) (handler : InterruptContext → World → World)
    (cr2 : ℕ) (regs : InterruptContext) (w : World)
    → handlers regs.int_no ≡ some handler
    → isr_handler handlers cr2 regs w ≡ ran (handler regs w)
unfolding isr_handler
isr_handler-some handlers handler cr2 regs w e = rw (e, isr_handler)

-- A handler is found under its vector.
at_vector :
    {World : Type 0} (n i : ℕ) (handler : InterruptContext → World → World)
    (handlers : Handlers World)
    → i ≡ n % 2 ^ 8
    → register_interrupt_handler n handler handlers i ≡ some handler
unfolding register_interrupt_handler
at_vector n i handler handlers e = ground (arith, e)

module _ (C : Controller) (D : Device) {World : Type 0} where
  -- What follows the set-up of the controller. `none` is the panic of the driver.
  unfoldable pub route :
      (InterruptContext → World → World)
      → ℕ
      → Ps2kResources
      → Setup C D World
      → Stage D.Hw
      → Option (Setup C D World)
  route handler local_apic_id res m (halted io) = none
  route handler local_apic_id res m (done io) = some (record {
    handlers = m.handlers;
    ioapic = configure_ioapic_irq C res.gsi ((32 + res.gsi) % 2 ^ 8) local_apic_id m.ioapic;
    io = io;
  })

  unfoldable pub ps2k_create_device :
      (InterruptContext → World → World)
      → ℕ
      → Ps2kResources
      → Setup C D World
      → Option (Setup C D World)
  unfolding route
  ps2k_create_device handler local_apic_id res m =
      let vector = (32 + res.gsi) % 2 ^ 8 in
      let registered = record m {
        handlers = register_interrupt_handler vector handler m.handlers;
      } in
      route handler local_apic_id res registered (init_ps2k_driver D res m.io)

  route-some :
      (handler : InterruptContext → World → World) (local_apic_id : ℕ) (res : Ps2kResources)
      (m m' : Setup C D World) (stage : Stage D.Hw)
      → route handler local_apic_id res m stage ≡ some m'
      → (m'.handlers ≡ m.handlers)
        × (m'.ioapic
            ≡ configure_ioapic_irq C res.gsi ((32 + res.gsi) % 2 ^ 8) local_apic_id m.ioapic)
  unfolding route
  route-some handler local_apic_id res m m' (halted io) e = absurd (cc e)
  route-some handler local_apic_id res m m' (done io) e = (cc e, cc e)

  -- Where the device is set up on one of the first 120 pins: the pin is not masked and leads to this
  -- processor, and an interrupt with the vector that stands in the pin's entry runs the driver's
  -- handler, and nothing else.
  pub ps2k_create_device-isr_handler :
      (handler : InterruptContext → World → World) (local_apic_id : ℕ) (res : Ps2kResources)
      (m m' : Setup C D World) (cr2 : ℕ) (regs : InterruptContext) (w : World)
      → res.gsi < 120
      → local_apic_id < 256
      → ps2k_create_device handler local_apic_id res m ≡ some m'
      → let low = ioapic_read C (0x10 + res.gsi * 2) m'.ioapic in
        let high = ioapic_read C (0x10 + res.gsi * 2 + 1) m'.ioapic in
        (low / 2 ^ 16 ≡ 0)
        × (high / 2 ^ 24 ≡ local_apic_id)
        × (regs.int_no ≡ low % 256 → isr_handler m'.handlers cr2 regs w ≡ ran (handler regs w))
  unfolding ps2k_create_device configure_ioapic_irq
  ps2k_create_device-isr_handler handler local_apic_id res m m' cr2 regs w hg hl e =
      let vector = (32 + res.gsi) % 2 ^ 8 in
      let registered : Setup C D World = record m {
        handlers = register_interrupt_handler vector handler m.handlers;
      } in
      let (same_handlers, same_ioapic) =
        route-some handler local_apic_id res registered m' (init_ps2k_driver D res m.io) e in
      let entry =
        configure_ioapic_irq_with_flags_lem C res.gsi vector local_apic_id 0 m.ioapic hg
          (omega arith) hl (omega arith) in
      rw same_ioapic (
        entry.0.4,
        entry.1.0,
        λ hit.
            let line : regs.int_no ≡ vector % 2 ^ 8 = hit ∙ entry.0.0 ∙ omega arith in
            isr_handler-some m'.handlers handler cr2 regs w (
              ap (λ f. f regs.int_no) same_handlers
              ∙ at_vector vector regs.int_no handler m.handlers line),
      )
