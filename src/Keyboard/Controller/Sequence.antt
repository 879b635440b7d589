-- ===== src/Keyboard/Controller/Sequence.antt =====
-- Which commands the set-up of the PS/2 controller sends, whatever the device answers.
use Prim.Native.Nat.{bit_and, bit_or}
use mathlib.Core.List.{append_assoc, append-nil}
use horizon_os.Prelude.{
  ℕ, zero, suc, ◌≡◌, refl, ap, sym, subst, ◌∙◌, inl, inr, List, [], ◌∷◌, ◌++◌, ◌==◌, if◌then◌else◌,
  Bool-cases,
}
use horizon_os.Keyboard.Controller.{
  data_port, status_port, Device, Io, Stage, done, halted, ◌>>=◌, timeout, inb, outb,
  wait_for_kbd_input, wait_for_kbd_output, send, on_answer, disable_ports, write_config, configure,
  expect, self_test, port_test, reset_device, enable_scanning, init_ps2_controller,
}

abbrev pub Command : Type 0
Command = ℕ × ℕ

abbrev pub opening : List Command
opening = (status_port, 0xad) ∷ (status_port, 0xa7) ∷ (status_port, 0x20) ∷ []

abbrev pub closing : List Command
closing =
    (status_port, 0xaa)
    ∷ (status_port, 0xab)
    ∷ (status_port, 0xae)
    ∷ (data_port, 0xff)
    ∷ (data_port, 0xf4)
    ∷ []

module _ (D : Device) where
  open D use {Hw, read, write}

  input_writes : (left : ℕ) (io : Io Hw) → (wait_for_kbd_input D left io).writes ≡ io.writes
  unfolding wait_for_kbd_input inb
  input_writes zero io = refl
  input_writes (suc left) io = elim (Bool-cases (bit_and (read status_port io.hw).0 0x02 == 0)) [
    | inl e ↦ rw (e, wait_for_kbd_input)
    | inr e ↦
        rw (e, wait_for_kbd_input)
          (input_writes left (record io { hw = (read status_port io.hw).1 }))
  ]

  output_writes : (left : ℕ) (io : Io Hw) → (wait_for_kbd_output D left io).1.writes ≡ io.writes
  unfolding wait_for_kbd_output inb
  output_writes zero io = refl
  output_writes (suc left) io = elim (Bool-cases (bit_and (read status_port io.hw).0 0x01 == 0)) [
    | inl e ↦
        rw (e, wait_for_kbd_output)
          (output_writes left (record io { hw = (read status_port io.hw).1 }))
    | inr e ↦ rw (e, wait_for_kbd_output)
  ]

  send_writes : (port v : ℕ) (io : Io Hw) → (send D port v io).writes ≡ io.writes ++ (port, v) ∷ []
  unfolding send outb
  send_writes port v io = ap (λ ws. ws ++ (port, v) ∷ []) (input_writes timeout io)

  -- The controller when it has been asked for its configuration byte: both ports are off, and what
  -- the keyboard had sent is read away.
  abbrev pub asked_config : Io Hw → Io Hw
  asked_config io =
      let off = send D status_port 0xa7 (send D status_port 0xad io) in
      send D status_port 0x20 (inb D data_port off).1

  -- The write of the byte that the controller then gives, with its interrupt and its translation bit
  -- set; it is left out where the controller gives none in time.
  abbrev pub config_commands : Io Hw → List Command
  config_commands io =
      let (given, io') = wait_for_kbd_output D timeout (asked_config io) in
      let v = (inb D data_port io').0 in
      if given then (status_port, 0x60) ∷ (data_port, bit_or (bit_or v 0x01) 0x40) ∷ [] else []

  -- What holds of the writes of a stage that goes on.
  abbrev pub Post : (List Command → Type 0) → Stage Hw → Type 0
  Post P (done io) = P io.writes
  Post P (halted io) = Unit {0}

  bind :
      (P Q : List Command → Type 0) (s : Stage Hw) (f : Io Hw → Stage Hw)
      → Post P s
      → ((io : Io Hw) → P io.writes → Post Q (f io))
      → Post Q (s >>= f)
  bind P Q (done io) f p next = next io p
  bind P Q (halted io) f p next = tt

  weaken :
      (P Q : List Command → Type 0) (s : Stage Hw)
      → ((ws : List Command) → P ws → Q ws)
      → Post P s
      → Post Q s
  weaken P Q (done io) f p = f io.writes p
  weaken P Q (halted io) f p = tt

  answer_writes :
      (io : Io Hw) → (inb D data_port (wait_for_kbd_output D timeout io).1).1.writes ≡ io.writes
  unfolding inb
  answer_writes io = output_writes timeout io

  -- A stage that waits for a byte goes on by itself, or as the handler of the byte does.
  on_answer_cases :
      (f : ℕ → Io Hw → Stage Hw) (io : Io Hw) (P : List Command → Type 0)
      → P io.writes
      → ((v : ℕ) (io' : Io Hw) → io'.writes ≡ io.writes → Post P (f v io'))
      → Post P (on_answer D f io)
  unfolding on_answer
  on_answer_cases f io P late at = elim (Bool-cases (wait_for_kbd_output D timeout io).0) [
    | inl full ↦ rw full (at _ _ (answer_writes io))
    | inr empty ↦ rw empty (subst P (sym (output_writes timeout io)) late)
  ]

  expect_keeps :
      (want v : ℕ) (io io' : Io Hw) (P : List Command → Type 0)
      → io'.writes ≡ io.writes
      → P io.writes
      → Post P (expect D want v io')
  unfolding expect
  expect_keeps want v io io' P e p = elim (Bool-cases (v == want)) [
    | inl right ↦ rw right (subst P (sym e) p)
    | inr wrong ↦ rw wrong tt
  ]

  module _ (before : List Command) where
    -- The commands of a run so far.
    abbrev pub Sent : List Command → List Command → Type 0
    Sent cs ws = ws ≡ before ++ cs

    sent :
        (port v : ℕ) (cs : List Command) (io : Io Hw)
        → Sent cs io.writes
        → Sent (cs ++ (port, v) ∷ []) (send D port v io).writes
    sent port v cs io e = rw (send_writes port v io, e) (append_assoc before cs ((port, v) ∷ []))

    expect_stage :
        (want port v : ℕ) (cs : List Command) (io : Io Hw)
        → Sent cs io.writes
        → Post (Sent (cs ++ (port, v) ∷ [])) (on_answer D (expect D want) (send D port v io))
    expect_stage want port v cs io e =
        let now = sent port v cs io e in
        on_answer_cases (expect D want) (send D port v io) _ now
          (λ w io' same. expect_keeps want w (send D port v io) io' _ same now)

    reset_stage :
        (cs : List Command) (io : Io Hw)
        → Sent cs io.writes
        → Post
            (Sent ((cs ++ (status_port, 0xae) ∷ []) ++ (data_port, 0xff) ∷ []))
            (reset_device D io)
    unfolding reset_device
    reset_stage cs io e =
        let enabled = sent status_port 0xae cs io e in
        let asked = send D data_port 0xff (send D status_port 0xae io) in
        let now = sent data_port 0xff _ (send D status_port 0xae io) enabled in
        on_answer_cases _ asked _ now λ ack io' same. elim (Bool-cases (ack == 0xfa)) [
          | inl yes_ack ↦ rw yes_ack (
              on_answer_cases (expect D 0xaa) io' _ (subst (Sent _) (sym same) now) λ w io'' same'.
                expect_keeps 0xaa w io' io'' _ same' (subst (Sent _) (sym same) now))
          | inr no_ack ↦ rw no_ack tt
        ]

    port_stage :
        (cs : List Command) (io : Io Hw)
        → Sent cs io.writes
        → Post (Sent (cs ++ (status_port, 0xab) ∷ [])) (port_test D io)
    unfolding port_test
    port_stage cs io e =
        let now = sent status_port 0xab cs io e in
        on_answer_cases _ (send D status_port 0xab io) _ now
          (λ w io' same. subst (Sent _) (sym same) now)

    asked_writes : (io : Io Hw) → io.writes ≡ before → Sent opening (asked_config io).writes
    unfolding inb
    asked_writes io e =
        let first = send D status_port 0xad io in
        let second = send D status_port 0xa7 first in
        let now = sent status_port 0xad [] io (e ∙ sym (append-nil before)) in
        sent status_port 0x20 _ (inb D data_port second).1 (sent status_port 0xa7 _ first now)

    configure_stage :
        (io : Io Hw)
        → io.writes ≡ before
        → Post (Sent (opening ++ config_commands io)) (disable_ports D io >>= configure D)
    unfolding disable_ports configure write_config on_answer
    configure_stage io e =
        let now = asked_writes io e in
        let (given, io') = wait_for_kbd_output D timeout (asked_config io) in
        let v = (inb D data_port io').0 in
        elim (Bool-cases (wait_for_kbd_output D timeout (asked_config io)).0) [
          | inl full ↦
              let here : Sent opening (inb D data_port io').1.writes =
                answer_writes (asked_config io) ∙ now in
              let first = sent status_port 0x60 opening (inb D data_port io').1 here in
              rw full (
                sent data_port (bit_or (bit_or v 0x01) 0x40) _
                  (send D status_port 0x60 (inb D data_port io').1) first)
          | inr empty ↦ rw empty (
              output_writes timeout (asked_config io)
              ∙ now
              ∙ ap (λ l. before ++ l) (sym (append-nil opening)))
        ]

    -- The commands after the configuration `cfg` are `xs` so far.
    abbrev After : List Command → List Command → List Command → Type 0
    After cfg xs ws = Sent ((opening ++ cfg) ++ xs) ws

    lift :
        (f : Io Hw → Stage Hw) (cfg xs ys : List Command)
        → ((cs : List Command) (io : Io Hw) → Sent cs io.writes → Post (Sent (cs ++ ys)) (f io))
        → (io : Io Hw) → After cfg xs io.writes
        → Post (After cfg (xs ++ ys)) (f io)
    lift f cfg xs ys stage io e =
        weaken _ (After cfg (xs ++ ys)) (f io)
          (λ ws w. w ∙ ap (λ l. before ++ l) (append_assoc (opening ++ cfg) xs ys))
          (stage ((opening ++ cfg) ++ xs) io e)

    both_resets :
        (cs : List Command) (io : Io Hw)
        → Sent cs io.writes
        → Post (Sent (cs ++ (status_port, 0xae) ∷ (data_port, 0xff) ∷ [])) (reset_device D io)
    both_resets cs io e =
        weaken _ _ (reset_device D io)
          (λ ws w. w ∙ ap (λ l. before ++ l) (append_assoc cs ((status_port, 0xae) ∷ []) _))
          (reset_stage cs io e)

    complete_run :
        (io : Io Hw)
        → io.writes ≡ before
        → Post (After (config_commands io) closing) (init_ps2_controller D io)
    unfolding init_ps2_controller self_test enable_scanning
    complete_run io e =
        let cfg = config_commands io in
        let p₁ : List Command = (status_port, 0xaa) ∷ [] in
        let p₂ : List Command = p₁ ++ (status_port, 0xab) ∷ [] in
        let p₃ : List Command = p₂ ++ (status_port, 0xae) ∷ (data_port, 0xff) ∷ [] in
        let start : (ws : List Command) → Sent (opening ++ cfg) ws → After cfg [] ws =
          λ ws w. w ∙ ap (λ l. before ++ l) (sym (append-nil (opening ++ cfg))) in
        let tested =
          bind (Sent (opening ++ cfg)) (After cfg p₁) _ (self_test D) (configure_stage io e)
            (λ io' w.
              lift _ cfg [] p₁ (expect_stage 0x55 status_port 0xaa) io' (start io'.writes w)) in
        let checked =
          bind (After cfg p₁) (After cfg p₂) _ (port_test D) tested
            (lift (port_test D) cfg p₁ ((status_port, 0xab) ∷ []) port_stage) in
        let reset =
          bind (After cfg p₂) (After cfg p₃) _ (reset_device D) checked
            (lift (reset_device D) cfg p₂ _ both_resets) in
        bind (After cfg p₃) (After cfg closing) _ (enable_scanning D) reset (
          lift (enable_scanning D) cfg p₃ ((data_port, 0xf4) ∷ [])
            (expect_stage 0xfa data_port 0xf4))

  -- A set-up of the controller that does not halt has sent, whatever the device answered, exactly
  -- these commands in this order: both ports off, the read of the configuration byte, the byte that
  -- the device gave for it, with its interrupt and its translation bit set, written back if it gave
  -- one in time and else not, the two tests, the port on, the reset of the keyboard and the start of
  -- its scanning.
  pub init_sequence :
      (io io' : Io Hw)
      → init_ps2_controller D io ≡ done io'
      → io'.writes ≡ io.writes ++ ((opening ++ config_commands io) ++ closing)
  init_sequence io io' e =
      subst (Post (After io.writes (config_commands io) closing)) e (complete_run io.writes io refl)
