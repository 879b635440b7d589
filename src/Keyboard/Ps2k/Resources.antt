-- ===== src/Keyboard/Ps2k/Resources.antt =====
-- The resources that ACPI gives for the keyboard, and its set-up, in arch/x86_64/drivers/ps2k.c.
-- The device behind the ports and the loop of the ACPI library over the resources of a device are
-- not of this repository.
use horizon_os.Prelude.{
  ℕ, ◌%◌, ◌^◌, ◌<◌, ◌≡◌, ◌∙◌, ap, inl, inr, Bool-cases, List, [], ◌∷◌, ◌++◌, arith, ◌==◌,
  if◌then◌else◌,
}

-- The kinds of `uacpi_resource` that the driver looks at, with the fields that it reads.
pub data Resource : Type 0 where
  fixed_io : ℕ → Resource
  flexible_io : ℕ → Resource
  irq : ℕ → Resource
  extended_irq : ℕ → Resource
  end_tag : Resource
  unhandled : Resource

pub record Ps2kResources : Type 0 where
  pub gsi : ℕ
  pub port_data : ℕ
  pub port_cmd : ℕ

pub data Decision : Type 0 where
  goes_on breaks : Decision

unfoldable pub store_port : ℕ → Ps2kResources → Ps2kResources
store_port address res =
    if res.port_data == 0
    then record res { port_data = address % 2 ^ 16 }
    else record res { port_cmd = address % 2 ^ 16 }

-- The fields are of 8 and 16 bits.
unfoldable pub ps2k_handle_resource : Ps2kResources → Resource → Ps2kResources × Decision
ps2k_handle_resource res (fixed_io address) = (store_port address res, goes_on)
ps2k_handle_resource res (flexible_io minimum) = (store_port minimum res, goes_on)
ps2k_handle_resource res (irq line) = (record res { gsi = line % 2 ^ 8 }, goes_on)
ps2k_handle_resource res (extended_irq line) = (record res { gsi = line % 2 ^ 8 }, goes_on)
ps2k_handle_resource res end_tag = (res, breaks)
ps2k_handle_resource res unhandled = (res, goes_on)

-- What the library does with the callback: each resource in order, until it says to break.
abbrev pub ForEach : Type 0
ForEach =
    List Resource
    → (Ps2kResources → Resource → Ps2kResources × Decision)
    → Ps2kResources
    → Ps2kResources

-- The part of `ps2k_probe` that fills the ports.
unfoldable pub probe_resources : ForEach → List Resource → Ps2kResources → Ps2kResources
probe_resources for_each resources res = for_each resources ps2k_handle_resource res

-- The library's loop, as its documentation has it.
pub record Iterates (for_each : ForEach) : Type 0 where
  pub at_nil :
      (f : Ps2kResources → Resource → Ps2kResources × Decision) (res : Ps2kResources)
      → for_each [] f res ≡ res
  pub at_cons :
      (f : Ps2kResources → Resource → Ps2kResources × Decision) (res : Ps2kResources) (r : Resource)
      (rs : List Resource)
      → for_each (r ∷ rs) f res ≡ (
          let (res', decision) = f res r in
          elim decision [ goes_on ↦ for_each rs f res' | breaks ↦ res' ])

-- What a list of resources says: its port addresses in order, and its last interrupt line.
abbrev pub ports : List Resource → List ℕ
ports [] = []
ports (fixed_io a ∷ rs) = a ∷ ports rs
ports (flexible_io a ∷ rs) = a ∷ ports rs
ports (irq n ∷ rs) = ports rs
ports (extended_irq n ∷ rs) = ports rs
ports (end_tag ∷ rs) = ports rs
ports (unhandled ∷ rs) = ports rs

abbrev pub last_line : ℕ → List Resource → ℕ
last_line g [] = g
last_line g (fixed_io a ∷ rs) = last_line g rs
last_line g (flexible_io a ∷ rs) = last_line g rs
last_line g (irq n ∷ rs) = last_line (n % 2 ^ 8) rs
last_line g (extended_irq n ∷ rs) = last_line (n % 2 ^ 8) rs
last_line g (end_tag ∷ rs) = last_line g rs
last_line g (unhandled ∷ rs) = last_line g rs

abbrev pub NoEnd : List Resource → Type 0
NoEnd [] = Unit
NoEnd (fixed_io a ∷ rs) = NoEnd rs
NoEnd (flexible_io a ∷ rs) = NoEnd rs
NoEnd (irq n ∷ rs) = NoEnd rs
NoEnd (extended_irq n ∷ rs) = NoEnd rs
NoEnd (end_tag ∷ rs) = ⊥
NoEnd (unhandled ∷ rs) = NoEnd rs

-- Each address goes where the driver puts it.
store_ports : List ℕ → Ps2kResources → Ps2kResources
store_ports [] res = res
store_ports (p ∷ ps) res = store_ports ps (store_port p res)

store_port-gsi :
    (a : ℕ) (rs : List Resource) (res : Ps2kResources)
    → record (store_port a res) { gsi = last_line (store_port a res).gsi rs }
      ≡ store_port a (record res { gsi = last_line res.gsi rs })
unfolding store_port
store_port-gsi a rs res = elim (Bool-cases (res.port_data == 0)) [
  | inl first ↦ rw first
  | inr second ↦ rw second
]

module _ (for_each : ForEach) (loop : Iterates for_each) where
  probe_steps :
      (rs rest : List Resource) (res : Ps2kResources)
      → NoEnd rs
      → probe_resources for_each (rs ++ end_tag ∷ rest) res
        ≡ store_ports (ports rs) (record res { gsi = last_line res.gsi rs })
  unfolding probe_resources ps2k_handle_resource store_ports
  probe_steps [] rest res h = loop.at_cons _ res end_tag rest
  probe_steps (fixed_io a ∷ rs) rest res h =
      loop.at_cons _ res _ _
      ∙ probe_steps rs rest (store_port a res) h
      ∙ ap (store_ports (ports rs)) (store_port-gsi a rs res)
  probe_steps (flexible_io a ∷ rs) rest res h =
      loop.at_cons _ res _ _
      ∙ probe_steps rs rest (store_port a res) h
      ∙ ap (store_ports (ports rs)) (store_port-gsi a rs res)
  probe_steps (irq n ∷ rs) rest res h = loop.at_cons _ res _ _ ∙ probe_steps rs rest _ h
  probe_steps (extended_irq n ∷ rs) rest res h = loop.at_cons _ res _ _ ∙ probe_steps rs rest _ h
  probe_steps (end_tag ∷ rs) rest res h = absurd h
  probe_steps (unhandled ∷ rs) rest res h = loop.at_cons _ res _ _ ∙ probe_steps rs rest res h

  -- Where the resources before the end tag name two port addresses and any interrupt lines, in any
  -- order and among others: the driver has the first address for data, the second for commands, and
  -- the last line. The first address is not 0, and both have 16 bits.
  pub probe_resources_lem :
      (rs rest : List Resource) (d c : ℕ)
      → NoEnd rs
      → ports rs ≡ d ∷ c ∷ []
      → 0 < d
      → d < 2 ^ 16
      → c < 2 ^ 16
      → probe_resources for_each
          (rs ++ end_tag ∷ rest)
          (record { gsi = 0; port_data = 0; port_cmd = 0 })
        ≡ record { gsi = last_line 0 rs; port_data = d; port_cmd = c }
  unfolding store_ports store_port
  probe_resources_lem rs rest d c h e some_port hd hc =
      probe_steps rs rest _ h ∙ rw e (ground arith)
