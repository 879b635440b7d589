-- ===== src/Pci.antt =====
-- drivers/pci.c: reads and writes of the configuration space, and the search for a device. What the
-- bus answers at an address is a parameter.
pub mod Search
mod Tests
use Prim.Native.Nat.{bit_and, bit_or}
use horizon_os.Prelude.{
  ℕ, zero, suc, ◌+◌, ◌*◌, ◌/◌, ◌%◌, ◌^◌, Bool, true, false, not, ◌&&◌, Option, none, some, List, [],
  ◌∷◌, ◌==◌, if◌then◌else◌,
}

-- `struct pci_address_t`.
pub record PciAddress : Type 0 where
  pub bus : ℕ
  pub device : ℕ
  pub function : ℕ
  pub valid : Bool

abbrev pub no_device : PciAddress
no_device = record { bus = 255; device = 255; function = 255; valid = false }

unfoldable pub config_addr : PciAddress → ℕ → ℕ
config_addr addr reg_offset =
    bit_or
      (bit_or (bit_or (bit_or (2 ^ 31) (addr.bus * 2 ^ 16)) (addr.device * 2 ^ 11))
        (addr.function * 2 ^ 8))
      (bit_and reg_offset 0xfc)

-- `config` is what the data port gives for an address that has been selected.
unfoldable pub pci_read : (ℕ → ℕ) → PciAddress → ℕ → ℕ
pci_read config addr reg_offset = config (config_addr addr reg_offset)

-- The two ports that are written, with their values.
unfoldable pub pci_write : PciAddress → ℕ → ℕ → List (ℕ × ℕ)
pci_write addr reg_offset value = (0xcf8, config_addr addr reg_offset) ∷ (0xcfc, value) ∷ []

-- The body of the three loops.
unfoldable pub try_function : (ℕ → ℕ) → ℕ → ℕ → ℕ → ℕ → ℕ → Option PciAddress
try_function config vendor device bus dev function =
    let addr : PciAddress = record {
      bus = bus;
      device = dev;
      function = function;
      valid = false;
    } in
    let ids = pci_read config addr 0x00 in
    if not (ids == 0xffff_ffff) && (ids % 2 ^ 16 == vendor) && (ids / 2 ^ 16 % 2 ^ 16 == device)
    then some (record addr { valid = true })
    else none

-- A loop of the search from `i` on, with `left` rounds to go, up to the first that returns.
unfoldable pub first_from : (ℕ → Option PciAddress) → ℕ → ℕ → Option PciAddress
first_from body zero i = none
first_from body (suc left) i = elim (body i) [
  | some addr ↦ some addr
  | none ↦ first_from body left (i + 1)
]

abbrev pub function_loop : (ℕ → ℕ) → ℕ → ℕ → ℕ → ℕ → Option PciAddress
function_loop config vendor device bus dev =
    first_from (try_function config vendor device bus dev) 32 0

abbrev pub device_loop : (ℕ → ℕ) → ℕ → ℕ → ℕ → Option PciAddress
device_loop config vendor device bus = first_from (function_loop config vendor device bus) 32 0

unfoldable pub pci_find_device : (ℕ → ℕ) → ℕ → ℕ → PciAddress
pci_find_device config vendor device = elim (first_from (device_loop config vendor device) 256 0) [
  | some addr ↦ addr
  | none ↦ no_device
]
