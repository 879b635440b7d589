-- ===== src/Pci/Search.antt =====
-- What the search over the bus finds.
use horizon_os.Prelude.{
  ℕ, zero, suc, ◌+◌, ◌/◌, ◌%◌, ◌^◌, ◌≤◌, ◌<◌, ◌≡◌, ◌≢◌, ◌⊎◌, refl, inl, inr, true, false, not, ◌&&◌,
  Option, none, some, Option-cases, Bool-cases, arith, ◌==◌, ℕ_discrete,
}
use horizon_os.Pci.{
  PciAddress, no_device, pci_read, try_function, first_from, function_loop, device_loop,
  pci_find_device,
}

-- A round that returns, with none before it, or no round that does.
abbrev FirstOf : (ℕ → Option PciAddress) → ℕ → ℕ → Option PciAddress → Type 0
FirstOf body left i out =
    ((j : ℕ) × (addr : PciAddress) × ((out ≡ some addr)
        × (body j ≡ some addr)
        × (i ≤ j)
        × (j < i + left)
        × ((k : ℕ) → i ≤ k → k < j → body k ≡ none)))
    ⊎ ((out ≡ none) × ((k : ℕ) → i ≤ k → k < i + left → body k ≡ none))

first_from_lem :
    (body : ℕ → Option PciAddress) (left i : ℕ) → FirstOf body left i (first_from body left i)
unfolding first_from
first_from_lem body zero i = inr (refl, λ k h n. absurd (omega arith))
first_from_lem body (suc left) i = elim (Option-cases (body i)) [
  | inr (addr, hit) ↦ inl (
    i,
    addr,
    (rw (hit, first_from), hit, omega arith, omega arith, λ k h n. absurd (omega arith)),
  )
  | inl miss ↦
      let here : (k : ℕ) → i ≡ k → body k ≡ none = λ k e. rw (← e) miss in
      elim (first_from_lem body left (i + 1)) [
        | inl (j, addr, (e, at_j, low, high, before)) ↦ inl (
          j,
          addr,
          (
            rw (miss, first_from) e,
            at_j,
            omega arith,
            omega arith,
            λ k h n. elim (ℕ_discrete i k) [
              | yes same ↦ here k same
              | no differ ↦ before k (omega arith) n
            ],
          ),
        )
        | inr (e, all) ↦ inr (
          rw (miss, first_from) e,
          λ k h n. elim (ℕ_discrete i k) [
            | yes same ↦ here k same
            | no differ ↦ all k (omega arith) (omega arith)
          ],
        )
      ]
]

-- What the registers say of a function that is there and is the one that is looked for.
abbrev pub IsAt : (ℕ → ℕ) → ℕ → ℕ → PciAddress → Type 0
IsAt config vendor device addr =
    let ids = pci_read config addr 0 in
    (ids ≢ 0xffff_ffff) × (ids % 2 ^ 16 ≡ vendor) × (ids / 2 ^ 16 % 2 ^ 16 ≡ device)

abbrev pub address : ℕ → ℕ → ℕ → PciAddress
address bus dev function = record { bus = bus; device = dev; function = function; valid = false }

module _ (config : ℕ → ℕ) (vendor device : ℕ) where
  try_function-none :
      (bus dev function : ℕ)
      → try_function config vendor device bus dev function ≡ none
      → ¬ (IsAt config vendor device (address bus dev function))
  unfolding try_function
  try_function-none bus dev function e at = ground (arith, e, at)

  try_function-some :
      (bus dev function : ℕ) (addr : PciAddress)
      → try_function config vendor device bus dev function ≡ some addr
      → IsAt config vendor device (address bus dev function)
        × (addr ≡ record (address bus dev function) { valid = true })
  unfolding try_function
  try_function-some bus dev function addr e =
      let ids = pci_read config (address bus dev function) 0 in
      let test =
        not (ids == 0xffff_ffff) && (ids % 2 ^ 16 == vendor) && (ids / 2 ^ 16 % 2 ^ 16 == device) in
      elim (Bool-cases test) [
        | inl hit ↦ (
          ((λ absent. ground (arith, hit, absent)), ground (arith, hit), ground (arith, hit)),
          cc (rw hit at e),
        )
        | inr miss ↦ absurd (cc (rw miss at e))
      ]

  -- The address of a function that is there and has the two numbers; or none, where no function that
  -- is looked at has them.
  abbrev pub Searched : PciAddress → Type 0
  Searched out =
      ((bus : ℕ) × (dev : ℕ) × (function : ℕ) × ((bus < 256)
          × (dev < 32)
          × (function < 32)
          × IsAt config vendor device (address bus dev function)
          × (out ≡ record (address bus dev function) { valid = true })))
      ⊎ ((out ≡ no_device)
          × ((bus dev function : ℕ)
              → bus < 256
              → dev < 32
              → function < 32
              → ¬ (IsAt config vendor device (address bus dev function))))

  -- The search answers, marked as valid, the address of a function of the bus that has the two
  -- numbers; or, where none of the 32 functions looked at of any of the 32 devices of any of the 256
  -- buses has them, an address that is marked as not valid.
  pub pci_find_device_lem : Searched (pci_find_device config vendor device)
  unfolding pci_find_device
  pci_find_device_lem = elim (first_from_lem (device_loop config vendor device) 256 0) [
    | inl (bus, addr, (e, at_bus, _, in_buses, _)) ↦
        elim (first_from_lem (function_loop config vendor device bus) 32 0) [
          | inr (nothing, _) ↦ absurd (cc (at_bus, nothing))
          | inl (dev, addr', (e', at_dev, _, in_devices, _)) ↦
              elim (first_from_lem (try_function config vendor device bus dev) 32 0) [
                | inr (nothing, _) ↦ absurd (cc (at_dev, nothing))
                | inl (function, addr'', (e'', at_function, _, in_functions, _)) ↦
                    let (is_at, exact) = try_function-some bus dev function addr'' at_function in
                    let same : some addr ≡ some addr'' = cc (at_bus, e', at_dev, e'') in
                    inl (
                      bus,
                      dev,
                      function,
                      (
                        in_buses,
                        in_devices,
                        in_functions,
                        is_at,
                        rw (e, pci_find_device) (cc (same, exact)),
                      ),
                    )
              ]
        ]
    | inr (e, all) ↦ inr (
      rw (e, pci_find_device),
      λ bus dev function hb hd hf.
          elim (first_from_lem (function_loop config vendor device bus) 32 0) [
            | inl (dev', addr', (e', _, _, _, _)) ↦ absurd (cc (e', all bus (omega arith) hb))
            | inr (_, all_devices) ↦
                elim (first_from_lem (try_function config vendor device bus dev) 32 0) [
                  | inl (function', addr', (e', _, _, _, _)) ↦
                      absurd (cc (e', all_devices dev (omega arith) hd))
                  | inr (_, all_functions) ↦
                      try_function-none bus dev function (all_functions function (omega arith) hf)
                ]
          ],
    )
  ]
