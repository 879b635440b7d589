-- ===== src/Frames/Mapped.antt =====
-- What mapping a page of arch/i386/memory/paging.c leaves for the walk, and unmapping takes back.
use horizon_os.Prelude.{
  ℕ, ◌+◌, ◌*◌, ◌/◌, ◌%◌, ◌^◌, ◌<◌, ◌≡◌, ◌≢◌, ◌∙◌, refl, ap, sym, subst, Bool, true, false, not,
  some, arith, bit, ◌==◌, if◌then◌else◌, Bool-cases, inl, inr,
}
use horizon_os.Prelude.Bits.{set_bit, clear_bit, bit-set_bit, bit-clear_bit}
use horizon_os.Frames.{set_frame, pte_set_frame, set_if}
use horizon_os.Frames.First.{used}
use horizon_os.Frames.Alloc.{set_frame-used}
use horizon_os.Frames.Pages.{
  Space, page_base, write_at, zeroed_page, pde_address, with_table, pte_address, find_page,
  make_page, mapped_entry, i386_map_page, i386_unmap_page, i386_is_page_mapped,
}

-- The flags 0 to 2 lie below the frame of an entry, and flag 0 apart from the others.
base_present : (x : ℕ) → page_base (set_bit 0 x) ≡ page_base x
base_present x = ground arith

base_write :
    (writeable : Bool) (x : ℕ)
    → page_base (if writeable then set_bit 1 x else clear_bit 1 x) ≡ page_base x
base_write true x = ground arith
base_write false x = ground arith

base_user : (wanted : Bool) (x : ℕ) → page_base (set_if wanted 2 x) ≡ page_base x
base_user true x = ground arith
base_user false x = refl

present-write :
    (writeable : Bool) (x : ℕ) → bit 0 (if writeable then set_bit 1 x else clear_bit 1 x) ≡ bit 0 x
present-write true x = bit-set_bit 1 0 x
present-write false x = bit-clear_bit 1 0 x

present-user : (wanted : Bool) (x : ℕ) → bit 0 (set_if wanted 2 x) ≡ bit 0 x
present-user true x = bit-set_bit 2 0 x
present-user false x = refl

base_set_frame :
    (phys x : ℕ) → phys < 2 ^ 32 → page_base (pte_set_frame (phys / 0x1000) x) ≡ page_base phys
base_set_frame phys x h = omega (arith, h)

-- The entry of a mapped page is present, and its frame is the one asked for.
entry-base :
    (iskernel writeable : Bool) (phys pte : ℕ)
    → phys < 2 ^ 32
    → page_base (mapped_entry iskernel writeable phys pte) ≡ page_base phys
entry-base iskernel writeable phys pte h =
    let named = pte_set_frame (phys / 0x1000) pte in
    base_user (not iskernel) _
    ∙ base_write writeable (set_bit 0 named)
    ∙ base_present named
    ∙ base_set_frame phys pte h

entry-present :
    (iskernel writeable : Bool) (phys pte : ℕ)
    → bit 0 (mapped_entry iskernel writeable phys pte) ≡ true
entry-present iskernel writeable phys pte =
    let named = pte_set_frame (phys / 0x1000) pte in
    present-user (not iskernel) _
    ∙ present-write writeable (set_bit 0 named)
    ∙ bit-set_bit 0 0 named

same_pde : (v cr3 : ℕ) → pde_address (page_base v) cr3 ≡ pde_address v cr3
same_pde v cr3 = omega arith

same_index : (v : ℕ) → page_base v / 2 ^ 12 % 2 ^ 10 ≡ v / 2 ^ 12 % 2 ^ 10
same_index v = omega arith

same_address : (a : ℕ) → (a == a) ≡ true
same_address a = ground arith

with_table-present :
    (v cr3 : ℕ) (s : Space) → bit 0 ((with_table v cr3 s).memory (pde_address v cr3)) ≡ true
unfolding with_table
with_table-present v cr3 s =
    let at = pde_address v cr3 in
    let page = (zeroed_page s).0 in
    let new = write_at at (set_bit 1 (set_bit 0 page)) (zeroed_page s).1 in
    elim (Bool-cases (bit 0 (s.memory at))) [
      | inl there ↦ subst (λ b. bit 0 ((if b then s else new).memory at) ≡ true) (sym there) there
      | inr missing ↦
          rw (missing, same_address at) (bit-set_bit 1 0 (set_bit 0 page) ∙ bit-set_bit 0 0 page)
    ]

-- The walk of `v` arrives at the address `at`, which is not on its way.
record Walks (v cr3 at : ℕ) (s : Space) : Type 0 where
  there : bit 0 (s.memory (pde_address v cr3)) ≡ true
  arrives : pte_address v cr3 s ≡ at
  apart : at ≢ pde_address v cr3

found : (v cr3 at : ℕ) (s : Space) → Walks v cr3 at s → find_page v cr3 s ≡ some at
unfolding find_page
found v cr3 at s w = rw w.there (ap some w.arrives)

-- A write at its end keeps the walk.
written-Walks :
    (v cr3 at word : ℕ) (s s' : Space)
    → Walks v cr3 at s
    → s'.memory ≡ (write_at at word s).memory
    → Walks v cr3 at s'
written-Walks v cr3 at word s s' w e =
    let kept : s'.memory (pde_address v cr3) ≡ s.memory (pde_address v cr3) =
      ap (λ f. f (pde_address v cr3)) e ∙ ground (arith, w.apart) in
    record {
      there = ap (bit 0) kept ∙ w.there;
      arrives = ap (λ pde. page_base pde + v / 2 ^ 12 % 2 ^ 10 * 4) kept ∙ w.arrives;
      apart = w.apart;
    }

read-written :
    (at word : ℕ) (s s' : Space) → s'.memory ≡ (write_at at word s).memory → s'.memory at ≡ word
read-written at word s s' e = ap (λ f. f at) e ∙ rw (same_address at) refl

is_mapped :
    (v cr3 at : ℕ) (s : Space)
    → Walks v cr3 at s
    → i386_is_page_mapped v cr3 s ≡ bit 0 (s.memory at)
unfolding i386_is_page_mapped
is_mapped v cr3 at s w = rw (found v cr3 at s w, i386_is_page_mapped) refl

-- The end of `unmap_page` for a page that is mapped.
unmapping :
    (v cr3 at : ℕ) (s : Space)
    → Walks v cr3 at s
    → page_base v ≡ v
    → bit 0 (s.memory at) ≡ true
    → ((i386_unmap_page v cr3 s).0 ≡ page_base (s.memory at))
      × ((i386_unmap_page v cr3 s).1.memory ≡ (write_at at 0 s).memory)
unfolding i386_unmap_page
unmapping v cr3 at s w base present = elim (Bool-cases (s.cr3 == cr3)) [
  | inl current ↦ rw (base, i386_unmap_page, found v cr3 at s w, present, current) (refl, refl)
  | inr other ↦ rw (base, i386_unmap_page, found v cr3 at s w, present, other) (refl, refl)
]

-- Where the entry that `map_page` writes is not the directory's entry that leads to it: after
-- `map_page` of a page, with or without a table for it before, the page is mapped, `unmap_page`
-- answers the physical page that it was mapped to, and leaves it unmapped; and of the map of frames
-- the bit of that page has been set, and no other.
pub i386_map_page-i386_unmap_page :
    (virt phys : ℕ) (iskernel writeable : Bool) (cr3 : ℕ) (s : Space)
    → virt % 4096 ≡ 0
    → phys % 4096 ≡ 0
    → phys < 2 ^ 32
    → (make_page virt cr3 s).0 ≢ pde_address virt cr3
    → let mapped = i386_map_page virt phys iskernel writeable cr3 s in
      let unmapped = i386_unmap_page virt cr3 mapped in
      (i386_is_page_mapped virt cr3 mapped ≡ true)
      × (unmapped.0 ≡ phys)
      × (i386_is_page_mapped virt cr3 unmapped.1 ≡ false)
      × ((n : ℕ)
          → used mapped.map.frames n
            ≡ (if n == phys / 4096 then true else used (make_page virt cr3 s).1.map.frames n))
unfolding i386_map_page make_page
i386_map_page-i386_unmap_page virt phys iskernel writeable cr3 s hv hp small apart =
    let v_base : page_base virt ≡ virt = omega (arith, hv) in
    let p_base : page_base phys ≡ phys = omega (arith, hp) in
    let s' = with_table virt cr3 s in
    let at = pte_address virt cr3 s' in
    let entry = mapped_entry iskernel writeable phys (s'.memory at) in
    let mapped = i386_map_page virt phys iskernel writeable cr3 s in
    let unmapped = (i386_unmap_page virt cr3 mapped).1 in
    let before : Walks virt cr3 at s' = record {
      there = with_table-present virt cr3 s;
      arrives = refl;
      apart = apart;
    } in
    let memory : mapped.memory ≡ (write_at at entry s').memory = rw (v_base, p_base) refl in
    let map : mapped.map ≡ set_frame phys s'.map = rw (v_base, p_base) refl in
    let during = written-Walks virt cr3 at entry s' mapped before memory in
    let reads = read-written at entry s' mapped memory in
    let present : bit 0 (mapped.memory at) ≡ true =
      ap (bit 0) reads ∙ entry-present iskernel writeable phys (s'.memory at) in
    let (answer, cleared) = unmapping virt cr3 at mapped during v_base present in
    let after = written-Walks virt cr3 at 0 mapped unmapped during cleared in
    (
      is_mapped virt cr3 at mapped during ∙ present,
      answer
          ∙ ap (λ e. page_base e) reads
          ∙ entry-base iskernel writeable phys (s'.memory at) small
          ∙ p_base,
      is_mapped virt cr3 at unmapped after ∙ ap (bit 0) (read-written at 0 mapped unmapped cleared),
      λ n.
          ap (λ m. used m.frames n) (map ∙ ap (λ a. set_frame a s'.map) (omega (arith, hp, small)))
          ∙ set_frame-used (phys / 4096) n s'.map (omega (arith, small)),
    )
