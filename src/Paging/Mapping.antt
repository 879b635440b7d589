-- ===== src/Paging/Mapping.antt =====
-- Mapping and unmapping a page whose tables are there.
use horizon_os.Prelude.{
  bit, ℕ, ◌^◌, ◌<◌, ◌≡◌, ◌≢◌, inl, inr, refl, sym, ap, subst, ◌∙◌, Bool, true, false, ◌∷◌, arith,
  ◌==◌, if◌then◌else◌, Bool-cases,
}
use horizon_os.Paging.{
  Tables, Flush, page, page_present, page_get_addr, phys_to_virt, read, write, flush, entry_at,
  align_down, leaf, map_page, map_at, unmap_page, unmap_at,
}
use horizon_os.Paging.Walk.{
  last, HasTables, get_page_entry_lem, written, written-HasTables, last_same,
}

-- A flush is no change of the tables.
flush-HasTables :
    (v cr3 : ℕ) (f : Flush) (t : Tables) → HasTables v cr3 t → HasTables v cr3 (flush f t)
unfolding flush read phys_to_virt
flush-HasTables v cr3 f t h = record {
  top_there = h.top_there;
  upper_there = h.upper_there;
  upper_small = h.upper_small;
  middle_there = h.middle_there;
  middle_small = h.middle_small;
  not_top = h.not_top;
  not_upper = h.not_upper;
  not_middle = h.not_middle;
}

last-flush : (v cr3 : ℕ) (f : Flush) (t : Tables) → last v cr3 (flush f t) ≡ last v cr3 t
unfolding flush read phys_to_virt
last-flush v cr3 f t = refl

read-flush : (a : ℕ) (f : Flush) (t : Tables) → read (flush f t) a ≡ read t a
unfolding flush read
read-flush a f t = refl

map_page_lem :
    (v p cr3 : ℕ) (iskernel writeable : Bool) (t : Tables)
    → HasTables (align_down v) cr3 t
    → map_page v p iskernel writeable cr3 t
      ≡ flush
          (page (align_down v))
          (write (last (align_down v) cr3 t) (leaf p iskernel writeable) t)
unfolding map_page map_at
map_page_lem v p cr3 iskernel writeable t h =
    ap (map_at (align_down v) (leaf p iskernel writeable))
      (get_page_entry_lem (align_down v) cr3 true t h)

-- The tables once the entry of `v` is cleared.
abbrev pub cleared : ℕ → ℕ → Tables → Tables
cleared v cr3 t =
    let t' = write (last (align_down v) cr3 t) 0 t in
    if cr3 == page_get_addr t.cr3 then flush (page (align_down v)) t' else t'

unmap_page_there :
    (v cr3 : ℕ) (t : Tables)
    → HasTables (align_down v) cr3 t
    → bit page_present (read t (last (align_down v) cr3 t)) ≡ true
    → unmap_page v cr3 t ≡ (page_get_addr (read t (last (align_down v) cr3 t)), cleared v cr3 t)
unfolding unmap_page unmap_at
unmap_page_there v cr3 t h there =
    ap (unmap_at (align_down v) cr3) (get_page_entry_lem (align_down v) cr3 false t h)
    ∙ rw there refl

unmap_page_absent :
    (v cr3 : ℕ) (t : Tables)
    → HasTables (align_down v) cr3 t
    → bit page_present (read t (last (align_down v) cr3 t)) ≡ false
    → unmap_page v cr3 t ≡ (0, t)
unfolding unmap_page unmap_at
unmap_page_absent v cr3 t h absent =
    ap (unmap_at (align_down v) cr3) (get_page_entry_lem (align_down v) cr3 false t h)
    ∙ rw absent refl

leaf-present : (p : ℕ) (k w : Bool) → bit page_present (leaf p k w) ≡ true
unfolding leaf
leaf-present p true true = ground arith
leaf-present p true false = ground arith
leaf-present p false true = ground arith
leaf-present p false false = ground arith

leaf-frame : (p : ℕ) (k w : Bool) → p < 2 ^ 52 → page_get_addr (leaf p k w) ≡ align_down p
unfolding leaf page_get_addr
leaf-frame p true true h = ground arith
leaf-frame p true false h = ground arith
leaf-frame p false true h = ground arith
leaf-frame p false false h = ground arith

cleared-HasTables :
    (v cr3 : ℕ) (t : Tables)
    → HasTables (align_down v) cr3 t
    → HasTables (align_down v) cr3 (cleared v cr3 t)
      × (last (align_down v) cr3 (cleared v cr3 t) ≡ last (align_down v) cr3 t)
unfolding written
cleared-HasTables v cr3 t h = elim (Bool-cases (cr3 == page_get_addr t.cr3)) [
  | inl own ↦ rw own (
    flush-HasTables (align_down v) cr3 _ _ (written-HasTables (align_down v) cr3 0 t h),
    last-flush (align_down v) cr3 _ _ ∙ last_same (align_down v) cr3 0 t h,
  )
  | inr other ↦
      rw other (written-HasTables (align_down v) cr3 0 t h, last_same (align_down v) cr3 0 t h)
]

read-cleared :
    (v cr3 a : ℕ) (t : Tables)
    → read (cleared v cr3 t) a ≡ (if a == last (align_down v) cr3 t then 0 else read t a)
unfolding read write flush
read-cleared v cr3 a t = elim (Bool-cases (cr3 == page_get_addr t.cr3)) [
  | inl own ↦ rw own
  | inr other ↦ rw other
]

module _ (v p cr3 : ℕ) (iskernel writeable : Bool) (t : Tables)
    (h : HasTables (align_down v) cr3 t) where
  mapped : Tables
  mapped = map_page v p iskernel writeable cr3 t

  entry : ℕ
  entry = last (align_down v) cr3 t

  mapped_is : mapped ≡ flush (page (align_down v)) (write entry (leaf p iskernel writeable) t)
  unfolding mapped entry
  mapped_is = map_page_lem v p cr3 iskernel writeable t h

  mapped-HasTables : HasTables (align_down v) cr3 mapped
  unfolding write written entry entry_at
  mapped-HasTables = subst (HasTables (align_down v) cr3) (sym mapped_is) (
      flush-HasTables (align_down v) cr3 _ _
        (written-HasTables (align_down v) cr3 (leaf p iskernel writeable) t h))

  mapped-last : last (align_down v) cr3 mapped ≡ entry
  unfolding entry write written
  mapped-last =
      ap (last (align_down v) cr3) mapped_is
      ∙ last-flush (align_down v) cr3 _ _
      ∙ last_same (align_down v) cr3 (leaf p iskernel writeable) t h

  mapped_read :
      (a : ℕ) → read mapped a ≡ (if a == entry then leaf p iskernel writeable else read t a)
  unfolding read write
  mapped_read a = ap (λ t'. read t' a) mapped_is ∙ read-flush a _ _

  mapped_entry : read mapped (last (align_down v) cr3 mapped) ≡ leaf p iskernel writeable
  mapped_entry = rw (mapped-last, mapped_read entry) (ground arith)

  unmapped :
      unmap_page v cr3 mapped ≡ (page_get_addr (leaf p iskernel writeable), cleared v cr3 mapped)
  unmapped =
      unmap_page_there v cr3 mapped mapped-HasTables
        (ap (bit page_present) mapped_entry ∙ leaf-present p iskernel writeable)
      ∙ ap (λ w. (page_get_addr w, cleared v cr3 mapped)) mapped_entry

  gone : (unmap_page v cr3 (cleared v cr3 mapped)).0 ≡ 0
  gone =
      let c = cleared-HasTables v cr3 mapped mapped-HasTables in
      let zero_there : read (cleared v cr3 mapped) (last (align_down v) cr3 (cleared v cr3 mapped))
          ≡ 0 =
        rw (c.1, read-cleared v cr3 (last (align_down v) cr3 mapped) mapped) (ground arith) in
      ap (λ r. r.0)
        (unmap_page_absent v cr3 (cleared v cr3 mapped) c.0 (ap (bit page_present) zero_there))

  others : (a : ℕ) → a ≢ entry → read (cleared v cr3 mapped) a ≡ read t a
  others a ne = rw (read-cleared v cr3 a mapped, mapped-last, mapped_read a) (ground arith)

  -- Where the tables of a page are there, and its last entry is none of those that lead to it: after
  -- `map_page` of a frame below 2^52, `unmap_page` answers that frame, a second `unmap_page` answers
  -- 0, no word of memory but the page's entry is changed by the first two calls, and `map_page` has
  -- flushed the page.
  pub map_page-unmap_page :
      p < 2 ^ 52
      → let t₁ = map_page v p iskernel writeable cr3 t in
        let (frame, t₂) = unmap_page v cr3 t₁ in
        (frame ≡ align_down p)
        × ((unmap_page v cr3 t₂).0 ≡ 0)
        × ((a : ℕ) → a ≢ last (align_down v) cr3 t → read t₂ a ≡ read t a)
        × (t₁.flushes ≡ page (align_down v) ∷ t.flushes)
  unfolding mapped entry flush write
  map_page-unmap_page small =
      rw unmapped
        (leaf-frame p iskernel writeable small, gone, others, ap (λ t'. t'.flushes) mapped_is)
