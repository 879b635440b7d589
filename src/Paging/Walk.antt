-- ===== src/Paging/Walk.antt =====
-- The walk down the tables of a page that has all of them.
use horizon_os.Prelude.{
  bit, ℕ, ◌^◌, ◌≡◌, ◌≢◌, refl, sym, ap, ◌∙◌, Bool, true, false, Option, some, arith,
}
use horizon_os.Kheap.{page_size}
use horizon_os.Paging.{
  Tables, page_present, page_ps, page_get_addr, phys_to_virt, read, write, entry_at, index,
  next_top, next_level, get_page_entry, and_then, and_then,
}

-- The table that an entry leads to, and the four entries of an address.
abbrev pub below : Tables → ℕ → ℕ
below t entry = phys_to_virt t (page_get_addr (read t entry))

abbrev pub top : ℕ → ℕ → Tables → ℕ
top v cr3 t = entry_at (phys_to_virt t (page_get_addr cr3)) (index 39 v)

abbrev pub upper : ℕ → ℕ → Tables → ℕ
upper v cr3 t = entry_at (below t (top v cr3 t)) (index 30 v)

abbrev pub middle : ℕ → ℕ → Tables → ℕ
middle v cr3 t = entry_at (below t (upper v cr3 t)) (index 21 v)

abbrev pub last : ℕ → ℕ → Tables → ℕ
last v cr3 t = entry_at (below t (middle v cr3 t)) (index 12 v)

-- The tables of an address are there, none of its entries above the last is huge, and the last entry
-- is none of them.
pub record HasTables (v cr3 : ℕ) (t : Tables) : Type 0 where
  pub top_there : bit page_present (read t (top v cr3 t)) ≡ true
  pub upper_there : bit page_present (read t (upper v cr3 t)) ≡ true
  pub upper_small : bit page_ps (read t (upper v cr3 t)) ≡ false
  pub middle_there : bit page_present (read t (middle v cr3 t)) ≡ true
  pub middle_small : bit page_ps (read t (middle v cr3 t)) ≡ false
  pub not_top : top v cr3 t ≢ last v cr3 t
  pub not_upper : upper v cr3 t ≢ last v cr3 t
  pub not_middle : middle v cr3 t ≢ last v cr3 t

next_top_lem :
    (create : Bool) (e : ℕ) (t : Tables)
    → bit page_present (read t e) ≡ true
    → next_top create e t ≡ (some (below t e), t)
unfolding next_top
next_top_lem create e t there = rw there

next_level_lem :
    (create : Bool) (step e cr3 : ℕ) (t : Tables)
    → bit page_present (read t e) ≡ true
    → bit page_ps (read t e) ≡ false
    → next_level create step e cr3 t ≡ (some (below t e), t)
unfolding next_level
next_level_lem create step e cr3 t there small = rw (small, there)

and_then-some :
    (r : Option ℕ × Tables) (f : ℕ → Tables → Option ℕ × Tables) (a : ℕ) (t : Tables)
    → r ≡ (some a, t)
    → and_then r f ≡ f a t
unfolding and_then
and_then-some r f a t e = rw (e, and_then)

-- The walk finds the last entry, and changes nothing.
pub get_page_entry_lem :
    (v cr3 : ℕ) (create : Bool) (t : Tables)
    → HasTables v cr3 t
    → get_page_entry v create cr3 t ≡ (some (last v cr3 t), t)
unfolding get_page_entry
get_page_entry_lem v cr3 create t h =
    and_then-some _ _ _ t (next_top_lem create (top v cr3 t) t h.top_there)
    ∙ and_then-some _ _ _ t
        (next_level_lem create (2 ^ 21) (upper v cr3 t) cr3 t h.upper_there h.upper_small)
    ∙ and_then-some _ _ _ t
        (next_level_lem create page_size (middle v cr3 t) cr3 t h.middle_there h.middle_small)

read-write_ne : (a b x : ℕ) (t : Tables) → b ≢ a → read (write a x t) b ≡ read t b
unfolding read write
read-write_ne a b x t ne = ground arith

pub read-write_self : (a x : ℕ) (t : Tables) → read (write a x t) a ≡ x
unfolding read write
read-write_self a x t = ground arith

module _ (v cr3 x : ℕ) (t : Tables) (h : HasTables v cr3 t) where
  -- A write to the last entry does not change the way to it.
  unfoldable pub written : Tables
  written = write (last v cr3 t) x t

  top_kept : read written (top v cr3 t) ≡ read t (top v cr3 t)
  unfolding written
  top_kept = read-write_ne (last v cr3 t) (top v cr3 t) x t h.not_top

  upper_kept : read written (upper v cr3 t) ≡ read t (upper v cr3 t)
  unfolding written
  upper_kept = read-write_ne (last v cr3 t) (upper v cr3 t) x t h.not_upper

  middle_kept : read written (middle v cr3 t) ≡ read t (middle v cr3 t)
  unfolding written
  middle_kept = read-write_ne (last v cr3 t) (middle v cr3 t) x t h.not_middle

  to_virt : (p : ℕ) → phys_to_virt written p ≡ phys_to_virt t p
  unfolding written phys_to_virt write
  to_virt p = refl

  top_same : top v cr3 written ≡ top v cr3 t
  top_same = ap (λ p. entry_at p (index 39 v)) (to_virt (page_get_addr cr3))

  upper_same : upper v cr3 written ≡ upper v cr3 t
  upper_same = rw (top_same, top_kept) (ap (λ p. entry_at p (index 30 v)) (to_virt _))

  middle_same : middle v cr3 written ≡ middle v cr3 t
  middle_same = rw (upper_same, upper_kept) (ap (λ p. entry_at p (index 21 v)) (to_virt _))

  pub last_same : last v cr3 written ≡ last v cr3 t
  last_same = rw (middle_same, middle_kept) (ap (λ p. entry_at p (index 12 v)) (to_virt _))

  pub written-HasTables : HasTables v cr3 written
  written-HasTables = record {
    top_there = rw (top_same, top_kept) h.top_there;
    upper_there = rw (upper_same, upper_kept) h.upper_there;
    upper_small = rw (upper_same, upper_kept) h.upper_small;
    middle_there = rw (middle_same, middle_kept) h.middle_there;
    middle_small = rw (middle_same, middle_kept) h.middle_small;
    not_top = λ e. h.not_top (sym top_same ∙ e ∙ last_same);
    not_upper = λ e. h.not_upper (sym upper_same ∙ e ∙ last_same);
    not_middle = λ e. h.not_middle (sym middle_same ∙ e ∙ last_same);
  }

  last-written : read written (last v cr3 written) ≡ x
  unfolding written
  last-written = rw last_same (read-write_self (last v cr3 t) x t)
