-- ===== src/Frames/Tests.antt =====
-- A map of 64 frames, of which frame 0 or frames 0 to 34 are used.
use horizon_os.Prelude.{
  ℕ, ◌≡◌, ◌≢◌, ◌⊎◌, refl, true, false, none, some, List, [], ◌∷◌, arith, ◌==◌, if◌then◌else◌,
}
use horizon_os.Frames.{
  pte_get_frame, Frames, first_frame, first_free_from, free_bit, alloc_frame, free_frame, set_frame,
}
use horizon_os.Frames.First.{used}
use horizon_os.Frames.Alloc.{Allocated, alloc_frame_lem}
use horizon_os.Frames.Freed.{frame_zero_lem}
use horizon_os.Frames.Pages.{
  Space, i386_map_page, i386_unmap_page, i386_is_page_mapped, make_page, with_table, zeroed_page,
}
use horizon_os.Frames.Mapped.{i386_map_page-i386_unmap_page}
use horizon_os.Frames.Owned.{State, Call, alloc, free, run, Owned, AllOwned, run-Owned}

abbrev empty : Frames
empty = record { frames = λ i. 0; nframes = 64 }

abbrev filled : Frames
filled = record { frames = λ i. if i == 0 then 0xFFFFFFFF else 7; nframes = 64 }

alloc_frame_lem_example : Allocated false true 0 filled (alloc_frame false true 0 filled)
alloc_frame_lem_example = alloc_frame_lem false true 0 filled (omega arith) refl

frame_zero_lem_example :
    (pte' : ℕ) × (m' : Frames) × ((alloc_frame true true 0 empty ≡ some (pte', m'))
      × (pte_get_frame pte' ≡ 0)
      × (free_frame pte' m' ≡ (pte', m'))
      × (used m'.frames 0 ≡ true)
      × ((alloc_frame true true pte' m' ≡ none)
          ⊎ ((pte'' : ℕ) × (m'' : Frames) × (alloc_frame true true pte' m' ≡ some (pte'', m''))
              × (pte_get_frame pte'' ≢ 0)
              × (used m'.frames (pte_get_frame pte'') ≡ false))))
frame_zero_lem_example = frame_zero_lem true true 0 empty (omega arith) (omega arith) refl refl

filled_alloc : alloc_frame false true 0 filled ≡ some (0x23007, set_frame 0x23000 filled)
unfolding alloc_frame first_frame first_free_from free_bit
filled_alloc = refl

abbrev state : State
state = record { map = empty; entry = λ page. 0 }

state-Owned : Owned state
state-Owned = record {
  small = omega arith;
  marked = λ i h. absurd (h refl);
  distinct = λ i j h. absurd (h refl);
}

abbrev calls : List Call
calls = alloc 1 true true ∷ alloc 2 false true ∷ free 1 ∷ alloc 3 false false ∷ []

run-Owned_example : AllOwned (run calls state)
run-Owned_example = run-Owned calls state state-Owned

-- A directory at 0x1000 without tables, and a heap whose end is not on a page boundary.
abbrev space : Space
space = record { memory = λ a. 0; placement = 0x2010; map = empty; cr3 = 0x1000; invalidated = [] }

new_entry : (make_page 0x805000 0x1000 space).0 ≢ 0x1008
unfolding make_page with_table zeroed_page
new_entry e = ground (arith, e)

i386_map_page-i386_unmap_page_example :
    let mapped = i386_map_page 0x805000 0x9000 true true 0x1000 space in
    let unmapped = i386_unmap_page 0x805000 0x1000 mapped in
    (i386_is_page_mapped 0x805000 0x1000 mapped ≡ true)
    × (unmapped.0 ≡ 0x9000)
    × (i386_is_page_mapped 0x805000 0x1000 unmapped.1 ≡ false)
    × ((n : ℕ)
        → used mapped.map.frames n
          ≡ (if n == 9 then true else used (make_page 0x805000 0x1000 space).1.map.frames n))
i386_map_page-i386_unmap_page_example =
    i386_map_page-i386_unmap_page 0x805000 0x9000 true true 0x1000 space refl refl (omega arith)
      new_entry
