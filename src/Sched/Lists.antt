-- ===== src/Sched/Lists.antt =====
-- What the scheduler uses of the intrusive lists of libc/include/dsa/list.h, which are a copy of the
-- Linux kernel's. The lists share their nodes, so one store holds them all: a list goes by the number
-- of its head, a node by the number of its process.
use horizon_os.Prelude.{ℕ, ◌≡◌, ◌≢◌, Bool, true, false, ◌||◌, List, [], ◌∷◌, ◌++◌, ◌==◌}

abbrev pub elem : ℕ → List ℕ → Bool
elem p [] = false
elem p (x ∷ xs) = (p == x) || elem p xs

abbrev pub is_nil : List ℕ → Bool
is_nil [] = true
is_nil (x ∷ xs) = false

-- `items s h`: the nodes on the list of head `h`, in order. A node that is on a list already is not
-- added, and a node that is taken off stands on one list only.
pub record ListHead : Type 1 where
  pub Store : Type 0
  pub items : Store → ℕ → List ℕ
  pub init_list_head : ℕ → Store → Store
  pub list_add_tail : ℕ → ℕ → Store → Store
  pub list_empty_careful : ℕ → Store → Bool
  pub list_first_entry : ℕ → Store → ℕ
  pub list_del_init_careful : ℕ → Store → Store
  pub init_self : (h : ℕ) (s : Store) → items (init_list_head h s) h ≡ []
  pub init_other : (h j : ℕ) (s : Store) → j ≢ h → items (init_list_head h s) j ≡ items s j
  pub add_self :
      (p h : ℕ) (s : Store)
      → ((j : ℕ) → elem p (items s j) ≡ false)
      → items (list_add_tail p h s) h ≡ items s h ++ p ∷ []
  pub add_other :
      (p h j : ℕ) (s : Store)
      → ((i : ℕ) → elem p (items s i) ≡ false)
      → j ≢ h
      → items (list_add_tail p h s) j ≡ items s j
  pub empty_lem : (h : ℕ) (s : Store) → list_empty_careful h s ≡ is_nil (items s h)
  pub first_lem :
      (h p : ℕ) (ps : List ℕ) (s : Store) → items s h ≡ p ∷ ps → list_first_entry h s ≡ p
  pub del_self :
      (h p : ℕ) (ps : List ℕ) (s : Store)
      → items s h ≡ p ∷ ps
      → elem p ps ≡ false
      → ((j : ℕ) → j ≢ h → elem p (items s j) ≡ false)
      → items (list_del_init_careful p s) h ≡ ps
  pub del_other :
      (h p j : ℕ) (ps : List ℕ) (s : Store)
      → items s h ≡ p ∷ ps
      → elem p ps ≡ false
      → ((i : ℕ) → i ≢ h → elem p (items s i) ≡ false)
      → j ≢ h
      → items (list_del_init_careful p s) j ≡ items s j
