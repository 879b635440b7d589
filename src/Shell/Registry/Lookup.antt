-- ===== src/Shell/Registry/Lookup.antt =====
-- Which command the registry answers for a name.
use native.Mathlib.Nat.{add-zero}
use horizon_os.Prelude.{
  ℕ, zero, suc, ◌+◌, ◌≤◌, ◌<◌, ◌≡◌, ◌≢◌, ◌↔◌, ◌∙◌, refl, sym, ap, subst, Bool, true, false, ◌&&◌,
  Option, none, some, List, [], ◌∷◌, ◌++◌, length, arith, inl, inr, Bool-cases, ◌⊎◌,
}
use horizon_os.Prelude.Int.{ℤ, pos, negsuc}
use horizon_os.Cstring.{Memory, nul, strnlen, strncmp, is_zero}
use horizon_os.Cstring.Compare.{Agree, Agree-suc, IsString, strnlen_lem}
use horizon_os.Cstring.Order.{Bytes, SameText, Agree-head, Agree-tail, at_most, strncmp_lem}
use horizon_os.Cstring.Print.{Stands}
use horizon_os.Shell.{command_name_len}
use horizon_os.Shell.Words.{All}
use horizon_os.Shell.Registry.{HushCommand, has_name, find_command}

-- The C string of these characters, none of them a NUL, stands at an address.
abbrev pub IsText : Memory → ℕ → List ℕ → Type 0
IsText m a w = Stands m a (w ++ nul ∷ []) × All (λ c. c ≢ nul) w

is_zero_iff : (r : ℤ) → (is_zero r ≡ true) ↔ (r ≡ pos 0)
unfolding is_zero
is_zero_iff (pos n) = ((λ h. ground arith), λ h. ground arith)
is_zero_iff (negsuc n) = ((λ h. ground arith), λ h. ground arith)

IsString-text : (m : Memory) (a : ℕ) (w : List ℕ) → IsText m a w → IsString m a (length w)
IsString-text m a [] h = record { ends = rw add-zero h.0.0; text = λ i lt. elim lt [ ] }
IsString-text m a (c ∷ w) h =
    let rest = IsString-text m (a + 1) w (h.0.1, h.1.1) in
    record { ends = rw (← shift (length w)) rest.ends; text = at_index rest.text }
  where
    shift : (k : ℕ) → a + 1 + k ≡ a + suc k
    shift k = omega arith

    at_index :
        ((i : ℕ) → i < length w → m (a + 1 + i) ≢ nul)
        → (i : ℕ) → i < suc (length w)
        → m (a + i) ≢ nul
    at_index rest zero lt = rw (add-zero, h.0.0) h.1.0
    at_index rest (suc i) lt = rw (← shift i) (rest i (omega arith))

Agree-text :
    (m : Memory) (s t : ℕ) (w : List ℕ)
    → Stands m s (w ++ nul ∷ [])
    → Stands m t (w ++ nul ∷ [])
    → Agree m s t (length w)
Agree-text m s t [] hs ht = λ i lt. elim lt [ ]
Agree-text m s t (c ∷ w) hs ht =
    Agree-suc m s t (length w) (hs.0 ∙ sym ht.0) (Agree-text m (s + 1) (t + 1) w hs.1 ht.1)

eq_of_agree :
    (m : Memory) (s t : ℕ) (v w : List ℕ)
    → Stands m s (v ++ nul ∷ [])
    → Stands m t (w ++ nul ∷ [])
    → SameText m s t (length v) (length w)
    → v ≡ w
eq_of_agree m s t [] [] hs ht same = refl
eq_of_agree m s t [] (d ∷ w) hs ht same = absurd (omega (arith, same.0))
eq_of_agree m s t (c ∷ v) [] hs ht same = absurd (omega (arith, same.0))
eq_of_agree m s t (c ∷ v) (d ∷ w) hs ht (len, same) =
    let first_same : c ≡ d = sym hs.0 ∙ Agree-head m s t (length v) same ∙ ht.0 in
    let rest =
      eq_of_agree m (s + 1) (t + 1) v w hs.1 ht.1
        (omega (arith, len), Agree-tail m s t (length v) same) in
    cc (first_same, rest)

agree_of_eq :
    (m : Memory) (s t : ℕ) (v w : List ℕ)
    → Stands m s (v ++ nul ∷ [])
    → Stands m t (w ++ nul ∷ [])
    → v ≡ w
    → SameText m s t (length v) (length w)
agree_of_eq m s t v w hs ht e =
    (ap length e, Agree-text m s t v hs (subst (λ x. Stands m t (x ++ nul ∷ [])) (sym e) ht))

both : (a b : Bool) → (a && b) ≡ true → (a ≡ true) × (b ≡ true)
both a b h = (ground arith, ground arith)

module _ {World : Type 0} (m : Memory) (name : ℕ) (bytes : Bytes m) where
  -- The test of an entry, for a name shorter than the ten characters that are looked at.
  has_name_iff :
      (cmd : HushCommand World) (v w : List ℕ)
      → IsText m cmd.name v
      → IsText m name w
      → length w < command_name_len
      → (has_name m name cmd ≡ true) ↔ (v ≡ w)
  unfolding has_name
  has_name_iff cmd v w hv hw short =
      let p = length v in
      let q = length w in
      let string = IsString-text m name w hw in
      let entry = IsString-text m cmd.name v hv in
      let len : strnlen m name command_name_len ≡ q =
        strnlen_lem m name q command_name_len string ∙ ground arith in
      let iff = strncmp_lem m cmd.name name p q q bytes entry string in
      let entry_len = strnlen_lem m cmd.name p command_name_len entry in
      let zero_iff = is_zero_iff (strncmp m cmd.name name q) in
      let cut_q : at_most q q ≡ q = ground arith in
      rw (len, entry_len)
        (
          (λ h.
              let (no_order, same_len) = both _ _ h in
              let equal : p ≡ q = ground (arith, same_len) in
              let cut_p : at_most q p ≡ p = ground (arith, equal) in
              eq_of_agree m cmd.name name v w hv.0 hw.0 (
                subst (λ k. SameText m cmd.name name k q) cut_p
                  (subst (λ k. SameText m cmd.name name (at_most q p) k) cut_q
                    (iff.0 (zero_iff.0 no_order))))),
          λ e.
              let same = agree_of_eq m cmd.name name v w hv.0 hw.0 e in
              let equal : p ≡ q = same.0 in
              let cut_p : at_most q p ≡ p = ground (arith, equal) in
              let no_order = zero_iff.1 (
                iff.1 (
                  subst (λ k. SameText m cmd.name name k (at_most q q)) (sym cut_p)
                    (subst (λ k. SameText m cmd.name name p k) (sym cut_q) same))) in
              ground (arith, no_order, equal),
        )

-- The registered commands with their names.
abbrev pub Entry : Type 0 → Type 0
Entry World = HushCommand World × List ℕ

module _ {World : Type 0} where
  abbrev pub commands : List (Entry World) → List (HushCommand World)
  commands [] = []
  commands ((cmd, v) ∷ es) = cmd ∷ commands es

  abbrev pub Named : Memory → List (Entry World) → Type 0
  Named m [] = Unit
  Named m ((cmd, v) ∷ es) = IsText m cmd.name v × Named m es

  -- The first command of this name, or none where there is none.
  abbrev pub Found : List ℕ → List (Entry World) → Option (HushCommand World) → Type 0
  Found w [] out = out ≡ none
  Found w ((cmd, v) ∷ es) out = (v ≡ w) × (out ≡ some cmd) ⊎ ((v ≢ w) × Found w es out)

  -- For a name of fewer than ten characters the registry answers the first command that has
  -- exactly this name.
  pub find_command_lem :
      (m : Memory) (name : ℕ) (es : List (Entry World)) (w : List ℕ)
      → Bytes m
      → Named m es
      → IsText m name w
      → length w < command_name_len
      → Found w es (find_command m name (commands es))
  unfolding find_command
  find_command_lem m name [] w bytes hes hw short = refl
  find_command_lem m name ((cmd, v) ∷ es) w bytes hes hw short =
      let iff = has_name_iff m name bytes cmd v w hes.0 hw short in
      elim (Bool-cases (has_name m name cmd)) [
        | inl hit ↦ rw hit (inl (iff.0 hit, refl))
        | inr miss ↦
            rw miss
              (inr ((λ e. cc (miss, iff.1 e)), find_command_lem m name es w bytes hes.1 hw short))
      ]

  -- A name of ten characters or more is the name of no typed word.
  pub has_name-long :
      (m : Memory) (name : ℕ) (cmd : HushCommand World) (v w : List ℕ)
      → IsText m cmd.name v
      → IsText m name w
      → length w < command_name_len
      → command_name_len ≤ length v
      → has_name m name cmd ≡ false
  unfolding has_name
  has_name-long m name cmd v w hv hw short long =
      let len = strnlen_lem m name (length w) command_name_len (IsString-text m name w hw) in
      let entry_len =
        strnlen_lem m cmd.name (length v) command_name_len (IsString-text m cmd.name v hv) in
      rw (len, entry_len) (ground arith)
