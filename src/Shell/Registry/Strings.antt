-- ===== src/Shell/Registry/Strings.antt =====
-- The strings of the registry beside the array that holds the typed name.
use horizon_os.Prelude.{
  ℕ, suc, ◌+◌, ◌≤◌, ◌≡◌, ◌≢◌, ◌⊎◌, ◌∙◌, refl, ap, List, [], ◌∷◌, ◌++◌, length, length-append, take,
  arith,
}
use horizon_os.Cstring.{Memory, nul, write_bytes, write}
use horizon_os.Cstring.Order.{Bytes}
use horizon_os.Cstring.Print.{Stands, write_bytes_outside}
use horizon_os.Shell.{command_name_len}
use horizon_os.Shell.Words.{All, IsByte, IsPlain, Texts}
use horizon_os.Shell.Registry.Lookup.{Entry, Named}

-- The C string of `n` characters at `a` has no byte in the array at `name_at`.
abbrev pub Clear : ℕ → ℕ → ℕ → Type 0
Clear name_at a n = (a + suc n ≤ name_at) ⊎ (name_at + command_name_len ≤ a)

abbrev pub AllClear : {World : Type 0} → ℕ → List (Entry World) → Type 0
AllClear name_at [] = Unit
AllClear name_at ((cmd, v) ∷ es) = Clear name_at cmd.name (length v) × AllClear name_at es

Stands-clear :
    (m : Memory) (name_at a : ℕ) (cells v : List ℕ)
    → (a + length v ≤ name_at) ⊎ (name_at + length cells ≤ a)
    → Stands m a v
    → Stands (write_bytes name_at cells m) a v
Stands-clear m name_at a cells [] clear h = tt
Stands-clear m name_at a cells (c ∷ v) clear h = (
  write_bytes_outside cells name_at a m (ground arith) ∙ h.0,
  Stands-clear m name_at (a + 1) cells v (ground arith) h.1,
)

pub Bytes-write_bytes :
    (cells : List ℕ) (a : ℕ) (m : Memory)
    → All IsByte cells
    → Bytes m
    → Bytes (write_bytes a cells m)
unfolding write_bytes write
Bytes-write_bytes [] a m h bytes = bytes
Bytes-write_bytes (c ∷ cells) a m h bytes =
    Bytes-write_bytes cells (a + 1) (write m a c) h.1 (λ b. ground (arith, bytes b, h.0))

pub Stands-prefix :
    (m : Memory) (a : ℕ) (v t : List ℕ) → Stands m a (v ++ nul ∷ t) → Stands m a (v ++ nul ∷ [])
Stands-prefix m a [] t h = (h.0, tt)
Stands-prefix m a (c ∷ v) t h = (h.0, Stands-prefix m (a + 1) v t h.1)

pub plain_text : (w : List ℕ) → All IsPlain w → All (λ c. c ≢ nul) w
plain_text [] h = tt
plain_text (c ∷ w) h = (h.0.0, plain_text w h.1)

pub Texts-take :
    (rows ws : List (List ℕ))
    → Texts rows ws
    → Texts (take (length ws) rows) ws × (length (take (length ws) rows) ≡ length ws)
Texts-take rows [] h = (tt, refl)
Texts-take [] (w ∷ ws) h = absurd h
Texts-take (row ∷ rows) (w ∷ ws) h =
    let rest = Texts-take rows ws h.1 in ((h.0, rest.0), ap suc rest.1)

pub Named-write_bytes :
    {World : Type 0} (m : Memory) (name_at : ℕ) (cells : List ℕ) (es : List (Entry World))
    → length cells ≡ command_name_len
    → AllClear name_at es
    → Named m es
    → Named (write_bytes name_at cells m) es
Named-write_bytes m name_at cells [] len clear named = tt
Named-write_bytes m name_at cells ((cmd, v) ∷ es) len clear named =
    let apart : (cmd.name + length (v ++ nul ∷ []) ≤ name_at)
        ⊎ (name_at + length cells ≤ cmd.name) =
      ground (arith, clear.0, len, length-append v (nul ∷ [])) in
    (
      (Stands-clear m name_at cmd.name cells (v ++ nul ∷ []) apart named.0.0, named.0.1),
      Named-write_bytes m name_at cells es len clear.1 named.1,
    )
