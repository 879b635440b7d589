-- ===== src/Sched/Mlfq/Ahead.antt =====
-- How many processes the scheduler switches into before one that waits on its three queues.
use horizon_os.Prelude.{
  ℕ, ◌+◌, ◌*◌, ◌≤◌, ◌<◌, ◌≡◌, ◌≢◌, refl, ap, inl, inr, Bool, true, false, ◌||◌, List, [], ◌∷◌, ◌++◌,
  arith, ◌==◌, if◌then◌else◌, length, length-append, Bool-cases,
}
use horizon_os.Sched.Lists.{elem}

-- How many stand before `p` on a list.
abbrev pub index : ℕ → List ℕ → ℕ
index p [] = 0
index p (x ∷ xs) = if p == x then 0 else 1 + index p xs

abbrev pub waits : ℕ → List ℕ → List ℕ → List ℕ → Bool
waits p q₀ q₁ q₂ = elem p q₀ || (elem p q₁ || elem p q₂)

-- A process that leaves a level goes one level down, so one on the top level runs twice more before
-- it stands behind a process of the last.
abbrev pub ahead : ℕ → List ℕ → List ℕ → List ℕ → ℕ
ahead p q₀ q₁ q₂ =
    if elem p q₀
    then index p q₀
    else if elem p q₁
    then length q₀ + index p q₁
    else 2 * length q₀ + length q₁ + index p q₂

pub index_lt : (p : ℕ) (xs : List ℕ) → elem p xs ≡ true → index p xs < length xs
index_lt p [] h = cc
index_lt p (x ∷ xs) h = elim (Bool-cases (p == x)) [
  | inl e ↦ rw e (omega arith)
  | inr e ↦ rw e (let rest : elem p xs ≡ true = rw e at h in omega (arith, index_lt p xs rest))
]

pub ahead-lt :
    (p : ℕ) (q₀ q₁ q₂ : List ℕ)
    → waits p q₀ q₁ q₂ ≡ true
    → ahead p q₀ q₁ q₂ < 3 * (length q₀ + length q₁ + length q₂)
ahead-lt p q₀ q₁ q₂ w = elim (Bool-cases (elem p q₀)) [
  | inl e ↦ let i = index_lt p q₀ e in rw e (omega (arith, i))
  | inr e ↦ elim (Bool-cases (elem p q₁)) [
    | inl f ↦ let i = index_lt p q₁ f in rw (e, f) (omega (arith, i))
    | inr f ↦ let i = index_lt p q₂ (rw (e, f) at w) in rw (e, f) (omega (arith, i))
  ]
]

-- A list to which at most one process other than `p` was added at the end.
pub record Behind (p : ℕ) (xs ys : List ℕ) : Type 0 where
  pub same : elem p ys ≡ elem p xs
  pub place : elem p xs ≡ true → index p ys ≡ index p xs
  pub size : length ys ≤ length xs + 1

pub unchanged : (p : ℕ) (xs : List ℕ) → Behind p xs xs
unchanged p xs = record { same = refl; place = λ h. refl; size = omega arith }

elem-append : (p x : ℕ) (xs : List ℕ) → p ≢ x → elem p (xs ++ x ∷ []) ≡ elem p xs
elem-append p x [] ne = ground arith
elem-append p x (y ∷ ys) ne = ap (λ b. (p == y) || b) (elem-append p x ys ne)

index-append : (p : ℕ) (xs ys : List ℕ) → elem p xs ≡ true → index p (xs ++ ys) ≡ index p xs
index-append p [] ys h = cc
index-append p (x ∷ xs) ys h = elim (Bool-cases (p == x)) [
  | inl e ↦ rw e refl
  | inr e ↦ rw e (ap (λ n. 1 + n) (index-append p xs ys (rw e at h)))
]

pub appended : (p x : ℕ) (xs : List ℕ) → p ≢ x → Behind p xs (xs ++ x ∷ [])
appended p x xs ne = record {
  same = elem-append p x xs ne;
  place = λ h. index-append p xs (x ∷ []) h;
  size = omega (arith, length-append xs (x ∷ []));
}

-- Whichever level the oldest process is taken from, one that waits is nearer to its turn.
module _ (p x : ℕ) (ne : p ≢ x) where
  test : (p == x) ≡ false
  test = ground arith

  abbrev pub Nearer : List ℕ → List ℕ → List ℕ → List ℕ → List ℕ → List ℕ → Type 0
  Nearer q₀ q₁ q₂ r₀ r₁ r₂ = (waits p r₀ r₁ r₂ ≡ true) × (ahead p r₀ r₁ r₂ < ahead p q₀ q₁ q₂)

  pub Nearer-first :
      (q₀ q₁ q₂ r₁ r₂ : List ℕ)
      → waits p (x ∷ q₀) q₁ q₂ ≡ true
      → Behind p q₁ r₁
      → Behind p q₂ r₂
      → Nearer (x ∷ q₀) q₁ q₂ q₀ r₁ r₂
  Nearer-first q₀ q₁ q₂ r₁ r₂ h b c = elim (Bool-cases (elem p q₀)) [
    | inl e ↦ ground (arith, test, e)
    | inr e ↦ elim (Bool-cases (elem p q₁)) [
      | inl f ↦ ground (arith, test, e, f, b.same, b.place f)
      | inr f ↦
          let g : elem p q₂ ≡ true = ground (arith, test, e, f, h) in
          ground (arith, test, e, f, g, b.same, b.size, c.same, c.place g)
    ]
  ]

  pub Nearer-second :
      (q₁ q₂ r₂ : List ℕ)
      → waits p [] (x ∷ q₁) q₂ ≡ true
      → Behind p q₂ r₂
      → Nearer [] (x ∷ q₁) q₂ [] q₁ r₂
  Nearer-second q₁ q₂ r₂ h c = elim (Bool-cases (elem p q₁)) [
    | inl f ↦ ground (arith, test, f)
    | inr f ↦
        let g : elem p q₂ ≡ true = ground (arith, test, f, h) in
        ground (arith, test, f, g, c.same, c.place g)
  ]

  pub Nearer-third :
      (q₂ r₂ : List ℕ)
      → waits p [] [] (x ∷ q₂) ≡ true
      → Behind p q₂ r₂
      → Nearer [] [] (x ∷ q₂) [] [] r₂
  Nearer-third q₂ r₂ h c =
      let g : elem p q₂ ≡ true = ground (arith, test, h) in
      ground (arith, test, g, c.same, c.place g)
