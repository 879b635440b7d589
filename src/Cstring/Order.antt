-- ===== src/Cstring/Order.antt =====
-- When `strncmp` and `strcmp` answer 0, and that `strcmp` answers at all.
use horizon_os.Prelude.{
  ℕ, zero, suc, ◌+◌, ◌≤◌, ◌<◌, ◌≡◌, ◌≢◌, ◌⊎◌, ◌↔◌, inl, inr, refl, ap, sym, ◌∙◌, Option, none, some,
  arith, leb, if◌then◌else◌, ℕ_discrete, dec_lt, Option-cases,
}
use horizon_os.Prelude.Int.{ℤ, pos, ◌-ℤ◌}
use horizon_os.Cstring.{Memory, nul, char_value, compare_at, strncmp, strcmp, strcmp_loop}
use horizon_os.Cstring.Compare.{Agree, Agree-suc, IsString}

-- Every cell of memory holds a byte.
abbrev pub Bytes : Memory → Type 0
Bytes m = (a : ℕ) → m a < 256

compare_at-none : (c d : ℕ) → c ≢ nul → c ≡ d → compare_at c d ≡ none
unfolding compare_at
compare_at-none c d h e = ground arith

-- Where the bytes differ, or one is a NUL, `compare_at` answers, and answers 0 only for equal bytes.
compare_at-some :
    (c d : ℕ)
    → c < 256
    → d < 256
    → (c ≡ nul) ⊎ (c ≢ d)
    → (r : ℤ) × (compare_at c d ≡ some r) × ((r ≡ pos 0) ↔ (c ≡ d))
unfolding compare_at char_value ◌-ℤ◌
compare_at-some c d hc hd h =
    (char_value c -ℤ char_value d, ground arith, (λ e. ground arith, λ e. ground arith))

IsString-suc : {m : Memory} {s n : ℕ} → IsString m s (suc n) → IsString m (s + 1) n
IsString-suc {m} {s} {n} str = record {
  ends = ap m (shift n) ∙ str.ends;
  text = λ i h e. str.text (suc i) (omega arith) (ap m (back i) ∙ e);
}
  where
    shift : (k : ℕ) → s + 1 + k ≡ s + suc k
    shift k = omega arith

    back : (k : ℕ) → s + suc k ≡ s + 1 + k
    back k = omega arith

head-zero : {m : Memory} {s : ℕ} → IsString m s 0 → m s ≡ nul
head-zero {m} {s} str = ap m (omega arith) ∙ str.ends

head-suc : {m : Memory} {s n : ℕ} → IsString m s (suc n) → m s ≢ nul
head-suc {m} {s} str e = str.text 0 (omega arith) (ap m (omega arith) ∙ e)

-- The two strings are the same text.
abbrev pub SameText : Memory → ℕ → ℕ → ℕ → ℕ → Type 0
SameText m s t p q = (p ≡ q) × Agree m s t p

-- How the comparison of `n` characters ends, for strings of `p` and `q` characters: with no answer,
-- where both have `n` characters and agree on them; else with one that is 0 for the same text only.
abbrev pub Settled : Memory → ℕ → ℕ → ℕ → ℕ → ℕ → Option ℤ → Type 0
Settled m s t p q n out =
    (out ≡ none) × (n ≤ p) × (n ≤ q) × Agree m s t n
    ⊎ ((r : ℤ) × (out ≡ some r) × ((r ≡ pos 0) ↔ SameText m s t p q))

pub Agree-head : (m : Memory) (s t n : ℕ) → Agree m s t (suc n) → m s ≡ m t
Agree-head m s t n h = ap m (omega arith) ∙ h 0 (omega arith) ∙ ap m (omega arith)

pub Agree-tail : (m : Memory) (s t n : ℕ) → Agree m s t (suc n) → Agree m (s + 1) (t + 1) n
Agree-tail m s t n h i lt = ap m (omega arith) ∙ h (suc i) (omega arith) ∙ ap m (omega arith)

Settled-suc :
    (m : Memory) (s t p q n : ℕ) (out : Option ℤ)
    → m s ≡ m t
    → Settled m (s + 1) (t + 1) p q n out
    → Settled m s t (suc p) (suc q) (suc n) out
Settled-suc m s t p q n out h (inl (e, lp, lq, same)) =
    inl (e, omega arith, omega arith, Agree-suc m s t n h same)
Settled-suc m s t p q n out h (inr (r, e, iff)) = inr (
  r,
  e,
  (
    (λ z. let same = iff.0 z in (ap suc same.0, Agree-suc m s t p h same.1)),
    λ same. iff.1 (omega (arith, same.0), Agree-tail m s t p same.1),
  ),
)

loop-some :
    (n : ℕ) (m : Memory) (s t : ℕ) {r : ℤ}
    → compare_at (m s) (m t) ≡ some r
    → strcmp_loop (suc n) m s t ≡ some r
unfolding strcmp_loop
loop-some n m s t e = rw (e, strcmp_loop)

loop-none :
    (n : ℕ) (m : Memory) (s t : ℕ)
    → compare_at (m s) (m t) ≡ none
    → strcmp_loop (suc n) m s t ≡ strcmp_loop n m (s + 1) (t + 1)
unfolding strcmp_loop
loop-none n m s t e = rw (e, strcmp_loop)

-- The comparison ends at the first character of the two strings.
Settled-here :
    (n : ℕ) (m : Memory) (s t p q : ℕ)
    → Bytes m
    → (m s ≡ nul) ⊎ (m s ≢ m t)
    → ((m s ≡ m t) ↔ SameText m s t p q)
    → Settled m s t p q (suc n) (strcmp_loop (suc n) m s t)
Settled-here n m s t p q bytes ends iff =
    let (r, e, zero_iff) = compare_at-some (m s) (m t) (bytes s) (bytes t) ends in
    inr (r, loop-some n m s t e, ((λ z. iff.0 (zero_iff.0 z)), λ same. zero_iff.1 (iff.1 same)))

strcmp_loop_lem :
    (n : ℕ) (m : Memory) (s t p q : ℕ)
    → Bytes m
    → IsString m s p
    → IsString m t q
    → Settled m s t p q n (strcmp_loop n m s t)
unfolding strcmp_loop
strcmp_loop_lem zero m s t p q bytes a b = inl (refl, omega arith, omega arith, λ i h. elim h [ ])
strcmp_loop_lem (suc n) m s t zero zero bytes a b =
    Settled-here n m s t 0 0 bytes (inl (head-zero a))
      ((λ e. (refl, λ i h. elim h [ ])), λ same. head-zero a ∙ sym (head-zero b))
strcmp_loop_lem (suc n) m s t zero (suc q) bytes a b =
    Settled-here n m s t 0 (suc q) bytes (inl (head-zero a))
      ((λ e. absurd (head-suc b (sym e ∙ head-zero a))), λ same. absurd (omega (arith, same.0)))
strcmp_loop_lem (suc n) m s t (suc p) zero bytes a b =
    let differ : m s ≢ m t = λ e. head-suc a (e ∙ head-zero b) in
    Settled-here n m s t (suc p) 0 bytes (inr differ)
      ((λ e. absurd (differ e)), λ same. absurd (omega (arith, same.0)))
strcmp_loop_lem (suc n) m s t (suc p) (suc q) bytes a b = elim (ℕ_discrete (m s) (m t)) [
  | yes e ↦ rw (loop-none n m s t (compare_at-none (m s) (m t) (head-suc a) e)) (
      Settled-suc m s t p q n _ e
        (strcmp_loop_lem n m (s + 1) (t + 1) p q bytes (IsString-suc a) (IsString-suc b)))
  | no differ ↦
      Settled-here n m s t (suc p) (suc q) bytes (inr differ)
        ((λ e. absurd (differ e)), λ same. Agree-head m s t p same.1)
]

-- For two strings of which one has fewer than 1000 characters `strcmp` does not panic, and it
-- answers 0 exactly for the same text.
pub strcmp_lem :
    (m : Memory) (s t p q : ℕ)
    → Bytes m
    → IsString m s p
    → IsString m t q
    → (p < 1000) ⊎ (q < 1000)
    → (r : ℤ) × (strcmp m s t ≡ some r) × ((r ≡ pos 0) ↔ SameText m s t p q)
unfolding strcmp
strcmp_lem m s t p q bytes a b short = elim (strcmp_loop_lem 1000 m s t p q bytes a b) [
  | inl (e, lp, lq, same) ↦ absurd (omega arith)
  | inr answer ↦ answer
]

Agree-none :
    (n : ℕ) (m : Memory) (s t p : ℕ)
    → IsString m s p
    → n ≤ p
    → Agree m s t n
    → strcmp_loop n m s t ≡ none
unfolding strcmp_loop
Agree-none zero m s t p a le same = refl
Agree-none (suc n) m s t zero a le same = absurd (omega arith)
Agree-none (suc n) m s t (suc p) a le same =
    rw (compare_at-none (m s) (m t) (head-suc a) (Agree-head m s t n same), strcmp_loop)
      (Agree-none n m (s + 1) (t + 1) p (IsString-suc a) (omega arith) (Agree-tail m s t n same))

-- Two strings that agree on their first 1000 characters make `strcmp` panic, whether they are equal
-- or not.
pub strcmp_panics :
    (m : Memory) (s t p : ℕ) → IsString m s p → 1000 ≤ p → Agree m s t 1000 → strcmp m s t ≡ none
unfolding strcmp
strcmp_panics m s t p a long same = Agree-none 1000 m s t p a long same

-- `strncmp` is the same loop with another end.
strncmp-strcmp_loop :
    (n : ℕ) (m : Memory) (s t : ℕ)
    → strncmp m s t n ≡ elim (strcmp_loop n m s t) [ none ↦ pos 0 | some r ↦ r ]
unfolding strncmp strcmp_loop
strncmp-strcmp_loop zero m s t = refl
strncmp-strcmp_loop (suc n) m s t = elim (Option-cases (compare_at (m s) (m t))) [
  | inl e ↦ rw (e, strncmp, strcmp_loop) (strncmp-strcmp_loop n m (s + 1) (t + 1))
  | inr (r, e) ↦ rw (e, strncmp, strcmp_loop)
]

abbrev pub at_most : ℕ → ℕ → ℕ
at_most n p = if leb p n then p else n

cut_same :
    (m : Memory) (s t p q n : ℕ) → SameText m s t p q → SameText m s t (at_most n p) (at_most n q)
cut_same m s t p q n same = (ap (at_most n) same.0, λ i h. same.1 i (ground arith))

uncut :
    (m : Memory) (s t p q n : ℕ) (r : ℤ)
    → IsString m s p
    → strcmp_loop n m s t ≡ some r
    → SameText m s t (at_most n p) (at_most n q)
    → SameText m s t p q
uncut m s t p q n r a e same = elim (dec_lt p n) [
  | yes short ↦
      let whole : at_most n p ≡ p = ground arith in
      let equal : p ≡ q = ground (arith, same.0) in (equal, λ i h. same.1 i (rw whole h))
  | no long ↦
      let cut : at_most n p ≡ n = ground arith in
      let out = Agree-none n m s t p a (omega arith) (λ i h. same.1 i (rw cut h)) in
      absurd (cc (e, out))
]

-- For two strings of bytes, `strncmp` answers 0 exactly where the two, each cut off at `n`
-- characters, are the same text.
pub strncmp_lem :
    (m : Memory) (s t p q n : ℕ)
    → Bytes m
    → IsString m s p
    → IsString m t q
    → (strncmp m s t n ≡ pos 0) ↔ SameText m s t (at_most n p) (at_most n q)
strncmp_lem m s t p q n bytes a b = elim (strcmp_loop_lem n m s t p q bytes a b) [
  | inl (e, lp, lq, same) ↦
      let cut_p : at_most n p ≡ n = ground arith in
      let cut_q : at_most n q ≡ n = ground arith in
      rw (strncmp-strcmp_loop n m s t, e, cut_p, cut_q) ((λ _. (refl, same)), λ _. refl)
  | inr (r, e, iff) ↦
      rw (strncmp-strcmp_loop n m s t, e)
        ((λ z. cut_same m s t p q n (iff.0 z)), λ same. iff.1 (uncut m s t p q n r a e same))
]
