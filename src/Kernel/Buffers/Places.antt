-- ===== src/Kernel/Buffers/Places.antt =====
-- Lists of buffers: the search from the end, counting, and the removal of one.
use computer_science_project.Prelude.{
  ℕ, zero, suc, ◌+◌, ◌<◌, ◌≡◌, refl, ap, inl, inr, Bool, true, false, none, some, List, [], ◌∷◌,
  length, get_or, set, remove, if◌then◌else◌, arith, Bool-cases, Option-cases, All,
}
use computer_science_project.Kernel.Buffers.{find_last}

pub find_last_sound {ℓ} :
    {A : Type ℓ} (test : A → Bool) (d : A) (xs : List A) (k : ℕ)
    → find_last test xs ≡ some k
    → (k < length xs) × (test (get_or xs k d) ≡ true)
unfolding find_last
find_last_sound test d [] k h = absurd (ground arith)
find_last_sound test d (x ∷ xs) k h = elim (Option-cases (find_last test xs)) [
  | inr (i, at) ↦
      let (lt, t) = find_last_sound test d xs i at in
      let e : k ≡ suc i = ground arith in rw e (omega arith, t)
  | inl none_later ↦ elim (Bool-cases (test x)) [
    | inl t ↦ let e : k ≡ 0 = ground arith in rw e (omega arith, t)
    | inr f ↦ absurd (ground arith)
  ]
]

pub find_last_complete {ℓ} :
    {A : Type ℓ} (test : A → Bool) (xs : List A)
    → find_last test xs ≡ none
    → All (λ x. test x ≡ false) xs
unfolding find_last
find_last_complete test [] h = tt
find_last_complete test (x ∷ xs) h = elim (Option-cases (find_last test xs)) [
  | inr (i, at) ↦ absurd (ground arith)
  | inl none_later ↦ elim (Bool-cases (test x)) [
    | inl t ↦ absurd (ground arith)
    | inr f ↦ (f, find_last_complete test xs none_later)
  ]
]

abbrev pub one_if : Bool → ℕ
one_if b = if b then 1 else 0

module _ {ℓ} {A : Type ℓ} (test : A → Bool) (d : A) where
  -- How many pass the test.
  abbrev pub tally : List A → ℕ
  tally [] = 0
  tally (x ∷ xs) = one_if (test x) + tally xs

  pub tally-set :
      (xs : List A) (i : ℕ) (v : A)
      → i < length xs
      → tally (set xs i v) + one_if (test (get_or xs i d)) ≡ tally xs + one_if (test v)
  tally-set [] i v lt = absurd (omega arith)
  tally-set (x ∷ xs) zero v lt = omega arith
  tally-set (x ∷ xs) (suc i) v lt = let rest = tally-set xs i v (omega arith) in omega arith

  pub tally-remove :
      (xs : List A) (i : ℕ)
      → i < length xs
      → tally (remove i xs) + one_if (test (get_or xs i d)) ≡ tally xs
  tally-remove [] i lt = absurd (omega arith)
  tally-remove (x ∷ xs) zero lt = omega arith
  tally-remove (x ∷ xs) (suc i) lt = let rest = tally-remove xs i (omega arith) in omega arith

  pub tally-none : (xs : List A) → All (λ x. test x ≡ false) xs → tally xs ≡ 0
  tally-none [] all = refl
  tally-none (x ∷ xs) all = let rest = tally-none xs all.1 in rw all.0 (omega arith)

  pub none-tally : (xs : List A) → tally xs ≡ 0 → All (λ x. test x ≡ false) xs
  none-tally [] e = tt
  none-tally (x ∷ xs) e = elim (Bool-cases (test x)) [
    | inl t ↦ absurd (ground arith)
    | inr f ↦ (f, none-tally xs (ground arith))
  ]

module _ {ℓ} {A : Type ℓ} where
  pub remove-set : (xs : List A) (i : ℕ) (v : A) → remove i (set xs i v) ≡ remove i xs
  remove-set [] i v = refl
  remove-set (x ∷ xs) zero v = refl
  remove-set (x ∷ xs) (suc i) v = ap (λ ys. x ∷ ys) (remove-set xs i v)

  pub All-remove {κ} : (P : A → Type κ) (xs : List A) (i : ℕ) → All P xs → All P (remove i xs)
  All-remove P [] i all = tt
  All-remove P (x ∷ xs) zero all = all.1
  All-remove P (x ∷ xs) (suc i) all = (all.0, All-remove P xs i all.1)
