-- ===== src/Prelude/Search.antt =====
-- The search loops of the programs: the index of the first entry of an array that passes a test.
use computer_science_project.Prelude.Lists.{length, get_or}
use computer_science_project.Prelude.Tests.{if◌then◌else◌, Bool-cases}
use Prim.Native.Nat.{ℕ, zero, suc, ◌<◌}
use mathlib.Core.Path.{◌≡◌, refl}
use mathlib.Core.Logic.{inl, inr}
use mathlib.Core.Bool.{Bool, true, false}
use mathlib.Core.Option.{Option, none, some}
use mathlib.Core.List.{List, [], ◌∷◌}
use native.Mathlib.Omega.{arith}

abbrev pub plus_one : Option ℕ → Option ℕ
plus_one none = none
plus_one (some i) = some (suc i)

unfoldable pub find_index {ℓ} : {A : Type ℓ} → (A → Bool) → List A → Option ℕ
find_index test [] = none
find_index test (x ∷ xs) =
    let rest = plus_one (find_index test xs) in if test x then some 0 else rest

-- `k` is the first index whose entry passes the test.
abbrev pub IsFirstIndex {ℓ} : {A : Type ℓ} → (A → Bool) → List A → A → ℕ → Type 0
IsFirstIndex test xs d k =
    (k < length xs)
    × (test (get_or xs k d) ≡ true)
    × ((j : ℕ) → j < k → test (get_or xs j d) ≡ false)

plus_one-some : (o : Option ℕ) (k : ℕ) → plus_one o ≡ some k → (m : ℕ) × (o ≡ some m) × (k ≡ suc m)
plus_one-some none k h = absurd (ground arith)
plus_one-some (some m) k h = (m, refl, ground arith)

plus_one-none : (o : Option ℕ) → plus_one o ≡ none → o ≡ none
plus_one-none none h = refl
plus_one-none (some m) h = absurd (ground arith)

module _ {ℓ} {A : Type ℓ} (test : A → Bool) (d : A) where
  later :
      (x : A) (xs : List A) (k : ℕ)
      → test x ≡ false
      → IsFirstIndex test xs d k
      → IsFirstIndex test (x ∷ xs) d (suc k)
  later x xs k f (lt, t, before) = (omega arith, t, below)
    where
      below : (j : ℕ) → j < suc k → test (get_or (x ∷ xs) j d) ≡ false
      below zero h = f
      below (suc j) h = before j (omega arith)

  pub find_index_sound :
      (xs : List A) (k : ℕ) → find_index test xs ≡ some k → IsFirstIndex test xs d k
  unfolding find_index
  find_index_sound [] k h = absurd (ground arith)
  find_index_sound (x ∷ xs) k h = elim (Bool-cases (test x)) [
    | inl t ↦ let e : k ≡ 0 = ground arith in rw e (omega arith, t, λ j lt. absurd (omega arith))
    | inr f ↦
        let (m, o, e) = plus_one-some (find_index test xs) k (ground arith) in
        rw e (later x xs m f (find_index_sound xs m o))
  ]

  pub find_index_complete :
      (xs : List A)
      → find_index test xs ≡ none
      → (j : ℕ) → j < length xs
      → test (get_or xs j d) ≡ false
  unfolding find_index
  find_index_complete [] h j lt = absurd (omega arith)
  find_index_complete (x ∷ xs) h zero lt = ground arith
  find_index_complete (x ∷ xs) h (suc j) lt =
      find_index_complete xs (plus_one-none (find_index test xs) (ground arith)) j (omega arith)
