-- ===== src/Log/Absorb.antt =====
-- The loop of log_write of log.c.
use computer_science_project.Prelude.{
  ℕ, ◌+◌, ◌≤◌, ◌≡◌, inl, inr, refl, Bool, true, false, List, [], ◌∷◌, ◌==◌, if◌then◌else◌, length,
  arith, Bool-cases, ==_iff,
}
use computer_science_project.Log.{absorb}
use computer_science_project.Log.Redo.{in_header}

pub length-absorb : (b : ℕ) (lh : List ℕ) → length (absorb b lh) ≤ length lh + 1
unfolding absorb
length-absorb b [] = omega arith
length-absorb b (c ∷ lh) = elim (Bool-cases (c == b)) [
  | inl t ↦ rw t (omega arith)
  | inr f ↦ rw f (omega (arith, length-absorb b lh))
]

once : (x : Bool) → true ≡ (if x then true else true)
once true = refl
once false = refl

twice : (x y : Bool) → (if x then true else y) ≡ (if x then true else if x then true else y)
twice true y = refl
twice false y = refl

-- The loop of log_write leaves exactly the blocks that the header had, and the one that is written.
pub in_absorb :
    (b j : ℕ) (lh : List ℕ) → in_header j (absorb b lh) ≡ (if j == b then true else in_header j lh)
unfolding absorb
in_absorb b j [] = refl
in_absorb b j (c ∷ lh) = elim (Bool-cases (c == b)) [
  | inr f ↦ elim (Bool-cases (j == c)) [
    | inl e ↦ rw (f, e) (once (j == b))
    | inr g ↦ rw (f, g) (in_absorb b j lh)
  ]
  | inl t ↦ let same : c ≡ b = (==_iff c b).0 t in rw (t, same) (twice (j == b) (in_header j lh))
]
