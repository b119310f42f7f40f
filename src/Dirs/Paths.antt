-- ===== src/Dirs/Paths.antt =====
-- skipelem of fs.c takes the components of a path one after the other.
use computer_science_project.Prelude.{
  ℕ, ◌<◌, ◌≤◌, ◌≡◌, ◌⊎◌, ◌∙◌, refl, ap, sym, inl, inr, false, Option, none, some, List, [], ◌∷◌,
  ◌==◌, if◌then◌else◌, length, arith, Bool-cases,
}
use computer_science_project.Dirs.{slash, is_end, skip_slashes, element, behind, put_name, skipelem}

-- The pieces of a path between the slashes, at least one.
abbrev pub first_piece : List ℕ → List ℕ
first_piece [] = []
first_piece (c ∷ p) = let rest = first_piece p in if c == slash then [] else c ∷ rest

abbrev pub more_pieces : List ℕ → List (List ℕ)
more_pieces [] = []
more_pieces (c ∷ p) = let rest = more_pieces p in if c == slash then first_piece p ∷ rest else rest

abbrev pub non_empty : List (List ℕ) → List (List ℕ)
non_empty [] = []
non_empty (w ∷ ws) = let rest = non_empty ws in if is_end w then rest else w ∷ rest

-- The pieces that are not empty.
abbrev pub components : List ℕ → List (List ℕ)
components p = non_empty (first_piece p ∷ more_pieces p)

components-skip_slashes : (p : List ℕ) → components (skip_slashes p) ≡ components p
unfolding skip_slashes
components-skip_slashes [] = refl
components-skip_slashes (c ∷ p) = ground (arith, components-skip_slashes p)

behind-more_pieces : (p : List ℕ) → components (behind p) ≡ non_empty (more_pieces p)
unfolding behind
behind-more_pieces [] = refl
behind-more_pieces (c ∷ p) = ground (arith, behind-more_pieces p)

length-skip_slashes : (p : List ℕ) → length (skip_slashes p) ≤ length p
unfolding skip_slashes
length-skip_slashes [] = omega arith
length-skip_slashes (c ∷ p) = ground (arith, length-skip_slashes p)

length-behind : (p : List ℕ) → length (behind p) ≤ length p
unfolding behind
length-behind [] = omega arith
length-behind (c ∷ p) = ground (arith, length-behind p)

-- A path is at its end, or begins with a byte that is no slash.
IsTrimmed : List ℕ → Type 0
IsTrimmed [] = Unit
IsTrimmed (c ∷ p) = (c == slash) ≡ false

skip_slashes-IsTrimmed : (p : List ℕ) → IsTrimmed (skip_slashes p)
unfolding skip_slashes IsTrimmed
skip_slashes-IsTrimmed [] = tt
skip_slashes-IsTrimmed (c ∷ p) = elim (Bool-cases (c == slash)) [
  | inl t ↦ rw t (skip_slashes-IsTrimmed p)
  | inr f ↦ rw f f
]

is_end-components : (p : List ℕ) → IsTrimmed p → is_end (components p) ≡ is_end p
unfolding IsTrimmed
is_end-components [] h = refl
is_end-components (c ∷ p) h = rw h refl

-- What a round of skipelem does with the components.
abbrev pub IsRound : List ℕ → List ℕ → Option (List ℕ × List ℕ) → Type 0
IsRound path name o =
    ((o ≡ none) × (components path ≡ []))
    ⊎ ((e : List ℕ) × (rest : List ℕ) × (o ≡ some (rest, put_name e name))
        × (components path ≡ e ∷ components rest)
        × (is_end (components rest) ≡ is_end rest)
        × (length rest < length path))

shorter :
    (c : ℕ) (p : List ℕ)
    → (c == slash) ≡ false
    → length (skip_slashes (behind (c ∷ p))) < length (c ∷ p)
unfolding behind
shorter c p h = rw h (omega (arith, length-skip_slashes (behind p), length-behind p))

from_trimmed :
    (p name : List ℕ)
    → IsTrimmed p
    → IsRound p name
        (if is_end p then none else some (skip_slashes (behind p), put_name (element p) name))
unfolding IsTrimmed element behind
from_trimmed [] name h = inl (refl, refl)
from_trimmed (c ∷ p) name h = inr (
  element (c ∷ p),
  skip_slashes (behind (c ∷ p)),
  refl,
  rw h (
      ap (λ ws. (c ∷ first_piece p) ∷ ws)
        (sym (components-skip_slashes (behind p) ∙ behind-more_pieces p))),
  is_end-components (skip_slashes (behind (c ∷ p))) (skip_slashes-IsTrimmed (behind (c ∷ p))),
  shorter c p h,
)

pub skipelem_lem : (path name : List ℕ) → IsRound path name (skipelem path name)
unfolding skipelem
skipelem_lem path name =
    elim (from_trimmed (skip_slashes path) name (skip_slashes-IsTrimmed path)) [
      | inl (e, all) ↦ inl (e, sym (components-skip_slashes path) ∙ all)
      | inr (w, rest, e, all, ends, lt) ↦ inr (
        w,
        rest,
        e,
        sym (components-skip_slashes path) ∙ all,
        ends,
        omega (arith, lt, length-skip_slashes path),
      )
    ]
