-- ===== src/Lc2k/Labels.antt =====
-- The label table of assemble.c: what find_idx finds, and what the first pass leaves.
use computer_science_project.Prelude.{
  ℕ, zero, suc, ◌+◌, ◌≤◌, ◌<◌, ◌≡◌, ◌≢◌, ◌⊎◌, inl, inr, true, false, none, some, List, [], ◌∷◌,
  arith, ltb, ◌&&◌, get_or, same_text, same_text_refl, same_text-eq, Bool-cases, Option-cases,
}
use computer_science_project.Lc2k.Assembler.{Name, find_from, find_idx}

-- `m` is the first index of the name in the table.
abbrev pub IsFirst : Name → List Name → ℕ → Type 0
IsFirst name ls m = (get_or ls m [] ≡ name) × ((j : ℕ) → j < m → get_or ls j [] ≢ name)

same_text-ne : (l name : Name) → same_text l name ≡ false → l ≢ name
same_text-ne l name f e = let t : same_text l name ≡ true = rw e (same_text_refl name) in cc

ne_cons :
    (name l : Name) (ls : List Name) (m : ℕ)
    → l ≢ name
    → ((j : ℕ) → j < m → get_or ls j [] ≢ name)
    → (j : ℕ) → j < suc m
    → get_or (l ∷ ls) j [] ≢ name
ne_cons name l ls m ne all zero h = ne
ne_cons name l ls m ne all (suc j) h = all j (omega arith)

found_at_end :
    (name : Name) (ed i k : ℕ) → find_from name ed i [] ≡ some k → (k ≡ i) × (i < ed) × ([] ≡ name)
unfolding find_from
found_at_end name ed i k h = elim (Bool-cases (ltb i ed && same_text [] name)) [
  | inl t ↦ (ground arith, ground arith, same_text-eq [] name (ground arith))
  | inr f ↦ absurd (ground arith)
]

found_in_cons :
    (name l : Name) (ed i : ℕ) (ls : List Name) (k : ℕ)
    → find_from name ed i (l ∷ ls) ≡ some k
    → ((k ≡ i) × (i < ed) × (l ≡ name))
      ⊎ ((i < ed) × (l ≢ name) × (find_from name ed (i + 1) ls ≡ some k))
unfolding find_from
found_in_cons name l ed i ls k h = elim (Bool-cases (same_text l name)) [
  | inl t ↦ inl (ground arith, ground arith, same_text-eq l name t)
  | inr f ↦ inr (ground arith, same_text-ne l name f, ground arith)
]

find_from-IsFirst :
    (name : Name) (ed i : ℕ) (ls : List Name) (k : ℕ)
    → find_from name ed i ls ≡ some k
    → (m : ℕ) × (k ≡ i + m) × (k < ed) × IsFirst name ls m
find_from-IsFirst name ed i [] k h =
    let (e, lt, n) = found_at_end name ed i k h in
    (0, omega arith, omega arith, (n, λ j lt. absurd (omega arith)))
find_from-IsFirst name ed i (l ∷ ls) k h = elim (found_in_cons name l ed i ls k h) [
  | inl (e, lt, n) ↦ (0, omega arith, omega arith, (n, λ j lt. absurd (omega arith)))
  | inr (lt, ne, later) ↦
      let (m, e, below, (here, first)) = find_from-IsFirst name ed (i + 1) ls k later in
      (suc m, omega arith, below, (here, ne_cons name l ls m ne first))
]

-- An index that find_idx returns is below the bound and is that of the first line with the label.
pub find_idx_sound :
    (name : Name) (ed : ℕ) (ls : List Name) (k : ℕ)
    → find_idx name ed ls ≡ some k
    → (k < ed) × IsFirst name ls k
unfolding find_idx
find_idx_sound name ed ls k h =
    let (m, e, below, first) = find_from-IsFirst name ed 0 ls k h in
    let e' : k ≡ m = omega arith in rw e' (omega arith, first)

find_from-none :
    (name : Name) (ed i : ℕ) (ls : List Name)
    → find_from name ed i ls ≡ none
    → (m : ℕ) → i + m < ed
    → get_or ls m [] ≢ name
unfolding find_from
find_from-none name ed i [] h m lt e = ground (arith, same_text_refl name)
find_from-none name ed i (l ∷ ls) h zero lt e = ground (arith, same_text_refl name)
find_from-none name ed i (l ∷ ls) h (suc m) lt e =
    find_from-none name ed (i + 1) ls (ground arith) m (omega arith) e

-- A -1 means that none of the first `ed` entries of the table is the name.
pub find_idx_complete :
    (name : Name) (ed : ℕ) (ls : List Name)
    → find_idx name ed ls ≡ none
    → (m : ℕ) → m < ed
    → get_or ls m [] ≢ name
unfolding find_idx
find_idx_complete name ed ls h m lt = find_from-none name ed 0 ls h m (omega arith)

-- A search that is cut off at or before the place of the label finds nothing.
pub find_idx-cut_off :
    (name : Name) (ed cut : ℕ) (ls : List Name) (k : ℕ)
    → find_idx name ed ls ≡ some k
    → cut ≤ k
    → find_idx name cut ls ≡ none
find_idx-cut_off name ed cut ls k h le = elim (Option-cases (find_idx name cut ls)) [
  | inl e ↦ e
  | inr (j, e) ↦
      let (lt, (here, first)) = find_idx_sound name ed ls k h in
      let (lt', (here', first')) = find_idx_sound name cut ls j e in
      absurd (first j (omega arith) here')
]
