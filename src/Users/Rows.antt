-- ===== src/Users/Rows.antt =====
-- The searches over the table of accounts.
use computer_science_project.Prelude.{
  ℕ, zero, suc, ◌+◌, ◌<◌, ◌≡◌, ap, ◌∙◌, inl, inr, Bool, true, false, none, some, List, [], ◌∷◌,
  arith, dec_lt, get_or, length, Bool-cases, Option-cases,
}
use computer_science_project.Users.{Row, blank_row, find_row}

-- `m` is the first of the first n rows that passes the test.
abbrev pub IsFirstRow : (Row → Bool) → ℕ → List Row → ℕ → Type 0
IsFirstRow test n rows m =
    (m < n)
    × (m < length rows)
    × (test (get_or rows m blank_row) ≡ true)
    × ((j : ℕ) → j < m → test (get_or rows j blank_row) ≡ false)

before_cons :
    (test : Row → Bool) (r : Row) (rows : List Row) (m : ℕ)
    → test r ≡ false
    → ((j : ℕ) → j < m → test (get_or rows j blank_row) ≡ false)
    → (j : ℕ) → j < suc m
    → test (get_or (r ∷ rows) j blank_row) ≡ false
before_cons test r rows m f all zero h = f
before_cons test r rows m f all (suc j) h = all j (omega arith)

find_row-from :
    (test : Row → Bool) (n i : ℕ) (rows : List Row) (k : ℕ)
    → find_row test n i rows ≡ some k
    → (m : ℕ) × (k ≡ i + m) × IsFirstRow test n rows m
unfolding find_row
find_row-from test zero i rows k h = cc
find_row-from test (suc n) i [] k h = cc
find_row-from test (suc n) i (r ∷ rows) k h = elim (Bool-cases (test r)) [
  | inl t ↦ (0, ground arith, (omega arith, omega arith, t, λ j lt. absurd (omega arith)))
  | inr f ↦
      let (m, e, (lt, len, t, first)) = find_row-from test n (i + 1) rows k (ground arith) in
      (suc m, omega arith, (omega arith, omega arith, t, before_cons test r rows m f first))
]

pub find_row_sound :
    (test : Row → Bool) (n : ℕ) (rows : List Row) (k : ℕ)
    → find_row test n 0 rows ≡ some k
    → IsFirstRow test n rows k
find_row_sound test n rows k h =
    let (m, e, first) = find_row-from test n 0 rows k h in
    let e' : k ≡ m = omega arith in rw e' first

find_row-none_from :
    (test : Row → Bool) (n i : ℕ) (rows : List Row)
    → find_row test n i rows ≡ none
    → (j : ℕ) → j < n
    → j < length rows
    → test (get_or rows j blank_row) ≡ false
unfolding find_row
find_row-none_from test zero i rows h j lt len = absurd (omega arith)
find_row-none_from test (suc n) i [] h j lt len = absurd (omega arith)
find_row-none_from test (suc n) i (r ∷ rows) h zero lt len = ground arith
find_row-none_from test (suc n) i (r ∷ rows) h (suc j) lt len =
    find_row-none_from test n (i + 1) rows (ground arith) j (omega arith) (omega arith)

pub find_row_complete :
    (test : Row → Bool) (n : ℕ) (rows : List Row)
    → find_row test n 0 rows ≡ none
    → (j : ℕ) → j < n
    → j < length rows
    → test (get_or rows j blank_row) ≡ false
find_row_complete test n rows h = find_row-none_from test n 0 rows h

-- A row that passes, with none before it, is what the search finds.
pub find_row-first :
    (test : Row → Bool) (n : ℕ) (rows : List Row) (m : ℕ)
    → IsFirstRow test n rows m
    → find_row test n 0 rows ≡ some m
find_row-first test n rows m (lt, len, t, first) = elim (Option-cases (find_row test n 0 rows)) [
  | inl e ↦ absurd (both_values (find_row_complete test n rows e m lt len) t)
  | inr (k, e) ↦
      let (lt', len', t', first') = find_row_sound test n rows k e in
      e ∙ ap some (same k m t' t first first')
]
  where
    both_values : {b : Bool} → b ≡ false → b ≡ true → ⊥
    both_values p q = cc

    same :
        (k m : ℕ)
        → test (get_or rows k blank_row) ≡ true
        → test (get_or rows m blank_row) ≡ true
        → ((j : ℕ) → j < m → test (get_or rows j blank_row) ≡ false)
        → ((j : ℕ) → j < k → test (get_or rows j blank_row) ≡ false)
        → k ≡ m
    same k m p q before_m before_k = elim (dec_lt k m) [
      | yes h ↦ absurd (both_values (before_m k h) p)
      | no h ↦ elim (dec_lt m k) [
        | yes h' ↦ absurd (both_values (before_k m h') q)
        | no h' ↦ omega arith
      ]
    ]
