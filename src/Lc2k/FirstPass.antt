-- ===== src/Lc2k/FirstPass.antt =====
-- The label table that the first pass of assemble.c leaves.
use computer_science_project.Prelude.{
  ℕ, ◌+◌, ◌-◌, ◌≤◌, ◌<◌, ◌≡◌, refl, ◌≢◌, false, List, [], ◌∷◌, ◌++◌, arith, dec_lt, ltb, length,
  get_or, All, All-append, length-append, get_or-append_left, get_or-append_end,
}
use computer_science_project.Lc2k.Assembler
use computer_science_project.Lc2k.Assembler.{
  Name, Line, Result, ok, err, ◌>>=◌, ◌>>◌, refuse, find_idx, is_duplicate, first_pass,
  read_and_parse, max_label,
}
use computer_science_project.Lc2k.Labels.{find_idx_complete}

-- Two lines with the same label are one line.
abbrev pub IsUnique : List Name → Type 0
IsUnique ls =
    (i j : ℕ) → i < j → j < length ls → get_or ls j [] ≢ [] → get_or ls i [] ≢ get_or ls j []

abbrev pub FitsName : Name → Type 0
FitsName l = length l ≤ 6

first_pass_inv :
    (labels : List Name) (line : List ℕ) (lines : List (List ℕ)) (table : List Name)
    → first_pass labels (line ∷ lines) ≡ ok table
    → (p : Line) × (length p.label ≤ 6)
      × (is_duplicate labels p.label ≡ false)
      × (first_pass (labels ++ p.label ∷ []) lines ≡ ok table)
first_pass_inv labels line lines table h = on (read_and_parse line) (unfold first_pass in h)
  where
    on :
        (r : Result Line)
        → (r >>= λ p.
            refuse (ltb 6 (length p.label)) Assembler.label_too_long
            >> (refuse (is_duplicate labels p.label) Assembler.duplicate_label
                >> first_pass (labels ++ p.label ∷ []) lines))
          ≡ ok table
        → (p : Line) × (length p.label ≤ 6)
          × (is_duplicate labels p.label ≡ false)
          × (first_pass (labels ++ p.label ∷ []) lines ≡ ok table)
    on (ok p) e = (p, ground arith, ground arith, ground arith)
    on (err x) e = cc

new_label :
    (labels : List Name) (l : Name)
    → is_duplicate labels l ≡ false
    → length labels < max_label
    → l ≢ []
    → (i : ℕ) → i < length labels
    → get_or labels i [] ≢ l
unfolding is_duplicate
new_label labels [] d small ne i h = absurd (ne refl)
new_label labels (c ∷ s) d small ne i h =
    find_idx_complete (c ∷ s) (max_label - 1) labels (ground arith) i (omega arith)

append-IsUnique :
    (labels : List Name) (l : Name)
    → IsUnique labels
    → is_duplicate labels l ≡ false
    → length labels < max_label
    → IsUnique (labels ++ l ∷ [])
append-IsUnique labels l u d small i j lt below = elim (dec_lt j (length labels)) [
  | yes h ↦
      rw
        (
          get_or-append_left labels (l ∷ []) j [] h,
          get_or-append_left labels (l ∷ []) i [] (omega arith),
        )
        (u i j lt h)
  | no h ↦
      let e : j ≡ length labels = omega (arith, length-append labels (l ∷ [])) in
      rw (e, get_or-append_end labels l [], get_or-append_left labels (l ∷ []) i [] (omega arith))
        (λ ne. new_label labels l d small ne i (omega arith))
]

first_pass-from :
    (labels : List Name) (lines : List (List ℕ)) (table : List Name)
    → first_pass labels lines ≡ ok table
    → IsUnique labels
    → All FitsName labels
    → length labels + length lines ≤ max_label
    → IsUnique table × All FitsName table × (length table ≡ length labels + length lines)
first_pass-from labels [] table h u fit small =
    let e : labels ≡ table = (unfold first_pass in ground (arith, h)) in
    rw (← e) (u, fit, omega arith)
first_pass-from labels (line ∷ lines) table h u fit small =
    let (p, short, d, rest) = first_pass_inv labels line lines table h in
    let n = length-append labels (p.label ∷ []) in
    let (u', fit', len) =
      first_pass-from (labels ++ p.label ∷ []) lines table rest
        (append-IsUnique labels p.label u d (omega arith))
        (All-append FitsName labels (p.label ∷ []) fit (short, tt)) (omega arith) in
    (u', fit', omega arith)

-- Where the first pass ends without an error, on at most 987654 lines, the label table has one entry
-- for each line, no two lines have the same nonempty label, and no label is longer than six
-- characters.
pub first_pass_lem :
    (lines : List (List ℕ)) (table : List Name)
    → first_pass [] lines ≡ ok table
    → length lines ≤ max_label
    → IsUnique table × All FitsName table × (length table ≡ length lines)
first_pass_lem lines table h small =
    let (u, fit, len) =
      first_pass-from [] lines table h (λ i j lt below. absurd (omega arith)) tt (omega arith) in
    (u, fit, omega arith)
