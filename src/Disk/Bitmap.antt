-- ===== src/Disk/Bitmap.antt =====
-- Single bits of the bitmap of fs.c.
use computer_science_project.Prelude.{
  ℕ, zero, suc, ◌-◌, ◌/◌, ◌%◌, ◌^◌, ◌<◌, ◌≡◌, refl, sym, bit_and, bit_or, Bool, true, false, not,
  ◌&&◌, List, ◌==◌, if◌then◌else◌, get_or, set, length, ℕ_discrete, All-get_or, arith,
  get_or-set_self, get_or-set_ne, All,
}
use computer_science_project.Disk.{is_clear, set_bit, clear_bit}

all_below : ℕ → (ℕ → Bool) → Bool
all_below zero test = true
all_below (suc n) test = test n && all_below n test

all_below_lem : (n : ℕ) (test : ℕ → Bool) (x : ℕ) → all_below n test ≡ true → x < n → test x ≡ true
unfolding all_below
all_below_lem zero test x h lt = absurd (omega arith)
all_below_lem (suc n) test x h lt = ground (arith, all_below_lem n test x)

same : Bool → Bool → Bool
same true b = b
same false b = not b

same_eq : (a b : Bool) → same a b ≡ true → a ≡ b
unfolding same
same_eq true b h = sym h
same_eq false true h = absurd (ground arith)
same_eq false false h = refl

-- What setting bit k, and clearing it, does to bit j of a byte.
abbrev bit_clear : ℕ → ℕ → Bool
bit_clear x j = bit_and x (2 ^ j) == 0

sets : ℕ → ℕ → ℕ → Bool
unfolding same
sets x k j = same (bit_clear (bit_or x (2 ^ k)) j) (if k == j then false else bit_clear x j)

clears : ℕ → ℕ → ℕ → Bool
unfolding same
clears x k j = same (bit_clear (bit_and x (255 - 2 ^ k)) j) (if k == j then true else bit_clear x j)

abbrev on_bytes : (ℕ → ℕ → ℕ → Bool) → Bool
on_bytes test = all_below 256 (λ x. all_below 8 (λ k. all_below 8 (λ j. test x k j)))

sets_table : on_bytes sets ≡ true
unfolding all_below sets same
sets_table = refl

clears_table : on_bytes clears ≡ true
unfolding all_below clears same
clears_table = refl

on_bytes_lem :
    (test : ℕ → ℕ → ℕ → Bool) (x k j : ℕ)
    → on_bytes test ≡ true
    → x < 256
    → k < 8
    → j < 8
    → test x k j ≡ true
on_bytes_lem test x k j h lt_x lt_k lt_j =
    let all_k =
      all_below_lem 256 (λ x. all_below 8 (λ k. all_below 8 (λ j. test x k j))) x h lt_x in
    let all_j = all_below_lem 8 (λ k. all_below 8 (λ j. test x k j)) k all_k lt_k in
    all_below_lem 8 (λ j. test x k j) j all_j lt_j

-- A block of the bitmap.
abbrev pub IsMap : List ℕ → Type 0
IsMap bytes = (length bytes ≡ 512) × All (λ b. b < 256) bytes

module _ (bytes : List ℕ) (ok : IsMap bytes) (bi bj : ℕ) (lt_i : bi < 4096) (lt_j : bj < 4096) where
  byte_lt : get_or bytes (bi / 8) 0 < 256
  byte_lt = All-get_or (λ b. b < 256) bytes (bi / 8) 0 ok.1 (omega arith)

  -- One bit changes, where the byte that is written has the bits that a test says.
  changed :
      (v : ℕ) (b : Bool)
      → bit_clear v (bj % 8)
        ≡ (if bi % 8 == bj % 8 then b else bit_clear (get_or bytes (bi / 8) 0) (bj % 8))
      → is_clear (set bytes (bi / 8) v) bj ≡ (if bi == bj then b else is_clear bytes bj)
  unfolding is_clear
  changed v b e = elim (ℕ_discrete (bi / 8) (bj / 8)) [
    | no ne ↦
        let other : (bi == bj) ≡ false = ground arith in
        rw (other, get_or-set_ne bytes (bi / 8) (bj / 8) v 0 ne) refl
    | yes at ↦
        let kept : (bi % 8 == bj % 8) ≡ (bi == bj) = ground arith in
        rw (← at, get_or-set_self bytes (bi / 8) v 0 (omega (arith, ok.0)), e, kept) refl
  ]

  pub is_clear-set_bit :
      is_clear (set_bit bytes bi) bj ≡ (if bi == bj then false else is_clear bytes bj)
  unfolding set_bit sets
  is_clear-set_bit =
      let x = get_or bytes (bi / 8) 0 in
      changed (bit_or x (2 ^ (bi % 8))) false (
        same_eq _ _
          (on_bytes_lem sets x (bi % 8) (bj % 8) sets_table byte_lt (omega arith) (omega arith)))

  pub is_clear-clear_bit :
      is_clear (clear_bit bytes bi) bj ≡ (if bi == bj then true else is_clear bytes bj)
  unfolding clear_bit clears
  is_clear-clear_bit =
      let x = get_or bytes (bi / 8) 0 in
      changed (bit_and x (255 - 2 ^ (bi % 8))) true (
        same_eq _ _ (
          on_bytes_lem clears x (bi % 8) (bj % 8) clears_table byte_lt (omega arith) (omega arith)))
