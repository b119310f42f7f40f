-- ===== src/Bpt/Leaf/Stale.antt =====
-- db_insert of bpt.c on a full leaf with a record that is logically deleted: the count that it tests is older
-- than the removal.
use computer_science_project.Prelude.{
  ◌≡◌, ◌≢◌, ◌⊎◌, refl, ap, inl, inr, some, List, [], ◌∷◌, ltb, arith, Bool-cases, ==-of_ne, ==_refl,
}
use computer_science_project.Prelude.Search.{find_index}
use computer_science_project.Bpt.{Record, cut}
use computer_science_project.Bpt.Insertion.{IsSorted}
use computer_science_project.Bpt.Leaf.{
  Leaf, live, slot, zero_record, point, pull_down, remove_entry, spread, split_slots, clean_leaf,
  insert_leaf, split_in_two,
}

-- The record of zero bytes is one of the two records of a leaf.
abbrev pub HoldsZero : Leaf → Type 0
HoldsZero l = (slot (live l) 0 ≡ zero_record) ⊎ (slot (live l) 1 ≡ zero_record)

-- A split of a leaf of two puts a record of zero bytes into the new leaf.
two_split :
    (r x y a b c : Record) (fresh rest : List Record)
    → HoldsZero
        (split_slots r (x ∷ y ∷ fresh) (record { num_of_keys = 2; slots = a ∷ b ∷ c ∷ rest })).1
unfolding split_slots point spread cut
two_split r x y a b c fresh rest = elim (Bool-cases (ltb a.key r.key)) [
  | inr f ↦ rw f (inr refl)
  | inl t ↦ elim (Bool-cases (ltb b.key r.key)) [
    | inr f ↦ rw (t, f) (inr refl)
    | inl u ↦ elim (Bool-cases (ltb c.key r.key)) [
      | inr f ↦ rw (t, u, f) (inr refl)
      | inl v ↦ rw (t, u, v) (inl refl)
    ]
  ]
]

-- One of three records is logically deleted.
abbrev pub OneDeleted : Record → Record → Record → Type 0
OneDeleted a b c =
    ((a.logical_del ≡ 1) × (b.logical_del ≢ 1) × (c.logical_del ≢ 1))
    ⊎ ((a.logical_del ≢ 1) × (b.logical_del ≡ 1) × (c.logical_del ≢ 1))
    ⊎ ((a.logical_del ≢ 1) × (b.logical_del ≢ 1) × (c.logical_del ≡ 1))

-- The loop takes the deleted record out, and the leaf has two.
two_left :
    (a b c : Record) (rest : List Record)
    → IsSorted (a ∷ b ∷ c ∷ [])
    → OneDeleted a b c
    → (p q s : Record) × (clean_leaf 3 0
          (a ∷ b ∷ c ∷ rest)
          (record { num_of_keys = 3; slots = a ∷ b ∷ c ∷ rest })
        ≡ some (record { num_of_keys = 2; slots = p ∷ q ∷ s ∷ rest }))
unfolding clean_leaf remove_entry find_index pull_down cut
two_left a b c rest sorted (inl (d0, d1, d2)) = (
  b,
  c,
  c,
  rw
      (
        clean_leaf,
        d0,
        ==_refl 1,
        ==_refl a.key,
        ==-of_ne b.logical_del 1 d1,
        ==-of_ne c.logical_del 1 d2,
      )
      refl,
)
two_left a b c rest sorted (inr (inl (d0, d1, d2))) = (
  a,
  c,
  c,
  rw
      (
        clean_leaf,
        ==-of_ne a.logical_del 1 d0,
        d1,
        ==-of_ne a.key b.key (omega (arith, sorted.0.0)),
        ==_refl b.key,
        ==-of_ne c.logical_del 1 d2,
      )
      refl,
)
two_left a b c rest sorted (inr (inr (d0, d1, d2))) = (
  a,
  b,
  c,
  rw
      (
        clean_leaf,
        ==-of_ne a.logical_del 1 d0,
        ==-of_ne b.logical_del 1 d1,
        d2,
        ==-of_ne a.key c.key (omega (arith, sorted.0.1.0)),
        ==-of_ne b.key c.key (omega (arith, sorted.1.0.0)),
        ==_refl c.key,
      )
      (ap
        (λ n.
          some (record { num_of_keys = 2; slots = a ∷ b ∷ record c { logical_del = n } ∷ rest }))
        d2),
)

-- db_insert on a full leaf with keys in order, of whose three records one is logically deleted,
-- splits the leaf after it has taken that record out, and one of the two records of the new leaf is
-- a record of zero bytes that nobody inserted.
pub insert_leaf-HoldsZero :
    (r x y a b c : Record) (fresh rest : List Record)
    → IsSorted (a ∷ b ∷ c ∷ [])
    → OneDeleted a b c
    → (old new : Leaf) × (insert_leaf r
          (x ∷ y ∷ fresh)
          (record { num_of_keys = 3; slots = a ∷ b ∷ c ∷ rest })
        ≡ some (split_in_two old new))
      × HoldsZero new
unfolding insert_leaf
insert_leaf-HoldsZero r x y a b c fresh rest sorted one_deleted =
    let (p, q, s, cleaned) = two_left a b c rest sorted one_deleted in
    let halves =
      split_slots r (x ∷ y ∷ fresh) (record { num_of_keys = 2; slots = p ∷ q ∷ s ∷ rest }) in
    (halves.0, halves.1, rw (insert_leaf, cleaned) refl, two_split r x y p q s fresh rest)
