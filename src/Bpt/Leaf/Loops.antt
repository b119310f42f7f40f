-- ===== src/Bpt/Leaf/Loops.antt =====
-- The loops of insert_into_leaf and insert_into_leaf_as of bpt.c against the lists of records.
use computer_science_project.Prelude.{
  ℕ, zero, suc, ◌<◌, ◌≤◌, ◌≡◌, refl, ap, inl, inr, List, [], ◌∷◌, ltb, take, length, arith,
  Bool-cases,
}
use computer_science_project.Bpt.{
  Record, Page, leaf_max, cut, insert_record, split_leaf, first_records, later_records,
}
use computer_science_project.Bpt.Leaf.{
  Leaf, live, point, push_up, insert_slots, spread, split_slots,
}

halves :
    (r x y a b c : Record) (fresh rest : List Record)
    → (live (split_slots r (x ∷ y ∷ fresh) (record { num_of_keys = 3; slots = a ∷ b ∷ c ∷ rest })).0
        ≡ first_records 2 (insert_record r (a ∷ b ∷ c ∷ [])))
      × (live
            (split_slots r (x ∷ y ∷ fresh) (record { num_of_keys = 3; slots = a ∷ b ∷ c ∷ rest })).1
          ≡ later_records 2 (insert_record r (a ∷ b ∷ c ∷ [])))
unfolding split_slots point spread insert_record first_records later_records
halves r x y a b c fresh rest = elim (Bool-cases (ltb a.key r.key)) [
  | inr f ↦ rw f (refl, refl)
  | inl t ↦ elim (Bool-cases (ltb b.key r.key)) [
    | inr f ↦ rw (t, f) (refl, refl)
    | inl u ↦ elim (Bool-cases (ltb c.key r.key)) [
      | inr f ↦ rw (t, u, f) (refl, refl)
      | inl v ↦ rw (t, u, v) (refl, refl)
    ]
  ]
]

halves_of :
    (r : Record) (fresh slots : List Record)
    → 2 ≤ length fresh
    → 3 ≤ length slots
    → (live (split_slots r fresh (record { num_of_keys = 3; slots = slots })).0
        ≡ first_records 2 (insert_record r (take 3 slots)))
      × (live (split_slots r fresh (record { num_of_keys = 3; slots = slots })).1
          ≡ later_records 2 (insert_record r (take 3 slots)))
halves_of r (x ∷ y ∷ fresh) (a ∷ b ∷ c ∷ rest) room size = halves r x y a b c fresh rest
halves_of r [] slots room size = absurd (omega arith)
halves_of r (x ∷ []) slots room size = absurd (omega arith)
halves_of r (x ∷ y ∷ fresh) [] room size = absurd (omega arith)
halves_of r (x ∷ y ∷ fresh) (a ∷ []) room size = absurd (omega arith)
halves_of r (x ∷ y ∷ fresh) (a ∷ b ∷ []) room size = absurd (omega arith)

-- On a full leaf, the loops of insert_into_leaf_as over the array give the two lists of records that
-- the insertion into the list of records and its division give.
pub split_slots-split_leaf :
    (r : Record) (fresh : List Record) (l : Leaf) (new_leaf : ℕ) (p : Page)
    → 2 ≤ length fresh
    → l.num_of_keys ≡ leaf_max
    → leaf_max ≤ length l.slots
    → p.records ≡ live l
    → (live (split_slots r fresh l).0 ≡ (split_leaf new_leaf r p).0.records)
      × (live (split_slots r fresh l).1 ≡ (split_leaf new_leaf r p).1.records)
unfolding split_leaf cut
split_slots-split_leaf r fresh l new_leaf p room full size same =
    let whole : l ≡ record { num_of_keys = 3; slots = l.slots } =
      ap (λ n. record l { num_of_keys = n }) full in
    rw (same, whole) (halves_of r fresh l.slots room size)

insert_upto :
    (r : Record) (n : ℕ) (slots : List Record)
    → n < 3
    → n < length slots
    → live (insert_slots r (record { num_of_keys = n; slots = slots }))
      ≡ insert_record r (take n slots)
unfolding insert_slots point push_up insert_record
insert_upto r n [] small size = absurd (omega arith)
insert_upto r zero (a ∷ slots) small size = refl
insert_upto r (suc zero) (a ∷ []) small size = absurd (omega arith)
insert_upto r (suc zero) (a ∷ b ∷ slots) small size = elim (Bool-cases (ltb a.key r.key)) [
  | inr f ↦ rw f refl
  | inl t ↦ rw t refl
]
insert_upto r (suc (suc zero)) (a ∷ []) small size = absurd (omega arith)
insert_upto r (suc (suc zero)) (a ∷ b ∷ []) small size = absurd (omega arith)
insert_upto r (suc (suc zero)) (a ∷ b ∷ c ∷ slots) small size =
    elim (Bool-cases (ltb a.key r.key)) [
      | inr f ↦ rw f refl
      | inl t ↦ elim (Bool-cases (ltb b.key r.key)) [
        | inr f ↦ rw (t, f) refl
        | inl u ↦ rw (t, u) refl
      ]
    ]
insert_upto r (suc (suc (suc n))) (a ∷ slots) small size = absurd (omega arith)

-- insert
pub insert_slots-insert_record :
    (r : Record) (l : Leaf)
    → l.num_of_keys < leaf_max
    → l.num_of_keys < length l.slots
    → live (insert_slots r l) ≡ insert_record r (live l)
insert_slots-insert_record r l small size = insert_upto r l.num_of_keys l.slots small size
