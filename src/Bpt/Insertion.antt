-- ===== src/Bpt/Insertion.antt =====
-- Insertion into a leaf of bpt.c, with and without a split.
use computer_science_project.Prelude.{
  ℕ, suc, ◌<◌, ◌≤◌, ◌≡◌, inl, inr, refl, ap, ◌∙◌, none, some, List, [], ◌∷◌, ◌++◌, ◌==◌, ltb,
  if◌then◌else◌, length, get_or, arith, Bool-cases, All,
}
use computer_science_project.Bpt.{
  Record, Page, leaf_max, no_record, find_record, insert_record, insert_into_leaf, split_leaf,
  new_key, cut, first_records, later_records,
}

-- The keys are in order, and no key is there twice.
abbrev pub IsSorted : List Record → Type 0
IsSorted [] = Unit
IsSorted (r ∷ records) = All (λ (s : Record). r.key < s.key) records × IsSorted records

insert-All :
    (n : ℕ) (r : Record) (records : List Record)
    → n < r.key
    → All (λ (s : Record). n < s.key) records
    → All (λ (s : Record). n < s.key) (insert_record r records)
unfolding insert_record
insert-All n r [] h all = (h, tt)
insert-All n r (s ∷ records) h all = elim (Bool-cases (ltb s.key r.key)) [
  | inl t ↦ rw t (all.0, insert-All n r records h all.1)
  | inr f ↦ rw f (h, all)
]

above :
    (m n : ℕ) (records : List Record)
    → m < n
    → All (λ (s : Record). n < s.key) records
    → All (λ (s : Record). m < s.key) records
above m n [] h all = tt
above m n (s ∷ records) h all = (omega (arith, all.0), above m n records h all.1)

insert-IsSorted :
    (r : Record) (records : List Record)
    → IsSorted records
    → find_record r.key records ≡ none
    → IsSorted (insert_record r records)
unfolding insert_record find_record
insert-IsSorted r [] sorted new = (tt, tt)
insert-IsSorted r (s ∷ records) sorted new = elim (Bool-cases (s.key == r.key)) [
  | inl e ↦ absurd (ground arith)
  | inr ne ↦ elim (Bool-cases (ltb s.key r.key)) [
    | inl t ↦ rw t (
      insert-All s.key r records (ground arith) sorted.0,
      insert-IsSorted r records sorted.1 (ground arith),
    )
    | inr f ↦
        let less : r.key < s.key = ground arith in
        rw f ((less, above r.key s.key records less sorted.0), sorted)
  ]
]

find-insert :
    (key : ℕ) (r : Record) (records : List Record)
    → find_record key (insert_record r records)
      ≡ (if r.key == key then some r else find_record key records)
unfolding insert_record find_record
find-insert key r [] = refl
find-insert key r (s ∷ records) = elim (Bool-cases (ltb s.key r.key)) [
  | inr f ↦ rw f refl
  | inl t ↦ ground (arith, find-insert key r records)
]

-- insert_into_leaf of a key that is not in a leaf with keys in order keeps them in order, and the
-- search then finds the new record under its key and what it found before under every other.
pub insert_into_leaf_lem :
    (r : Record) (p : Page)
    → IsSorted p.records
    → find_record r.key p.records ≡ none
    → IsSorted (insert_into_leaf r p).records
      × ((key : ℕ)
          → find_record key (insert_into_leaf r p).records
            ≡ (if r.key == key then some r else find_record key p.records))
unfolding insert_into_leaf
insert_into_leaf_lem r p sorted new =
    (insert-IsSorted r p.records sorted new, λ key. find-insert key r p.records)

length-insert :
    (r : Record) (records : List Record) → length (insert_record r records) ≡ suc (length records)
unfolding insert_record
length-insert r [] = refl
length-insert r (s ∷ records) = elim (Bool-cases (ltb s.key r.key)) [
  | inl t ↦ rw t (ap suc (length-insert r records))
  | inr f ↦ rw f refl
]

-- four records in order, cut in two
four-cut :
    (rs : List Record)
    → length rs ≡ 4
    → IsSorted rs
    → (first_records 2 rs ++ later_records 2 rs ≡ rs)
      × (length (first_records 2 rs) ≡ 2)
      × (length (later_records 2 rs) ≡ 2)
      × All
          (λ (s : Record). s.key < (get_or (later_records 2 rs) 0 no_record).key)
          (first_records 2 rs)
      × All
          (λ (s : Record). (get_or (later_records 2 rs) 0 no_record).key ≤ s.key)
          (later_records 2 rs)
unfolding first_records later_records
four-cut (a ∷ b ∷ c ∷ d ∷ []) n sorted =
    (refl, refl, refl, omega (arith, sorted), omega (arith, sorted))
four-cut [] n sorted = absurd (omega arith)
four-cut (a ∷ []) n sorted = absurd (omega arith)
four-cut (a ∷ b ∷ []) n sorted = absurd (omega arith)
four-cut (a ∷ b ∷ c ∷ []) n sorted = absurd (omega arith)
four-cut (a ∷ b ∷ c ∷ d ∷ e ∷ rs) n sorted = absurd (omega arith)

-- insert_into_leaf_as on a full leaf of three records with keys in order, for a key that is not
-- among them: the two leaves hold, one after the other, the records with the new one at its place,
-- two each; the key for the parent is above every key of the first leaf and above none of the
-- second.
pub split_leaf_lem :
    (new_leaf : ℕ) (r : Record) (ol : Page)
    → length ol.records ≡ leaf_max
    → IsSorted ol.records
    → find_record r.key ol.records ≡ none
    → ((split_leaf new_leaf r ol).0.records ++ (split_leaf new_leaf r ol).1.records
        ≡ insert_record r ol.records)
      × (length (split_leaf new_leaf r ol).0.records ≡ 2)
      × (length (split_leaf new_leaf r ol).1.records ≡ 2)
      × All
          (λ (s : Record). s.key < new_key (split_leaf new_leaf r ol).1)
          (split_leaf new_leaf r ol).0.records
      × All
          (λ (s : Record). new_key (split_leaf new_leaf r ol).1 ≤ s.key)
          (split_leaf new_leaf r ol).1.records
unfolding split_leaf new_key cut
split_leaf_lem new_leaf r ol full sorted new =
    four-cut (insert_record r ol.records) (length-insert r ol.records ∙ ap suc full)
      (insert-IsSorted r ol.records sorted new)
