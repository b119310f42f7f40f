-- ===== src/Bpt/Leaf/Lookup.antt =====
-- What db_find of bpt.c gives after a removal from a leaf.
use computer_science_project.Prelude.{
  ℕ, zero, suc, ◌<◌, ◌≤◌, ◌≡◌, ◌∙◌, refl, ap, inl, inr, Bool, false, none, some, Option, List, [],
  ◌∷◌, ◌==◌, if◌then◌else◌, set, remove, take, length, arith, Bool-cases, All, ==-of_ne, ==_iff,
}
use computer_science_project.Prelude.Search.{find_index, find_index_sound}
use computer_science_project.Bpt.{Record, find_record}
use computer_science_project.Bpt.Insertion.{IsSorted}
use computer_science_project.Bpt.Leaf.{Leaf, live, slot, zero_record, marked, kept, delete_entry}
use computer_science_project.Bpt.Leaf.Removal.{has_key, IsRemoved, slot-take, delete_entry-kept}

-- The value that db_find gives for a key, in a list of records.
abbrev pub look : ℕ → List Record → Option (List ℕ)
look key records = elim (find_record key records) [
  | none ↦ none
  | some r ↦ if r.logical_del == 1 then none else some r.value
]

length-take : (n : ℕ) (slots : List Record) → n ≤ length slots → length (take n slots) ≡ n
length-take zero slots le = refl
length-take (suc n) [] le = absurd (omega arith)
length-take (suc n) (x ∷ slots) le = ap suc (length-take n slots (omega arith))

look-below :
    (n key : ℕ) (records : List Record)
    → All (λ (s : Record). n < s.key) records
    → key ≤ n
    → look key records ≡ none
unfolding find_record
look-below n key [] all le = refl
look-below n key (s ∷ records) all le =
    rw (look, ==-of_ne s.key key (omega (arith, all.0))) (look-below n key records all.1 le)

slot-above :
    (n i : ℕ) (records : List Record)
    → All (λ (s : Record). n < s.key) records
    → i < length records
    → n < (slot records i).key
slot-above n i [] all lt = absurd (omega arith)
slot-above n zero (s ∷ records) all lt = all.0
slot-above n (suc i) (s ∷ records) all lt = slot-above n i records all.1 (omega arith)

look-removed :
    (key i : ℕ) (records after : List Record)
    → IsSorted records
    → i < length records
    → IsRemoved i records after
    → look key after ≡ (if (slot records i).key == key then none else look key records)
unfolding find_record
look-removed key i [] after sorted lt is = absurd (omega arith)
look-removed key zero (s ∷ records) after sorted lt (inl e) =
    rw e
      (elim (Bool-cases (s.key == key)) [ inl t ↦ rw (look, t) refl | inr f ↦ rw (look, f) refl ])
look-removed key zero (s ∷ records) after sorted lt (inr e) =
    rw e (elim (Bool-cases (s.key == key)) [
      | inl t ↦ rw (look, t) (look-below s.key key records sorted.0 (ground arith))
      | inr f ↦ rw (look, f) refl
    ])
look-removed key (suc i) (s ∷ records) after sorted lt (inl e) =
    let above = slot-above s.key i records sorted.0 (omega arith) in
    rw e (elim (Bool-cases (s.key == key)) [
      | inl t ↦
          let other : ((slot records i).key == key) ≡ false = ground arith in
          rw (look, t, other) refl
      | inr f ↦
          rw (look, f)
            (look-removed key i records (set records i (marked (slot records i))) sorted.1
              (omega arith) (inl refl))
    ])
look-removed key (suc i) (s ∷ records) after sorted lt (inr e) =
    let above = slot-above s.key i records sorted.0 (omega arith) in
    rw e (elim (Bool-cases (s.key == key)) [
      | inl t ↦
          let other : ((slot records i).key == key) ≡ false = ground arith in
          rw (look, t, other) refl
      | inr f ↦
          rw (look, f)
            (look-removed key i records (remove i records) sorted.1 (omega arith) (inr refl))
    ])

-- find
find_index-slot :
    (key i : ℕ) (slots : List Record)
    → find_index (has_key key) slots ≡ some i
    → (slot slots i).key ≡ key
find_index-slot key i slots at =
    let found = find_index_sound (has_key key) zero_record slots i at in
    (==_iff (slot slots i).key key).0 found.1

-- Deletion of a key from a leaf with keys in order, which is the root or has two records or more,
-- ends without a merge, and a search in the leaf then finds nothing under that key and the same as
-- before under every other.
pub delete_entry-look :
    (is_root : Bool) (rt_keys key : ℕ) (l : Leaf) (i : ℕ)
    → find_index (has_key key) l.slots ≡ some i
    → i < l.num_of_keys
    → l.num_of_keys ≤ length l.slots
    → 0 < rt_keys
    → (is_root ≡ false → 2 ≤ l.num_of_keys)
    → IsSorted (live l)
    → (m : Leaf) × (delete_entry is_root rt_keys key l ≡ some (kept m))
      × ((k : ℕ) → look k (live m) ≡ (if key == k then none else look k (live l)))
delete_entry-look is_root rt_keys key l i at lt size has enough sorted =
    let (m, done, is) = delete_entry-kept is_root rt_keys key l i at lt size has enough in
    let mine : (slot (live l) i).key ≡ key =
      ap (λ (r : Record). r.key) (slot-take l.num_of_keys i l.slots lt)
      ∙ find_index-slot key i l.slots at in
    (
      m,
      done,
      λ k.
          look-removed k i (live l) (live m) sorted
            (omega (arith, length-take l.num_of_keys l.slots size)) is
          ∙ ap (λ j. if j == k then none else look k (live l)) mine,
    )
