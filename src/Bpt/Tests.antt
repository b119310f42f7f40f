-- ===== src/Bpt/Tests.antt =====
-- Pages of the B+ tree at concrete keys.
use computer_science_project.Prelude.{
  ℕ, zero, suc, ◌<◌, ◌≤◌, ◌≡◌, refl, true, false, some, [], ◌∷◌, ◌++◌, ◌==◌, if◌then◌else◌, length,
  arith, All,
}
use computer_science_project.Bpt.{
  Record, Page, find_leaf, find_record, insert_record, split_leaf, new_key,
}
use computer_science_project.Bpt.Search.{offset_at, HasHeight, find_leaf-total}
use computer_science_project.Bpt.Insertion.{IsSorted, split_leaf_lem}

abbrev item : ℕ → Record
item n = record { key = n; logical_del = 0; value = [] }

abbrev leaf : Page
leaf = record {
  parent_page_offset = 0;
  is_leaf = true;
  next_offset = 0;
  b_f = [];
  records = item 2 ∷ item 4 ∷ item 6 ∷ [];
}

abbrev inner : Page
inner = record {
  parent_page_offset = 0;
  is_leaf = false;
  next_offset = 1;
  b_f = (record { key = 7; p_offset = 2 }) ∷ [];
  records = [];
}

abbrev pages : ℕ → Page
pages loc = if loc == 0 then inner else leaf

entries : (i : ℕ) → i < 1 → HasHeight 0 pages (offset_at inner.b_f i)
entries zero lt = refl
entries (suc i) lt = absurd (omega arith)

find_leaf-total_example : (l : ℕ) × (find_leaf 2 9 pages 0 ≡ some l) × ((pages l).is_leaf ≡ true)
find_leaf-total_example = find_leaf-total 1 9 pages 0 (refl, refl, entries)

sorted : IsSorted (item 2 ∷ item 4 ∷ item 6 ∷ [])
sorted = omega arith

split_leaf_lem_example :
    ((split_leaf 3 (item 5) leaf).0.records ++ (split_leaf 3 (item 5) leaf).1.records
      ≡ insert_record (item 5) leaf.records)
    × (length (split_leaf 3 (item 5) leaf).0.records ≡ 2)
    × (length (split_leaf 3 (item 5) leaf).1.records ≡ 2)
    × All
        (λ (s : Record). s.key < new_key (split_leaf 3 (item 5) leaf).1)
        (split_leaf 3 (item 5) leaf).0.records
    × All
        (λ (s : Record). new_key (split_leaf 3 (item 5) leaf).1 ≤ s.key)
        (split_leaf 3 (item 5) leaf).1.records
split_leaf_lem_example = split_leaf_lem 3 (item 5) leaf refl sorted (unfold find_record in refl)
