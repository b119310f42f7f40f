-- ===== src/Bpt/FileTests.antt =====
-- Leaves, inner pages and the file of the B+ tree at concrete keys.
use computer_science_project.Prelude.{
  ℕ, zero, suc, ◌≤◌, ◌<◌, ◌≡◌, ◌≢◌, inl, refl, true, false, none, some, List, [], ◌∷◌, ◌==◌, leb,
  if◌then◌else◌, arith, All,
}
use computer_science_project.Prelude.Search.{find_index}
use computer_science_project.Bpt.{Record, InterRecord, Page, child, split_leaf}
use computer_science_project.Bpt.Insertion.{IsSorted}
use computer_science_project.Bpt.Leaf.{
  Leaf, live, split_slots, insert_leaf, split_in_two, delete_entry, kept,
}
use computer_science_project.Bpt.Leaf.Loops.{split_slots-split_leaf}
use computer_science_project.Bpt.Leaf.Removal.{has_key}
use computer_science_project.Bpt.Leaf.Lookup.{look, delete_entry-look}
use computer_science_project.Bpt.Leaf.Stale.{HoldsZero, insert_leaf-HoldsZero}
use computer_science_project.Bpt.Pages.{TreeFile, blank_page, new_file, new_page}
use computer_science_project.Bpt.Pages.FreeList.{occurs, IsFile, new_page-IsFile}
use computer_science_project.Bpt.Inner.{split_internal}
use computer_science_project.Bpt.Inner.Routing.{IsOrdered, route, split_internal-child}

abbrev item : ℕ → Record
item n = record { key = n; logical_del = 0; value = [] }

abbrev gone : ℕ → Record
gone n = record { key = n; logical_del = 1; value = [] }

abbrev full_leaf : Leaf
full_leaf = record { num_of_keys = 3; slots = item 2 ∷ item 4 ∷ item 6 ∷ item 0 ∷ [] }

abbrev as_page : Page
as_page = record blank_page { is_leaf = true; records = item 2 ∷ item 4 ∷ item 6 ∷ [] }

split_slots-split_leaf_example :
    (live (split_slots (item 5) (item 0 ∷ item 0 ∷ []) full_leaf).0
      ≡ (split_leaf 9 (item 5) as_page).0.records)
    × (live (split_slots (item 5) (item 0 ∷ item 0 ∷ []) full_leaf).1
        ≡ (split_leaf 9 (item 5) as_page).1.records)
split_slots-split_leaf_example =
    split_slots-split_leaf (item 5) (item 0 ∷ item 0 ∷ []) full_leaf 9 as_page (omega arith) refl
      (omega arith) refl

full_leaf-IsSorted : IsSorted (item 2 ∷ item 4 ∷ item 6 ∷ [])
full_leaf-IsSorted = omega arith

four_found : find_index (has_key 4) full_leaf.slots ≡ some 1
unfolding find_index
four_found = refl

delete_entry-look_example :
    (m : Leaf) × (delete_entry false 1 4 full_leaf ≡ some (kept m))
    × ((k : ℕ) → look k (live m) ≡ (if ◌==◌ 4 k then none else look k (live full_leaf)))
delete_entry-look_example =
    delete_entry-look false 1 4 full_leaf 1 four_found (omega arith) (omega arith) (omega arith)
      (λ e. omega arith) full_leaf-IsSorted

zero_not_one : ◌≢◌ {A = ℕ} 0 1
zero_not_one e = absurd (omega arith)

insert_leaf-HoldsZero_example :
    (old new : Leaf) × (insert_leaf
        (item 9)
        (item 0 ∷ item 0 ∷ [])
        (record { num_of_keys = 3; slots = gone 6 ∷ item 7 ∷ item 8 ∷ [] })
      ≡ some (split_in_two old new))
    × HoldsZero new
insert_leaf-HoldsZero_example =
    insert_leaf-HoldsZero (item 9) (item 0) (item 0) (gone 6) (item 7) (item 8) [] [] (omega arith)
      (inl (refl, zero_not_one, zero_not_one))

abbrev entries : ℕ → ℕ → List InterRecord
entries k zero = []
entries k (suc n) = (record { key = k; p_offset = k }) ∷ entries (suc k) n

entries-above : (j k n : ℕ) → j < k → All (λ (x : InterRecord). j < x.key) (entries k n)
entries-above j k zero lt = tt
entries-above j k (suc n) lt = (lt, entries-above j (suc k) n (omega arith))

entries-IsOrdered : (k n : ℕ) → IsOrdered (entries k n)
entries-IsOrdered k zero = tt
entries-IsOrdered k (suc n) = (entries-above k (suc k) n (omega arith), entries-IsOrdered (suc k) n)

abbrev inner : Page
inner = record blank_page { next_offset = 99; b_f = entries 1 24 }

abbrev entry : InterRecord
entry = record { key = 0; p_offset = 0 }

split_internal-child_example :
    (if leb (split_internal 0 entry inner).1 5
      then child 5 (split_internal 0 entry inner).2
      else child 5 (split_internal 0 entry inner).0)
    ≡ route 5 0 entry inner
split_internal-child_example =
    split_internal-child 5 0 entry inner (omega arith) refl (entries-IsOrdered 0 25)

abbrev first_file : TreeFile
first_file = new_file (λ off. blank_page)

first_file-IsFile : IsFile first_file []
unfolding new_file
first_file-IsFile = record {
  free = [];
  chain = refl;
  once = λ p. omega arith;
  inside = λ p h. absurd (omega arith);
  behind_header = omega arith;
}

new_page-IsFile_example :
    (occurs (new_page first_file).0 [] ≡ 0)
    × IsFile (new_page first_file).1 ((new_page first_file).0 ∷ [])
    × ((p : ℕ) → 1 ≤ occurs p [] → (new_page first_file).1.page p ≡ first_file.page p)
new_page-IsFile_example = new_page-IsFile first_file [] first_file-IsFile
