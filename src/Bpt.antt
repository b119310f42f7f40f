-- ===== src/Bpt.antt =====
-- Pages of the B+ tree on disk: dbms/B+tree_development/disk_bpt/src/bpt.c and include/bpt.h, the search
-- in a page and the insertion into a leaf. A key of type int64_t is its distance from the smallest one,
-- which keeps its order. `records` and `b_f` hold the entries up to num_of_keys; what the arrays hold
-- behind them has no effect here.
pub mod Search
pub mod Insertion
pub mod Leaf
pub mod Pages
pub mod Inner
mod Tests
mod FileTests
use computer_science_project.Prelude.{
  ℕ, zero, suc, ◌+◌, ◌/◌, ◌%◌, Bool, true, false, Option, none, some, List, [], ◌∷◌, ◌==◌, ltb, leb,
  if◌then◌else◌, length, get_or,
}

pub record Record : Type 0 where
  pub key : ℕ
  pub logical_del : ℕ
  pub value : List ℕ

pub record InterRecord : Type 0 where
  pub key : ℕ
  pub p_offset : ℕ

pub record Page : Type 0 where
  pub parent_page_offset : ℕ
  pub is_leaf : Bool
  pub next_offset : ℕ
  pub b_f : List InterRecord
  pub records : List Record

abbrev pub leaf_max : ℕ
leaf_max = 3

abbrev pub no_record : Record
no_record = record { key = 0; logical_del = 0; value = [] }

-- The loop of find_leaf in an inner page: the child for a key, where `left` is the child before the entries.
unfoldable pub child_from : ℕ → ℕ → List InterRecord → ℕ
child_from key left [] = left
child_from key left (e ∷ b_f) =
    let rest = child_from key e.p_offset b_f in if leb e.key key then rest else left

unfoldable pub child : ℕ → Page → ℕ
unfolding child_from
child key p = child_from key p.next_offset p.b_f

-- find_leaf from the page at loc on; `none`: the fuel ran out
unfoldable pub find_leaf : ℕ → ℕ → (ℕ → Page) → ℕ → Option ℕ
unfolding child
find_leaf zero key pages loc = none
find_leaf (suc f) key pages loc =
    let below = find_leaf f key pages (child key (pages loc)) in
    if (pages loc).is_leaf then some loc else below

-- the loop of db_find
unfoldable pub find_record : ℕ → List Record → Option Record
find_record key [] = none
find_record key (r ∷ records) =
    let rest = find_record key records in if r.key == key then some r else rest

-- db_find in the leaf that find_leaf returned
unfoldable pub find_in_leaf : ℕ → Page → Option (List ℕ)
unfolding find_record
find_in_leaf key p = elim (find_record key p.records) [
  | none ↦ none
  | some r ↦ if r.logical_del == 1 then none else some r.value
]

unfoldable pub cut : ℕ → ℕ
cut n = if n % 2 == 0 then n / 2 else n / 2 + 1

-- The record at its insertion point, with those behind it moved up.
unfoldable pub insert_record : Record → List Record → List Record
insert_record r [] = r ∷ []
insert_record r (s ∷ records) =
    let rest = insert_record r records in if ltb s.key r.key then s ∷ rest else r ∷ s ∷ records

-- insert_into_leaf
unfoldable pub insert_into_leaf : Record → Page → Page
unfolding insert_record
insert_into_leaf r p = record p { records = insert_record r p.records }

unfoldable pub first_records : ℕ → List Record → List Record
first_records zero records = []
first_records (suc n) [] = []
first_records (suc n) (r ∷ records) = r ∷ first_records n records

unfoldable pub later_records : ℕ → List Record → List Record
later_records zero records = records
later_records (suc n) [] = []
later_records (suc n) (r ∷ records) = later_records n records

-- The two leaves that insert_into_leaf_as writes, before it goes on to the parent.
unfoldable pub split_leaf : ℕ → Record → Page → Page × Page
unfolding insert_record cut first_records later_records
split_leaf new_leaf r ol =
    let temp = insert_record r ol.records in
    (
      record ol { records = first_records (cut leaf_max) temp; next_offset = new_leaf },
      record {
        parent_page_offset = ol.parent_page_offset;
        is_leaf = true;
        next_offset = ol.next_offset;
        b_f = [];
        records = later_records (cut leaf_max) temp;
      },
    )

-- the key that goes to the parent
unfoldable pub new_key : Page → ℕ
new_key nl = (get_or nl.records 0 no_record).key
