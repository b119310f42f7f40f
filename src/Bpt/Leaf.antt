-- ===== src/Bpt/Leaf.antt =====
-- Leaves of bpt.c with their whole array: insertion, logical and physical removal, and what db_insert does
-- with a full leaf. The slots behind num_of_keys keep old records, and db_insert reads them.
pub mod Loops
pub mod Removal
pub mod Lookup
pub mod Stale
use computer_science_project.Prelude.{
  ℕ, zero, suc, ◌+◌, ◌-◌, ◌^◌, ◌<◌, Bool, true, false, Option, none, some, List, [], ◌∷◌, ◌==◌, ltb,
  leb, if◌then◌else◌, get_or, set, take, replicate,
}
use computer_science_project.Prelude.Search.{find_index}
use computer_science_project.Bpt.{Record, leaf_max, cut}

pub record Leaf : Type 0 where
  pub num_of_keys : ℕ
  pub slots : List Record

-- A record of zero bytes, as calloc gives it.
abbrev pub zero_record : Record
zero_record = record { key = 2 ^ 63; logical_del = 0; value = [] }

abbrev pub slot : List Record → ℕ → Record
slot slots i = get_or slots i zero_record

-- The records of a leaf.
abbrev pub live : Leaf → List Record
live l = take l.num_of_keys l.slots

-- The loop for insertion_point and insertion_index over at most n slots, from slot i on.
unfoldable pub point : ℕ → ℕ → ℕ → List Record → ℕ
point zero i key slots = i
point (suc n) i key slots =
    let rest = point n (suc i) key slots in if ltb (slot slots i).key key then rest else i

-- The moves of insert_into_leaf that go up, for k slots from slot i on.
unfoldable pub push_up : ℕ → ℕ → List Record → List Record
push_up zero i slots = slots
push_up (suc k) i slots = push_up k i (set slots (i + suc k) (slot slots (i + k)))

-- insert_into_leaf
unfoldable pub insert_slots : Record → Leaf → Leaf
unfolding point push_up
insert_slots r l =
    let p = point l.num_of_keys 0 r.key l.slots in
    record {
      num_of_keys = suc l.num_of_keys;
      slots = set (push_up (l.num_of_keys - p) p l.slots) p r;
    }

-- The moves of remove_entry_from_page that go down, for k slots behind slot i.
unfoldable pub pull_down : ℕ → ℕ → List Record → List Record
pull_down zero i slots = slots
pull_down (suc k) i slots = pull_down k (suc i) (set slots i (slot slots (suc i)))

abbrev pub marked : Record → Record
marked r = record r { logical_del = 1 }

-- remove_entry_from_page on a leaf; `none`: no slot has the key, and the loop runs out of the page.
unfoldable pub remove_entry : ℕ → Leaf → Option Leaf
unfolding pull_down cut
remove_entry key l = elim (find_index (λ (r : Record). r.key == key) l.slots) [
  | none ↦ none
  | some i ↦
      if ltb (l.num_of_keys - 1) (cut leaf_max)
      then some (record l { slots = set l.slots i (marked (slot l.slots i)) })
      else some (record {
        num_of_keys = l.num_of_keys - 1;
        slots = pull_down (l.num_of_keys - suc i) i l.slots;
      })
]

-- How delete_entry ends on a leaf: at once, with an empty root, or by going on to a neighbour.
pub data DeleteEnd : Type 0 where
  kept : Leaf → DeleteEnd
  emptied : DeleteEnd
  underflow : Leaf → DeleteEnd

-- What delete_entry does with the leaf after the removal; `rt_keys` is rt->num_of_keys, which adjust_root
-- reads.
abbrev pub delete_end : Bool → ℕ → Leaf → DeleteEnd
delete_end true rt_keys l = if ltb 0 rt_keys then kept l else emptied
delete_end false rt_keys l = if leb (cut leaf_max) l.num_of_keys then kept l else underflow l

-- delete_entry on a leaf. A removal from the array makes the root be read again.
unfoldable pub delete_entry : Bool → ℕ → ℕ → Leaf → Option DeleteEnd
unfolding remove_entry
delete_entry is_root rt_keys key l = elim (remove_entry key l) [
  | none ↦ none
  | some m ↦
      let rt_now = if m.num_of_keys == l.num_of_keys then rt_keys else m.num_of_keys in
      some (delete_end is_root rt_now m)
]

-- The copying loop of insert_into_leaf_as: k slots from slot i on, to temp from j on, but not to slot p.
unfoldable pub spread : ℕ → ℕ → ℕ → ℕ → List Record → List Record → List Record
spread zero i j p slots temp = temp
spread (suc k) i j p slots temp =
    let to = if j == p then suc j else j in
    spread k (suc i) (suc to) p slots (set temp to (slot slots i))

abbrev pub cleared : Record → Record
cleared r = record r { key = 2 ^ 63 }

-- The two leaves of insert_into_leaf_as; `fresh` is the array of the new page.
unfoldable pub split_slots : Record → List Record → Leaf → Leaf × Leaf
unfolding point spread cut
split_slots r fresh ol =
    let p = point leaf_max 0 r.key ol.slots in
    let temp =
      set (spread ol.num_of_keys 0 0 p ol.slots (replicate (suc leaf_max) zero_record)) p r in
    let old = set (set ol.slots 0 (slot temp 0)) 1 (slot temp 1) in
    let new = set (set fresh 0 (slot temp 2)) 1 (slot temp 3) in
    (
      record { num_of_keys = 2; slots = set old 2 (cleared (slot old 2)) },
      record { num_of_keys = 2; slots = set new 2 (cleared (slot new 2)) },
    )

-- The loop of db_insert over the n records of the full leaf as it was loaded, from record i on.
unfoldable pub clean_leaf : ℕ → ℕ → List Record → Leaf → Option Leaf
unfolding remove_entry
clean_leaf zero i loaded l = some l
clean_leaf (suc n) i loaded l =
    let next = clean_leaf n (suc i) loaded l in
    let removed : Option Leaf = elim (remove_entry (slot loaded i).key l) [
      | none ↦ none
      | some m ↦ clean_leaf n (suc i) loaded m
    ] in
    if (slot loaded i).logical_del == 1 then removed else next

pub data InsertEnd : Type 0 where
  inserted : Leaf → InsertEnd
  split_in_two : Leaf → Leaf → InsertEnd

-- db_insert behind find_leaf. The test on num_of_keys is on the leaf as it was loaded, before the loop.
unfoldable pub insert_leaf : Record → List Record → Leaf → Option InsertEnd
unfolding clean_leaf insert_slots split_slots
insert_leaf r fresh l =
    if leb leaf_max l.num_of_keys
    then (elim (clean_leaf l.num_of_keys 0 l.slots l) [
      | none ↦ none
      | some m ↦ let halves = split_slots r fresh m in some (split_in_two halves.0 halves.1)
    ])
    else some (inserted (insert_slots r l))
