-- ===== src/Bpt/Inner.antt =====
-- Inner pages of bpt.c: get_left_index, and what insert_into_parent and the functions under it write.
pub mod Routing
use computer_science_project.Prelude.{
  ℕ, zero, suc, ◌+◌, Bool, true, false, Option, none, some, List, [], ◌∷◌, ◌==◌, ltb, if◌then◌else◌,
  get_or, take, drop, length,
}
use computer_science_project.Prelude.Search.{find_index, plus_one}
use computer_science_project.Bpt.{InterRecord, Record, Page, cut, split_leaf, new_key}
use computer_science_project.Bpt.Pages.{Header, TreeFile, write_page, new_page}

abbrev pub internal_max : ℕ
internal_max = 24

abbrev pub no_entry : InterRecord
no_entry = record { key = 0; p_offset = 0 }

-- get_left_index, plus one; `none` is its -10
unfoldable pub get_left_index : ℕ → Page → Option ℕ
get_left_index left parent =
    let i = find_index (λ (e : InterRecord). e.p_offset == left) parent.b_f in
    if left == parent.next_offset then some 0 else plus_one i

abbrev pub insert_entry : ℕ → InterRecord → List InterRecord → List InterRecord
insert_entry zero e b_f = e ∷ b_f
insert_entry (suc i) e [] = e ∷ []
insert_entry (suc i) e (x ∷ b_f) = x ∷ insert_entry i e b_f

-- insert_into_internal, for left_index + 1
unfoldable pub insert_into_internal : ℕ → InterRecord → Page → Page
insert_into_internal i e p = record p { b_f = insert_entry i e p.b_f }

-- The two pages of insert_into_internal_as, and k_prime.
unfoldable pub split_internal : ℕ → InterRecord → Page → Page × ℕ × Page
unfolding cut
split_internal i e p =
    let temp = insert_entry i e p.b_f in
    let split = cut internal_max in
    let middle = get_or temp split no_entry in
    (
      record p { b_f = take split temp },
      middle.key,
      record {
        parent_page_offset = p.parent_page_offset;
        is_leaf = false;
        next_offset = middle.p_offset;
        b_f = drop (suc split) temp;
        records = [];
      },
    )

abbrev pub set_parent : ℕ → ℕ → TreeFile → TreeFile
set_parent parent off f = write_page off (record (f.page off) { parent_page_offset = parent }) f

-- The loop over the children of the new page.
unfoldable pub set_parents : ℕ → List InterRecord → TreeFile → TreeFile
set_parents parent [] f = f
set_parents parent (e ∷ b_f) f = set_parents parent b_f (set_parent parent e.p_offset f)

-- insert_into_new_root
unfoldable pub insert_into_new_root : ℕ → ℕ → ℕ → TreeFile → TreeFile
unfolding new_page
insert_into_new_root old key newp f =
    let (root, g) = new_page f in
    let page = record (g.page root) {
      b_f = (record { key = key; p_offset = newp }) ∷ [];
      next_offset = old;
    } in
    let written = set_parent root newp (set_parent root old (write_page root page g)) in
    record written { header = record written.header { rpo = root } }

-- insert_into_internal_as up to its call of insert_into_parent: k_prime, the new page, the file.
unfoldable pub insert_into_internal_as : ℕ → ℕ → InterRecord → TreeFile → ℕ × ℕ × TreeFile
unfolding new_page split_internal set_parents
insert_into_internal_as bumo i e f =
    let (new_p, g) = new_page f in
    let (old, k_prime, new) = split_internal i e (f.page bumo) in
    let moved = set_parents new_p new.b_f (set_parent new_p new.next_offset g) in
    (k_prime, new_p, write_page new_p new (write_page bumo old moved))

-- insert_into_parent; `none`: an entry for the page is missing in its parent, or the fuel ran out.
unfoldable pub insert_into_parent : ℕ → ℕ → ℕ → ℕ → TreeFile → Option TreeFile
unfolding get_left_index insert_into_new_root insert_into_internal insert_into_internal_as
insert_into_parent zero old key newp f = none
insert_into_parent (suc fuel) old key newp f =
    let bumo = (f.page old).parent_page_offset in
    let parent = f.page bumo in
    let e : InterRecord = record { key = key; p_offset = newp } in
    let place = get_left_index old parent in
    let split : Option TreeFile = elim place [
      | none ↦ none
      | some i ↦
          let (k_prime, new_p, g) = insert_into_internal_as bumo i e f in
          insert_into_parent fuel bumo k_prime new_p g
    ] in
    if bumo == 0
    then some (insert_into_new_root old key newp f)
    else (if ltb (length parent.b_f) internal_max
        then (elim place [
          | none ↦ none
          | some i ↦ some (write_page bumo (insert_into_internal i e parent) f)
        ])
        else split)

-- insert_into_leaf_as on a full leaf
unfoldable pub insert_into_leaf_as : ℕ → Record → ℕ → TreeFile → Option TreeFile
unfolding new_page split_leaf new_key insert_into_parent
insert_into_leaf_as fuel r leaf f =
    let (new_leaf, g) = new_page f in
    let (ol, nl) = split_leaf new_leaf r (g.page leaf) in
    insert_into_parent fuel leaf (new_key nl) new_leaf
      (write_page leaf ol (write_page new_leaf nl g))
