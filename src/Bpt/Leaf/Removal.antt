-- ===== src/Bpt/Leaf/Removal.antt =====
-- The removal of a key from a leaf of bpt.c: delete_entry and remove_entry_from_page.
use computer_science_project.Prelude.{
  ℕ, zero, suc, ◌-◌, ◌<◌, ◌≤◌, ◌≡◌, ◌⊎◌, refl, ap, sym, ◌∙◌, lt→ltb, ==_refl, inl, inr, Bool, true,
  false, some, List, [], ◌∷◌, ◌==◌, ltb, leb, if◌then◌else◌, set, take, length, remove, arith,
  Bool-cases,
}
use computer_science_project.Prelude.Search.{find_index}
use computer_science_project.Bpt.{Record, leaf_max, cut}
use computer_science_project.Bpt.Leaf.{
  Leaf, live, slot, marked, pull_down, remove_entry, kept, delete_end, delete_entry,
}

abbrev pub has_key : ℕ → Record → Bool
has_key key r = r.key == key

pull_down-cons :
    (k i : ℕ) (x : Record) (slots : List Record)
    → pull_down k (suc i) (x ∷ slots) ≡ x ∷ pull_down k i slots
unfolding pull_down
pull_down-cons zero i x slots = refl
pull_down-cons (suc k) i x slots = pull_down-cons k (suc i) x (set slots i (slot slots (suc i)))

pull_first :
    (k : ℕ) (x : Record) (slots : List Record)
    → k ≤ length slots
    → take k (pull_down k 0 (x ∷ slots)) ≡ take k slots
unfolding pull_down
pull_first zero x slots le = refl
pull_first (suc k) x [] le = absurd (omega arith)
pull_first (suc k) x (y ∷ slots) le =
    rw (pull_down, pull_down-cons k 0 y (y ∷ slots))
      (ap (λ ys. y ∷ ys) (pull_first k y slots (omega arith)))

-- The moves take one record out of the first n.
take-pull_down :
    (n i : ℕ) (slots : List Record)
    → i < suc n
    → suc n ≤ length slots
    → take n (pull_down (n - i) i slots) ≡ remove i (take (suc n) slots)
take-pull_down n i [] lt le = absurd (omega arith)
take-pull_down n zero (x ∷ slots) lt le =
    let all : n - 0 ≡ n = omega arith in rw all (pull_first n x slots (omega arith))
take-pull_down zero (suc i) (x ∷ slots) lt le = absurd (omega arith)
take-pull_down (suc n) (suc i) (x ∷ slots) lt le =
    let same : suc n - suc i ≡ n - i = omega arith in
    rw (same, pull_down-cons (n - i) i x slots)
      (ap (λ ys. x ∷ ys) (take-pull_down n i slots (omega arith) (omega arith)))

take-set :
    (n i : ℕ) (slots : List Record) (r : Record) → take n (set slots i r) ≡ set (take n slots) i r
take-set zero i slots r = refl
take-set (suc n) i [] r = refl
take-set (suc n) zero (x ∷ slots) r = refl
take-set (suc n) (suc i) (x ∷ slots) r = ap (λ ys. x ∷ ys) (take-set n i slots r)

pub slot-take : (n i : ℕ) (slots : List Record) → i < n → slot (take n slots) i ≡ slot slots i
slot-take zero i slots lt = absurd (omega arith)
slot-take (suc n) i [] lt = refl
slot-take (suc n) zero (x ∷ slots) lt = refl
slot-take (suc n) (suc i) (x ∷ slots) lt = slot-take n i slots (omega arith)

-- What the removal of record i leaves of the records: it is marked, or it is gone.
abbrev pub IsRemoved : ℕ → List Record → List Record → Type 0
IsRemoved i before after =
    (after ≡ set before i (marked (slot before i))) ⊎ (after ≡ remove i before)

remove-live :
    (l : Leaf) (i : ℕ)
    → i < l.num_of_keys
    → l.num_of_keys ≤ length l.slots
    → take (l.num_of_keys - 1) (pull_down (l.num_of_keys - suc i) i l.slots) ≡ remove i (live l)
remove-live l i lt size =
    let n = l.num_of_keys - 1 in
    let whole : l.num_of_keys ≡ suc n = omega arith in
    let steps : l.num_of_keys - suc i ≡ n - i = omega arith in
    ap (λ k. take n (pull_down k i l.slots)) steps
    ∙ take-pull_down n i l.slots (omega arith) (omega arith)
    ∙ ap (λ k. remove i (take k l.slots)) (sym whole)

delete_end-kept :
    (is_root : Bool) (rt_keys : ℕ) (m : Leaf)
    → 0 < rt_keys
    → (is_root ≡ false → 2 ≤ m.num_of_keys)
    → delete_end is_root rt_keys m ≡ kept m
unfolding cut
delete_end-kept true rt_keys m has enough = rw (lt→ltb 0 rt_keys has) refl
delete_end-kept false rt_keys m has enough =
    let fine : leb 2 m.num_of_keys ≡ true = ground (arith, enough refl) in rw fine refl

-- A leaf that keeps its count, or at least two records, is not merged.
ends :
    (is_root : Bool) (rt_keys key : ℕ) (l m : Leaf)
    → remove_entry key l ≡ some m
    → 0 < rt_keys
    → (is_root ≡ false → 2 ≤ l.num_of_keys)
    → (m.num_of_keys ≡ l.num_of_keys) ⊎ (2 ≤ m.num_of_keys)
    → delete_entry is_root rt_keys key l ≡ some (kept m)
unfolding delete_entry
ends is_root rt_keys key l m removed has enough (inl same) =
    let rt : (if m.num_of_keys == l.num_of_keys then rt_keys else m.num_of_keys) ≡ rt_keys =
      rw (same, ==_refl l.num_of_keys) refl in
    let two : is_root ≡ false → 2 ≤ m.num_of_keys = λ e. omega (arith, enough e, same) in
    rw (delete_entry, removed)
      (ap (λ k. some (delete_end is_root k m)) rt
        ∙ ap some (delete_end-kept is_root rt_keys m has two))
ends is_root rt_keys key l m removed has enough (inr two) =
    rw (delete_entry, removed)
      (ap some (
        delete_end-kept is_root (if m.num_of_keys == l.num_of_keys then rt_keys else m.num_of_keys)
          m (ground arith) (λ e. two)))

-- No removal
pub delete_entry-kept :
    (is_root : Bool) (rt_keys key : ℕ) (l : Leaf) (i : ℕ)
    → find_index (has_key key) l.slots ≡ some i
    → i < l.num_of_keys
    → l.num_of_keys ≤ length l.slots
    → 0 < rt_keys
    → (is_root ≡ false → 2 ≤ l.num_of_keys)
    → (m : Leaf) × (delete_entry is_root rt_keys key l ≡ some (kept m))
      × IsRemoved i (live l) (live m)
unfolding delete_entry remove_entry cut
delete_entry-kept is_root rt_keys key l i at lt size rt_has enough =
    elim (Bool-cases (ltb (l.num_of_keys - 1) (cut leaf_max))) [
      | inl t ↦
          let r = marked (slot l.slots i) in
          let m = record l { slots = set l.slots i r } in
          let removed : remove_entry key l ≡ some m = rw (remove_entry, at, t) refl in
          (
            m,
            ends is_root rt_keys key l m removed rt_has enough (inl refl),
            inl (rw (slot-take l.num_of_keys i l.slots lt) (take-set l.num_of_keys i l.slots r)),
          )
      | inr f ↦
          let m : Leaf = record {
            num_of_keys = l.num_of_keys - 1;
            slots = pull_down (l.num_of_keys - suc i) i l.slots;
          } in
          let removed : remove_entry key l ≡ some m = rw (remove_entry, at, f) refl in
          (
            m,
            ends is_root rt_keys key l m removed rt_has enough (inr (ground arith)),
            inr (remove-live l i lt size),
          )
    ]
