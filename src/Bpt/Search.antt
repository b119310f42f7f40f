-- ===== src/Bpt/Search.antt =====
-- The choice of a child in find_leaf of bpt.c.
use computer_science_project.Prelude.{
  ℕ, zero, suc, ◌<◌, ◌≤◌, ◌≡◌, ◌⊎◌, inl, inr, refl, true, false, List, [], ◌∷◌, length, get_or, leb,
  arith, Bool-cases, some,
}
use computer_science_project.Bpt.{InterRecord, Page, child_from, child, find_leaf}

abbrev pub no_entry : InterRecord
no_entry = record { key = 0; p_offset = 0 }

abbrev pub key_at : List InterRecord → ℕ → ℕ
key_at b_f i = (get_or b_f i no_entry).key

abbrev pub offset_at : List InterRecord → ℕ → ℕ
offset_at b_f i = (get_or b_f i no_entry).p_offset

-- The child is the one before all entries, and the key is below the first entry; or it is that of an
-- entry whose key is not above the key, with the key below that of the entry after it.
abbrev pub IsChild : ℕ → ℕ → List InterRecord → ℕ → Type 0
IsChild key left b_f c =
    ((c ≡ left) × (0 < length b_f → key < key_at b_f 0))
    ⊎ ((i : ℕ) × (i < length b_f)
        × (c ≡ offset_at b_f i)
        × (key_at b_f i ≤ key)
        × (suc i < length b_f → key < key_at b_f (suc i)))

-- The loop of find_leaf in an inner page gives the child before all entries, with the key below the
-- first entry, or the child of an entry that is not above the key, with the key below the next
-- entry.
pub child_from-IsChild :
    (key left : ℕ) (b_f : List InterRecord) → IsChild key left b_f (child_from key left b_f)
unfolding child_from
child_from-IsChild key left [] = inl (refl, λ h. absurd (omega arith))
child_from-IsChild key left (e ∷ b_f) = elim (Bool-cases (leb e.key key)) [
  | inr f ↦ inl (rw f refl, λ h. ground arith)
  | inl t ↦ elim (child_from-IsChild key e.p_offset b_f) [
    | inl (c, below) ↦ inr (0, omega arith, rw t c, ground arith, λ h. below (omega arith))
    | inr (i, lt, c, le, below) ↦ inr (suc i, omega arith, rw t c, le, λ h. below (omega arith))
  ]
]

-- A subtree whose leaves are all h pages below its root.
abbrev pub HasHeight : ℕ → (ℕ → Page) → ℕ → Type 0
HasHeight zero pages loc = (pages loc).is_leaf ≡ true
HasHeight (suc h) pages loc =
    ((pages loc).is_leaf ≡ false)
    × HasHeight h pages (pages loc).next_offset
    × ((i : ℕ) → i < length (pages loc).b_f → HasHeight h pages (offset_at (pages loc).b_f i))

child-HasHeight :
    (h key : ℕ) (pages : ℕ → Page) (loc : ℕ)
    → HasHeight (suc h) pages loc
    → HasHeight h pages (child key (pages loc))
unfolding child
child-HasHeight h key pages loc w =
    elim (child_from-IsChild key (pages loc).next_offset (pages loc).b_f) [
      | inl (c, below) ↦ rw c w.1
      | inr (i, lt, c, le, below) ↦ rw c (w.2 i lt)
    ]

-- On a subtree whose leaves are all h pages below its root, h + 1 rounds of the loop of find_leaf
-- end in a leaf.
pub find_leaf-total :
    (h key : ℕ) (pages : ℕ → Page) (loc : ℕ)
    → HasHeight h pages loc
    → (leaf : ℕ) × (find_leaf (suc h) key pages loc ≡ some leaf) × ((pages leaf).is_leaf ≡ true)
unfolding find_leaf
find_leaf-total zero key pages loc w = (loc, rw w refl, w)
find_leaf-total (suc h) key pages loc w =
    let (leaf, found, is_leaf) =
      find_leaf-total h key pages (child key (pages loc)) (child-HasHeight h key pages loc w) in
    (leaf, rw w.0 found, is_leaf)
