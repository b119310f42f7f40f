-- ===== src/Users/Invariant.antt =====
-- The table of accounts under the operations of fs.c.
use computer_science_project.Prelude.CString.{
  str_eq, strncpy, str_eq-strncpy, str_eq_symm, str_eq_trans, length-strncpy,
}
use computer_science_project.Prelude.{
  ℕ, ◌<◌, ◌≡◌, refl, ap, sym, ◌∙◌, ◌≢◌, ◌⊎◌, inl, inr, true, List, [], ◌∷◌, arith, ℕ_discrete,
  get_or, set, length, Bool-cases, Option-cases, length-set, All-set, ==_iff,
}
use computer_science_project.Users.{
  Row, used_rows, blank_row, Accounts, root, first_byte, has_id, is_blank, find_row, row_at, done,
  login, logout, find_empty, filled, add_user, delete_user,
}
use computer_science_project.Users.Rows.{find_row_sound, find_row_complete}
use computer_science_project.Users.Login.{
  IsRow, IsTable, add_user_inv, delete_user_inv, row_at-set_self, row_at-set_ne, row_at-IsRow,
  clash,
}

-- A row other than the first can be replaced by one whose name is new or that is blank.
module _ (s t : Accounts) (i : ℕ) (r : Row) (w : IsTable s) (e : t.priv ≡ set s.priv i r)
    (lt : i < used_rows) (sizes : IsRow r) (not_first : i ≢ 0)
    (fresh : (j : ℕ)
      → i ≢ j
      → j < used_rows
      → str_eq 16 r.id (row_at s j).id ≡ true
      → str_eq 16 r.id blank_row.id ≡ true) where
  here : row_at t i ≡ r
  here = row_at-set_self s t i r e (omega (arith, w.rows))

  there : (j : ℕ) → i ≢ j → row_at t j ≡ row_at s j
  there j ne = row_at-set_ne s t i j r e ne

  IsTwin : Row → Row → Type 0
  IsTwin a b = str_eq 16 a.id b.id ≡ true → str_eq 16 a.id blank_row.id ≡ true

  back : (j : ℕ) → i ≢ j → j < used_rows → IsTwin (row_at s j) r
  unfolding IsTwin
  back j ne lt q =
      let q' = str_eq_symm 16 r.id (row_at s j).id ∙ q in
      str_eq_trans 16 (row_at s j).id r.id blank_row.id q (fresh j ne lt q')

  set_row-distinct :
      (j k : ℕ) → j ≢ k → j < used_rows → k < used_rows → IsTwin (row_at t j) (row_at t k)
  unfolding IsTwin
  set_row-distinct j k ne lj lk = elim (ℕ_discrete i j) [
    | yes ej ↦
        let nk : i ≢ k = λ q. ne (sym ej ∙ q) in rw (sym ej, here, there k nk) (fresh k nk lk)
    | no nj ↦ elim (ℕ_discrete i k) [
      | yes ek ↦ rw (there j nj, sym ek, here) (back j nj lj)
      | no nk ↦ rw (there j nj, there k nk) (w.distinct j k ne lj lk)
    ]
  ]

  pub set_row-IsTable : IsTable t
  unfolding IsTwin
  set_row-IsTable = record {
    rows = rw e (length-set s.priv i r ∙ w.rows);
    arrays = rw e (All-set IsRow s.priv i r w.arrays sizes);
    has_root = ap (has_id root) (there 0 not_first) ∙ w.has_root;
    distinct = set_row-distinct;
  }

same_rows-IsTable : (s t : Accounts) → t.priv ≡ s.priv → IsTable s → IsTable t
same_rows-IsTable s t e w = record {
  rows = ap length e ∙ w.rows;
  arrays = rw e w.arrays;
  has_root = rw e w.has_root;
  distinct = rw e w.distinct;
}

-- A row whose name starts with x is not that of root.
blank_ne_root : (name : List ℕ) → get_or name 0 0 ≡ b'x' → str_eq 16 root name ≡ true → ⊥
unfolding str_eq
blank_ne_root [] h e = ground arith
blank_ne_root (c ∷ name) h e = ground arith

add_user-IsTable :
    (s t : Accounts) (u p : List ℕ) → IsTable s → add_user u p s ≡ (t, done) → IsTable t
add_user-IsTable s t u p w h =
    let (i, e, f, rows, disk, count) = add_user_inv u p s t h in
    let (lt, len, blank, before) =
      find_row_sound is_blank used_rows s.priv i (unfold find_empty in e) in
    let old = row_at-IsRow s i w in
    let written = str_eq-strncpy 16 (row_at s i).id u (omega (arith, old)) in
    set_row-IsTable s t i (filled (row_at s i) u p) w rows lt
      (length-strncpy 16 (row_at s i).id u ∙ old.0, length-strncpy 16 (row_at s i).pwd p ∙ old.1)
      (λ z.
        blank_ne_root (row_at s i).id
          (omega (arith, (==_iff (first_byte (row_at s i)) b'x').0 blank)) (rw z w.has_root))
      (λ j ne below q. absurd (
        clash (find_row_complete _ used_rows s.priv f j below (omega (arith, w.rows))) (
          str_eq_symm 16 (row_at s j).id u
          ∙ str_eq_trans 16 u (strncpy 16 (row_at s i).id u) (row_at s j).id written q)))

delete_user-IsTable :
    (s t : Accounts) (u : List ℕ) → IsTable s → delete_user u s ≡ (t, done) → IsTable t
delete_user-IsTable s t u w h =
    let (i, e, not_root, rows, disk) = delete_user_inv u s t h in
    let (lt, len, mine, first) = find_row_sound (has_id u) used_rows s.priv i e in
    set_row-IsTable s t i blank_row w rows lt (refl, refl)
      (λ z.
        let root_here : str_eq 16 root (row_at s i).id ≡ true = rw z w.has_root in
        clash not_root (
          str_eq_trans 16 u (row_at s i).id root mine
            (str_eq_symm 16 (row_at s i).id root ∙ root_here)))
      (λ j ne below q. unfold str_eq in refl)

add_user_unless :
    (s : Accounts) (u p : List ℕ)
    → (add_user u p s ≡ ((add_user u p s).0, done)) ⊎ ((add_user u p s).0 ≡ s)
unfolding add_user
add_user_unless s u p = elim (Option-cases (find_empty s)) [
  | inl e ↦ inr (rw (e, add_user) refl)
  | inr (i, e) ↦ elim (Option-cases (find_row (λ r. str_eq 16 r.id u) used_rows 0 s.priv)) [
    | inl f ↦ inl (ground arith)
    | inr (k, f) ↦ inr (ground arith)
  ]
]

delete_user_unless :
    (s : Accounts) (u : List ℕ)
    → (delete_user u s ≡ ((delete_user u s).0, done)) ⊎ ((delete_user u s).0 ≡ s)
unfolding delete_user
delete_user_unless s u = elim (Option-cases (find_row (has_id u) used_rows 0 s.priv)) [
  | inl e ↦ inr (ground arith)
  | inr (i, e) ↦ elim (Bool-cases (str_eq 16 u root)) [
    | inl t ↦ inr (ground arith)
    | inr f ↦ inl (ground arith)
  ]
]

login-rows : (s : Accounts) (u p : List ℕ) → (login u p s).0.priv ≡ s.priv
unfolding login
login-rows s u p = elim (Option-cases (find_row (has_id u) used_rows 0 s.priv)) [
  | inl e ↦ ground arith
  | inr (i, e) ↦ ground arith
]

-- addUser, deleteUser, login and logout keep the table of accounts well formed, whether they succeed
-- or not: eleven rows of two arrays of seventeen bytes, root in the first, and no name twice among
-- the first ten rows except that of a blank row.
pub operations-IsTable :
    (s : Accounts) (u p : List ℕ)
    → IsTable s
    → IsTable (add_user u p s).0
      × IsTable (delete_user u s).0
      × IsTable (login u p s).0
      × IsTable (logout s)
operations-IsTable s u p w = (
  elim (add_user_unless s u p) [
    | inl h ↦ add_user-IsTable s (add_user u p s).0 u p w h
    | inr e ↦ rw e w
  ],
  elim (delete_user_unless s u) [
    | inl h ↦ delete_user-IsTable s (delete_user u s).0 u w h
    | inr e ↦ rw e w
  ],
  same_rows-IsTable s (login u p s).0 (login-rows s u p) w,
  same_rows-IsTable s (logout s) (unfold logout in refl) w,
)
