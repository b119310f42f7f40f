-- ===== src/Users/Login.antt =====
-- login, addUser and deleteUser of fs.c together.
use computer_science_project.Prelude.CString.{str_eq, str_eq-strncpy, str_eq_symm}
use computer_science_project.Prelude.{
  ℕ, ◌<◌, ◌≡◌, refl, ap, ◌∙◌, ◌≢◌, inl, inr, Bool, true, false, none, some, List, arith, get_or,
  set, length, ◌==◌, if◌then◌else◌, Bool-cases, Option-cases, get_or-set_self, get_or-set_ne,
  length-set, All, All-get_or,
}
use computer_science_project.Prelude.Words.{add_w}
use computer_science_project.Users.{
  Row, num_rows, used_rows, blank_row, Accounts, root, has_id, is_blank, find_row, row_at, done,
  failed, login, get_now, find_empty, filled, add_user, delete_user,
}
use computer_science_project.Users.Rows.{
  IsFirstRow, find_row_sound, find_row_complete, find_row-first,
}

abbrev pub IsRow : Row → Type 0
IsRow r = (length r.id ≡ 17) × (length r.pwd ≡ 17)

-- The table has its eleven rows, the first is that of root, and two of the ten rows that are
-- searched have the same name only if it is that of a blank row.
pub record IsTable (s : Accounts) : Type 0 where
  pub rows : length s.priv ≡ num_rows
  pub arrays : All IsRow s.priv
  pub has_root : has_id root (row_at s 0) ≡ true
  pub distinct :
      (i j : ℕ)
      → i ≢ j
      → i < used_rows
      → j < used_rows
      → str_eq 16 (row_at s i).id (row_at s j).id ≡ true
      → str_eq 16 (row_at s i).id blank_row.id ≡ true

-- What a successful addUser did.
pub add_user_inv :
    (u p : List ℕ) (s t : Accounts)
    → add_user u p s ≡ (t, done)
    → (i : ℕ) × (find_empty s ≡ some i)
      × (find_row (λ r. str_eq 16 r.id u) used_rows 0 s.priv ≡ none)
      × (t.priv ≡ set s.priv i (filled (row_at s i) u p))
      × (t.stored ≡ t.priv)
      × (t.num ≡ add_w s.num 1)
unfolding add_user
add_user_inv u p s t h = elim (Option-cases (find_empty s)) [
  | inl e ↦ absurd (ground arith)
  | inr (i, e) ↦ elim (Option-cases (find_row (λ r. str_eq 16 r.id u) used_rows 0 s.priv)) [
    | inl f ↦ (i, e, f, ground arith, ground arith, ground arith)
    | inr (k, f) ↦ absurd (ground arith)
  ]
]

pub delete_user_inv :
    (u : List ℕ) (s t : Accounts)
    → delete_user u s ≡ (t, done)
    → (i : ℕ) × (find_row (has_id u) used_rows 0 s.priv ≡ some i)
      × (str_eq 16 u root ≡ false)
      × (t.priv ≡ set s.priv i blank_row)
      × (t.stored ≡ t.priv)
unfolding delete_user
delete_user_inv u s t h = elim (Option-cases (find_row (has_id u) used_rows 0 s.priv)) [
  | inl e ↦ absurd (ground arith)
  | inr (i, e) ↦ (i, e, ground arith, ground arith, ground arith)
]

pub row_at-set_self :
    (s t : Accounts) (i : ℕ) (r : Row)
    → t.priv ≡ set s.priv i r
    → i < length s.priv
    → row_at t i ≡ r
row_at-set_self s t i r e h =
    ap (λ rows. get_or rows i blank_row) e ∙ get_or-set_self s.priv i r blank_row h

pub row_at-set_ne :
    (s t : Accounts) (i j : ℕ) (r : Row) → t.priv ≡ set s.priv i r → i ≢ j → row_at t j ≡ row_at s j
row_at-set_ne s t i j r e h =
    ap (λ rows. get_or rows j blank_row) e ∙ get_or-set_ne s.priv i j r blank_row h

pub row_at-IsRow : (s : Accounts) (i : ℕ) → IsTable s → IsRow (row_at s i)
row_at-IsRow s i w = All-get_or IsRow s.priv i blank_row w.arrays (refl, refl)

pub clash : {b : Bool} → b ≡ false → b ≡ true → ⊥
clash p q = cc

pub login-first :
    (u p : List ℕ) (s : Accounts) (i : ℕ)
    → IsFirstRow (has_id u) used_rows s.priv i
    → str_eq 16 p (row_at s i).pwd ≡ true
    → login u p s ≡ (record s { using_idx = i }, done)
unfolding login
login-first u p s i first e =
    rw (find_row-first (has_id u) used_rows s.priv i first, login) (ground arith)

pub login-none :
    (u p : List ℕ) (s : Accounts)
    → ((j : ℕ) → j < used_rows → has_id u (row_at s j) ≡ false)
    → login u p s ≡ (s, failed)
unfolding login
login-none u p s none_has = elim (Option-cases (find_row (has_id u) used_rows 0 s.priv)) [
  | inl e ↦ rw (e, login)
  | inr (k, e) ↦
      let (lt, len, t, first) = find_row_sound (has_id u) used_rows s.priv k e in
      absurd (clash (none_has k lt) t)
]

-- The current user after a login with row i.
get_now-account :
    (u : List ℕ) (t : Accounts) (i : ℕ)
    → has_id u (row_at t i) ≡ true
    → str_eq 16 (if t.num == 0 then root else u) (get_now (record t { using_idx = i })) ≡ true
unfolding get_now
get_now-account u t i mine = elim (Bool-cases (t.num == 0)) [
  | inl z ↦ rw z (unfold str_eq in refl)
  | inr f ↦ rw f mine
]

-- An account that was added to a well-formed table can log in with its name and password, and
-- get_now then gives its name, or root if the count of users is 0.
pub add_user-login :
    (u p : List ℕ) (s t : Accounts)
    → IsTable s
    → add_user u p s ≡ (t, done)
    → (i : ℕ) × (login u p t ≡ (record t { using_idx = i }, done))
      × (str_eq 16 (if t.num == 0 then root else u) (get_now (record t { using_idx = i })) ≡ true)
add_user-login u p s t w h =
    let (i, e, f, rows, disk, count) = add_user_inv u p s t h in
    let (lt, len, blank, before) =
      find_row_sound is_blank used_rows s.priv i (unfold find_empty in e) in
    let row = row_at-set_self s t i _ rows len in
    let arrays = row_at-IsRow s i w in
    let mine : has_id u (row_at t i) ≡ true =
      rw row (str_eq-strncpy 16 (row_at s i).id u (omega (arith, arrays))) in
    let key : str_eq 16 p (row_at t i).pwd ≡ true =
      rw row (str_eq-strncpy 16 (row_at s i).pwd p (omega (arith, arrays))) in
    (
      i,
      login-first u p t i
          (
            lt,
            rw (ap length rows ∙ length-set s.priv i _) len,
            mine,
            λ j below.
                ap (has_id u) (row_at-set_ne s t i j _ rows (omega arith))
                ∙ (str_eq_symm 16 u (row_at s j).id
                    ∙ find_row_complete _ used_rows s.priv f j (omega arith)
                        (omega (arith, w.rows))),
          )
          key,
      get_now-account u t i mine,
    )
