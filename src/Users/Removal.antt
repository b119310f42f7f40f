-- ===== src/Users/Removal.antt =====
-- deleteUser of fs.c against login, and what a name that begins with x does to its account.
use computer_science_project.Prelude.CString.{
  str_eq, strncpy, str_eq-strncpy, str_eq_symm, str_eq_trans, length-strncpy,
}
use computer_science_project.Prelude.{
  ℕ, ◌<◌, ◌≡◌, refl, ap, sym, ◌∙◌, inl, inr, true, false, none, some, List, [], ◌∷◌, arith,
  ℕ_discrete, get_or, set, replicate, length, Bool-cases, length-set,
}
use computer_science_project.Users.{
  Row, used_rows, blank_row, Accounts, has_id, is_blank, find_row, row_at, done, failed, login,
  find_empty, filled, add_user, delete_user,
}
use computer_science_project.Users.Rows.{
  IsFirstRow, find_row_sound, find_row_complete, find_row-first,
}
use computer_science_project.Users.Login.{
  IsTable, add_user_inv, delete_user_inv, row_at-set_self, row_at-set_ne, row_at-IsRow, clash,
  login-none, login-first,
}

-- After deleteUser from a well-formed table the name cannot log in with any password, unless it is
-- the name of a blank row.
pub delete_user-login :
    (u p : List ℕ) (s t : Accounts)
    → IsTable s
    → delete_user u s ≡ (t, done)
    → str_eq 16 u blank_row.id ≡ false
    → login u p t ≡ (t, failed)
delete_user-login u p s t w h named =
    let (i, e, not_root, rows, disk) = delete_user_inv u s t h in
    let (lt, len, mine, first) = find_row_sound (has_id u) used_rows s.priv i e in
    login-none u p t (gone i lt len mine rows)
  where
    gone :
        (i : ℕ)
        → i < used_rows
        → i < length s.priv
        → has_id u (row_at s i) ≡ true
        → t.priv ≡ set s.priv i blank_row
        → (j : ℕ) → j < used_rows
        → has_id u (row_at t j) ≡ false
    gone i lt len mine rows j below = elim (ℕ_discrete i j) [
      | yes e ↦
          ap (λ (k : ℕ). has_id u (row_at t k)) (sym e)
          ∙ (ap (has_id u) (row_at-set_self s t i blank_row rows len) ∙ named)
      | no ne ↦ elim (Bool-cases (has_id u (row_at s j))) [
        | inr f ↦ ap (has_id u) (row_at-set_ne s t i j blank_row rows ne) ∙ f
        | inl yours ↦
            let back = str_eq_symm 16 (row_at s i).id u ∙ mine in
            let both = str_eq_trans 16 (row_at s i).id u (row_at s j).id back yours in
            absurd (
              clash named (
                str_eq_trans 16 u (row_at s i).id blank_row.id mine
                  (w.distinct i j ne lt below both)))
      ]
    ]

-- A blank row lets its pattern in: sixteen times x, as name and as password.
pub login-blank :
    (s : Accounts) (i : ℕ)
    → IsFirstRow (has_id (replicate 16 b'x')) used_rows s.priv i
    → row_at s i ≡ blank_row
    → login (replicate 16 b'x') (replicate 16 b'x') s ≡ (record s { using_idx = i }, done)
login-blank s i first e =
    login-first (replicate 16 b'x') (replicate 16 b'x') s i first
      (ap (λ r. str_eq 16 (replicate 16 b'x') r.pwd) e ∙ (unfold str_eq in refl))

x_first : (dst src : List ℕ) → length dst ≡ 17 → get_or (strncpy 16 dst (b'x' ∷ src)) 0 0 ≡ b'x'
unfolding strncpy
x_first [] src h = absurd (omega arith)
x_first (d ∷ dst) src h = refl

module _ (u p : List ℕ) (s t : Accounts) (w : IsTable s) where
  -- the row that the account took still counts as empty
  x_name-find_empty :
      add_user (b'x' ∷ u) p s ≡ (t, done)
      → (i : ℕ) × (find_empty t ≡ some i)
        × (i < used_rows)
        × (i < length s.priv)
        × (t.priv ≡ set s.priv i (filled (row_at s i) (b'x' ∷ u) p))
        × ((j : ℕ) → j < used_rows → str_eq 16 (row_at s j).id (b'x' ∷ u) ≡ false)
  unfolding find_empty
  x_name-find_empty h =
      let (i, e, f, rows, disk, count) = add_user_inv (b'x' ∷ u) p s t h in
      let (lt, len, blank, before) = find_row_sound is_blank used_rows s.priv i e in
      let row = row_at-set_self s t i _ rows len in
      let x = x_first (row_at s i).id u (row_at-IsRow s i w).0 in
      let still : is_blank (row_at t i) ≡ true = ap is_blank row ∙ rw x refl in
      (
        i,
        find_row-first is_blank used_rows t.priv i (
          lt,
          rw (ap length rows ∙ length-set s.priv i _) len,
          still,
          λ j below. ap is_blank (row_at-set_ne s t i j _ rows (omega arith)) ∙ before j below,
        ),
        lt,
        len,
        rows,
        λ j below. find_row_complete _ used_rows s.priv f j below (omega (arith, w.rows)),
      )

apart :
    (a v old new : List ℕ)
    → str_eq 16 a old ≡ true
    → str_eq 16 v new ≡ true
    → str_eq 16 old v ≡ false
    → str_eq 16 a new ≡ false
apart a v old new p q ne = elim (Bool-cases (str_eq 16 a new)) [
  | inr f ↦ f
  | inl t ↦
      let old-a = str_eq_symm 16 old a ∙ p in
      let new-v = str_eq_symm 16 new v ∙ q in
      absurd (clash ne (str_eq_trans 16 old a v old-a (str_eq_trans 16 a new v t new-v)))
]

-- An account whose name begins with x, once added to a well-formed table, stands in the row that
-- counts as the next empty one: if another account is added then, it stands in that row, and the
-- first cannot log in any more.
pub add_user-overwrites :
    (u p v q k : List ℕ) (s t t' : Accounts)
    → IsTable s
    → add_user (b'x' ∷ u) p s ≡ (t, done)
    → add_user v q t ≡ (t', done)
    → (i : ℕ) × (find_empty t ≡ some i)
      × (has_id (b'x' ∷ u) (row_at t i) ≡ true)
      × (has_id v (row_at t' i) ≡ true)
      × (login (b'x' ∷ u) k t' ≡ (t', failed))
add_user-overwrites u p v q k s t t' w h h' =
    let (i, e, lt, len, rows, others) = x_name-find_empty u p s t w h in
    let (i', e', f', rows', disk', count') = add_user_inv v q t t' h' in
    let same : i' ≡ i = ground arith in
    let rows'' : t'.priv ≡ set t.priv i (filled (row_at t i) v q) = rw same at rows' in
    let (here, next) = taken i lt len rows rows'' in
    (i, e, here, next, login-none (b'x' ∷ u) k t' (gone i lt len rows others rows'' f'))
  where
    taken :
        (i : ℕ)
        → i < used_rows
        → i < length s.priv
        → t.priv ≡ set s.priv i (filled (row_at s i) (b'x' ∷ u) p)
        → t'.priv ≡ set t.priv i (filled (row_at t i) v q)
        → (has_id (b'x' ∷ u) (row_at t i) ≡ true) × (has_id v (row_at t' i) ≡ true)
    taken i lt len rows rows' =
        let len_t : i < length t.priv = rw (ap length rows ∙ length-set s.priv i _) len in
        let row = row_at-set_self s t i _ rows len in
        let row' = row_at-set_self t t' i _ rows' len_t in
        let arrays = row_at-IsRow s i w in
        let size : length (row_at t i).id ≡ 17 =
          ap (λ (r : Row). length r.id) row
          ∙ (length-strncpy 16 (row_at s i).id (b'x' ∷ u) ∙ arrays.0) in
        (
          ap (has_id (b'x' ∷ u)) row
              ∙ str_eq-strncpy 16 (row_at s i).id (b'x' ∷ u) (omega (arith, arrays)),
          ap (has_id v) row' ∙ str_eq-strncpy 16 (row_at t i).id v (omega arith),
        )

    gone :
        (i : ℕ)
        → i < used_rows
        → i < length s.priv
        → t.priv ≡ set s.priv i (filled (row_at s i) (b'x' ∷ u) p)
        → ((j : ℕ) → j < used_rows → str_eq 16 (row_at s j).id (b'x' ∷ u) ≡ false)
        → t'.priv ≡ set t.priv i (filled (row_at t i) v q)
        → find_row (λ r. str_eq 16 r.id v) used_rows 0 t.priv ≡ none
        → (j : ℕ) → j < used_rows
        → has_id (b'x' ∷ u) (row_at t' j) ≡ false
    gone i lt len rows others rows' f' j below = elim (ℕ_discrete i j) [
      | no ne ↦
          ap (has_id (b'x' ∷ u))
            (row_at-set_ne t t' i j _ rows' ne ∙ row_at-set_ne s t i j _ rows ne)
          ∙ (str_eq_symm 16 (b'x' ∷ u) (row_at s j).id ∙ others j below)
      | yes e ↦
          let len_t : i < length t.priv = rw (ap length rows ∙ length-set s.priv i _) len in
          let (old, new) = taken i lt len rows rows' in
          let differs = find_row_complete _ used_rows t.priv f' i lt len_t in
          ap (λ (n : ℕ). has_id (b'x' ∷ u) (row_at t' n)) (sym e)
          ∙ apart (b'x' ∷ u) v (row_at t i).id (row_at t' i).id old new differs
    ]
