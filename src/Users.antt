-- ===== src/Users.antt =====
-- The user accounts and the permission checks of the file system: Operating system/file system/
-- xv6-public/fs.c (from `user_info` on) and the calls of them in sysfile.c.
pub mod Rows
pub mod Login
pub mod Removal
pub mod Permissions
pub mod Access
pub mod Invariant
mod Tests
use computer_science_project.Prelude.Words.{add_w, sub_w}
use computer_science_project.Prelude.Text.{codes}
use computer_science_project.Prelude.CString.{str_eq, strncpy}
use computer_science_project.Prelude.{
  ℕ, zero, suc, ◌+◌, ◌-◌, Bool, true, false, ◌&&◌, ◌||◌, Option, none, some, List, [], ◌∷◌, bit_and,
  bit_or, ltb, ◌==◌, if◌then◌else◌, get_or, set, replicate, length,
}

-- user_info.priv[i]: two arrays of 17 bytes
pub record Row : Type 0 where
  pub id : List ℕ
  pub pwd : List ℕ

abbrev pub num_rows : ℕ
num_rows = 11

-- the bound of the loops over the rows
abbrev pub used_rows : ℕ
used_rows = 10

-- memset(…, 'x', …)
abbrev pub blank_row : Row
blank_row = record { id = replicate 17 b'x'; pwd = replicate 17 b'x' }

-- `user_info` and `initial`, and what the file /userS holds: the rows that it covers.
pub record Accounts : Type 0 where
  pub using_idx : ℕ
  pub priv : List Row
  pub num : ℕ
  pub initial : Bool
  pub stored : List Row

abbrev pub root : List ℕ
root = codes "root"

abbrev pub first_byte : Row → ℕ
first_byte r = get_or r.id 0 0

-- the tests of the loops
abbrev pub has_id : List ℕ → Row → Bool
has_id name r = str_eq 16 name r.id

abbrev pub is_blank : Row → Bool
is_blank r = first_byte r == b'x'

-- The index of the first of the first n rows that passes a test, counted from i: the loops
-- `for (i = 0; i < 10; i++) if (…) return …`.
unfoldable pub find_row : (Row → Bool) → ℕ → ℕ → List Row → Option ℕ
find_row test zero i rows = none
find_row test (suc n) i [] = none
find_row test (suc n) i (r ∷ rows) =
    let later = find_row test n (i + 1) rows in if test r then some i else later

abbrev pub row_at : Accounts → ℕ → Row
row_at s i = get_or s.priv i blank_row

-- get_now
unfoldable pub get_now : Accounts → List ℕ
get_now s = if s.num == 0 then root else (row_at s s.using_idx).id

-- `update`: 374 bytes are written at offset 0, which a file always has room for.
unfoldable pub update : Accounts → Accounts
update s = record s { stored = s.priv }

-- readi(userS, priv, 0, 374) over an array of blank rows, for a file that holds whole rows
unfoldable pub overlay : List Row → List Row → List Row
overlay [] old = old
overlay (r ∷ rows) [] = []
overlay (r ∷ rows) (o ∷ old) = r ∷ overlay rows old

unfoldable pub count_used : ℕ → List Row → ℕ
count_used zero rows = 0
count_used (suc n) [] = 0
count_used (suc n) (r ∷ rows) =
    let later = count_used n rows in if is_blank r then later else later + 1

abbrev pub root_row : Row → Row
root_row r = record { id = strncpy 16 r.id root; pwd = strncpy 16 r.pwd (codes "0000") }

-- `myopen`. `num` is added to, and not set.
unfoldable pub myopen : Accounts → Accounts
unfolding overlay count_used update strncpy add_w
myopen s =
    let rows = overlay s.stored (replicate num_rows blank_row) in
    let n = add_w s.num (count_used used_rows rows) in
    let t = record s { priv = rows; num = n; initial = true } in
    if n == 0
    then update
        (record t { priv = set rows 0 (root_row (get_or rows 0 blank_row)); num = add_w n 1 })
    else update t

-- What a call returns: 0, or -1 with its message.
pub data Answer : Type 0 where
  done failed : Answer

unfoldable pub login : List ℕ → List ℕ → Accounts → Accounts × Answer
login username password s = elim (find_row (has_id username) used_rows 0 s.priv) [
  | none ↦ (s, failed)
  | some i ↦
      if str_eq 16 password (row_at s i).pwd
      then (record s { using_idx = i }, done)
      else (s, failed)
]

unfoldable pub logout : Accounts → Accounts
logout s = record s { using_idx = 0 }

unfoldable pub find_empty : Accounts → Option ℕ
find_empty s = find_row is_blank used_rows 0 s.priv

abbrev pub filled : Row → List ℕ → List ℕ → Row
filled r username password = record {
  id = strncpy 16 r.id username;
  pwd = strncpy 16 r.pwd password;
}

unfoldable pub add_user : List ℕ → List ℕ → Accounts → Accounts × Answer
unfolding find_empty update
add_user username password s = elim (find_empty s) [
  | none ↦ (s, failed)
  | some i ↦ elim (find_row (λ r. str_eq 16 r.id username) used_rows 0 s.priv) [
    | some _ ↦ (s, failed)
    | none ↦
        let t = update (record s { priv = set s.priv i (filled (row_at s i) username password) }) in
        (record t { num = add_w t.num 1 }, done)
  ]
]

unfoldable pub delete_user : List ℕ → Accounts → Accounts × Answer
unfolding update
delete_user username s =
    if str_eq 16 username root
    then (s, failed)
    else elim (find_row (has_id username) used_rows 0 s.priv) [
      | none ↦ (s, failed)
      | some i ↦
          let t = update (record s { priv = set s.priv i blank_row }) in
          (record t { num = sub_w t.num 1 }, done)
    ]
