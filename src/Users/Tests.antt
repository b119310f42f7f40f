-- ===== src/Users/Tests.antt =====
-- The accounts and the permissions at concrete inputs.
use computer_science_project.Prelude.CString.{str_eq, strncpy}
use computer_science_project.Prelude.Text.{codes}
use computer_science_project.Prelude.{
  ℕ, zero, suc, ◌+◌, ◌/◌, ◌%◌, ◌^◌, ◌<◌, ◌≡◌, ◌≢◌, ◌↔◌, ◌⊎◌, refl, ap, none, some, get_or, List, [],
  ◌∷◌, replicate, set, arith, true, false, ◌==◌, if◌then◌else◌,
}
use computer_science_project.Users.{
  Row, Accounts, blank_row, root, root_row, has_id, find_row, used_rows, row_at, get_now, myopen,
  done, failed, login, logout, find_empty, filled, add_user, delete_user, update,
}
use computer_science_project.Prelude.Words.{add_w, sub_w}
use computer_science_project.Users.Rows.{IsFirstRow}
use computer_science_project.Users.Login.{IsTable, clash, add_user-login}
use computer_science_project.Users.Removal.{login-blank, add_user-overwrites}
use computer_science_project.Users.Invariant.{operations-IsTable}
use computer_science_project.Users.Permissions.{
  Inode, is_owner, get_mode_bit, mode_rusr, mode_wusr, mode_xusr, Opened, sys_open, open_existing,
  open_file, open_checks, sys_add_user,
}
use computer_science_project.Users.Access.{get_mode_bit_lem, sys_open-checks, sys_open-unchecked}

-- the table that myopen makes of an empty file
abbrev first_boot : Accounts
first_boot = record {
  using_idx = 0;
  priv = root_row blank_row ∷ replicate 10 blank_row;
  num = 1;
  initial = true;
  stored = root_row blank_row ∷ replicate 10 blank_row;
}

myopen_first :
    myopen
      record { using_idx = 0; priv = replicate 11 blank_row; num = 0; initial = false; stored = [] }
    ≡ record first_boot { stored = first_boot.priv }
unfolding myopen update
myopen_first = refl

get_or-replicate : (n i : ℕ) (r : Row) → get_or (replicate n r) i r ≡ r
get_or-replicate zero i r = refl
get_or-replicate (suc n) zero r = refl
get_or-replicate (suc n) (suc i) r = get_or-replicate n i r

root_ne_blank : str_eq 16 (root_row blank_row).id blank_row.id ≡ false
unfolding str_eq strncpy
root_ne_blank = refl

first_boot-distinct :
    (i j : ℕ)
    → i ≢ j
    → i < used_rows
    → j < used_rows
    → str_eq 16 (row_at first_boot i).id (row_at first_boot j).id ≡ true
    → str_eq 16 (row_at first_boot i).id blank_row.id ≡ true
first_boot-distinct zero zero ne hi hj e = absurd (ne refl)
first_boot-distinct zero (suc j) ne hi hj e =
    absurd (clash root_ne_blank (rw (get_or-replicate 10 j blank_row) at e))
first_boot-distinct (suc i) j ne hi hj e =
    rw (get_or-replicate 10 i blank_row) (unfold str_eq in refl)

first_boot-IsTable : IsTable first_boot
unfolding str_eq strncpy
first_boot-IsTable = record {
  rows = refl;
  arrays = ground arith;
  has_root = refl;
  distinct = first_boot-distinct;
}

abbrev bob : List ℕ
bob = codes "bob"

abbrev secret : List ℕ
secret = codes "1234"

-- the table after `account name`
abbrev extended : Accounts → ℕ → List ℕ → Accounts
extended s i name = record s {
  priv = set s.priv i (filled (row_at s i) name secret);
  stored = set s.priv i (filled (row_at s i) name secret);
  num = s.num + 1;
}

abbrev with_bob : Accounts
with_bob = extended first_boot 1 bob

adds_bob : add_user bob secret first_boot ≡ (with_bob, done)
unfolding add_user find_row str_eq strncpy add_w find_empty update
adds_bob = refl

add_user-login_example :
    (i : ℕ) × (login bob secret with_bob ≡ (record with_bob { using_idx = i }, done))
    × (str_eq 16 (if 2 == 0 then root else bob) (get_now (record with_bob { using_idx = i }))
        ≡ true)
add_user-login_example = add_user-login bob secret first_boot with_bob first_boot-IsTable adds_bob

-- The name of a blank row is deleted twice: the count of users wraps around, an account that is added makes it
-- zero, and who logs in there is root.
abbrev blank_name : List ℕ
blank_name = replicate 16 b'x'

abbrev miscounted : Accounts
miscounted =
    (add_user bob secret (delete_user blank_name (delete_user blank_name first_boot).0).0).0

bob_as_root : get_now (login bob secret miscounted).0 ≡ root
unfolding get_now login add_user delete_user find_row find_empty update str_eq strncpy add_w sub_w
bob_as_root = refl

with_bob-IsTable : IsTable with_bob
with_bob-IsTable = rw adds_bob at (operations-IsTable first_boot bob secret first_boot-IsTable).0

abbrev without_bob : Accounts
without_bob = record first_boot { stored = first_boot.priv }

deletes_bob : delete_user bob with_bob ≡ (without_bob, done)
unfolding delete_user find_row str_eq strncpy sub_w update
deletes_bob = refl

before_first :
    (j : ℕ) → j < 1 → has_id (replicate 16 b'x') (get_or first_boot.priv j blank_row) ≡ false
unfolding str_eq strncpy
before_first zero below = refl
before_first (suc j) below = absurd (omega arith)

first_blank : IsFirstRow (has_id (replicate 16 b'x')) used_rows first_boot.priv 1
unfolding str_eq strncpy
first_blank = (omega arith, omega arith, refl, before_first)

login-blank_example :
    login (replicate 16 b'x') (replicate 16 b'x') first_boot
    ≡ (record first_boot { using_idx = 1 }, done)
login-blank_example = login-blank first_boot 1 first_blank refl

abbrev xena : List ℕ
xena = codes "xena"

abbrev with_xena : Accounts
with_xena = extended first_boot 1 xena

abbrev with_bob_instead : Accounts
with_bob_instead = extended with_xena 1 bob

adds_xena : add_user xena secret first_boot ≡ (with_xena, done)
unfolding add_user find_row str_eq strncpy add_w find_empty update
adds_xena = refl

adds_bob_instead : add_user bob secret with_xena ≡ (with_bob_instead, done)
unfolding add_user find_row str_eq strncpy add_w find_empty update
adds_bob_instead = refl

add_user-overwrites_example :
    (i : ℕ) × (find_empty with_xena ≡ some i)
    × (has_id xena (row_at with_xena i) ≡ true)
    × (has_id bob (row_at with_bob_instead i) ≡ true)
    × (login xena secret with_bob_instead ≡ (with_bob_instead, failed))
add_user-overwrites_example =
    add_user-overwrites (codes "ena") secret bob secret secret first_boot with_xena with_bob_instead
      first_boot-IsTable adds_xena adds_bob_instead

operations-IsTable_example :
    IsTable (add_user bob secret first_boot).0
    × IsTable (delete_user bob first_boot).0
    × IsTable (login bob secret first_boot).0
    × IsTable (logout first_boot)
operations-IsTable_example = operations-IsTable first_boot bob secret first_boot-IsTable

-- a file of root that others can read
abbrev readable_file : Inode
readable_file = record { owner = root; permission = 52; is_dir = false }

abbrev as_bob : Accounts
as_bob = record with_bob { using_idx = 1 }

bob_ne_owner : is_owner as_bob readable_file ≡ false
unfolding is_owner str_eq strncpy get_now
bob_ne_owner = refl

get_mode_bit_lem_example :
    ((own_mode : ℕ)
      → is_owner as_bob readable_file ≡ false
      → (get_mode_bit as_bob readable_file own_mode (2 ^ 2) ≡ 1) ↔ (52 / 2 ^ 2 % 2 ≡ 1))
    × (is_owner as_bob readable_file ≡ true
        → get_mode_bit as_bob readable_file mode_rusr (2 ^ 2) ≡ 1)
    × (is_owner as_bob readable_file ≡ true
        → get_mode_bit as_bob readable_file mode_wusr (2 ^ 2) ≡ 1)
    × (is_owner as_bob readable_file ≡ true
        → get_mode_bit as_bob readable_file mode_xusr (2 ^ 2) ≡ 1)
get_mode_bit_lem_example = get_mode_bit_lem as_bob readable_file 2 refl

abbrev opened : Opened
opened = record { fd = 3; ip = readable_file; readable = true; writable = false }

opens : sys_open as_bob (some readable_file) none 0 (some 3) ≡ some opened
unfolding sys_open open_existing open_file open_checks is_owner str_eq strncpy get_now get_mode_bit
opens = refl

sys_open-checks_example :
    (opened.writable ≡ true → (is_owner as_bob readable_file ≡ true) ⊎ (52 / 2 % 2 ≡ 1))
    × (opened.readable ≡ true → (is_owner as_bob readable_file ≡ true) ⊎ (52 / 4 % 2 ≡ 1))
    × (opened.ip ≡ readable_file)
sys_open-checks_example =
    sys_open-checks as_bob readable_file none 0 (some 3) opened refl (omega arith) opens

sys_open-unchecked_example :
    sys_open as_bob (some readable_file) none 3 (some 3)
    ≡ some record { fd = 3; ip = readable_file; readable = false; writable = true }
sys_open-unchecked_example = sys_open-unchecked as_bob readable_file none 3 refl

two_ne : ◌≡◌ {A = ℕ} 2 1 → ⊥
two_ne e = omega arith

root_adds : (sys_add_user true bob secret first_boot).0 ≢ first_boot
unfolding sys_add_user get_now add_user find_row str_eq strncpy add_w find_empty update
root_adds e = two_ne (ap (λ (a : Accounts). a.num) e)
