-- ===== src/Users/Permissions.antt =====
-- Who may do what: get_modeBit of fs.c, and the checks of sys_open, sys_chmod and the system calls on
-- accounts in sysfile.c.
use computer_science_project.Prelude.CString.{str_eq, strncpy}
use computer_science_project.Prelude.{
  ℕ, Bool, not, ◌&&◌, ◌||◌, Option, none, some, List, ◌==◌, if◌then◌else◌, bit_and,
}
use computer_science_project.Users.{
  Accounts, Answer, done, failed, root, get_now, add_user, delete_user,
}

-- the fields of struct inode that the checks read
pub record Inode : Type 0 where
  pub owner : List ℕ
  pub permission : ℕ
  pub is_dir : Bool

abbrev pub mode_rusr : ℕ
mode_rusr = 32

abbrev pub mode_wusr : ℕ
mode_wusr = 16

abbrev pub mode_xusr : ℕ
mode_xusr = 8

abbrev pub mode_roth : ℕ
mode_roth = 4

abbrev pub mode_woth : ℕ
mode_woth = 2

abbrev pub mode_xoth : ℕ
mode_xoth = 1

-- strncmp(ip->owner, get_now(), 16) == 0 || strncmp("root", get_now(), 16) == 0
unfoldable pub is_owner : Accounts → Inode → Bool
is_owner s ip = str_eq 16 ip.owner (get_now s) || str_eq 16 root (get_now s)

-- What C reads in own_mode&(ip->permission)==0: the comparison binds tighter than &.
unfoldable pub owner_test : ℕ → ℕ → ℕ
owner_test own_mode permission = bit_and own_mode (if permission == 0 then 1 else 0)

-- get_modeBit
unfoldable pub get_mode_bit : Accounts → Inode → ℕ → ℕ → ℕ
unfolding owner_test
get_mode_bit s ip own_mode oth_mode =
    if not s.initial
    then 1
    else if is_owner s ip
    then (if owner_test own_mode ip.permission == 0 then 1 else 0)
    else if bit_and oth_mode ip.permission == 0
    then 0
    else 1

-- sys_chmod, on what namei found
unfoldable pub sys_chmod : Accounts → Option Inode → ℕ → Option Inode × Answer
unfolding is_owner
sys_chmod s none mode = (none, failed)
sys_chmod s (some ip) mode =
    if not (is_owner s ip)
    then (some ip, failed)
    else (some (record ip { permission = mode }), done)

-- what sys_open sets up in the struct file and the file table
pub record Opened : Type 0 where
  pub fd : ℕ
  pub ip : Inode
  pub readable : Bool
  pub writable : Bool

-- the checks for `wr` and `rd`
unfoldable pub open_checks : Accounts → Inode → ℕ → Bool
unfolding get_mode_bit
open_checks s ip omode =
    let wr = omode == 1 || omode == 2 in
    let rd = omode == 0 || omode == 2 in
    not (wr && get_mode_bit s ip mode_wusr mode_woth == 0)
    && not (rd && get_mode_bit s ip mode_rusr mode_roth == 0)

-- the end of sys_open, with what fdalloc returned
unfoldable pub open_file : Accounts → Inode → ℕ → Option ℕ → Option Opened
unfolding open_checks
open_file s ip omode none = none
open_file s ip omode (some fd) =
    if open_checks s ip omode
    then some record {
      fd = fd;
      ip = ip;
      readable = bit_and omode 1 == 0;
      writable = not (bit_and omode 1 == 0) || not (bit_and omode 2 == 0);
    }
    else none

-- sys_open without O_CREATE, on what namei found
unfoldable pub open_existing : Accounts → Option Inode → ℕ → Option ℕ → Option Opened
unfolding open_file
open_existing s none omode fd = none
open_existing s (some ip) omode fd =
    let opened = open_file s ip omode fd in if ip.is_dir && not (omode == 0) then none else opened

-- sys_open with O_CREATE, on what create returned
unfoldable pub open_created : Accounts → Option Inode → ℕ → Option ℕ → Option Opened
unfolding open_file strncpy
open_created s none omode fd = none
open_created s (some ip) omode fd =
    open_file s (record ip { owner = strncpy 16 ip.owner (get_now s); permission = 52 }) omode fd

-- sys_open: `found` is the result of namei, `created` that of create, `fd` that of fdalloc
unfoldable pub sys_open : Accounts → Option Inode → Option Inode → ℕ → Option ℕ → Option Opened
sys_open s found created omode fd =
    if not (bit_and omode 512 == 0)
    then open_created s created omode fd
    else open_existing s found omode fd

-- sys_addUser and sys_deleteUser, for arguments that can be read; `has_userS` says that /userS exists
unfoldable pub sys_add_user : Bool → List ℕ → List ℕ → Accounts → Accounts × Answer
unfolding add_user
sys_add_user has_userS username password s =
    let result = add_user username password s in
    if not (str_eq 16 root (get_now s))
    then (s, failed)
    else if not has_userS
    then (s, failed)
    else result

unfoldable pub sys_delete_user : List ℕ → Accounts → Accounts × Answer
unfolding delete_user
sys_delete_user username s =
    let result = delete_user username s in
    if not (str_eq 16 root (get_now s)) then (s, failed) else result
