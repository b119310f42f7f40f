-- ===== src/Dirs.antt =====
-- Directories and paths in fs.c, Operating system/file system/xv6-public: dirlookup and dirlink on the entries of a
-- directory, skipelem, and namex with the check of the permission to execute. A directory is the list of the entries
-- that readi gives, and the blocks for a new entry can be had. A path is the bytes before its NUL.
pub mod Entries
pub mod Paths
pub mod Walks
mod Tests
use computer_science_project.Prelude.CString.{str_eq, strncpy}
use computer_science_project.Prelude.{
  ℕ, zero, suc, ◌+◌, ◌*◌, ◌%◌, ◌^◌, Bool, true, false, not, ◌&&◌, Option, none, some, List, [], ◌∷◌,
  ◌++◌, ◌==◌, leb, if◌then◌else◌, length, take, drop,
}
use computer_science_project.Users.{Accounts}
use computer_science_project.Users.Permissions.{Inode, mode_xusr, mode_xoth, get_mode_bit}

-- DIRSIZ
abbrev pub dir_size : ℕ
dir_size = 14

pub record Dirent : Type 0 where
  pub inum : ℕ
  pub name : List ℕ

-- sizeof(struct dirent), and MAXFILE*BSIZE
abbrev pub dirent_bytes : ℕ
dirent_bytes = 16

abbrev pub max_bytes : ℕ
max_bytes = (7 + 128) * 512

-- dirlookup in a directory: the inode number.
unfoldable pub dirlookup : List ℕ → List Dirent → Option ℕ
dirlookup name [] = none
dirlookup name (de ∷ es) =
    let rest = dirlookup name es in
    if de.inum == 0 then rest else if str_eq dir_size name de.name then some de.inum else rest

-- The number of entries before the first empty one.
unfoldable pub free_slot : List Dirent → ℕ
free_slot [] = 0
free_slot (de ∷ es) = let rest = free_slot es in if de.inum == 0 then 0 else suc rest

-- The entry that dirlink writes, in the buffer it read last. The number is a ushort.
abbrev pub new_entry : List ℕ → ℕ → Dirent → Dirent
new_entry name inum de = record { inum = inum % 2 ^ 16; name = strncpy dir_size de.name name }

-- The write of dirlink.
unfoldable pub put_entry : List ℕ → ℕ → Dirent → List Dirent → List Dirent
put_entry name inum de [] = new_entry name inum de ∷ []
put_entry name inum old (de ∷ es) =
    let rest = put_entry name inum de es in
    if de.inum == 0 then new_entry name inum de ∷ es else de ∷ rest

-- dirlink; the buffer holds `de` at first. The flag: 0, not -1. `none` is the panic.
unfoldable pub dirlink : List ℕ → ℕ → Dirent → List Dirent → Option (Bool × List Dirent)
unfolding dirlookup free_slot put_entry
dirlink name inum de es = elim (dirlookup name es) [
  | some _ ↦ some (false, es)
  | none ↦
      if leb (free_slot es * dirent_bytes + dirent_bytes) max_bytes
      then some (true, put_entry name inum de es)
      else none
]

abbrev pub slash : ℕ
slash = 47

abbrev pub is_end {ℓ} : {A : Type ℓ} → List A → Bool
is_end [] = true
is_end (c ∷ p) = false

-- The loops of skipelem: over slashes, and over an element.
unfoldable pub skip_slashes : List ℕ → List ℕ
skip_slashes [] = []
skip_slashes (c ∷ p) = let rest = skip_slashes p in if c == slash then rest else c ∷ p

unfoldable pub element : List ℕ → List ℕ
element [] = []
element (c ∷ p) = let rest = element p in if c == slash then [] else c ∷ rest

unfoldable pub behind : List ℕ → List ℕ
behind [] = []
behind (c ∷ p) = let rest = behind p in if c == slash then c ∷ p else rest

-- What skipelem leaves in the array `name`.
abbrev pub put_name : List ℕ → List ℕ → List ℕ
put_name s name =
    if leb dir_size (length s) then take dir_size s else s ++ 0 ∷ drop (suc (length s)) name

-- skipelem: the path behind the element, and `name`.
unfoldable pub skipelem : List ℕ → List ℕ → Option (List ℕ × List ℕ)
unfolding skip_slashes element behind
skipelem path name =
    let p = skip_slashes path in
    if is_end p then none else some (skip_slashes (behind p), put_name (element p) name)

-- The inodes and directories of the disk.
pub record Tree : Type 0 where
  pub inode : ℕ → Inode
  pub entries : ℕ → List Dirent

pub data NamexEnd : Type 0 where
  absent : NamexEnd
  found : ℕ → List ℕ → NamexEnd

-- The tests of a round of namex on the directory.
abbrev pub may_enter : Accounts → Inode → Bool
may_enter s ip = ip.is_dir && not (get_mode_bit s ip mode_xusr mode_xoth == 0)

-- The loop of namex from inode ip on; `none`: the fuel ran out.
unfoldable pub namex_loop : ℕ → Accounts → Tree → Bool → List ℕ → List ℕ → ℕ → Option NamexEnd
unfolding skipelem dirlookup
namex_loop zero s t parent path name ip = none
namex_loop (suc fuel) s t parent path name ip = elim (skipelem path name) [
  | none ↦ some (if parent then absent else found ip name)
  | some (rest, elem) ↦
      if not (may_enter s (t.inode ip))
      then some absent
      else if parent && is_end rest
      then some (found ip elem)
      else elim (dirlookup elem (t.entries ip)) [
        | none ↦ some absent
        | some next ↦ namex_loop fuel s t parent rest elem next
      ]
]

-- ROOTINO
abbrev pub root_ino : ℕ
root_ino = 1

abbrev pub start_at : List ℕ → ℕ → ℕ
start_at [] cwd = cwd
start_at (c ∷ p) cwd = if c == slash then root_ino else cwd

-- A unit of fuel for each byte of the path, and one.
unfoldable pub namex : Accounts → Tree → ℕ → Bool → List ℕ → List ℕ → Option NamexEnd
unfolding namex_loop
namex s t cwd parent path name =
    namex_loop (suc (length path)) s t parent path name (start_at path cwd)
