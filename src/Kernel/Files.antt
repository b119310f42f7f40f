-- ===== src/Kernel/Files.antt =====
-- Open files and descriptors: file.c, sysfile.c and the loops over descriptors in fork and exit of proc.c,
-- in Operating system/file system/xv6-public. A file is named by its place in ftable. `none` for a result is a
-- panic; a reference count stays below 64 * 16 + 2, so it is not cut to 32 bits. The kind of an entry
-- that iput or pipeclose is called for goes into a list of closings.
pub mod Calls
pub mod Table
pub mod Counts
pub mod Pipes
pub mod Processes
use computer_science_project.Prelude.{
  ℕ, ◌+◌, ◌-◌, Bool, true, false, Option, none, some, List, [], ◌∷◌, leb, ltb, ◌==◌, if◌then◌else◌,
  get_or, set,
}
use computer_science_project.Prelude.Search.{find_index}

pub data FileType : Type 0 where
  fd_none fd_pipe fd_inode : FileType

pub record File : Type 0 where
  pub file_type : FileType
  pub ref : ℕ
  pub readable : Bool
  pub writable : Bool
  pub pipe : ℕ
  pub ip : ℕ

abbrev pub no_file : File
no_file = record {
  file_type = fd_none;
  ref = 0;
  readable = false;
  writable = false;
  pipe = 0;
  ip = 0;
}

-- What fileclose goes on to call.
pub data Closing : Type 0 where
  close_pipe : ℕ → Bool → Closing
  put_inode : ℕ → Closing

abbrev pub Fds : Type 0
Fds = List (Option ℕ)

abbrev pub is_free : File → Bool
is_free entry = entry.ref == 0

unfoldable pub filealloc : List File → Option (ℕ × List File)
filealloc files = elim (find_index is_free files) [
  | none ↦ none
  | some i ↦ some (i, set files i (record (get_or files i no_file) { ref = 1 }))
]

unfoldable pub filedup : ℕ → List File → Option (List File)
filedup f files =
    let entry = get_or files f no_file in
    if ltb entry.ref 1 then none else some (set files f (record entry { ref = entry.ref + 1 }))

unfoldable pub closings : File → List Closing
closings entry = elim entry.file_type [
  | fd_none ↦ []
  | fd_pipe ↦ close_pipe entry.pipe entry.writable ∷ []
  | fd_inode ↦ put_inode entry.ip ∷ []
]

unfoldable pub fileclose : ℕ → List File → Option (List Closing × List File)
unfolding closings
fileclose f files =
    let entry = get_or files f no_file in
    if ltb entry.ref 1
    then none
    else (if ltb 0 (entry.ref - 1)
        then some ([], set files f (record entry { ref = entry.ref - 1 }))
        else some (closings entry, set files f (record entry { ref = 0; file_type = fd_none })))

abbrev pub nofile : ℕ
nofile = 16

-- argfd, for a descriptor that argint has fetched; a negative one is 2 ^ 31 or more.
unfoldable pub argfd : ℕ → Fds → Option ℕ
argfd fd ofile = if leb nofile fd then none else get_or ofile fd none

abbrev pub no_descriptor : Option ℕ → Bool
no_descriptor none = true
no_descriptor (some f) = false

unfoldable pub fdalloc : ℕ → Fds → Option (ℕ × Fds)
fdalloc f ofile = elim (find_index no_descriptor ofile) [
  | none ↦ none
  | some fd ↦ some (fd, set ofile fd (some f))
]
