-- ===== src/Kernel/Files/Calls.antt =====
-- The system calls on descriptors, pipealloc, and the loops over descriptors of fork and exit: sysfile.c,
-- pipe.c and proc.c in Operating system/file system/xv6-public.
use computer_science_project.Prelude.{
  ℕ, Bool, true, false, not, Option, none, some, List, [], ◌∷◌, ◌++◌, get_or, set,
}
use computer_science_project.Kernel.Files.{
  File, no_file, fd_pipe, Closing, Fds, filealloc, filedup, fileclose, argfd, fdalloc,
}

-- The file table, and the descriptors of the calling process.
pub record Open : Type 0 where
  pub files : List File
  pub ofile : Fds
  pub closed : List Closing

-- fileclose as a statement
unfoldable pub close_file : ℕ → Open → Option Open
unfolding fileclose
close_file f o = elim (fileclose f o.files) [
  | none ↦ none
  | some (c, files) ↦ some (record o { files = files; closed = o.closed ++ c })
]

-- -1 is the inner `none`
unfoldable pub sys_dup : ℕ → Open → Option (Option ℕ × Open)
unfolding argfd fdalloc filedup
sys_dup fd o = elim (argfd fd o.ofile) [
  | none ↦ some (none, o)
  | some f ↦ elim (fdalloc f o.ofile) [
    | none ↦ some (none, o)
    | some (new_fd, ofile) ↦ elim (filedup f o.files) [
      | none ↦ none
      | some files ↦ some (some new_fd, record o { files = files; ofile = ofile })
    ]
  ]
]

unfoldable pub sys_close : ℕ → Open → Option (Bool × Open)
unfolding argfd close_file
sys_close fd o = elim (argfd fd o.ofile) [
  | none ↦ some (false, o)
  | some f ↦ elim (close_file f (record o { ofile = set o.ofile fd none })) [
    | none ↦ none
    | some closed ↦ some (true, closed)
  ]
]

-- The end that pipealloc makes of a new file.
unfoldable pub set_pipe : ℕ → Bool → ℕ → List File → List File
set_pipe f writable page files = set files f (record (get_or files f no_file) {
  file_type = fd_pipe;
  readable = not writable;
  writable = writable;
  pipe = page;
})

-- The label `bad` for the files that were allocated.
unfoldable pub close_two : ℕ → ℕ → Open → Option Open
unfolding close_file
close_two f g o = elim (close_file f o) [ none ↦ none | some closed ↦ close_file g closed ]

-- pipealloc behind both filealloc, with what kalloc gives.
unfoldable pub join_ends : Option ℕ → ℕ → ℕ → Open → Option (Option (ℕ × ℕ) × Open)
unfolding close_two set_pipe
join_ends none f0 f1 o = elim (close_two f0 f1 o) [
  | none ↦ none
  | some closed ↦ some (none, closed)
]
join_ends (some p) f0 f1 o =
    some (some (f0, f1), record o { files = set_pipe f1 true p (set_pipe f0 false p o.files) })

-- pipealloc, with what kalloc gives: two files, or -1.
unfoldable pub pipealloc : Option ℕ → Open → Option (Option (ℕ × ℕ) × Open)
unfolding filealloc close_file join_ends
pipealloc page o = elim (filealloc o.files) [
  | none ↦ some (none, o)
  | some (f0, files0) ↦ elim (filealloc files0) [
    | none ↦ elim (close_file f0 (record o { files = files0 })) [
      | none ↦ none
      | some closed ↦ some (none, closed)
    ]
    | some (f1, files1) ↦ join_ends page f0 f1 (record o { files = files1 })
  ]
]

unfoldable pub pipe_failed : Option Open → Option (Option (ℕ × ℕ) × Open)
pipe_failed none = none
pipe_failed (some closed) = some (none, closed)

-- sys_pipe behind pipealloc
unfoldable pub pipe_fds : ℕ → ℕ → Open → Option (Option (ℕ × ℕ) × Open)
unfolding fdalloc close_two pipe_failed
pipe_fds rf wf o = elim (fdalloc rf o.ofile) [
  | none ↦ pipe_failed (close_two rf wf o)
  | some (fd0, ofile0) ↦ elim (fdalloc wf ofile0) [
    | none ↦ pipe_failed (close_two rf wf (record o { ofile = set ofile0 fd0 none }))
    | some (fd1, ofile1) ↦ some (some (fd0, fd1), record o { ofile = ofile1 })
  ]
]

-- sys_pipe, where argptr succeeds
unfoldable pub sys_pipe : Option ℕ → Open → Option (Option (ℕ × ℕ) × Open)
unfolding pipealloc pipe_fds
sys_pipe page o = elim (pipealloc page o) [
  | none ↦ none
  | some (none, o1) ↦ some (none, o1)
  | some (some (rf, wf), o1) ↦ pipe_fds rf wf o1
]

-- The loop of fork: the child's descriptors, over those that its entry has.
unfoldable pub dup_all : Fds → Fds → List File → Option (Fds × List File)
unfolding filedup
dup_all [] child files = some (child, files)
dup_all (e ∷ ofile) [] files = some ([], files)
dup_all (none ∷ ofile) (c ∷ child) files = elim (dup_all ofile child files) [
  | none ↦ none
  | some (rest, duped) ↦ some (c ∷ rest, duped)
]
dup_all (some f ∷ ofile) (c ∷ child) files = elim (filedup f files) [
  | none ↦ none
  | some files1 ↦ elim (dup_all ofile child files1) [
    | none ↦ none
    | some (rest, duped) ↦ some (some f ∷ rest, duped)
  ]
]

-- The loop of exit.
unfoldable pub close_all : Fds → List File → Option (Fds × List Closing × List File)
unfolding fileclose
close_all [] files = some ([], [], files)
close_all (none ∷ ofile) files = elim (close_all ofile files) [
  | none ↦ none
  | some (rest, c, closed) ↦ some (none ∷ rest, c, closed)
]
close_all (some f ∷ ofile) files = elim (fileclose f files) [
  | none ↦ none
  | some (c1, files1) ↦ elim (close_all ofile files1) [
    | none ↦ none
    | some (rest, c, closed) ↦ some (none ∷ rest, c1 ++ c, closed)
  ]
]
