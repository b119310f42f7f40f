-- ===== src/Log.antt =====
-- The write-ahead log of the kernel: Operating system/file system/xv6-public/log.c. A block is the list
-- of its bytes. The header block of the log is kept apart from the other blocks of the disk, as the list
-- of block numbers that it holds; its write is one write of a sector. `bread` of the caller's blocks is
-- the argument `cache`: log_write pins what it changes there.
pub mod Redo
pub mod Writes
pub mod Crash
pub mod Absorb
pub mod Space
pub mod Full
mod Tests
use computer_science_project.Prelude.Words.{sub_w, slt}
use computer_science_project.Prelude.{
  ℕ, zero, suc, ◌+◌, ◌-◌, ◌*◌, Bool, true, false, ◌||◌, Option, none, some, List, [], ◌∷◌, ◌++◌,
  ◌==◌, ltb, leb, if◌then◌else◌, length,
}

abbrev pub Block : Type 0
Block = List ℕ

-- LOGSIZE and MAXOPBLOCKS
abbrev pub log_size : ℕ
log_size = 30

abbrev pub max_op_blocks : ℕ
max_op_blocks = 10

-- struct log, with `lh` for the log header
pub record Log : Type 0 where
  pub start : ℕ
  pub size : ℕ
  pub outstanding : ℕ
  pub committing : Bool
  pub lh : List ℕ

pub record Disk : Type 0 where
  pub header : List ℕ
  pub blocks : ℕ → Block

abbrev pub write_block : ℕ → Block → Disk → Disk
write_block b bytes d = record d { blocks = λ j. if j == b then bytes else d.blocks j }

-- write_head
abbrev pub write_head : List ℕ → Disk → Disk
write_head lh d = record d { header = lh }

-- install_trans: the disk after the loop, from `tail` on
unfoldable pub install_trans : ℕ → ℕ → List ℕ → Disk → Disk
install_trans start tail [] d = d
install_trans start tail (b ∷ lh) d =
    install_trans start (tail + 1) lh (write_block b (d.blocks (start + tail + 1)) d)

-- write_log
unfoldable pub write_log : ℕ → ℕ → List ℕ → (ℕ → Block) → Disk → Disk
write_log start tail [] cache d = d
write_log start tail (b ∷ lh) cache d =
    write_log start (tail + 1) lh cache (write_block (start + tail + 1) (cache b) d)

-- recover_from_log
unfoldable pub recover_from_log : ℕ → Disk → Disk
unfolding install_trans
recover_from_log start d = write_head [] (install_trans start 0 d.header d)

-- The disks that a crash can leave: the disk after each write of the loops.
unfoldable pub install_trace : ℕ → ℕ → List ℕ → Disk → List Disk
install_trace start tail [] d = []
install_trace start tail (b ∷ lh) d =
    let next = write_block b (d.blocks (start + tail + 1)) d in
    next ∷ install_trace start (tail + 1) lh next

unfoldable pub write_log_trace : ℕ → ℕ → List ℕ → (ℕ → Block) → Disk → List Disk
write_log_trace start tail [] cache d = []
write_log_trace start tail (b ∷ lh) cache d =
    let next = write_block (start + tail + 1) (cache b) d in
    next ∷ write_log_trace start (tail + 1) lh cache next

-- commit, for a transaction that is not empty
unfoldable pub commit : ℕ → List ℕ → (ℕ → Block) → Disk → Disk
unfolding install_trans write_log
commit start lh cache d =
    write_head [] (install_trans start 0 lh (write_head lh (write_log start 0 lh cache d)))

unfoldable pub commit_trace : ℕ → List ℕ → (ℕ → Block) → Disk → List Disk
unfolding install_trace write_log_trace install_trans write_log
commit_trace start lh cache d =
    let logged = write_log start 0 lh cache d in
    let headed = write_head lh logged in
    write_log_trace start 0 lh cache d
    ++ (headed
        ∷ (install_trace start 0 lh headed
            ++ (write_head [] (install_trans start 0 lh headed) ∷ [])))

unfoldable pub recover_trace : ℕ → Disk → List Disk
unfolding install_trace recover_from_log
recover_trace start d = install_trace start 0 d.header d ++ (recover_from_log start d ∷ [])

-- A round of the loop of begin_op: it sleeps, or the operation starts.
pub data Begin : Type 0 where
  waits : Begin
  started : Log → Begin

unfoldable pub begin_op : Log → Begin
begin_op l =
    if l.committing
    then waits
    else if ltb log_size (length l.lh + (l.outstanding + 1) * max_op_blocks)
    then waits
    else started (record l { outstanding = l.outstanding + 1 })

-- The first part of end_op: whether it has to commit. `none` is the panic.
unfoldable pub end_op : Log → Option (Log × Bool)
unfolding sub_w
end_op l =
    if l.committing
    then none
    else if sub_w l.outstanding 1 == 0
    then some (record l { outstanding = sub_w l.outstanding 1; committing = true }, true)
    else some (record l { outstanding = sub_w l.outstanding 1 }, false)

-- end_op after its commit
unfoldable pub end_commit : Log → Log
end_commit l = record l { committing = false; lh = [] }

-- the loop of log_write
unfoldable pub absorb : ℕ → List ℕ → List ℕ
absorb b [] = b ∷ []
absorb b (c ∷ lh) = let rest = absorb b lh in if c == b then b ∷ lh else c ∷ rest

-- log_write; `none` is a panic
unfoldable pub log_write : ℕ → Log → Option Log
unfolding absorb slt
log_write b l =
    if leb log_size (length l.lh) || leb (l.size - 1) (length l.lh)
    then none
    else if slt l.outstanding 1
    then none
    else some (record l { lh = absorb b l.lh })
