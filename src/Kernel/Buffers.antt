-- ===== src/Kernel/Buffers.antt =====
-- The buffer cache of bio.c on the disk in memory of memide.c, in Operating system/file system/xv6-public.
-- The list of buffers is the linked one, from head.next on; a buffer is named by its place in it. `none`
-- is a panic. Whoever uses a buffer holds its sleep lock.
pub mod Places
pub mod Get
pub mod Clean
pub mod Coherence
pub mod Sequence
use computer_science_project.Prelude.{
  ℕ, zero, suc, ◌-◌, Bool, true, false, not, ◌&&◌, Option, none, some, List, [], ◌∷◌, ltb, ◌==◌,
  if◌then◌else◌, get_or, set, remove,
}
use computer_science_project.Prelude.Search.{find_index}

pub record Buf : Type 0 where
  pub dev : ℕ
  pub blockno : ℕ
  pub refcnt : ℕ
  pub valid : Bool
  pub dirty : Bool
  pub bytes : List ℕ

abbrev pub no_buf : Buf
no_buf = record { dev = 0; blockno = 0; refcnt = 0; valid = false; dirty = false; bytes = [] }

pub record MemDisk : Type 0 where
  pub disksize : ℕ
  pub block : ℕ → List ℕ

pub record Cache : Type 0 where
  pub bufs : List Buf
  pub disk : MemDisk

abbrev pub is_block : ℕ → ℕ → Buf → Bool
is_block dev blockno b = b.dev == dev && b.blockno == blockno

abbrev pub recyclable : Buf → Bool
recyclable b = b.refcnt == 0 && not b.dirty

-- The search from head.prev backwards.
unfoldable pub find_last {ℓ} : {A : Type ℓ} → (A → Bool) → List A → Option ℕ
find_last test [] = none
find_last test (x ∷ xs) = elim (find_last test xs) [
  | some i ↦ some (suc i)
  | none ↦ if test x then some 0 else none
]

abbrev pub recycled : ℕ → ℕ → Buf → Buf
recycled dev blockno b = record b {
  dev = dev;
  blockno = blockno;
  valid = false;
  dirty = false;
  refcnt = 1;
}

unfoldable pub bget : ℕ → ℕ → List Buf → Option (ℕ × List Buf)
unfolding find_last
bget dev blockno bufs = elim (find_index (is_block dev blockno) bufs) [
  | some i ↦
      let b = get_or bufs i no_buf in some (i, set bufs i (record b { refcnt = suc b.refcnt }))
  | none ↦ elim (find_last recyclable bufs) [
    | some i ↦ some (i, set bufs i (recycled dev blockno (get_or bufs i no_buf)))
    | none ↦ none
  ]
]

abbrev pub write_disk : MemDisk → ℕ → List ℕ → MemDisk
write_disk d n bytes = record d { block = λ m. if n == m then bytes else d.block m }

-- iderw, with its panics in order
unfoldable pub iderw : Buf → MemDisk → Option (Buf × MemDisk)
iderw b d =
    if b.valid && not b.dirty
    then none
    else (if not (b.dev == 1)
        then none
        else (if not (ltb b.blockno d.disksize)
            then none
            else (if b.dirty
                then some (record b { dirty = false; valid = true }, write_disk d b.blockno b.bytes)
                else some (record b { bytes = d.block b.blockno; valid = true }, d))))

-- What bread and bwrite do with the answer of iderw for the buffer at i.
abbrev pub synced : ℕ → List Buf → Option (Buf × MemDisk) → Option Cache
synced i bufs none = none
synced i bufs (some (b, d)) = some (record { bufs = set bufs i b; disk = d })

unfoldable pub bread : ℕ → ℕ → Cache → Option (ℕ × Cache)
unfolding bget iderw
bread dev blockno c = elim (bget dev blockno c.bufs) [
  | none ↦ none
  | some (i, bufs) ↦
      let b = get_or bufs i no_buf in
      let read = synced i bufs (iderw b c.disk) in
      if b.valid
      then some (i, record c { bufs = bufs })
      else (elim read [ none ↦ none | some after ↦ some (i, after) ])
]

unfoldable pub bwrite : ℕ → Cache → Option Cache
unfolding iderw
bwrite i c = synced i c.bufs (iderw (record (get_or c.bufs i no_buf) { dirty = true }) c.disk)

-- The last user moves the buffer to the head.
unfoldable pub brelse : ℕ → Cache → Cache
brelse i c =
    let old = get_or c.bufs i no_buf in
    let b = record old { refcnt = old.refcnt - 1 } in
    if b.refcnt == 0
    then record c { bufs = b ∷ remove i c.bufs }
    else record c { bufs = set c.bufs i b }

-- The way in which the rest of the kernel reads and writes a whole block of disk 1, as in read_head and
-- write_log of log.c.
unfoldable pub read_block : ℕ → Cache → Option (List ℕ × Cache)
unfolding bread brelse
read_block n c = elim (bread 1 n c) [
  | none ↦ none
  | some (i, c1) ↦ some ((get_or c1.bufs i no_buf).bytes, brelse i c1)
]

abbrev pub fill : ℕ → List ℕ → Cache → Cache
fill i bytes c = record c {
  bufs = set c.bufs i (record (get_or c.bufs i no_buf) { bytes = bytes });
}

unfoldable pub write_block : ℕ → List ℕ → Cache → Option Cache
unfolding bread bwrite brelse
write_block n bytes c = elim (bread 1 n c) [
  | none ↦ none
  | some (i, c1) ↦ elim (bwrite i (fill i bytes c1)) [ none ↦ none | some c2 ↦ some (brelse i c2) ]
]
