-- ===== src/Kernel/Buffers/Sequence.antt =====
-- Whole blocks read and written through the cache of bio.c, against an array of blocks.
use computer_science_project.Prelude.{ℕ, ◌<◌, ◌≡◌, refl, none, some, List, [], ◌∷◌, Option, All}
use computer_science_project.Kernel.Buffers.{MemDisk, Cache, write_disk, read_block, write_block}
use computer_science_project.Kernel.Buffers.Clean.{IsQuiet, fronted}
use computer_science_project.Kernel.Buffers.Coherence.{read_block-IsQuiet, write_block-IsQuiet}

-- The blocks that a client of the cache reads and writes.
pub data BlockCall : Type 0 where
  call_read : ℕ → BlockCall
  call_write : ℕ → List ℕ → BlockCall

abbrev pub InRange : MemDisk → BlockCall → Type 0
InRange d (call_read n) = n < d.disksize
InRange d (call_write n bytes) = n < d.disksize

-- What the reads give, one after the other; `none` is a panic.
unfoldable pub reads : List BlockCall → Cache → Option (List (List ℕ))
unfolding read_block write_block
reads [] c = some []
reads (call_read n ∷ calls) c = elim (read_block n c) [
  | none ↦ none
  | some (bytes, after) ↦ elim (reads calls after) [
    | none ↦ none
    | some later ↦ some (bytes ∷ later)
  ]
]
reads (call_write n bytes ∷ calls) c = elim (write_block n bytes c) [
  | none ↦ none
  | some after ↦ reads calls after
]

-- The same on an array of blocks, with no cache.
unfoldable pub plain_reads : List BlockCall → MemDisk → List (List ℕ)
plain_reads [] d = []
plain_reads (call_read n ∷ calls) d = d.block n ∷ plain_reads calls d
plain_reads (call_write n bytes ∷ calls) d = plain_reads calls (write_disk d n bytes)

range-write :
    (calls : List BlockCall) (d : MemDisk) (n : ℕ) (bytes : List ℕ)
    → All (InRange d) calls
    → All (InRange (write_disk d n bytes)) calls
range-write [] d n bytes all = tt
range-write (call_read m ∷ calls) d n bytes all = (all.0, range-write calls d n bytes all.1)
range-write (call_write m x ∷ calls) d n bytes all = (all.0, range-write calls d n bytes all.1)

-- From a cache with at least one buffer, in which no buffer is in use or dirty, no block has two
-- buffers and what is valid agrees with the disk: reads and writes of whole blocks of the disk, in
-- any order, do not panic, and each read gives what an array of blocks without a cache would give.
pub reads-plain_reads :
    (calls : List BlockCall) (c : Cache)
    → IsQuiet c
    → All (InRange c.disk) calls
    → reads calls c ≡ some (plain_reads calls c.disk)
unfolding reads plain_reads
reads-plain_reads [] c ok all = refl
reads-plain_reads (call_read n ∷ calls) c ok all =
    let (i, done, quiet) = read_block-IsQuiet c ok n all.0 in
    rw (done, reads, reads-plain_reads calls (fronted n i c.disk c.bufs) quiet all.1) refl
reads-plain_reads (call_write n bytes ∷ calls) c ok all =
    let (i, done, quiet) = write_block-IsQuiet c ok n all.0 bytes in
    rw (done, reads)
      (reads-plain_reads calls (fronted n i (write_disk c.disk n bytes) c.bufs) quiet
        (range-write calls c.disk n bytes all.1))
