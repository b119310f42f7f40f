-- ===== src/Disk.antt =====
-- Blocks of the disk in fs.c, Operating system/file system/xv6-public: the bitmap of free blocks. The blocks are read
-- and written through the cache and the log, so they are an array of blocks here.
pub mod Bitmap
pub mod Scan
pub mod Blocks
mod Tests
use computer_science_project.Prelude.{
  ℕ, zero, suc, ◌+◌, ◌-◌, ◌/◌, ◌%◌, ◌^◌, min, bit_and, bit_or, Bool, true, false, not, Option, none,
  some, List, [], ◌∷◌, ◌==◌, ltb, if◌then◌else◌, get_or, set, replicate,
}

-- The superblock's fields for the bitmap, and the blocks.
pub record Store : Type 0 where
  pub size : ℕ
  pub bmapstart : ℕ
  pub block : ℕ → List ℕ

abbrev pub bsize : ℕ
bsize = 512

-- BPB
abbrev pub bits_per_block : ℕ
bits_per_block = 4096

-- BBLOCK
abbrev pub map_block : Store → ℕ → ℕ
map_block s b = b / bits_per_block + s.bmapstart

-- (bp->data[bi/8] & m) == 0
unfoldable pub is_clear : List ℕ → ℕ → Bool
is_clear bytes bi = bit_and (get_or bytes (bi / 8) 0) (2 ^ (bi % 8)) == 0

-- bp->data[bi/8] |= m
unfoldable pub set_bit : List ℕ → ℕ → List ℕ
set_bit bytes bi = set bytes (bi / 8) (bit_or (get_or bytes (bi / 8) 0) (2 ^ (bi % 8)))

-- bp->data[bi/8] &= ~m, in a byte
unfoldable pub clear_bit : List ℕ → ℕ → List ℕ
clear_bit bytes bi = set bytes (bi / 8) (bit_and (get_or bytes (bi / 8) 0) (255 - 2 ^ (bi % 8)))

abbrev pub write_block : ℕ → List ℕ → Store → Store
write_block n bytes s = record s { block = λ m. if m == n then bytes else s.block m }

-- bzero
unfoldable pub bzero : ℕ → Store → Store
bzero n s = write_block n (replicate bsize 0) s

-- The inner loop of balloc: k more bits from bit bi on.
unfoldable pub scan : ℕ → ℕ → List ℕ → Option ℕ
unfolding is_clear
scan zero bi bytes = none
scan (suc k) bi bytes =
    let rest = scan k (suc bi) bytes in if is_clear bytes bi then some bi else rest

-- The outer loop of balloc from block b on; `none` is the panic.
unfoldable pub balloc_from : ℕ → ℕ → Store → Option (ℕ × Store)
unfolding scan set_bit bzero
balloc_from zero b s = none
balloc_from (suc fuel) b s =
    let map = s.block (map_block s b) in
    let later = balloc_from fuel (b + bits_per_block) s in
    let here : Option (ℕ × Store) = elim (scan (min bits_per_block (s.size - b)) 0 map) [
      | none ↦ later
      | some bi ↦ some (b + bi, bzero (b + bi) (write_block (map_block s b) (set_bit map bi) s))
    ] in
    if ltb b s.size then here else none

unfoldable pub balloc : Store → Option (ℕ × Store)
unfolding balloc_from
balloc s = balloc_from (suc s.size) 0 s

-- bfree; `none` is the panic.
unfoldable pub bfree : ℕ → Store → Option Store
unfolding is_clear clear_bit
bfree b s =
    let map = s.block (map_block s b) in
    let bi = b % bits_per_block in
    if is_clear map bi then none else some (write_block (map_block s b) (clear_bit map bi) s)
