-- ===== src/Disk/Tests.antt =====
-- The bitmap of a small disk.
use computer_science_project.Prelude.{
  ℕ, zero, suc, ◌/◌, ◌<◌, ◌≡◌, ◌≢◌, ◌⊎◌, refl, ap, ◌∙◌, true, false, none, some, List, ◌∷◌, ◌==◌,
  if◌then◌else◌, replicate, arith, All,
}
use computer_science_project.Disk.{Store, bsize, map_block, is_clear, balloc, bfree}
use computer_science_project.Disk.Bitmap.{IsMap}
use computer_science_project.Disk.Scan.{is_free}
use computer_science_project.Disk.Blocks.{IsStore, balloc_lem, bfree_lem}

-- Blocks 0, 1 and 2 are used, and block 2 is the bitmap.
abbrev map_bytes : List ℕ
map_bytes = 7 ∷ replicate 511 0

abbrev store : Store
store = record { size = 10; bmapstart = 2; block = λ n. map_bytes }

small_bytes : (n : ℕ) → All (λ b. b < 256) (replicate n 0)
small_bytes zero = tt
small_bytes (suc n) = (omega arith, small_bytes n)

map_bytes-IsMap : IsMap map_bytes
map_bytes-IsMap = (refl, (omega arith, small_bytes 511))

in_map : (n : ℕ) → n < 10 → map_block store n ≡ 2
in_map n lt = let e : n / 4096 ≡ 0 = omega arith in rw e refl

two_used : is_free store 2 ≡ false
unfolding is_clear
two_used = refl

store-IsStore : IsStore store
store-IsStore = record {
  maps = λ n lt. map_bytes-IsMap;
  map_used = λ n lt. ap (is_free store) (in_map n lt) ∙ two_used;
}

balloc_lem_example :
    ((balloc store ≡ none) × ((n : ℕ) → n < 10 → is_free store n ≡ false))
    ⊎ ((n : ℕ) × (after : Store) × (balloc store ≡ some (n, after))
        × (n < 10)
        × (is_free store n ≡ true)
        × ((m : ℕ) → m < 10 → is_free after m ≡ (if n == m then false else is_free store m))
        × (after.block n ≡ replicate bsize 0)
        × ((m : ℕ) → m ≢ n → m ≢ map_block store n → after.block m ≡ store.block m))
balloc_lem_example = balloc_lem store store-IsStore

bfree_lem_example :
    ((is_free store 1 ≡ true) × (bfree 1 store ≡ none))
    ⊎ ((after : Store) × (bfree 1 store ≡ some after)
        × (is_free store 1 ≡ false)
        × ((m : ℕ) → m < 10 → is_free after m ≡ (if 1 == m then true else is_free store m))
        × ((m : ℕ) → m ≢ map_block store 1 → after.block m ≡ store.block m))
bfree_lem_example = bfree_lem 1 store store-IsStore (omega arith)
