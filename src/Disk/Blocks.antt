-- ===== src/Disk/Blocks.antt =====
-- balloc and bfree of fs.c: which blocks are free before and after.
use computer_science_project.Prelude.{
  ℕ, suc, ◌%◌, ◌<◌, ◌≡◌, ◌≢◌, ◌⊎◌, ◌∙◌, refl, ap, sym, inl, inr, Bool, true, false, none, some,
  List, ◌==◌, if◌then◌else◌, arith, Bool-cases, ==_refl, ==-of_ne, replicate,
}
use computer_science_project.Disk.{
  Store, bsize, bits_per_block, map_block, is_clear, set_bit, clear_bit, write_block, bzero, balloc,
  bfree,
}
use computer_science_project.Disk.Bitmap.{IsMap, is_clear-set_bit, is_clear-clear_bit}
use computer_science_project.Disk.Scan.{is_free, allocated, balloc_from-IsTaken}

-- The bitmap's blocks are whole, and the bitmap marks them as used itself.
pub record IsStore (s : Store) : Type 0 where
  pub maps : (n : ℕ) → n < s.size → IsMap (s.block (map_block s n))
  pub map_used : (n : ℕ) → n < s.size → is_free s (map_block s n) ≡ false

-- A write to the bitmap at block n's bit, and then to a free block.
free_after :
    (s : Store) (n m : ℕ) (bytes : List ℕ) (v : Bool)
    → IsStore s
    → n < s.size
    → m < s.size
    → ((bj : ℕ)
        → bj < bits_per_block
        → is_clear bytes bj
          ≡ (if n % bits_per_block == bj then v else is_clear (s.block (map_block s n)) bj))
    → is_free (write_block (map_block s n) bytes s) m ≡ (if n == m then v else is_free s m)
free_after s n m bytes v ok lt_n lt_m bits = elim (Bool-cases (map_block s m == map_block s n)) [
  | inl t ↦
      let e : map_block s m ≡ map_block s n = ground arith in
      let bit : (n % bits_per_block == m % bits_per_block) ≡ (n == m) = ground arith in
      rw t (bits (m % bits_per_block) (omega arith) ∙ rw (bit, e) refl)
  | inr f ↦ let other : (n == m) ≡ false = ground arith in rw (f, other) refl
]

-- With whole bitmap blocks that mark themselves as used: balloc panics only if no block is free, and
-- else takes a free block; then exactly this block is used in addition, it is zero, and beside its
-- bitmap block no other block has changed.
pub balloc_lem :
    (s : Store)
    → IsStore s
    → ((balloc s ≡ none) × ((n : ℕ) → n < s.size → is_free s n ≡ false))
      ⊎ ((n : ℕ) × (after : Store) × (balloc s ≡ some (n, after))
          × (n < s.size)
          × (is_free s n ≡ true)
          × ((m : ℕ) → m < s.size → is_free after m ≡ (if n == m then false else is_free s m))
          × (after.block n ≡ replicate bsize 0)
          × ((m : ℕ) → m ≢ n → m ≢ map_block s n → after.block m ≡ s.block m))
unfolding balloc bzero
balloc_lem s ok = elim (balloc_from-IsTaken (suc s.size) 0 s (omega arith) (omega arith)) [
  | inl (full, all) ↦ inl (full, λ n lt. all n (omega arith) lt)
  | inr (n, taken, low, lt, free, before) ↦
      let bytes = set_bit (s.block (map_block s n)) (n % bits_per_block) in
      let apart : (m : ℕ) → m < s.size → (map_block s m == n) ≡ false = λ m lt_m.
        elim (Bool-cases (map_block s m == n)) [
          | inr f ↦ f
          | inl t ↦
              let e : map_block s m ≡ n = ground arith in
              let used = sym (ap (is_free s) e) ∙ ok.map_used m lt_m in
              absurd (ground (arith, used))
        ] in
      inr (
        n,
        allocated n s,
        taken,
        lt,
        free,
        λ m lt_m. rw (apart m lt_m) (
            free_after s n m bytes false ok lt lt_m (λ bj lt_j.
              is_clear-set_bit (s.block (map_block s n)) (ok.maps n lt) (n % bits_per_block) bj
                (omega arith) lt_j)),
        rw (==_refl n) refl,
        λ m ne ne2. rw (==-of_ne m n ne, ==-of_ne m (map_block s n) ne2) refl,
      )
]

-- With whole bitmap blocks that mark themselves as used: bfree of a block of the disk panics exactly
-- if it is free, and else makes it free, and no other block, and changes its bitmap block only.
pub bfree_lem :
    (b : ℕ) (s : Store)
    → IsStore s
    → b < s.size
    → ((is_free s b ≡ true) × (bfree b s ≡ none))
      ⊎ ((after : Store) × (bfree b s ≡ some after)
          × (is_free s b ≡ false)
          × ((m : ℕ) → m < s.size → is_free after m ≡ (if b == m then true else is_free s m))
          × ((m : ℕ) → m ≢ map_block s b → after.block m ≡ s.block m))
unfolding bfree
bfree_lem b s ok lt = elim (Bool-cases (is_free s b)) [
  | inl t ↦ inl (t, rw t refl)
  | inr f ↦
      let bytes = clear_bit (s.block (map_block s b)) (b % bits_per_block) in
      inr (
        write_block (map_block s b) bytes s,
        rw f refl,
        f,
        λ m lt_m. free_after s b m bytes true ok lt lt_m (λ bj lt_j.
            is_clear-clear_bit (s.block (map_block s b)) (ok.maps b lt) (b % bits_per_block) bj
              (omega arith) lt_j),
        λ m ne. rw (==-of_ne m (map_block s b) ne) refl,
      )
]
