-- ===== src/Kernel/Buffers/Get.antt =====
-- bget of bio.c: which buffer a block gets.
use computer_science_project.Prelude.{
  ℕ, suc, ◌≤◌, ◌<◌, ◌≡◌, ◌≢◌, ◌⊎◌, refl, sym, inl, inr, true, false, none, some, List, [], ◌∷◌,
  length, length-set, remove, get_or, set, arith, Bool, Bool-cases, Option-cases, All,
  get_or-set_self, get_or-set_ne,
}
use computer_science_project.Prelude.Search.{find_index, find_index_sound, find_index_complete}
use computer_science_project.Kernel.Buffers.{
  Buf, no_buf, is_block, recyclable, recycled, find_last, bget,
}
use computer_science_project.Kernel.Buffers.Places.{
  find_last_sound, find_last_complete, tally, tally-set, tally-none, remove-set,
}

-- At most one buffer for each block; binit leaves all buffers with device 0, which holds no disk.
abbrev pub IsUnique : List Buf → Type 0
IsUnique bufs = (dev blockno : ℕ) → dev ≢ 0 → tally (is_block dev blockno) no_buf bufs ≤ 1

pub is_block_refl :
    (dev blockno : ℕ) (b : Buf) → b.dev ≡ dev → b.blockno ≡ blockno → is_block dev blockno b ≡ true
is_block_refl dev blockno b e1 e2 = ground arith

pub is_block-same :
    (dev blockno m n : ℕ) (b : Buf)
    → is_block dev blockno b ≡ true
    → is_block m n b ≡ true
    → (m ≡ dev) × (n ≡ blockno)
is_block-same dev blockno m n b h1 h2 = ground arith

All-false {ℓ} :
    {A : Type ℓ} (test : A → Bool) (d : A) (xs : List A)
    → ((j : ℕ) → j < length xs → test (get_or xs j d) ≡ false)
    → All (λ x. test x ≡ false) xs
All-false test d [] h = tt
All-false test d (x ∷ xs) h =
    (h 0 (omega arith), All-false test d xs (λ j lt. h (suc j) (omega arith)))

-- What bget has done to the buffer at i.
pub record IsGot (dev blockno : ℕ) (bufs : List Buf) (i : ℕ) (after : List Buf) : Type 0 where
  pub place : i < length bufs
  pub right : is_block dev blockno (get_or after i no_buf) ≡ true
  pub used : 1 ≤ (get_or after i no_buf).refcnt
  pub rest : (j : ℕ) → j ≢ i → get_or after j no_buf ≡ get_or bufs j no_buf
  pub others : remove i after ≡ remove i bufs
  pub size : length after ≡ length bufs
  pub free :
      ((is_block dev blockno (get_or bufs i no_buf) ≡ true)
        × (get_or after i no_buf
            ≡ record (get_or bufs i no_buf) { refcnt = suc (get_or bufs i no_buf).refcnt }))
      ⊎ ((recyclable (get_or bufs i no_buf) ≡ true)
          × (get_or after i no_buf ≡ recycled dev blockno (get_or bufs i no_buf)))
  pub unique : IsUnique after

module _ (dev blockno : ℕ) (bufs : List Buf) (unique : IsUnique bufs) where
  hit :
      (i : ℕ)
      → i < length bufs
      → is_block dev blockno (get_or bufs i no_buf) ≡ true
      → IsGot dev blockno bufs i (
          set bufs i (record (get_or bufs i no_buf) { refcnt = suc (get_or bufs i no_buf).refcnt }))
  hit i lt t =
      let b = get_or bufs i no_buf in
      let more = record b { refcnt = suc b.refcnt } in
      let at = get_or-set_self bufs i more no_buf lt in
      record {
        place = lt;
        right = rw at t;
        used = rw at (omega arith);
        rest = λ j ne. get_or-set_ne bufs i j more no_buf (λ e. ne (sym e));
        others = remove-set bufs i more;
        size = length-set bufs i more;
        free = inl (t, at);
        unique =
            λ m n ne. omega (arith, unique m n ne, tally-set (is_block m n) no_buf bufs i more lt);
      }

  miss :
      (i : ℕ)
      → i < length bufs
      → recyclable (get_or bufs i no_buf) ≡ true
      → All (λ b. is_block dev blockno b ≡ false) bufs
      → IsGot dev blockno bufs i (set bufs i (recycled dev blockno (get_or bufs i no_buf)))
  miss i lt t absent =
      let v = recycled dev blockno (get_or bufs i no_buf) in
      let at = get_or-set_self bufs i v no_buf lt in
      let mine = is_block_refl dev blockno v refl refl in
      record {
        place = lt;
        right = rw at mine;
        used = rw at (omega arith);
        rest = λ j ne. get_or-set_ne bufs i j v no_buf (λ e. ne (sym e));
        others = remove-set bufs i v;
        size = length-set bufs i v;
        free = inr (t, at);
        unique = λ m n ne. elim (Bool-cases (is_block m n v)) [
          | inl same ↦
              let e = is_block-same dev blockno m n v mine same in
              let zero_before : tally (is_block m n) no_buf bufs ≡ 0 =
                rw (e.0, e.1) (tally-none (is_block dev blockno) no_buf bufs absent) in
              let sum = tally-set (is_block m n) no_buf bufs i v lt in
              ground (arith, sum, zero_before, same)
          | inr other ↦
              let sum = tally-set (is_block m n) no_buf bufs i v lt in
              let before = unique m n ne in ground (arith, sum, before, other)
        ];
      }

  -- From a list in which no block of a device has two buffers, with a device other than 0: bget
  -- panics only if no buffer holds the block and none is unused and clean; else it gives a buffer
  -- that holds the block and is in use, which held it before or was unused and clean, the other
  -- buffers are as they were, and no block has two buffers.
  pub bget_lem :
      ((bget dev blockno bufs ≡ none)
        × All (λ b. is_block dev blockno b ≡ false) bufs
        × All (λ b. recyclable b ≡ false) bufs)
      ⊎ ((i : ℕ) × (after : List Buf) × (bget dev blockno bufs ≡ some (i, after))
          × IsGot dev blockno bufs i after)
  unfolding bget
  bget_lem = elim (Option-cases (find_index (is_block dev blockno) bufs)) [
    | inr (i, at) ↦
        let (lt, t, before) = find_index_sound (is_block dev blockno) no_buf bufs i at in
        let b = get_or bufs i no_buf in
        inr (i, set bufs i (record b { refcnt = suc b.refcnt }), rw (at, bget) refl, hit i lt t)
    | inl absent ↦
        let all =
          All-false (is_block dev blockno) no_buf bufs
            (find_index_complete (is_block dev blockno) no_buf bufs absent) in
        elim (Option-cases (find_last recyclable bufs)) [
          | inr (i, at) ↦
              let (lt, t) = find_last_sound recyclable no_buf bufs i at in
              inr (
                i,
                set bufs i (recycled dev blockno (get_or bufs i no_buf)),
                rw (absent, bget, at) refl,
                miss i lt t all,
              )
          | inl full ↦
              inl (rw (absent, bget, full) refl, all, find_last_complete recyclable bufs full)
        ]
  ]
