-- ===== src/Kernel/Buffers/Coherence.antt =====
-- One whole block read or written through the cache of bio.c.
use computer_science_project.Prelude.{
  ℕ, suc, ◌<◌, ◌≡◌, ◌≢◌, ◌∙◌, refl, ap, sym, inl, inr, true, false, some, List, length, get_or, set,
  remove, arith, Bool-cases, ==_refl, get_or-set_self, length-set, lt→ltb, ==-of_ne,
}
use computer_science_project.Kernel.Buffers.{
  Buf, no_buf, MemDisk, Cache, is_block, bget, iderw, bread, bwrite, write_disk, brelse, read_block,
  write_block,
}
use computer_science_project.Kernel.Buffers.Places.{
  tally, tally-remove, none-tally, remove-set, All-remove,
}
use computer_science_project.Kernel.Buffers.Get.{IsGot, bget_lem}
use computer_science_project.Kernel.Buffers.Clean.{
  IsClean, IsQuiet, held_buf, fronted, is_block-parts, same_buf, false_not_true, some_recyclable,
  IsClean-buf, still-IsClean, brelse_last,
}

module _ (c : Cache) (ok : IsQuiet c) (n : ℕ) (small : n < c.disk.disksize) where
  -- bread on disk 1 gives a buffer with one user and the disk's data; the other places are as they were.
  abbrev IsRead : ℕ → Cache → Type 0
  IsRead i after =
      (i < length c.bufs)
      × (get_or after.bufs i no_buf ≡ record (held_buf n c.disk) { refcnt = 1 })
      × (remove i after.bufs ≡ remove i c.bufs)
      × (length after.bufs ≡ length c.bufs)
      × (after.disk ≡ c.disk)
      × (tally (is_block 1 n) no_buf (remove i c.bufs) ≡ 0)

  module _ (i : ℕ) (after : List Buf) (got : bget 1 n c.bufs ≡ some (i, after))
      (is : IsGot 1 n c.bufs i after) where
    alone : tally (is_block 1 n) no_buf (remove i c.bufs) ≡ 0
    alone =
        let all = is.unique 1 n (λ e. absurd (omega arith)) in
        let sum = tally-remove (is_block 1 n) no_buf after i (omega (arith, is.size, is.place)) in
        rw (← is.others) (ground (arith, all, sum, is.right))

    finish :
        ((get_or after i no_buf).refcnt ≡ 1)
        → ((get_or after i no_buf).dirty ≡ false)
        → ((get_or after i no_buf).valid ≡ true → (get_or after i no_buf).bytes ≡ c.disk.block n)
        → (after : Cache) × (bread 1 n c ≡ some (i, after)) × IsRead i after
    unfolding bread iderw
    finish one_user kept same =
        let v = get_or after i no_buf in
        let at = is_block-parts 1 n v is.right in
        elim (Bool-cases v.valid) [
          | inl t ↦ (
            record c { bufs = after },
            rw (got, bread, t) refl,
            (
              is.place,
              same_buf v n 1 (c.disk.block n) at.0 at.1 one_user t kept (same t),
              is.others,
              is.size,
              refl,
              alone,
            ),
          )
          | inr f ↦
              let filled = record v { bytes = c.disk.block n; valid = true } in
              (
                record c { bufs = set after i filled },
                rw (got, bread, f, kept, at.0, at.1, lt→ltb n c.disk.disksize small) refl,
                (
                  is.place,
                  get_or-set_self after i filled no_buf (omega (arith, is.size, is.place))
                      ∙ same_buf filled n 1 (c.disk.block n) at.0 at.1 one_user refl kept refl,
                  remove-set after i filled ∙ is.others,
                  length-set after i filled ∙ is.size,
                  refl,
                  alone,
                ),
              )
        ]

  bread-IsRead : (i : ℕ) × (after : Cache) × (bread 1 n c ≡ some (i, after)) × IsRead i after
  bread-IsRead = elim (bget_lem 1 n c.bufs ok.unique) [
    | inl (full, absent, stuck) ↦ absurd (some_recyclable c.bufs c.disk ok.some_buf ok.clean stuck)
    | inr (i, after, got, is) ↦
        let clean_at = IsClean-buf c.bufs c.disk i ok.clean is.place in
        elim is.free [
          | inl (hit, e) ↦
              let at = is_block-parts 1 n (get_or c.bufs i no_buf) hit in
              let (read, done, is_read) =
                finish i after got is (ap (λ b. b.refcnt) e ∙ ap suc clean_at.0)
                  (ap (λ b. b.dirty) e ∙ clean_at.1)
                  (λ v.
                    ap (λ b. b.bytes) e
                    ∙ clean_at.2 at.0 (sym (ap (λ b. b.valid) e) ∙ v)
                    ∙ ap c.disk.block at.1) in
              (i, read, done, is_read)
          | inr (unused, e) ↦
              let (read, done, is_read) =
                finish i after got is (ap (λ b. b.refcnt) e) (ap (λ b. b.dirty) e)
                  (λ v. absurd (false_not_true (sym (ap (λ b. b.valid) e) ∙ v))) in
              (i, read, done, is_read)
        ]
  ]

  -- The cache with block n in front is quiet on a disk that differs at n only.
  fronted-IsQuiet :
      (i : ℕ) (d : MemDisk)
      → i < length c.bufs
      → tally (is_block 1 n) no_buf (remove i c.bufs) ≡ 0
      → ((m : ℕ) → m ≢ n → d.block m ≡ c.disk.block m)
      → IsQuiet (fronted n i d c.bufs)
  fronted-IsQuiet i d lt alone_there same = record {
    some_buf = omega arith;
    clean = (
      (refl, refl, λ e v. refl),
      still-IsClean (remove i c.bufs) c.disk d n (All-remove (IsClean c.disk) c.bufs i ok.clean)
          (none-tally (is_block 1 n) no_buf (remove i c.bufs) alone_there) same,
    );
    unique = λ dev m ne. elim (Bool-cases (is_block dev m (held_buf n d))) [
      | inl t ↦
          let at = is_block-parts dev m (held_buf n d) t in
          let zero_there : tally (is_block dev m) no_buf (remove i c.bufs) ≡ 0 =
            rw (← at.0, ← at.1) alone_there in
          ground (arith, zero_there)
      | inr f ↦
          let sum = tally-remove (is_block dev m) no_buf c.bufs i lt in
          let before = ok.unique dev m ne in ground (arith, f, sum, before)
    ];
  }

  pub read_block-IsQuiet :
      (i : ℕ) × (read_block n c ≡ some (c.disk.block n, fronted n i c.disk c.bufs))
      × IsQuiet (fronted n i c.disk c.bufs)
  unfolding read_block brelse
  read_block-IsQuiet =
      let (i, after, done, (lt, at, others, size, disk, alone_there)) = bread-IsRead in
      (
        i,
        rw (done, read_block, at, others, disk) refl,
        fronted-IsQuiet i c.disk lt alone_there (λ m ne. refl),
      )

  pub write_block-IsQuiet :
      (bytes : List ℕ)
      → (i : ℕ) × (write_block n bytes c ≡ some (fronted n i (write_disk c.disk n bytes) c.bufs))
        × IsQuiet (fronted n i (write_disk c.disk n bytes) c.bufs)
  unfolding write_block brelse bwrite iderw
  write_block-IsQuiet bytes =
      let (i, after, done, (lt, at, others, size, disk, alone_there)) = bread-IsRead in
      let first : Buf = record (held_buf n c.disk) { refcnt = 1; bytes = bytes } in
      let low : i < length after.bufs = omega (arith, size, lt) in
      let old = record (get_or after.bufs i no_buf) { bytes = bytes } in
      let low2 : i < length (set after.bufs i old) =
        omega (arith, low, length-set after.bufs i old) in
      (
        i,
        rw
            (
              done,
              write_block,
              at,
              get_or-set_self after.bufs i first no_buf low,
              disk,
              lt→ltb n c.disk.disksize small,
            )
            (ap some (
              brelse_last i (set after.bufs i old) first (write_disk c.disk n bytes) low2 refl
              ∙ rw (remove-set after.bufs i old, others, ==_refl n) refl)),
        fronted-IsQuiet i (write_disk c.disk n bytes) lt alone_there
            (λ m ne. rw (==-of_ne n m (λ e. ne (sym e))) refl),
      )
