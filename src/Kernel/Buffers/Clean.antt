-- ===== src/Kernel/Buffers/Clean.antt =====
-- Buffers of bio.c that agree with the disk.
use computer_science_project.Prelude.{
  ℕ, zero, suc, ◌<◌, ◌≡◌, ◌≢◌, ◌∙◌, refl, sym, true, false, List, [], ◌∷◌, length, get_or, set,
  remove, arith, All, get_or-set_self,
}
use computer_science_project.Kernel.Buffers.{
  Buf, no_buf, MemDisk, Cache, is_block, recyclable, brelse,
}
use computer_science_project.Kernel.Buffers.Places.{remove-set}
use computer_science_project.Kernel.Buffers.Get.{IsUnique, is_block_refl}

-- A buffer that nobody uses and that has nothing to write: what it holds of disk 1 is what the disk holds.
abbrev pub IsClean : MemDisk → Buf → Type 0
IsClean d b =
    (b.refcnt ≡ 0) × (b.dirty ≡ false) × (b.dev ≡ 1 → b.valid ≡ true → b.bytes ≡ d.block b.blockno)

pub record IsQuiet (c : Cache) : Type 0 where
  pub some_buf : 0 < length c.bufs
  pub clean : All (IsClean c.disk) c.bufs
  pub unique : IsUnique c.bufs

-- The buffer for block n of disk 1 with the disk's data, in front of the others.
abbrev pub held_buf : ℕ → MemDisk → Buf
held_buf n d = record {
  dev = 1;
  blockno = n;
  refcnt = 0;
  valid = true;
  dirty = false;
  bytes = d.block n;
}

abbrev pub fronted : ℕ → ℕ → MemDisk → List Buf → Cache
fronted n i d bufs = record { bufs = held_buf n d ∷ remove i bufs; disk = d }

pub is_block-parts :
    (dev blockno : ℕ) (b : Buf)
    → is_block dev blockno b ≡ true
    → (b.dev ≡ dev) × (b.blockno ≡ blockno)
is_block-parts dev blockno b h = ground arith

pub same_buf :
    (b : Buf) (n r : ℕ) (bytes : List ℕ)
    → b.dev ≡ 1
    → b.blockno ≡ n
    → b.refcnt ≡ r
    → b.valid ≡ true
    → b.dirty ≡ false
    → b.bytes ≡ bytes
    → b ≡ record { dev = 1; blockno = n; refcnt = r; valid = true; dirty = false; bytes = bytes }
same_buf b n r bytes e1 e2 e3 e4 e5 e6 = rw (← e1, ← e2, ← e3, ← e4, ← e5, ← e6) refl

pub false_not_true : ¬ (false ≡ true)
false_not_true e = ground arith

pub some_recyclable :
    (bufs : List Buf) (d : MemDisk)
    → 0 < length bufs
    → All (IsClean d) bufs
    → All (λ b. recyclable b ≡ false) bufs
    → ⊥
some_recyclable [] d lt clean stuck = omega arith
some_recyclable (b ∷ bufs) d lt clean stuck =
    false_not_true (sym stuck.0 ∙ rw (clean.0.0, clean.0.1) refl)

pub IsClean-buf :
    (bufs : List Buf) (d : MemDisk) (i : ℕ)
    → All (IsClean d) bufs
    → i < length bufs
    → IsClean d (get_or bufs i no_buf)
IsClean-buf [] d i clean lt = absurd (omega arith)
IsClean-buf (b ∷ bufs) d zero clean lt = clean.0
IsClean-buf (b ∷ bufs) d (suc i) clean lt = IsClean-buf bufs d i clean.1 (omega arith)

pub still-IsClean :
    (bufs : List Buf) (old new : MemDisk) (n : ℕ)
    → All (IsClean old) bufs
    → All (λ b. is_block 1 n b ≡ false) bufs
    → ((m : ℕ) → m ≢ n → new.block m ≡ old.block m)
    → All (IsClean new) bufs
still-IsClean [] old new n clean absent same = tt
still-IsClean (b ∷ bufs) old new n clean absent same = (
  (
    clean.0.0,
    clean.0.1,
    λ e v.
        clean.0.2 e v
        ∙ sym (same b.blockno (λ hit. false_not_true (sym absent.0 ∙ is_block_refl 1 n b e hit))),
  ),
  still-IsClean bufs old new n clean.1 absent.1 same,
)

pub brelse_last :
    (i : ℕ) (bufs : List Buf) (b : Buf) (d : MemDisk)
    → i < length bufs
    → b.refcnt ≡ 1
    → brelse i (record { bufs = set bufs i b; disk = d })
      ≡ record { bufs = record b { refcnt = 0 } ∷ remove i bufs; disk = d }
unfolding brelse
brelse_last i bufs b d lt one_user =
    rw (brelse, remove-set bufs i b, get_or-set_self bufs i b no_buf lt, one_user) refl
