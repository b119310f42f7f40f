-- ===== src/Log/Writes.antt =====
-- What write_log puts on the disk, and what the redo of log.c makes of it.
use computer_science_project.Prelude.{
  ℕ, suc, ◌+◌, ◌<◌, ◌≤◌, ◌≡◌, ◌≢◌, ◌⊎◌, inl, inr, refl, ap, sym, ◌∙◌, List, [], ◌∷◌, ◌==◌,
  if◌then◌else◌, length, arith, Bool-cases, ==_iff, ==-of_ne, ==_refl, All,
}
use computer_science_project.Log.{
  Block, Disk, write_block, install_trans, write_log, write_log_trace, recover_from_log,
}
use computer_science_project.Log.Redo.{IsHome, in_header, write-SameLog}

-- The log holds what the cache has for the blocks of the header.
abbrev Logged : ℕ → ℕ → List ℕ → (ℕ → Block) → Disk → Type 0
Logged start tail [] cache d = Unit
Logged start tail (b ∷ lh) cache d =
    (d.blocks (start + tail + 1) ≡ cache b) × Logged start (tail + 1) lh cache d

-- The disk after the transaction: the blocks of the header are as in the cache.
abbrev pub committed : List ℕ → (ℕ → Block) → Disk → ℕ → Block
committed lh cache d j = if in_header j lh then cache j else d.blocks j

-- After recovery the blocks outside the log are as f says.
abbrev pub RecoversTo : ℕ → ℕ → (ℕ → Block) → Disk → Type 0
RecoversTo start n f c = (j : ℕ) → IsHome start n j → (recover_from_log start c).blocks j ≡ f j

-- write_log changes only the places of the log that it writes.
pub write_log-keeps :
    (start tail : ℕ) (lh : List ℕ) (cache : ℕ → Block) (d : Disk) (j : ℕ)
    → (j ≤ start + tail) ⊎ (start + tail + length lh < j)
    → (write_log start tail lh cache d).blocks j ≡ d.blocks j
unfolding write_log
write_log-keeps start tail [] cache d j out = refl
write_log-keeps start tail (b ∷ lh) cache d j out =
    write_log-keeps start (tail + 1) lh cache (write_block (start + tail + 1) (cache b) d) j
      (outside out)
    ∙ rw (==-of_ne j (start + tail + 1) (apart out)) refl
  where
    outside :
        (j ≤ start + tail) ⊎ (start + tail + suc (length lh) < j)
        → (j ≤ start + (tail + 1)) ⊎ (start + (tail + 1) + length lh < j)
    outside (inl h) = inl (omega arith)
    outside (inr h) = inr (omega arith)

    apart : (j ≤ start + tail) ⊎ (start + tail + suc (length lh) < j) → j ≢ start + tail + 1
    apart (inl h) = omega arith
    apart (inr h) = omega arith

write_log-header :
    (start tail : ℕ) (lh : List ℕ) (cache : ℕ → Block) (d : Disk)
    → (write_log start tail lh cache d).header ≡ d.header
unfolding write_log
write_log-header start tail [] cache d = refl
write_log-header start tail (b ∷ lh) cache d =
    write_log-header start (tail + 1) lh cache (write_block (start + tail + 1) (cache b) d)

pub write_log-Logged :
    (start tail : ℕ) (lh : List ℕ) (cache : ℕ → Block) (d : Disk)
    → Logged start tail lh cache (write_log start tail lh cache d)
unfolding write_log
write_log-Logged start tail [] cache d = tt
write_log-Logged start tail (b ∷ lh) cache d =
    let d1 = write_block (start + tail + 1) (cache b) d in
    (
      write_log-keeps start (tail + 1) lh cache d1 (start + tail + 1) (inl (omega arith))
          ∙ rw (==_refl (start + tail + 1)) refl,
      write_log-Logged start (tail + 1) lh cache d1,
    )

-- Until the header is written the blocks outside the log are as before, and the header is.
pub write_log_trace-All :
    (start n tail : ℕ) (lh : List ℕ) (cache : ℕ → Block) (d : Disk) (f : ℕ → Block)
    → tail + length lh ≤ n
    → d.header ≡ []
    → ((j : ℕ) → IsHome start n j → d.blocks j ≡ f j)
    → All
        (λ c. (c.header ≡ []) × ((j : ℕ) → IsHome start n j → c.blocks j ≡ f j))
        (write_log_trace start tail lh cache d)
unfolding write_log_trace
write_log_trace-All start n tail [] cache d f room head same = tt
write_log_trace-All start n tail (b ∷ lh) cache d f room head same = (
  (head, kept),
  write_log_trace-All start n (tail + 1) lh cache (write_block (start + tail + 1) (cache b) d) f
      (omega arith) head kept,
)
  where
    apart : (j : ℕ) → IsHome start n j → tail + suc (length lh) ≤ n → j ≢ start + tail + 1
    apart j (inl h) r = omega arith
    apart j (inr h) r = omega arith

    kept : (j : ℕ) → IsHome start n j → (write_block (start + tail + 1) (cache b) d).blocks j ≡ f j
    kept j home = rw (==-of_ne j (start + tail + 1) (apart j home room)) (same j home)

pub Logged-same :
    (start n tail : ℕ) (lh : List ℕ) (cache : ℕ → Block) (c d : Disk)
    → tail + length lh ≤ n
    → ((i : ℕ) → i < n → c.blocks (start + i + 1) ≡ d.blocks (start + i + 1))
    → Logged start tail lh cache d
    → Logged start tail lh cache c
Logged-same start n tail [] cache c d room same log = tt
Logged-same start n tail (b ∷ lh) cache c d room same log = (
  same tail (omega arith) ∙ log.0,
  Logged-same start n (tail + 1) lh cache c d (omega arith) same log.1,
)

committed_cons :
    (b j : ℕ) (lh : List ℕ) (v : Block) (cache : ℕ → Block) (d : Disk)
    → v ≡ cache b
    → committed lh cache (write_block b v d) j ≡ committed (b ∷ lh) cache d j
committed_cons b j lh v cache d e = elim (Bool-cases (j == b)) [
  | inr f ↦ rw f refl
  | inl t ↦ elim (Bool-cases (in_header j lh)) [
    | inl h ↦ rw (t, h) refl
    | inr h ↦ rw (t, h) (e ∙ ap cache (sym ((==_iff j b).0 t)))
  ]
]

-- What the redo makes of a disk with such a log.
pub install-committed :
    (start n tail : ℕ) (lh : List ℕ) (cache : ℕ → Block) (d : Disk)
    → All (IsHome start n) lh
    → tail + length lh ≤ n
    → Logged start tail lh cache d
    → (j : ℕ) → (install_trans start tail lh d).blocks j ≡ committed lh cache d j
unfolding install_trans
install-committed start n tail [] cache d homes room log j = refl
install-committed start n tail (b ∷ lh) cache d homes room log j =
    install-committed start n (tail + 1) lh cache (write_block b (d.blocks (start + tail + 1)) d)
      homes.1 (omega arith)
      (Logged-same start n (tail + 1) lh cache (write_block b (d.blocks (start + tail + 1)) d) d
        (omega arith) (write-SameLog start n b (d.blocks (start + tail + 1)) d homes.0).log log.1)
      j
    ∙ committed_cons b j lh (d.blocks (start + tail + 1)) cache d log.0
