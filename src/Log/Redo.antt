-- ===== src/Log/Redo.antt =====
-- The redo of log.c: what install_trans makes of the blocks, as one function of the disk before it.
use computer_science_project.Prelude.{
  ℕ, ◌+◌, ◌<◌, ◌≤◌, ◌≡◌, ◌≢◌, ◌⊎◌, inl, inr, refl, sym, ◌∙◌, Bool, true, false, List, [], ◌∷◌, ◌==◌,
  if◌then◌else◌, length, arith, Bool-cases, ==-of_ne, All,
}
use computer_science_project.Log.{Block, Disk, write_block, install_trans, install_trace}

-- A block number that is not in the log of n blocks behind `start`.
abbrev pub IsHome : ℕ → ℕ → ℕ → Type 0
IsHome start n j = (j < start) ⊎ (start + n < j)

abbrev pub in_header : ℕ → List ℕ → Bool
in_header j [] = false
in_header j (b ∷ lh) = if j == b then true else in_header j lh

-- The two disks have the same log and the same header.
pub record SameLog (start n : ℕ) (d e : Disk) : Type 0 where
  pub log : (i : ℕ) → i < n → d.blocks (start + i + 1) ≡ e.blocks (start + i + 1)
  pub head : d.header ≡ e.header

-- The two disks have the same blocks outside the log, but for those that the header names.
abbrev pub SameBut : ℕ → ℕ → List ℕ → Disk → Disk → Type 0
SameBut start n lh d e =
    (j : ℕ) → IsHome start n j → in_header j lh ≡ false → d.blocks j ≡ e.blocks j

module _ (start n : ℕ) where
  -- A write outside the log leaves the log.
  pub write-SameLog :
      (b : ℕ) (v : Block) (d : Disk) → IsHome start n b → SameLog start n (write_block b v d) d
  write-SameLog b v d home = record {
    log = λ i lt. rw (==-of_ne (start + i + 1) b (apart i lt home)) refl;
    head = refl;
  }
    where
      apart : (i : ℕ) → i < n → IsHome start n b → start + i + 1 ≢ b
      apart i lt (inl h) = omega arith
      apart i lt (inr h) = omega arith

  pub SameLog-trans :
      (d e f : Disk) → SameLog start n d e → SameLog start n e f → SameLog start n d f
  SameLog-trans d e f p q = record { log = λ i lt. p.log i lt ∙ q.log i lt; head = p.head ∙ q.head }

  write_both-SameLog :
      (b : ℕ) (d e : Disk) (v w : Block)
      → IsHome start n b
      → SameLog start n d e
      → SameLog start n (write_block b v d) (write_block b w e)
  write_both-SameLog b d e v w home same =
      let p = write-SameLog b v d home in
      let q = write-SameLog b w e home in
      record { log = λ i lt. p.log i lt ∙ (same.log i lt ∙ sym (q.log i lt)); head = same.head }

  written :
      (b j : ℕ) (v w : Block) (lh : List ℕ) (d e : Disk)
      → v ≡ w
      → in_header j lh ≡ false
      → (in_header j (b ∷ lh) ≡ false → d.blocks j ≡ e.blocks j)
      → (write_block b v d).blocks j ≡ (write_block b w e).blocks j
  written b j v w lh d e same f rest = elim (Bool-cases (j == b)) [
    | inl t ↦ rw t same
    | inr g ↦ rw g (rest (rw g f))
  ]

  -- Redone from two disks with the same log, which differ at most at blocks that the header names, the
  -- blocks outside the log are the same.
  pub install-same :
      (tail : ℕ) (lh : List ℕ) (d e : Disk)
      → All (IsHome start n) lh
      → tail + length lh ≤ n
      → SameLog start n d e
      → (j : ℕ) → IsHome start n j
      → ((in_header j lh ≡ false) → d.blocks j ≡ e.blocks j)
      → (install_trans start tail lh d).blocks j ≡ (install_trans start tail lh e).blocks j
  unfolding install_trans
  install-same tail [] d e homes room same j home rest = rest refl
  install-same tail (b ∷ lh) d e homes room same j home rest =
      install-same (tail + 1) lh (write_block b (d.blocks (start + tail + 1)) d)
        (write_block b (e.blocks (start + tail + 1)) e) homes.1 (omega arith)
        (write_both-SameLog b d e (d.blocks (start + tail + 1)) (e.blocks (start + tail + 1))
          homes.0 same)
        j home
        (λ f.
          written b j (d.blocks (start + tail + 1)) (e.blocks (start + tail + 1)) lh d e
            (same.log tail (omega arith)) f rest)

  -- One write of the redo, and what is left of it.
  pub install_trace-log :
      (tail : ℕ) (lh : List ℕ) (d e : Disk)
      → All (IsHome start n) lh
      → SameLog start n d e
      → SameLog start n (install_trans start tail lh d) e
  unfolding install_trans
  install_trace-log tail [] d e homes same = same
  install_trace-log tail (b ∷ lh) d e homes same =
      install_trace-log (tail + 1) lh (write_block b (d.blocks (start + tail + 1)) d) e homes.1
        (SameLog-trans _ d e (write-SameLog b (d.blocks (start + tail + 1)) d homes.0) same)

  -- Every disk that a crash of install_trans can leave has the log and the header of the disk before, and
  -- its blocks outside the log but for those of the header.
  pub install_trace-All :
      (tail : ℕ) (lh all : List ℕ) (d e : Disk)
      → All (IsHome start n) lh
      → ((j : ℕ) → in_header j all ≡ false → in_header j lh ≡ false)
      → SameLog start n d e
      → SameBut start n all d e
      → All (λ c. SameLog start n c e × SameBut start n all c e) (install_trace start tail lh d)
  unfolding install_trace
  install_trace-All tail [] all d e homes part same but = tt
  install_trace-All tail (b ∷ lh) all d e homes part same but =
      let c = write_block b (d.blocks (start + tail + 1)) d in
      let same_c =
        SameLog-trans c d e (write-SameLog b (d.blocks (start + tail + 1)) d homes.0) same in
      let but_c : SameBut start n all c e =
        λ j home f. unwritten b j lh (d.blocks (start + tail + 1)) d (part j f) ∙ but j home f in
      (
        (same_c, but_c),
        install_trace-All (tail + 1) lh all c e homes.1 (λ j f. smaller b j lh (part j f)) same_c
            but_c,
      )
    where
      unwritten :
          (b j : ℕ) (lh : List ℕ) (v : Block) (d : Disk)
          → in_header j (b ∷ lh) ≡ false
          → (write_block b v d).blocks j ≡ d.blocks j
      unwritten b j lh v d f = elim (Bool-cases (j == b)) [
        | inl t ↦ absurd (ground arith)
        | inr g ↦ rw g refl
      ]

      smaller : (b j : ℕ) (lh : List ℕ) → in_header j (b ∷ lh) ≡ false → in_header j lh ≡ false
      smaller b j lh f = elim (Bool-cases (j == b)) [
        | inl t ↦ absurd (ground arith)
        | inr g ↦ ground arith
      ]
