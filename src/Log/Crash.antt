-- ===== src/Log/Crash.antt =====
-- Crashes in the middle of commit and of recover_from_log of log.c.
use computer_science_project.Prelude.{
  ℕ, ◌+◌, ◌<◌, ◌≤◌, ◌≡◌, ◌⊎◌, inl, inr, refl, ap, ◌∙◌, List, [], ◌∷◌, if◌then◌else◌, length, arith,
  All, All-append,
}
use computer_science_project.Log.{
  Block, Disk, write_head, install_trans, install_trace, write_log, write_log_trace,
  recover_from_log, recover_trace, commit, commit_trace,
}
use computer_science_project.Log.Redo.{
  IsHome, in_header, SameLog, SameBut, install-same, install_trace-All,
}
use computer_science_project.Log.Writes.{
  committed, RecoversTo, write_log-keeps, write_log-Logged, write_log_trace-All, Logged-same,
  install-committed,
}

-- Recovery of a disk with an empty header changes no block.
recover_empty :
    (start : ℕ) (c : Disk)
    → c.header ≡ []
    → (j : ℕ) → (recover_from_log start c).blocks j ≡ c.blocks j
unfolding recover_from_log install_trans
recover_empty start c e j = ap (λ (lh : List ℕ). (install_trans start 0 lh c).blocks j) e

All-mono : (P Q : Disk → Type 0) → ((c : Disk) → P c → Q c) → (cs : List Disk) → All P cs → All Q cs
All-mono P Q f [] all = tt
All-mono P Q f (c ∷ cs) all = (f c all.0, All-mono P Q f cs all.1)

module _ (start n : ℕ) (d : Disk) (homes : All (IsHome start n) d.header)
    (room : length d.header ≤ n) where
  -- A crash in the middle of the redo does no harm.
  redone :
      (c : Disk)
      → SameLog start n c d
      → SameBut start n d.header c d
      → RecoversTo start n (recover_from_log start d).blocks c
  unfolding recover_from_log
  redone c same but j home =
      ap (λ (lh : List ℕ). (install_trans start 0 lh c).blocks j) same.head
      ∙ install-same start n 0 d.header c d homes (omega arith) same j home (but j home)

  -- With at most n block numbers in the header, of blocks outside the log of n blocks: recovery from
  -- the disk after any write of an earlier recovery gives the blocks outside the log that the
  -- earlier one was to give, and recovery leaves the header empty.
  pub recover-again :
      All (RecoversTo start n (recover_from_log start d).blocks) (recover_trace start d)
      × ((recover_from_log start d).header ≡ [])
  unfolding recover_trace
  recover-again = (
    All-append (RecoversTo start n (recover_from_log start d).blocks)
        (install_trace start 0 d.header d) (recover_from_log start d ∷ [])
        (All-mono (λ c. SameLog start n c d × SameBut start n d.header c d)
          (RecoversTo start n (recover_from_log start d).blocks) (λ c p. redone c p.0 p.1)
          (install_trace start 0 d.header d)
          (install_trace-All start n 0 d.header d.header d d homes (λ j f. f)
            record { log = λ i lt. refl; head = refl } (λ j home f. refl)))
        ((λ j home. recover_empty start (recover_from_log start d) emptied j), tt),
    emptied,
  )
    where
      emptied : (recover_from_log start d).header ≡ []
      emptied = (unfold recover_from_log in refl)

abbrev pub AllOrNone : ℕ → ℕ → List ℕ → (ℕ → Block) → Disk → Disk → Type 0
AllOrNone start n lh cache d c =
    RecoversTo start n d.blocks c ⊎ RecoversTo start n (committed lh cache d) c

-- The header is what commits: redone from it, the disk has the transaction.
headed_redo :
    (start n : ℕ) (lh : List ℕ) (cache : ℕ → Block) (d : Disk)
    → All (IsHome start n) lh
    → length lh ≤ n
    → RecoversTo start n (committed lh cache d) (write_head lh (write_log start 0 lh cache d))
unfolding recover_from_log
headed_redo start n lh cache d homes room j home =
    let logged = write_log start 0 lh cache d in
    install-committed start n 0 lh cache (write_head lh logged) homes (omega arith)
      (Logged-same start n 0 lh cache (write_head lh logged) logged (omega arith) (λ i lt. refl)
        (write_log-Logged start 0 lh cache d))
      j
    ∙ ap (λ (v : Block). if in_header j lh then cache j else v)
        (write_log-keeps start 0 lh cache d j (out home))
  where
    out : IsHome start n j → (j ≤ start + 0) ⊎ (start + 0 + length lh < j)
    out (inl h) = inl (omega arith)
    out (inr h) = inr (omega arith)

-- From a disk whose log header is empty, with a transaction of at most n blocks that lie outside the
-- log of n blocks: recovery from the disk after any write of commit gives, outside the log, either
-- every block as before the transaction or every block of the transaction as in the cache and the
-- others as before; and after the whole commit it gives the latter.
pub commit_trace-AllOrNone :
    (start n : ℕ) (lh : List ℕ) (cache : ℕ → Block) (d : Disk)
    → d.header ≡ []
    → All (IsHome start n) lh
    → length lh ≤ n
    → All (AllOrNone start n lh cache d) (commit_trace start lh cache d)
      × RecoversTo start n (committed lh cache d) (commit start lh cache d)
unfolding commit_trace commit recover_trace
commit_trace-AllOrNone start n lh cache d head homes room =
    let logged = write_log start 0 lh cache d in
    let headed = write_head lh logged in
    let before =
      write_log_trace-All start n 0 lh cache d d.blocks (omega arith) head (λ j home. refl) in
    let again = recover-again start n headed homes room in
    (
      All-append (AllOrNone start n lh cache d) (write_log_trace start 0 lh cache d)
          (headed ∷ recover_trace start headed)
          (All-mono (λ c. (c.header ≡ []) × ((j : ℕ) → IsHome start n j → c.blocks j ≡ d.blocks j))
            (AllOrNone start n lh cache d)
            (λ c p. inl (λ j home. recover_empty start c p.0 j ∙ p.1 j home))
            (write_log_trace start 0 lh cache d) before)
          (
            inr (headed_redo start n lh cache d homes room),
            All-mono (RecoversTo start n (recover_from_log start headed).blocks)
                (AllOrNone start n lh cache d)
                (λ c p. inr (λ j home. p j home ∙ headed_redo start n lh cache d homes room j home))
                (recover_trace start headed) again.0,
          ),
      λ j home.
          recover_empty start (recover_from_log start headed) again.1 j
          ∙ headed_redo start n lh cache d homes room j home,
    )
