-- ===== src/Kernel/Files/Processes/Loops.antt =====
-- The loops over descriptors of fork and exit in proc.c.
use computer_science_project.Prelude.{
  ℕ, suc, ◌+◌, ◌≤◌, ◌≡◌, refl, ap, none, some, List, [], ◌∷◌, ◌++◌, length, arith, ==_refl, All,
  Option,
}
use computer_science_project.Kernel.Files.{File, Fds, Closing}
use computer_science_project.Kernel.Files.Calls.{dup_all, close_all}
use computer_science_project.Kernel.Files.Table.{one, Refs, filedup-Refs, fileclose-Refs}
use computer_science_project.Kernel.Files.Counts.{count}

abbrev pub IsClosed : Fds → Type 0
IsClosed ofile = All (λ (e : Option ℕ). e ≡ none) ofile

-- Into closed descriptors, the loop of fork_files copies all, and each file gains its count.
pub dup_all-Refs :
    (ofile child : Fds) (files : List File) (n : ℕ → ℕ)
    → length ofile ≡ length child
    → IsClosed child
    → Refs files n
    → ((g : ℕ) → count g ofile ≤ n g)
    → (after : List File) × (dup_all ofile child files ≡ some (ofile, after))
      × Refs after (λ g. n g + count g ofile)
unfolding dup_all
dup_all-Refs [] [] files n len none_open refs held = (files, refl, λ g. omega (arith, refs g))
dup_all-Refs [] (c ∷ child) files n len none_open refs held = absurd (omega arith)
dup_all-Refs (e ∷ ofile) [] files n len none_open refs held = absurd (omega arith)
dup_all-Refs (none ∷ ofile) (c ∷ child) files n len none_open refs held =
    let (after, done, counts) =
      dup_all-Refs ofile child files n (omega (arith, len)) none_open.1 refs
        (λ g. omega (arith, held g)) in
    (after, rw (done, none_open.0) refl, λ g. omega (arith, counts g))
dup_all-Refs (some f ∷ ofile) (c ∷ child) files n len none_open refs held =
    let mine : 1 ≤ n f = ground (arith, held f, ==_refl f) in
    let (files1, duped, refs1) = filedup-Refs files n f refs mine in
    let (after, done, counts) =
      dup_all-Refs ofile child files1 (λ g. n g + one f g) (omega (arith, len)) none_open.1 refs1
        (λ g. omega (arith, held g)) in
    (after, rw (duped, dup_all, done) refl, λ g. omega (arith, counts g))

-- The loop of exit_files closes all, and takes its count from each file.
pub close_all-Refs :
    (ofile : Fds) (files : List File) (n : ℕ → ℕ)
    → Refs files (λ g. n g + count g ofile)
    → (left : Fds) × (c : List Closing) × (after : List File) × (close_all ofile files
        ≡ some (left, c, after))
      × Refs after n
      × IsClosed left
      × (length left ≡ length ofile)
unfolding close_all
close_all-Refs [] files n refs = ([], [], files, refl, λ g. omega (arith, refs g), tt, refl)
close_all-Refs (none ∷ ofile) files n refs =
    let (left, c, after, done, counts, none_open, len) =
      close_all-Refs ofile files n (λ g. omega (arith, refs g)) in
    (none ∷ left, c, after, rw done refl, counts, (refl, none_open), ap suc len)
close_all-Refs (some f ∷ ofile) files n refs =
    let (c1, files1, closed, refs1) =
      fileclose-Refs files (λ g. n g + count g ofile) f (λ g. omega (arith, refs g)) in
    let (left, c, after, done, counts, none_open, len) = close_all-Refs ofile files1 n refs1 in
    (
      none ∷ left,
      c1 ++ c,
      after,
      rw (closed, close_all, done) refl,
      counts,
      (refl, none_open),
      ap suc len,
    )
