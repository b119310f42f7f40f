-- ===== src/Kernel/Files/Pipes.antt =====
-- pipealloc of pipe.c and sys_pipe of sysfile.c keep the reference counts, whatever fails.
use computer_science_project.Prelude.{
  ℕ, ◌+◌, ◌≤◌, ◌≡◌, ◌∙◌, ◌≢◌, refl, ap, inl, inr, Bool, not, true, false, none, some, Option,
  get_or, set, arith, ==_refl, ==-of_ne, ℕ_discrete, length, length-set, List,
}
use computer_science_project.Kernel.Files.{File, no_file, fd_pipe, nofile}
use computer_science_project.Kernel.Files.Calls.{
  Open, set_pipe, join_ends, pipealloc, pipe_failed, pipe_fds, sys_pipe,
}
use computer_science_project.Kernel.Files.Table.{one, Refs, in_table, Refs-set, filealloc-Refs}
use computer_science_project.Kernel.Files.Counts.{
  count, holds, count-set, IsCounted, fdalloc-count, close_file-Refs, close_two-Refs,
}

set_pipe-Refs :
    (f : ℕ) (writable : Bool) (page : ℕ) (files : List File) (m : ℕ → ℕ)
    → Refs files m
    → 1 ≤ m f
    → Refs (set_pipe f writable page files) m
unfolding set_pipe
set_pipe-Refs f writable page files m refs le =
    Refs-set files m f
      (record (get_or files f no_file) {
        file_type = fd_pipe;
        readable = not writable;
        writable = writable;
        pipe = page;
      })
      m refs (in_table files f (omega (arith, refs f)))
      (λ g. elim (ℕ_discrete f g) [
        | yes e ↦ rw (← e, ==_refl f, refs f) refl
        | no ne ↦ rw (==-of_ne f g ne) refl
      ])

-- A pair of new files, each with one reference more than the counts m.
abbrev pub IsPair : (ℕ → ℕ) → Open → ℕ → ℕ → Type 0
IsPair m o f0 f1 =
    Refs o.files (λ g. m g + one f0 g + one f1 g) × (m f0 ≡ 0) × (m f1 ≡ 0) × (f0 ≢ f1)

-- The outcome of an allocation: the counts as they were, or a pair.
abbrev IsPairOrNone : (ℕ → ℕ) → Option (ℕ × ℕ) → Open → Type 0
IsPairOrNone m none after = Refs after.files m
IsPairOrNone m (some (f0, f1)) after = IsPair m after f0 f1

join_ends-IsPairOrNone :
    (page : Option ℕ) (f0 f1 : ℕ) (o : Open) (m : ℕ → ℕ)
    → IsPair m o f0 f1
    → (r : Option (ℕ × ℕ)) × (after : Open) × (join_ends page f0 f1 o ≡ some (r, after))
      × (after.ofile ≡ o.ofile)
      × IsPairOrNone m r after
unfolding join_ends
join_ends-IsPairOrNone none f0 f1 o m (refs, new0, new1, differ) =
    let (after, closed, back, same) = close_two-Refs f0 f1 o m refs in
    (none, after, rw (closed, join_ends) refl, same, back)
join_ends-IsPairOrNone (some p) f0 f1 o m (refs, new0, new1, differ) =
    let n : ℕ → ℕ = λ g. m g + one f0 g + one f1 g in
    let one0 = ==_refl f0 in
    let one1 = ==_refl f1 in
    let first = set_pipe-Refs f0 false p o.files n refs (ground (arith, one0)) in
    (
      some (f0, f1),
      record o { files = set_pipe f1 true p (set_pipe f0 false p o.files) },
      refl,
      refl,
      (
        set_pipe-Refs f1 true p (set_pipe f0 false p o.files) n first (ground (arith, one1)),
        new0,
        new1,
        differ,
      ),
    )

-- pipealloc fails with the counts as they were, or gives two files that nothing refers to.
pipealloc-IsPairOrNone :
    (page : Option ℕ) (o : Open) (m : ℕ → ℕ)
    → Refs o.files m
    → (r : Option (ℕ × ℕ)) × (after : Open) × (pipealloc page o ≡ some (r, after))
      × (after.ofile ≡ o.ofile)
      × IsPairOrNone m r after
unfolding pipealloc
pipealloc-IsPairOrNone page o m refs = elim (filealloc-Refs o.files m refs) [
  | inl full ↦ (none, o, rw (full, pipealloc) refl, refl, refs)
  | inr (f0, files0, first, refs0, new0) ↦
      elim (filealloc-Refs files0 (λ g. m g + one f0 g) refs0) [
        | inl full ↦
            let (after, closed, back, same) =
              close_file-Refs f0 (record o { files = files0 }) m refs0 in
            (none, after, rw (first, full, closed, pipealloc) refl, same, back)
        | inr (f1, files1, second, refs1, new1) ↦
            let differ : f0 ≢ f1 = λ e. absurd (ground arith) in
            let (r, after, joined, same, pair) =
              join_ends-IsPairOrNone page f0 f1 (record o { files = files1 }) m
                (refs1, new0, omega (arith, new1), differ) in
            (r, after, rw (first, second, joined, pipealloc) refl, same, pair)
      ]
]

pipe_fds-IsCounted :
    (n : ℕ → ℕ) (rf wf : ℕ) (o : Open)
    → IsPair (λ g. n g + count g o.ofile) o rf wf
    → length o.ofile ≡ nofile
    → (r : Option (ℕ × ℕ)) × (after : Open) × (pipe_fds rf wf o ≡ some (r, after))
      × IsCounted n after
unfolding pipe_fds pipe_failed
pipe_fds-IsCounted n rf wf o (refs, new0, new1, differ) size = elim (fdalloc-count rf o.ofile) [
  | inl full ↦
      let (after, closed, back, same) = close_two-Refs rf wf o (λ g. n g + count g o.ofile) refs in
      (
        none,
        after,
        rw (full, closed, pipe_fds) refl,
        record { refs = λ g. rw same (back g); size = ap length same ∙ size },
      )
  | inr (fd0, ofile0, first, len0, count0, low0, there0) ↦ elim (fdalloc-count wf ofile0) [
    | inl full ↦
        let undone = record o { ofile = set ofile0 fd0 none } in
        let (after, closed, back, same) =
          close_two-Refs rf wf undone (λ g. n g + count g (set ofile0 fd0 none))
            (λ g. omega (
              arith,
              refs g,
              count0 g,
              count-set ofile0 fd0 none g (omega (arith, low0, len0)),
              ap (holds g) there0,
            )) in
        (
          none,
          after,
          rw (first, full, closed, pipe_fds) refl,
          record {
            refs = λ g. rw same (back g);
            size = ap length same ∙ length-set ofile0 fd0 none ∙ len0 ∙ size;
          },
        )
    | inr (fd1, ofile1, second, len1, count1, low1, there1) ↦ (
      some (fd0, fd1),
      record o { ofile = ofile1 },
      rw (first, second, pipe_fds) refl,
      record { refs = λ g. omega (arith, refs g, count0 g, count1 g); size = len1 ∙ len0 ∙ size },
    )
  ]
]

pipe_given-IsCounted :
    (n : ℕ → ℕ) (page : Option ℕ) (o : Open) (r : Option (ℕ × ℕ)) (o1 : Open)
    → pipealloc page o ≡ some (r, o1)
    → IsPairOrNone (λ g. n g + count g o1.ofile) r o1
    → length o1.ofile ≡ nofile
    → (r : Option (ℕ × ℕ)) × (after : Open) × (sys_pipe page o ≡ some (r, after))
      × IsCounted n after
unfolding sys_pipe
pipe_given-IsCounted n page o none o1 e refs size =
    (none, o1, rw (e, sys_pipe) refl, record { refs = refs; size = size })
pipe_given-IsCounted n page o (some (rf, wf)) o1 e pair size =
    let (r, after, done, ok) = pipe_fds-IsCounted n rf wf o1 pair size in
    (r, after, rw (e, sys_pipe) done, ok)

pub sys_pipe-IsCounted :
    (n : ℕ → ℕ) (page : Option ℕ) (o : Open)
    → IsCounted n o
    → (r : Option (ℕ × ℕ)) × (after : Open) × (sys_pipe page o ≡ some (r, after))
      × IsCounted n after
sys_pipe-IsCounted n page o ok =
    let (r, o1, e, same, pair) =
      pipealloc-IsPairOrNone page o (λ g. n g + count g o.ofile) ok.refs in
    pipe_given-IsCounted n page o r o1 e (rw same pair) (ap length same ∙ ok.size)
