-- ===== src/Kernel/Files/Counts.antt =====
-- Descriptors as references: the calls on descriptors in sysfile.c and pipe.c keep the reference counts.
use computer_science_project.Prelude.{
  ℕ, zero, suc, ◌+◌, ◌≤◌, ◌<◌, ◌≡◌, ◌⊎◌, ◌∙◌, ◌++◌, refl, ap, inl, inr, true, false, Option, none,
  some, [], ◌∷◌, get_or, set, length, arith, leb, Bool, Bool-cases, Option-cases, ==_refl,
  length-set, get_or-set_self,
}
use computer_science_project.Prelude.Search.{find_index, find_index_sound}
use computer_science_project.Kernel.Files.{Fds, no_descriptor, nofile, argfd, fdalloc}
use computer_science_project.Kernel.Files.Calls.{Open, close_file, close_two, sys_dup, sys_close}
use computer_science_project.Kernel.Files.Table.{one, Refs, filedup-Refs, fileclose-Refs}

abbrev pub holds : ℕ → Option ℕ → ℕ
holds g none = 0
holds g (some f) = one f g

-- How many of the descriptors are open on a file.
abbrev pub count : ℕ → Fds → ℕ
count g [] = 0
count g (e ∷ ofile) = holds g e + count g ofile

pub count-set :
    (ofile : Fds) (fd : ℕ) (e : Option ℕ) (g : ℕ)
    → fd < length ofile
    → count g (set ofile fd e) + holds g (get_or ofile fd none) ≡ count g ofile + holds g e
count-set [] fd e g lt = absurd (omega arith)
count-set (x ∷ ofile) zero e g lt = omega arith
count-set (x ∷ ofile) (suc fd) e g lt =
    let rest = count-set ofile fd e g (omega arith) in omega arith

-- The descriptors of the calling process, with n references by the others.
pub record IsCounted (n : ℕ → ℕ) (o : Open) : Type 0 where
  pub refs : Refs o.files (λ g. n g + count g o.ofile)
  pub size : length o.ofile ≡ nofile

held-holds : (e : Option ℕ) (f : ℕ) → e ≡ some f → holds f e ≡ 1
held-holds e f at = rw (at, ==_refl f) refl

held-count :
    (fd : ℕ) (ofile : Fds) (f : ℕ)
    → fd < length ofile
    → get_or ofile fd none ≡ some f
    → (n : ℕ → ℕ) → 1 ≤ n f + count f ofile
held-count fd ofile f lt at n =
    let sum = count-set ofile fd none f lt in
    omega (arith, sum, held-holds (get_or ofile fd none) f at)

-- A descriptor that argfd accepts is a reference.
argfd-holds :
    (fd : ℕ) (ofile : Fds) (f : ℕ)
    → length ofile ≡ nofile
    → argfd fd ofile ≡ some f
    → (fd < length ofile) × (get_or ofile fd none ≡ some f)
unfolding argfd
argfd-holds fd ofile f size e = elim (Bool-cases (leb nofile fd)) [
  | inl t ↦ absurd (ground arith)
  | inr low ↦ (ground arith, ground arith)
]

no_descriptor-none : (e : Option ℕ) → no_descriptor e ≡ true → e ≡ none
no_descriptor-none none h = refl
no_descriptor-none (some f) h = absurd (ground arith)

-- fdalloc fails, or adds one reference to the file.
pub fdalloc-count :
    (f : ℕ) (ofile : Fds)
    → (fdalloc f ofile ≡ none)
      ⊎ ((fd : ℕ) × (after : Fds) × (fdalloc f ofile ≡ some (fd, after))
          × (length after ≡ length ofile)
          × ((g : ℕ) → count g after ≡ count g ofile + one f g)
          × (fd < length ofile)
          × (get_or after fd none ≡ some f))
unfolding fdalloc
fdalloc-count f ofile = elim (Option-cases (find_index no_descriptor ofile)) [
  | inl full ↦ inl (rw (full, fdalloc) refl)
  | inr (fd, at) ↦
      let (lt, free, before) = find_index_sound no_descriptor none ofile fd at in
      let was_free = no_descriptor-none (get_or ofile fd none) free in
      inr (
        fd,
        set ofile fd (some f),
        rw (at, fdalloc) refl,
        length-set ofile fd (some f),
        (λ g. let sum = count-set ofile fd (some f) g lt in omega (arith, ap (holds g) was_free)),
        lt,
        get_or-set_self ofile fd (some f) none lt,
      )
]

-- Closing a file on behalf of one of its references.
pub close_file-Refs :
    (f : ℕ) (o : Open) (m : ℕ → ℕ)
    → Refs o.files (λ g. m g + one f g)
    → (after : Open) × (close_file f o ≡ some after) × Refs after.files m × (after.ofile ≡ o.ofile)
unfolding close_file
close_file-Refs f o m refs =
    let (c, files, closed, counts) = fileclose-Refs o.files m f refs in
    (record o { files = files; closed = o.closed ++ c }, rw (closed, close_file) refl, counts, refl)

-- sys_dup never
pub sys_dup-IsCounted :
    (n : ℕ → ℕ) (fd : ℕ) (o : Open)
    → IsCounted n o
    → (r : Option ℕ) × (after : Open) × (sys_dup fd o ≡ some (r, after)) × IsCounted n after
unfolding sys_dup
sys_dup-IsCounted n fd o ok = elim (Option-cases (argfd fd o.ofile)) [
  | inl bad ↦ (none, o, rw (bad, sys_dup) refl, ok)
  | inr (f, good) ↦
      let (lt, at) = argfd-holds fd o.ofile f ok.size good in
      elim (fdalloc-count f o.ofile) [
        | inl full ↦ (none, o, rw (good, sys_dup, full) refl, ok)
        | inr (new_fd, ofile, allocated, len, counts, low, there) ↦
            let (files, duped, refs) =
              filedup-Refs o.files (λ g. n g + count g o.ofile) f ok.refs
                (held-count fd o.ofile f lt at n) in
            (
              some new_fd,
              record o { files = files; ofile = ofile },
              rw (good, sys_dup, allocated, duped) refl,
              record { refs = λ g. omega (arith, refs g, counts g); size = len ∙ ok.size },
            )
      ]
]

pub sys_close-IsCounted :
    (n : ℕ → ℕ) (fd : ℕ) (o : Open)
    → IsCounted n o
    → (r : Bool) × (after : Open) × (sys_close fd o ≡ some (r, after)) × IsCounted n after
unfolding sys_close
sys_close-IsCounted n fd o ok = elim (Option-cases (argfd fd o.ofile)) [
  | inl bad ↦ (false, o, rw (bad, sys_close) refl, ok)
  | inr (f, good) ↦
      let (lt, at) = argfd-holds fd o.ofile f ok.size good in
      let (after, closed, refs, same) =
        close_file-Refs f (record o { ofile = set o.ofile fd none })
          (λ g. n g + count g (set o.ofile fd none))
          (λ g. omega (arith, ok.refs g, count-set o.ofile fd none g lt, ap (holds g) at)) in
      (
        true,
        after,
        rw (good, sys_close, closed) refl,
        record {
          refs = λ g. rw same (refs g);
          size = ap length same ∙ length-set o.ofile fd none ∙ ok.size;
        },
      )
]

-- Two references, to files that may be the same, are given back.
pub close_two-Refs :
    (f h : ℕ) (o : Open) (m : ℕ → ℕ)
    → Refs o.files (λ g. m g + one f g + one h g)
    → (after : Open) × (close_two f h o ≡ some after) × Refs after.files m × (after.ofile ≡ o.ofile)
unfolding close_two
close_two-Refs f h o m refs =
    let (o1, closed1, refs1, same1) =
      close_file-Refs f o (λ g. m g + one h g) (λ g. omega (arith, refs g)) in
    let (o2, closed2, refs2, same2) = close_file-Refs h o1 m refs1 in
    (o2, rw (closed1, closed2, close_two) refl, refs2, same2 ∙ same1)
