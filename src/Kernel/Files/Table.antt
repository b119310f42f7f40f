-- ===== src/Kernel/Files/Table.antt =====
-- What filealloc, filedup and fileclose of file.c do to the reference counts.
use computer_science_project.Prelude.{
  ℕ, zero, suc, ◌+◌, ◌≤◌, ◌<◌, ◌≡◌, ◌⊎◌, refl, ◌-◌, ltb, ==_refl, ==-of_ne, ℕ_discrete, inl, inr,
  false, none, some, List, [], ◌∷◌, get_or, set, length, arith, ◌==◌, if◌then◌else◌, Bool-cases,
  Option-cases, get_or-set_self, get_or-set_ne,
}
use computer_science_project.Prelude.Search.{find_index, find_index_sound}
use computer_science_project.Kernel.Files.{
  File, no_file, Closing, is_free, filealloc, filedup, fileclose, closings, fd_none,
}

pub get_or-set {ℓ} :
    {A : Type ℓ} (xs : List A) (i j : ℕ) (v d : A)
    → i < length xs
    → get_or (set xs i v) j d ≡ (if i == j then v else get_or xs j d)
get_or-set xs i j v d lt = elim (Bool-cases (i == j)) [
  | inl t ↦ let e : i ≡ j = ground arith in rw t (rw (← e) (get_or-set_self xs i v d lt))
  | inr f ↦ rw f (get_or-set_ne xs i j v d (ground arith))
]

-- 1 for the file g itself
abbrev pub one : ℕ → ℕ → ℕ
one f g = if f == g then 1 else 0

-- The counts of the table are n.
abbrev pub Refs : List File → (ℕ → ℕ) → Type 0
Refs files n = (f : ℕ) → (get_or files f no_file).ref ≡ n f

pub in_table : (files : List File) (f : ℕ) → 1 ≤ (get_or files f no_file).ref → f < length files
in_table [] f h = absurd (omega arith)
in_table (x ∷ files) zero h = omega arith
in_table (x ∷ files) (suc f) h = let lt = in_table files f h in omega arith

-- Writing one entry changes one count.
pub Refs-set :
    (files : List File) (n : ℕ → ℕ) (f : ℕ) (v : File) (m : ℕ → ℕ)
    → Refs files n
    → f < length files
    → ((g : ℕ) → m g ≡ (if f == g then v.ref else n g))
    → Refs (set files f v) m
Refs-set files n f v m counts lt e g =
    rw (get_or-set files f g v no_file lt, e g)
      (elim (Bool-cases (f == g)) [ inl t ↦ rw t refl | inr ne ↦ rw ne (counts g) ])

-- filealloc takes an entry that nothing refers to, and gives it one reference.
pub filealloc-Refs :
    (files : List File) (n : ℕ → ℕ)
    → Refs files n
    → (filealloc files ≡ none)
      ⊎ ((i : ℕ) × (after : List File) × (filealloc files ≡ some (i, after))
          × Refs after (λ g. n g + one i g)
          × (n i ≡ 0))
unfolding filealloc
filealloc-Refs files n counts = elim (Option-cases (find_index is_free files)) [
  | inl free ↦ inl (rw (free, filealloc) refl)
  | inr (k, at) ↦
      let (lt, free, before) = find_index_sound is_free no_file files k at in
      let zero_ref : n k ≡ 0 = ground (arith, counts k) in
      let entry = record (get_or files k no_file) { ref = 1 } in
      inr (
        k,
        set files k entry,
        rw (at, filealloc) refl,
        Refs-set files n k entry (λ g. n g + one k g) counts lt
            (λ g. elim (ℕ_discrete k g) [
              | yes e ↦ rw (← e, zero_ref, ==_refl k) refl
              | no ne ↦ rw (==-of_ne k g ne) (omega arith)
            ]),
        zero_ref,
      )
]

pub filedup-Refs :
    (files : List File) (n : ℕ → ℕ) (f : ℕ)
    → Refs files n
    → 1 ≤ n f
    → (after : List File) × (filedup f files ≡ some after) × Refs after (λ g. n g + one f g)
unfolding filedup
filedup-Refs files n f counts le =
    let entry = get_or files f no_file in
    let more = record entry { ref = entry.ref + 1 } in
    let held : ltb entry.ref 1 ≡ false = ground (arith, counts f) in
    (
      set files f more,
      rw (held, filedup) refl,
      Refs-set files n f more (λ g. n g + one f g) counts
          (in_table files f (ground (arith, counts f)))
          (λ g. elim (ℕ_discrete f g) [
            | yes e ↦ rw (← e, ==_refl f, counts f) refl
            | no ne ↦ rw (==-of_ne f g ne) (omega arith)
          ]),
    )

pub fileclose-Refs :
    (files : List File) (n : ℕ → ℕ) (f : ℕ)
    → Refs files (λ g. n g + one f g)
    → (c : List Closing) × (after : List File) × (fileclose f files ≡ some (c, after))
      × Refs after n
unfolding fileclose
fileclose-Refs files n f counts =
    let entry = get_or files f no_file in
    let mine : entry.ref ≡ n f + 1 = ground (arith, counts f, ==_refl f) in
    let held : ltb entry.ref 1 ≡ false = ground arith in
    let lt = in_table files f (omega arith) in
    rw held (elim (Bool-cases (ltb 0 (entry.ref - 1))) [
      | inl t ↦ rw t (
        [],
        set files f (record entry { ref = entry.ref - 1 }),
        refl,
        Refs-set files (λ g. n g + one f g) f (record entry { ref = entry.ref - 1 }) n counts lt
            (λ g. elim (ℕ_discrete f g) [
              | yes e ↦ rw (← e, ==_refl f, mine) (omega arith)
              | no ne ↦ rw (==-of_ne f g ne) (omega arith)
            ]),
      )
      | inr fl ↦
          let last : n f ≡ 0 = ground arith in
          rw fl (
            closings entry,
            set files f (record entry { ref = 0; file_type = fd_none }),
            refl,
            Refs-set files (λ g. n g + one f g) f (record entry { ref = 0; file_type = fd_none }) n
                counts lt
                (λ g. elim (ℕ_discrete f g) [
                  | yes e ↦ rw (← e, ==_refl f, last) refl
                  | no ne ↦ rw (==-of_ne f g ne) (omega arith)
                ]),
          )
    ])
