-- ===== src/Sched/Joining.antt =====
-- What thread_join of proc.c gives back.
use computer_science_project.Prelude.Search.{find_index, IsFirstIndex, find_index_sound}
use computer_science_project.Prelude.{
  ℕ, ◌<◌, ◌≡◌, ◌≢◌, inl, inr, ap, sym, ◌∙◌, true, some, ◌∷◌, length, get_or, set, arith, Bool-cases,
  Option-cases, get_or-set_self, get_or-set_ne, length-set,
}
use computer_science_project.Sched.{no_proc, Kernel, proc_at, is_unused}
use computer_science_project.Sched.Thread.{
  thread_base, joined, is_dead_thread, without_stack, given, with_cleaned, cleaned_under,
  clean_thread, thread_join,
}

-- Masters are other entries of the table.
abbrev pub HasMasters : Kernel → Type 0
HasMasters k = (i m : ℕ) → (proc_at k i).master ≡ some m → (m < length k.procs) × (m ≢ i)

clean_thread-eq :
    (i m : ℕ) (k : Kernel)
    → (proc_at k i).master ≡ some m
    → clean_thread i k ≡ some (with_cleaned i m k)
unfolding clean_thread
clean_thread-eq i m k e = ap (cleaned_under i k) e

-- The branches of thread_join that do not return the value of a thread.
join-found :
    (thread me v : ℕ) (k t : Kernel)
    → thread_join thread me k ≡ some (joined v t)
    → (i : ℕ) × (find_index (is_dead_thread thread) k.procs ≡ some i)
      × (clean_thread i k ≡ some t)
      × (v ≡ (proc_at k i).tmp_retval)
unfolding thread_join
join-found thread me v k t h = elim (Option-cases (proc_at k me).master) [
  | inr (m, e) ↦ absurd (ground arith)
  | inl e ↦ elim (Option-cases (find_index (is_dead_thread thread) k.procs)) [
    | inl f ↦ elim (Bool-cases (proc_at k me).killed) [
      | inl d ↦ absurd (ground arith)
      | inr d ↦ absurd (ground arith)
    ]
    | inr (i, f) ↦ elim (Option-cases (clean_thread i k)) [
      | inl c ↦ absurd (ground arith)
      | inr (t', c) ↦ (i, f, ground arith, ground arith)
    ]
  ]
]

clean_thread-master :
    (i : ℕ) (k t : Kernel) → clean_thread i k ≡ some t → (m : ℕ) × ((proc_at k i).master ≡ some m)
unfolding clean_thread
clean_thread-master i k t h = elim (Option-cases (proc_at k i).master) [
  | inl e ↦ absurd (ground arith)
  | inr (m, e) ↦ (m, e)
]

clean_thread-base :
    (i m : ℕ) (k : Kernel)
    → i < length k.procs
    → (proc_at k i).master ≡ some m
    → m < length k.procs
    → m ≢ i
    → (t : Kernel) × (clean_thread i k ≡ some t)
      × (is_unused (proc_at t i) ≡ true)
      × (thread_base (proc_at t m) ≡ (proc_at k i).vir_add)
clean_thread-base i m k lt e inside ne =
    let t = with_cleaned i m k in
    let len1 = length-set k.procs i (without_stack i k) in
    let len2 =
      length-set (set k.procs i (without_stack i k)) m
        (record (get_or (set k.procs i (without_stack i k)) m no_proc) {
          empty_mem =
              (proc_at k i).vir_add
              ∷ (get_or (set k.procs i (without_stack i k)) m no_proc).empty_mem;
        })
      ∙ len1 in
    (
      t,
      clean_thread-eq i m k e,
      ap is_unused (get_or-set_self (given i m k) i _ no_proc (rw len2 lt)),
      ap thread_base (
          get_or-set_ne (given i m k) i m _ no_proc (λ q. ne (sym q))
          ∙ get_or-set_self (set k.procs i (without_stack i k)) m _ no_proc (rw len1 inside)),
    )

-- Where masters are other entries of the table, a thread_join that succeeds returns the value of the
-- first zombie with that tid, frees the entry, and puts the thread's pages on top of those that the
-- next thread_create of its master takes.
pub thread_join_lem :
    (thread me v : ℕ) (k t : Kernel)
    → HasMasters k
    → thread_join thread me k ≡ some (joined v t)
    → (i : ℕ) × (m : ℕ) × (IsFirstIndex (is_dead_thread thread) k.procs no_proc i)
      × ((proc_at k i).master ≡ some m)
      × (v ≡ (proc_at k i).tmp_retval)
      × (is_unused (proc_at t i) ≡ true)
      × (thread_base (proc_at t m) ≡ (proc_at k i).vir_add)
thread_join_lem thread me v k t masters h =
    let (i, f, c, value) = join-found thread me v k t h in
    let (m, e) = clean_thread-master i k t c in
    let (inside, ne) = masters i m e in
    let first = find_index_sound (is_dead_thread thread) no_proc k.procs i f in
    let (t', c', free, base) = clean_thread-base i m k first.0 e inside ne in
    let same : t' ≡ t = ground arith in
    (
      i,
      m,
      first,
      e,
      value,
      ap (λ (x : Kernel). is_unused (proc_at x i)) (sym same) ∙ free,
      ap (λ (x : Kernel). thread_base (proc_at x m)) (sym same) ∙ base,
    )
