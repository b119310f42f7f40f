-- ===== src/Sched/Birth.antt =====
-- The pids that allocproc and fork of proc.c give out.
use computer_science_project.Prelude.Search.{find_index, find_index_sound, find_index_complete}
use computer_science_project.Prelude.Words.{add_w, slt}
use computer_science_project.Prelude.{
  ℕ, ◌+◌, ◌^◌, ◌<◌, ◌≡◌, ◌≢◌, ◌⊎◌, inl, inr, refl, ap, sym, ◌∙◌, Bool, true, false, ◌||◌, Option,
  none, some, [], length, arith, Bool-cases, Option-cases, ℕ_discrete,
}
use computer_science_project.Sched.{Proc, no_proc, Kernel, runnable, proc_at, put, is_unused}
use computer_science_project.Sched.Process.{
  setpriority, is_target, claimed, allocproc, forked, fork,
}
use computer_science_project.Sched.Table.{proc_at-put_self, proc_at-put_ne, length-put}

-- The pids in the table are below the next one.
abbrev pub IsFresh : Kernel → Type 0
IsFresh k = (j : ℕ) → (proc_at k j).pid < k.nextpid

-- setpriority changes no pid, and not the length of the table.
pub setpriority-pid :
    (in_pid prio : ℕ) (k : Kernel)
    → ((j : ℕ) → (proc_at (setpriority in_pid prio k).0 j).pid ≡ (proc_at k j).pid)
      × (length (setpriority in_pid prio k).0.procs ≡ length k.procs)
      × ((setpriority in_pid prio k).0.nextpid ≡ k.nextpid)
unfolding setpriority
setpriority-pid in_pid prio k = elim (Bool-cases (slt prio 0 || slt 10 prio)) [
  | inl bad ↦ rw bad (λ j. refl, refl, refl)
  | inr good ↦ elim (Option-cases (find_index (is_target k in_pid) k.procs)) [
    | inl e ↦ rw (good, e) (λ j. refl, refl, refl)
    | inr (i, e) ↦
        rw (good, e)
          (
            put_same k i prio (find_index_sound (is_target k in_pid) no_proc k.procs i e).0,
            length-put k i _,
            refl,
          )
  ]
]
  where
    put_same :
        (k : Kernel) (i prio : ℕ)
        → i < length k.procs
        → (j : ℕ)
        → (proc_at (put k i (record (proc_at k i) { priority = prio })) j).pid ≡ (proc_at k j).pid
    put_same k i prio lt j = elim (ℕ_discrete i j) [
      | yes e ↦ rw (sym e) (ap (λ (p : Proc). p.pid) (proc_at-put_self k i _ lt))
      | no ne ↦ ap (λ (p : Proc). p.pid) (proc_at-put_ne k i j _ ne)
    ]

abbrev with_claim : Kernel → ℕ → Kernel
with_claim k i = record (put k i (claimed k.nextpid (proc_at k i))) { nextpid = add_w k.nextpid 1 }

abbrev with_priority : Kernel → ℕ → Kernel
with_priority k i = (setpriority k.nextpid 0 (with_claim k i)).0

abbrev with_stack : Kernel → ℕ → Kernel
with_stack k i = put (with_priority k i) i (record (proc_at (with_priority k i) i) {
  has_stack = true;
  master = none;
  tid = 0;
  empty_mem = [];
})

with_stack-pid :
    (k : Kernel) (i : ℕ)
    → i < length k.procs
    → ((proc_at (with_stack k i) i).pid ≡ k.nextpid)
      × ((j : ℕ) → i ≢ j → (proc_at (with_stack k i) j).pid ≡ (proc_at k j).pid)
      × (length (with_stack k i).procs ≡ length k.procs)
      × ((with_stack k i).nextpid ≡ add_w k.nextpid 1)
with_stack-pid k i lt =
    let (pids, len, next) = setpriority-pid k.nextpid 0 (with_claim k i) in
    let len_k : length (with_priority k i).procs ≡ length k.procs = len ∙ length-put k i _ in
    (
      ap (λ (p : Proc). p.pid) (proc_at-put_self (with_priority k i) i _ (rw len_k lt))
          ∙ (pids i ∙ ap (λ (p : Proc). p.pid) (proc_at-put_self k i _ lt)),
      λ j ne.
          ap (λ (p : Proc). p.pid) (proc_at-put_ne (with_priority k i) i j _ ne)
          ∙ (pids j ∙ ap (λ (p : Proc). p.pid) (proc_at-put_ne k i j _ ne)),
      length-put (with_priority k i) i _ ∙ len_k,
      next,
    )

allocproc-eq :
    (k : Kernel) (m : ℕ)
    → find_index is_unused k.procs ≡ some m
    → allocproc true k ≡ (with_stack k m, some m)
unfolding allocproc
allocproc-eq k m e = rw (e, allocproc) refl

allocproc-none :
    (k : Kernel) (stack : Bool)
    → find_index is_unused k.procs ≡ none
    → allocproc stack k ≡ (k, none)
unfolding allocproc
allocproc-none k stack e = rw (e, allocproc) refl

pair_of :
    {x t : Kernel} {m i : ℕ}
    → ◌≡◌ {A = Kernel × Option ℕ} (x, some m) (t, some i)
    → (x ≡ t) × (m ≡ i)
pair_of e = ground arith

-- What allocproc returns: the index of an unused entry, which then has the next pid, as the only one that
-- has another pid than before.
pub allocproc-pid :
    (k t : Kernel) (i : ℕ)
    → allocproc true k ≡ (t, some i)
    → (i < length k.procs)
      × (is_unused (proc_at k i) ≡ true)
      × ((proc_at t i).pid ≡ k.nextpid)
      × ((j : ℕ) → i ≢ j → (proc_at t j).pid ≡ (proc_at k j).pid)
      × (length t.procs ≡ length k.procs)
      × (t.nextpid ≡ add_w k.nextpid 1)
allocproc-pid k t i h = elim (Option-cases (find_index is_unused k.procs)) [
  | inl e ↦ absurd (let f = sym (allocproc-none k true e) ∙ h in ground arith)
  | inr (m, e) ↦
      let (same_t, same_i) = pair_of (sym (allocproc-eq k m e) ∙ h) in
      let first = find_index_sound is_unused no_proc k.procs m e in
      let facts = with_stack-pid k m first.0 in
      rw (sym same_t, sym same_i) (first.0, first.1, facts.0, facts.1, facts.2, facts.3)
]

abbrev with_child : Kernel → ℕ → ℕ → Kernel
with_child t i me =
    put t i (record (proc_at t i) { sz = (proc_at t me).sz; parent = some me; state = runnable })

fork-eq :
    (me : ℕ) (k t : Kernel) (i : ℕ)
    → allocproc true k ≡ (t, some i)
    → fork true true me k ≡ (with_child t i me, some (proc_at t i).pid)
unfolding fork
fork-eq me k t i e = ap (forked true me) e

fork-none : (me : ℕ) (k : Kernel) → allocproc true k ≡ (k, none) → fork true true me k ≡ (k, none)
unfolding fork
fork-none me k e = ap (forked true me) e

child-IsFresh :
    (me : ℕ) (k : Kernel) (m : ℕ)
    → IsFresh k
    → k.nextpid + 1 < 2 ^ 31
    → m < length k.procs
    → IsFresh (with_child (with_stack k m) m me)
child-IsFresh me k m fresh small lt j =
    let (pid, others, len, next) = with_stack-pid k m lt in
    let room : (with_stack k m).nextpid ≡ k.nextpid + 1 = next ∙ (unfold add_w in omega arith) in
    elim (ℕ_discrete m j) [
      | yes e ↦
          let here =
            ap (λ (p : Proc). p.pid)
              (proc_at-put_self (with_stack k m) m
                (record (proc_at (with_stack k m) m) {
                  sz = (proc_at (with_stack k m) me).sz;
                  parent = some me;
                  state = runnable;
                })
                (rw len lt))
            ∙ pid in
          rw (sym e) (omega (arith, here, room))
      | no ne ↦
          let there =
            ap (λ (p : Proc). p.pid)
              (proc_at-put_ne (with_stack k m) m j
                (record (proc_at (with_stack k m) m) {
                  sz = (proc_at (with_stack k m) me).sz;
                  parent = some me;
                  state = runnable;
                })
                ne)
            ∙ others j ne in
          omega (arith, there, room, fresh j)
    ]

-- From a table in which every pid is below the next one, with the next one below 2^31 - 1 and with
-- memory for the stack and the copy, fork either gives the child, which is runnable and has the
-- caller as parent, a pid that no process has, and keeps every pid below the next one; or no entry
-- is unused, and fork fails and changes nothing.
pub fork-IsFresh :
    (me : ℕ) (k : Kernel)
    → IsFresh k
    → k.nextpid + 1 < 2 ^ 31
    → ((i : ℕ) × (t : Kernel) × (fork true true me k ≡ (t, some k.nextpid))
        × ((proc_at t i).pid ≡ k.nextpid)
        × ((proc_at t i).state ≡ runnable)
        × ((proc_at t i).parent ≡ some me)
        × ((j : ℕ) → (proc_at k j).pid ≢ k.nextpid)
        × IsFresh t)
      ⊎ (((j : ℕ) → j < length k.procs → is_unused (proc_at k j) ≡ false)
          × (fork true true me k ≡ (k, none)))
fork-IsFresh me k fresh small = elim (Option-cases (find_index is_unused k.procs)) [
  | inl e ↦
      inr
        (find_index_complete is_unused no_proc k.procs e, fork-none me k (allocproc-none k true e))
  | inr (m, e) ↦
      let first = find_index_sound is_unused no_proc k.procs m e in
      let (pid, others, len, next) = with_stack-pid k m first.0 in
      let here =
        proc_at-put_self (with_stack k m) m
          (record (proc_at (with_stack k m) m) {
            sz = (proc_at (with_stack k m) me).sz;
            parent = some me;
            state = runnable;
          })
          (rw len first.0) in
      inl (
        m,
        with_child (with_stack k m) m me,
        fork-eq me k (with_stack k m) m (allocproc-eq k m e)
            ∙ ap (λ (n : ℕ). (with_child (with_stack k m) m me, some n)) pid,
        ap (λ (p : Proc). p.pid) here ∙ pid,
        ap (λ (p : Proc). p.state) here,
        ap (λ (p : Proc). p.parent) here,
        λ j e. absurd (omega (arith, fresh j)),
        child-IsFresh me k m fresh small first.0,
      )
]
