-- ===== src/Sched/Waking.antt =====
-- sleep, wakeup1, kill and yield of proc.c.
use computer_science_project.Prelude.Search.{
  find_index, IsFirstIndex, find_index_sound, find_index_complete,
}
use computer_science_project.Prelude.{
  ℕ, ◌<◌, ◌≡◌, ◌≢◌, ◌⊎◌, inl, inr, refl, ap, ◌∙◌, Bool, true, false, ◌&&◌, ◌==◌, length, get_or,
  arith, Bool-cases, Option-cases, ==_refl,
}
use computer_science_project.Sched.{
  Proc, no_proc, Kernel, runnable, sleeping, proc_at, put, woken, wakeup1, is_sleeping,
}
use computer_science_project.Sched.Process.{sleep, kill, struck}
use computer_science_project.Sched.Table.{proc_at-put_self, proc_at-put_ne, get_or-wakeup1}

woken-rests :
    (chan : ℕ) (p : Proc) → (is_sleeping (woken chan p) && (woken chan p).chan == chan) ≡ false
woken-rests chan p = elim (Bool-cases (is_sleeping p && p.chan == chan)) [
  | inl t ↦ rw t refl
  | inr f ↦ rw f f
]

struck-awake : (p : Proc) → is_sleeping (struck p) ≡ false
struck-awake p = elim (Bool-cases (is_sleeping p)) [ inl t ↦ rw t refl | inr f ↦ rw f f ]

woken-sleeper :
    (chan : ℕ) (p : Proc)
    → (woken chan (record p { chan = chan; state = sleeping })).state ≡ runnable
woken-sleeper chan p = rw (==_refl chan) refl

-- After wakeup1 no process sleeps on the channel, a process that did not is unchanged, and a process
-- of the table that went to sleep on it just before is runnable.
pub wakeup1_lem :
    (chan me : ℕ) (k : Kernel)
    → me < length k.procs
    → ((i : ℕ)
        → (is_sleeping (get_or (wakeup1 chan k.procs) i no_proc)
            && (get_or (wakeup1 chan k.procs) i no_proc).chan == chan)
          ≡ false)
      × ((i : ℕ)
          → (is_sleeping (proc_at k i) && (proc_at k i).chan == chan) ≡ false
          → get_or (wakeup1 chan k.procs) i no_proc ≡ proc_at k i)
      × ((get_or (wakeup1 chan (sleep chan me k).procs) me no_proc).state ≡ runnable)
wakeup1_lem chan me k lt = (
  λ i. rw (get_or-wakeup1 chan k.procs i) (woken-rests chan (proc_at k i)),
  λ i f. get_or-wakeup1 chan k.procs i ∙ rw f refl,
  slept,
)
  where
    slept : (get_or (wakeup1 chan (sleep chan me k).procs) me no_proc).state ≡ runnable
    slept =
        let here : proc_at (sleep chan me k) me
            ≡ record (proc_at k me) { chan = chan; state = sleeping } =
          unfold sleep in proc_at-put_self k me _ lt in
        ap (λ (p : Proc). p.state)
          (get_or-wakeup1 chan (sleep chan me k).procs me ∙ ap (woken chan) here)
        ∙ woken-sleeper chan (proc_at k me)

-- kill marks the first process with the pid, which then does not sleep, and changes no other
-- process; for a pid that no process has it fails and changes nothing.
pub kill_lem :
    (pid : ℕ) (k : Kernel)
    → ((i : ℕ) × (IsFirstIndex (λ (p : Proc). p.pid == pid) k.procs no_proc i)
        × ((kill pid k).1 ≡ true)
        × ((proc_at (kill pid k).0 i).killed ≡ true)
        × (is_sleeping (proc_at (kill pid k).0 i) ≡ false)
        × ((j : ℕ) → i ≢ j → proc_at (kill pid k).0 j ≡ proc_at k j))
      ⊎ (((j : ℕ) → j < length k.procs → (proc_at k j).pid ≢ pid) × (kill pid k ≡ (k, false)))
unfolding kill
kill_lem pid k = elim (Option-cases (find_index (λ (p : Proc). p.pid == pid) k.procs)) [
  | inl e ↦ inr (
    λ j lt same.
        absurd
          (ground (arith, find_index_complete (λ (p : Proc). p.pid == pid) no_proc k.procs e j lt)),
    rw (e, kill) refl,
  )
  | inr (i, e) ↦
      let first = find_index_sound (λ (p : Proc). p.pid == pid) no_proc k.procs i e in
      let done : kill pid k ≡ (put k i (struck (proc_at k i)), true) = rw (e, kill) refl in
      let here : proc_at (kill pid k).0 i ≡ struck (proc_at k i) =
        ap (λ (r : Kernel × Bool). proc_at r.0 i) done ∙ proc_at-put_self k i _ first.0 in
      inl (
        i,
        first,
        ap (λ (r : Kernel × Bool). r.1) done,
        ap (λ (p : Proc). p.killed) here,
        ap is_sleeping here ∙ struck-awake (proc_at k i),
        λ j ne. ap (λ (r : Kernel × Bool). proc_at r.0 j) done ∙ proc_at-put_ne k i j _ ne,
      )
]
