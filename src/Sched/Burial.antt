-- ===== src/Sched/Burial.antt =====
-- exit and wait of proc.c together.
use computer_science_project.Prelude.Search.{
  find_index, IsFirstIndex, find_index_sound, find_index_complete,
}
use computer_science_project.Prelude.{
  ℕ, zero, suc, ◌+◌, ◌<◌, ◌≡◌, ◌≢◌, ◌⊎◌, inl, inr, refl, ap, ◌∙◌, Bool, true, false, ◌&&◌, Option,
  some, List, ◌==◌, length, get_or, Bool-cases, Option-cases, ==_refl, ==-of_ne, get_or-set_ne,
  length-set,
}
use computer_science_project.Sched.{
  Proc, no_proc, Kernel, nproc, zombie, proc_at, put, is_zombie, is_sleeping, points_to, chan_of,
  woken, wakeup1,
}
use computer_science_project.Sched.Process.{
  adopt_entry, adopt, notify, adopt_all, exit_end, reaped, no_child, asleep, is_child,
  is_dead_child, freed, wait, sleep,
}
use computer_science_project.Sched.Table.{
  proc_at-put_self, length-put, get_or-wakeup1, length-wakeup1,
}

woken-parent : (chan : ℕ) (p : Proc) → (woken chan p).parent ≡ p.parent
woken-parent chan p = elim (Bool-cases (is_sleeping p && p.chan == chan)) [
  | inl t ↦ rw t refl
  | inr f ↦ rw f refl
]

wakeup1-parent :
    (chan : ℕ) (procs : List Proc) (j : ℕ)
    → (get_or (wakeup1 chan procs) j no_proc).parent ≡ (get_or procs j no_proc).parent
wakeup1-parent chan procs j =
    ap (λ (p : Proc). p.parent) (get_or-wakeup1 chan procs j)
    ∙ woken-parent chan (get_or procs j no_proc)

module _ (me init : ℕ) where
  -- The loop leaves the parent of a process that is not a child of the one that exits.
  adopt_entry-parent :
      (i j : ℕ) (procs : List Proc)
      → points_to (get_or procs j no_proc).parent me ≡ false
      → (get_or (adopt_entry me init i procs) j no_proc).parent ≡ (get_or procs j no_proc).parent
  adopt_entry-parent i j procs f =
      elim (Bool-cases (points_to (get_or procs i no_proc).parent me)) [
        | inr g ↦ rw g refl
        | inl t ↦
            let ne : i ≢ j = λ e. differ (rw e at t) f in
            let other =
              get_or-set_ne procs i j (record (get_or procs i no_proc) { parent = some init })
                no_proc ne in
            elim (Bool-cases (is_zombie (get_or procs i no_proc))) [
              | inl z ↦
                  rw (t, z) (wakeup1-parent (init + 1) _ j ∙ ap (λ (p : Proc). p.parent) other)
              | inr z ↦ rw (t, z) (ap (λ (p : Proc). p.parent) other)
            ]
      ]
    where
      differ : {b : Bool} → b ≡ true → b ≡ false → ⊥
      differ p q = cc

  length-adopt_entry :
      (i : ℕ) (procs : List Proc) → length (adopt_entry me init i procs) ≡ length procs
  length-adopt_entry i procs = elim (Bool-cases (points_to (get_or procs i no_proc).parent me)) [
    | inr g ↦ rw g refl
    | inl t ↦ elim (Bool-cases (is_zombie (get_or procs i no_proc))) [
      | inl z ↦ rw (t, z) (length-wakeup1 (init + 1) _ ∙ length-set procs i _)
      | inr z ↦ rw (t, z) (length-set procs i _)
    ]
  ]

  adopt-parent :
      (n i j : ℕ) (procs : List Proc)
      → points_to (get_or procs j no_proc).parent me ≡ false
      → (get_or (adopt n me init i procs) j no_proc).parent ≡ (get_or procs j no_proc).parent
  unfolding adopt
  adopt-parent zero i j procs f = refl
  adopt-parent (suc n) i j procs f =
      let once = adopt_entry-parent i j procs f in
      adopt-parent n (i + 1) j (adopt_entry me init i procs)
        (ap (λ (o : Option ℕ). points_to o me) once ∙ f)
      ∙ once

  length-adopt : (n i : ℕ) (procs : List Proc) → length (adopt n me init i procs) ≡ length procs
  unfolding adopt
  length-adopt zero i procs = refl
  length-adopt (suc n) i procs =
      length-adopt n (i + 1) (adopt_entry me init i procs) ∙ length-adopt_entry i procs

clash : {b : Bool} → b ≡ true → b ≡ false → ⊥
clash p q = cc

wait-found :
    (me : ℕ) (k : Kernel) (i : ℕ)
    → find_index (is_dead_child me) k.procs ≡ some i
    → wait me k ≡ reaped (proc_at k i).pid (put k i (freed (proc_at k i)))
unfolding wait
wait-found me k i e = rw (e, wait) refl

module _ (me p : ℕ) (k : Kernel) (lt : me < length k.procs) (mine : (proc_at k me).parent ≡ some p)
    (process : (proc_at k me).tid ≡ 0) (ne : p ≢ me) where
  notified : notify me k ≡ record k { procs = wakeup1 (chan_of (proc_at k me).parent) k.procs }
  unfolding notify
  notified = rw process refl

  notify-parent : (proc_at (notify me k) me).parent ≡ some p
  notify-parent =
      ap (λ (t : Kernel). (proc_at t me).parent) notified
      ∙ (wakeup1-parent (chan_of (proc_at k me).parent) k.procs me ∙ mine)

  length-notify : length (notify me k).procs ≡ length k.procs
  length-notify =
      ap (λ (t : Kernel). length t.procs) notified
      ∙ length-wakeup1 (chan_of (proc_at k me).parent) k.procs

  adopt_all-parent : (proc_at (adopt_all me (notify me k)) me).parent ≡ some p
  unfolding adopt_all
  adopt_all-parent =
      adopt-parent me (notify me k).initproc nproc 0 me (notify me k).procs
        (ap (λ (o : Option ℕ). points_to o me) notify-parent ∙ ==-of_ne p me ne)
      ∙ notify-parent

  length-adopt_all : length (adopt_all me (notify me k)).procs ≡ length k.procs
  unfolding adopt_all
  length-adopt_all =
      length-adopt me (notify me k).initproc nproc 0 (notify me k).procs ∙ length-notify

  exited :
      proc_at (exit_end me k) me
      ≡ record (proc_at (adopt_all me (notify me k)) me) { state = zombie }
  unfolding exit_end
  exited = proc_at-put_self (adopt_all me (notify me k)) me _ (rw length-adopt_all lt)

  exited-child : is_dead_child p (proc_at (exit_end me k) me) ≡ true
  exited-child = ap (is_dead_child p) exited ∙ rw adopt_all-parent (rw (==_refl p) refl)

  length-exit_end : length (exit_end me k).procs ≡ length k.procs
  unfolding exit_end
  length-exit_end = length-put (adopt_all me (notify me k)) me _ ∙ length-adopt_all

  -- After the exit of a process (not a thread) whose parent is another process, the next pass of the
  -- parent's wait takes a child: it does not sleep and does not return -1.
  pub exit_end-wait : (pid : ℕ) × (t : Kernel) × (wait p (exit_end me k) ≡ reaped pid t)
  exit_end-wait = elim (Option-cases (find_index (is_dead_child p) (exit_end me k).procs)) [
    | inl e ↦ absurd (
        clash exited-child (
          find_index_complete (is_dead_child p) no_proc (exit_end me k).procs e me
            (rw length-exit_end lt)))
    | inr (i, e) ↦ (_, _, wait-found p (exit_end me k) i e)
  ]

-- A pass of wait takes the first zombie among the children and frees its entry alone; or no child is
-- a zombie and it returns -1, having no child or being killed, or sleeps on the caller's channel,
-- not being killed.
pub wait_lem :
    (me : ℕ) (k : Kernel)
    → ((i : ℕ) × (IsFirstIndex (is_dead_child me) k.procs no_proc i)
        × (wait me k ≡ reaped (proc_at k i).pid (put k i (freed (proc_at k i)))))
      ⊎ (((j : ℕ) → j < length k.procs → is_dead_child me (proc_at k j) ≡ false)
          × (((wait me k ≡ no_child)
                × (((j : ℕ) → j < length k.procs → is_child me (proc_at k j) ≡ false)
                    ⊎ ((proc_at k me).killed ≡ true)))
              ⊎ ((wait me k ≡ asleep (sleep (me + 1) me k)) × ((proc_at k me).killed ≡ false))))
unfolding wait
wait_lem me k = elim (Option-cases (find_index (is_dead_child me) k.procs)) [
  | inr (i, e) ↦ inl (i, find_index_sound (is_dead_child me) no_proc k.procs i e, rw (e, wait) refl)
  | inl e ↦ inr (
    find_index_complete (is_dead_child me) no_proc k.procs e,
    elim (Option-cases (find_index (is_child me) k.procs)) [
      | inl f ↦
          inl (rw (e, f, wait) refl, inl (find_index_complete (is_child me) no_proc k.procs f))
      | inr (i, f) ↦ elim (Bool-cases (proc_at k me).killed) [
        | inl t ↦ inl (rw (e, f, t, wait) refl, inr t)
        | inr t ↦ inr (rw (e, f, t, wait) refl, t)
      ]
    ],
  )
]
