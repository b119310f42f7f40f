-- ===== src/Sched/Process.antt =====
-- allocproc, fork, exit, wait, kill, sleep, yield, setpriority and growproc of proc.c. A function that
-- gives up the processor is modelled up to its call of sched.
use computer_science_project.Prelude.Search.{find_index}
use computer_science_project.Prelude.Words.{add_w, slt}
use computer_science_project.Prelude.{
  ℕ, zero, suc, ◌+◌, Bool, true, false, ◌&&◌, ◌||◌, Option, none, some, List, [], ◌∷◌, ◌==◌,
  if◌then◌else◌, get_or, set,
}
use computer_science_project.Sched.{
  unused, embryo, sleeping, runnable, zombie, Proc, no_proc, Kernel, nproc, proc_at, put, is_unused,
  is_sleeping, is_zombie, points_to, chan_of, wakeup1,
}

abbrev pub parent_pid : Kernel → Proc → ℕ
parent_pid k p = elim p.parent [ none ↦ k.null_pid | some i ↦ (proc_at k i).pid ]

-- the test of setpriority: the pid, and that the caller is the parent
abbrev pub is_target : Kernel → ℕ → Proc → Bool
is_target k in_pid p = elim k.current [
  | none ↦ false
  | some me ↦ p.pid == in_pid && parent_pid k p == (proc_at k me).pid
]

-- what setpriority returns
pub data Priority : Type 0 where
  was_set not_found bad_priority : Priority

unfoldable pub setpriority : ℕ → ℕ → Kernel → Kernel × Priority
unfolding slt
setpriority in_pid new_priority k =
    if slt new_priority 0 || slt 10 new_priority
    then (k, bad_priority)
    else elim (find_index (is_target k in_pid) k.procs) [
      | none ↦ (k, not_found)
      | some i ↦ (put k i (record (proc_at k i) { priority = new_priority }), was_set)
    ]

-- the fields that allocproc sets before it calls setpriority
abbrev pub claimed : ℕ → Proc → Proc
claimed pid p = record p { state = embryo; pid = pid; last_out = false; ticks = 0; level = 0 }

-- allocproc; `stack` is whether kalloc has a page. It returns the index.
unfoldable pub allocproc : Bool → Kernel → Kernel × Option ℕ
unfolding setpriority
allocproc stack k = elim (find_index is_unused k.procs) [
  | none ↦ (k, none)
  | some i ↦
      let k1 = record (put k i (claimed k.nextpid (proc_at k i))) { nextpid = add_w k.nextpid 1 } in
      let k2 = (setpriority k.nextpid 0 k1).0 in
      if stack
      then (
        put k2 i
            (record (proc_at k2 i) { has_stack = true; master = none; tid = 0; empty_mem = [] }),
        some i,
      )
      else (put k2 i (record (proc_at k2 i) { has_stack = false; state = unused }), none)
]

-- fork after its call of allocproc, given what that did
abbrev pub forked : Bool → ℕ → Kernel × Option ℕ → Kernel × Option ℕ
forked copied me (k1, none) = (k1, none)
forked copied me (k1, some i) =
    if copied
    then (
      put k1 i
          (record (proc_at k1 i) { sz = (proc_at k1 me).sz; parent = some me; state = runnable }),
      some (proc_at k1 i).pid,
    )
    else (put k1 i (record (proc_at k1 i) { has_stack = false; state = unused }), none)

-- fork by the process `me`; `copied` is whether copyuvm has the pages. It returns the child's pid.
unfoldable pub fork : Bool → Bool → ℕ → Kernel → Kernel × Option ℕ
unfolding allocproc
fork stack copied me k = forked copied me (allocproc stack k)

-- growproc; `grown` is what allocuvm or deallocuvm returned, `none` for 0
unfoldable pub growproc : Option ℕ → ℕ → Kernel → Kernel × Option ℕ
growproc grown me k =
    let p : ℕ = elim (proc_at k me).master [ none ↦ me | some m ↦ m ] in
    elim grown [
      | none ↦ (k, none)
      | some sz ↦ (put k p (record (proc_at k p) { sz = sz }), some (proc_at k p).sz)
    ]

-- A zombie thread that its master cleans up.
abbrev pub cleaned : Proc → Proc
cleaned p = record p {
  has_stack = false;
  killed = false;
  state = unused;
  pid = 0;
  parent = none;
  master = none;
}

-- p->master->empty_mem.data[p->master->empty_mem.size++] = p->vir_add
abbrev pub give_back : ℕ → ℕ → List Proc → List Proc
give_back master vir_add procs = set procs master (record (get_or procs master no_proc) {
  empty_mem = vir_add ∷ (get_or procs master no_proc).empty_mem;
})

-- The body of exit's loop over the table, at the entry i: the table afterwards, and whether the entry is
-- a thread that still has to end.
unfoldable pub reap_entry : ℕ → ℕ → List Proc → List Proc × Bool
unfolding wakeup1
reap_entry me i procs =
    let p = get_or procs i no_proc in
    let given = give_back me p.vir_add (set procs i (record p { has_stack = false })) in
    if points_to p.master me
    then (if is_zombie p
        then (set given i (cleaned (get_or given i no_proc)), false)
        else (wakeup1 (i + 1) (set procs i (record p { killed = true })), true))
    else (procs, false)

-- n entries from i on
unfoldable pub reap_threads : ℕ → ℕ → ℕ → List Proc → List Proc × Bool
unfolding reap_entry
reap_threads zero me i procs = (procs, false)
reap_threads (suc n) me i procs =
    let step = reap_entry me i procs in
    let rest = reap_threads n me (i + 1) step.0 in (rest.0, step.1 || rest.1)

-- The loop that passes children to init, at the entry i.
abbrev pub adopt_entry : ℕ → ℕ → ℕ → List Proc → List Proc
adopt_entry me init i procs =
    let p = get_or procs i no_proc in
    let adopted = set procs i (record p { parent = some init }) in
    if points_to p.parent me
    then (if is_zombie p then wakeup1 (init + 1) adopted else adopted)
    else procs

unfoldable pub adopt : ℕ → ℕ → ℕ → ℕ → List Proc → List Proc
unfolding wakeup1
adopt zero me init i procs = procs
adopt (suc n) me init i procs = adopt n me init (i + 1) (adopt_entry me init i procs)

-- exit has to wait for threads, or the process is a zombie.
pub data Exit : Type 0 where
  waits : Kernel → Exit
  exited : Kernel → Exit

-- sleep(chan, …) by the process `me`
unfoldable pub sleep : ℕ → ℕ → Kernel → Kernel
sleep chan me k = put k me (record (proc_at k me) { chan = chan; state = sleeping })

-- the end of sleep, when the process runs again
unfoldable pub wake_end : ℕ → Kernel → Kernel
wake_end me k = put k me (record (proc_at k me) { chan = 0 })

-- the wakeups of exit: the parent's, or for a thread its master's, which is killed
unfoldable pub notify : ℕ → Kernel → Kernel
unfolding wakeup1
notify me k =
    let p = proc_at k me in
    if p.tid == 0 then record k { procs = wakeup1 (chan_of p.parent) k.procs } else elim p.master [
      | none ↦ k
      | some m ↦ record k {
        procs = wakeup1 (m + 1) (set k.procs m (record (proc_at k m) { killed = true }));
      }
    ]

unfoldable pub adopt_all : ℕ → Kernel → Kernel
unfolding adopt
adopt_all me k = record k { procs = adopt nproc me k.initproc 0 k.procs }

-- the end of exit, from the second acquire on
unfoldable pub exit_end : ℕ → Kernel → Kernel
unfolding notify adopt_all
exit_end me k =
    let k2 = adopt_all me (notify me k) in put k2 me (record (proc_at k2 me) { state = zombie })

-- exit of a process other than init, from a pass of its loop on
unfoldable pub exit : ℕ → Kernel → Exit
unfolding reap_threads sleep exit_end
exit me k =
    let pass = reap_threads nproc me 0 k.procs in
    let k1 = record k { procs = pass.0 } in
    if (proc_at k me).tid == 0
    then (if pass.1 then waits (sleep (me + 1) me k1) else exited (exit_end me k1))
    else exited (exit_end me k)

-- A pass of the loop of wait: a child's pid, no child to wait for, or it sleeps.
pub data Wait : Type 0 where
  reaped : ℕ → Kernel → Wait
  no_child : Wait
  asleep : Kernel → Wait

abbrev pub is_child : ℕ → Proc → Bool
is_child me p = points_to p.parent me

abbrev pub is_dead_child : ℕ → Proc → Bool
is_dead_child me p = is_child me p && is_zombie p

-- the fields that wait resets
abbrev pub freed : Proc → Proc
freed p = record p { has_stack = false; pid = 0; parent = none; killed = false; state = unused }

unfoldable pub wait : ℕ → Kernel → Wait
unfolding sleep
wait me k = elim (find_index (is_dead_child me) k.procs) [
  | some i ↦ reaped (proc_at k i).pid (put k i (freed (proc_at k i)))
  | none ↦ elim (find_index (is_child me) k.procs) [
    | none ↦ no_child
    | some _ ↦ if (proc_at k me).killed then no_child else asleep (sleep (me + 1) me k)
  ]
]

abbrev pub struck : Proc → Proc
struck p = record p { killed = true; state = if is_sleeping p then runnable else p.state }

-- kill: whether the pid was found
unfoldable pub kill : ℕ → Kernel → Kernel × Bool
kill pid k = elim (find_index (λ (p : Proc). p.pid == pid) k.procs) [
  | none ↦ (k, false)
  | some i ↦ (put k i (struck (proc_at k i)), true)
]

-- yield
unfoldable pub yield : ℕ → Kernel → Kernel
yield me k = put k me (record (proc_at k me) { state = runnable })
