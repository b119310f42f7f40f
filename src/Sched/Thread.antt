-- ===== src/Sched/Thread.antt =====
-- thread_create, thread_exit, thread_join, thread_kill and thread_wakeup of proc.c.
use computer_science_project.Prelude.Search.{find_index}
use computer_science_project.Prelude.Words.{add_w}
use computer_science_project.Prelude.{
  ℕ, ◌+◌, Bool, true, false, not, ◌&&◌, ◌||◌, Option, none, some, List, [], ◌∷◌, ◌==◌,
  if◌then◌else◌, get_or, set,
}
use computer_science_project.Sched.{
  sleeping, runnable, zombie, Proc, no_proc, Kernel, proc_at, put, is_sleeping, is_zombie, chan_of,
  wakeup1,
}
use computer_science_project.Sched.Process.{allocproc, sleep, cleaned, give_back, Wait, wait}

-- two pages
abbrev pub thread_pages : ℕ
thread_pages = 8192

-- the master of the threads of a process
abbrev pub master_of : Kernel → ℕ → ℕ
master_of k me = elim (proc_at k me).master [ none ↦ me | some m ↦ m ]

-- where a thread's pages start: the top of empty_mem, or the end of the master's memory
abbrev pub thread_base : Proc → ℕ
thread_base p = elim p.empty_mem [ [] ↦ p.sz | a ∷ rest ↦ a ]

abbrev pub without_base : Proc → Proc
without_base p = elim p.empty_mem [
  | [] ↦ record p { sz = add_w p.sz thread_pages }
  | a ∷ rest ↦ record p { empty_mem = rest }
]

-- thread_create after its call of allocproc: m is the master, `alloc` what allocuvm returns for the old
-- and the new size; the code does not look at a 0.
abbrev pub created : (ℕ → ℕ → ℕ) → ℕ → Kernel × Option ℕ → Kernel × Option ℕ
created alloc m (k1, none) = (k1, none)
created alloc m (k1, some i) =
    let k2 =
      record (put k1 i
        (record (proc_at k1 i) { tid = k1.nexttid; master = some m; pid = (proc_at k1 m).pid })) {
          nexttid = add_w k1.nexttid 1;
        } in
    let base = thread_base (proc_at k2 m) in
    let k3 = put k2 m (without_base (proc_at k2 m)) in
    (
      put k3 i (record (proc_at k3 i) {
        sz = alloc base (add_w base thread_pages);
        vir_add = base;
        state = runnable;
      }),
      some k1.nexttid,
    )

-- thread_create by `me`: whether the call succeeds, with the tid
unfoldable pub thread_create : Bool → (ℕ → ℕ → ℕ) → ℕ → Kernel → Kernel × Option ℕ
unfolding allocproc
thread_create stack alloc me k = created alloc (master_of k me) (allocproc stack k)

-- thread_exit, up to sched
unfoldable pub thread_exit : ℕ → ℕ → Kernel → Kernel
unfolding wakeup1
thread_exit ret_val me k =
    let k1 = put k me (record (proc_at k me) { tmp_retval = ret_val }) in
    let k2 = record k1 { procs = wakeup1 (chan_of (proc_at k1 me).master) k1.procs } in
    put k2 me (record (proc_at k2 me) { state = zombie })

-- A pass of the loop of thread_join: the thread's value, an error, or it sleeps.
pub data Join : Type 0 where
  joined : ℕ → Kernel → Join
  refused : Join
  joining : Kernel → Join

abbrev pub is_dead_thread : ℕ → Proc → Bool
is_dead_thread thread p = p.tid == thread && is_zombie p

abbrev pub without_stack : ℕ → Kernel → Proc
without_stack i k = record (proc_at k i) { has_stack = false }

-- the table after the thread's pages went back to its master m
abbrev pub given : ℕ → ℕ → Kernel → List Proc
given i m k = give_back m (proc_at k i).vir_add (set k.procs i (without_stack i k))

abbrev pub with_cleaned : ℕ → ℕ → Kernel → Kernel
with_cleaned i m k = record k {
  procs = set (given i m k) i (cleaned (get_or (given i m k) i no_proc));
}

abbrev pub cleaned_under : ℕ → Kernel → Option ℕ → Option Kernel
cleaned_under i k none = none
cleaned_under i k (some m) = some (with_cleaned i m k)

-- What is done with the thread at i. `none` is the read through a null master.
unfoldable pub clean_thread : ℕ → Kernel → Option Kernel
clean_thread i k = cleaned_under i k (proc_at k i).master

unfoldable pub thread_join : ℕ → ℕ → Kernel → Option Join
unfolding clean_thread sleep
thread_join thread me k = elim (proc_at k me).master [
  | some _ ↦ some refused
  | none ↦ elim (find_index (is_dead_thread thread) k.procs) [
    | some i ↦ elim (clean_thread i k) [
      | none ↦ none
      | some k' ↦ some (joined (proc_at k i).tmp_retval k')
    ]
    | none ↦ if (proc_at k me).killed then some refused else some (joining (sleep (me + 1) me k))
  ]
]

-- The body of the loop of thread_kill, for the entry i; `pp` is the process that is spared.
abbrev pub silenced : Proc → Proc
silenced p = record p { state = sleeping; killed = true; chan = 0 }

unfoldable pub silence : ℕ → ℕ → ℕ → List Proc → List Proc
silence pp pid i [] = []
silence pp pid i (p ∷ procs) =
    let rest = silence pp pid (i + 1) procs in
    (if i == pp then p else if pid == p.pid then silenced p else p) ∷ rest

unfoldable pub thread_kill : ℕ → ℕ → Kernel → Kernel
unfolding silence
thread_kill pp me k =
    if not (proc_at k me).killed
    then record k { procs = silence pp (proc_at k pp).pid 0 k.procs }
    else k

-- The body of the loop of thread_wakeup, for the entry i.
abbrev pub roused : ℕ → ℕ → ℕ → Proc → Proc
roused pp pid i p =
    if is_sleeping p && (p.pid == pid && not (i == pp))
    then record p { state = runnable; parent = elim p.parent [ none ↦ none | some _ ↦ some pp ] }
    else p

abbrev pub is_roused_child : ℕ → ℕ → ℕ → Proc → Bool
is_roused_child pp pid i p =
    (is_sleeping p && (p.pid == pid && not (i == pp)))
    && (elim p.parent [ none ↦ false | some _ ↦ true ])

unfoldable pub rouse : ℕ → ℕ → ℕ → List Proc → List Proc × Bool
rouse pp pid i [] = ([], false)
rouse pp pid i (p ∷ procs) =
    let rest = rouse pp pid (i + 1) procs in
    (roused pp pid i p ∷ rest.0, is_roused_child pp pid i p || rest.1)

-- thread_wakeup, with the first pass of the wait that it may call
unfoldable pub thread_wakeup : ℕ → ℕ → Kernel → Kernel × Option Wait
unfolding rouse wait
thread_wakeup pp me k =
    let woken = rouse pp (proc_at k pp).pid 0 k.procs in
    let k1 = record k { procs = woken.0 } in (k1, if woken.1 then some (wait me k1) else none)
