-- ===== src/Sched.antt =====
-- Processes, threads and the schedulers of the kernel: Operating system/thread,scheduler/xv6-public/
-- proc.h, proc.c and the clock tick of trap.c. A pointer to a process is its index in the table, `none`
-- is the null pointer; a channel is an address, 0 the null pointer and i + 1 that of the i-th process.
-- Address spaces, trap frames, open files and names are not modelled.
pub mod Process
pub mod Thread
pub mod Mlfq
pub mod Queue
pub mod Choice
pub mod Quantum
pub mod Rounds
pub mod Table
pub mod Waking
pub mod Birth
pub mod Burial
pub mod Joining
mod Tests
use computer_science_project.Prelude.{
  ℕ, zero, suc, ◌+◌, Bool, true, false, ◌&&◌, Option, none, some, List, [], ◌∷◌, map, ◌==◌,
  if◌then◌else◌, get_or, set,
}

-- enum procstate
pub data ProcState : Type 0 where
  unused embryo sleeping runnable running zombie : ProcState

-- struct proc, the fields that the functions here decide by
pub record Proc : Type 0 where
  pub sz : ℕ
  pub has_stack : Bool
  pub state : ProcState
  pub pid : ℕ
  pub parent : Option ℕ
  pub chan : ℕ
  pub killed : Bool
  pub ticks : ℕ
  pub level : ℕ
  pub priority : ℕ
  pub last_out : Bool
  pub tid : ℕ
  pub master : Option ℕ
  pub tmp_retval : ℕ
  pub vir_add : ℕ
  pub empty_mem : List ℕ

-- an entry of the table that no process has used
abbrev pub no_proc : Proc
no_proc = record {
  sz = 0;
  has_stack = false;
  state = unused;
  pid = 0;
  parent = none;
  chan = 0;
  killed = false;
  ticks = 0;
  level = 0;
  priority = 0;
  last_out = false;
  tid = 0;
  master = none;
  tmp_retval = 0;
  vir_add = 0;
  empty_mem = [];
}

-- The process table and the globals of proc.c; `current` is myproc(), and `null_pid` is what a read of
-- the pid through the null pointer gives.
pub record Kernel : Type 0 where
  pub procs : List Proc
  pub nextpid : ℕ
  pub nexttid : ℕ
  pub current : Option ℕ
  pub initproc : ℕ
  pub null_pid : ℕ

-- NPROC
abbrev pub nproc : ℕ
nproc = 64

abbrev pub proc_at : Kernel → ℕ → Proc
proc_at k i = get_or k.procs i no_proc

abbrev pub put : Kernel → ℕ → Proc → Kernel
put k i p = record k { procs = set k.procs i p }

abbrev pub is_unused : Proc → Bool
is_unused p = elim p.state [
  | unused ↦ true
  | embryo ↦ false
  | sleeping ↦ false
  | runnable ↦ false
  | running ↦ false
  | zombie ↦ false
]

abbrev pub is_sleeping : Proc → Bool
is_sleeping p = elim p.state [
  | unused ↦ false
  | embryo ↦ false
  | sleeping ↦ true
  | runnable ↦ false
  | running ↦ false
  | zombie ↦ false
]

abbrev pub is_runnable : Proc → Bool
is_runnable p = elim p.state [
  | unused ↦ false
  | embryo ↦ false
  | sleeping ↦ false
  | runnable ↦ true
  | running ↦ false
  | zombie ↦ false
]

abbrev pub is_zombie : Proc → Bool
is_zombie p = elim p.state [
  | unused ↦ false
  | embryo ↦ false
  | sleeping ↦ false
  | runnable ↦ false
  | running ↦ false
  | zombie ↦ true
]

-- p == i for a pointer p and the address of the i-th process
abbrev pub points_to : Option ℕ → ℕ → Bool
points_to none i = false
points_to (some j) i = j == i

-- the address of a process as a channel
abbrev pub chan_of : Option ℕ → ℕ
chan_of none = 0
chan_of (some i) = i + 1

abbrev pub woken : ℕ → Proc → Proc
woken chan p = if is_sleeping p && p.chan == chan then record p { state = runnable } else p

-- wakeup1, and wakeup around it
unfoldable pub wakeup1 : ℕ → List Proc → List Proc
wakeup1 chan procs = map (woken chan) procs
