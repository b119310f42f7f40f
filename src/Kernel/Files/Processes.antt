-- ===== src/Kernel/Files/Processes.antt =====
-- The descriptors of all processes: fork, exit and wait of proc.c with the calls of sysfile.c, in Operating
-- system/file system/xv6-public. A process table entry is its state and its descriptors here.
pub mod Loops
pub mod Slots
pub mod Keeping
use computer_science_project.Prelude.{
  ℕ, ◌+◌, Bool, true, false, Option, none, some, List, [], ◌∷◌, ◌++◌, ◌==◌, if◌then◌else◌, get_or,
  set,
}
use computer_science_project.Prelude.Search.{find_index}
use computer_science_project.Kernel.Files.{File, Fds, Closing}
use computer_science_project.Kernel.Files.Calls.{
  Open, sys_dup, sys_close, sys_pipe, dup_all, close_all,
}

pub data Life : Type 0 where
  unused running zombie : Life

pub record Slot : Type 0 where
  pub life : Life
  pub ofile : Fds

abbrev pub no_slot : Slot
no_slot = record { life = unused; ofile = [] }

pub record System : Type 0 where
  pub files : List File
  pub slots : List Slot
  pub closed : List Closing

abbrev pub is_running : Life → Bool
is_running running = true
is_running _ = false

abbrev pub is_unused : Life → Bool
is_unused unused = true
is_unused _ = false

abbrev pub slot_unused : Slot → Bool
slot_unused s = is_unused s.life

abbrev pub slot_at : System → ℕ → Slot
slot_at s i = get_or s.slots i no_slot

abbrev pub opened : System → ℕ → Open
opened s i = record { files = s.files; ofile = (slot_at s i).ofile; closed = s.closed }

-- What a call of process i has left.
abbrev pub put_back : System → ℕ → Open → System
put_back s i o = record {
  files = o.files;
  slots = set s.slots i (record (slot_at s i) { ofile = o.ofile });
  closed = o.closed;
}

abbrev pub after_call {ℓ} : {A : Type ℓ} → System → ℕ → Option (A × Open) → Option System
after_call s i none = none
after_call s i (some (r, o)) = some (put_back s i o)

-- fork; the flag is whether allocproc had a page and copyuvm succeeded.
unfoldable pub fork_files : Bool → ℕ → System → Option System
unfolding dup_all
fork_files copied me s = elim (find_index slot_unused s.slots) [
  | none ↦ some s
  | some child ↦
      let duped = dup_all (slot_at s me).ofile (slot_at s child).ofile s.files in
      if copied
      then (elim duped [
        | none ↦ none
        | some (ofile, files) ↦
            let born : Slot = record { life = running; ofile = ofile } in
            some (record s { files = files; slots = set s.slots child born })
      ])
      else some s
]

-- exit; initproc panics.
unfoldable pub exit_files : ℕ → ℕ → System → Option System
unfolding close_all
exit_files initproc me s =
    let left = close_all (slot_at s me).ofile s.files in
    if me == initproc then none else (elim left [
      | none ↦ none
      | some (ofile, c, files) ↦
          let dead : Slot = record { life = zombie; ofile = ofile } in
          some (record { files = files; slots = set s.slots me dead; closed = s.closed ++ c })
    ])

-- What wait does with an entry: it frees a zombie's.
abbrev pub reaped : Life → ℕ → System → System
reaped zombie child s = record s {
  slots = set s.slots child (record (slot_at s child) { life = unused });
}
reaped _ child s = s

unfoldable pub reap : ℕ → System → System
reap child s = reaped (slot_at s child).life child s

pub data SysCall : Type 0 where
  call_dup : ℕ → SysCall
  call_close : ℕ → SysCall
  call_pipe : Option ℕ → SysCall
  call_fork : Bool → SysCall
  call_exit : SysCall
  call_wait : ℕ → SysCall

-- A call by process `me`. Only a running process calls.
unfoldable pub called : ℕ → ℕ → SysCall → System → Option System
unfolding sys_dup sys_close sys_pipe fork_files exit_files reap
called initproc me (call_dup fd) s = after_call s me (sys_dup fd (opened s me))
called initproc me (call_close fd) s = after_call s me (sys_close fd (opened s me))
called initproc me (call_pipe page) s = after_call s me (sys_pipe page (opened s me))
called initproc me (call_fork copied) s = fork_files copied me s
called initproc me call_exit s = exit_files initproc me s
called initproc me (call_wait child) s = some (reap child s)

-- Calls one after the other, each by the process it names.
unfoldable pub run_calls : ℕ → List (ℕ × SysCall) → System → Option System
unfolding called
run_calls initproc [] s = some s
run_calls initproc ((me, c) ∷ calls) s =
    let this = if is_running (slot_at s me).life then called initproc me c s else some s in
    elim this [ none ↦ none | some after ↦ run_calls initproc calls after ]
