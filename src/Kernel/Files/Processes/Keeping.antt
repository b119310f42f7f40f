-- ===== src/Kernel/Files/Processes/Keeping.antt =====
-- The reference counts under all calls on descriptors: file.c, sysfile.c, pipe.c and proc.c together.
use computer_science_project.Prelude.{
  ℕ, ◌-◌, ◌<◌, ◌≡◌, ◌≢◌, refl, ◌∙◌, ◌++◌, ==-of_ne, inl, inr, Bool, true, false, some, Option, List,
  [], ◌∷◌, set, length, arith, Bool-cases, Option-cases, All, All-set,
}
use computer_science_project.Prelude.Search.{find_index, find_index_sound}
use computer_science_project.Kernel.Files.Calls.{Open}
use computer_science_project.Kernel.Files.Counts.{
  count, IsCounted, sys_dup-IsCounted, sys_close-IsCounted,
}
use computer_science_project.Kernel.Files.Pipes.{sys_pipe-IsCounted}
use computer_science_project.Kernel.Files.Processes.{
  Life, unused, running, zombie, Slot, no_slot, System, is_running, is_unused, slot_unused, slot_at,
  opened, put_back, fork_files, exit_files, reap, reaped, SysCall, call_dup, call_close, call_pipe,
  call_fork, call_exit, call_wait, called, run_calls,
}
use computer_science_project.Kernel.Files.Processes.Loops.{dup_all-Refs, close_all-Refs}
use computer_science_project.Kernel.Files.Processes.Slots.{
  total, total-set, count-total, IsSlot, IsSystem, in_slots, slot-IsSlot, unused-stopped,
  running-used, IsClosed-count,
}

module _ (s : System) (ok : IsSystem s) (me : ℕ)
    (runs : is_running (slot_at s me).life ≡ true) where
  me_in : me < length s.slots
  me_in = in_slots s.slots me (running-used (slot_at s me).life runs)

  me-IsSlot : IsSlot (slot_at s me)
  me-IsSlot = slot-IsSlot s.slots me ok.slots me_in

  -- the references of the other processes
  abbrev others : ℕ → ℕ
  others g = total g s.slots - count g (slot_at s me).ofile

  opened-IsCounted : IsCounted others (opened s me)
  opened-IsCounted = record {
    refs = λ g. omega (arith, ok.refs g, count-total s.slots me g);
    size = me-IsSlot.0;
  }

  put_back-IsSystem : (o : Open) → IsCounted others o → IsSystem (put_back s me o)
  put_back-IsSystem o counted =
      let v = record (slot_at s me) { ofile = o.ofile } in
      record {
        refs = λ g.
            omega (arith, counted.refs g, count-total s.slots me g, total-set s.slots me v g me_in);
        slots =
            All-set IsSlot s.slots me v ok.slots (counted.size, λ stopped. absurd (ground arith));
      }

  fork-IsSystem :
      (copied : Bool) → (after : System) × (fork_files copied me s ≡ some after) × IsSystem after
  unfolding fork_files
  fork-IsSystem copied = elim (Option-cases (find_index slot_unused s.slots)) [
    | inl full ↦ (s, rw (full, fork_files) refl, ok)
    | inr (child, at) ↦ elim (Bool-cases copied) [
      | inr failed ↦ (s, rw (at, fork_files, failed) refl, ok)
      | inl fine ↦
          let (lt, free, before) = find_index_sound slot_unused no_slot s.slots child at in
          let (size, shut) = slot-IsSlot s.slots child ok.slots lt in
          let none_open = shut (unused-stopped (slot_at s child).life free) in
          let (files, duped, refs) =
            dup_all-Refs (slot_at s me).ofile (slot_at s child).ofile s.files (λ g. total g s.slots)
              (omega (arith, me-IsSlot.0, size)) none_open ok.refs
              (λ g. count-total s.slots me g) in
          let born : Slot = record { life = running; ofile = (slot_at s me).ofile } in
          (
            record s { files = files; slots = set s.slots child born },
            rw (at, fork_files, fine, duped) refl,
            record {
              refs = λ g. omega (
                arith,
                refs g,
                total-set s.slots child born g lt,
                IsClosed-count (slot_at s child).ofile g none_open,
              );
              slots =
                  All-set IsSlot s.slots child born ok.slots
                    (me-IsSlot.0, λ stopped. absurd (ground arith));
            },
          )
    ]
  ]

  exit-IsSystem :
      (initproc : ℕ)
      → me ≢ initproc
      → (after : System) × (exit_files initproc me s ≡ some after) × IsSystem after
  unfolding exit_files
  exit-IsSystem initproc ne =
      let (left, c, files, done, counts, none_open, len) =
        close_all-Refs (slot_at s me).ofile s.files others opened-IsCounted.refs in
      let dead : Slot = record { life = zombie; ofile = left } in
      (
        record { files = files; slots = set s.slots me dead; closed = s.closed ++ c },
        rw (==-of_ne me initproc ne, exit_files, done) refl,
        record {
          refs = λ g. omega (
            arith,
            counts g,
            count-total s.slots me g,
            total-set s.slots me dead g me_in,
            IsClosed-count left g none_open,
          );
          slots = All-set IsSlot s.slots me dead ok.slots (len ∙ me-IsSlot.0, λ stopped. none_open);
        },
      )

reaped-IsSystem :
    (s : System) (child : ℕ) (l : Life)
    → IsSystem s
    → (slot_at s child).life ≡ l
    → IsSystem (reaped l child s)
reaped-IsSystem s child unused ok e = ok
reaped-IsSystem s child running ok e = ok
reaped-IsSystem s child zombie ok e =
    let used : is_unused (slot_at s child).life ≡ false = rw e refl in
    let stopped : is_running (slot_at s child).life ≡ false = rw e refl in
    let lt = in_slots s.slots child used in
    let v = record (slot_at s child) { life = unused } in
    let (size, shut) = slot-IsSlot s.slots child ok.slots lt in
    record {
      refs = λ g. omega (arith, ok.refs g, total-set s.slots child v g lt);
      slots = All-set IsSlot s.slots child v ok.slots (size, λ h. shut stopped);
    }

-- A call of a running process, other than exit by initproc.
abbrev pub MayCall : ℕ → ℕ × SysCall → Type 0
MayCall initproc (me, call_exit) = me ≢ initproc
MayCall initproc (me, _) = Unit

abbrev Keeps : System → Option System → Type 0
Keeps s o = (after : System) × (o ≡ some after) × IsSystem after

called-IsSystem :
    (initproc me : ℕ) (c : SysCall) (s : System)
    → IsSystem s
    → is_running (slot_at s me).life ≡ true
    → MayCall initproc (me, c)
    → Keeps s (called initproc me c s)
unfolding called reap
called-IsSystem initproc me (call_dup fd) s ok runs may =
    let (r, o, done, counted) =
      sys_dup-IsCounted (others s ok me runs) fd (opened s me) (opened-IsCounted s ok me runs) in
    (put_back s me o, rw done refl, put_back-IsSystem s ok me runs o counted)
called-IsSystem initproc me (call_close fd) s ok runs may =
    let (r, o, done, counted) =
      sys_close-IsCounted (others s ok me runs) fd (opened s me) (opened-IsCounted s ok me runs) in
    (put_back s me o, rw done refl, put_back-IsSystem s ok me runs o counted)
called-IsSystem initproc me (call_pipe page) s ok runs may =
    let (r, o, done, counted) =
      sys_pipe-IsCounted (others s ok me runs) page (opened s me) (opened-IsCounted s ok me runs) in
    (put_back s me o, rw done refl, put_back-IsSystem s ok me runs o counted)
called-IsSystem initproc me (call_fork copied) s ok runs may = fork-IsSystem s ok me runs copied
called-IsSystem initproc me call_exit s ok runs may = exit-IsSystem s ok me runs initproc may
called-IsSystem initproc me (call_wait child) s ok runs may =
    (reap child s, refl, reaped-IsSystem s child (slot_at s child).life ok refl)

-- From a state in which every file has as many references as descriptors of all processes are open
-- on it, and processes that do not run have none, no sequence of dup, close, pipe, fork, exit and
-- wait by running processes panics, if initproc does not exit, and the state after it is such a
-- state.
pub run_calls-IsSystem :
    (initproc : ℕ) (calls : List (ℕ × SysCall)) (s : System)
    → IsSystem s
    → All (MayCall initproc) calls
    → (after : System) × (run_calls initproc calls s ≡ some after) × IsSystem after
unfolding run_calls
run_calls-IsSystem initproc [] s ok may = (s, refl, ok)
run_calls-IsSystem initproc ((me, c) ∷ calls) s ok may =
    elim (Bool-cases (is_running (slot_at s me).life)) [
      | inl t ↦
          let (s1, done, ok1) = called-IsSystem initproc me c s ok t may.0 in
          let (after, run, ok2) = run_calls-IsSystem initproc calls s1 ok1 may.1 in
          (after, rw (t, run_calls, done) run, ok2)
      | inr f ↦
          let (after, run, ok2) = run_calls-IsSystem initproc calls s ok may.1 in
          (after, rw (f, run_calls) run, ok2)
    ]
