-- ===== src/Sched/Table.antt =====
-- The process table of proc.c as an array: what a write leaves of the other entries.
use computer_science_project.Prelude.{
  ℕ, zero, suc, ◌<◌, ◌≡◌, ◌≢◌, refl, List, [], ◌∷◌, length, get_or, map, get_or-set_self,
  get_or-set_ne, length-set, length-map,
}
use computer_science_project.Sched.{Proc, no_proc, Kernel, proc_at, put, woken, wakeup1}

pub proc_at-put_self :
    (k : Kernel) (i : ℕ) (p : Proc) → i < length k.procs → proc_at (put k i p) i ≡ p
proc_at-put_self k i p h = get_or-set_self k.procs i p no_proc h

pub proc_at-put_ne : (k : Kernel) (i j : ℕ) (p : Proc) → i ≢ j → proc_at (put k i p) j ≡ proc_at k j
proc_at-put_ne k i j p h = get_or-set_ne k.procs i j p no_proc h

pub length-put : (k : Kernel) (i : ℕ) (p : Proc) → length (put k i p).procs ≡ length k.procs
length-put k i p = length-set k.procs i p

get_or-map :
    (f : Proc → Proc) (procs : List Proc) (i : ℕ)
    → f no_proc ≡ no_proc
    → get_or (map f procs) i no_proc ≡ f (get_or procs i no_proc)
get_or-map f [] i e = sym_of e
  where
    sym_of : f no_proc ≡ no_proc → no_proc ≡ f no_proc
    sym_of e = cc
get_or-map f (p ∷ procs) zero e = refl
get_or-map f (p ∷ procs) (suc i) e = get_or-map f procs i e

-- wakeup1, entry by entry
pub get_or-wakeup1 :
    (chan : ℕ) (procs : List Proc) (i : ℕ)
    → get_or (wakeup1 chan procs) i no_proc ≡ woken chan (get_or procs i no_proc)
unfolding wakeup1
get_or-wakeup1 chan procs i = get_or-map (woken chan) procs i refl

pub length-wakeup1 : (chan : ℕ) (procs : List Proc) → length (wakeup1 chan procs) ≡ length procs
unfolding wakeup1
length-wakeup1 chan procs = length-map (woken chan) procs
