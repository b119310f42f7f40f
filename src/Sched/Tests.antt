-- ===== src/Sched/Tests.antt =====
-- The process table and the schedulers at concrete tables.
use computer_science_project.Prelude.Search.{find_index, IsFirstIndex}
use computer_science_project.Prelude.{
  ℕ, zero, suc, ◌<◌, ◌≡◌, ◌≢◌, ◌⊎◌, refl, true, false, none, some, List, [], ◌∷◌, length, get_or,
  replicate, arith, All,
}
use computer_science_project.Sched.{
  Proc, no_proc, Kernel, running, runnable, sleeping, zombie, proc_at, is_unused, is_runnable,
}
use computer_science_project.Sched.Process.{fork, exit_end, reaped, wait}
use computer_science_project.Sched.Thread.{
  thread_base, thread_join, joined, is_dead_thread, with_cleaned,
}
use computer_science_project.Sched.Mlfq.{charge, choose}
use computer_science_project.Sched.Queue.{Ring}
use computer_science_project.Sched.Quantum.{IsQueued, charge-IsQueued}
use computer_science_project.Sched.Choice.{IsPlain, IsBest, IsEntry, choose_lem}
use computer_science_project.Sched.Rounds.{IsRing}
use computer_science_project.Sched.Birth.{IsFresh, fork-IsFresh}
use computer_science_project.Sched.Burial.{exit_end-wait}
use computer_science_project.Sched.Joining.{HasMasters, thread_join_lem}

-- init, a shell and a child of the shell, with an unused entry
abbrev init_proc : Proc
init_proc = record no_proc { state = sleeping; pid = 1; chan = 1 }

abbrev shell : Proc
shell = record no_proc { state = sleeping; pid = 4; chan = 2; parent = some 0; level = 1 }

abbrev child : Proc
child = record no_proc { state = runnable; pid = 5; parent = some 1; level = 2 }

abbrev table : List Proc
table = init_proc ∷ shell ∷ child ∷ no_proc ∷ []

abbrev kernel : Kernel
kernel = record {
  procs = table;
  nextpid = 6;
  nexttid = 1;
  current = some 2;
  initproc = 0;
  null_pid = 0;
}

charge-IsQueued_example : IsQueued 3 (charge 7 3 child)
charge-IsQueued_example = charge-IsQueued 7 3 child (omega arith) (omega arith) (omega arith)

init-IsPlain : IsPlain init_proc
init-IsPlain = record {
  small_level = omega arith;
  small_priority = omega arith;
  init_rests = λ r. absurd (ground arith);
}

shell-IsPlain : IsPlain shell
shell-IsPlain = record {
  small_level = omega arith;
  small_priority = omega arith;
  init_rests = λ r. absurd (ground arith);
}

child-IsPlain : IsPlain child
child-IsPlain = record {
  small_level = omega arith;
  small_priority = omega arith;
  init_rests = λ r. omega arith;
}

unused-IsPlain : IsPlain no_proc
unused-IsPlain = record {
  small_level = omega arith;
  small_priority = omega arith;
  init_rests = λ r. absurd (ground arith);
}

plain : All IsPlain table
plain = (init-IsPlain, (shell-IsPlain, (child-IsPlain, (unused-IsPlain, tt))))

choose_lem_example :
    ((choose 0 table none ≡ none)
      × ((m : ℕ) → m < length table → is_runnable (get_or table m no_proc) ≡ false))
    ⊎ ((k : ℕ) × (u : Proc) × (choose 0 table none ≡ some (k, u))
        × (is_runnable u ≡ true)
        × IsBest u table
        × IsEntry 0 table k u)
choose_lem_example = choose_lem 0 table plain

abbrev ring_at : ℕ → ℕ → Ring
ring_at front rear = record { arr = replicate 81 0; front = front; rear = rear }

ring_at-IsRing : (front rear : ℕ) → front < 80 → rear < 80 → IsRing (ring_at front rear)
ring_at-IsRing front rear f r = record { front_inside = f; rear_inside = r; size = refl }

abbrev even_child : Proc
even_child = record child { pid = 6 }

kernel-IsFresh : IsFresh kernel
kernel-IsFresh zero = omega arith
kernel-IsFresh (suc zero) = omega arith
kernel-IsFresh (suc (suc zero)) = omega arith
kernel-IsFresh (suc (suc (suc zero))) = omega arith
kernel-IsFresh (suc (suc (suc (suc j)))) = omega arith

fork-IsFresh_example :
    ((i : ℕ) × (t : Kernel) × (fork true true 2 kernel ≡ (t, some 6))
      × ((proc_at t i).pid ≡ 6)
      × ((proc_at t i).state ≡ runnable)
      × ((proc_at t i).parent ≡ some 2)
      × ((j : ℕ) → (proc_at kernel j).pid ≢ 6)
      × IsFresh t)
    ⊎ (((j : ℕ) → j < length table → is_unused (proc_at kernel j) ≡ false)
        × (fork true true 2 kernel ≡ (kernel, none)))
fork-IsFresh_example = fork-IsFresh 2 kernel kernel-IsFresh (omega arith)

exit_end-wait_example : (pid : ℕ) × (t : Kernel) × (wait 1 (exit_end 2 kernel) ≡ reaped pid t)
exit_end-wait_example = exit_end-wait 2 1 kernel (omega arith) refl refl (omega arith)

-- a master with a zombie thread
abbrev thread : Proc
thread = record no_proc {
  state = zombie;
  pid = 4;
  tid = 3;
  master = some 0;
  tmp_retval = 42;
  vir_add = 8192;
}

abbrev master : Proc
master = record no_proc { state = running; pid = 4; sz = 16384 }

abbrev threads : Kernel
threads = record kernel { procs = master ∷ thread ∷ [] }

threads-HasMasters : HasMasters threads
threads-HasMasters zero m e = absurd (ground arith)
threads-HasMasters (suc zero) m e = (ground arith, λ q. absurd (ground arith))
threads-HasMasters (suc (suc i)) m e = absurd (ground arith)

joins : thread_join 3 0 threads ≡ some (joined 42 (with_cleaned 1 0 threads))
unfolding thread_join find_index
joins = refl

thread_join_lem_example :
    (i : ℕ) × (m : ℕ) × (IsFirstIndex (is_dead_thread 3) (master ∷ thread ∷ []) no_proc i)
    × ((proc_at threads i).master ≡ some m)
    × (◌≡◌ {A = ℕ} 42 (proc_at threads i).tmp_retval)
    × (is_unused (proc_at (with_cleaned 1 0 threads) i) ≡ true)
    × (thread_base (proc_at (with_cleaned 1 0 threads) m) ≡ (proc_at threads i).vir_add)
thread_join_lem_example =
    thread_join_lem 3 0 42 threads (with_cleaned 1 0 threads) threads-HasMasters joins
