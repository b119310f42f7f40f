-- ===== src/Sched/Mlfq.antt =====
-- The multilevel feedback queues: the choice of scheduler in proc.c under MLFQ_SCHED, and what trap.c
-- does at a clock tick.
use computer_science_project.Prelude.Words.{add_w, sub_w, slt}
use computer_science_project.Prelude.{
  ℕ, ◌+◌, ◌*◌, ◌%◌, ◌^◌, true, false, not, ◌&&◌, ◌||◌, Option, none, some, List, [], ◌∷◌, ◌==◌, leb,
  if◌then◌else◌,
}
use computer_science_project.Sched.{Proc, Kernel, proc_at, put, running, is_runnable}
use computer_science_project.Sched.Process.{yield}

-- The candidate `tmp` after the loop has looked at the process p, the i-th.
unfoldable pub better : ℕ → Proc → Option (ℕ × Proc) → Option (ℕ × Proc)
unfolding slt
better i p tmp = if not (is_runnable p) then tmp else if p.pid == 1 then some (i, p) else elim tmp [
  | none ↦ some (i, p)
  | some (j, t) ↦
      if p.last_out
      then some (j, t)
      else if p.level == t.level
      then (if slt t.priority p.priority then some (i, p) else some (j, t))
      else if slt p.level t.level
      then some (i, p)
      else some (j, t)
]

-- the loop, from the i-th entry on
unfoldable pub choose : ℕ → List Proc → Option (ℕ × Proc) → Option (ℕ × Proc)
unfolding better
choose i [] tmp = tmp
choose i (p ∷ procs) tmp = choose (i + 1) procs (better i p tmp)

-- The process that a round of the scheduler runs: the one before, if it was kept, or the one chosen.
unfoldable pub pick : Option ℕ → Kernel → Option ℕ
unfolding choose
pick (some prev) k = if is_runnable (proc_at k prev) then some prev else none
pick none k = elim (choose 0 k.procs none) [
  | none ↦ none
  | some (i, p) ↦ if is_runnable p then some i else none
]

-- the process starts to run
unfoldable pub dispatch : ℕ → Kernel → Kernel
dispatch i k = record (put k i (record (proc_at k i) { state = running })) { current = some i }

-- `prev` after the process i came back, with the level that it had before
unfoldable pub keep : ℕ → ℕ → Kernel → Option ℕ
keep i prev_lev k =
    let p = proc_at k i in
    if not (prev_lev == p.level) || (p.last_out || not (is_runnable p)) then none else some i

-- The priority boost: `ticks` is the global counter.
unfoldable pub boosted : ℕ → Proc → Proc
unfolding slt
boosted ticks p =
    if ticks % 100 == 0 && slt 0 p.pid
    then record p { level = 0; ticks = 0; last_out = false }
    else p

-- The end of a quantum: k is MLFQ_K. `ticks` is unsigned, and so is the comparison.
unfoldable pub demoted : ℕ → Proc → Proc
unfolding slt
demoted k p =
    if not p.last_out && leb ((4 * p.level + 2) % 2 ^ 32) p.ticks
    then (if slt p.level (sub_w k 1)
        then record p { level = p.level + 1; ticks = 0 }
        else record p { last_out = true })
    else p

-- the counts of the running process
unfoldable pub charge : ℕ → ℕ → Proc → Proc
unfolding boosted demoted
charge ticks k p = demoted k (boosted ticks (record p { ticks = add_w p.ticks 1 }))

-- a clock tick while `me` runs
unfoldable pub tick : ℕ → ℕ → ℕ → Kernel → Kernel
unfolding charge yield
tick ticks k me s = yield me (put s me (charge ticks k (proc_at s me)))
