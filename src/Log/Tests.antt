-- ===== src/Log/Tests.antt =====
-- The log at concrete disks.
use computer_science_project.Prelude.{
  ℕ, ◌≤◌, ◌≡◌, inr, refl, true, false, some, none, ◌<◌, ◌⊎◌, ◌==◌, if◌then◌else◌, [], ◌∷◌, length,
  arith, All,
}
use computer_science_project.Log.{
  Block, Log, max_op_blocks, Disk, started, begin_op, recover_from_log, recover_trace, commit,
  commit_trace, log_write,
}
use computer_science_project.Log.Redo.{IsHome, in_header}
use computer_science_project.Log.Writes.{RecoversTo, committed}
use computer_science_project.Log.Crash.{AllOrNone, recover-again, commit_trace-AllOrNone}
use computer_science_project.Log.Space.{
  Reaches, none_yet, then_step, begins, IsReserved, log_write_lem,
}

abbrev disk : Disk
disk = record { header = []; blocks = λ j. j ∷ [] }

-- a transaction on the blocks 40 and 41, of a log at 2
abbrev changed : ℕ → Block
changed j = 7 ∷ j ∷ []

homes : All (IsHome 2 30) (40 ∷ 41 ∷ [])
homes = (inr (omega arith), (inr (omega arith), tt))

commit_trace-AllOrNone_example :
    All (AllOrNone 2 30 (40 ∷ 41 ∷ []) changed disk) (commit_trace 2 (40 ∷ 41 ∷ []) changed disk)
    × RecoversTo 2 30 (committed (40 ∷ 41 ∷ []) changed disk) (commit 2 (40 ∷ 41 ∷ []) changed disk)
commit_trace-AllOrNone_example =
    commit_trace-AllOrNone 2 30 (40 ∷ 41 ∷ []) changed disk refl homes (omega arith)

abbrev crashed : Disk
crashed = record disk { header = 40 ∷ 41 ∷ [] }

recover-again_example :
    All (RecoversTo 2 30 (recover_from_log 2 crashed).blocks) (recover_trace 2 crashed)
    × ((recover_from_log 2 crashed).header ≡ [])
recover-again_example = recover-again 2 30 crashed homes (omega arith)

abbrev idle : Log
idle = record { start = 2; size = 30; outstanding = 0; committing = false; lh = [] }

abbrev busy : Log
busy = record idle { outstanding = 1 }

idle-IsReserved : IsReserved idle []
idle-IsReserved = record {
  counted = refl;
  allowed = tt;
  few = omega arith;
  room = omega arith;
  inside = refl;
  open_log = refl;
}

begins_busy : begin_op idle ≡ started busy
unfolding begin_op
begins_busy = refl

Reaches-busy : Reaches idle [] busy (max_op_blocks ∷ [])
Reaches-busy = then_step none_yet (begins [] begins_busy)

log_write_lem_example :
    ((length busy.lh ≡ 29) × (log_write 40 busy ≡ none))
    ⊎ ((u : Log) × (log_write 40 busy ≡ some u)
        × (length busy.lh < 29)
        × (length u.lh ≤ 29)
        × ((j : ℕ) → in_header j u.lh ≡ (if j == 40 then true else in_header j busy.lh)))
log_write_lem_example = log_write_lem idle busy [] [] 9 40 idle-IsReserved Reaches-busy
