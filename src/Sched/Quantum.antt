-- ===== src/Sched/Quantum.antt =====
-- The time quanta of the feedback queues: the clock tick of trap.c.
use computer_science_project.Prelude.Words.{add_w, sub_w, slt}
use computer_science_project.Prelude.{ℕ, ◌+◌, ◌*◌, ◌%◌, ◌^◌, ◌<◌, ◌≡◌, refl, false, arith}
use computer_science_project.Sched.{Proc}
use computer_science_project.Sched.Mlfq.{boosted, demoted, charge}

-- The process is in one of the k queues, and has not used up its quantum unless that is noted.
pub record IsQueued (k : ℕ) (p : Proc) : Type 0 where
  pub in_queue : p.level < k
  pub in_quantum : p.last_out ≡ false → p.ticks < 4 * p.level + 2

boosted-level : (ticks k : ℕ) (p : Proc) → 0 < k → p.level < k → (boosted ticks p).level < k
unfolding boosted
boosted-level ticks k p pos h = ground arith

demoted-level : (k : ℕ) (p : Proc) → k < 2 ^ 31 → p.level < k → (demoted k p).level < k
unfolding demoted slt sub_w
demoted-level k p small h = ground arith

demoted-quantum :
    (k : ℕ) (p : Proc)
    → (demoted k p).last_out ≡ false
    → (demoted k p).ticks < 4 * (demoted k p).level + 2
unfolding demoted
demoted-quantum k p h = ground arith

-- For k queues, k from 1 to 2^31 - 1, a clock tick leaves the running process in one of them, and
-- with less than 4 * level + 2 ticks used, unless it is marked as out of the last queue.
pub charge-IsQueued :
    (ticks k : ℕ) (p : Proc) → 0 < k → k < 2 ^ 31 → p.level < k → IsQueued k (charge ticks k p)
unfolding charge
charge-IsQueued ticks k p pos small h =
    let q = boosted ticks (record p { ticks = add_w p.ticks 1 }) in
    record {
      in_queue =
          demoted-level k q small
            (boosted-level ticks k (record p { ticks = add_w p.ticks 1 }) pos h);
      in_quantum = demoted-quantum k q;
    }

-- At every hundredth tick the running process goes back to the first queue, and its count starts anew.
pub charge-boost :
    (ticks k : ℕ) (p : Proc)
    → ticks % 100 ≡ 0
    → 0 < p.pid
    → p.pid < 2 ^ 31
    → ((charge ticks k p).level ≡ 0)
      × ((charge ticks k p).ticks ≡ 0)
      × ((charge ticks k p).last_out ≡ false)
unfolding charge
charge-boost ticks k p h pos small =
    let q = record p { ticks = add_w p.ticks 1 } in
    let reset : boosted ticks q ≡ record q { level = 0; ticks = 0; last_out = false } =
      unfold boosted slt in ground arith in
    rw (reset, demoted) (refl, refl, refl)
