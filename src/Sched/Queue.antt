-- ===== src/Sched/Queue.antt =====
-- The ring of waiting processes (`arr`, `front`, `rear`) of proc.c, and the pass of scheduler under
-- MULTILEVEL_SCHED.
use computer_science_project.Prelude.{
  ℕ, zero, suc, ◌+◌, ◌-◌, ◌%◌, Bool, true, false, not, ◌&&◌, ◌||◌, Option, none, some, List, [],
  ◌∷◌, ◌==◌, if◌then◌else◌, get_or, set,
}
use computer_science_project.Sched.{Proc, Kernel, proc_at, is_runnable}

-- the indices of the waiting processes
pub record Ring : Type 0 where
  pub arr : List ℕ
  pub front : ℕ
  pub rear : ℕ

abbrev pub ring_size : ℕ
ring_size = 80

-- the loop of in_qu, n rounds from i on
unfoldable pub in_from : ℕ → ℕ → ℕ → Kernel → Ring → Bool
in_from zero i pid k q = false
in_from (suc n) i pid k q =
    let rest = in_from n (i + 1) pid k q in
    if (proc_at k (get_or q.arr i 0)).pid == pid then true else rest

unfoldable pub in_qu : ℕ → Kernel → Ring → Bool
unfolding in_from
in_qu a k q = in_from (q.rear - q.front) q.front (proc_at k a).pid k q

unfoldable pub push : ℕ → Kernel → Ring → Ring
unfolding in_qu
push a k q =
    if not (in_qu a k q)
    then record { arr = set q.arr (q.rear % 80) a; front = q.front; rear = (q.rear + 1) % 80 }
    else q

-- The slot that is left is set to the null pointer, which no later read sees.
unfoldable pub pop : Ring → Ring
pop q = if q.front == q.rear then q else record q { front = (q.front + 1) % 80 }

unfoldable pub get : Ring → Option ℕ
get q = if q.front == q.rear then none else some (get_or q.arr q.front 0)

unfoldable pub emp : Ring → Bool
emp q = q.front == q.rear

-- even_exist
unfoldable pub even_exist : List Proc → Bool
even_exist [] = false
even_exist (p ∷ procs) =
    let rest = even_exist procs in (not (p.pid == 2) && (p.pid % 2 == 0 && is_runnable p)) || rest

-- What the loop does at the i-th process: run it, put it into the ring, or pass over it.
pub data Turn : Type 0 where
  run_now waits passed : Turn

unfoldable pub turn : Bool → Proc → Turn
turn even p =
    if not (is_runnable p)
    then passed
    else if p.pid == 1 || p.pid == 2
    then run_now
    else if even
    then (if p.pid % 2 == 0 then run_now else waits)
    else if p.pid % 2 == 1
    then waits
    else passed

-- The pass after the loop: the head of the ring runs, or leaves it.
pub data Head : Type 0 where
  run_head : ℕ → Head
  drop_head : Ring → Head
  no_head : Head

unfoldable pub head_turn : Bool → Kernel → Ring → Head
unfolding get pop emp
head_turn even k q = if even || emp q then no_head else elim (get q) [
  | none ↦ no_head
  | some i ↦ if is_runnable (proc_at k i) then run_head i else drop_head (pop q)
]
