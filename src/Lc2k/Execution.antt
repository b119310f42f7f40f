-- ===== src/Lc2k/Execution.antt =====
-- What a round of the loop of simulator.c does to the machine.
use computer_science_project.Prelude.Words.{IsWord, slt, add_w-IsWord, nor_w-IsWord}
use computer_science_project.Prelude.{
  ℕ, zero, suc, ◌≡◌, refl, ◌∙◌, inl, inr, arith, Bool, if◌then◌else◌, All, All-get_or, All-set,
  length, length-set, set, ltb, ◌==◌, Bool-cases, on_if,
}
use computer_science_project.Lc2k.Simulator.{
  Fields, State, reg_at, Outcome, next, halt, fault, execute, step, cvt, num_memory_words, num_regs,
  load_into, store_reg, Run, run, advance, after_round,
}

-- Every register and every memory cell holds a word, and there are eight registers.
pub record IsMachine (s : State) : Type 0 where
  pub pc_word : IsWord s.pc
  pub mem_word : (a : ℕ) → IsWord (s.mem a)
  pub regs : length s.reg ≡ num_regs
  pub reg_word : All IsWord s.reg

-- What holds of the state that an outcome carries.
abbrev pub Later : (State → Type 0) → Outcome → Type 0
Later P (next t) = P t
Later P (halt t) = P t
Later P fault = Unit

reg-IsWord : (s : State) (r : ℕ) → IsMachine s → IsWord (reg_at s r)
reg-IsWord s r m = All-get_or IsWord s.reg r 0 m.reg_word (omega arith)

set_reg-IsMachine :
    (s : State) (r v : ℕ) → IsMachine s → IsWord v → IsMachine (record s { reg = set s.reg r v })
set_reg-IsMachine s r v m w = record {
  pc_word = m.pc_word;
  mem_word = m.mem_word;
  regs = length-set s.reg r v ∙ m.regs;
  reg_word = All-set IsWord s.reg r v m.reg_word w;
}

set_pc-IsMachine : (s : State) (v : ℕ) → IsMachine s → IsWord v → IsMachine (record s { pc = v })
set_pc-IsMachine s v m w = record {
  pc_word = w;
  mem_word = m.mem_word;
  regs = m.regs;
  reg_word = m.reg_word;
}

-- advance after a register write
wrote :
    (s : State) (r v : ℕ)
    → IsMachine s
    → IsWord v
    → Later IsMachine (advance (record s { reg = set s.reg r v }))
wrote s r v m w = set_pc-IsMachine _ _ (set_reg-IsMachine s r v m w) (add_w-IsWord s.pc 1)

module _ (s : State) (m : IsMachine s) where
  same_pc : Later IsMachine (advance s)
  same_pc = set_pc-IsMachine s _ m (add_w-IsWord s.pc 1)

  load-IsMachine : (r a : ℕ) → Later IsMachine (load_into s r a)
  load-IsMachine r a =
      on_if (Later IsMachine) (ltb a num_memory_words) (wrote s r (s.mem a) m (m.mem_word a))
        (tt {0})

  store-IsMachine : (i v : ℕ) → IsWord v → Later IsMachine (store_reg s i v)
  store-IsMachine i v w = on_if (Later IsMachine) (ltb i num_regs) (wrote s i v m w) (tt {0})

  branch-IsMachine :
      (b : Bool) (v : ℕ) → Later IsMachine (if b then advance (record s { pc = v }) else advance s)
  branch-IsMachine b v =
      on_if (Later IsMachine) b {x = advance (record s { pc = v })} {y = advance s}
        (set_pc-IsMachine s _ m (add_w-IsWord v 1)) same_pc

  execute-IsMachine : (f : Fields) → Later IsMachine (execute f s)
  unfolding execute
  execute-IsMachine f =
      on_if (Later IsMachine) (f.opcode == 0) (wrote s f.rd _ m (add_w-IsWord _ _)) (
        on_if (Later IsMachine) (f.opcode == 1) (wrote s f.rd _ m (nor_w-IsWord _ _)) (
          on_if (Later IsMachine) (f.opcode == 2) (load-IsMachine f.r2 _) (
            on_if (Later IsMachine) (f.opcode == 3) (store-IsMachine _ _ (reg-IsWord s f.r2 m)) (
              on_if (Later IsMachine) (f.opcode == 4) (branch-IsMachine _ _) (
                on_if (Later IsMachine) (f.opcode == 5)
                  (set_pc-IsMachine _ _ (set_reg-IsMachine s f.r2 _ m (add_w-IsWord s.pc 1))
                    (add_w-IsWord _ 1))
                  (on_if (Later IsMachine) (f.opcode == 6)
                    (set_pc-IsMachine s _ m (add_w-IsWord s.pc 1)) same_pc))))))

-- A round keeps eight registers, and every register and cell a word.
pub step-IsMachine : (s : State) → IsMachine s → Later IsMachine (step s)
unfolding step
step-IsMachine s m =
    on_if (Later IsMachine) (ltb s.pc num_memory_words) (execute-IsMachine s m (cvt (s.mem s.pc)))
      (tt {0})

abbrev SameMem : (ℕ → ℕ) → State → Type 0
SameMem mem t = t.mem ≡ mem

step-SameMem : (s : State) → Later (SameMem s.mem) (step s)
unfolding step execute
step-SameMem s = ground arith

Later-mono :
    (P Q : State → Type 0) → ((t : State) → P t → Q t) → (o : Outcome) → Later P o → Later Q o
Later-mono P Q f (next t) p = f t p
Later-mono P Q f (halt t) p = f t p
Later-mono P Q f fault p = tt

abbrev Printed : (State → Type 0) → Run → Type 0
Printed P r = All P r.printed

module _ (P : State → Type 0) (keep : (s : State) → P s → Later P (step s)) where
  after_round-Printed :
      (loop : State → Run) (s : State) (o : Outcome)
      → P s
      → Later P o
      → ((t : State) → P t → Printed P (loop t))
      → Printed P (after_round loop s o)
  after_round-Printed loop s (next t) p q ih = (p, ih t q)
  after_round-Printed loop s (halt t) p q ih = (p, (q, tt))
  after_round-Printed loop s fault p q ih = (p, tt)

  run_inv : (f endline : ℕ) (s : State) → P s → Printed P (run f endline s)
  unfolding run
  run_inv zero endline s p = tt
  run_inv (suc f) endline s p = elim (Bool-cases (slt endline s.pc)) [
    | inl past ↦ rw (past, run) (p, tt)
    | inr more ↦
        rw (more, run)
          (after_round-Printed (run f endline) s (step s) p (keep s p) (run_inv f endline))
  ]

-- Every state that the simulator prints in its first rounds, however many they are, has the memory
-- of the first one: no instruction stores into memory, sw included.
pub run-mem : (f endline : ℕ) (s : State) → All (λ t. t.mem ≡ s.mem) (run f endline s).printed
run-mem f endline s =
    run_inv (SameMem s.mem)
      (λ t e. Later-mono (SameMem t.mem) (SameMem s.mem) (λ u e'. e' ∙ e) (step t) (step-SameMem t))
      f endline s refl

-- From a machine with eight registers and with 32-bit words in registers, memory and pc, every state
-- that the simulator prints in its first rounds, however many they are, is such a machine.
pub run-IsMachine :
    (f endline : ℕ) (s : State) → IsMachine s → All IsMachine (run f endline s).printed
run-IsMachine f endline s m = run_inv IsMachine step-IsMachine f endline s m
