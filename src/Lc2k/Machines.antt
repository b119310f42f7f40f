-- ===== src/Lc2k/Machines.antt =====
-- The simulators of project1 and project2 at concrete machines.
use computer_science_project.Prelude.{
  ℕ, ◌^◌, ◌<◌, ◌≡◌, refl, inl, inr, some, List, [], ◌∷◌, All, replicate, set, arith, if◌then◌else◌,
  ◌==◌,
}
use computer_science_project.Lc2k.Simulator
use computer_science_project.Lc2k.Simulator.{run, halted}
use computer_science_project.Lc2k.Execution.{IsMachine, run-mem}
use computer_science_project.Lc2k.Pipeline
use computer_science_project.Lc2k.Pipeline.{cycle, branches, field2}
use computer_science_project.Lc2k.Pipeline.Flow.{cycle_n, IsQuiet, value, back_to_back}

-- sw 0 1 2, then halt
abbrev program : ℕ → ℕ
program a = if a == 0 then 12648450 else if a == 1 then 25165824 else 0

abbrev start : Simulator.State
start = record { pc = 0; mem = program; reg = replicate 8 0; num_memory = 2 }

abbrev stored : Simulator.State
stored = record start { pc = 1 }

abbrev stopped : Simulator.State
stopped = record start { pc = 2 }

abbrev states : List Simulator.State
states = start ∷ stored ∷ stopped ∷ []

runs : run 2 1 start ≡ record { printed = states; ending = halted }
unfolding run Simulator.step Simulator.execute Simulator.cvt
runs = refl

program-IsWord : (a : ℕ) → program a < 2 ^ 32
program-IsWord a = ground arith

start-IsMachine : IsMachine start
start-IsMachine = record {
  pc_word = omega arith;
  mem_word = program-IsWord;
  regs = refl;
  reg_word = omega arith;
}

run-mem_example : All (λ t. t.mem ≡ program) (run 2 1 start).printed
run-mem_example = run-mem 2 1 start

-- add 0 0 1, nor 1 1 2, noop
abbrev two_alu : ℕ → ℕ
two_alu a = if a == 0 then 1 else if a == 1 then 4784130 else 29360128

abbrev pipe : Pipeline.State
pipe = record {
  pc = 0;
  instr_mem = two_alu;
  data_mem = two_alu;
  reg = replicate 8 0;
  num_memory = 3;
  ifid = record { instr = 29360128; pc_plus1 = 0 };
  idex = record { instr = 29360128; pc_plus1 = 0; read_reg_a = 0; read_reg_b = 0; offset = 0 };
  exmem = record { instr = 29360128; branch_target = 0; alu_result = 0; read_reg_b = 0 };
  memwb = record { instr = 29360128; write_data = 0 };
  wbend = record { instr = 29360128; write_data = 0 };
  cycles = 0;
}

pipe-IsQuiet : IsQuiet pipe
unfolding Pipeline.opcode
pipe-IsQuiet = record { at_id = refl; at_ex = refl; at_mem = refl; at_wb = refl }

back_to_back_example :
    (t : Pipeline.State) × (cycle_n 6 pipe ≡ some t)
    × (t.reg
        ≡ set (set (replicate 8 0) (field2 1) (value pipe 1)) (field2 4784130) (value pipe 4784130))
    × (t.data_mem ≡ two_alu)
back_to_back_example =
    back_to_back pipe 1 4784130 29360128 pipe-IsQuiet (omega arith) refl refl refl
      (inl (unfold Pipeline.opcode in refl)) (inr (unfold Pipeline.opcode in refl))
      (unfold Pipeline.opcode in refl) (unfold field2 in omega arith) (unfold field2 in omega arith)

-- a taken beq in the memory stage
abbrev branching : Pipeline.State
branching = record pipe {
  exmem = record { instr = 16777216; branch_target = 2; alu_result = 0; read_reg_b = 0 };
}

abbrev jumped : Pipeline.State
jumped = record pipe {
  pc = 2;
  ifid = Pipeline.squash_ifid;
  idex = Pipeline.squash_idex;
  exmem = Pipeline.squash_exmem;
  memwb = record { instr = 16777216; write_data = 0 };
  cycles = 1;
}

abbrev fetched : Pipeline.State
fetched = record pipe { pc = 1; ifid = record { instr = 1; pc_plus1 = 1 }; cycles = 1 }
