-- ===== src/Lc2k/Pipeline/Branch.antt =====
-- Branches in the pipeline of project2/simulator.c.
use computer_science_project.Prelude.Words.{add_w}
use computer_science_project.Prelude.{◌≡◌, some, arith, true, false}
use computer_science_project.Lc2k.Pipeline.{
  State, noop_instruction, if_stage, id_stage, ex_stage, mem_store, branches, cycle,
}

-- What the stages that read the old state leave of the three younger instructions.
pub record IsSquashed (s t : State) : Type 0 where
  pub target : t.pc ≡ s.exmem.branch_target
  pub ifid : t.ifid.instr ≡ noop_instruction
  pub idex : t.idex.instr ≡ noop_instruction
  pub exmem : t.exmem.instr ≡ noop_instruction
  pub memory : t.data_mem ≡ s.data_mem

-- A cycle with a taken branch in the memory stage goes on at its target, turns the three younger
-- instructions into noops and stores nothing into the data memory.
pub cycle-squash : (s t : State) → branches s ≡ true → cycle s ≡ some t → IsSquashed s t
unfolding cycle branches mem_store
cycle-squash s t b h = ground arith

-- A cycle with no taken branch: every latch takes the instruction of the latch before it, and the pc
-- goes to the next word.
pub record IsShifted (s t : State) : Type 0 where
  pub next_pc : t.pc ≡ add_w s.pc 1
  pub ifid : t.ifid.instr ≡ s.instr_mem s.pc
  pub idex : t.idex.instr ≡ s.ifid.instr
  pub exmem : t.exmem.instr ≡ s.idex.instr
  pub memwb : t.memwb.instr ≡ s.exmem.instr
  pub wbend : t.wbend.instr ≡ s.memwb.instr

-- A cycle without a taken branch hands each instruction to the next latch, fetches the word at the
-- pc and goes on to the next one.
pub cycle-shift : (s t : State) → branches s ≡ false → cycle s ≡ some t → IsShifted s t
unfolding cycle if_stage id_stage ex_stage
cycle-shift s t b h = ground arith
