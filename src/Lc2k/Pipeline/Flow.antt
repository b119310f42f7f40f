-- ===== src/Lc2k/Pipeline/Flow.antt =====
-- How an instruction goes through the pipeline of project2/simulator.c, among instructions that do
-- nothing.
use computer_science_project.Prelude.Words.{add_w, nor_w}
use computer_science_project.Prelude.{
  ℕ, zero, suc, ◌+◌, ◌<◌, ◌≡◌, refl, ap, ◌∙◌, ◌⊎◌, Option, none, some, arith, ◌==◌, ◌||◌,
  if◌then◌else◌, set,
}
use mathlib.Core.Path.{ap₂}
use computer_science_project.Lc2k.Simulator.{num_memory_words, num_regs}
use computer_science_project.Lc2k.Pipeline.{
  State, field0, field1, field2, opcode, reg_at, if_stage, id_stage, ex_stage, mem_data, mem_store,
  wb_stage, branches, alu, cycle,
}

abbrev pub cycle_n : ℕ → State → Option State
cycle_n zero s = some s
cycle_n (suc n) s = elim (cycle s) [ none ↦ none | some t ↦ cycle_n n t ]

-- The state after a cycle in which the memory stage and the write-back stage have nothing to do.
abbrev pub moved : State → State
moved s = record s {
  pc = add_w s.pc 1;
  ifid = record { instr = s.instr_mem s.pc; pc_plus1 = add_w s.pc 1 };
  idex = id_stage s;
  exmem = ex_stage s;
  memwb = record { instr = s.exmem.instr; write_data = s.memwb.write_data };
  wbend = record { instr = s.memwb.instr; write_data = s.memwb.write_data };
  cycles = add_w s.cycles 1;
}

module _ (s : State) (inside : s.pc < num_memory_words) where
  -- neither stage has work
  pub cycle-idle : opcode s.exmem.instr ≡ 7 → opcode s.memwb.instr ≡ 7 → cycle s ≡ some (moved s)
  unfolding cycle if_stage mem_data mem_store wb_stage branches
  cycle-idle e w = ground arith

  -- an instruction that computes is in the memory stage
  pub cycle-mem_alu :
      (opcode s.exmem.instr ≡ 0) ⊎ (opcode s.exmem.instr ≡ 1)
      → opcode s.memwb.instr ≡ 7
      → cycle s
        ≡ some (record (moved s) {
          memwb = record { instr = s.exmem.instr; write_data = s.exmem.alu_result };
        })
  unfolding cycle if_stage mem_data mem_store wb_stage branches
  cycle-mem_alu e w = ground arith

  -- an instruction that computes is in the write-back stage
  pub cycle-wb_alu :
      opcode s.exmem.instr ≡ 7
      → (opcode s.memwb.instr ≡ 0) ⊎ (opcode s.memwb.instr ≡ 1)
      → field2 s.memwb.instr < num_regs
      → cycle s
        ≡ some (record (moved s) { reg = set s.reg (field2 s.memwb.instr) s.memwb.write_data })
  unfolding cycle if_stage mem_data mem_store wb_stage branches
  cycle-wb_alu e w d = ground arith

  -- one that computes in the memory stage, one in the write-back stage
  pub cycle-both_alu :
      (opcode s.exmem.instr ≡ 0) ⊎ (opcode s.exmem.instr ≡ 1)
      → (opcode s.memwb.instr ≡ 0) ⊎ (opcode s.memwb.instr ≡ 1)
      → field2 s.memwb.instr < num_regs
      → cycle s
        ≡ some (record (moved s) {
          reg = set s.reg (field2 s.memwb.instr) s.memwb.write_data;
          memwb = record { instr = s.exmem.instr; write_data = s.exmem.alu_result };
        })
  unfolding cycle if_stage mem_data mem_store wb_stage branches
  cycle-both_alu e w d = ground arith

cycle_n-step : (n : ℕ) (s t : State) → cycle s ≡ some t → cycle_n (suc n) s ≡ cycle_n n t
cycle_n-step n s t h = rw (h, cycle_n)

-- Every latch holds an instruction that does nothing.
pub record IsQuiet (s : State) : Type 0 where
  pub at_id : opcode s.ifid.instr ≡ 7
  pub at_ex : opcode s.idex.instr ≡ 7
  pub at_mem : opcode s.exmem.instr ≡ 7
  pub at_wb : opcode s.memwb.instr ≡ 7

abbrev pub IsAlu : ℕ → Type 0
IsAlu w = (opcode w ≡ 0) ⊎ (opcode w ≡ 1)

-- What add or nor is to write, from the registers of a state.
unfoldable pub value : State → ℕ → ℕ
value s w =
    if opcode w == 0
    then add_w (reg_at s (field0 w)) (reg_at s (field1 w))
    else nor_w (reg_at s (field0 w)) (reg_at s (field1 w))

alu-value :
    (s : State) (w c old : ℕ)
    → IsAlu w
    → alu w
        (reg_at s (field0 w))
        (if (opcode w == 2) || (opcode w == 3) then c else reg_at s (field1 w))
        old
      ≡ value s w
unfolding alu value
alu-value s w c old h = ground arith

-- The states of six cycles with add or nor in the first two instructions.
abbrev later2 : State → State
later2 s = moved (moved s)

abbrev later3 : State → State
later3 s = moved (later2 s)

abbrev later4 : State → State
later4 s = record (moved (later3 s)) {
  memwb = record { instr = (later3 s).exmem.instr; write_data = (later3 s).exmem.alu_result };
}

abbrev later5 : State → State
later5 s = record (moved (later4 s)) {
  reg = set s.reg (field2 (later4 s).memwb.instr) (later4 s).memwb.write_data;
  memwb = record { instr = (later4 s).exmem.instr; write_data = (later4 s).exmem.alu_result };
}

abbrev later6 : State → State
later6 s = record (moved (later5 s)) {
  reg = set (later5 s).reg (field2 (later5 s).memwb.instr) (later5 s).memwb.write_data;
}

module _ (s : State) (w1 w2 w3 : ℕ) (quiet : IsQuiet s) (inside : s.pc + 5 < num_memory_words)
    (first : s.instr_mem s.pc ≡ w1) (second : s.instr_mem (s.pc + 1) ≡ w2)
    (third : s.instr_mem (s.pc + 2) ≡ w3) (alu1 : IsAlu w1) (alu2 : IsAlu w2)
    (idle3 : opcode w3 ≡ 7) (dest1 : field2 w1 < num_regs) (dest2 : field2 w2 < num_regs) where
  pcs :
      ((moved s).pc ≡ s.pc + 1)
      × ((later2 s).pc ≡ s.pc + 2)
      × ((later3 s).pc ≡ s.pc + 3)
      × ((later4 s).pc ≡ s.pc + 4)
      × ((later5 s).pc ≡ s.pc + 5)
  unfolding add_w
  pcs = omega arith

  w1_moves : (later3 s).exmem.instr ≡ w1
  unfolding id_stage ex_stage
  w1_moves = first

  w2_moves : (later4 s).exmem.instr ≡ w2
  unfolding id_stage ex_stage
  w2_moves = ap s.instr_mem pcs.0 ∙ second

  w3_moves : (later5 s).exmem.instr ≡ w3
  unfolding id_stage ex_stage
  w3_moves = ap s.instr_mem pcs.1 ∙ third

  six_cycles : cycle_n 6 s ≡ some (later6 s)
  unfolding id_stage ex_stage
  six_cycles =
      cycle_n-step 5 s (moved s) (cycle-idle s (omega arith) quiet.at_mem quiet.at_wb)
      ∙ (cycle_n-step 4 (moved s) (later2 s)
            (cycle-idle (moved s) (omega (arith, pcs)) quiet.at_ex quiet.at_mem)
          ∙ (cycle_n-step 3 (later2 s) (later3 s)
                (cycle-idle (later2 s) (omega (arith, pcs)) quiet.at_id quiet.at_ex)
              ∙ (cycle_n-step 2 (later3 s) (later4 s)
                    (cycle-mem_alu (later3 s) (omega (arith, pcs)) (rw w1_moves alu1) quiet.at_id)
                  ∙ (cycle_n-step 1 (later4 s) (later5 s) (
                        cycle-both_alu (later4 s) (omega (arith, pcs)) (rw w2_moves alu2)
                          (rw w1_moves alu1) (rw w1_moves dest1))
                      ∙ cycle_n-step 0 (later5 s) (later6 s) (
                          cycle-wb_alu (later5 s) (omega (arith, pcs)) (rw w3_moves idle3)
                            (rw w2_moves alu2) (rw w2_moves dest2))))))

  written1 : (later4 s).memwb.write_data ≡ value s w1
  unfolding id_stage ex_stage
  written1 =
      alu-value s (s.instr_mem s.pc) _ (later2 s).exmem.alu_result (rw first alu1)
      ∙ ap (value s) first

  written2 : (later5 s).memwb.write_data ≡ value s w2
  unfolding id_stage ex_stage
  written2 =
      alu-value s (s.instr_mem (add_w s.pc 1)) _ (later3 s).exmem.alu_result
        (rw (ap s.instr_mem pcs.0 ∙ second) alu2)
      ∙ ap (value s) (ap s.instr_mem pcs.0 ∙ second)

  -- In the pipeline with every latch idle and pc + 5 below 65536, two add or nor instructions in a
  -- row, whose destinations are below 8, and then one that does nothing: after six cycles both have
  -- written their registers, the second from the registers as they were before the first, and the
  -- data memory is unchanged.
  pub back_to_back :
      (t : State) × (cycle_n 6 s ≡ some t)
      × (t.reg ≡ set (set s.reg (field2 w1) (value s w1)) (field2 w2) (value s w2))
      × (t.data_mem ≡ s.data_mem)
  back_to_back = (
    later6 s,
    six_cycles,
    ap₂
          (λ (i v : ℕ).
            set (set s.reg (field2 i) v) (field2 (later5 s).memwb.instr)
              (later5 s).memwb.write_data)
          w1_moves written1
        ∙ ap₂ (λ (j u : ℕ). set (set s.reg (field2 w1) (value s w1)) (field2 j) u) w2_moves
            written2,
    refl,
  )
