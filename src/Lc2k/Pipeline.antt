-- ===== src/Lc2k/Pipeline.antt =====
-- computer architecture/project2/simulator.c: the five-stage pipeline. There is no forwarding and no
-- stall; a taken branch is found in the memory stage.
pub mod Flow
pub mod Branch
use computer_science_project.Prelude.Words.{add_w, sub_w, nor_w, sar22, sar19, sar16}
use computer_science_project.Prelude.Text.{file_lines}
use computer_science_project.Prelude.{
  ℕ, zero, suc, ◌+◌, ◌^◌, Bool, true, false, ◌&&◌, ◌||◌, Option, none, some, List, [], ◌∷◌, bit_and,
  ltb, ◌==◌, if◌then◌else◌, get_or, set, replicate, length,
}
use computer_science_project.Lc2k.Simulator.{
  convert_num, num_memory_words, num_regs, read_words, words, bad_line, overrun, place,
}

-- NOOPINSTRUCTION
abbrev pub noop_instruction : ℕ
noop_instruction = 0x1c0_0000

pub record IfId : Type 0 where
  pub instr : ℕ
  pub pc_plus1 : ℕ

pub record IdEx : Type 0 where
  pub instr : ℕ
  pub pc_plus1 : ℕ
  pub read_reg_a : ℕ
  pub read_reg_b : ℕ
  pub offset : ℕ

pub record ExMem : Type 0 where
  pub instr : ℕ
  pub branch_target : ℕ
  pub alu_result : ℕ
  pub read_reg_b : ℕ

pub record MemWb : Type 0 where
  pub instr : ℕ
  pub write_data : ℕ

pub record WbEnd : Type 0 where
  pub instr : ℕ
  pub write_data : ℕ

pub record State : Type 0 where
  pub pc : ℕ
  pub instr_mem : ℕ → ℕ
  pub data_mem : ℕ → ℕ
  pub reg : List ℕ
  pub num_memory : ℕ
  pub ifid : IfId
  pub idex : IdEx
  pub exmem : ExMem
  pub memwb : MemWb
  pub wbend : WbEnd
  pub cycles : ℕ

unfoldable pub field0 : ℕ → ℕ
unfolding sar19
field0 instruction = bit_and (sar19 instruction) 7

unfoldable pub field1 : ℕ → ℕ
unfolding sar16
field1 instruction = bit_and (sar16 instruction) 7

unfoldable pub field2 : ℕ → ℕ
field2 instruction = bit_and instruction 0xffff

-- no mask: a word that is negative has an opcode that no #define names
unfoldable pub opcode : ℕ → ℕ
unfolding sar22
opcode instruction = sar22 instruction

-- state.reg[field0(…)]: the field is below 8
abbrev pub reg_at : State → ℕ → ℕ
reg_at s r = get_or s.reg r 0

abbrev pub is_lw : ℕ → Bool
is_lw i = opcode i == 2

abbrev pub is_sw : ℕ → Bool
is_sw i = opcode i == 3

abbrev pub is_alu : ℕ → Bool
is_alu i = opcode i == 0 || opcode i == 1

abbrev pub is_beq : ℕ → Bool
is_beq i = opcode i == 4

-- IF stage; instrMem[pc] outside the array is a fault
unfoldable pub if_stage : State → Option IfId
if_stage s =
    if ltb s.pc num_memory_words
    then some (record { instr = s.instr_mem s.pc; pc_plus1 = add_w s.pc 1 })
    else none

-- ID stage
unfoldable pub id_stage : State → IdEx
id_stage s = record {
  instr = s.ifid.instr;
  pc_plus1 = s.ifid.pc_plus1;
  read_reg_a = reg_at s (field0 s.ifid.instr);
  read_reg_b = reg_at s (field1 s.ifid.instr);
  offset = convert_num (field2 s.ifid.instr);
}

-- The ALU of the EX stage. Other opcodes leave the result that the latch has.
unfoldable pub alu : ℕ → ℕ → ℕ → ℕ → ℕ
alu instr a b old =
    if opcode instr == 0
    then add_w a b
    else if opcode instr == 1
    then nor_w a b
    else if opcode instr == 4
    then sub_w a b
    else if is_lw instr || is_sw instr
    then add_w a b
    else old

-- EX stage
unfoldable pub ex_stage : State → ExMem
ex_stage s = record {
  instr = d.instr;
  branch_target = add_w d.pc_plus1 d.offset;
  alu_result =
      alu d.instr d.read_reg_a (if is_lw d.instr || is_sw d.instr then d.offset else d.read_reg_b)
        s.exmem.alu_result;
  read_reg_b = d.read_reg_b;
}
  where
    open s use {idex as d}

-- What the MEM stage does to writeData; `none` is an access outside dataMem.
unfoldable pub mem_data : State → Option ℕ
mem_data s =
    if is_alu e.instr
    then some e.alu_result
    else if is_lw e.instr
    then (if ltb e.alu_result num_memory_words then some (s.data_mem e.alu_result) else none)
    else some s.memwb.write_data
  where
    open s use {exmem as e}

abbrev pub store_at : (ℕ → ℕ) → ℕ → ℕ → ℕ → ℕ
store_at m a v i = if i == a then v else m i

-- dataMem after the MEM stage
unfoldable pub mem_store : State → Option (ℕ → ℕ)
mem_store s =
    if is_sw e.instr
    then (if ltb e.alu_result num_memory_words
        then some (store_at s.data_mem e.alu_result e.read_reg_b)
        else none)
    else some s.data_mem
  where
    open s use {exmem as e}

-- The branch of the MEM stage is taken.
unfoldable pub branches : State → Bool
branches s = is_beq s.exmem.instr && s.exmem.alu_result == 0

-- WB stage: the registers, `none` where the destination of add or nor is no register
unfoldable pub wb_stage : State → Option (List ℕ)
wb_stage s =
    if is_lw w.instr
    then some (set s.reg (field1 w.instr) w.write_data)
    else if is_alu w.instr
    then (if ltb (field2 w.instr) num_regs
        then some (set s.reg (field2 w.instr) w.write_data)
        else none)
    else some s.reg
  where
    open s use {memwb as w}

-- The latches that a taken branch leaves.
abbrev pub squash_ifid : IfId
squash_ifid = record { instr = noop_instruction; pc_plus1 = 0 }

abbrev pub squash_idex : IdEx
squash_idex = record {
  instr = noop_instruction;
  pc_plus1 = 0;
  read_reg_a = 0;
  read_reg_b = 0;
  offset = 0;
}

abbrev pub squash_exmem : ExMem
squash_exmem = record {
  instr = noop_instruction;
  branch_target = 0;
  alu_result = 0;
  read_reg_b = 0;
}

infixl 5 ◌>>=◌
abbrev ◌>>=◌ : {A B : Type 0} → Option A → (A → Option B) → Option B
none >>= f = none
some a >>= f = f a

-- One cycle of the loop of `main`: every stage reads the old state. `none` is an access outside an
-- array.
unfoldable pub cycle : State → Option State
cycle s = do
  fetched ← if_stage s
  written ← mem_data s
  stored ← mem_store s
  regs ← wb_stage s
  let taken = branches s
  some (record {
    pc = if taken then s.exmem.branch_target else add_w s.pc 1;
    instr_mem = s.instr_mem;
    data_mem = stored;
    reg = regs;
    num_memory = s.num_memory;
    ifid = if taken then squash_ifid else fetched;
    idex = if taken then squash_idex else id_stage s;
    exmem = if taken then squash_exmem else ex_stage s;
    memwb = record { instr = s.exmem.instr; write_data = written };
    wbend = record { instr = s.memwb.instr; write_data = s.memwb.write_data };
    cycles = add_w s.cycles 1;
  })

-- check for halt
unfoldable pub is_halted : State → Bool
is_halted s = opcode s.memwb.instr == 6

pub record Run : Type 0 where
  pub printed : List State
  pub halted : Bool

abbrev pub printing : State → Option Run → Option Run
printing s none = none
printing s (some r) = some (record r { printed = s ∷ r.printed })

abbrev pub after_cycle : (State → Option Run) → State → Option State → Option Run
after_cycle loop s none = some (record { printed = s ∷ []; halted = false })
after_cycle loop s (some t) = printing s (loop t)

-- The loop of `main`, with what it prints; it ends by the halt, or (halted = false) by a fault.
unfoldable pub run : ℕ → State → Option Run
run zero s = none
run (suc f) s = elim (is_halted s) [
  | true ↦ some (record { printed = s ∷ []; halted = true })
  | false ↦ after_cycle (run f) s (cycle s)
]

-- The start of `main`. Latch fields other than `instr` are not initialised: they are what the stack
-- held, as are the cells past the file.
unfoldable pub boot : List ℕ → State → State
unfolding place
boot ws junk = record {
  pc = 0;
  instr_mem = place 0 ws junk.instr_mem;
  data_mem = place 0 ws junk.data_mem;
  reg = replicate num_regs 0;
  num_memory = length ws;
  ifid = record junk.ifid { instr = noop_instruction };
  idex = record junk.idex { instr = noop_instruction };
  exmem = record junk.exmem { instr = noop_instruction };
  memwb = record junk.memwb { instr = noop_instruction };
  wbend = record junk.wbend { instr = noop_instruction };
  cycles = 0;
}

pub data Finished : Type 0 where
  read_error : ℕ → Finished
  read_overrun : Finished
  ran : Option Run → Finished

unfoldable pub main : ℕ → List ℕ → State → Finished
unfolding run cycle boot read_words file_lines if_stage id_stage ex_stage mem_data mem_store
    wb_stage branches alu field0 field1 field2 opcode add_w sub_w nor_w convert_num is_halted
main fuel file junk = elim (read_words 0 (file_lines file)) [
  | bad_line a ↦ read_error a
  | overrun ↦ read_overrun
  | words ws ↦ ran (run fuel (boot ws junk))
]
