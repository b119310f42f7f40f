-- ===== src/Lc2k/Simulator.antt =====
-- computer architecture/project1/simulator.c: the instruction-level simulator.
-- What it prints is a list of the states that printState was given.
use computer_science_project.Prelude.Words.{add_w, sub_w, nor_w, sar22, sar19, sar16, slt}
use computer_science_project.Prelude.Text.{scan_int, file_lines}
use computer_science_project.Prelude.{
  ℕ, zero, suc, ◌+◌, ◌-◌, ◌^◌, true, false, none, some, List, [], ◌∷◌, bit_and, ltb, ◌==◌,
  if◌then◌else◌, get_or, set, replicate, length,
}

abbrev pub num_memory_words : ℕ
num_memory_words = 65536

abbrev pub num_regs : ℕ
num_regs = 8

-- convertNum
unfoldable pub convert_num : ℕ → ℕ
unfolding sub_w
convert_num num = if bit_and num (2 ^ 15) == 0 then num else sub_w num (2 ^ 16)

-- What `cvt` stores in the globals.
pub record Fields : Type 0 where
  pub opcode : ℕ
  pub r1 : ℕ
  pub r2 : ℕ
  pub rd : ℕ
  pub offset : ℕ

unfoldable pub cvt : ℕ → Fields
unfolding sar22 sar19 sar16
cvt mc = record {
  opcode = bit_and (sar22 mc) 7;
  r1 = bit_and (sar19 mc) 7;
  r2 = bit_and (sar16 mc) 7;
  rd = bit_and mc 7;
  offset = bit_and mc 0xffff;
}

-- stateStruct. `mem` also has what the stack held at addresses that no line of the file sets.
pub record State : Type 0 where
  pub pc : ℕ
  pub mem : ℕ → ℕ
  pub reg : List ℕ
  pub num_memory : ℕ

abbrev pub reg_at : State → ℕ → ℕ
reg_at s r = get_or s.reg r 0

-- A round of the loop: the next state, a halt in the state that is printed, or an access outside an
-- array, where C promises nothing.
pub data Outcome : Type 0 where
  next : State → Outcome
  halt : State → Outcome
  fault : Outcome

-- The `state.pc++` at the end of the loop.
abbrev pub advance : State → Outcome
advance s = next (record s { pc = add_w s.pc 1 })

-- state.reg[i] = v for a computed index
abbrev pub store_reg : State → ℕ → ℕ → Outcome
store_reg s i v = if ltb i num_regs then advance (record s { reg = set s.reg i v }) else fault

abbrev pub load_into : State → ℕ → ℕ → Outcome
load_into s r a =
    if ltb a num_memory_words then advance (record s { reg = set s.reg r (s.mem a) }) else fault

-- The switch of `main`. The cases are opcodes, in the order of the #defines.
unfoldable pub execute : Fields → State → Outcome
unfolding add_w nor_w convert_num
execute f s =
    if f.opcode == 0
    then advance (record s { reg = set s.reg f.rd (add_w (reg_at s f.r1) (reg_at s f.r2)) })
    else if f.opcode == 1
    then advance (record s { reg = set s.reg f.rd (nor_w (reg_at s f.r1) (reg_at s f.r2)) })
    else if f.opcode == 2
    then load_into s f.r2 (convert_num (add_w (reg_at s f.r1) f.offset))
    else if f.opcode == 3
    then store_reg s (convert_num (add_w (reg_at s f.r1) f.offset)) (reg_at s f.r2)
    else if f.opcode == 4
    then (if reg_at s f.r1 == reg_at s f.r2
        then advance (record s { pc = add_w s.pc (convert_num f.offset) })
        else advance s)
    else if f.opcode == 5
    then (let linked = record s { reg = set s.reg f.r2 (add_w s.pc 1) } in
        advance (record linked { pc = sub_w (reg_at linked f.r1) 1 }))
    else if f.opcode == 6
    then halt (record s { pc = add_w s.pc 1 })
    else advance s

unfoldable pub step : State → Outcome
step s = if ltb s.pc num_memory_words then execute (cvt (s.mem s.pc)) s else fault

pub data Ending : Type 0 where
  halted fell_off faulted unfinished : Ending

pub record Run : Type 0 where
  pub printed : List State
  pub ending : Ending

abbrev pub printing : State → Run → Run
printing s r = record r { printed = s ∷ r.printed }

abbrev pub after_round : (State → Run) → State → Outcome → Run
after_round loop s (next t) = printing s (loop t)
after_round loop s (halt t) = record { printed = s ∷ t ∷ []; ending = halted }
after_round loop s fault = record { printed = s ∷ []; ending = faulted }

-- The first rounds of the loop of `main`, with what they print; `unfinished` where the fuel ran out.
unfoldable pub run : ℕ → ℕ → State → Run
unfolding slt
run zero endline s = record { printed = []; ending = unfinished }
run (suc f) endline s = elim (slt endline s.pc) [
  | true ↦ record { printed = s ∷ []; ending = fell_off }
  | false ↦ after_round (run f endline) s (step s)
]

-- The words of the file, the address at which the reading failed, or a word that is stored behind `mem`,
-- where C promises nothing.
pub data Loaded : Type 0 where
  words : List ℕ → Loaded
  bad_line : ℕ → Loaded
  overrun : Loaded

abbrev pub more_words : ℕ → Loaded → Loaded
more_words w (words ws) = words (w ∷ ws)
more_words w (bad_line a) = bad_line a
more_words w overrun = overrun

unfoldable pub read_words : ℕ → List (List ℕ) → Loaded
unfolding scan_int
read_words a [] = words []
read_words a (line ∷ lines) = elim (scan_int line) [
  | none ↦ bad_line a
  | some w ↦
      let rest = read_words (a + 1) lines in
      if ltb a num_memory_words then more_words w rest else overrun
]

-- The array after the words were read into it, over what it held.
unfoldable pub place : ℕ → List ℕ → (ℕ → ℕ) → ℕ → ℕ
place a [] junk i = junk i
place a (w ∷ ws) junk i = if i == a then w else place (a + 1) ws junk i

unfoldable pub boot : List ℕ → (ℕ → ℕ) → State
unfolding place
boot ws junk = record {
  pc = 0;
  mem = place 0 ws junk;
  reg = replicate num_regs 0;
  num_memory = length ws;
}

-- `main`, given the file, what the stack holds, and the fuel.
pub data Finished : Type 0 where
  read_error : ℕ → Finished
  read_overrun : Finished
  ran : Run → Finished

unfoldable pub main : ℕ → List ℕ → (ℕ → ℕ) → Finished
unfolding run step execute cvt read_words boot file_lines
main fuel file junk = elim (read_words 0 (file_lines file)) [
  | bad_line a ↦ read_error a
  | overrun ↦ read_overrun
  | words ws ↦ ran (run fuel (length ws - 1) (boot ws junk))
]
