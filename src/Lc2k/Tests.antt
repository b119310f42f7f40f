-- ===== src/Lc2k/Tests.antt =====
-- The assembler and the simulators run on the repository's test cases, and the properties at
-- concrete inputs.
use computer_science_project.Prelude.Text.{file_of, file_lines, codes, scan_int}
use computer_science_project.Prelude.{
  ℕ, ◌-◌, ◌*◌, ◌^◌, ◌≡◌, ◌≢◌, refl, List, [], ◌∷◌, All, length, arith, if◌then◌else◌, leb, ◌+◌,
  ◌==◌, replicate,
}
use computer_science_project.Lc2k.Assembler.{
  Name, Line, ok, lw_sw, beq, find_idx, first_pass, symbolic, second_line, assemble, write_out,
}
use computer_science_project.Lc2k.Simulator.{
  State, reg_at, next, step, cvt, words, overrun, read_words, num_memory_words,
}
use computer_science_project.Lc2k.FirstPass.{IsUnique, FitsName, first_pass_lem}
use computer_science_project.Lc2k.SecondPass.{at_line, second_line-negative, second_line-beq}
use computer_science_project.Lc2k.Toolchain.{assemble-read_words}

-- project1/testcase1.as, a tab written as a space
abbrev testcase1 : List ℕ
testcase1 = file_of (
    "   lw 0 1 seven     Load 5 to reg 1 (numeric)"
    ∷ "        lw 0 2 neg2     load -1 to reg 2 (symbolic)"
    ∷ "        lw 0 3 zero     load 0 to reg 3 (symbolic)"
    ∷ "        lw 0 4 zero     load 0 to reg 4 (symbolic)"
    ∷ "        lw 0 5 one      load 1 to reg 5 (symbolic)"
    ∷ "start   add 1 2 1       add %1 + %2 -> %1" ∷ "        add 5 3 3       add %5 + %3 -> %3"
    ∷ "        beq 5 1 1       if %1 == 0 break" ∷ "        beq 0 0 start go to loop"
    ∷ "        add 4 3 4       add %4 + %3 = %4" ∷ "        noop" ∷ "done halt" ∷ "zero .fill 0"
    ∷ "one .fill 1" ∷ "seven .fill 7" ∷ "neg2 .fill -1" ∷ [])

abbrev testcase1_words : List ℕ
testcase1_words =
    8454158
    ∷ 8519695
    ∷ 8585228
    ∷ 8650764
    ∷ 8716301
    ∷ 655361
    ∷ 2818051
    ∷ 19464193
    ∷ 16842748
    ∷ 2293764
    ∷ 29360128
    ∷ 25165824
    ∷ 0
    ∷ 1
    ∷ 7
    ∷ (2 ^ 32 - 1)
    ∷ []

assemble-testcase1 : assemble testcase1 ≡ ok testcase1_words
unfolding assemble
assemble-testcase1 = refl

assemble-read_words_example :
    (read_words 0 (file_lines (write_out testcase1_words))
      ≡ (if leb (length testcase1_words) num_memory_words then words testcase1_words else overrun))
    × (length testcase1_words ≡ length (file_lines testcase1))
assemble-read_words_example =
    assemble-read_words testcase1 testcase1_words assemble-testcase1
      (unfold file_lines in omega arith)

abbrev three_lines : List (List ℕ)
three_lines = (codes "a add 0 0 0\n") ∷ (codes " noop\n") ∷ (codes "b .fill 3\n") ∷ []

abbrev three_labels : List Name
three_labels = codes "a" ∷ [] ∷ codes "b" ∷ []

first_pass_three : first_pass [] three_lines ≡ ok three_labels
unfolding first_pass
first_pass_three = refl

first_pass_lem_example :
    IsUnique three_labels × All FitsName three_labels × (length three_labels ≡ length three_lines)
first_pass_lem_example = first_pass_lem three_lines three_labels first_pass_three (omega arith)

abbrev add_line : Line
add_line = record {
  label = [];
  opcode = codes "add";
  arg0 = codes "1";
  arg1 = codes "2";
  arg2 = codes "3";
}

abbrev lw_line : Line
lw_line = record {
  label = [];
  opcode = codes "lw";
  arg0 = codes "0";
  arg1 = codes "1";
  arg2 = codes "b";
}

abbrev negative_line : Line
negative_line = record {
  label = [];
  opcode = codes "lw";
  arg0 = codes "0";
  arg1 = codes "1";
  arg2 = codes "-1";
}

abbrev fill_line : Line
fill_line = record { label = []; opcode = codes ".fill"; arg0 = codes "b"; arg1 = []; arg2 = [] }

nonempty : (c : ℕ) (s : List ℕ) → c ∷ s ≢ []
nonempty c s e = cc

second_line-negative_example :
    (w : ℕ) × (second_line three_labels 0 negative_line (lw_sw (2 * 2 ^ 22)) ≡ ok w)
    × ((cvt w).opcode ≡ 7)
second_line-negative_example =
    second_line-negative three_labels 0 negative_line (2 * 2 ^ 22) 0 1 (2 ^ 32 - 1)
      (unfold scan_int in refl) (unfold scan_int in refl) (nonempty b'-' (b'1' ∷ []))
      (unfold symbolic in refl) (omega arith) (omega arith) (omega arith)

abbrev start : State
start = record { pc = 0; mem = λ a. 0; reg = replicate 8 0; num_memory = 0 }

second_line-beq_example :
    (w : ℕ) × (second_line three_labels 5 lw_line beq ≡ ok w)
    × (step (at_line start 5 w)
        ≡ next (record (at_line start 5 w) {
          pc = if reg_at start 0 == reg_at start 1 then 2 else 5 + 1;
        }))
second_line-beq_example =
    second_line-beq three_labels 5 lw_line 0 1 2 (unfold scan_int in refl) (unfold scan_int in refl)
      (nonempty b'b' []) (unfold scan_int in refl) (unfold find_idx in refl) (omega arith)
      (omega arith) (omega arith) (omega arith) start
