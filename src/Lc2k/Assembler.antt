-- ===== src/Lc2k/Assembler.antt =====
-- computer architecture/project1/assemble.c: the two passes of the assembler.
-- The table `labels` is the list of the labels of the lines read so far; later entries are "".
use computer_science_project.Prelude.Words.{sub_w, shl_w, slt}
use computer_science_project.Prelude.Text.{codes, newline, scan_int, atoi, file_lines, show_int}
use computer_science_project.Prelude.{
  ℕ, ◌+◌, ◌-◌, ◌^◌, Bool, true, false, not, ◌&&◌, ◌||◌, Option, none, some, List, [], ◌∷◌, ◌++◌,
  bit_and, bit_or, ltb, ◌==◌, if◌then◌else◌, length, same_text,
}

abbrev pub Name : Type 0
Name = List ℕ

-- MAXLABEL
abbrev pub max_label : ℕ
max_label = 987654

-- The exits of `main` and `readAndParse` with an error.
pub data AsmError : Type 0 where
  line_too_long label_too_long duplicate_label invalid_opcode bad_r_args bad_i_args : AsmError
  unknown_label offset_range bad_j_args : AsmError

pub data Result {ℓ} (A : Type ℓ) : Type ℓ where
  err : AsmError → Result A
  ok : A → Result A

infixl 5 ◌>>=◌ ◌>>◌
abbrev pub ◌>>=◌ {ℓ κ} :
    {Val : Type ℓ} {Next : Type κ} → Result Val → (Val → Result Next) → Result Next
err message >>= rest = err message
ok value >>= rest = rest value

abbrev pub ◌>>◌ {ℓ} : {Next : Type ℓ} → Result (Unit {0}) → Result Next → Result Next
check >> rest = check >>= λ _. rest

abbrev pub refuse : Bool → AsmError → Result (Unit {0})
refuse true e = err e
refuse false e = ok tt

-- The loop of find_idx from index i on; `none` is the -1 that it returns.
unfoldable pub find_from : Name → ℕ → ℕ → List Name → Option ℕ
unfolding same_text
find_from name ed i [] = if ltb i ed && same_text [] name then some i else none
find_from name ed i (l ∷ ls) =
    let later = find_from name ed (i + 1) ls in
    if ltb i ed then (if same_text l name then some i else later) else none

unfoldable pub find_idx : Name → ℕ → List Name → Option ℕ
unfolding find_from
find_idx name ed labels = find_from name ed 0 labels

pub record Line : Type 0 where
  pub label : Name
  pub opcode : Name
  pub arg0 : Name
  pub arg1 : Name
  pub arg2 : Name

-- the scan set [\t\n\r ]
unfoldable pub is_blank : ℕ → Bool
is_blank c = c == 9 || c == 10 || c == 13 || c == 32

unfoldable pub take_word : List ℕ → Name
unfolding is_blank
take_word [] = []
take_word (c ∷ s) = if is_blank c then [] else c ∷ take_word s

unfoldable pub drop_word : List ℕ → List ℕ
unfolding is_blank
drop_word [] = []
drop_word (c ∷ s) = if is_blank c then c ∷ s else drop_word s

unfoldable pub drop_blanks : List ℕ → List ℕ
unfolding is_blank
drop_blanks [] = []
drop_blanks (c ∷ s) = if is_blank c then drop_blanks s else c ∷ s

-- %*[\t\n\r ] wants one blank at least; where it fails, the fields that follow stay "".
unfoldable pub after_blanks : List ℕ → List ℕ
unfolding is_blank drop_blanks
after_blanks [] = []
after_blanks (c ∷ s) = if is_blank c then drop_blanks s else []

unfoldable pub has_newline : List ℕ → Bool
has_newline [] = false
has_newline (c ∷ s) = c == newline || has_newline s

-- readAndParse on a line that fgets gave
unfoldable pub read_and_parse : List ℕ → Result Line
unfolding take_word drop_word after_blanks has_newline
read_and_parse line = do
  refuse (not (has_newline line)) line_too_long
  let label = take_word line
  let s0 = after_blanks (drop_word line)
  let s1 = after_blanks (drop_word s0)
  let s2 = after_blanks (drop_word s1)
  let s3 = after_blanks (drop_word s2)
  ok (record {
    label = label;
    opcode = take_word s0;
    arg0 = take_word s1;
    arg1 = take_word s2;
    arg2 = take_word s3;
  })

unfoldable pub is_number : Name → Bool
is_number s = elim (scan_int s) [ none ↦ false | some _ ↦ true ]

-- A label of the line that the table has already; "" is no label.
unfoldable pub is_duplicate : List Name → Name → Bool
unfolding find_idx
is_duplicate labels [] = false
is_duplicate labels (c ∷ s) = elim (find_idx (c ∷ s) (max_label - 1) labels) [
  | none ↦ false
  | some _ ↦ true
]

-- The first pass: the labels of the lines, "" for a line that has none.
unfoldable pub first_pass : List Name → List (List ℕ) → Result (List Name)
unfolding read_and_parse is_duplicate
first_pass labels [] = ok labels
first_pass labels (line ∷ lines) = do
  p ← read_and_parse line
  refuse (ltb 6 (length p.label)) label_too_long
  refuse (is_duplicate labels p.label) duplicate_label
  first_pass (labels ++ p.label ∷ []) lines

-- What the chain of strcmp gives: the bits of the opcode and the type of the line.
pub data Kind : Type 0 where
  r_type : ℕ → Kind
  lw_sw : ℕ → Kind
  beq : Kind
  jalr : Kind
  o_type : ℕ → Kind
  fill : Kind

unfoldable pub kind_of : Name → Option Kind
unfolding same_text
kind_of op =
    if same_text op (codes "add")
    then some (r_type 0x0000_0000)
    else if same_text op (codes "nor")
    then some (r_type 0x0040_0000)
    else if same_text op (codes "lw")
    then some (lw_sw 0x0080_0000)
    else if same_text op (codes "sw")
    then some (lw_sw 0x00c0_0000)
    else if same_text op (codes "beq")
    then some beq
    else if same_text op (codes "jalr")
    then some jalr
    else if same_text op (codes "noop")
    then some (o_type 0x01c0_0000)
    else if same_text op (codes "halt")
    then some (o_type 0x0180_0000)
    else if same_text op (codes ".fill")
    then some fill
    else none

abbrev pub op_beq : ℕ
op_beq = 0x0100_0000

abbrev pub op_jalr : ℕ
op_jalr = 0x0140_0000

-- offset < -32768 || offset > 32767
unfoldable pub out_of_range : ℕ → Bool
unfolding slt
out_of_range w = slt w (2 ^ 32 - 2 ^ 15) || slt 0x7fff w

abbrev pub or_error : {A : Type 0} → Option A → AsmError → Result A
or_error none e = err e
or_error (some a) e = ok a

abbrev pub is_empty : Name → Bool
is_empty [] = true
is_empty (_ ∷ _) = false

-- r1 | r2 | offset, or'ed with the opcode
unfoldable pub assembled : ℕ → ℕ → ℕ → ℕ → ℕ
unfolding shl_w
assembled op a b offset = bit_or op (bit_or (bit_or (shl_w a 19) (shl_w b 16)) offset)

-- The value of arg2 in an I-type line: a number, or the address of a label.
unfoldable pub symbolic : Name → List Name → Result ℕ
unfolding is_number find_idx atoi
symbolic arg labels =
    if is_number arg
    then ok (atoi arg)
    else or_error (find_idx arg (max_label - 1) labels) unknown_label

-- One round of the second pass: the word that is stored in vm[pc]. `pc` is also the number of lines
-- that the pass has read. A .fill of an unknown label prints a message and stores -1.
unfoldable pub second_line : List Name → ℕ → Line → Kind → Result ℕ
unfolding out_of_range is_number
second_line labels pc p (r_type op) = do
  refuse (not (is_number p.arg0) || not (is_number p.arg1) || not (is_number p.arg2)) bad_r_args
  ok (assembled op (atoi p.arg0) (atoi p.arg1) (atoi p.arg2))
second_line labels pc p (lw_sw op) = do
  refuse (not (is_number p.arg0) || not (is_number p.arg1) || is_empty p.arg2) bad_i_args
  offset ← symbolic p.arg2 labels
  refuse (out_of_range offset) offset_range
  ok (assembled op (atoi p.arg0) (atoi p.arg1) offset)
second_line labels pc p beq = do
  refuse (not (is_number p.arg0) || not (is_number p.arg1) || is_empty p.arg2) bad_i_args
  target ← symbolic p.arg2 labels
  let offset = if is_number p.arg2 then target else sub_w target (pc + 1)
  refuse (out_of_range offset) offset_range
  ok (assembled op_beq (atoi p.arg0) (atoi p.arg1) (bit_and offset 0xffff))
second_line labels pc p jalr = do
  refuse (not (is_number p.arg0) || not (is_number p.arg1) || is_empty p.arg2) bad_j_args
  ok (bit_or op_jalr (bit_or (shl_w (atoi p.arg0) 19) (shl_w (pc + 1) 16)))
second_line labels pc p (o_type op) = ok (bit_or op 0)
second_line labels pc p fill =
    if is_number p.arg0
    then ok (bit_or 0 (atoi p.arg0))
    else elim (find_idx p.arg0 pc labels) [ none ↦ ok (2 ^ 32 - 1) | some a ↦ ok (bit_or 0 a) ]

unfoldable pub second_pass : List Name → ℕ → List (List ℕ) → Result (List ℕ)
second_pass labels pc [] = ok []
second_pass labels pc (line ∷ lines) = do
  p ← read_and_parse line
  k ← or_error (kind_of p.opcode) invalid_opcode
  w ← second_line labels pc p k
  ws ← second_pass labels (pc + 1) lines
  ok (w ∷ ws)

unfoldable pub assemble : List ℕ → Result (List ℕ)
unfolding first_pass second_pass second_line kind_of symbolic assembled file_lines atoi sub_w shl_w
assemble file = do labels ← first_pass [] (file_lines file); second_pass labels 0 (file_lines file)

-- What the last loop writes to the output file.
unfoldable pub write_out : List ℕ → List ℕ
unfolding show_int
write_out [] = []
write_out (w ∷ ws) = show_int w ++ newline ∷ write_out ws
