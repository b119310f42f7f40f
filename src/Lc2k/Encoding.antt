-- ===== src/Lc2k/Encoding.antt =====
-- How the assembler's words (assemble.c) are read by the simulator's `cvt` (simulator.c).
use computer_science_project.Prelude.Bits.{bit_or-add, bit_and_ones, bit_and_bit, le-bit_or}
use computer_science_project.Prelude.Words.{IsWord, shl_w, sar22, sar19, sar16, bit_or-IsWord}
use computer_science_project.Prelude.{
  ℕ, ◌+◌, ◌-◌, ◌*◌, ◌/◌, ◌%◌, ◌^◌, ◌≤◌, ◌<◌, ◌≡◌, ◌∙◌, bit_or, arith, ltb, if◌then◌else◌,
}
use computer_science_project.Lc2k.Simulator.{Fields, cvt, convert_num}
use computer_science_project.Lc2k.Assembler.{assembled}

abbrev pub fields : ℕ → ℕ → ℕ → ℕ → ℕ → Fields
fields c a b d offset = record { opcode = c; r1 = a; r2 = b; rd = d; offset = offset }

-- The bit fields of a word, as quotients and remainders.
pub cvt-fields :
    (mc : ℕ)
    → IsWord mc
    → cvt mc ≡ fields (mc / 2 ^ 22 % 8) (mc / 2 ^ 19 % 8) (mc / 2 ^ 16 % 8) (mc % 8) (mc % 2 ^ 16)
unfolding cvt
cvt-fields mc h = ground (
  arith,
  bit_and_ones 3 (sar22 mc),
  bit_and_ones 3 (sar19 mc),
  bit_and_ones 3 (sar16 mc),
  bit_and_ones 3 mc,
  bit_and_ones 16 mc,
)

-- The 16-bit sign extension.
pub convert_num_lem :
    (n : ℕ) → n < 2 ^ 16 → convert_num n ≡ (if ltb n (2 ^ 15) then n else n + (2 ^ 32 - 2 ^ 16))
unfolding convert_num
convert_num_lem n h = ground (arith, bit_and_bit 15 n)

-- In range, the fields of a word do not overlap.
pub assembled-eq :
    (c a b offset : ℕ)
    → a < 8
    → b < 8
    → offset < 2 ^ 16
    → assembled (c * 2 ^ 22) a b offset ≡ c * 2 ^ 22 + (a * 2 ^ 19 + (b * 2 ^ 16 + offset))
unfolding assembled shl_w
assembled-eq c a b offset ha hb ho =
    let ea : a * 2 ^ 19 % 2 ^ 32 ≡ a * 2 ^ 19 = omega arith in
    let eb : b * 2 ^ 16 % 2 ^ 32 ≡ b * 2 ^ 16 = omega arith in
    let regs : bit_or (a * 2 ^ 19) (b * 2 ^ 16) ≡ (a * 8 + b) * 2 ^ 16 =
      omega (arith, bit_or-add 19 a (b * 2 ^ 16) (omega arith)) in
    let low : bit_or ((a * 8 + b) * 2 ^ 16) offset ≡ a * 2 ^ 19 + (b * 2 ^ 16 + offset) =
      omega (arith, bit_or-add 16 (a * 8 + b) offset ho) in
    rw (ea, eb, regs, low) (bit_or-add 22 c (a * 2 ^ 19 + (b * 2 ^ 16 + offset)) (omega arith))

pub cvt-assembled :
    (c a b offset : ℕ)
    → c < 8
    → a < 8
    → b < 8
    → offset < 2 ^ 16
    → cvt (assembled (c * 2 ^ 22) a b offset) ≡ fields c a b (offset % 8) offset
cvt-assembled c a b offset hc ha hb ho =
    let w = c * 2 ^ 22 + (a * 2 ^ 19 + (b * 2 ^ 16 + offset)) in
    rw (assembled-eq c a b offset ha hb ho) (cvt-fields w (omega arith) ∙ ground arith)

pub assembled-IsWord :
    (op a b offset : ℕ) → IsWord op → IsWord offset → IsWord (assembled op a b offset)
unfolding assembled shl_w
assembled-IsWord op a b offset h k = bit_or-IsWord op _ h (
    bit_or-IsWord _ offset
      (bit_or-IsWord (a * 2 ^ 19 % 2 ^ 32) (b * 2 ^ 16 % 2 ^ 32) (omega arith) (omega arith)) k)

-- A negative offset that is not masked sets every bit above it.
pub cvt-assembled_negative :
    (op a b offset : ℕ)
    → IsWord op
    → IsWord offset
    → 2 ^ 32 - 2 ^ 15 ≤ offset
    → (cvt (assembled op a b offset)).opcode ≡ 7
unfolding assembled
cvt-assembled_negative op a b offset h k neg =
    let inner = bit_or (shl_w a 19) (shl_w b 16) in
    let w = assembled-IsWord op a b offset h k in
    let inner_word = bit_or-IsWord inner offset (regs_word) k in
    rw (cvt-fields _ w) (
      omega
        (arith, le-bit_or 32 inner offset k, le-bit_or 32 op (bit_or inner offset) inner_word, w))
  where
    regs_word : IsWord (bit_or (shl_w a 19) (shl_w b 16))
    regs_word = bit_or-IsWord _ _ (omega arith) (omega arith)
