-- ===== src/Lc2k/SecondPass.antt =====
-- What the second pass of assemble.c stores, against what simulator.c reads back.
use computer_science_project.Prelude.Words.{IsWord, add_w, sub_w, shl_w}
use computer_science_project.Prelude.Text.{scan_int, atoi}
use computer_science_project.Prelude.Bits.{bit_and_ones, bit_or-zero}
use computer_science_project.Prelude.{
  ℕ, ◌+◌, ◌-◌, ◌*◌, ◌%◌, ◌^◌, ◌≤◌, ◌<◌, ◌≡◌, ap, ◌∙◌, ◌≢◌, none, some, List, [], arith, bit_and,
  bit_or, false, refl, ◌==◌, ==_refl, if◌then◌else◌,
}
use computer_science_project.Lc2k.Simulator.{State, reg_at, next, step, cvt, convert_num}
use computer_science_project.Lc2k.Semantics.{step-beq}
use mathlib.Core.Path.{ap₂}
use computer_science_project.Lc2k.Assembler.{
  Name, Line, ok, r_type, lw_sw, beq, jalr, fill, second_line, symbolic, find_idx, max_label,
  out_of_range, assembled, op_beq,
}
use computer_science_project.Lc2k.Labels.{find_idx-cut_off}
use computer_science_project.Lc2k.Encoding.{
  fields, cvt-assembled, cvt-assembled_negative, convert_num_lem,
}

-- A state of the simulator at line pc, with the word w in it.
abbrev pub at_line : State → ℕ → ℕ → State
at_line s pc w = record s { pc = pc; mem = λ i. if i == pc then w else s.mem i }

at_line-word : (s : State) (pc w : ℕ) → (at_line s pc w).mem pc ≡ w
at_line-word s pc w = rw (==_refl pc) refl

module _ (labels : List Name) (pc : ℕ) (p : Line) where
  -- Add and nor with three register numbers below 8: the simulator decodes the opcode and the
  -- registers of the line.
  pub second_line-r_type :
      (c a b d : ℕ)
      → c < 2
      → scan_int p.arg0 ≡ some a
      → scan_int p.arg1 ≡ some b
      → scan_int p.arg2 ≡ some d
      → a < 8
      → b < 8
      → d < 8
      → (w : ℕ) × (second_line labels pc p (r_type (c * 2 ^ 22)) ≡ ok w)
        × (cvt w ≡ fields c a b d d)
  unfolding second_line atoi
  second_line-r_type c a b d hc ea eb ed ha hb hd = (
    assembled (c * 2 ^ 22) a b d,
    ground arith,
    cvt-assembled c a b d (omega arith) ha hb (omega arith) ∙ ground arith,
  )

  runs_lw_sw :
      (op a b offset : ℕ)
      → scan_int p.arg0 ≡ some a
      → scan_int p.arg1 ≡ some b
      → p.arg2 ≢ []
      → symbolic p.arg2 labels ≡ ok offset
      → out_of_range offset ≡ false
      → second_line labels pc p (lw_sw op) ≡ ok (assembled op a b offset)
  unfolding second_line atoi
  runs_lw_sw op a b offset ea eb ne sym range = ground arith

  -- An I-type line with register numbers below 8 and an offset below 2^15: the simulator decodes
  -- opcode, registers and offset of the line.
  pub second_line-lw_sw :
      (c a b offset : ℕ)
      → c < 8
      → scan_int p.arg0 ≡ some a
      → scan_int p.arg1 ≡ some b
      → p.arg2 ≢ []
      → symbolic p.arg2 labels ≡ ok offset
      → a < 8
      → b < 8
      → offset < 2 ^ 15
      → (w : ℕ) × (second_line labels pc p (lw_sw (c * 2 ^ 22)) ≡ ok w)
        × (cvt w ≡ fields c a b (offset % 8) offset)
  unfolding out_of_range
  second_line-lw_sw c a b offset hc ea eb ne sym ha hb ho = (
    assembled (c * 2 ^ 22) a b offset,
    runs_lw_sw (c * 2 ^ 22) a b offset ea eb ne sym (ground arith),
    cvt-assembled c a b offset hc ha hb (omega arith),
  )

  -- lw or sw with a negative offset that the assembler accepts is stored with an opcode that reads
  -- as 7, noop.
  pub second_line-negative :
      (op a b offset : ℕ)
      → scan_int p.arg0 ≡ some a
      → scan_int p.arg1 ≡ some b
      → p.arg2 ≢ []
      → symbolic p.arg2 labels ≡ ok offset
      → IsWord op
      → IsWord offset
      → 2 ^ 32 - 2 ^ 15 ≤ offset
      → (w : ℕ) × (second_line labels pc p (lw_sw op) ≡ ok w) × ((cvt w).opcode ≡ 7)
  unfolding out_of_range
  second_line-negative op a b offset ea eb ne sym hop ho neg = (
    assembled op a b offset,
    runs_lw_sw op a b offset ea eb ne sym (ground arith),
    cvt-assembled_negative op a b offset hop ho neg,
  )

  beq_word : ℕ → ℕ → ℕ → ℕ
  beq_word a b t = assembled op_beq a b (bit_and (sub_w t (pc + 1)) 0xffff)

  beq_offset :
      (t : ℕ)
      → t < 2 ^ 15
      → pc + 1 < 2 ^ 15
      → add_w (add_w pc (convert_num (sub_w t (pc + 1) % 2 ^ 16))) 1 ≡ t
  unfolding add_w sub_w
  beq_offset t ht hp =
      let range : sub_w t (pc + 1) % 2 ^ 16 < 2 ^ 16 = omega arith in
      rw (convert_num_lem (sub_w t (pc + 1) % 2 ^ 16) range) (ground arith)

  -- beq with register numbers below 8 to a label at line t, in a line pc where both t and pc + 1 are
  -- below 2^15: the assembler stores a word with which the round of the simulator at line pc goes on
  -- at line t if the two registers are equal, and at line pc + 1 if not, and changes nothing else.
  pub second_line-beq :
      (a b t : ℕ)
      → scan_int p.arg0 ≡ some a
      → scan_int p.arg1 ≡ some b
      → p.arg2 ≢ []
      → scan_int p.arg2 ≡ none
      → find_idx p.arg2 (max_label - 1) labels ≡ some t
      → a < 8
      → b < 8
      → t < 2 ^ 15
      → pc + 1 < 2 ^ 15
      → (s : State)
      → (w : ℕ) × (second_line labels pc p beq ≡ ok w)
        × (step (at_line s pc w)
            ≡ next
                (record (at_line s pc w) { pc = if reg_at s a == reg_at s b then t else pc + 1 }))
  unfolding second_line symbolic beq_word sub_w atoi add_w
  second_line-beq a b t ea eb ne text found ha hb ht hp s =
      let offset = bit_and (sub_w t (pc + 1)) 0xffff in
      let low : offset ≡ sub_w t (pc + 1) % 2 ^ 16 = bit_and_ones 16 (sub_w t (pc + 1)) in
      let read = cvt-assembled 4 a b offset (omega arith) ha hb (omega arith) in
      let loaded = at_line-word s pc (beq_word a b t) in
      let target = ap (λ (o : ℕ). add_w (add_w pc (convert_num o)) 1) low ∙ beq_offset t ht hp in
      let after : add_w pc 1 ≡ pc + 1 = omega arith in
      (
        beq_word a b t,
        ground arith,
        step-beq (at_line s pc (beq_word a b t)) (omega arith) a b (offset % 8) offset
              (ap cvt loaded ∙ read)
            ∙ ap₂
                (λ (x y : ℕ). next (record (at_line s pc (beq_word a b t)) {
                  pc = if reg_at s a == reg_at s b then x else y;
                }))
                target after,
      )

  -- jalr stores the number of the next line, if that is below 8, where the simulator reads the
  -- second register.
  pub second_line-jalr :
      (a b : ℕ)
      → scan_int p.arg0 ≡ some a
      → scan_int p.arg1 ≡ some b
      → p.arg2 ≢ []
      → a < 8
      → pc + 1 < 8
      → (w : ℕ) × (second_line labels pc p jalr ≡ ok w) × (cvt w ≡ fields 5 a (pc + 1) 0 0)
  unfolding second_line atoi assembled
  second_line-jalr a b ea eb ne ha hp = (
    assembled (5 * 2 ^ 22) a (pc + 1) 0,
    ground (arith, bit_or-zero (bit_or (shl_w a 19) (shl_w (pc + 1) 16))),
    cvt-assembled 5 a (pc + 1) 0 (omega arith) ha hp (omega arith),
  )

  -- .fill of a label that stands in a later line, or in its own, stores -1.
  pub second_line-fill_forward :
      (k : ℕ)
      → scan_int p.arg0 ≡ none
      → find_idx p.arg0 (max_label - 1) labels ≡ some k
      → pc ≤ k
      → second_line labels pc p fill ≡ ok (2 ^ 32 - 1)
  unfolding second_line
  second_line-fill_forward k text found later =
      ground (arith, find_idx-cut_off p.arg0 (max_label - 1) pc labels k found later)
