-- ===== src/Lc2k/StoredWords.antt =====
-- The second pass of assemble.c stores words of 32 bits.
use computer_science_project.Prelude.Bits.{bit_and_ones}
use computer_science_project.Prelude.Words.{
  IsWord, neg_w, sub_w, shl_w, shl_w-IsWord, bit_or-IsWord,
}
use computer_science_project.Prelude.Text.{
  scan_digits, scan_signed, scan_int, skip_space, atoi, or_zero, negated,
}
use computer_science_project.Prelude.{
  ℕ, suc, ◌+◌, ◌-◌, ◌^◌, ◌≤◌, ◌<◌, ◌≡◌, refl, ap, Option, none, some, List, [], ◌∷◌, arith, bit_and,
  bit_or, Bool, true, false, not, ◌||◌, if◌then◌else◌, All, length, on_if, ◌==◌,
}
use computer_science_project.Lc2k.Assembler.{
  Name, Line, Result, ok, err, ◌>>=◌, Kind, r_type, lw_sw, beq, jalr, o_type, fill, kind_of,
  second_line, second_pass, is_number, is_empty, out_of_range, op_beq, op_jalr, bad_i_args,
  offset_range, invalid_opcode, symbolic, AsmError, refuse, ◌>>◌, unknown_label, find_idx,
  max_label, assembled, read_and_parse, or_error,
}
use computer_science_project.Lc2k.Labels.{find_idx_sound, IsFirst}
use computer_science_project.Lc2k.Encoding.{assembled-IsWord}

abbrev IsWord? : Option ℕ → Type 0
IsWord? none = Unit
IsWord? (some v) = IsWord v

scan_digits-IsWord : (s : List ℕ) → IsWord? (scan_digits s)
unfolding scan_digits
scan_digits-IsWord s = ground arith

negated-IsWord : (o : Option ℕ) → IsWord? (negated o)
unfolding neg_w
negated-IsWord none = tt
negated-IsWord (some v) = omega arith

scan_signed-IsWord : (s : List ℕ) → IsWord? (scan_signed s)
unfolding scan_signed
scan_signed-IsWord [] = tt
scan_signed-IsWord (c ∷ s) =
    on_if IsWord? (c == b'-') (negated-IsWord (scan_digits s))
      (on_if IsWord? (c == b'+') (scan_digits-IsWord s) (scan_digits-IsWord (c ∷ s)))

atoi-IsWord : (s : List ℕ) → IsWord (atoi s)
unfolding atoi scan_int
atoi-IsWord s = word_of (scan_signed (skip_space s)) (scan_signed-IsWord (skip_space s))
  where
    word_of : (o : Option ℕ) → IsWord? o → IsWord (or_zero o)
    word_of none h = omega arith
    word_of (some v) h = h

-- Every word that the pass stores is one.
abbrev Stores : (ℕ → Type 0) → Result ℕ → Type 0
Stores P (ok w) = P w
Stores P (err e) = Unit

-- An I-type line: a check of the line, a value, a check of the value, a word.
Stores-line :
    (b : Bool) (e x : AsmError) (r : Result ℕ) (t : ℕ → Bool) (g : ℕ → ℕ)
    → Stores IsWord r
    → ((w : ℕ) → IsWord w → IsWord (g w))
    → Stores IsWord (refuse b e >> (r >>= λ w. refuse (t w) x >> ok (g w)))
Stores-line true e x r t g h f = tt
Stores-line false e x (err y) t g h f = tt
Stores-line false e x (ok w) t g h f = checked (t w)
  where
    checked : (b : Bool) → Stores IsWord (refuse b x >> ok (g w))
    checked true = tt
    checked false = f w h

symbolic-IsWord : (arg : Name) (labels : List Name) → Stores IsWord (symbolic arg labels)
unfolding symbolic
symbolic-IsWord arg labels =
    on_if (Stores IsWord) (is_number arg) (atoi-IsWord arg)
      (found (find_idx arg (max_label - 1) labels) (find_idx_sound arg (max_label - 1) labels))
  where
    found :
        (o : Option ℕ)
        → ((k : ℕ) → o ≡ some k → (k < max_label - 1) × IsFirst arg labels k)
        → Stores IsWord (or_error o unknown_label)
    found none h = tt
    found (some k) h = omega (arith, (h k refl).0)

abbrev KindWord : Kind → Type 0
KindWord (r_type op) = IsWord op
KindWord (lw_sw op) = IsWord op
KindWord (o_type op) = IsWord op
KindWord _ = Unit

second_line-IsWord :
    (labels : List Name) (pc : ℕ) (p : Line) (k : Kind)
    → KindWord k
    → pc < max_label
    → Stores IsWord (second_line labels pc p k)
unfolding second_line
second_line-IsWord labels pc p (r_type op) h small =
    ground
      (arith, assembled-IsWord op (atoi p.arg0) (atoi p.arg1) (atoi p.arg2) h (atoi-IsWord p.arg2))
second_line-IsWord labels pc p (lw_sw op) h small =
    Stores-line (not (is_number p.arg0) || not (is_number p.arg1) || is_empty p.arg2) bad_i_args
      offset_range (symbolic p.arg2 labels) out_of_range (assembled op (atoi p.arg0) (atoi p.arg1))
      (symbolic-IsWord p.arg2 labels)
      (λ w hw. assembled-IsWord op (atoi p.arg0) (atoi p.arg1) w h hw)
second_line-IsWord labels pc p beq h small =
    let offset = λ (w : ℕ). if is_number p.arg2 then w else sub_w w (pc + 1) in
    Stores-line (not (is_number p.arg0) || not (is_number p.arg1) || is_empty p.arg2) bad_i_args
      offset_range (symbolic p.arg2 labels) (λ w. out_of_range (offset w))
      (λ w. assembled op_beq (atoi p.arg0) (atoi p.arg1) (bit_and (offset w) 0xffff))
      (symbolic-IsWord p.arg2 labels)
      (λ w hw.
        assembled-IsWord op_beq (atoi p.arg0) (atoi p.arg1) _ (omega arith)
          (omega (arith, bit_and_ones 16 (offset w))))
second_line-IsWord labels pc p jalr h small = ground (
  arith,
  bit_or-IsWord op_jalr (bit_or (shl_w (atoi p.arg0) 19) (shl_w (pc + 1) 16)) (omega arith)
      (bit_or-IsWord _ _ (shl_w-IsWord (atoi p.arg0) 19) (shl_w-IsWord (pc + 1) 16)),
)
second_line-IsWord labels pc p (o_type op) h small = bit_or-IsWord op 0 h (omega arith)
second_line-IsWord labels pc p fill h small =
    on_if (Stores IsWord) (is_number p.arg0)
      (bit_or-IsWord 0 (atoi p.arg0) (omega arith) (atoi-IsWord p.arg0))
      (found (find_idx p.arg0 pc labels) (find_idx_sound p.arg0 pc labels))
  where
    found :
        (o : Option ℕ)
        → ((k : ℕ) → o ≡ some k → (k < pc) × IsFirst p.arg0 labels k)
        → Stores IsWord (elim o [ none ↦ ok (2 ^ 32 - 1) | some a ↦ ok (bit_or 0 a) ])
    found none h = omega arith
    found (some k) h = bit_or-IsWord 0 k (omega arith) (omega (arith, (h k refl).0))

abbrev KindWord? : Option Kind → Type 0
KindWord? none = Unit
KindWord? (some k) = KindWord k

kind_of-KindWord : (op : Name) → KindWord? (kind_of op)
unfolding kind_of
kind_of-KindWord op = ground arith

second_pass_inv :
    (labels : List Name) (pc : ℕ) (line : List ℕ) (lines : List (List ℕ)) (out : List ℕ)
    → second_pass labels pc (line ∷ lines) ≡ ok out
    → (p : Line) × (k : Kind) × (w : ℕ) × (ws : List ℕ) × (kind_of p.opcode ≡ some k)
      × (second_line labels pc p k ≡ ok w)
      × (second_pass labels (pc + 1) lines ≡ ok ws)
      × (out ≡ w ∷ ws)
second_pass_inv labels pc line lines out h = on (read_and_parse line) (unfold second_pass in h)
  where
    with_words :
        (p : Line) (k : Kind) (w : ℕ) (r : Result (List ℕ))
        → (r >>= λ ws. ok (w ∷ ws)) ≡ ok out
        → (ws : List ℕ) × (r ≡ ok ws) × (out ≡ w ∷ ws)
    with_words p k w (ok ws) e = (ws, refl, ground arith)
    with_words p k w (err x) e = cc

    with_word :
        (p : Line) (k : Kind) (r : Result ℕ)
        → (r >>= λ w. second_pass labels (pc + 1) lines >>= λ ws. ok (w ∷ ws)) ≡ ok out
        → (w : ℕ) × (ws : List ℕ) × (r ≡ ok w)
          × (second_pass labels (pc + 1) lines ≡ ok ws)
          × (out ≡ w ∷ ws)
    with_word p k (ok w) e =
        let (ws, a, b) = with_words p k w (second_pass labels (pc + 1) lines) e in
        (w, ws, refl, a, b)
    with_word p k (err x) e = cc

    with_kind :
        (p : Line) (o : Option Kind)
        → (or_error o invalid_opcode >>= λ k. second_line labels pc p k >>= λ w.
            second_pass labels (pc + 1) lines >>= λ ws. ok (w ∷ ws))
          ≡ ok out
        → (k : Kind) × (w : ℕ) × (ws : List ℕ) × (o ≡ some k)
          × (second_line labels pc p k ≡ ok w)
          × (second_pass labels (pc + 1) lines ≡ ok ws)
          × (out ≡ w ∷ ws)
    with_kind p (some k) e =
        let (w, ws, a, b, c) = with_word p k (second_line labels pc p k) e in
        (k, w, ws, refl, a, b, c)
    with_kind p none e = cc

    on :
        (r : Result Line)
        → (r >>= λ p. or_error (kind_of p.opcode) invalid_opcode >>= λ k.
            second_line labels pc p k >>= λ w.
            second_pass labels (pc + 1) lines >>= λ ws. ok (w ∷ ws))
          ≡ ok out
        → (p : Line) × (k : Kind) × (w : ℕ) × (ws : List ℕ) × (kind_of p.opcode ≡ some k)
          × (second_line labels pc p k ≡ ok w)
          × (second_pass labels (pc + 1) lines ≡ ok ws)
          × (out ≡ w ∷ ws)
    on (ok p) e =
        let (k, w, ws, a, b, c, d) = with_kind p (kind_of p.opcode) e in (p, k, w, ws, a, b, c, d)
    on (err x) e = cc

-- What the pass stores for each line is a word, and there is one for each line.
pub second_pass-IsWord :
    (labels : List Name) (pc : ℕ) (lines : List (List ℕ)) (out : List ℕ)
    → second_pass labels pc lines ≡ ok out
    → pc + length lines ≤ max_label
    → All IsWord out × (length out ≡ length lines)
second_pass-IsWord labels pc [] out h small =
    let e : [] ≡ out = (unfold second_pass in ground (arith, h)) in rw (← e) (tt, refl)
second_pass-IsWord labels pc (line ∷ lines) out h small =
    let (p, k, w, ws, ek, ew, rest, e) = second_pass_inv labels pc line lines out h in
    let (words', len) = second_pass-IsWord labels (pc + 1) lines ws rest (omega arith) in
    let kw : KindWord k = rw ek at (kind_of-KindWord p.opcode) in
    let first : IsWord w = rw ew at (second_line-IsWord labels pc p k kw (omega arith)) in
    rw e ((first, words'), ap suc len)
