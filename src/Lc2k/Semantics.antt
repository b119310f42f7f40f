-- ===== src/Lc2k/Semantics.antt =====
-- The instructions, one by one: what a round of simulator.c does where the word at the pc decodes to
-- given fields.
use computer_science_project.Prelude.Words.{add_w, nor_w}
use computer_science_project.Prelude.{ℕ, ◌<◌, ◌≡◌, refl, ◌∙◌, arith, set, if◌then◌else◌, ◌==◌}
use computer_science_project.Lc2k.Simulator.{
  Fields, State, reg_at, next, execute, step, cvt, convert_num, num_memory_words, load_into,
  store_reg,
}
use computer_science_project.Lc2k.Encoding.{fields}

module _ (s : State) (here : s.pc < num_memory_words) where
  step-decoded : (f : Fields) → cvt (s.mem s.pc) ≡ f → step s ≡ execute f s
  unfolding step
  step-decoded f e = rw e (ground arith)

  -- add and nor
  pub step-add :
      (a b d offset : ℕ)
      → cvt (s.mem s.pc) ≡ fields 0 a b d offset
      → step s
        ≡ next (record s { pc = add_w s.pc 1; reg = set s.reg d (add_w (reg_at s a) (reg_at s b)) })
  step-add a b d offset e = step-decoded _ e ∙ (unfold execute in refl)

  pub step-beq :
      (a b d offset : ℕ)
      → cvt (s.mem s.pc) ≡ fields 4 a b d offset
      → step s
        ≡ next (record s {
          pc =
              if reg_at s a == reg_at s b
              then add_w (add_w s.pc (convert_num offset)) 1
              else add_w s.pc 1;
        })
  step-beq a b d offset e = step-decoded _ e ∙ (unfold execute in ground arith)

  pub step-nor :
      (a b d offset : ℕ)
      → cvt (s.mem s.pc) ≡ fields 1 a b d offset
      → step s
        ≡ next (record s { pc = add_w s.pc 1; reg = set s.reg d (nor_w (reg_at s a) (reg_at s b)) })
  step-nor a b d offset e = step-decoded _ e ∙ (unfold execute in refl)

  pub step-lw :
      (a b d offset : ℕ)
      → cvt (s.mem s.pc) ≡ fields 2 a b d offset
      → convert_num (add_w (reg_at s a) offset) < num_memory_words
      → step s
        ≡ next (record s {
          pc = add_w s.pc 1;
          reg = set s.reg b (s.mem (convert_num (add_w (reg_at s a) offset)));
        })
  step-lw a b d offset e h = step-decoded _ e ∙ ground (arith, h, lw_lem a b d offset)
    where
      lw_lem :
          (a b d offset : ℕ)
          → execute (fields 2 a b d offset) s
            ≡ load_into s b (convert_num (add_w (reg_at s a) offset))
      lw_lem a b d offset = (unfold execute in refl)

  -- sw writes the register whose number is the address, or nothing that C promises.
  pub step-sw :
      (a b d offset : ℕ)
      → cvt (s.mem s.pc) ≡ fields 3 a b d offset
      → step s ≡ store_reg s (convert_num (add_w (reg_at s a) offset)) (reg_at s b)
  step-sw a b d offset e = step-decoded _ e ∙ (unfold execute in refl)
