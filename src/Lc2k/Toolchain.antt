-- ===== src/Lc2k/Toolchain.antt =====
-- assemble.c and simulator.c together: the file that one writes and the other loads.
use computer_science_project.Prelude.Text.{file_lines}
use computer_science_project.Prelude.{
  ℕ, ◌≤◌, ◌≡◌, List, [], ap, ◌∙◌, ◌+◌, arith, length, leb, if◌then◌else◌,
}
use computer_science_project.Lc2k.Simulator.{words, overrun, read_words, num_memory_words}
use computer_science_project.Lc2k.Assembler.{
  Name, Result, ok, err, ◌>>=◌, second_pass, first_pass, assemble, max_label, write_out,
}
use computer_science_project.Lc2k.Output.{read_words-write_out}
use computer_science_project.Lc2k.StoredWords.{second_pass-IsWord}

assemble_inv :
    (file : List ℕ) (out : List ℕ)
    → assemble file ≡ ok out
    → (labels : List Name) × (second_pass labels 0 (file_lines file) ≡ ok out)
assemble_inv file out h = on (first_pass [] (file_lines file)) h'
  where
    h' :
        (first_pass [] (file_lines file) >>= λ labels. second_pass labels 0 (file_lines file))
        ≡ ok out
    h' = (unfold assemble in h)

    on :
        (r : Result (List Name))
        → (r >>= λ labels. second_pass labels 0 (file_lines file)) ≡ ok out
        → (labels : List Name) × (second_pass labels 0 (file_lines file) ≡ ok out)
    on (ok labels) e = (labels, e)
    on (err x) e = cc

-- If assembling a source file of at most 987654 lines succeeds, there is one word for each line of
-- the source, and the simulator loads from the output file the words that the assembler computed, if
-- they are at most 65536, and else stores behind its memory.
pub assemble-read_words :
    (file out : List ℕ)
    → assemble file ≡ ok out
    → length (file_lines file) ≤ max_label
    → (read_words 0 (file_lines (write_out out))
        ≡ (if leb (length out) num_memory_words then words out else overrun))
      × (length out ≡ length (file_lines file))
assemble-read_words file out h small =
    let (labels, e) = assemble_inv file out h in
    let (ws, len) = second_pass-IsWord labels 0 (file_lines file) out e (omega arith) in
    let none_before : 0 + length out ≡ length out = omega arith in
    let load = λ (n : ℕ). if leb n num_memory_words then words out else overrun in
    (read_words-write_out 0 out ws (omega arith) ∙ ap load none_before, len)
