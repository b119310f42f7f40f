-- ===== src/Lc2k/Output.antt =====
-- The file that assemble.c writes, read back by the loop of simulator.c.
use computer_science_project.Prelude.Words.{IsWord, neg_w}
use computer_science_project.Prelude.Text.{
  newline, dec_value, scan_digits, scan_int, lines_from, file_lines, digits_onto, show_int, negated,
}
use computer_science_project.Prelude.{
  ℕ, zero, suc, ◌+◌, ◌-◌, ◌*◌, ◌/◌, ◌%◌, ◌^◌, ◌≤◌, ◌<◌, ◌≡◌, refl, ap, sym, ◌∙◌, ◌≢◌, inl, inr,
  some, List, [], ◌∷◌, ◌++◌, arith, true, false, if◌then◌else◌, ◌||◌, leb, All, length, ltb, ◌==◌,
  Bool-cases,
}
use native.Mathlib.Nat.{pow-suc}
use mathlib.Core.List.{append_assoc}
use computer_science_project.Lc2k.Simulator.{
  words, overrun, Loaded, more_words, read_words, num_memory_words,
}
use computer_science_project.Lc2k.Assembler.{write_out}

digits_onto-append :
    (f n : ℕ) (rest t : List ℕ) → digits_onto f n rest ++ t ≡ digits_onto f n (rest ++ t)
unfolding digits_onto
digits_onto-append zero n rest t = refl
digits_onto-append (suc f) n rest t =
    ground (arith, digits_onto-append f (n / 10) ((48 + n % 10) ∷ rest) t)

dec_value-digit :
    (acc d : ℕ) (rest : List ℕ)
    → d < 10
    → dec_value acc ((48 + d) ∷ rest) ≡ dec_value (acc * 10 + d) rest
unfolding dec_value
dec_value-digit acc d rest h = let e : 48 + d - 48 ≡ d = omega arith in rw e (ground arith)

-- Reading the digits of n gives n, with what follows still to be read.
dec_value-digits_onto :
    (f n : ℕ) (rest : List ℕ) → n < f → dec_value 0 (digits_onto f n rest) ≡ dec_value n rest
unfolding digits_onto
dec_value-digits_onto zero n rest h = elim h [ ]
dec_value-digits_onto (suc f) n rest h = elim (Bool-cases (ltb n 10)) [
  | inl small ↦
      let e : 0 * 10 + n ≡ n = omega arith in
      rw small (dec_value-digit 0 n rest (ground arith) ∙ rw e)
  | inr large ↦
      let e : n / 10 * 10 + n % 10 ≡ n = omega arith in
      rw large (
        dec_value-digits_onto f (n / 10) ((48 + n % 10) ∷ rest) (ground arith)
        ∙ (dec_value-digit (n / 10) (n % 10) rest (omega arith) ∙ rw e))
]

-- A digit, so no newline, blank or sign.
abbrev IsDigit : ℕ → Type 0
IsDigit c = (48 ≤ c) × (c ≤ 57)

digits_onto-IsDigit :
    (f n : ℕ) (rest : List ℕ) → All IsDigit rest → All IsDigit (digits_onto f n rest)
unfolding digits_onto
digits_onto-IsDigit zero n rest h = h
digits_onto-IsDigit (suc f) n rest h =
    ground (arith, digits_onto-IsDigit f (n / 10) ((48 + n % 10) ∷ rest))

length-digits_onto :
    (f k n : ℕ) (rest : List ℕ)
    → n < 10 ^ suc k
    → length (digits_onto f n rest) ≤ suc k + length rest
unfolding digits_onto
length-digits_onto zero k n rest h = omega arith
length-digits_onto (suc f) zero n rest h = ground arith
length-digits_onto (suc f) (suc k) n rest h =
    ground (arith, pow-suc 10 (suc k), length-digits_onto f k (n / 10) ((48 + n % 10) ∷ rest))

-- `s` is a line of text that has room.
lines_from-line :
    (room : ℕ) (cur s rest : List ℕ)
    → All (λ c. c ≢ newline) s
    → length s < room
    → lines_from room cur (s ++ newline ∷ rest)
      ≡ (cur ++ (s ++ newline ∷ [])) ∷ lines_from 999 [] rest
unfolding lines_from
lines_from-line room cur [] rest h lt = refl
lines_from-line room cur (c ∷ s) rest h lt =
    let more : (c == newline || leb room 1) ≡ false = ground arith in
    rw (more, lines_from)
      (lines_from-line (room - 1) (cur ++ c ∷ []) s rest h.1 (omega arith)
        ∙ rw (append_assoc cur (c ∷ []) (s ++ newline ∷ [])))

digits_onto-first :
    (f n : ℕ) (rest : List ℕ)
    → n < f
    → (d : ℕ) × (more : List ℕ) × (digits_onto f n rest ≡ d ∷ more) × IsDigit d
unfolding digits_onto
digits_onto-first zero n rest h = elim h [ ]
digits_onto-first (suc f) n rest h = elim (Bool-cases (ltb n 10)) [
  | inl small ↦ (48 + n, rest, rw small, (omega arith, ground arith))
  | inr large ↦ rw large (digits_onto-first f (n / 10) ((48 + n % 10) ∷ rest) (ground arith))
]

scan_digits-digit :
    (d : ℕ) (more : List ℕ)
    → IsDigit d
    → scan_digits (d ∷ more) ≡ some (dec_value 0 (d ∷ more) % 2 ^ 32)
unfolding scan_digits
scan_digits-digit d more h = ground arith

dec_value-end : (n : ℕ) → dec_value n (newline ∷ []) ≡ n
unfolding dec_value
dec_value-end n = refl

scan_digits-digits_onto :
    (f n : ℕ) → n < f → scan_digits (digits_onto f n (newline ∷ [])) ≡ some (n % 2 ^ 32)
scan_digits-digits_onto f n h =
    let (d, more, e, dig) = digits_onto-first f n (newline ∷ []) h in
    ap scan_digits e
    ∙ (scan_digits-digit d more dig
        ∙ (ap (λ l. some (dec_value 0 l % 2 ^ 32)) (sym e)
            ∙ ap (λ (v : ℕ). some (v % 2 ^ 32))
                (dec_value-digits_onto f n (newline ∷ []) h ∙ dec_value-end n)))

scan_int-digit : (d : ℕ) (more : List ℕ) → IsDigit d → scan_int (d ∷ more) ≡ scan_digits (d ∷ more)
unfolding scan_int
scan_int-digit d more h = ground arith

scan_int-digits_onto :
    (f n : ℕ) → n < f → scan_int (digits_onto f n (newline ∷ [])) ≡ some (n % 2 ^ 32)
scan_int-digits_onto f n h =
    let (d, more, e, dig) = digits_onto-first f n (newline ∷ []) h in
    ap scan_int e
    ∙ (scan_int-digit d more dig ∙ (ap scan_digits (sym e) ∙ scan_digits-digits_onto f n h))

scan_int-minus :
    (s : List ℕ) (v : ℕ) → scan_digits s ≡ some v → scan_int (b'-' ∷ s) ≡ some (neg_w v)
unfolding scan_int
scan_int-minus s v h = ap negated h

-- %d of sscanf reads back every 32-bit word that %d of fprintf printed, with the newline behind it.
pub scan_int-show_int : (w : ℕ) → IsWord w → scan_int (show_int w ++ newline ∷ []) ≡ some w
unfolding show_int neg_w
scan_int-show_int w h = elim (Bool-cases (ltb w (2 ^ 31))) [
  | inl small ↦
      let e : w % 2 ^ 32 ≡ w = omega arith in
      rw small (
        ap scan_int (digits_onto-append (suc w) w [] (newline ∷ []))
        ∙ (scan_int-digits_onto (suc w) w (omega arith) ∙ rw e))
  | inr large ↦
      let n = 2 ^ 32 - w in
      let e : neg_w (n % 2 ^ 32) ≡ w = ground arith in
      rw large (
        ap (λ s. scan_int (b'-' ∷ s)) (digits_onto-append (suc n) n [] (newline ∷ []))
        ∙ (scan_int-minus (digits_onto (suc n) n (newline ∷ [])) (n % 2 ^ 32)
              (scan_digits-digits_onto (suc n) n (omega arith))
            ∙ rw e))
]

IsDigit-ne : (s : List ℕ) → All IsDigit s → All (λ c. c ≢ newline) s
IsDigit-ne [] h = tt
IsDigit-ne (c ∷ s) h = (λ e. omega arith, IsDigit-ne s h.1)

show_int-line :
    (w : ℕ) → IsWord w → All (λ c. c ≢ newline) (show_int w) × (length (show_int w) < 999)
unfolding show_int
show_int-line w h = elim (Bool-cases (ltb w (2 ^ 31))) [
  | inl small ↦ rw small (
    IsDigit-ne _ (digits_onto-IsDigit (suc w) w [] tt),
    omega (arith, length-digits_onto (suc w) 10 w []),
  )
  | inr large ↦
      let n = 2 ^ 32 - w in
      rw large (
        (λ e. omega arith, IsDigit-ne _ (digits_onto-IsDigit (suc n) n [] tt)),
        omega (arith, length-digits_onto (suc n) 10 n []),
      )
]

read_words-cons :
    (a w : ℕ) (line : List ℕ) (lines : List (List ℕ))
    → scan_int line ≡ some w
    → read_words a (line ∷ lines)
      ≡ (if ltb a num_memory_words then more_words w (read_words (a + 1) lines) else overrun)
unfolding read_words
read_words-cons a w line lines e = rw (read_words, e) refl

-- What the simulator makes of the words from address a on.
abbrev pub loaded : ℕ → List ℕ → Loaded
loaded a ws = if leb (a + length ws) num_memory_words then words ws else overrun

loaded_cons :
    (a w : ℕ) (ws : List ℕ)
    → a ≤ num_memory_words
    → (if ltb a num_memory_words then more_words w (loaded (a + 1) ws) else overrun)
      ≡ loaded a (w ∷ ws)
loaded_cons a w ws le = elim (Bool-cases (leb (a + 1 + length ws) num_memory_words)) [
  | inl t ↦
      let fits : leb (a + suc (length ws)) num_memory_words ≡ true = ground arith in
      let here : ltb a num_memory_words ≡ true = ground arith in rw (t, fits, here) refl
  | inr f ↦
      let over : leb (a + suc (length ws)) num_memory_words ≡ false = ground arith in
      elim (Bool-cases (ltb a num_memory_words)) [
        | inl here ↦ rw (f, over, here) refl
        | inr end ↦ rw (over, end) refl
      ]
]

cut_off :
    (a w : ℕ) (ws : List ℕ) (l m : Loaded)
    → l ≡ m
    → (if ltb a num_memory_words then more_words w l else overrun)
      ≡ (if ltb a num_memory_words then more_words w m else overrun)
cut_off a w ws l m e =
    ap (λ (k : Loaded). if ltb a num_memory_words then more_words w k else overrun) e

-- The simulator loads from the file that the assembler wrote the words that it was given, if they have
-- room in its memory.
pub read_words-write_out :
    (a : ℕ) (ws : List ℕ)
    → All IsWord ws
    → a ≤ num_memory_words
    → read_words a (file_lines (write_out ws)) ≡ loaded a ws
unfolding write_out file_lines
read_words-write_out a [] h le =
    let fits : leb (a + 0) num_memory_words ≡ true = ground arith in
    rw fits (unfold read_words lines_from in refl)
read_words-write_out a (w ∷ ws) h le =
    let (text, room) = show_int-line w h.0 in
    ap (read_words a) (lines_from-line 999 [] (show_int w) (write_out ws) text room)
    ∙ (read_words-cons a w (show_int w ++ newline ∷ []) _ (scan_int-show_int w h.0)
        ∙ elim (Bool-cases (ltb a num_memory_words)) [
          | inl t ↦
              cut_off a w ws _ (loaded (a + 1) ws)
                (read_words-write_out (a + 1) ws h.1 (ground arith))
              ∙ loaded_cons a w ws le
          | inr f ↦
              let over : leb (a + suc (length ws)) num_memory_words ≡ false = ground arith in
              rw (f, over) refl
        ])
