-- ===== src/Prelude/Text.antt =====
-- Text as lists of character codes, and what the programs use of the C library on it: `sscanf` with
-- %d, `atoi`, `fgets`, `printf` with %d. Files hold no NUL byte.
use Prim.Native.Char.{code}
use Prim.Native.String.{String}
use computer_science_project.Prelude.Words.{neg_w}
use computer_science_project.Prelude.{
  ℕ, zero, suc, ◌+◌, ◌-◌, ◌*◌, ◌/◌, ◌%◌, ◌^◌, Bool, true, false, ◌&&◌, ◌||◌, Option, none, some,
  List, [], ◌∷◌, ◌++◌, ltb, leb, ◌==◌, if◌then◌else◌,
}

abbrev pub codes : String → List ℕ
codes String.[] = []
codes (String.◌∷◌ c s) = code c ∷ codes s

abbrev pub newline : ℕ
newline = 10

-- isspace
unfoldable pub is_space : ℕ → Bool
is_space c = c == 32 || (leb 9 c && leb c 13)

unfoldable pub is_digit : ℕ → Bool
is_digit c = leb 48 c && leb c 57

unfoldable pub skip_space : List ℕ → List ℕ
unfolding is_space
skip_space [] = []
skip_space (c ∷ s) = if is_space c then skip_space s else c ∷ s

unfoldable pub starts_digit : List ℕ → Bool
unfolding is_digit
starts_digit [] = false
starts_digit (c ∷ s) = is_digit c

-- the value of the leading digits
unfoldable pub dec_value : ℕ → List ℕ → ℕ
unfolding is_digit
dec_value acc [] = acc
dec_value acc (c ∷ s) = if is_digit c then dec_value (acc * 10 + (c - 48)) s else acc

unfoldable pub scan_digits : List ℕ → Option ℕ
unfolding starts_digit dec_value
scan_digits s = if starts_digit s then some (dec_value 0 s % 2 ^ 32) else none

abbrev pub negated : Option ℕ → Option ℕ
negated none = none
negated (some v) = some (neg_w v)

unfoldable pub scan_signed : List ℕ → Option ℕ
unfolding scan_digits neg_w
scan_signed [] = none
scan_signed (c ∷ s) =
    if c == b'-'
    then negated (scan_digits s)
    else if c == b'+'
    then scan_digits s
    else scan_digits (c ∷ s)

-- sscanf(s, "%d", …): the word that is stored, or `none` where nothing is
unfoldable pub scan_int : List ℕ → Option ℕ
unfolding scan_signed skip_space
scan_int s = scan_signed (skip_space s)

abbrev pub or_zero : Option ℕ → ℕ
or_zero none = 0
or_zero (some v) = v

unfoldable pub atoi : List ℕ → ℕ
unfolding scan_int
atoi s = or_zero (scan_int s)

-- The lines that fgets(line, 1000, f) gives until the end of the file. `room` counts the
-- characters that the line still takes, `cur` is what it holds.
abbrev pub last_line : List ℕ → List (List ℕ)
last_line [] = []
last_line (c ∷ cur) = (c ∷ cur) ∷ []

unfoldable pub lines_from : ℕ → List ℕ → List ℕ → List (List ℕ)
lines_from room cur [] = last_line cur
lines_from room cur (c ∷ s) = elim (c == newline || leb room 1) [
  | true ↦ (cur ++ c ∷ []) ∷ lines_from 999 [] s
  | false ↦ lines_from (room - 1) (cur ++ c ∷ []) s
]

unfoldable pub file_lines : List ℕ → List (List ℕ)
unfolding lines_from
file_lines s = lines_from 999 [] s

-- The decimal digits of n in front of `rest`; n / 10 falls, so n rounds are enough.
unfoldable pub digits_onto : ℕ → ℕ → List ℕ → List ℕ
digits_onto zero n rest = rest
digits_onto (suc f) n rest =
    let more = digits_onto f (n / 10) ((48 + n % 10) ∷ rest) in
    if ltb n 10 then (48 + n) ∷ rest else more

-- printf("%d", w)
unfoldable pub show_int : ℕ → List ℕ
unfolding digits_onto
show_int w =
    if ltb w (2 ^ 31)
    then digits_onto (suc w) w []
    else b'-' ∷ digits_onto (suc (2 ^ 32 - w)) (2 ^ 32 - w) []

-- The file of the given lines.
abbrev pub file_of : List String → List ℕ
file_of [] = []
file_of (l ∷ ls) = codes l ++ newline ∷ file_of ls
