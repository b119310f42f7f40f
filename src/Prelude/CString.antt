-- ===== src/Prelude/CString.antt =====
-- C strings: strncmp and strncpy of the kernel's string.c, on arrays of bytes. A string that the
-- caller passes is the list of its bytes, with or without the NUL that ends it.
use computer_science_project.Prelude.Lists.{length}
use computer_science_project.Prelude.Tests.{◌==◌, if◌then◌else◌}
use Prim.Native.Nat.{ℕ, zero, suc, ◌≤◌}
use mathlib.Core.Path.{◌≡◌, refl, ap}
use mathlib.Core.Bool.{Bool, true, false}
use mathlib.Core.List.{List, [], ◌∷◌}
use native.Mathlib.Omega.{arith}

-- strncmp(s, t, n) == 0
unfoldable pub str_eq : ℕ → List ℕ → List ℕ → Bool
str_eq zero s t = true
str_eq (suc n) [] [] = true
str_eq (suc n) [] (d ∷ t) = d == 0
str_eq (suc n) (c ∷ s) [] = c == 0
str_eq (suc n) (c ∷ s) (d ∷ t) =
    let rest = str_eq n s t in if c == d then (if c == 0 then true else rest) else false

-- strncpy(dst, src, n): the array afterwards. Behind the end of `src` it writes NULs.
unfoldable pub strncpy : ℕ → List ℕ → List ℕ → List ℕ
strncpy zero dst src = dst
strncpy (suc n) [] src = []
strncpy (suc n) (d ∷ dst) [] = 0 ∷ strncpy n dst []
strncpy (suc n) (d ∷ dst) (c ∷ src) = c ∷ strncpy n dst (if c == 0 then [] else src)

-- What strncpy wrote compares equal, whatever the array held, if it has n bytes.
pub str_eq-strncpy :
    (n : ℕ) (dst src : List ℕ) → n ≤ length dst → str_eq n src (strncpy n dst src) ≡ true
unfolding str_eq strncpy
str_eq-strncpy zero dst src h = refl
str_eq-strncpy (suc n) [] src h = elim h [ ]
str_eq-strncpy (suc n) (d ∷ dst) [] h = refl
str_eq-strncpy (suc n) (d ∷ dst) (c ∷ src) h = ground (arith, str_eq-strncpy n dst src)

pub length-strncpy : (n : ℕ) (dst src : List ℕ) → length (strncpy n dst src) ≡ length dst
unfolding strncpy
length-strncpy zero dst src = refl
length-strncpy (suc n) [] src = refl
length-strncpy (suc n) (d ∷ dst) [] = ap suc (length-strncpy n dst [])
length-strncpy (suc n) (d ∷ dst) (c ∷ src) =
    ap suc (length-strncpy n dst (if c == 0 then [] else src))

pub str_eq_symm : (n : ℕ) (s t : List ℕ) → str_eq n s t ≡ str_eq n t s
unfolding str_eq
str_eq_symm zero s t = refl
str_eq_symm (suc n) [] [] = refl
str_eq_symm (suc n) [] (d ∷ t) = refl
str_eq_symm (suc n) (c ∷ s) [] = refl
str_eq_symm (suc n) (c ∷ s) (d ∷ t) = ground (arith, str_eq_symm n s t)

pub str_eq_trans :
    (n : ℕ) (s t u : List ℕ) → str_eq n s t ≡ true → str_eq n t u ≡ true → str_eq n s u ≡ true
unfolding str_eq
str_eq_trans zero s t u p q = refl
str_eq_trans (suc n) [] [] u p q = q
str_eq_trans (suc n) [] (d ∷ t) [] p q = refl
str_eq_trans (suc n) [] (d ∷ t) (e ∷ u) p q = ground arith
str_eq_trans (suc n) (c ∷ s) [] [] p q = p
str_eq_trans (suc n) (c ∷ s) [] (e ∷ u) p q = ground arith
str_eq_trans (suc n) (c ∷ s) (d ∷ t) [] p q = ground arith
str_eq_trans (suc n) (c ∷ s) (d ∷ t) (e ∷ u) p q = ground (arith, str_eq_trans n s t u)
