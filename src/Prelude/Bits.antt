-- ===== src/Prelude/Bits.antt =====
-- Laws of `bit_and` and `bit_or` at variables, from the digit recursion that they stand for.
use Prim.Native.Nat.{
  ℕ, zero, suc, ◌+◌, ◌-◌, ◌*◌, ◌/◌, ◌%◌, ◌^◌, ◌≤◌, ◌<◌, min, max, bit_and, bit_or, digits, bitwise,
  bit_and-bitwise, bit_or-bitwise,
}
use mathlib.Core.Path.{◌≡◌, refl, ap, ◌∙◌}
use native.Mathlib.Omega.{arith}
use native.Mathlib.Nat.{
  le_refl, pow-suc, div-add-mod', mul_assoc, mul_comm, mod-lt, mul-add-mod_self_right, mod-eq_of_lt,
  div-div-eq-div-mul,
}

module _ (past : ℕ → ℕ) (op : ℕ → ℕ → ℕ) where
  -- Fuel beyond the first number changes nothing.
  enough_fuel : (k l x y : ℕ) → x ≤ k → x ≤ l → digits past op k x y ≡ digits past op l x y
  enough_fuel (suc k) (suc l) (suc x) y hk hl =
      rw (enough_fuel k l (suc x / 2) (y / 2) (omega arith) (omega arith))
  enough_fuel (suc k) (suc l) zero y hk hl = refl
  enough_fuel (suc k) zero (suc x) y hk hl = absurd (omega arith)
  enough_fuel (suc k) zero zero y hk hl = refl
  enough_fuel zero (suc l) (suc x) y hk hl = absurd (omega arith)
  enough_fuel zero (suc l) zero y hk hl = refl
  enough_fuel zero zero x y hk hl = refl

  lowest_digit :
      (x y : ℕ)
      → bitwise past op (suc x) y ≡ bitwise past op (suc x / 2) (y / 2) * 2 + op (suc x % 2) (y % 2)
  lowest_digit x y =
      omega (arith, enough_fuel x (suc x / 2) (suc x / 2) (y / 2) (omega arith) (le_refl _))

-- One equation for the lowest bit of each operation.
pub bit_and_step : (x y : ℕ) → bit_and x y ≡ bit_and (x / 2) (y / 2) * 2 + min (x % 2) (y % 2)
bit_and_step (suc x) y = simp bit_and-bitwise (lowest_digit (λ d. 0) min x y)
bit_and_step zero y = simp bit_and-bitwise (omega arith)

pub bit_or_step : (x y : ℕ) → bit_or x y ≡ bit_or (x / 2) (y / 2) * 2 + max (x % 2) (y % 2)
bit_or_step (suc x) y = simp bit_or-bitwise (lowest_digit (λ d. d) max x y)
bit_or_step zero y = simp bit_or-bitwise (omega arith)

pub zero-bit_or : (b : ℕ) → bit_or 0 b ≡ b
zero-bit_or b = simp bit_or-bitwise

bit_and-zero_below : (n a : ℕ) → a ≤ n → bit_and a 0 ≡ 0
bit_and-zero_below n zero h = refl
bit_and-zero_below zero (suc a) h = absurd (omega arith)
bit_and-zero_below (suc n) (suc a) h =
    omega (arith, bit_and_step (suc a) 0, bit_and-zero_below n (suc a / 2) (omega arith))

pub bit_and-zero : (a : ℕ) → bit_and a 0 ≡ 0
bit_and-zero a = bit_and-zero_below a a (le_refl a)

bit_or-zero_below : (n a : ℕ) → a ≤ n → bit_or a 0 ≡ a
bit_or-zero_below n zero h = refl
bit_or-zero_below zero (suc a) h = absurd (omega arith)
bit_or-zero_below (suc n) (suc a) h =
    omega (arith, bit_or_step (suc a) 0, bit_or-zero_below n (suc a / 2) (omega arith))

pub bit_or-zero : (a : ℕ) → bit_or a 0 ≡ a
bit_or-zero a = bit_or-zero_below a a (le_refl a)

-- Or of a multiple of a power of two and a number below the power is their sum.
pub bit_or-add : (k h l : ℕ) → l < 2 ^ k → bit_or (h * 2 ^ k) l ≡ h * 2 ^ k + l
bit_or-add zero h l lt =
    let e : l ≡ 0 = omega arith in rw e (omega (arith, bit_or-zero (h * 2 ^ 0)))
bit_or-add (suc k) h l lt = omega (
  arith,
  pow-suc 2 k,
  ap (λ (p : ℕ). h * p) (pow-suc 2 k),
  bit_or_step (h * 2 ^ suc k) l,
  ap (λ (a : ℕ). bit_or a (l / 2)) (half k h),
  bit_or-add k h (l / 2) (omega (arith, pow-suc 2 k)),
)
  where
    half : (k h : ℕ) → h * 2 ^ suc k / 2 ≡ h * 2 ^ k
    half k h = omega (arith, pow-suc 2 k, ap (λ (p : ℕ). h * p) (pow-suc 2 k))

pub bit_or-lt : (k a b : ℕ) → a < 2 ^ k → b < 2 ^ k → bit_or a b < 2 ^ k
bit_or-lt zero a b p q = let e : a ≡ 0 = omega arith in rw e (omega (arith, zero-bit_or b))
bit_or-lt (suc k) a b p q = omega (
  arith,
  pow-suc 2 k,
  bit_or_step a b,
  bit_or-lt k (a / 2) (b / 2) (omega (arith, pow-suc 2 k)) (omega (arith, pow-suc 2 k)),
)

pub bit_and-le : (k a b : ℕ) → a < 2 ^ k → bit_and a b ≤ a
bit_and-le zero a b p = let e : a ≡ 0 = omega arith in rw e (omega (arith, bit_and-bitwise 0 b))
bit_and-le (suc k) a b p = omega (
  arith,
  pow-suc 2 k,
  bit_and_step a b,
  bit_and-le k (a / 2) (b / 2) (omega (arith, pow-suc 2 k)),
)

pos_pow : (k : ℕ) → 0 < 2 ^ k
pos_pow zero = omega arith
pos_pow (suc k) = omega (arith, pow-suc 2 k, pos_pow k)

mod_double : (a p : ℕ) → 0 < p → a % (p * 2) ≡ a / 2 % p * 2 + a % 2
mod_double a p h =
    let e : a ≡ a / 2 / p * (p * 2) + (a / 2 % p * 2 + a % 2) =
      omega (arith, div-add-mod' (a / 2) p, div-add-mod' a 2, mul_assoc (a / 2 / p) p 2) in
    let small : a / 2 % p * 2 + a % 2 < p * 2 =
      omega (arith, mod-lt (a / 2) h, mod-lt a {m = 2} (omega arith)) in
    ap (λ (x : ℕ). x % (p * 2)) e
    ∙ (mul-add-mod_self_right (a / 2 / p) (p * 2) _ ∙ mod-eq_of_lt small)

-- And with a mask of k ones is the remainder by 2 ^ k.
pub bit_and_ones : (k a : ℕ) → bit_and a (2 ^ k - 1) ≡ a % 2 ^ k
bit_and_ones zero a = omega (arith, bit_and-zero a)
bit_and_ones (suc k) a = omega (
  arith,
  pow-suc 2 k,
  pos_pow k,
  bit_and_step a (2 ^ suc k - 1),
  ap (λ (b : ℕ). bit_and (a / 2) b) (half k),
  bit_and_ones k (a / 2),
  mod_double a (2 ^ k) (pos_pow k),
  ap (λ (p : ℕ). a % p) (pow-suc 2 k),
)
  where
    half : (k : ℕ) → (2 ^ suc k - 1) / 2 ≡ 2 ^ k - 1
    half k = omega (arith, pow-suc 2 k, pos_pow k)

-- And with a single bit is that bit.
pub bit_and_bit : (k a : ℕ) → bit_and a (2 ^ k) ≡ a / 2 ^ k % 2 * 2 ^ k
bit_and_bit zero a = omega (arith, bit_and_step a 1, bit_and-zero (a / 2))
bit_and_bit (suc k) a = rw (pow-suc 2 k ∙ mul_comm (2 ^ k) 2) (
    rw (← div-div-eq-div-mul a 2 (2 ^ k)) (
      omega (
        arith,
        bit_and_step a (2 * 2 ^ k),
        ap (λ (b : ℕ). bit_and (a / 2) b) (half (2 ^ k)),
        bit_and_bit k (a / 2),
      )))
  where
    half : (p : ℕ) → 2 * p / 2 ≡ p
    half p = omega arith

-- Or sets no bit back.
pub le-bit_or : (k a b : ℕ) → b < 2 ^ k → b ≤ bit_or a b
le-bit_or zero a b h = omega arith
le-bit_or (suc k) a b h =
    omega (
      arith,
      pow-suc 2 k,
      bit_or_step a b,
      le-bit_or k (a / 2) (b / 2) (omega (arith, pow-suc 2 k)),
    )

zero-bit_and : (b : ℕ) → bit_and 0 b ≡ 0
zero-bit_and b = simp bit_and-bitwise

and_comm : (n a b : ℕ) → a ≤ n → bit_and a b ≡ bit_and b a
and_comm n zero b h = rw (bit_and-zero b) (zero-bit_and b)
and_comm zero (suc a) b h = absurd (omega arith)
and_comm (suc n) (suc a) b h =
    rw
      (bit_and_step (suc a) b, bit_and_step b (suc a), and_comm n (suc a / 2) (b / 2) (omega arith))
      (omega arith)

pub bit_and_comm : (a b : ℕ) → bit_and a b ≡ bit_and b a
bit_and_comm a b = and_comm a a b (le_refl a)

pub pow-pos : (k : ℕ) → 0 < 2 ^ k
pow-pos zero = omega arith
pow-pos (suc k) = omega (arith, pow-suc 2 k, pow-pos k)
