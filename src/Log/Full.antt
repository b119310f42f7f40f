-- ===== src/Log/Full.antt =====
-- Three operations of ten writes each fill the log of log.c.
use computer_science_project.Prelude.{
  ℕ, zero, suc, ◌+◌, ◌<◌, ◌≤◌, ◌≡◌, refl, ap, ◌∙◌, false, none, some, List, [], ◌∷◌, ◌++◌, length,
  length-append, arith, All, All-append, ==-of_ne,
}
use mathlib.Core.Path.{subst}
use computer_science_project.Log.{Log, log_size, begin_op, absorb, log_write}
use computer_science_project.Log.Space.{
  Reaches, none_yet, then_step, begins, writes, log_write-room, log_write-full,
}

-- The log after boot, with the size that mkfs.c gives it.
abbrev pub booted : Log
booted = record { start = 2; size = log_size; outstanding = 0; committing = false; lh = [] }

-- The numbers below m.
abbrev pub numbers : ℕ → List ℕ
numbers zero = []
numbers (suc m) = numbers m ++ m ∷ []

length-numbers : (m : ℕ) → length (numbers m) ≡ m
length-numbers zero = refl
length-numbers (suc m) = length-append (numbers m) (m ∷ []) ∙ omega (arith, length-numbers m)

numbers_below : (m k : ℕ) → m ≤ k → All (λ c. c < k) (numbers m)
numbers_below zero k le = tt
numbers_below (suc m) k le =
    All-append (λ c. c < k) (numbers m) (m ∷ []) (numbers_below m k (omega arith)) (omega arith, tt)

absorb_new : (b : ℕ) (lh : List ℕ) → All (λ c. c < b) lh → absorb b lh ≡ lh ++ b ∷ []
unfolding absorb
absorb_new b [] all = refl
absorb_new b (c ∷ lh) all =
    rw (==-of_ne c b (λ e. absurd (omega (arith, all.0, e))))
      (ap (λ rest. c ∷ rest) (absorb_new b lh all.1))

-- Three operations in progress, and m different blocks written.
abbrev pub written_to : ℕ → Log
written_to m = record booted { outstanding = 3; lh = numbers m }

log_write-numbers :
    (m : ℕ) → m + 1 < log_size → log_write m (written_to m) ≡ some (written_to (suc m))
log_write-numbers m room =
    log_write-room m (written_to m) (omega (arith, length-numbers m)) refl (omega arith)
      (omega arith)
    ∙ ap (λ lh. some (record (written_to m) { lh = lh }))
        (absorb_new m (numbers m) (numbers_below m m (omega arith)))

-- An operation writes n of its n + r blocks.
writes_all :
    (front back : List ℕ) (n m r : ℕ)
    → m + n < log_size
    → Reaches booted [] (written_to m) (front ++ (n + r) ∷ back)
    → Reaches booted [] (written_to (m + n)) (front ++ r ∷ back)
writes_all front back zero m r room reached =
    let same : 0 + r ≡ r = omega arith in
    let here : m ≡ m + 0 = omega arith in
    subst (λ k. Reaches booted [] (written_to k) (front ++ r ∷ back)) here
      (subst (λ q. Reaches booted [] (written_to m) (front ++ q ∷ back)) same reached)
writes_all front back (suc n) m r room reached =
    let more : suc n + r ≡ suc (n + r) = omega arith in
    let there : suc m + n ≡ m + suc n = omega arith in
    let one = writes front back (n + r) m (log_write-numbers m (omega arith)) in
    subst (λ k. Reaches booted [] (written_to k) (front ++ r ∷ back)) there
      (writes_all front back n (suc m) r (omega arith) (
        then_step (subst (λ q. Reaches booted [] (written_to m) (front ++ q ∷ back)) more reached)
          one))

three_begun : Reaches booted [] (written_to 0) (10 ∷ 10 ∷ 10 ∷ [])
unfolding begin_op
three_begun =
    then_step
      (then_step (then_step none_yet (begins {t = record booted { outstanding = 1 }} [] refl))
        (begins {t = record booted { outstanding = 2 }} (10 ∷ []) refl))
      (begins (10 ∷ 10 ∷ []) refl)

-- The thirtieth block that the three operations may write is a panic.
pub thirtieth-panic :
    Reaches booted [] (written_to 29) (0 ∷ 0 ∷ 1 ∷ []) × (log_write 29 (written_to 29) ≡ none)
thirtieth-panic = (
  writes_all (0 ∷ 0 ∷ []) [] 9 20 1 (omega arith) (
      writes_all (0 ∷ []) (10 ∷ []) 10 10 0 (omega arith)
        (writes_all [] (10 ∷ 10 ∷ []) 10 0 0 (omega arith) three_begun)),
  log_write-full 29 (written_to 29) (omega (arith, length-numbers 29)) refl,
)
