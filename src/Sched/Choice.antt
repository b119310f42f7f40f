-- ===== src/Sched/Choice.antt =====
-- The choice of the scheduler under MLFQ_SCHED.
use computer_science_project.Prelude.Words.{slt}
use computer_science_project.Prelude.{
  ℕ, zero, suc, ◌+◌, ◌^◌, ◌<◌, ◌≤◌, ◌≡◌, ◌≢◌, ◌⊎◌, inl, inr, refl, ap, sym, ◌∙◌, true, false, none,
  some, List, [], ◌∷◌, ◌==◌, arith, All, length, get_or, Bool-cases, ==-of_ne,
}
use computer_science_project.Sched.{Proc, no_proc, is_runnable}
use computer_science_project.Sched.Mlfq.{better, choose}

-- Levels and priorities are not negative as integers, and init is not runnable.
pub record IsPlain (p : Proc) : Type 0 where
  pub small_level : p.level < 2 ^ 31
  pub small_priority : p.priority < 2 ^ 31
  pub init_rests : is_runnable p ≡ true → p.pid ≢ 1

-- The first process is in a higher queue, or in the same one with no less priority.
abbrev pub Beats : Proc → Proc → Type 0
Beats t p = (t.level < p.level) ⊎ ((t.level ≡ p.level) × (p.priority ≤ t.priority))

abbrev pub Waits : Proc → Type 0
Waits p = (is_runnable p ≡ true) × (p.last_out ≡ false)

Beats-refl : (t : Proc) → Beats t t
Beats-refl t = inr (refl, omega arith)

Beats-trans : (t u v : Proc) → Beats t u → Beats u v → Beats t v
Beats-trans t u v (inl a) (inl b) = inl (omega arith)
Beats-trans t u v (inl a) (inr (e, b)) = inl (omega arith)
Beats-trans t u v (inr (e, a)) (inl b) = inl (omega arith)
Beats-trans t u v (inr (e, a)) (inr (f, b)) = inr (e ∙ f, omega arith)

-- One round of the loop, with a candidate t: the process that is looked at takes its place and beats it,
-- or the candidate stays, and beats the process if that waits for its turn.
better-cases :
    (i j : ℕ) (p t : Proc)
    → IsPlain p
    → IsPlain t
    → ((better i p (some (j, t)) ≡ some (i, p))
        × (is_runnable p ≡ true)
        × (p.last_out ≡ false)
        × Beats p t)
      ⊎ ((better i p (some (j, t)) ≡ some (j, t)) × (Waits p → Beats t p))
unfolding better
better-cases i j p t hp ht = elim (Bool-cases (is_runnable p)) [
  | inr f ↦ inr (ground arith, λ w. absurd (ground arith))
  | inl r ↦
      let other : (p.pid == 1) ≡ false = ==-of_ne p.pid 1 (hp.init_rests r) in
      elim (Bool-cases p.last_out) [
        | inl o ↦ inr (ground arith, λ w. absurd (ground arith))
        | inr o ↦ elim (Bool-cases (p.level == t.level)) [
          | inl e ↦ elim (Bool-cases (slt t.priority p.priority)) [
            | inl lt ↦ inl (ground arith, r, o, unfold slt in ground arith)
            | inr ge ↦ inr (ground arith, λ w. unfold slt in ground arith)
          ]
          | inr ne ↦ elim (Bool-cases (slt p.level t.level)) [
            | inl lt ↦ inl (ground arith, r, o, unfold slt in ground arith)
            | inr ge ↦ inr (ground arith, λ w. unfold slt in ground arith)
          ]
        ]
      ]
]

-- The first process is best of all in the list that wait for their turn.
abbrev pub IsBest : Proc → List Proc → Type 0
IsBest u procs =
    (m : ℕ) → m < length procs → Waits (get_or procs m no_proc) → Beats u (get_or procs m no_proc)

IsBest-cons :
    (u p : Proc) (procs : List Proc) → (Waits p → Beats u p) → IsBest u procs → IsBest u (p ∷ procs)
IsBest-cons u p procs h all zero lt = h
IsBest-cons u p procs h all (suc m) lt = all m (omega arith)

-- A candidate that is out of the last queue is the first runnable process of the list.
abbrev pub IsInTurn : ℕ → Proc → List Proc → Type 0
IsInTurn m u procs =
    (u.last_out ≡ false) ⊎ ((j : ℕ) → j < m → is_runnable (get_or procs j no_proc) ≡ false)

-- Where the loop ends that begins with the candidate t, the j-th: it is kept, or the candidate is an entry
-- of the list that has its turn. It beats t.
abbrev Keeps : ℕ → ℕ → Proc → List Proc → ℕ → Proc → Type 0
Keeps i j t procs k u =
    ((k ≡ j) × (u ≡ t))
    ⊎ ((m : ℕ) × (k ≡ i + m)
        × (m < length procs)
        × (get_or procs m no_proc ≡ u)
        × (u.last_out ≡ false))

Keeps-cons :
    (i j k : ℕ) (p t u : Proc) (procs : List Proc)
    → Keeps (i + 1) j t procs k u
    → Keeps i j t (p ∷ procs) k u
Keeps-cons i j k p t u procs (inl same) = inl same
Keeps-cons i j k p t u procs (inr (m, e, lt, at, turn)) =
    inr (suc m, omega (arith, e), omega arith, at, turn)

Keeps-here :
    (i j k : ℕ) (p t u : Proc) (procs : List Proc)
    → p.last_out ≡ false
    → Keeps (i + 1) i p procs k u
    → Keeps i j t (p ∷ procs) k u
Keeps-here i j k p t u procs turn (inl (e, same)) =
    inr (0, omega (arith, e), omega arith, sym same, ap (λ (q : Proc). q.last_out) same ∙ turn)
Keeps-here i j k p t u procs turn (inr (m, e, lt, at, later)) =
    inr (suc m, omega (arith, e), omega arith, at, later)

choose-from :
    (i j : ℕ) (t : Proc) (procs : List Proc)
    → All IsPlain procs
    → IsPlain t
    → is_runnable t ≡ true
    → (k : ℕ) × (u : Proc) × (choose i procs (some (j, t)) ≡ some (k, u))
      × (is_runnable u ≡ true)
      × Beats u t
      × IsBest u procs
      × Keeps i j t procs k u
unfolding choose
choose-from i j t [] all ht r =
    (j, t, refl, r, Beats-refl t, λ m lt. absurd (omega arith), inl (refl, refl))
choose-from i j t (p ∷ procs) all ht r = elim (better-cases i j p t all.0 ht) [
  | inl (e, rp, turn, beats) ↦
      let (k, u, c, ru, up, best, kept) = choose-from (i + 1) i p procs all.1 all.0 rp in
      (
        k,
        u,
        ap (choose (i + 1) procs) e ∙ c,
        ru,
        Beats-trans u p t up beats,
        IsBest-cons u p procs (λ w. up) best,
        Keeps-here i j k p t u procs turn kept,
      )
  | inr (e, stays) ↦
      let (k, u, c, ru, ut, best, kept) = choose-from (i + 1) j t procs all.1 ht r in
      (
        k,
        u,
        ap (choose (i + 1) procs) e ∙ c,
        ru,
        ut,
        IsBest-cons u p procs (λ w. Beats-trans u t p ut (stays w)) best,
        Keeps-cons i j k p t u procs kept,
      )
]

-- The k-th process, counted from i, is the entry u of the list, which has its turn.
abbrev pub IsEntry : ℕ → List Proc → ℕ → Proc → Type 0
IsEntry i procs k u =
    (m : ℕ) × (k ≡ i + m) × (m < length procs) × (get_or procs m no_proc ≡ u) × IsInTurn m u procs

Keeps-IsEntry :
    (i k : ℕ) (p u : Proc) (procs : List Proc)
    → Keeps (i + 1) i p procs k u
    → IsEntry i (p ∷ procs) k u
Keeps-IsEntry i k p u procs (inl (e, same)) =
    (0, omega (arith, e), omega arith, sym same, inr (λ j lt. absurd (omega arith)))
Keeps-IsEntry i k p u procs (inr (m, e, lt, at, turn)) =
    (suc m, omega (arith, e), omega arith, at, inl turn)

IsInTurn-cons :
    (m : ℕ) (p u : Proc) (procs : List Proc)
    → is_runnable p ≡ false
    → IsInTurn m u procs
    → IsInTurn (suc m) u (p ∷ procs)
IsInTurn-cons m p u procs f (inl turn) = inl turn
IsInTurn-cons m p u procs f (inr rest) = inr (next_rest p procs m f rest)
  where
    next_rest :
        (p : Proc) (procs : List Proc) (m : ℕ)
        → is_runnable p ≡ false
        → ((j : ℕ) → j < m → is_runnable (get_or procs j no_proc) ≡ false)
        → (j : ℕ) → j < suc m
        → is_runnable (get_or (p ∷ procs) j no_proc) ≡ false
    next_rest p procs m f rest zero lt = f
    next_rest p procs m f rest (suc j) lt = rest j (omega arith)

IsEntry-cons :
    (i k : ℕ) (p u : Proc) (procs : List Proc)
    → is_runnable p ≡ false
    → IsEntry (i + 1) procs k u
    → IsEntry i (p ∷ procs) k u
IsEntry-cons i k p u procs f (m, e, lt, at, turn) =
    (suc m, omega (arith, e), omega arith, at, IsInTurn-cons m p u procs f turn)

-- From a table in which init is not runnable and levels and priorities are below 2^31, the loop of
-- the MLFQ scheduler chooses none only if no process is runnable, and else an entry of the table,
-- with its index, that is runnable, such that each runnable process not marked as out of the last
-- queue is in a lower queue, or in the same queue with no greater priority; and if the chosen one is
-- marked so, no process before it in the table is runnable.
pub choose_lem :
    (i : ℕ) (procs : List Proc)
    → All IsPlain procs
    → ((choose i procs none ≡ none)
        × ((m : ℕ) → m < length procs → is_runnable (get_or procs m no_proc) ≡ false))
      ⊎ ((k : ℕ) × (u : Proc) × (choose i procs none ≡ some (k, u))
          × (is_runnable u ≡ true)
          × IsBest u procs
          × IsEntry i procs k u)
unfolding choose
choose_lem i [] all = inl (refl, λ m lt. absurd (omega arith))
choose_lem i (p ∷ procs) all = elim (Bool-cases (is_runnable p)) [
  | inl r ↦
      let e : better i p none ≡ some (i, p) = unfold better in ground arith in
      let (k, u, c, ru, up, best, kept) = choose-from (i + 1) i p procs all.1 all.0 r in
      inr (
        k,
        u,
        ap (choose (i + 1) procs) e ∙ c,
        ru,
        IsBest-cons u p procs (λ w. up) best,
        Keeps-IsEntry i k p u procs kept,
      )
  | inr f ↦
      let e : better i p none ≡ none = unfold better in ground arith in
      elim (choose_lem (i + 1) procs all.1) [
        | inl (c, rest) ↦ inl (ap (choose (i + 1) procs) e ∙ c, all_rest p procs f rest)
        | inr (k, u, c, ru, best, entry) ↦ inr (
          k,
          u,
          ap (choose (i + 1) procs) e ∙ c,
          ru,
          IsBest-cons u p procs (λ w. absurd (ground arith)) best,
          IsEntry-cons i k p u procs f entry,
        )
      ]
]
  where
    all_rest :
        (p : Proc) (procs : List Proc)
        → is_runnable p ≡ false
        → ((m : ℕ) → m < length procs → is_runnable (get_or procs m no_proc) ≡ false)
        → (m : ℕ) → m < length (p ∷ procs)
        → is_runnable (get_or (p ∷ procs) m no_proc) ≡ false
    all_rest p procs f rest zero lt = f
    all_rest p procs f rest (suc m) lt = rest m (omega arith)
