-- ===== src/Kernel/Arguments/Accepted.antt =====
-- Which pointers and strings the kernel accepts from a system call.
use computer_science_project.Prelude.{
  ℕ, zero, suc, ◌+◌, ◌-◌, ◌%◌, ◌^◌, ◌<◌, ◌≤◌, ◌≡◌, ◌≢◌, ◌⊎◌, ◌∙◌, refl, ap, inl, inr, ◌||◌, none,
  some, ◌==◌, ltb, leb, arith, Bool-cases,
}
use computer_science_project.Kernel.Arguments.{
  Caller, int_at, fetchint, str_len, fetchstr, slot_of, argint, argptr, argstr,
}

-- The n bytes from a on lie in the memory of the process.
abbrev pub Inside : Caller → ℕ → ℕ → Type 0
Inside p a n = (a < p.sz) × (a + n ≤ p.sz)

fetchint_lem :
    (addr : ℕ) (p : Caller)
    → p.sz ≤ 2 ^ 31
    → ((fetchint addr p ≡ none) × ¬ (Inside p addr 4))
      ⊎ ((fetchint addr p ≡ some (int_at p.mem addr)) × Inside p addr 4)
unfolding fetchint
fetchint_lem addr p small = elim (Bool-cases (leb p.sz addr || ltb p.sz ((addr + 4) % 2 ^ 32))) [
  | inl t ↦ inl (rw t refl, λ inside. absurd (ground arith))
  | inr f ↦ inr (rw f refl, (ground arith, ground arith))
]

-- In a process of at most 2^31 bytes, argptr gives the pointer in the slot of the argument if the
-- slot, and size bytes from the pointer on, lie in the memory of the process and size is not
-- negative, and fails if not.
pub argptr_lem :
    (n size : ℕ) (p : Caller)
    → p.sz ≤ 2 ^ 31
    → let a = slot_of n p in
      ((argptr n size p ≡ none)
        × ¬ (Inside p a 4 × (size < 2 ^ 31) × Inside p (int_at p.mem a) size))
      ⊎ ((argptr n size p ≡ some (int_at p.mem a))
          × Inside p a 4
          × (size < 2 ^ 31)
          × Inside p (int_at p.mem a) size)
unfolding argptr argint
argptr_lem n size p small = elim (fetchint_lem (slot_of n p) p small) [
  | inl (e, out) ↦ inl (rw (argptr, e) refl, λ all. out all.0)
  | inr (e, inside) ↦
      let i = int_at p.mem (slot_of n p) in
      elim (Bool-cases (leb (2 ^ 31) size || leb p.sz i || ltb p.sz ((i + size) % 2 ^ 32))) [
        | inl t ↦ inl (rw (argptr, e, t) refl, λ all. absurd (ground (arith, all.1, all.2)))
        | inr f ↦ inr (rw (argptr, e, f) refl, inside, ground arith, (ground arith, ground arith))
      ]
]

-- A string of len bytes at a, with its NUL, in the k bytes from a on.
abbrev pub IsString : (ℕ → ℕ) → ℕ → ℕ → Type 0
IsString mem a len = (mem (a + len) ≡ 0) × ((j : ℕ) → j < len → mem (a + j) ≢ 0)

str_len_lem :
    (k a : ℕ) (mem : ℕ → ℕ)
    → ((str_len k a mem ≡ none) × ((j : ℕ) → j < k → mem (a + j) ≢ 0))
      ⊎ ((len : ℕ) × (str_len k a mem ≡ some len) × (len < k) × IsString mem a len)
unfolding str_len
str_len_lem zero a mem = inl (refl, λ j lt. absurd (omega arith))
str_len_lem (suc k) a mem = elim (Bool-cases (mem a == 0)) [
  | inl t ↦
      let here : mem (a + 0) ≡ mem a = ap mem (omega arith) in
      inr (0, rw t refl, omega arith, (here ∙ ground arith, λ j lt. absurd (omega arith)))
  | inr f ↦
      let here : mem a ≢ 0 = ground arith in
      elim (str_len_lem k (suc a) mem) [
        | inl (e, all) ↦ inl (rw (f, e) refl, λ j lt. from_next mem a k here all j lt)
        | inr (len, e, lt, is) ↦
            let next : mem (a + suc len) ≡ mem (suc a + len) = ap mem (omega arith) in
            inr (
              suc len,
              rw (f, e) refl,
              omega arith,
              (next ∙ is.0, λ j less. from_next mem a len here is.1 j less),
            )
      ]
]
  where
    from_next :
        (mem : ℕ → ℕ) (a k : ℕ)
        → mem a ≢ 0
        → ((j : ℕ) → j < k → mem (suc a + j) ≢ 0)
        → (j : ℕ) → j < suc k
        → mem (a + j) ≢ 0
    from_next mem a k here all zero lt =
        λ e. let same : mem a ≡ mem (a + 0) = ap mem (omega arith) in here (same ∙ e)
    from_next mem a k here all (suc j) lt = λ e.
        let same : mem (suc a + j) ≡ mem (a + suc j) = ap mem (omega arith) in
        all j (omega arith) (same ∙ e)

-- In a process of at most 2^31 bytes, argstr gives the pointer and the length of a string that ends
-- with a NUL in the memory of the process, and it fails only if there is no such string or the slot
-- of the argument is not in memory.
pub argstr_lem :
    (n : ℕ) (p : Caller)
    → p.sz ≤ 2 ^ 31
    → let a = slot_of n p in
      ((argstr n p ≡ none)
        × ((len : ℕ)
            → Inside p a 4
            → int_at p.mem a + len < p.sz
            → IsString p.mem (int_at p.mem a) len
            → ⊥))
      ⊎ ((len : ℕ) × (argstr n p ≡ some (int_at p.mem a, len))
          × Inside p a 4
          × (int_at p.mem a + len < p.sz)
          × IsString p.mem (int_at p.mem a) len)
unfolding argstr argint fetchstr
argstr_lem n p small = elim (fetchint_lem (slot_of n p) p small) [
  | inl (e, out) ↦ inl (rw (argstr, e) refl, λ len inside lt is. out inside)
  | inr (e, inside) ↦
      let i = int_at p.mem (slot_of n p) in
      elim (Bool-cases (leb p.sz i)) [
        | inl t ↦ inl (rw (argstr, e, t) refl, λ len ins lt is. absurd (ground arith))
        | inr f ↦ elim (str_len_lem (p.sz - i) i p.mem) [
          | inl (scanned, all) ↦
              inl (rw (argstr, e, f, scanned) refl, λ len ins lt is. all len (omega arith) is.0)
          | inr (len, scanned, lt, is) ↦
              inr (len, rw (argstr, e, f, scanned) refl, inside, ground arith, is)
        ]
      ]
]
