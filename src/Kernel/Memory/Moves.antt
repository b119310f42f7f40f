-- ===== src/Kernel/Memory/Moves.antt =====
-- What memmove, memset and memcmp of string.c do with memory.
use computer_science_project.Prelude.{
  ℕ, zero, suc, ◌+◌, ◌-◌, ◌*◌, ◌/◌, ◌%◌, ◌^◌, ◌<◌, ◌≤◌, ◌≡◌, ◌≢◌, ◌⊎◌, ◌↔◌, ◌∙◌, refl, ap, inl, inr,
  Bool, false, ◌&&◌, ◌==◌, ltb, leb, if◌then◌else◌, arith, Bool-cases, ℕ_discrete,
}
use computer_science_project.Prelude.Words.{sub_w}
use computer_science_project.Kernel.Memory.{
  Memory, store, move_down, move_up, memmove, stosb, store_word, stosl, four_times, memset, memcmp,
}

-- An address among the n from d on.
abbrev pub within : ℕ → ℕ → ℕ → Bool
within d n a = leb d a && ltb a (d + n)

-- Memory with the n bytes from s on copied to d at once.
abbrev pub copied : ℕ → ℕ → ℕ → Memory → Memory
copied d s n mem a = if within d n a then mem (s + (a - d)) else mem a

move_down_lem :
    (n s d : ℕ) (mem : Memory) (a : ℕ) → s < d → move_down n s d mem a ≡ copied d s n mem a
unfolding move_down
move_down_lem zero s d mem a lt = ground arith
move_down_lem (suc n) s d mem a lt =
    let rest = move_down_lem n s d (store (d + n) (mem (s + n)) mem) a lt in
    elim (ℕ_discrete a (d + n)) [
      | yes e ↦
          let same : mem (s + (a - d)) ≡ mem (s + n) = ap mem (omega arith) in
          ground (arith, rest, same)
      | no ne ↦ elim (Bool-cases (within d n a)) [
        | inl t ↦
            let off : (s + (a - d) == d + n) ≡ false = ground arith in ground (arith, rest, off)
        | inr f ↦ ground (arith, rest)
      ]
    ]

move_up_lem :
    (n s d : ℕ) (mem : Memory) (a : ℕ)
    → (d ≤ s) ⊎ (s + n ≤ d)
    → move_up n s d mem a ≡ copied d s n mem a
unfolding move_up
move_up_lem zero s d mem a apart = ground arith
move_up_lem (suc n) s d mem a apart =
    let rest = move_up_lem n (suc s) (suc d) (store d (mem s) mem) a (omega (arith, apart)) in
    elim (ℕ_discrete a d) [
      | yes e ↦
          let same : mem (s + (a - d)) ≡ mem s = ap mem (omega arith) in ground (arith, rest, same)
      | no ne ↦ elim (Bool-cases (within (suc d) n a)) [
        | inl t ↦
            let off : (suc s + (a - suc d) == d) ≡ false = ground arith in
            let same : mem (suc s + (a - suc d)) ≡ mem (s + (a - d)) = ap mem (ground arith) in
            ground (arith, rest, off, same)
        | inr f ↦ ground (arith, rest)
      ]
    ]

-- Memmove copies n bytes as if all were read before any is written, also where the regions overlap,
-- and changes no other byte.
pub memmove_lem : (d s n : ℕ) (mem : Memory) (a : ℕ) → memmove d s n mem a ≡ copied d s n mem a
unfolding memmove
memmove_lem d s n mem a = elim (Bool-cases (ltb s d && ltb d (s + n))) [
  | inl t ↦ rw t (move_down_lem n s d mem a (ground arith))
  | inr f ↦ rw f (move_up_lem n s d mem a (ground arith))
]

abbrev pub set_bytes : ℕ → ℕ → ℕ → Memory → Memory
set_bytes d c n mem a = if within d n a then c % 256 else mem a

stosb_lem : (n d c : ℕ) (mem : Memory) (a : ℕ) → stosb d c n mem a ≡ set_bytes d c n mem a
unfolding stosb
stosb_lem zero d c mem a = ground arith
stosb_lem (suc n) d c mem a =
    let rest = stosb_lem n (suc d) c (store d (c % 256) mem) a in ground (arith, rest)

four_bytes :
    (c : ℕ)
    → c < 256
    → (four_times c % 256 ≡ c)
      × (four_times c / 2 ^ 8 % 256 ≡ c)
      × (four_times c / 2 ^ 16 % 256 ≡ c)
      × (four_times c / 2 ^ 24 % 256 ≡ c)
four_bytes c lt = omega arith

stosl_lem :
    (n d c : ℕ) (mem : Memory) (a : ℕ)
    → stosl d (four_times (c % 256)) n mem a ≡ set_bytes d c (n * 4) mem a
unfolding stosl
stosl_lem zero d c mem a = ground arith
stosl_lem (suc n) d c mem a =
    let rest = stosl_lem n (d + 4) c (store_word d (four_times (c % 256)) mem) a in
    let bytes = four_bytes (c % 256) (omega arith) in ground (arith, rest, bytes)

-- Memset, by words or by bytes, makes the n bytes from dst on the low byte of c and leaves every
-- other byte as it was.
pub memset_lem : (d c n : ℕ) (mem : Memory) (a : ℕ) → memset d c n mem a ≡ set_bytes d c n mem a
unfolding memset
memset_lem d c n mem a = elim (Bool-cases (d % 4 == 0 && n % 4 == 0)) [
  | inl t ↦
      let whole : n / 4 * 4 ≡ n = ground arith in
      rw t (stosl_lem (n / 4) d c mem a ∙ ap (λ k. set_bytes d c k mem a) whole)
  | inr f ↦ rw f (stosb_lem n d c mem a)
]

sub_w-ne : (x y : ℕ) → x < 256 → y < 256 → x ≢ y → sub_w x y ≢ 0
unfolding sub_w
sub_w-ne x y lt_x lt_y ne h = absurd (omega arith)

front : (mem : Memory) (p q : ℕ) → mem (p + 0) ≡ mem (q + 0) → mem p ≡ mem q
front mem p q e =
    let left : p ≡ p + 0 = omega arith in
    let right : q + 0 ≡ q = omega arith in ap mem left ∙ e ∙ ap mem right

behind :
    (mem : Memory) (p q i : ℕ)
    → mem (p + suc i) ≡ mem (q + suc i)
    → mem (suc p + i) ≡ mem (suc q + i)
behind mem p q i e =
    let left : suc p + i ≡ p + suc i = omega arith in
    let right : q + suc i ≡ suc q + i = omega arith in ap mem left ∙ e ∙ ap mem right

at_or_behind :
    (mem : Memory) (p q i : ℕ)
    → mem p ≡ mem q
    → (0 < i → mem (suc p + (i - 1)) ≡ mem (suc q + (i - 1)))
    → mem (p + i) ≡ mem (q + i)
at_or_behind mem p q zero first later =
    let left : p + 0 ≡ p = omega arith in
    let right : q ≡ q + 0 = omega arith in ap mem left ∙ first ∙ ap mem right
at_or_behind mem p q (suc i) first later =
    let left : p + suc i ≡ suc p + (suc i - 1) = omega arith in
    let right : suc q + (suc i - 1) ≡ q + suc i = omega arith in
    ap mem left ∙ later (omega arith) ∙ ap mem right

-- memcmp
pub memcmp_lem :
    (n p q : ℕ) (mem : Memory)
    → ((a : ℕ) → mem a < 256)
    → (memcmp p q n mem ≡ 0) ↔ ((i : ℕ) → i < n → mem (p + i) ≡ mem (q + i))
unfolding memcmp
memcmp_lem zero p q mem bytes = (λ h i lt. absurd (omega arith), λ h. refl)
memcmp_lem (suc n) p q mem bytes = elim (Bool-cases (mem p == mem q)) [
  | inl t ↦
      let rest = memcmp_lem n (suc p) (suc q) mem bytes in
      let first : mem p ≡ mem q = ground arith in
      rw t (
        (λ h i lt. at_or_behind mem p q i first (λ pos. rest.0 h (i - 1) (omega arith))),
        λ h. rest.1 (λ i lt. behind mem p q i (h (suc i) (omega arith))),
      )
  | inr f ↦ rw f (
    (λ h i lt. absurd (sub_w-ne (mem p) (mem q) (bytes p) (bytes q) (ground arith) h)),
    λ h. absurd (ground (arith, front mem p q (h 0 (omega arith)))),
  )
]
