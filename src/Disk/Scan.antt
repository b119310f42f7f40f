-- ===== src/Disk/Scan.antt =====
-- The search of balloc of fs.c for a free block.
use computer_science_project.Prelude.{
  ℕ, zero, suc, ◌+◌, ◌-◌, ◌/◌, ◌%◌, ◌<◌, ◌≤◌, ◌≡◌, ◌⊎◌, ◌∙◌, refl, ap, sym, inl, inr, min, Bool,
  true, false, Option, none, some, List, ltb, arith, Bool-cases, ℕ_discrete, dec_lt,
}
use computer_science_project.Disk.{
  Store, bits_per_block, map_block, is_clear, set_bit, write_block, bzero, scan, balloc_from,
}

abbrev pub is_free : Store → ℕ → Bool
is_free s n = is_clear (s.block (map_block s n)) (n % bits_per_block)

scan_lem :
    (k bi : ℕ) (bytes : List ℕ)
    → ((scan k bi bytes ≡ none) × ((j : ℕ) → bi ≤ j → j < bi + k → is_clear bytes j ≡ false))
      ⊎ ((r : ℕ) × (scan k bi bytes ≡ some r)
          × (bi ≤ r)
          × (r < bi + k)
          × (is_clear bytes r ≡ true)
          × ((j : ℕ) → bi ≤ j → j < r → is_clear bytes j ≡ false))
unfolding scan
scan_lem zero bi bytes = inl (refl, λ j le lt. absurd (omega arith))
scan_lem (suc k) bi bytes = elim (Bool-cases (is_clear bytes bi)) [
  | inl t ↦ inr (bi, rw t refl, omega arith, omega arith, t, λ j le lt. absurd (omega arith))
  | inr f ↦ elim (scan_lem k (suc bi) bytes) [
    | inl (e, all) ↦ inl (rw f e, λ j le lt. first bi bytes j f (suc bi + k) le (omega arith) all)
    | inr (r, e, low, high, free, all) ↦
        inr (r, rw f e, omega arith, omega arith, free, λ j le lt. first bi bytes j f r le lt all)
  ]
]
  where
    first :
        (bi : ℕ) (bytes : List ℕ) (j : ℕ)
        → is_clear bytes bi ≡ false
        → (top : ℕ) → bi ≤ j
        → j < top
        → ((j : ℕ) → suc bi ≤ j → j < top → is_clear bytes j ≡ false)
        → is_clear bytes j ≡ false
    first bi bytes j f top le lt all = elim (ℕ_discrete j bi) [
      | yes e ↦ rw e f
      | no ne ↦ all j (omega arith) lt
    ]

-- What balloc leaves of the store when it takes block n.
abbrev pub allocated : ℕ → Store → Store
allocated n s =
    bzero n (write_block (map_block s n) (set_bit (s.block (map_block s n)) (n % bits_per_block)) s)

-- The first free block from b on is taken, or there is none.
abbrev pub IsTaken : ℕ → Store → Option (ℕ × Store) → Type 0
IsTaken b s o =
    ((o ≡ none) × ((n : ℕ) → b ≤ n → n < s.size → is_free s n ≡ false))
    ⊎ ((n : ℕ) × (o ≡ some (n, allocated n s))
        × (b ≤ n)
        × (n < s.size)
        × (is_free s n ≡ true)
        × ((m : ℕ) → b ≤ m → m < n → is_free s m ≡ false))

module _ (s : Store) (b bi : ℕ) (start : b % bits_per_block ≡ 0) (lt : bi < bits_per_block) where
  same_map : map_block s (b + bi) ≡ map_block s b
  same_map = let e : (b + bi) / bits_per_block ≡ b / bits_per_block = omega arith in rw e refl

  same_bit : (b + bi) % bits_per_block ≡ bi
  same_bit = omega arith

  is_free-in : is_free s (b + bi) ≡ is_clear (s.block (map_block s b)) bi
  is_free-in =
      ap (λ m. is_clear (s.block m) ((b + bi) % bits_per_block)) same_map
      ∙ ap (is_clear (s.block (map_block s b))) same_bit

  allocated-in :
      allocated (b + bi) s
      ≡ bzero (b + bi) (write_block (map_block s b) (set_bit (s.block (map_block s b)) bi) s)
  allocated-in =
      ap (λ m. bzero (b + bi) (write_block m (set_bit (s.block m) ((b + bi) % bits_per_block)) s))
        same_map
      ∙ ap
          (λ i.
            bzero (b + bi) (write_block (map_block s b) (set_bit (s.block (map_block s b)) i) s))
          same_bit

-- A block whose bit a scan has seen.
seen :
    (s : Store) (b n : ℕ) (v : Bool)
    → b % bits_per_block ≡ 0
    → b ≤ n
    → n < b + bits_per_block
    → is_clear (s.block (map_block s b)) (n - b) ≡ v
    → is_free s n ≡ v
seen s b n v start le lt e =
    let back : n ≡ b + (n - b) = omega arith in
    ap (is_free s) back ∙ is_free-in s b (n - b) start (omega arith) ∙ e

pub balloc_from-IsTaken :
    (fuel b : ℕ) (s : Store)
    → b % bits_per_block ≡ 0
    → s.size < b + fuel
    → IsTaken b s (balloc_from fuel b s)
unfolding balloc_from
balloc_from-IsTaken zero b s start enough = inl (refl, λ n le lt. absurd (omega arith))
balloc_from-IsTaken (suc fuel) b s start enough = elim (Bool-cases (ltb b s.size)) [
  | inr f ↦ inl (rw f refl, λ n le lt. absurd (ground arith))
  | inl t ↦ elim (scan_lem (min bits_per_block (s.size - b)) 0 (s.block (map_block s b))) [
    | inr (bi, e, low, high, free, all) ↦
        let small : bi < bits_per_block = omega arith in
        inr (
          b + bi,
          rw (t, e) (ap (λ x. some (b + bi, x)) (sym (allocated-in s b bi start small))),
          omega arith,
          omega arith,
          is_free-in s b bi start small ∙ free,
          λ m le lt.
              seen s b m false start le (omega arith) (all (m - b) (omega arith) (omega arith)),
        )
    | inl (e, all) ↦
        let here : (n : ℕ) → b ≤ n → n < b + bits_per_block → n < s.size → is_free s n ≡ false =
          λ n le lt in_size.
            seen s b n false start le lt (all (n - b) (omega arith) (omega arith)) in
        elim (balloc_from-IsTaken fuel (b + bits_per_block) s (omega arith) (omega arith)) [
          | inl (full, later) ↦ inl (
            rw (t, e) full,
            λ n le lt. elim (dec_lt n (b + bits_per_block)) [
              | yes near ↦ here n le near lt
              | no far ↦ later n (omega arith) lt
            ],
          )
          | inr (n, taken, low, high, free, later) ↦ inr (
            n,
            rw (t, e) taken,
            omega arith,
            high,
            free,
            λ m le lt. elim (dec_lt m (b + bits_per_block)) [
              | yes near ↦ here m le near (omega arith)
              | no far ↦ later m (omega arith) lt
            ],
          )
        ]
  ]
]
