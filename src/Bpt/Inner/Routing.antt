-- ===== src/Bpt/Inner/Routing.antt =====
-- Where a search goes after an entry has been put into an inner page of bpt.c, and after a split.
use computer_science_project.Prelude.{
  ℕ, zero, suc, ◌<◌, ◌≤◌, ◌≡◌, ◌∙◌, refl, ap, sym, inl, inr, false, ◌&&◌, List, [], ◌∷◌, ◌++◌, ◌==◌,
  leb, if◌then◌else◌, get_or, take, drop, length, arith, Bool-cases, All,
}
use mathlib.Core.Path.{subst}
use computer_science_project.Bpt.{InterRecord, Page, child_from, child, cut}
use computer_science_project.Bpt.Inner.{
  internal_max, no_entry, insert_entry, insert_into_internal, split_internal,
}

-- The keys are in order, and no key is there twice.
abbrev pub IsOrdered : List InterRecord → Type 0
IsOrdered [] = Unit
IsOrdered (e ∷ b_f) = All (λ (x : InterRecord). e.key < x.key) b_f × IsOrdered b_f

-- The number of the child for a key, from 0 for the one before all entries.
abbrev pub which : ℕ → List InterRecord → ℕ
which key [] = 0
which key (e ∷ b_f) = if leb e.key key then suc (which key b_f) else 0

suc-suc : (a b : ℕ) → (suc a == suc b) ≡ (a == b)
suc-suc a b = ground arith

suc-zero : (a : ℕ) → (suc a == 0) ≡ false
suc-zero a = ground arith

zero-suc : (a : ℕ) → (0 == suc a) ≡ false
zero-suc a = ground arith

All-middle :
    (front : List InterRecord) (m : InterRecord) (back : List InterRecord)
    (P : InterRecord → Type 0)
    → All P (front ++ m ∷ back)
    → P m
All-middle [] m back P all = all.0
All-middle (x ∷ front) m back P all = All-middle front m back P all.1

insert_entry-child_from :
    (key left i : ℕ) (e : InterRecord) (b_f : List InterRecord)
    → i ≤ length b_f
    → IsOrdered (insert_entry i e b_f)
    → child_from key left (insert_entry i e b_f)
      ≡ (if which key b_f == i && leb e.key key then e.p_offset else child_from key left b_f)
unfolding child_from
insert_entry-child_from key left zero e [] le ordered = refl
insert_entry-child_from key left zero e (x ∷ b_f) le ordered = elim (Bool-cases (leb e.key key)) [
  | inl t ↦ elim (Bool-cases (leb x.key key)) [
    | inl u ↦ rw (t, u, suc-zero (which key b_f)) refl
    | inr f ↦ rw (t, f) refl
  ]
  | inr f ↦ let above : leb x.key key ≡ false = ground (arith, ordered.0.0) in rw (f, above) refl
]
insert_entry-child_from key left (suc i) e [] le ordered = absurd (omega arith)
insert_entry-child_from key left (suc i) e (x ∷ b_f) le ordered =
    elim (Bool-cases (leb x.key key)) [
      | inl t ↦
          rw (t, suc-suc (which key b_f) i)
            (insert_entry-child_from key x.p_offset i e b_f (omega arith) ordered.1)
      | inr f ↦ rw (f, zero-suc i) refl
    ]

child_from-append :
    (key left : ℕ) (m : InterRecord) (front back : List InterRecord)
    → IsOrdered (front ++ m ∷ back)
    → child_from key left (front ++ m ∷ back)
      ≡ (if leb m.key key then child_from key m.p_offset back else child_from key left front)
unfolding child_from
child_from-append key left m [] back ordered = refl
child_from-append key left m (x ∷ front) back ordered = elim (Bool-cases (leb x.key key)) [
  | inl t ↦ rw t (child_from-append key x.p_offset m front back ordered.1)
  | inr f ↦
      let first = All-middle front m back (λ (y : InterRecord). x.key < y.key) ordered.0 in
      let above : leb m.key key ≡ false = ground arith in rw (f, above) refl
]

-- A list with an entry at n, cut there.
cut_at :
    (n : ℕ) (xs : List InterRecord)
    → n < length xs
    → xs ≡ take n xs ++ get_or xs n no_entry ∷ drop (suc n) xs
cut_at n [] lt = absurd (omega arith)
cut_at zero (x ∷ xs) lt = refl
cut_at (suc n) (x ∷ xs) lt = ap (λ ys. x ∷ ys) (cut_at n xs (omega arith))

length-insert_entry :
    (i : ℕ) (e : InterRecord) (b_f : List InterRecord)
    → length (insert_entry i e b_f) ≡ suc (length b_f)
length-insert_entry zero e b_f = refl
length-insert_entry (suc i) e [] = refl
length-insert_entry (suc i) e (x ∷ b_f) = ap suc (length-insert_entry i e b_f)

-- Where a search in the page p goes once the child number i has got e behind it.
abbrev pub route : ℕ → ℕ → InterRecord → Page → ℕ
route key i e p = if which key p.b_f == i && leb e.key key then e.p_offset else child key p

-- After an entry has been put into an inner page at a place that keeps the keys in order, a search
-- goes to the child of the new entry if it went to the child before it and the key is not below the
-- entry, and else to the same child as before.
pub insert_into_internal-child :
    (key i : ℕ) (e : InterRecord) (p : Page)
    → i ≤ length p.b_f
    → IsOrdered (insert_entry i e p.b_f)
    → child key (insert_into_internal i e p) ≡ route key i e p
unfolding child insert_into_internal
insert_into_internal-child key i e p le ordered =
    insert_entry-child_from key p.next_offset i e p.b_f le ordered

-- For a full inner page and a new entry at a place that keeps the keys in order: after the split, a
-- search goes through the two pages and k_prime to the child of the new entry if it went to the
-- child before it and the key is not below the entry, and else to the same child as before.
pub split_internal-child :
    (key i : ℕ) (e : InterRecord) (p : Page)
    → i ≤ length p.b_f
    → length p.b_f ≡ internal_max
    → IsOrdered (insert_entry i e p.b_f)
    → (if leb (split_internal i e p).1 key
        then child key (split_internal i e p).2
        else child key (split_internal i e p).0)
      ≡ route key i e p
unfolding child split_internal cut
split_internal-child key i e p le full ordered =
    let temp = insert_entry i e p.b_f in
    let parts = cut_at 12 temp (omega (arith, length-insert_entry i e p.b_f)) in
    sym (
      child_from-append key p.next_offset (get_or temp 12 no_entry) (take 12 temp) (drop 13 temp)
        (subst IsOrdered parts ordered))
    ∙ sym (ap (child_from key p.next_offset) parts)
    ∙ insert_entry-child_from key p.next_offset i e p.b_f le ordered
