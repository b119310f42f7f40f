-- ===== src/Kernel/Pages/FreePages.antt =====
-- The free list of kalloc.c in memory.
use computer_science_project.Prelude.{
  ℕ, ◌+◌, ◌%◌, ◌^◌, ◌<◌, ◌≤◌, ◌≡◌, ◌≢◌, ◌∙◌, ◌⊎◌, refl, ap, sym, inl, inr, true, false, not, ◌||◌,
  some, List, [], ◌∷◌, ◌==◌, ltb, leb, All, arith, Bool-cases,
}
use computer_science_project.Prelude.Words.{sub_w}
use computer_science_project.Kernel.Memory.{Memory, store, store_word, memset}
use computer_science_project.Kernel.Memory.Moves.{memset_lem}
use computer_science_project.Kernel.Arguments.{int_at}
use computer_science_project.Kernel.Pages.{page_bytes, kern_base, phys_top, Kmem, kfree, kalloc}

-- A page between the kernel and the top of memory.
abbrev pub IsPage : ℕ → ℕ → Type 0
IsPage kernel_end v =
    (v % page_bytes ≡ 0) × (kernel_end ≤ v) × (kern_base ≤ v) × (v < kern_base + phys_top)

-- The list from p on is ps.
pub Chain : Memory → ℕ → List ℕ → Type 0
Chain mem p [] = p ≡ 0
Chain mem p (v ∷ ps) = (p ≡ v) × Chain mem (int_at mem v) ps

pub record IsPool (ps : List ℕ) (k : Kmem) : Type 0 where
  pub chain : Chain k.mem k.freelist ps
  pub pages : All (IsPage k.kernel_end) ps

-- Memory that agrees on the first words of the pages has the same list.
pub Chain-same :
    (m n : Memory) (p : ℕ) (ps : List ℕ)
    → All (λ v. int_at n v ≡ int_at m v) ps
    → Chain m p ps
    → Chain n p ps
unfolding Chain
Chain-same m n p [] all h = h
Chain-same m n p (v ∷ ps) all h = (h.0, rw (all.0) (Chain-same m n (int_at m v) ps all.1 h.1))

int_at-same :
    (m n : Memory) (v : ℕ) → ((i : ℕ) → i < 4 → n (v + i) ≡ m (v + i)) → int_at n v ≡ int_at m v
int_at-same m n v same =
    let e0 : v ≡ v + 0 = omega arith in
    let h0 : n v ≡ m v = ap n e0 ∙ same 0 (omega arith) ∙ ap m (sym e0) in
    let h1 = same 1 (omega arith) in
    let h2 = same 2 (omega arith) in let h3 = same 3 (omega arith) in omega (arith, h0, h1, h2, h3)

int_at-store_word : (v w : ℕ) (mem : Memory) → w < 2 ^ 32 → int_at (store_word v w mem) v ≡ w
int_at-store_word v w mem lt = ground arith

-- Beside page v, kfree leaves memory as it was.
kfree-elsewhere :
    (v w a : ℕ) (mem : Memory)
    → (a < v) ⊎ (v + page_bytes ≤ a)
    → store_word v w (memset v 1 page_bytes mem) a ≡ mem a
kfree-elsewhere v w a mem away =
    let filled = memset_lem v 1 page_bytes mem a in ground (arith, filled, away)

IsPage-apart :
    (bottom u v i : ℕ)
    → IsPage bottom u
    → IsPage bottom v
    → u ≢ v
    → i < 4
    → (u + i < v) ⊎ (v + page_bytes ≤ u + i)
IsPage-apart bottom u v i page_u page_v ne lt = elim (Bool-cases (ltb (u + i) v)) [
  | inl t ↦ inl (ground arith)
  | inr f ↦ inr (ground (arith, page_u, page_v))
]

kfree-words :
    (bottom v w : ℕ) (mem : Memory) (ps : List ℕ)
    → IsPage bottom v
    → All (IsPage bottom) ps
    → All (λ u. u ≢ v) ps
    → All (λ u. int_at (store_word v w (memset v 1 page_bytes mem)) u ≡ int_at mem u) ps
kfree-words bottom v w mem [] page pages fresh = tt
kfree-words bottom v w mem (u ∷ ps) page pages fresh = (
  int_at-same mem (store_word v w (memset v 1 page_bytes mem)) u
      (λ i lt. kfree-elsewhere v w (u + i) mem (IsPage-apart bottom u v i pages.0 page fresh.0 lt)),
  kfree-words bottom v w mem ps page pages.1 fresh.1,
)

-- The address of a list is a word.
Chain-IsWord :
    (bottom p : ℕ) (mem : Memory) (ps : List ℕ)
    → All (IsPage bottom) ps
    → Chain mem p ps
    → p < 2 ^ 32
unfolding Chain
Chain-IsWord bottom p mem [] pages h = omega (arith, h)
Chain-IsWord bottom p mem (v ∷ ps) pages h = omega (arith, h.0, pages.0)

-- A page that is not on the list, freed, is the first of the list.
pub kfree-IsPool :
    (v : ℕ) (ps : List ℕ) (k : Kmem)
    → IsPool ps k
    → IsPage k.kernel_end v
    → All (λ u. u ≢ v) ps
    → (after : Kmem) × (kfree v k ≡ some after)
      × (after.kernel_end ≡ k.kernel_end)
      × IsPool (v ∷ ps) after
unfolding kfree sub_w Chain
kfree-IsPool v ps k pool page fresh =
    let mem = store_word v k.freelist (memset v 1 page_bytes k.mem) in
    let ok : (not (v % page_bytes == 0) || ltb v k.kernel_end || leb phys_top (sub_w v kern_base))
        ≡ false =
      ground (arith, page) in
    let word = Chain-IsWord k.kernel_end k.freelist k.mem ps pool.pages pool.chain in
    let next = int_at-store_word v k.freelist (memset v 1 page_bytes k.mem) word in
    let words = kfree-words k.kernel_end v k.freelist k.mem ps page pool.pages fresh in
    (
      record k { mem = mem; freelist = v },
      rw (kfree, ok) refl,
      refl,
      record {
        chain = (refl, rw next (Chain-same k.mem mem k.freelist ps words pool.chain));
        pages = (page, pool.pages);
      },
    )

-- The page of kalloc is the first of the list.
pub kalloc-IsPool :
    (v : ℕ) (ps : List ℕ) (k : Kmem)
    → IsPool (v ∷ ps) k
    → ((kalloc k).0 ≡ v) × ((kalloc k).1.kernel_end ≡ k.kernel_end) × IsPool ps (kalloc k).1
unfolding kalloc Chain
kalloc-IsPool v ps k pool =
    let here : (k.freelist == 0) ≡ false = ground (arith, pool.pages.0, pool.chain.0) in
    rw here (
      pool.chain.0,
      refl,
      record { chain = rw (pool.chain.0) (pool.chain.1); pages = pool.pages.1 },
    )

pub kalloc-empty :
    (k : Kmem)
    → IsPool [] k
    → ((kalloc k).0 ≡ 0) × ((kalloc k).1.kernel_end ≡ k.kernel_end) × IsPool [] (kalloc k).1
unfolding kalloc Chain
kalloc-empty k pool =
    let none_left : (k.freelist == 0) ≡ true = ground (arith, pool.chain) in
    rw none_left (refl, refl, pool)

-- A write outside the free pages.
store-words :
    (a b : ℕ) (mem : Memory) (ps : List ℕ)
    → All (λ u. (a < u) ⊎ (u + page_bytes ≤ a)) ps
    → All (λ u. int_at (store a b mem) u ≡ int_at mem u) ps
store-words a b mem [] away = tt
store-words a b mem (u ∷ ps) away = (ground (arith, away.0), store-words a b mem ps away.1)

pub store-IsPool :
    (a b : ℕ) (ps : List ℕ) (k : Kmem)
    → IsPool ps k
    → All (λ u. (a < u) ⊎ (u + page_bytes ≤ a)) ps
    → IsPool ps (record k { mem = store a b k.mem })
store-IsPool a b ps k pool away = record {
  chain =
      Chain-same k.mem (store a b k.mem) k.freelist ps (store-words a b k.mem ps away) pool.chain;
  pages = pool.pages;
}

pub IsPool-empty : (k : Kmem) → k.freelist ≡ 0 → IsPool [] k
unfolding Chain
IsPool-empty k e = record { chain = e; pages = tt }
