-- ===== src/Kernel/Pages/Stack.antt =====
-- The allocator of kalloc.c is a stack of pages.
use computer_science_project.Prelude.{
  ℕ, zero, suc, ◌+◌, ◌-◌, ◌*◌, ◌/◌, ◌%◌, ◌<◌, ◌≤◌, ◌≡◌, ◌≢◌, ◌⊎◌, refl, some, List, [], ◌∷◌, All,
  arith, dec_lt,
}
use computer_science_project.Kernel.Memory.{store}
use computer_science_project.Kernel.Pages.{
  page_bytes, kern_base, phys_top, free_from, round_up, freerange, Kmem, kalloc, PageCall,
  call_kalloc, call_kfree, call_store, pages_given,
}
use computer_science_project.Kernel.Pages.FreePages.{
  IsPage, IsPool, kfree-IsPool, kalloc-IsPool, kalloc-empty, store-IsPool, IsPool-empty,
}

-- What the calls of kalloc give if the free pages are a stack.
abbrev pub popped : List PageCall → List ℕ → List ℕ
popped [] ps = []
popped (call_kalloc ∷ calls) [] = 0 ∷ popped calls []
popped (call_kalloc ∷ calls) (v ∷ ps) = v ∷ popped calls ps
popped (call_kfree v ∷ calls) ps = popped calls (v ∷ ps)
popped (call_store a b ∷ calls) ps = popped calls ps

-- Only pages that are not free are freed, and no byte of a free page is written.
abbrev pub IsFair : ℕ → List PageCall → List ℕ → Type 0
IsFair bottom [] ps = Unit
IsFair bottom (call_kalloc ∷ calls) [] = IsFair bottom calls []
IsFair bottom (call_kalloc ∷ calls) (v ∷ ps) = IsFair bottom calls ps
IsFair bottom (call_kfree v ∷ calls) ps =
    IsPage bottom v × All (λ u. u ≢ v) ps × IsFair bottom calls (v ∷ ps)
IsFair bottom (call_store a b ∷ calls) ps =
    All (λ u. (a < u) ⊎ (u + page_bytes ≤ a)) ps × IsFair bottom calls ps

-- From a list of free pages in memory, whatever follows of kalloc, of kfree of pages between the
-- kernel and the top of memory that are not free, and of writes to bytes outside the free pages: no
-- call panics, and kalloc gives the page on top of a stack of the free pages, or 0 if it is empty.
pub pages_given-popped :
    (calls : List PageCall) (ps : List ℕ) (k : Kmem)
    → IsPool ps k
    → IsFair k.kernel_end calls ps
    → pages_given calls k ≡ some (popped calls ps)
unfolding pages_given
pages_given-popped [] ps k pool fair = refl
pages_given-popped (call_kalloc ∷ calls) [] k pool fair =
    let (here, same, left) = kalloc-empty k pool in
    let rest = pages_given-popped calls [] (kalloc k).1 left (rw same fair) in
    rw (pages_given, rest, here) refl
pages_given-popped (call_kalloc ∷ calls) (v ∷ ps) k pool fair =
    let (here, same, left) = kalloc-IsPool v ps k pool in
    let rest = pages_given-popped calls ps (kalloc k).1 left (rw same fair) in
    rw (pages_given, rest, here) refl
pages_given-popped (call_kfree v ∷ calls) ps k pool fair =
    let (after, e, same, left) = kfree-IsPool v ps k pool fair.0 fair.1 in
    rw (pages_given, e) (pages_given-popped calls (v ∷ ps) after left (rw same (fair.2)))
pages_given-popped (call_store a b ∷ calls) ps k pool fair =
    pages_given-popped calls ps (record k { mem = store a b k.mem })
      (store-IsPool a b ps k pool fair.0) fair.1

-- The list after n pages from p on have been freed, the last one first.
abbrev pages_from : ℕ → ℕ → List ℕ → List ℕ
pages_from zero p ps = ps
pages_from (suc n) p ps = pages_from n (p + page_bytes) (p ∷ ps)

below : (p : ℕ) (ps : List ℕ) → All (λ u. u < p) ps → All (λ u. u ≢ p) ps
below p [] lower = tt
below p (u ∷ ps) lower = (λ e. absurd (omega (arith, lower.0)), below p ps lower.1)

raise : (p q : ℕ) (ps : List ℕ) → p ≤ q → All (λ u. u < p) ps → All (λ u. u < q) ps
raise p q [] le lower = tt
raise p q (u ∷ ps) le lower = (omega (arith, lower.0), raise p q ps le lower.1)

-- What freerange leaves at boot is a pool of the pages.
free_from-IsPool :
    (n p : ℕ) (ps : List ℕ) (k : Kmem)
    → IsPool ps k
    → p % page_bytes ≡ 0
    → k.kernel_end ≤ p
    → kern_base ≤ p
    → p + n * page_bytes ≤ kern_base + phys_top
    → All (λ u. u < p) ps
    → (after : Kmem) × (free_from n p k ≡ some after) × IsPool (pages_from n p ps) after
unfolding free_from
free_from-IsPool zero p ps k pool start low base high lower = (k, refl, pool)
free_from-IsPool (suc n) p ps k pool start low base high lower =
    let (l, e, same, left) =
      kfree-IsPool p ps k pool (start, low, base, omega arith) (below p ps lower) in
    let more = raise p (p + page_bytes) ps (omega arith) lower in
    let (after, done, filled) =
      free_from-IsPool n (p + page_bytes) (p ∷ ps) l left (omega arith) (omega (arith, same))
        (omega arith) (omega arith) (omega arith, more) in
    (after, rw (free_from, e) done, filled)

-- freerange
pub freerange-IsPool :
    (vstart vend : ℕ) (k : Kmem)
    → k.freelist ≡ 0
    → k.kernel_end ≤ vstart
    → kern_base ≤ vstart
    → vend ≤ kern_base + phys_top
    → (after : Kmem) × (freerange vstart vend k ≡ some after)
      × IsPool (pages_from ((vend - round_up vstart) / page_bytes) (round_up vstart) []) after
unfolding freerange
freerange-IsPool vstart vend k empty low base high = elim (dec_lt (round_up vstart) vend) [
  | yes lt ↦
      free_from-IsPool ((vend - round_up vstart) / page_bytes) (round_up vstart) [] k
        (IsPool-empty k empty) (omega arith) (omega arith) (omega arith) (omega arith) tt
  | no ge ↦
      let none_left : (vend - round_up vstart) / page_bytes ≡ 0 = omega arith in
      rw none_left (k, refl, IsPool-empty k empty)
]
