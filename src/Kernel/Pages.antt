-- ===== src/Kernel/Pages.antt =====
-- The allocator of pages, kalloc.c in Operating system/file system/xv6-public. A free page holds the address of the
-- next one in its first word; 0 ends the list.
pub mod FreePages
pub mod Stack
use computer_science_project.Prelude.{
  ℕ, zero, suc, ◌+◌, ◌-◌, ◌*◌, ◌/◌, ◌%◌, ◌^◌, Bool, not, ◌||◌, Option, none, some, List, [], ◌∷◌,
  ◌==◌, ltb, leb, if◌then◌else◌,
}
use computer_science_project.Prelude.Words.{sub_w}
use computer_science_project.Kernel.Memory.{Memory, store, store_word, memset}
use computer_science_project.Kernel.Arguments.{int_at}

abbrev pub page_bytes : ℕ
page_bytes = 4096

abbrev pub kern_base : ℕ
kern_base = 2 ^ 31

abbrev pub phys_top : ℕ
phys_top = 14 * 2 ^ 24

-- `kernel_end` is the address `end` behind the kernel.
pub record Kmem : Type 0 where
  pub mem : Memory
  pub freelist : ℕ
  pub kernel_end : ℕ

-- kfree; `none` is the panic.
unfoldable pub kfree : ℕ → Kmem → Option Kmem
kfree v k =
    if not (v % page_bytes == 0) || ltb v k.kernel_end || leb phys_top (sub_w v kern_base)
    then none
    else some
        (record k { mem = store_word v k.freelist (memset v 1 page_bytes k.mem); freelist = v })

-- kalloc: the page, or 0.
unfoldable pub kalloc : Kmem → ℕ × Kmem
kalloc k =
    if k.freelist == 0
    then (0, k)
    else (k.freelist, record k { freelist = int_at k.mem k.freelist })

-- The loop of freerange over n pages from p on.
unfoldable pub free_from : ℕ → ℕ → Kmem → Option Kmem
unfolding kfree
free_from zero p k = some k
free_from (suc n) p k = elim (kfree p k) [ none ↦ none | some l ↦ free_from n (p + page_bytes) l ]

abbrev pub round_up : ℕ → ℕ
round_up a = (a + (page_bytes - 1)) / page_bytes * page_bytes

-- freerange; the addresses do not wrap around.
unfoldable pub freerange : ℕ → ℕ → Kmem → Option Kmem
unfolding free_from
freerange vstart vend k = free_from ((vend - round_up vstart) / page_bytes) (round_up vstart) k

-- The calls of the rest of the kernel, with its writes to memory.
pub data PageCall : Type 0 where
  call_kalloc : PageCall
  call_kfree : ℕ → PageCall
  call_store : ℕ → ℕ → PageCall

-- The pages that the calls of kalloc give.
unfoldable pub pages_given : List PageCall → Kmem → Option (List ℕ)
unfolding kalloc kfree
pages_given [] k = some []
pages_given (call_kalloc ∷ calls) k = elim (pages_given calls (kalloc k).1) [
  | none ↦ none
  | some vs ↦ some ((kalloc k).0 ∷ vs)
]
pages_given (call_kfree v ∷ calls) k = elim (kfree v k) [
  | none ↦ none
  | some l ↦ pages_given calls l
]
pages_given (call_store a b ∷ calls) k = pages_given calls (record k { mem = store a b k.mem })
