-- ===== src/Kernel/MemoryTests.antt =====
-- Memory and the arguments of system calls at concrete values.
use computer_science_project.Prelude.{
  ℕ, ◌+◌, ◌%◌, ◌^◌, ◌<◌, ◌≡◌, ◌⊎◌, ◌*◌, List, inl, refl, ◌↔◌, none, some, [], ◌∷◌, get_or, arith,
}
use computer_science_project.Kernel.Memory.{Memory, memmove, memset, memcmp}
use computer_science_project.Kernel.Memory.Moves.{
  copied, set_bytes, memmove_lem, memset_lem, memcmp_lem,
}
use computer_science_project.Kernel.Pages.{
  Kmem, PageCall, call_kalloc, call_kfree, call_store, pages_given,
}
use computer_science_project.Kernel.Pages.FreePages.{IsPool-empty}
use computer_science_project.Kernel.Pages.Stack.{pages_given-popped}
use computer_science_project.Kernel.Arguments.{Caller, argptr, argstr}
use computer_science_project.Kernel.Arguments.Accepted.{Inside, IsString, argptr_lem, argstr_lem}

-- 16 bytes: a stack with the pointer 12 in its second word, and "hi" at 12.
abbrev bytes : Memory
bytes a = get_or (1 ∷ 2 ∷ 3 ∷ 4 ∷ 12 ∷ 0 ∷ 0 ∷ 0 ∷ 9 ∷ 9 ∷ 9 ∷ 9 ∷ 104 ∷ 105 ∷ 0 ∷ 7 ∷ []) a 0

abbrev small : Memory
small a = a % 256

memmove_lem_example : memmove 2 0 4 bytes 5 ≡ copied 2 0 4 bytes 5
memmove_lem_example = memmove_lem 2 0 4 bytes 5

memset_lem_example : memset 4 300 8 bytes 7 ≡ set_bytes 4 300 8 bytes 7
memset_lem_example = memset_lem 4 300 8 bytes 7

memcmp_lem_example : (memcmp 0 3 4 small ≡ 0) ↔ ((i : ℕ) → i < 4 → small (0 + i) ≡ small (3 + i))
memcmp_lem_example = memcmp_lem 4 0 3 small (λ a. omega arith)

-- A machine without free pages, and two pages above the kernel.
abbrev no_pages : Kmem
no_pages = record { mem = small; freelist = 0; kernel_end = 2 ^ 31 + 2 ^ 20 }

abbrev page : ℕ → ℕ
page n = 2 ^ 31 + 2 ^ 20 + n * 4096

abbrev page_calls : List PageCall
page_calls =
    call_kfree (page 0)
    ∷ call_store 77 3
    ∷ call_kfree (page 1)
    ∷ call_kalloc
    ∷ call_kalloc
    ∷ call_kalloc
    ∷ []

pages_given-popped_example : pages_given page_calls no_pages ≡ some (page 1 ∷ page 0 ∷ 0 ∷ [])
pages_given-popped_example =
    pages_given-popped page_calls [] no_pages (IsPool-empty no_pages refl) (
      (omega arith, omega arith, omega arith, omega arith),
      tt,
      (
        (inl (omega arith), tt),
        ((omega arith, omega arith, omega arith, omega arith), (λ e. absurd (omega arith), tt), tt),
      ),
    )

abbrev caller : Caller
caller = record { mem = bytes; sz = 16; esp = 0 }

argptr_lem_example :
    ((argptr 0 4 caller ≡ none) × ¬ (Inside caller 4 4 × (4 < 2 ^ 31) × Inside caller 12 4))
    ⊎ ((argptr 0 4 caller ≡ some 12) × Inside caller 4 4 × (4 < 2 ^ 31) × Inside caller 12 4)
argptr_lem_example = argptr_lem 0 4 caller (omega arith)

argstr_lem_example :
    ((argstr 0 caller ≡ none)
      × ((len : ℕ) → Inside caller 4 4 → 12 + len < 16 → IsString bytes 12 len → ⊥))
    ⊎ ((len : ℕ) × (argstr 0 caller ≡ some (12, len))
        × Inside caller 4 4
        × (12 + len < 16)
        × IsString bytes 12 len)
argstr_lem_example = argstr_lem 0 caller (omega arith)
