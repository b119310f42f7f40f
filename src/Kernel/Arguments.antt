-- ===== src/Kernel/Arguments.antt =====
-- The arguments of a system call: fetchint, fetchstr, argint, argptr and argstr of syscall.c in Operating
-- system/file system/xv6-public. The memory of the calling process is a function from addresses to bytes; `none`
-- is the result -1.
pub mod Accepted
use computer_science_project.Prelude.{
  ℕ, zero, suc, ◌+◌, ◌-◌, ◌*◌, ◌%◌, ◌^◌, Bool, ◌||◌, Option, none, some, ◌==◌, ltb, leb,
  if◌then◌else◌,
}
use computer_science_project.Prelude.Search.{plus_one}

pub record Caller : Type 0 where
  pub mem : ℕ → ℕ
  pub sz : ℕ
  pub esp : ℕ

abbrev pub int_at : (ℕ → ℕ) → ℕ → ℕ
int_at mem a = mem a + mem (a + 1) * 2 ^ 8 + mem (a + 2) * 2 ^ 16 + mem (a + 3) * 2 ^ 24

unfoldable pub fetchint : ℕ → Caller → Option ℕ
fetchint addr p =
    if leb p.sz addr || ltb p.sz ((addr + 4) % 2 ^ 32) then none else some (int_at p.mem addr)

-- The loop of fetchstr over k bytes from a on: how many bytes stand before the NUL.
unfoldable pub str_len : ℕ → ℕ → (ℕ → ℕ) → Option ℕ
str_len zero a mem = none
str_len (suc k) a mem =
    let rest = plus_one (str_len k (suc a) mem) in if mem a == 0 then some 0 else rest

-- The length; the pointer is addr.
unfoldable pub fetchstr : ℕ → Caller → Option ℕ
unfolding str_len
fetchstr addr p = if leb p.sz addr then none else str_len (p.sz - addr) addr p.mem

abbrev pub slot_of : ℕ → Caller → ℕ
slot_of n p = (p.esp + 4 + 4 * n) % 2 ^ 32

unfoldable pub argint : ℕ → Caller → Option ℕ
unfolding fetchint
argint n p = fetchint (slot_of n p) p

-- `size` is an int, negative from 2 ^ 31 on.
unfoldable pub argptr : ℕ → ℕ → Caller → Option ℕ
unfolding argint
argptr n size p = elim (argint n p) [
  | none ↦ none
  | some i ↦
      if leb (2 ^ 31) size || leb p.sz i || ltb p.sz ((i + size) % 2 ^ 32) then none else some i
]

-- The pointer and the length.
unfoldable pub argstr : ℕ → Caller → Option (ℕ × ℕ)
unfolding argint fetchstr
argstr n p = elim (argint n p) [
  | none ↦ none
  | some addr ↦ elim (fetchstr addr p) [ none ↦ none | some len ↦ some (addr, len) ]
]
