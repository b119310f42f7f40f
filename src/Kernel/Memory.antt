-- ===== src/Kernel/Memory.antt =====
-- memset, memcmp, memmove and memcpy of string.c in Operating system/file system/xv6-public, with stosb and stosl of
-- x86.h. Memory is a function from addresses to bytes. The last address of a region does not wrap around.
pub mod Moves
use computer_science_project.Prelude.{
  ℕ, zero, suc, ◌+◌, ◌-◌, ◌*◌, ◌/◌, ◌%◌, ◌^◌, ◌<◌, Bool, ◌&&◌, ◌==◌, ltb, if◌then◌else◌,
}
use computer_science_project.Prelude.Words.{sub_w}

abbrev pub Memory : Type 0
Memory = ℕ → ℕ

abbrev pub store : ℕ → ℕ → Memory → Memory
store a v mem = λ b. if b == a then v else mem b

-- The two loops of memmove.
unfoldable pub move_down : ℕ → ℕ → ℕ → Memory → Memory
move_down zero s d mem = mem
move_down (suc n) s d mem = move_down n s d (store (d + n) (mem (s + n)) mem)

unfoldable pub move_up : ℕ → ℕ → ℕ → Memory → Memory
move_up zero s d mem = mem
move_up (suc n) s d mem = move_up n (suc s) (suc d) (store d (mem s) mem)

unfoldable pub memmove : ℕ → ℕ → ℕ → Memory → Memory
unfolding move_down move_up
memmove d s n mem = if ltb s d && ltb d (s + n) then move_down n s d mem else move_up n s d mem

unfoldable pub memcpy : ℕ → ℕ → ℕ → Memory → Memory
unfolding memmove
memcpy d s n mem = memmove d s n mem

unfoldable pub stosb : ℕ → ℕ → ℕ → Memory → Memory
stosb d c zero mem = mem
stosb d c (suc n) mem = stosb (suc d) c n (store d (c % 256) mem)

-- A word of four bytes, the lowest first.
abbrev pub store_word : ℕ → ℕ → Memory → Memory
store_word d w mem =
    store (d + 3) (w / 2 ^ 24 % 256)
      (store (d + 2) (w / 2 ^ 16 % 256) (store (d + 1) (w / 2 ^ 8 % 256) (store d (w % 256) mem)))

unfoldable pub stosl : ℕ → ℕ → ℕ → Memory → Memory
stosl d w zero mem = mem
stosl d w (suc n) mem = stosl (d + 4) w n (store_word d w mem)

-- (c<<24)|(c<<16)|(c<<8)|c of a byte
abbrev pub four_times : ℕ → ℕ
four_times c = c * 2 ^ 24 + c * 2 ^ 16 + c * 2 ^ 8 + c

unfoldable pub memset : ℕ → ℕ → ℕ → Memory → Memory
unfolding stosb stosl
memset d c n mem =
    if d % 4 == 0 && n % 4 == 0 then stosl d (four_times (c % 256)) (n / 4) mem else stosb d c n mem

-- The difference of the first two bytes that differ, as an int.
unfoldable pub memcmp : ℕ → ℕ → ℕ → Memory → ℕ
memcmp p q zero mem = 0
memcmp p q (suc n) mem =
    let rest = memcmp (suc p) (suc q) n mem in
    if mem p == mem q then rest else sub_w (mem p) (mem q)
