-- ===== src/Kernel/Files/Processes/Slots.antt =====
-- The process table entries of proc.c as holders of descriptors.
use computer_science_project.Prelude.{
  ℕ, zero, suc, ◌+◌, ◌≤◌, ◌<◌, ◌≡◌, refl, ap, true, false, List, [], ◌∷◌, get_or, set, length,
  arith, All,
}
use computer_science_project.Kernel.Files.{Fds, nofile}
use computer_science_project.Kernel.Files.Table.{Refs}
use computer_science_project.Kernel.Files.Counts.{holds, count}
use computer_science_project.Kernel.Files.Processes.{
  Life, unused, running, zombie, Slot, no_slot, System, is_running, is_unused,
}
use computer_science_project.Kernel.Files.Processes.Loops.{IsClosed}

-- How many descriptors of all processes are open on a file.
abbrev pub total : ℕ → List Slot → ℕ
total g [] = 0
total g (s ∷ slots) = count g s.ofile + total g slots

pub total-set :
    (slots : List Slot) (i : ℕ) (v : Slot) (g : ℕ)
    → i < length slots
    → total g (set slots i v) + count g (get_or slots i no_slot).ofile
      ≡ total g slots + count g v.ofile
total-set [] i v g lt = absurd (omega arith)
total-set (s ∷ slots) zero v g lt = omega arith
total-set (s ∷ slots) (suc i) v g lt = let rest = total-set slots i v g (omega arith) in omega arith

pub count-total :
    (slots : List Slot) (i g : ℕ) → count g (get_or slots i no_slot).ofile ≤ total g slots
count-total [] i g = omega arith
count-total (s ∷ slots) zero g = omega arith
count-total (s ∷ slots) (suc i) g = let rest = count-total slots i g in omega arith

-- An entry has all its descriptors, and those of a process that does not run are closed.
abbrev pub IsSlot : Slot → Type 0
IsSlot s = (length s.ofile ≡ nofile) × (is_running s.life ≡ false → IsClosed s.ofile)

-- The reference count of every file is the number of descriptors that are open on it.
pub record IsSystem (s : System) : Type 0 where
  pub refs : Refs s.files (λ g. total g s.slots)
  pub slots : All IsSlot s.slots

pub in_slots :
    (slots : List Slot) (i : ℕ) → is_unused (get_or slots i no_slot).life ≡ false → i < length slots
in_slots [] i h = absurd (ground arith)
in_slots (x ∷ slots) zero h = omega arith
in_slots (x ∷ slots) (suc i) h = let lt = in_slots slots i h in omega arith

pub slot-IsSlot :
    (slots : List Slot) (i : ℕ)
    → All IsSlot slots
    → i < length slots
    → IsSlot (get_or slots i no_slot)
slot-IsSlot [] i all lt = absurd (omega arith)
slot-IsSlot (x ∷ slots) zero all lt = all.0
slot-IsSlot (x ∷ slots) (suc i) all lt = slot-IsSlot slots i all.1 (omega arith)

pub unused-stopped : (l : Life) → is_unused l ≡ true → is_running l ≡ false
unused-stopped unused h = refl
unused-stopped running h = absurd (ground arith)
unused-stopped zombie h = refl

pub running-used : (l : Life) → is_running l ≡ true → is_unused l ≡ false
running-used unused h = absurd (ground arith)
running-used running h = refl
running-used zombie h = absurd (ground arith)

pub IsClosed-count : (ofile : Fds) (g : ℕ) → IsClosed ofile → count g ofile ≡ 0
IsClosed-count [] g none_open = refl
IsClosed-count (e ∷ ofile) g none_open =
    let rest = IsClosed-count ofile g none_open.1 in omega (arith, rest, ap (holds g) none_open.0)
