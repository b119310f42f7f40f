-- ===== src/Users/Access.antt =====
-- What get_modeBit of fs.c and the checks in sysfile.c let through, and what they do not.
use computer_science_project.Prelude.CString.{str_eq}
use computer_science_project.Prelude.Bits.{bit_and_bit, bit_and_comm, pow-pos}
use computer_science_project.Prelude.{
  ℕ, ◌%◌, ◌/◌, ◌^◌, ◌<◌, ◌≡◌, refl, ◌∙◌, ◌≢◌, ◌↔◌, ◌⊎◌, inl, inr, Bool, true, false, Option, none,
  some, List, arith, ◌==◌, if◌then◌else◌, Bool-cases, ==-of_ne, ℕ_discrete, zero, suc, bit_and,
}
use computer_science_project.Users.{Accounts, done, failed, root, get_now}
use computer_science_project.Users.Permissions.{
  Inode, mode_rusr, mode_wusr, mode_xusr, is_owner, owner_test, get_mode_bit, sys_chmod, Opened,
  open_checks, open_file, open_existing, sys_open, sys_add_user, sys_delete_user,
}

zero_ne : (n : ℕ) → n ≡ 0 → n ≡ 1 → ⊥
zero_ne n d e = omega arith

low : {n : ℕ} → n < 2 → n ≢ 1 → n ≡ 0
low h ne = omega arith

others_bit :
    (s : Accounts) (ip : Inode) (own_mode k : ℕ)
    → s.initial ≡ true
    → is_owner s ip ≡ false
    → (get_mode_bit s ip own_mode (2 ^ k) ≡ 1) ↔ (ip.permission / 2 ^ k % 2 ≡ 1)
unfolding get_mode_bit
others_bit s ip own_mode k h o =
    let bit = bit_and_comm (2 ^ k) ip.permission ∙ bit_and_bit k ip.permission in
    let digit : ip.permission / 2 ^ k % 2 < 2 = omega arith in
    let value : get_mode_bit s ip own_mode (2 ^ k)
        ≡ (if bit_and (2 ^ k) ip.permission == 0 then 0 else 1) =
      ground arith in
    elim (ℕ_discrete (ip.permission / 2 ^ k % 2) 1) [
      | yes e ↦ (
        λ _. e,
        λ _.
            value
            ∙ rw
                (==-of_ne (bit_and (2 ^ k) ip.permission) 0
                  (λ z. absurd (ground (arith, pow-pos k))))
                refl,
      )
      | no ne ↦ (
        λ g. absurd (zero_ne _ (value ∙ rw bit (rw (low digit ne) (ground arith))) g),
        λ e. absurd (ne e),
      )
    ]

-- Once the table of accounts is open, get_modeBit is 1 for a user who is neither root nor the owner
-- exactly if the permission for others has the bit, and it is 1 for root and the owner with each of
-- the three owner modes, whatever the permission is.
pub get_mode_bit_lem :
    (s : Accounts) (ip : Inode) (k : ℕ)
    → s.initial ≡ true
    → ((own_mode : ℕ)
        → is_owner s ip ≡ false
        → (get_mode_bit s ip own_mode (2 ^ k) ≡ 1) ↔ (ip.permission / 2 ^ k % 2 ≡ 1))
      × (is_owner s ip ≡ true → get_mode_bit s ip mode_rusr (2 ^ k) ≡ 1)
      × (is_owner s ip ≡ true → get_mode_bit s ip mode_wusr (2 ^ k) ≡ 1)
      × (is_owner s ip ≡ true → get_mode_bit s ip mode_xusr (2 ^ k) ≡ 1)
unfolding get_mode_bit owner_test
get_mode_bit_lem s ip k h = (
  λ own_mode o. others_bit s ip own_mode k h o,
  λ o. ground arith,
  λ o. ground arith,
  λ o. ground arith,
)

-- sys_chmod of an inode that was found succeeds exactly for its owner and root, and then changes the
-- permission alone; else the inode is unchanged.
pub sys_chmod_lem :
    (s : Accounts) (ip : Inode) (mode : ℕ)
    → ((is_owner s ip ≡ true)
        × (sys_chmod s (some ip) mode ≡ (some (record ip { permission = mode }), done)))
      ⊎ ((is_owner s ip ≡ false) × (sys_chmod s (some ip) mode ≡ (some ip, failed)))
unfolding sys_chmod
sys_chmod_lem s ip mode = elim (Bool-cases (is_owner s ip)) [
  | inl t ↦ inl (t, rw t refl)
  | inr f ↦ inr (f, rw f refl)
]

module _ (s : Accounts) (ip : Inode) (h : s.initial ≡ true) where
  granted :
      (own_mode k : ℕ)
      → (get_mode_bit s ip own_mode (2 ^ k) == 0) ≡ false
      → (is_owner s ip ≡ true) ⊎ (ip.permission / 2 ^ k % 2 ≡ 1)
  unfolding get_mode_bit
  granted own_mode k g = elim (Bool-cases (is_owner s ip)) [
    | inl t ↦ inl t
    | inr o ↦ inr ((others_bit s ip own_mode k h o).0 (ground arith))
  ]

  checked :
      (omode fd : ℕ) (f : Opened)
      → omode < 3
      → open_file s ip omode (some fd) ≡ some f
      → (f.writable ≡ true → (is_owner s ip ≡ true) ⊎ (ip.permission / 2 % 2 ≡ 1))
        × (f.readable ≡ true → (is_owner s ip ≡ true) ⊎ (ip.permission / 4 % 2 ≡ 1))
        × (f.ip ≡ ip)
  unfolding open_file open_checks
  checked zero fd f m e =
      (λ w. absurd (ground arith), λ r. granted mode_rusr 2 (ground arith), ground arith)
  checked (suc zero) fd f m e =
      (λ w. granted mode_wusr 1 (ground arith), λ r. absurd (ground arith), ground arith)
  checked (suc (suc zero)) fd f m e = (
    λ w. granted mode_wusr 1 (ground arith),
    λ r. granted mode_rusr 2 (ground arith),
    ground arith,
  )
  checked (suc (suc (suc n))) fd f m e = absurd (omega arith)

opened_file :
    (s : Accounts) (ip : Inode) (created : Option Inode) (omode : ℕ) (fd : Option ℕ) (f : Opened)
    → omode < 3
    → sys_open s (some ip) created omode fd ≡ some f
    → (n : ℕ) × (open_file s ip omode (some n) ≡ some f)
unfolding sys_open open_existing
opened_file s ip created zero (some fd) f m e = (fd, ground arith)
opened_file s ip created (suc zero) (some fd) f m e = (fd, ground arith)
opened_file s ip created (suc (suc zero)) (some fd) f m e = (fd, ground arith)
opened_file s ip created zero none f m e = absurd (unfold open_file in ground arith)
opened_file s ip created (suc zero) none f m e = absurd (unfold open_file in ground arith)
opened_file s ip created (suc (suc zero)) none f m e = absurd (unfold open_file in ground arith)
opened_file s ip created (suc (suc (suc n))) fd f m e = absurd (omega arith)

-- Once the table of accounts is open, without O_CREATE and with O_RDONLY, O_WRONLY or O_RDWR, a file
-- that sys_open opens for writing belongs to the current user, or the user is root, or the
-- permission lets others write; the same holds for reading.
pub sys_open-checks :
    (s : Accounts) (ip : Inode) (created : Option Inode) (omode : ℕ) (fd : Option ℕ) (f : Opened)
    → s.initial ≡ true
    → omode < 3
    → sys_open s (some ip) created omode fd ≡ some f
    → (f.writable ≡ true → (is_owner s ip ≡ true) ⊎ (ip.permission / 2 % 2 ≡ 1))
      × (f.readable ≡ true → (is_owner s ip ≡ true) ⊎ (ip.permission / 4 % 2 ≡ 1))
      × (f.ip ≡ ip)
sys_open-checks s ip created omode fd f h m e =
    let (n, opened) = opened_file s ip created omode fd f m e in checked s ip h omode n f m opened

-- sys_open with mode 3 makes no check: every file that is not a directory is opened for writing,
-- whatever its permission.
pub sys_open-unchecked :
    (s : Accounts) (ip : Inode) (created : Option Inode) (fd : ℕ)
    → ip.is_dir ≡ false
    → sys_open s (some ip) created 3 (some fd)
      ≡ some record { fd = fd; ip = ip; readable = false; writable = true }
unfolding sys_open open_existing open_file open_checks
sys_open-unchecked s ip created fd h = rw h refl

-- sys_addUser or sys_deleteUser changes the accounts only if the current user is root.
pub accounts-root :
    (s : Accounts) (u p : List ℕ) (has_userS : Bool)
    → (((sys_add_user has_userS u p s).0 ≢ s) ⊎ ((sys_delete_user u s).0 ≢ s))
    → str_eq 16 root (get_now s) ≡ true
unfolding sys_add_user sys_delete_user
accounts-root s u p has_userS h = elim (Bool-cases (str_eq 16 root (get_now s))) [
  | inl t ↦ t
  | inr f ↦ absurd (elim h [ inl g ↦ g (ground arith) | inr g ↦ g (ground arith) ])
]
