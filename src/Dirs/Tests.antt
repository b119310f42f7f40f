-- ===== src/Dirs/Tests.antt =====
-- A small tree of directories: /a/b, where a is a directory.
use computer_science_project.Prelude.{
  ℕ, ◌+◌, ◌*◌, ◌%◌, ◌^◌, ◌<◌, ◌≡◌, ◌≢◌, ◌⊎◌, refl, true, false, none, some, List, [], ◌∷◌, ◌++◌,
  ◌==◌, if◌then◌else◌, replicate, arith,
}
use computer_science_project.Prelude.Text.{codes}
use computer_science_project.Prelude.CString.{str_eq}
use computer_science_project.Users.{Accounts}
use computer_science_project.Users.Permissions.{get_mode_bit}
use computer_science_project.Dirs.{
  Dirent, Tree, absent, found, dirent_bytes, max_bytes, dirlookup, free_slot, dirlink, namex,
  skipelem, put_name,
}
use computer_science_project.Dirs.Entries.{dirlink_lem}
use computer_science_project.Dirs.Paths.{components}
use computer_science_project.Dirs.Walks.{Walk, namex_lem}

abbrev nobody : Accounts
nobody = record { priv = []; num = 0; initial = false; using_idx = 0; stored = [] }

abbrev padded : List ℕ → List ℕ
padded s = s ++ replicate 13 0

abbrev empty_entry : Dirent
empty_entry = record { inum = 0; name = padded (codes "x") }

abbrev root_entries : List Dirent
root_entries = empty_entry ∷ record { inum = 2; name = padded (codes "a") } ∷ []

abbrev tree : Tree
tree = record {
  inode = λ i. record { owner = []; permission = 0; is_dir = if i == 3 then false else true };
  entries =
      λ i. if i == 1 then root_entries else record { inum = 3; name = padded (codes "b") } ∷ [];
}

abbrev buffer : List ℕ
buffer = replicate 14 1

skips_a : skipelem (codes "//a//b") buffer ≡ some (codes "b", put_name (codes "a") buffer)
unfolding skipelem
skips_a = refl

finds_b :
    namex nobody tree 7 false (codes "/a//b") buffer
    ≡ some (found 3 (put_name (codes "b") (put_name (codes "a") buffer)))
unfolding namex get_mode_bit str_eq
finds_b = refl

stops_at_parent :
    namex nobody tree 7 true (codes "/a//b") buffer
    ≡ some (found 2 (put_name (codes "b") (put_name (codes "a") buffer)))
unfolding namex get_mode_bit str_eq
stops_at_parent = refl

five_not_zero : ◌≢◌ {A = ℕ} (5 % 2 ^ 16) 0
five_not_zero e = absurd (omega arith)

dirlink_lem_example :
    ((i : ℕ) × (dirlookup (codes "c") root_entries ≡ some i)
      × (dirlink (codes "c") 5 empty_entry root_entries ≡ some (false, root_entries)))
    ⊎ ((dirlookup (codes "c") root_entries ≡ none)
        × (max_bytes < free_slot root_entries * dirent_bytes + dirent_bytes)
        × (dirlink (codes "c") 5 empty_entry root_entries ≡ none))
    ⊎ ((after : List Dirent) × (dirlink (codes "c") 5 empty_entry root_entries ≡ some (true, after))
        × (dirlookup (codes "c") after ≡ some (5 % 2 ^ 16))
        × ((other : List ℕ)
            → str_eq 14 other (codes "c") ≡ false
            → dirlookup other after ≡ dirlookup other root_entries))
dirlink_lem_example =
    dirlink_lem (codes "c") 5 empty_entry root_entries five_not_zero refl (refl, (refl, tt))

namex_lem_example :
    ((namex nobody tree 7 false (codes "/a//b") buffer ≡ some absent)
      × ((end : ℕ) (last : List ℕ)
          → ¬ Walk nobody tree false (components (codes "/a//b")) buffer 1 end last))
    ⊎ ((end : ℕ) × (last : List ℕ) × (namex nobody tree 7 false (codes "/a//b") buffer
          ≡ some (found end last))
        × Walk nobody tree false (components (codes "/a//b")) buffer 1 end last)
namex_lem_example = namex_lem nobody tree false 7 (codes "/a//b") buffer
