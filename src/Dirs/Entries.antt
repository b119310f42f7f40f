-- ===== src/Dirs/Entries.antt =====
-- dirlookup and dirlink of fs.c on one directory.
use computer_science_project.Prelude.CString.{str_eq, str_eq-strncpy, str_eq_symm, str_eq_trans}
use computer_science_project.Prelude.{
  ℕ, ◌+◌, ◌*◌, ◌%◌, ◌^◌, ◌<◌, ◌≡◌, ◌≢◌, ◌⊎◌, ◌∙◌, refl, inl, inr, true, false, none, some, List, [],
  ◌∷◌, leb, length, All, arith, Bool-cases, Option-cases,
}
use computer_science_project.Dirs.{
  dir_size, Dirent, dirent_bytes, max_bytes, dirlookup, free_slot, new_entry, put_entry, dirlink,
}

-- An entry with all bytes of its name.
abbrev pub IsWhole : Dirent → Type 0
IsWhole de = length de.name ≡ dir_size

new_entry-found :
    (name : List ℕ) (inum : ℕ) (de : Dirent)
    → IsWhole de
    → str_eq dir_size name (new_entry name inum de).name ≡ true
new_entry-found name inum de whole = str_eq-strncpy dir_size de.name name (omega (arith, whole))

new_entry-other :
    (name other : List ℕ) (inum : ℕ) (de : Dirent)
    → IsWhole de
    → str_eq dir_size other name ≡ false
    → str_eq dir_size other (new_entry name inum de).name ≡ false
new_entry-other name other inum de whole f =
    let written = (new_entry name inum de).name in
    elim (Bool-cases (str_eq dir_size other written)) [
      | inr g ↦ g
      | inl t ↦
          let back = str_eq_symm dir_size written name ∙ new_entry-found name inum de whole in
          let same = str_eq_trans dir_size other written name t back in
          absurd (ground (arith, same))
    ]

module _ (name : List ℕ) (inum : ℕ) (pos : inum % 2 ^ 16 ≢ 0) where
  pub dirlookup-put_entry :
      (old : Dirent) (es : List Dirent)
      → IsWhole old
      → All IsWhole es
      → dirlookup name es ≡ none
      → dirlookup name (put_entry name inum old es) ≡ some (inum % 2 ^ 16)
  unfolding dirlookup put_entry
  dirlookup-put_entry old [] whole all h =
      let here = new_entry-found name inum old whole in ground (arith, here)
  dirlookup-put_entry old (de ∷ es) whole all h =
      let here = new_entry-found name inum de all.0 in
      let rest = dirlookup-put_entry de es all.0 all.1 in ground (arith, here, rest)

  pub dirlookup-put_entry_ne :
      (other : List ℕ) (old : Dirent) (es : List Dirent)
      → str_eq dir_size other name ≡ false
      → IsWhole old
      → All IsWhole es
      → dirlookup other (put_entry name inum old es) ≡ dirlookup other es
  unfolding dirlookup put_entry
  dirlookup-put_entry_ne other old [] ne whole all =
      let here = new_entry-other name other inum old whole ne in ground (arith, here)
  dirlookup-put_entry_ne other old (de ∷ es) ne whole all =
      let here = new_entry-other name other inum de all.0 ne in
      let rest = dirlookup-put_entry_ne other de es ne all.0 all.1 in ground (arith, here, rest)

-- For an inode number that is not 0 as a ushort, in a directory whose entries have whole names:
-- dirlink fails and changes nothing if the name is there; it panics if it is not and the directory
-- can not grow; else dirlookup finds the number under the name afterwards, and under every name that
-- differs in its first 14 bytes what it found before.
pub dirlink_lem :
    (name : List ℕ) (inum : ℕ) (de : Dirent) (es : List Dirent)
    → inum % 2 ^ 16 ≢ 0
    → IsWhole de
    → All IsWhole es
    → ((i : ℕ) × (dirlookup name es ≡ some i) × (dirlink name inum de es ≡ some (false, es)))
      ⊎ ((dirlookup name es ≡ none)
          × (max_bytes < free_slot es * dirent_bytes + dirent_bytes)
          × (dirlink name inum de es ≡ none))
      ⊎ ((after : List Dirent) × (dirlink name inum de es ≡ some (true, after))
          × (dirlookup name after ≡ some (inum % 2 ^ 16))
          × ((other : List ℕ)
              → str_eq dir_size other name ≡ false
              → dirlookup other after ≡ dirlookup other es))
unfolding dirlink
dirlink_lem name inum de es pos whole all = elim (Option-cases (dirlookup name es)) [
  | inr (i, e) ↦ inl (i, e, rw (dirlink, e) refl)
  | inl e ↦ elim (Bool-cases (leb (free_slot es * dirent_bytes + dirent_bytes) max_bytes)) [
    | inr f ↦ inr (inl (e, ground arith, rw (dirlink, e, f) refl))
    | inl t ↦ inr (
        inr (
          put_entry name inum de es,
          rw (dirlink, e, t) refl,
          dirlookup-put_entry name inum pos de es whole all e,
          λ other ne. dirlookup-put_entry_ne name inum pos other de es ne whole all,
        ))
  ]
]
