-- ===== src/Dirs/Walks.antt =====
-- namex of fs.c goes through the components of a path.
use computer_science_project.Prelude.{
  ℕ, zero, suc, ◌<◌, ◌≡◌, ◌⊎◌, ◌∙◌, refl, ap, sym, inl, inr, Bool, true, false, not, ◌&&◌, Option,
  some, List, [], ◌∷◌, ◌==◌, if◌then◌else◌, length, bit_and, arith, Bool-cases, Option-cases,
}
use mathlib.Core.Path.{subst}
use computer_science_project.Users.{Accounts}
use computer_science_project.Users.Permissions.{
  Inode, mode_xusr, mode_xoth, get_mode_bit, is_owner, owner_test,
}
use computer_science_project.Dirs.{
  Tree, NamexEnd, absent, found, is_end, put_name, dirlookup, may_enter, namex_loop, start_at,
  namex,
}
use computer_science_project.Dirs.Paths.{components, skipelem_lem}

-- An inode that is a directory in which get_modeBit lets the user execute.
abbrev pub IsOpen : Accounts → Inode → Type 0
IsOpen s ip = (ip.is_dir ≡ true) × (get_mode_bit s ip mode_xusr mode_xoth ≡ 1)

zero_or_one :
    (a b c d : Bool)
    → let v : ℕ = if not a then 1 else if b then (if c then 1 else 0) else if d then 0 else 1 in
      (v ≡ 0) ⊎ (v ≡ 1)
zero_or_one false b c d = inr refl
zero_or_one true true true d = inr refl
zero_or_one true true false d = inl refl
zero_or_one true false c true = inl refl
zero_or_one true false c false = inr refl

get_mode_bit-cases :
    (s : Accounts) (ip : Inode) (own oth : ℕ)
    → (get_mode_bit s ip own oth ≡ 0) ⊎ (get_mode_bit s ip own oth ≡ 1)
unfolding get_mode_bit
get_mode_bit-cases s ip own oth =
    zero_or_one s.initial (is_owner s ip) (owner_test own ip.permission == 0)
      (bit_and oth ip.permission == 0)

may_enter-IsOpen : (s : Accounts) (ip : Inode) → may_enter s ip ≡ true → IsOpen s ip
may_enter-IsOpen s ip m = elim (get_mode_bit-cases s ip mode_xusr mode_xoth) [
  | inl z ↦ absurd (ground (arith, m, z))
  | inr o ↦ (ground (arith, m), o)
]

IsOpen-may_enter : (s : Accounts) (ip : Inode) → IsOpen s ip → may_enter s ip ≡ true
IsOpen-may_enter s ip (d, o) = ground (arith, d, o)

-- A walk from inode ip over names: every inode on the way is a directory that the user may enter and that
-- has an entry for the next name. The walk to the parent ends before the last name, in an inode that
-- the user may enter.
pub data Walk (s : Accounts) (t : Tree) (parent : Bool)
    : List (List ℕ) → List ℕ → ℕ → ℕ → List ℕ → Type 0 where
  here : {name : List ℕ} {ip : ℕ} → parent ≡ false → Walk s t parent [] name ip ip name
  above :
      {e name : List ℕ} {ip : ℕ}
      → parent ≡ true
      → IsOpen s (t.inode ip)
      → Walk s t parent (e ∷ []) name ip ip (put_name e name)
  enter :
      {e name last : List ℕ} {es : List (List ℕ)} {ip next end : ℕ}
      → (parent && is_end es) ≡ false
      → IsOpen s (t.inode ip)
      → dirlookup (put_name e name) (t.entries ip) ≡ some next
      → Walk s t parent es (put_name e name) next end last
      → Walk s t parent (e ∷ es) name ip end last

module _ (s : Accounts) (t : Tree) (parent : Bool) where
  at_end : {name last : List ℕ} {ip end : ℕ} → Walk s t parent [] name ip end last → parent ≡ false
  at_end (here f) = f

  entered :
      {e name last : List ℕ} {es : List (List ℕ)} {ip end : ℕ}
      → Walk s t parent (e ∷ es) name ip end last
      → IsOpen s (t.inode ip)
  entered (above p m) = m
  entered (enter p m found_next w) = m

  further :
      {e name last : List ℕ} {es : List (List ℕ)} {ip end : ℕ}
      → (parent && is_end es) ≡ false
      → Walk s t parent (e ∷ es) name ip end last
      → (next : ℕ) × (dirlookup (put_name e name) (t.entries ip) ≡ some next)
        × Walk s t parent es (put_name e name) next end last
  further f (above p m) = absurd (ground (arith, p, f))
  further f (enter {next = next} p m found_next w) = (next, found_next, w)

  -- An end of namex: where the walk ends, or absent as there is no walk.
  pub Ends : List (List ℕ) → List ℕ → ℕ → Option NamexEnd → Type 0
  Ends ws name ip o =
      ((o ≡ some absent) × ((end : ℕ) (last : List ℕ) → ¬ Walk s t parent ws name ip end last))
      ⊎ ((end : ℕ) × (last : List ℕ) × (o ≡ some (found end last))
          × Walk s t parent ws name ip end last)

  Ends-here :
      (name : List ℕ) (ip : ℕ) → Ends [] name ip (some (if parent then absent else found ip name))
  unfolding Ends
  Ends-here name ip = elim (Bool-cases parent) [
    | inl p ↦ inl (rw p refl, λ end last w. absurd (ground (arith, p, at_end w)))
    | inr f ↦ inr (ip, name, rw f refl, here f)
  ]

  -- The walk from an inode whose entry for the first name is known.
  Ends-further :
      (e name : List ℕ) (es : List (List ℕ)) (ip next : ℕ) (o : Option NamexEnd)
      → (parent && is_end es) ≡ false
      → IsOpen s (t.inode ip)
      → dirlookup (put_name e name) (t.entries ip) ≡ some next
      → Ends es (put_name e name) next o
      → Ends (e ∷ es) name ip o
  unfolding Ends
  Ends-further e name es ip next o f m d (inl (stop, none_walks)) = inl (
    stop,
    λ end last w.
        let (other, d2, tail) = further f w in
        let same : other ≡ next = ground (arith, d, d2) in
        none_walks end last
          (subst (λ n. Walk s t parent es (put_name e name) n end last) same tail),
  )
  Ends-further e name es ip next o f m d (inr (end, last, stop, w)) =
      inr (end, last, stop, enter f m d w)

  -- The walk to the parent where one name is left.
  Ends-above :
      (e name : List ℕ) (es : List (List ℕ)) (ip : ℕ)
      → (parent && is_end es) ≡ true
      → IsOpen s (t.inode ip)
      → Ends (e ∷ es) name ip (some (found ip (put_name e name)))
  unfolding Ends
  Ends-above e name [] ip p m = inr (ip, put_name e name, refl, above (ground (arith, p)) m)
  Ends-above e name (f ∷ es) ip p m = absurd (ground (arith, p))

  namex_loop-Ends :
      (fuel : ℕ) (path name : List ℕ) (ip : ℕ)
      → length path < fuel
      → Ends (components path) name ip (namex_loop fuel s t parent path name ip)
  unfolding namex_loop Ends
  namex_loop-Ends zero path name ip lt = absurd (omega arith)
  namex_loop-Ends (suc fuel) path name ip lt = elim (skipelem_lem path name) [
    | inl (e, all) ↦
        subst (λ ws. Ends ws name ip (namex_loop (suc fuel) s t parent path name ip)) (sym all)
          (rw (namex_loop, e) (Ends-here name ip))
    | inr (w, rest, e, all, ends, shorter) ↦
        subst (λ ws. Ends ws name ip (namex_loop (suc fuel) s t parent path name ip)) (sym all)
          (elim (Bool-cases (may_enter s (t.inode ip))) [
            | inr f ↦ inl (
              rw (namex_loop, e, f) refl,
              λ end last walk.
                  let m = IsOpen-may_enter s (t.inode ip) (entered walk) in
                  absurd (ground (arith, f, m)),
            )
            | inl m ↦ elim (Bool-cases (parent && is_end rest)) [
              | inl p ↦
                  rw (namex_loop, e, m, p)
                    (Ends-above w name (components rest) ip (ap (λ b. parent && b) ends ∙ p)
                      (may_enter-IsOpen s (t.inode ip) m))
              | inr g ↦
                  let g2 : (parent && is_end (components rest)) ≡ false =
                    ap (λ b. parent && b) ends ∙ g in
                  elim (Option-cases (dirlookup (put_name w name) (t.entries ip))) [
                    | inl d ↦ inl (
                      rw (namex_loop, e, m, g, d) refl,
                      λ end last walk.
                          let (next, d2, tail) = further g2 walk in absurd (ground (arith, d, d2)),
                    )
                    | inr (next, d) ↦
                        rw (namex_loop, e, m, g, d)
                          (Ends-further w name (components rest) ip next
                            (namex_loop fuel s t parent rest (put_name w name) next) g2
                            (may_enter-IsOpen s (t.inode ip) m) d
                            (namex_loop-Ends fuel rest (put_name w name) next (omega arith)))
                  ]
            ]
          ])
  ]

  -- Namex ends, for every path, and finds an inode exactly if there is a walk over the components of
  -- the path between its slashes, each cut to 14 bytes: every inode on the way is a directory that
  -- the current user may execute and that has an entry for the next component; nameiparent ends the
  -- walk one component earlier.
  pub namex_lem :
      (cwd : ℕ) (path name : List ℕ)
      → ((namex s t cwd parent path name ≡ some absent)
          × ((end : ℕ) (last : List ℕ)
              → ¬ Walk s t parent (components path) name (start_at path cwd) end last))
        ⊎ ((end : ℕ) × (last : List ℕ) × (namex s t cwd parent path name ≡ some (found end last))
            × Walk s t parent (components path) name (start_at path cwd) end last)
  unfolding namex Ends
  namex_lem cwd path name =
      namex_loop-Ends (suc (length path)) path name (start_at path cwd) (omega arith)
