-- ===== src/Bpt/Pages/FreeList.antt =====
-- The free pages of the file of bpt.c, and those in use.
use computer_science_project.Prelude.{
  ℕ, zero, suc, ◌+◌, ◌<◌, ◌≤◌, ◌≡◌, ◌≢◌, refl, ap, inl, inr, false, List, [], ◌∷◌, ◌==◌,
  if◌then◌else◌, arith, Bool-cases, length, get_or, remove, ==_refl, ==-of_ne, ℕ_discrete,
}
use computer_science_project.Bpt.{Page}
use computer_science_project.Bpt.Pages.{TreeFile, blank_page, taken, grown, usetofree, new_page}

abbrev pub occurs : ℕ → List ℕ → ℕ
occurs p [] = 0
occurs p (q ∷ qs) = (if p == q then 1 else 0) + occurs p qs

-- The list that starts at an offset: each page names the next one, and the last names 0.
abbrev pub Chain : (ℕ → Page) → ℕ → List ℕ → Type 0
Chain page off [] = off ≡ 0
Chain page off (p ∷ free) = (off ≡ p) × (p ≢ 0) × Chain page (page p).parent_page_offset free

-- The pages in use and the free ones are different pages of the file.
pub record IsFile (f : TreeFile) (used : List ℕ) : Type 0 where
  pub free : List ℕ
  pub chain : Chain f.page f.header.fpo free
  pub once : (p : ℕ) → occurs p used + occurs p free ≤ 1
  pub inside : (p : ℕ) → 1 ≤ occurs p used + occurs p free → (0 < p) × (p < f.end_offset)
  pub behind_header : 0 < f.end_offset

-- A write elsewhere leaves the chain.
Chain-write :
    (page : ℕ → Page) (at : ℕ) (v : Page) (off : ℕ) (free : List ℕ)
    → Chain page off free
    → occurs at free ≡ 0
    → Chain (λ o. if o == at then v else page o) off free
Chain-write page at v off [] chain absent = chain
Chain-write page at v off (p ∷ free) (e, ne, chain) absent =
    let other : (p == at) ≡ false = ground arith in
    (e, ne, rw other (Chain-write page at v (page p).parent_page_offset free chain (ground arith)))

-- A page p that is new among those in use.
abbrev IsNew : ℕ → TreeFile → TreeFile → List ℕ → Type 0
IsNew p f after used =
    (occurs p used ≡ 0)
    × IsFile after (p ∷ used)
    × ((q : ℕ) → 1 ≤ occurs q used → after.page q ≡ f.page q)

grown-IsNew :
    (f : TreeFile) (used : List ℕ)
    → IsFile f used
    → f.header.fpo ≡ 0
    → IsNew f.end_offset f (grown f) used
grown-IsNew f used ok empty =
    let outside : occurs f.end_offset used + occurs f.end_offset ok.free ≡ 0 =
      ground (arith, ok.inside f.end_offset) in
    (
      omega (arith, outside),
      record {
        free = ok.free;
        chain =
            Chain-write f.page f.end_offset blank_page f.header.fpo ok.free ok.chain
              (omega (arith, outside));
        once = λ p. elim (ℕ_discrete p f.end_offset) [
          | yes e ↦ ground (arith, outside, ap (λ k. occurs k used) e, ap (λ k. occurs k ok.free) e)
          | no ne ↦ rw (==-of_ne p f.end_offset ne) (omega (arith, ok.once p))
        ];
        inside = λ p h. elim (ℕ_discrete p f.end_offset) [
          | yes e ↦ (omega (arith, ok.behind_header), omega arith)
          | no ne ↦
              let old : 1 ≤ occurs p used + occurs p ok.free =
                ground (arith, h, ==-of_ne p f.end_offset ne) in
              let (low, high) = ok.inside p old in (low, omega (arith, high))
        ];
        behind_header = omega (arith, ok.behind_header);
      },
      λ q h. elim (ℕ_discrete q f.end_offset) [
        | yes e ↦ absurd (omega (arith, h, outside, ap (λ k. occurs k used) e))
        | no ne ↦ rw (==-of_ne q f.end_offset ne) refl
      ],
    )

taken-IsNew :
    (f : TreeFile) (used free : List ℕ)
    → Chain f.page f.header.fpo free
    → f.header.fpo ≢ 0
    → ((p : ℕ) → occurs p used + occurs p free ≤ 1)
    → ((p : ℕ) → 1 ≤ occurs p used + occurs p free → (0 < p) × (p < f.end_offset))
    → 0 < f.end_offset
    → IsNew f.header.fpo f (taken f) used
taken-IsNew f used [] chain ne once inside behind = absurd (ne chain)
taken-IsNew f used (q ∷ free) (e, positive, chain) ne once inside behind =
    let fpo = f.header.fpo in
    let alone : occurs fpo used + suc (occurs fpo free) ≤ 1 = ground (arith, once fpo, e) in
    (
      omega (arith, alone),
      record {
        free = free;
        chain =
            Chain-write f.page fpo blank_page (f.page fpo).parent_page_offset free (rw e chain)
              (omega (arith, alone));
        once = λ p. elim (ℕ_discrete p fpo) [
          | yes same ↦
              ground (arith, alone, ap (λ k. occurs k used) same, ap (λ k. occurs k free) same)
          | no other ↦ rw (==-of_ne p fpo other) (omega (arith, once p))
        ];
        inside = λ p h. inside p (ground (arith, h, e));
        behind_header = behind;
      },
      λ p h. elim (ℕ_discrete p fpo) [
        | yes same ↦ absurd (omega (arith, h, alone, ap (λ k. occurs k used) same))
        | no other ↦ rw (==-of_ne p fpo other) refl
      ],
    )

-- Where the pages in use and those of the free list are different pages of the file: new_page gives
-- a page that was not in use, keeps this so with the page in use, and changes no page that was in
-- use.
pub new_page-IsFile :
    (f : TreeFile) (used : List ℕ)
    → IsFile f used
    → (occurs (new_page f).0 used ≡ 0)
      × IsFile (new_page f).1 ((new_page f).0 ∷ used)
      × ((p : ℕ) → 1 ≤ occurs p used → (new_page f).1.page p ≡ f.page p)
unfolding new_page
new_page-IsFile f used ok = elim (Bool-cases (f.header.fpo == 0)) [
  | inl t ↦ rw (new_page, t) (grown-IsNew f used ok (ground arith))
  | inr ne ↦
      rw (new_page, ne)
        (taken-IsNew f used ok.free ok.chain (ground arith) ok.once ok.inside ok.behind_header)
]

occurs-remove :
    (i p : ℕ) (used : List ℕ)
    → i < length used
    → occurs p (remove i used) + (if p == get_or used i 0 then 1 else 0) ≡ occurs p used
occurs-remove i p [] lt = absurd (omega arith)
occurs-remove zero p (q ∷ used) lt = omega arith
occurs-remove (suc i) p (q ∷ used) lt =
    let rest = occurs-remove i p used (omega arith) in omega arith

pub usetofree-IsFile :
    (f : TreeFile) (used : List ℕ) (i : ℕ)
    → IsFile f used
    → i < length used
    → IsFile (usetofree (get_or used i 0) f) (remove i used)
      × ((p : ℕ) → 1 ≤ occurs p (remove i used) → (usetofree (get_or used i 0) f).page p ≡ f.page p)
unfolding usetofree
usetofree-IsFile f used i ok lt =
    let q = get_or used i 0 in
    let count : (p : ℕ) → occurs p (remove i used) + (if p == q then 1 else 0) ≡ occurs p used =
      λ p. occurs-remove i p used lt in
    let mine = ==_refl q in
    let alone : (occurs q (remove i used) ≡ 0) × (occurs q ok.free ≡ 0) × (1 ≤ occurs q used) =
      ground (arith, count q, ok.once q, mine) in
    let (positive, low) = ok.inside q (omega (arith, alone)) in
    let freed = record blank_page { parent_page_offset = f.header.fpo } in
    (
      record {
        free = q ∷ ok.free;
        chain = (
          refl,
          omega (arith, positive),
          rw mine (Chain-write f.page q freed f.header.fpo ok.free ok.chain (alone.1)),
        );
        once = λ p. omega (arith, ok.once p, count p);
        inside = λ p h. ok.inside p (omega (arith, h, count p));
        behind_header = ok.behind_header;
      },
      λ p h. elim (ℕ_discrete p q) [
        | yes same ↦ absurd (omega (arith, h, alone.0, ap (λ k. occurs k (remove i used)) same))
        | no other ↦ rw (==-of_ne p q other) refl
      ],
    )

-- the page
pub new_page-usetofree :
    (f : TreeFile) (off : ℕ)
    → off ≢ 0
    → ((new_page (usetofree off f)).0 ≡ off)
      × ((new_page (usetofree off f)).1.header.fpo ≡ f.header.fpo)
      × ((new_page (usetofree off f)).1.page off ≡ blank_page)
unfolding new_page usetofree
new_page-usetofree f off ne = rw (new_page, ==-of_ne off 0 ne, ==_refl off) (refl, refl, refl)
