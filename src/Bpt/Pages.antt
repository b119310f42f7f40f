-- ===== src/Bpt/Pages.antt =====
-- The file of bpt.c: the header page, the pages, and the list of free pages through parent_page_offset.
pub mod FreeList
use computer_science_project.Prelude.{ℕ, ◌+◌, Bool, true, false, List, [], ◌∷◌, ◌==◌, if◌then◌else◌}
use computer_science_project.Bpt.{Record, Page}

pub record Header : Type 0 where
  pub fpo : ℕ
  pub rpo : ℕ
  pub num_of_pages : ℕ

-- `page` is what load_page gives for an offset, `end_offset` the size of the file.
pub record TreeFile : Type 0 where
  pub header : Header
  pub page : ℕ → Page
  pub end_offset : ℕ

-- sizeof(page)
abbrev pub page_size : ℕ
page_size = 4240

-- pwrite of a page
abbrev pub write_page : ℕ → Page → TreeFile → TreeFile
write_page off p f = record f { page = λ o. if o == off then p else f.page o }

-- reset, and freetouse, which leaves the arrays behind a count of zero
abbrev pub blank_page : Page
blank_page = record {
  parent_page_offset = 0;
  is_leaf = false;
  next_offset = 0;
  b_f = [];
  records = [];
}

unfoldable pub usetofree : ℕ → TreeFile → TreeFile
usetofree off f =
    let freed = write_page off (record blank_page { parent_page_offset = f.header.fpo }) f in
    record freed { header = record f.header { fpo = off } }

-- new_page where there is a free page
abbrev pub taken : TreeFile → TreeFile
taken f =
    write_page f.header.fpo blank_page
      (record f { header = record f.header { fpo = (f.page f.header.fpo).parent_page_offset } })

-- new_page where the file grows
abbrev pub grown : TreeFile → TreeFile
grown f = record (write_page f.end_offset blank_page f) {
  header = record f.header { num_of_pages = f.header.num_of_pages + 1 };
  end_offset = f.end_offset + page_size;
}

-- The offset, and the file.
unfoldable pub new_page : TreeFile → ℕ × TreeFile
new_page f = if f.header.fpo == 0 then (f.end_offset, grown f) else (f.header.fpo, taken f)

-- open_table on a path with no file
unfoldable pub new_file : (ℕ → Page) → TreeFile
new_file page = record {
  header = record { fpo = 0; rpo = 0; num_of_pages = 1 };
  page = page;
  end_offset = 4096;
}

-- start_new_file, without the copy of the root in memory
unfoldable pub start_new_file : Record → TreeFile → TreeFile
unfolding new_page
start_new_file r f =
    let (ro, g) = new_page f in
    write_page ro (record (g.page ro) { is_leaf = true; records = r ∷ [] })
      (record g { header = record g.header { rpo = ro } })
