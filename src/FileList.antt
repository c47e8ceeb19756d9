-- ===== src/FileList.antt =====
-- src/FileList.hpp, src/FileList.cpp and the collection of the input files in src/main.cpp. The
-- entries of a directory, in the order of `readdir`, and the answers of `stat` are arguments.
pub mod Search
mod Tests
use ff_test.Base.{
  ℕ, Bool, true, false, not, ◌||◌, if◌then◌else◌, Option, none, some, List, [], ◌∷◌, ◌++◌,
}
use ff_test.Base.Int.{ℤ, pos, negsuc}
use ff_test.Base.Text.{Text, text_eq, is_empty}

-- `filter_t`, of the directory's name and the entry's; `true` leaves the entry out.
abbrev pub Filter : Type 0
Filter = Text → Text → Bool

pub record FileList : Type 0 where
  pub files : List Text
  pub filter : Filter

-- `filter_default`
abbrev pub filter_default : Filter
filter_default cwd entry = false

-- `FileList::FileList()`
abbrev pub new_list : FileList
new_list = record { files = []; filter = filter_default }

-- `FileList::FileList(filter)`
abbrev pub filtered_list : Filter → FileList
filtered_list filter = record { files = []; filter = filter }

unfoldable pub set_filter : Filter → FileList → FileList
set_filter filter l = record l { filter = filter }

abbrev pub dot : Text
dot = b'.' ∷ []

abbrev pub dot_dot : Text
dot_dot = b'.' ∷ b'.' ∷ []

-- The loop of `search`.
pub search_entries : Text → List Text → FileList → FileList
search_entries name [] l = l
search_entries name (e ∷ entries) l = search_entries name entries (
    if text_eq e dot || text_eq e dot_dot
    then l
    else if l.filter name e
    then l
    else record l { files = l.files ++ (name ++ e) ∷ [] })

-- `FileList::search`: `none` is a directory that cannot be opened. The counter `nFile` that it
-- returns is never raised.
pub search_dir : Text → Option (List Text) → FileList → ℤ × FileList
unfolding search_entries
search_dir name none l = (negsuc 0, l)
search_dir name (some entries) l = (pos 0, search_entries name entries l)

-- `FileList::add`
unfoldable pub add : Text → FileList → FileList
add name l = record l { files = l.files ++ name ∷ [] }

-- `st_mode & S_IFMT`: S_IFREG, or any other.
pub data Mode : Type 0 where
  regular special : Mode

-- `ff_filter` of src/main.cpp; `stat` answers `none` where it fails.
pub ff_filter : (Text → Option Mode) → Filter
ff_filter stat cwd entry = elim (stat (cwd ++ entry)) [
  | none ↦ true
  | some m ↦ elim m [ regular ↦ false | special ↦ true ]
]

-- `intput_collect` of src/main.cpp, for `m_sDirPath`, `m_sFilePath` and the list.
unfoldable pub input_collect :
    (Text → Option Mode) → (Text → Option (List Text)) → Text → Text → FileList → ℤ × FileList
unfolding set_filter search_dir add
input_collect stat readdir dir_path file_path l =
    let l1 = set_filter (ff_filter stat) l in
    let l2 = if is_empty dir_path then l1 else (search_dir dir_path (readdir dir_path) l1).1 in
    let l3 = if is_empty file_path then l2 else add file_path l2 in
    (if is_empty l3.files then negsuc 0 else pos 0, l3)

-- What `show` writes to the output: a line for each name.
abbrev pub lines : List Text → Text
lines [] = []
lines (name ∷ files) = name ++ (10 ∷ lines files)

abbrev pub show : FileList → Text
show l = lines l.files
