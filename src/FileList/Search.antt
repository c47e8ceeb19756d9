-- ===== src/FileList/Search.antt =====
-- Which files the search of src/FileList.cpp and src/main.cpp collects.
use ff_test.Base.{
  ◌≡◌, refl, sym, ◌∙◌, ap, inl, inr, Bool, true, not, ◌||◌, ◌&&◌, Option, none, some, List, [], ◌∷◌,
  ◌++◌, map, All, append_assoc, append-nil, arith, if◌then◌else◌, Bool-cases,
}
use ff_test.Base.Int.{pos, negsuc}
use ff_test.Base.Text.{Text, text_eq, is_empty}
use ff_test.FileList.{
  FileList, Filter, dot, dot_dot, search_entries, search_dir, new_list, set_filter, add, Mode,
  ff_filter, input_collect,
}

-- An entry that is neither "." nor "..", nor left out by the filter.
abbrev pub wanted : Filter → Text → Text → Bool
wanted filter dir e = not (text_eq e dot || text_eq e dot_dot) && not (filter dir e)

-- The wanted entries, in order.
abbrev pub select : (Text → Bool) → List Text → List Text
select p [] = []
select p (e ∷ es) = let rest = select p es in if p e then e ∷ rest else rest

abbrev pub with_files : FileList → List Text → FileList
with_files l files = record l { files = files }

search_entries-select :
    (dir : Text) (entries : List Text) (l : FileList)
    → search_entries dir entries l
      ≡ record l { files = l.files ++ map (λ e. dir ++ e) (select (wanted l.filter dir) entries) }
unfolding search_entries
search_entries-select dir [] l = ap (with_files l) (sym (append-nil l.files))
search_entries-select dir (e ∷ es) l =
    let rest = search_entries-select dir es in
    elim (Bool-cases (text_eq e dot || text_eq e dot_dot)) [
      | inl dots ↦ rw dots (rest l)
      | inr named ↦ elim (Bool-cases (l.filter dir e)) [
        | inl out ↦ rw (named, out) (rest l)
        | inr kept ↦
            rw (named, kept)
              (rest (with_files l (l.files ++ (dir ++ e) ∷ []))
                ∙ ap (with_files l) (append_assoc l.files ((dir ++ e) ∷ []) _))
      ]
    ]

-- `search` appends, for every entry of a directory that can be opened, in order, but "." and ".."
-- and those that the filter leaves out, the directory's name with the entry's name joined to it as
-- it is. Its result is 0 whatever it has found, and -1, with the list unchanged, where the
-- directory cannot be opened.
pub search_dir-select :
    (dir : Text) (readdir : Option (List Text)) (l : FileList)
    → search_dir dir readdir l ≡ elim readdir [
      | none ↦ (negsuc 0, l)
      | some entries ↦ (
        pos 0,
        with_files l (l.files ++ map (λ e. dir ++ e) (select (wanted l.filter dir) entries)),
      )
    ]
unfolding search_dir
search_dir-select dir none l = refl
search_dir-select dir (some entries) l = ap (λ r. (pos 0, r)) (search_entries-select dir entries l)

-- The joined names of the wanted entries of a directory, if it can be opened.
abbrev pub joined : Filter → Text → Option (List Text) → List Text
joined filter dir none = []
joined filter dir (some entries) = map (λ e. dir ++ e) (select (wanted filter dir) entries)

after_search :
    (dir : Text) (readdir : Option (List Text)) (l : FileList)
    → (if is_empty dir then l else (search_dir dir readdir l).1)
      ≡ with_files l (l.files ++ (if is_empty dir then [] else joined l.filter dir readdir))
after_search [] readdir l = ap (with_files l) (sym (append-nil l.files))
after_search (c ∷ dir) none l = rw search_dir-select (ap (with_files l) (sym (append-nil l.files)))
after_search (c ∷ dir) (some entries) l = rw search_dir-select

after_add :
    (file : Text) (l : FileList)
    → (if is_empty file then l else add file l)
      ≡ with_files l (l.files ++ (if is_empty file then [] else file ∷ []))
unfolding add
after_add [] l = ap (with_files l) (sym (append-nil l.files))
after_add (c ∷ file) l = refl

-- `intput_collect` appends, if a directory is given that can be opened, the joined names of its
-- entries but "." and ".." for which `stat` finds a regular file, in order, and then the given
-- file, if one is given. Its result is 0 when the list is not empty then, and -1 when it is.
pub input_collect_files :
    (stat : Text → Option Mode) (readdir : Text → Option (List Text)) (dir file : Text)
    (l : FileList)
    → let files =
        (l.files ++ (if is_empty dir then [] else joined (ff_filter stat) dir (readdir dir)))
        ++ (if is_empty file then [] else file ∷ []) in
      input_collect stat readdir dir file l ≡ (
        if is_empty files then negsuc 0 else pos 0,
        record { files = files; filter = ff_filter stat },
      )
unfolding input_collect set_filter
input_collect_files stat readdir dir file l =
    ap (λ (r : FileList). (if is_empty r.files then negsuc 0 else pos 0, r))
      (after_add file _
        ∙ ap (λ (r : FileList). with_files r (r.files ++ (if is_empty file then [] else file ∷ [])))
            (after_search dir (readdir dir) (set_filter (ff_filter stat) l)))

ff_filter_missing :
    (stat : Text → Option Mode) (dir e : Text)
    → stat (dir ++ e) ≡ none
    → ff_filter stat dir e ≡ true
unfolding ff_filter
ff_filter_missing stat dir e h = rw (h, ff_filter)

select-none :
    (stat : Text → Option Mode) (dir : Text) (es : List Text)
    → All (λ e. stat (dir ++ e) ≡ none) es
    → select (wanted (ff_filter stat) dir) es ≡ []
select-none stat dir [] out = refl
select-none stat dir (e ∷ es) out =
    ground (arith, ff_filter_missing stat dir e out.0, select-none stat dir es out.1)

-- With a directory that can be opened and no file given, where `stat` finds nothing under the
-- directory's name with the entry's run on to it, for every entry, `intput_collect` with a new
-- list answers -1.
pub input_collect_no_slash :
    (stat : Text → Option Mode) (readdir : Text → Option (List Text)) (dir : Text)
    (entries : List Text)
    → readdir dir ≡ some entries
    → All (λ e. stat (dir ++ e) ≡ none) entries
    → (input_collect stat readdir dir [] new_list).0 ≡ negsuc 0
input_collect_no_slash stat readdir dir entries there missing =
    let nothing : joined (ff_filter stat) dir (readdir dir) ≡ [] =
      rw there (ap (map (λ e. dir ++ e)) (select-none stat dir entries missing)) in
    rw (input_collect_files stat readdir dir [] new_list, nothing) (ground arith)
