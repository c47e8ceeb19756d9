-- ===== src/FileList/Tests.antt =====
-- A directory on which the theorems about src/FileList.cpp and src/main.cpp apply.
use ff_test.Base.{◌≡◌, refl, Option, none, some, List, [], ◌∷◌, ◌++◌, if◌then◌else◌}
use ff_test.Base.Int.{pos, negsuc}
use ff_test.Base.Text.{Text, text_eq}
use ff_test.FileList.{
  FileList, dot, dot_dot, new_list, Mode, regular, special, ff_filter, input_collect,
}
use ff_test.FileList.Search.{input_collect_files, input_collect_no_slash}

abbrev dir : Text
dir = b'd' ∷ b'/' ∷ []

abbrev file_a : Text
file_a = b'a' ∷ []

abbrev dir_s : Text
dir_s = b's' ∷ []

abbrev stat : Text → Option Mode
stat path =
    if text_eq path (dir ++ file_a)
    then some regular
    else if text_eq path (dir ++ dir_s)
    then some special
    else none

abbrev readdir : Text → Option (List Text)
readdir path = some (dot ∷ file_a ∷ dot_dot ∷ dir_s ∷ [])

abbrev list_of : List Text → FileList
list_of files = record { files = files; filter = ff_filter stat }

input_collect_files_example :
    input_collect stat readdir dir (b'f' ∷ []) (list_of [])
    ≡ (pos 0, list_of ((dir ++ file_a) ∷ (b'f' ∷ []) ∷ []))
unfolding ff_filter
input_collect_files_example = input_collect_files stat readdir dir (b'f' ∷ []) (list_of [])

input_collect_no_slash_example : (input_collect stat readdir (b'd' ∷ []) [] new_list).0 ≡ negsuc 0
input_collect_no_slash_example =
    input_collect_no_slash stat readdir (b'd' ∷ []) (dot ∷ file_a ∷ dot_dot ∷ dir_s ∷ []) refl
      (refl, (refl, (refl, (refl, tt))))
