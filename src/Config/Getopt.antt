-- ===== src/Config/Getopt.antt =====
-- The command line of src/Config.cpp: the `getopt` of the C library with the options that `parse`
-- names, as glibc does it, which skips operands wherever they stand.
pub mod Words
pub mod Written
mod Tests
use ff_test.Base.{
  ℕ, Bool, true, false, ◌||◌, ◌&&◌, if◌then◌else◌, Option, none, some, List, [], ◌∷◌, ◌++◌, ◌==◌,
}
use ff_test.Base.Text.{Text, text_eq, is_empty}
use ff_test.Config.{Config, parse}

-- The letters with a ':' in "h::t:c:d:f:o:s:b:l:p:"; 'h' has two, and an argument only if that is
-- written in the same word.
unfoldable pub requires_argument : ℕ → Bool
requires_argument c =
    c == b't'
    || c == b'c'
    || c == b'd'
    || c == b'f'
    || c == b'o'
    || c == b's'
    || c == b'b'
    || c == b'l'
    || c == b'p'

-- The letters of one word after its '-': what `getopt` answers, and the letter that takes the next
-- word as its argument. An unknown letter is answered with '?'.
unfoldable pub letters : Text → List (ℕ × Text) × Option ℕ
unfolding requires_argument
letters [] = ([], none)
letters (c ∷ s) =
    let (answers, waiting) = letters s in
    if requires_argument c
    then (if is_empty s then ([], some c) else ((c, s) ∷ [], none))
    else if c == b'h'
    then ((c, s) ∷ [], none)
    else ((b'?', []) ∷ answers, waiting)

-- A word that is no option: one without '-' before it, or '-' alone.
abbrev pub is_operand : Text → Bool
is_operand [] = true
is_operand (c ∷ []) = true
is_operand (c ∷ _ ∷ _) = if c == b'-' then false else true

abbrev pub tail : Text → Text
tail [] = []
tail (_ ∷ s) = s

-- The answers of `getopt` up to its -1, while a letter waits for its argument.
unfoldable pub getopt : Option ℕ → List Text → List (ℕ × Text)
unfolding letters
getopt none [] = []
getopt (some c) [] = (b'?', []) ∷ []
getopt (some c) (word ∷ words) = (c, word) ∷ getopt none words
getopt none (word ∷ words) =
    let (answers, waiting) = letters (tail word) in
    let rest = getopt waiting words in
    let skipped = getopt none words in
    if is_operand word
    then skipped
    else if text_eq word (b'-' ∷ b'-' ∷ [])
    then []
    else answers ++ rest

-- `Config::parse` of the words after the program's name.
unfoldable pub parse_argv : List Text → Config → Config
unfolding getopt
parse_argv words c = parse (getopt none words) c
