-- ===== src/Config.antt =====
-- src/Config.hpp and src/Config.cpp: the settings, and the command line that changes them. What
-- `getopt` answers is the argument of `parse`: the option's letter with its `optarg`, one after the
-- other; Config/Getopt has what the C library documents of it.
pub mod Options
pub mod Numbers
pub mod Getopt
use ff_test.Base.{
  ℕ, ◌+◌, ◌-◌, ◌*◌, ◌%◌, Bool, ◌&&◌, ◌||◌, if◌then◌else◌, Option, none, some, List, [], ◌∷◌, map,
  ◌==◌, leb, ltb, u16_mod,
}
use ff_test.Base.Int.{ℤ, pos, negsuc, sub_ℕ}
use ff_test.Base.Text.{Text}

-- `m_nProgramme` has no value until the option is given.
pub record Config : Type 0 where
  pub file_path : Text
  pub dir_path : Text
  pub output_path : Text
  pub vec_core : List ℤ
  pub skip_frame : ℕ
  pub get_buffer : ℕ
  pub help : ℕ
  pub seclive : ℤ
  pub programme : Option ℕ

-- `Config::Config()`
abbrev pub default_config : Config
default_config = record {
  file_path = [];
  dir_path = [];
  output_path = [];
  vec_core = pos 1 ∷ [];
  skip_frame = 0;
  get_buffer = 0;
  help = 0;
  seclive = pos 0;
  programme = none;
}

-- `isspace` and `isdigit` in the C locale
abbrev pub is_space : ℕ → Bool
is_space c = c == 32 || leb 9 c && leb c 13

abbrev pub is_digit : ℕ → Bool
is_digit c = leb b'0' c && leb c b'9'

-- The digits at the start of a text, after those of `n`.
pub read_digits : ℕ → Text → ℕ
read_digits n [] = n
read_digits n (c ∷ s) =
    let rest = read_digits (n * 10 + (c - b'0')) s in if is_digit c then rest else n

-- `-n`
abbrev pub negate : ℕ → ℤ
negate n = sub_ℕ 0 n

read_signed : Text → ℤ
unfolding read_digits
read_signed [] = pos 0
read_signed (c ∷ s) =
    if c == b'-'
    then negate (read_digits 0 s)
    else if c == b'+'
    then pos (read_digits 0 s)
    else pos (read_digits 0 (c ∷ s))

-- atoi, of a number that an `int` holds: white space, a sign, digits.
pub atoi : Text → ℤ
unfolding read_signed
atoi [] = pos 0
atoi (c ∷ s) = let rest = atoi s in if is_space c then rest else read_signed (c ∷ s)

-- The cast of an `int` to uint16_t.
abbrev pub to_u16 : ℤ → ℕ
to_u16 (pos n) = n % u16_mod
to_u16 (negsuc n) = u16_mod - 1 - n % u16_mod

-- `*c - '0'` of a `char`, which is signed: the bytes from 128 on stand for the numbers from -128
-- on.
abbrev pub core_of : ℕ → ℤ
core_of c = if ltb c 128 then sub_ℕ c b'0' else sub_ℕ c (b'0' + 256)

-- The switch of `parse`, for a letter and its `optarg`.
unfoldable pub apply_option : ℕ → Text → Config → Config
unfolding atoi
apply_option opt arg c =
    if opt == b'h'
    then record c { help = 1 }
    else if opt == b'o'
    then record c { output_path = arg }
    else if opt == b't'
    then c
    else if opt == b'c'
    then record c { vec_core = map core_of arg }
    else if opt == b'p'
    then record c { programme = some (to_u16 (atoi arg)) }
    else if opt == b'f'
    then record c { file_path = arg }
    else if opt == b'd'
    then record c { dir_path = arg }
    else if opt == b's'
    then record c { skip_frame = to_u16 (atoi arg) }
    else if opt == b'b'
    then record c { get_buffer = to_u16 (atoi arg) }
    else if opt == b'l'
    then record c { seclive = atoi arg }
    else c

-- `Config::parse`, which always answers `true`.
unfoldable pub parse : List (ℕ × Text) → Config → Config
unfolding apply_option
parse [] c = c
parse ((opt, arg) ∷ events) c = parse events (apply_option opt arg c)
