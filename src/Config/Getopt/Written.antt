-- ===== src/Config/Getopt/Written.antt =====
-- Settings that are written as a command line and that src/Config.cpp reads back.
use ff_test.Base.{
  ℕ, ◌+◌, ◌^◌, ◌<◌, ◌≡◌, refl, ◌∙◌, ap, sym, none, some, List, [], ◌∷◌, ◌++◌, map, arith, All,
  u16_mod, append-nil,
}
use ff_test.Base.Int.{pos}
use ff_test.Base.Text.{Text}
use ff_test.Task.{decimal}
use ff_test.Config.{Config, default_config, parse, apply_option, atoi, to_u16, core_of}
use ff_test.Config.Numbers.{atoi-decimal}
use ff_test.Config.Getopt.{requires_argument, getopt, parse_argv}
use ff_test.Config.Getopt.Words.{Given, separate, words_of, events_of, IsGiven, getopt-words_of}

-- What the options set but for '-h'.
pub record Settings : Type 0 where
  pub file : Text
  pub dir : Text
  pub output : Text
  pub cores : List ℕ
  pub skip_frame : ℕ
  pub get_buffer : ℕ
  pub seclive : ℕ
  pub programme : ℕ

abbrev pub options_of : Settings → List Given
options_of s =
    separate b'f' s.file
    ∷ separate b'd' s.dir
    ∷ separate b'o' s.output
    ∷ separate b'c' (map (λ k. b'0' + k) s.cores)
    ∷ separate b's' (decimal s.skip_frame)
    ∷ separate b'b' (decimal s.get_buffer)
    ∷ separate b'l' (decimal s.seclive)
    ∷ separate b'p' (decimal s.programme)
    ∷ []

abbrev pub config_of : Settings → Config
config_of s = record {
  file_path = s.file;
  dir_path = s.dir;
  output_path = s.output;
  vec_core = map pos s.cores;
  skip_frame = s.skip_frame;
  get_buffer = s.get_buffer;
  help = 0;
  seclive = pos s.seclive;
  programme = some s.programme;
}

-- The characters '0' and on that a `char` has.
abbrev pub AreChars : List ℕ → Type 0
AreChars = All (λ core. core < 80)

cores_of_digits :
    (cores : List ℕ) → AreChars cores → map core_of (map (λ k. b'0' + k) cores) ≡ map pos cores
cores_of_digits [] chars = refl
cores_of_digits (k ∷ cores) (lt, chars) =
    let first : core_of (b'0' + k) ≡ pos k = ground arith in
    rw (first, cores_of_digits cores chars) refl

to_u16-decimal : (n : ℕ) → n < u16_mod → to_u16 (atoi (decimal n)) ≡ n
to_u16-decimal n h = rw (atoi-decimal n (omega arith)) (omega arith)

options-IsGiven : (s : Settings) → All IsGiven (options_of s)
unfolding requires_argument
options-IsGiven s = (refl, (refl, (refl, (refl, (refl, (refl, (refl, (refl, tt))))))))

parse-options :
    (s : Settings)
    → s.skip_frame < u16_mod
    → s.get_buffer < u16_mod
    → s.seclive < 2 ^ 31
    → s.programme < u16_mod
    → AreChars s.cores
    → parse (events_of (options_of s)) default_config ≡ config_of s
unfolding parse apply_option
parse-options s skip buf live prog chars =
    let cores = cores_of_digits s.cores chars in
    let skip_is = to_u16-decimal s.skip_frame skip in
    let buf_is = to_u16-decimal s.get_buffer buf in
    let live_is = atoi-decimal s.seclive (omega arith) in
    let prog_is = to_u16-decimal s.programme prog in
    rw (cores, skip_is, buf_is, live_is, prog_is) refl

parse_argv-options :
    (s : Settings) (more : List Text)
    → s.skip_frame < u16_mod
    → s.get_buffer < u16_mod
    → s.seclive < 2 ^ 31
    → s.programme < u16_mod
    → AreChars s.cores
    → getopt none more ≡ []
    → parse_argv (words_of (options_of s) ++ more) default_config ≡ config_of s
unfolding parse_argv
parse_argv-options s more skip buf live prog chars over =
    let read : getopt none (words_of (options_of s) ++ more) ≡ events_of (options_of s) =
      getopt-words_of (options_of s) more (options-IsGiven s) ∙ rw over refl in
    ap (λ x. parse x default_config) read ∙ parse-options s skip buf live prog chars

pub parse_argv-written :
    (s : Settings) (after : List Text)
    → s.skip_frame < u16_mod
    → s.get_buffer < u16_mod
    → s.seclive < 2 ^ 31
    → s.programme < u16_mod
    → AreChars s.cores
    → (parse_argv (words_of (options_of s)) default_config ≡ config_of s)
      × (parse_argv (words_of (options_of s) ++ ((b'-' ∷ b'-' ∷ []) ∷ after)) default_config
          ≡ config_of s)
unfolding getopt
parse_argv-written s after skip buf live prog chars = (
  ap (λ x. parse_argv x default_config) (sym (append-nil (words_of (options_of s))))
      ∙ parse_argv-options s [] skip buf live prog chars refl,
  parse_argv-options s ((b'-' ∷ b'-' ∷ []) ∷ after) skip buf live prog chars refl,
)
