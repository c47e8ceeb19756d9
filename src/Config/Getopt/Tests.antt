-- ===== src/Config/Getopt/Tests.antt =====
-- Command lines on which the theorems about `parse` of src/Config.cpp and its `getopt` apply.
use ff_test.Base.{List, [], ◌∷◌}
use ff_test.Base.Text.{Text}
use ff_test.Config.Getopt.Written.{Settings}

-- -- -s
abbrev behind : List Text
behind = (b'-' ∷ b'-' ∷ []) ∷ (b'-' ∷ b's' ∷ []) ∷ []

-- -f v -d '' -o -o -c 12 -s 2 -b 0 -l 30 -p 8
abbrev settings : Settings
settings = record {
  file = b'v' ∷ [];
  dir = [];
  output = b'-' ∷ b'o' ∷ [];
  cores = 1 ∷ 2 ∷ [];
  skip_frame = 2;
  get_buffer = 0;
  seclive = 30;
  programme = 8;
}
