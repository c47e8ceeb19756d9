-- ===== src/File/Tests.antt =====
-- Files and descriptors on which the theorems about src/File.cpp apply.
use ff_test.Base.{ℕ, Bool, ◌≡◌, some, List, [], ◌∷◌}
use ff_test.Base.Handles.{Same}
use ff_test.File.{MFile, unnamed, open_file, destroy}
use ff_test.File.History.{news, opens, Life-destroy, lost_by_open, kept_open}

abbrev opened : Bool × MFile × List ℕ
opened = open_file (some 5) (some 10) unnamed (3 ∷ [])

-- Opened a second time, as the descriptor 6.
abbrev twice_opened : Bool × MFile × List ℕ
twice_opened = open_file (some 6) (some 20) opened.1 opened.2

abbrev lost : List ℕ
lost =
    lost_by_open (some 6) (some 20) opened.1.fd
      (lost_by_open (some 5) (some 10) unnamed.fd (3 ∷ []))

Life-destroy_example :
    (fds' : List ℕ) × (destroy twice_opened.1 twice_opened.2 ≡ some fds')
    × Same fds' (kept_open twice_opened.1.fd lost)
Life-destroy_example =
    Life-destroy lost twice_opened.1 twice_opened.2
      (opens (some 6) (some 20) (opens (some 5) (some 10) (news (3 ∷ []))))
