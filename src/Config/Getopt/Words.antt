-- ===== src/Config/Getopt/Words.antt =====
-- Words of a command line that `getopt`, as src/Config.cpp calls it, reads back.
use ff_test.Base.{ℕ, ◌≡◌, refl, ap, true, false, none, List, [], ◌∷◌, ◌++◌, arith, All}
use ff_test.Base.Text.{Text, text_eq}
use ff_test.Config.Getopt.{requires_argument, letters, is_operand, getopt}

-- A letter with its argument in the next word, or in the same one; "-h"; and an operand.
pub data Given : Type 0 where
  separate : ℕ → Text → Given
  attached : ℕ → ℕ → Text → Given
  asks_help : Given
  operand : Text → Given

abbrev pub words_of : List Given → List Text
words_of [] = []
words_of (separate c s ∷ gs) = (b'-' ∷ c ∷ []) ∷ s ∷ words_of gs
words_of (attached c x s ∷ gs) = (b'-' ∷ c ∷ x ∷ s) ∷ words_of gs
words_of (asks_help ∷ gs) = (b'-' ∷ b'h' ∷ []) ∷ words_of gs
words_of (operand s ∷ gs) = s ∷ words_of gs

abbrev pub events_of : List Given → List (ℕ × Text)
events_of [] = []
events_of (separate c s ∷ gs) = (c, s) ∷ events_of gs
events_of (attached c x s ∷ gs) = (c, x ∷ s) ∷ events_of gs
events_of (asks_help ∷ gs) = (b'h', []) ∷ events_of gs
events_of (operand s ∷ gs) = events_of gs

-- The letter is one that takes an argument.
abbrev pub IsGiven : Given → Type 0
IsGiven (separate c s) = requires_argument c ≡ true
IsGiven (attached c x s) = requires_argument c ≡ true
IsGiven asks_help = Unit {0}
IsGiven (operand s) = is_operand s ≡ true

letter_first :
    (c : ℕ) (s : Text)
    → requires_argument c ≡ true
    → (is_operand (b'-' ∷ c ∷ s) ≡ false) × (text_eq (b'-' ∷ c ∷ s) (b'-' ∷ b'-' ∷ []) ≡ false)
unfolding requires_argument
letter_first c s h = (refl, ground (arith))

-- What is written with options that take an argument, in the next word or in the same one, with
-- "-h" and with operands between them is what `getopt` answers, in that order and without the
-- operands; an argument may be any text, "--" and "-f" too. It then goes on with the words behind.
pub getopt-words_of :
    (gs : List Given) (more : List Text)
    → All IsGiven gs
    → getopt none (words_of gs ++ more) ≡ events_of gs ++ getopt none more
unfolding getopt letters
getopt-words_of [] more a = refl
getopt-words_of (separate c s ∷ gs) more (h, a) =
    rw (letter_first c [] h).1 (rw h (ap (◌∷◌ (c, s)) (getopt-words_of gs more a)))
getopt-words_of (attached c x s ∷ gs) more (h, a) =
    rw (letter_first c (x ∷ s) h).1 (rw h (ap (◌∷◌ (c, x ∷ s)) (getopt-words_of gs more a)))
getopt-words_of (asks_help ∷ gs) more (h, a) = ap (◌∷◌ (b'h', [])) (getopt-words_of gs more a)
getopt-words_of (operand s ∷ gs) more (h, a) = rw h (getopt-words_of gs more a)
