-- ===== src/Config/Options.antt =====
-- What the options of src/Config.cpp leave in the settings.
use ff_test.Base.{
  ℕ, ◌≡◌, refl, ◌∙◌, Bool, true, false, if◌then◌else◌, Option, none, some, List, [], ◌∷◌, map, ◌==◌,
  arith,
}
use ff_test.Base.Text.{Text}
use ff_test.Config.{Config, apply_option, parse, atoi, to_u16, core_of}

-- The argument of the last option of a letter.
abbrev pub last_of : ℕ → List (ℕ × Text) → Option Text
last_of letter [] = none
last_of letter ((opt, arg) ∷ events) =
    let rest = last_of letter events in
    elim rest [ some s ↦ some s | none ↦ if opt == letter then some arg else none ]

abbrev pub or_default {ℓ} : {A : Type ℓ} → (Text → A) → A → Option Text → A
or_default g old none = old
or_default g old (some s) = g s

or_default_step {ℓ} :
    {A : Type ℓ} (g : Text → A) (old new : A) (arg : Text) (b : Bool) (o : Option Text)
    → new ≡ (if b then g arg else old)
    → or_default g new o
      ≡ or_default g old (elim o [ some s ↦ some s | none ↦ if b then some arg else none ])
or_default_step g old new arg true none e = e
or_default_step g old new arg false none e = e
or_default_step g old new arg b (some s) e = refl

-- A setting that one letter alone changes is that of the last option of the letter.
field_of_last {ℓ} :
    {A : Type ℓ} (get : Config → A) (g : Text → A) (letter : ℕ)
    → ((opt : ℕ) (arg : Text) (c : Config)
        → get (apply_option opt arg c) ≡ (if opt == letter then g arg else get c))
    → (events : List (ℕ × Text)) (c : Config)
    → get (parse events c) ≡ or_default g (get c) (last_of letter events)
unfolding parse
field_of_last get g letter step [] c = refl
field_of_last get g letter step ((opt, arg) ∷ events) c =
    field_of_last get g letter step events (apply_option opt arg c)
    ∙ or_default_step g (get c) (get (apply_option opt arg c)) arg (opt == letter)
        (last_of letter events) (step opt arg c)

-- After `parse` the settings of the options 'c', 'f', 'd', 'o', 's', 'b', 'l' and 'p' are those of
-- the last such option, and as before without one: the cores are the characters of the argument
-- less '0', the paths are the arguments, and the numbers are cut to 16 bits, except for 'l'.
pub parse_last :
    (events : List (ℕ × Text)) (c : Config)
    → let c' = parse events c in
      (c'.vec_core ≡ or_default (map core_of) c.vec_core (last_of b'c' events))
      × (c'.file_path ≡ or_default (λ s. s) c.file_path (last_of b'f' events))
      × (c'.dir_path ≡ or_default (λ s. s) c.dir_path (last_of b'd' events))
      × (c'.output_path ≡ or_default (λ s. s) c.output_path (last_of b'o' events))
      × (c'.skip_frame ≡ or_default (λ s. to_u16 (atoi s)) c.skip_frame (last_of b's' events))
      × (c'.get_buffer ≡ or_default (λ s. to_u16 (atoi s)) c.get_buffer (last_of b'b' events))
      × (c'.seclive ≡ or_default atoi c.seclive (last_of b'l' events))
      × (c'.programme ≡ or_default (λ s. some (to_u16 (atoi s))) c.programme (last_of b'p' events))
unfolding apply_option
parse_last events c = (
  field_of_last (λ (x : Config). x.vec_core) _ b'c' (λ opt arg x. ground arith) events c,
  field_of_last (λ (x : Config). x.file_path) _ b'f' (λ opt arg x. ground arith) events c,
  field_of_last (λ (x : Config). x.dir_path) _ b'd' (λ opt arg x. ground arith) events c,
  field_of_last (λ (x : Config). x.output_path) _ b'o' (λ opt arg x. ground arith) events c,
  field_of_last (λ (x : Config). x.skip_frame) _ b's' (λ opt arg x. ground arith) events c,
  field_of_last (λ (x : Config). x.get_buffer) _ b'b' (λ opt arg x. ground arith) events c,
  field_of_last (λ (x : Config). x.seclive) _ b'l' (λ opt arg x. ground arith) events c,
  field_of_last (λ (x : Config). x.programme) _ b'p' (λ opt arg x. ground arith) events c,
)
