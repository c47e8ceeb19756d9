-- ===== src/File/History.antt =====
-- The life of an `MFile` of src/File.cpp, from its constructor to its destructor.
use ff_test.Base.{
  ℕ, zero, suc, ◌≡◌, if◌then◌else◌, refl, sym, ◌∙◌, Option, none, some, List, ◌∷◌, arith, some_inj,
  subst, Bool-cases, inl, inr,
}
use ff_test.Base.Int.{ℤ, pos, negsuc}
use ff_test.Base.Handles.{Same, free-Same}
use ff_test.File.{
  MFile, unnamed, is_minus_one, open_file, open_fd, create, close, close_fd, destroy,
}

-- The descriptor of the file, and `rest`.
abbrev pub held : ℤ → List ℕ → List ℕ
held (pos n) rest = n ∷ rest
held (negsuc _) rest = rest

-- The descriptor that an `open` leaves open for nobody: the new one when its length cannot be had,
-- or the one that the file had before.
abbrev pub lost_by_open : Option ℕ → Option ℕ → ℤ → List ℕ → List ℕ
lost_by_open none end fd rest = rest
lost_by_open (some new) none fd rest = new ∷ rest
lost_by_open (some new) (some n) fd rest = if is_minus_one n then new ∷ rest else held fd rest

abbrev pub lost_by_create : Option ℕ → ℤ → List ℕ → List ℕ
lost_by_create none fd rest = rest
lost_by_create (some new) fd rest = held fd rest

-- A file and the open descriptors after some of its calls, where `rest` are the descriptors of
-- others and those that it has lost.
pub data Life : List ℕ → MFile → List ℕ → Type 0 where
  news : (rest : List ℕ) → Life rest unnamed rest
  opens :
      {rest : List ℕ} {f : MFile} {fds : List ℕ} (fd end : Option ℕ)
      → Life rest f fds
      → Life (lost_by_open fd end f.fd rest) (open_file fd end f fds).1 (open_file fd end f fds).2
  creates :
      {rest : List ℕ} {f : MFile} {fds : List ℕ} (fd : Option ℕ)
      → Life rest f fds
      → Life (lost_by_create fd f.fd rest) (create fd f fds).1 (create fd f fds).2
  closes :
      {rest : List ℕ} {f f' : MFile} {fds fds' : List ℕ} {ret : ℤ}
      → Life rest f fds
      → close f fds ≡ some (ret, f', fds')
      → Life rest f' fds'

add-held :
    (new : ℕ) (fd : ℤ) (fds rest : List ℕ)
    → Same fds (held fd rest)
    → Same (new ∷ fds) (held fd (new ∷ rest))
add-held new (pos n) fds rest s = λ k. omega (arith, s k)
add-held new (negsuc n) fds rest s = λ k. omega (arith, s k)

open_file-held :
    (fd end : Option ℕ) (f : MFile) (fds rest : List ℕ)
    → Same fds (held f.fd rest)
    → let r = open_file fd end f fds in Same r.2 (held r.1.fd (lost_by_open fd end f.fd rest))
unfolding open_file open_fd
open_file-held none end f fds rest s = s
open_file-held (some new) none f fds rest s = add-held new f.fd fds rest s
open_file-held (some new) (some n) f fds rest s = elim (Bool-cases (is_minus_one n)) [
  | inl bad ↦ rw bad (add-held new f.fd fds rest s)
  | inr good ↦ rw good (λ k. omega (arith, s k))
]

create-held :
    (fd : Option ℕ) (f : MFile) (fds rest : List ℕ)
    → Same fds (held f.fd rest)
    → let r = create fd f fds in Same r.2 (held r.1.fd (lost_by_create fd f.fd rest))
unfolding create
create-held none f fds rest s = s
create-held (some new) f fds rest s = λ k. omega (arith, s k)

-- What `close` leaves open of the file's own: the descriptor 0.
abbrev pub kept_open : ℤ → List ℕ → List ℕ
kept_open (pos zero) rest = 0 ∷ rest
kept_open _ rest = rest

-- `close` returns, closes the descriptor of the file if it is not 0, and nothing else.
close-held :
    (fd : ℤ) (f : MFile) (fds rest : List ℕ)
    → Same fds (held fd rest)
    → (r : ℤ × MFile × List ℕ) × (close_fd fd (record f { fd = fd }) fds ≡ some r)
      × Same r.2 (held r.1.fd rest)
      × Same r.2 (kept_open fd rest)
unfolding close_fd
close-held (pos zero) f fds rest s = (_, refl, s, s)
close-held (negsuc n) f fds rest s = (_, refl, s, s)
close-held (pos (suc n)) f fds rest s =
    let (fds', freed, same) = free-Same (suc n) fds rest s in
    ((pos 0, record f { fd = negsuc 0 }, fds'), rw freed refl, same, same)

Life-held : {rest : List ℕ} {f : MFile} {fds : List ℕ} → Life rest f fds → Same fds (held f.fd rest)
Life-held (news rest) = unfold unnamed in λ k. refl
Life-held (opens {rest} {f} {fds} fd end l) = open_file-held fd end f fds rest (Life-held l)
Life-held (creates {rest} {f} {fds} fd l) = create-held fd f fds rest (Life-held l)
Life-held (closes {rest} {f} {f'} {fds} {fds'} {ret} l run) =
    let (r, run', same, _) = close-held f.fd f fds rest (Life-held l) in
    let e : r ≡ (ret, f', fds') = some_inj (sym run' ∙ (unfold close in run)) in
    subst (λ x. Same x.2 (held x.1.fd rest)) e same

-- Whatever has been called on an `MFile` that its constructor without a name has made (the one with
-- a name leaves the descriptor without a value), and whatever the system has answered: its
-- destructor returns, and closes no descriptor but the one that the file holds. Open are then the
-- descriptors of others, those of a failed `open`, those that a second `open` or `create` has
-- replaced, and the file's own if that is 0.
pub Life-destroy :
    (rest : List ℕ) (f : MFile) (fds : List ℕ)
    → Life rest f fds
    → (fds' : List ℕ) × (destroy f fds ≡ some fds') × Same fds' (kept_open f.fd rest)
unfolding destroy close
Life-destroy rest f fds l =
    let (r, run, _, same) = close-held f.fd f fds rest (Life-held l) in (r.2, rw run refl, same)
