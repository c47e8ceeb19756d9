-- ===== src/Sender/Life.antt =====
-- The thread of src/Sender.cpp beside the calls of its owner, from the constructor to the
-- destructor.
use ff_test.Base.{
  ℕ, zero, suc, ◌+◌, ◌≤◌, ◌≡◌, ◌⊎◌, refl, inl, inr, sym, Bool, true, false, none, some, some_inj,
  arith,
}
use ff_test.Base.Int.{pos, is_negative}
use ff_test.TaskPool.{Created}
use ff_test.Sender.{
  Place, absent, looping, finished, Sender, new_sender, init, start, stop, release, task_sender,
}

-- What can happen to a sender: a call of `init` while it has no thread, which creates one or
-- reports that it could not, a call of `start` or `stop`, a call of `release` that returns, and a
-- step of the thread.
pub data Step (s : Sender) : Sender → Type 0 where
  inits :
      (c : Created)
      → s.has_thread ≡ false
      → (c.ret ≡ pos 0) ⊎ (is_negative c.ret ≡ true)
      → Step s (init c s).1
  starts : Step s (start s)
  stops : Step s (stop s)
  releases : {s' : Sender} → release s ≡ some s' → Step s s'
  runs : {s' : Sender} → task_sender s ≡ some s' → Step s s'

pub data Reach : Sender → Type 0 where
  here : Reach new_sender
  then_step : {s s' : Sender} → Reach s → Step s s' → Reach s'

-- `k` steps of the thread.
pub data Turns (s : Sender) : ℕ → Sender → Type 0 where
  still : Turns s zero s
  turn : {k : ℕ} {s' s'' : Sender} → Turns s k s' → task_sender s' ≡ some s'' → Turns s (suc k) s''

-- There is a thread id exactly while there is a thread that was not joined.
abbrev IsJoinable : Bool → Place → Type 0
IsJoinable has_thread absent = has_thread ≡ false
IsJoinable has_thread looping = has_thread ≡ true
IsJoinable has_thread finished = Unit {0}

init-IsJoinable :
    (c : Created) (stopped : Bool) (place : Place)
    → (c.ret ≡ pos 0) ⊎ (is_negative c.ret ≡ true)
    → IsJoinable false place
    → let s' = (init c (record { has_thread = false; stop_flag = stopped; place = place })).1 in
      IsJoinable s'.has_thread s'.place
unfolding init
init-IsJoinable c stopped place (inl made) j = rw made refl
init-IsJoinable c stopped place (inr failed) j = rw failed j

release-IsJoinable :
    (has stopped : Bool) (place : Place) (s' : Sender)
    → release (record { has_thread = has; stop_flag = stopped; place = place }) ≡ some s'
    → IsJoinable has place
    → IsJoinable s'.has_thread s'.place
unfolding release
release-IsJoinable false stopped place s' e j = rw (← some_inj e) j
release-IsJoinable true stopped absent s' e j = cc
release-IsJoinable true stopped looping s' e j = cc
release-IsJoinable true stopped finished s' e j = rw (← some_inj e) tt

task_sender-IsJoinable :
    (has stopped : Bool) (place : Place) (s' : Sender)
    → task_sender (record { has_thread = has; stop_flag = stopped; place = place }) ≡ some s'
    → IsJoinable has place
    → IsJoinable s'.has_thread s'.place
unfolding task_sender
task_sender-IsJoinable has stopped absent s' e j = cc
task_sender-IsJoinable has true looping s' e j = rw (← some_inj e) tt
task_sender-IsJoinable has false looping s' e j = rw (← some_inj e) j
task_sender-IsJoinable has stopped finished s' e j = cc

Reach-IsJoinable : {s : Sender} → Reach s → IsJoinable s.has_thread s.place
Reach-IsJoinable here = refl
Reach-IsJoinable (then_step {s} r (inits c free made)) =
    rw (sym free) at (init-IsJoinable c s.stop_flag s.place made (rw free at (Reach-IsJoinable r)))
Reach-IsJoinable (then_step r starts) = Reach-IsJoinable r
Reach-IsJoinable (then_step r stops) = Reach-IsJoinable r
Reach-IsJoinable (then_step {s} {s'} r (releases e)) =
    release-IsJoinable s.has_thread s.stop_flag s.place s' e (Reach-IsJoinable r)
Reach-IsJoinable (then_step {s} {s'} r (runs e)) =
    task_sender-IsJoinable s.has_thread s.stop_flag s.place s' e (Reach-IsJoinable r)

-- The steps that are left to a thread that was told to stop.
abbrev rank : Place → ℕ
rank absent = 0
rank looping = 1
rank finished = 0

told_step :
    (s s' : Sender)
    → s.stop_flag ≡ true
    → task_sender s ≡ some s'
    → (suc (rank s'.place) ≡ rank s.place)
      × (s'.stop_flag ≡ true)
      × (s'.has_thread ≡ s.has_thread)
      × (s'.place ≡ finished)
unfolding task_sender
told_step s s' told e = ground (arith, task_sender)

Turns-told :
    {s s' : Sender} {k : ℕ}
    → Turns s k s'
    → s.stop_flag ≡ true
    → IsJoinable s.has_thread s.place
    → (k + rank s'.place ≡ rank s.place) × (s'.stop_flag ≡ true) × IsJoinable s'.has_thread s'.place
Turns-told still told j = (omega arith, told, j)
Turns-told {s' = s''} (turn {s' = s'} ts e) told j =
    let (r, told', j') = Turns-told ts told j in
    let (r', told'', _, _) = told_step s' s'' told' e in
    (
      omega (arith, r, r'),
      told'',
      task_sender-IsJoinable s'.has_thread s'.stop_flag s'.place s'' e j',
    )

-- The join returns, and no thread is left.
abbrev Joins : Sender → Type 0
Joins s = (t : Sender) × (release s ≡ some t) × (t.has_thread ≡ false)

-- The join returns at once, or after the one step that the thread has left.
told_ends :
    (has stopped : Bool) (place : Place)
    → stopped ≡ true
    → IsJoinable has place
    → let s : Sender = record { has_thread = has; stop_flag = stopped; place = place } in
      Joins s ⊎ ((s' : Sender) × (task_sender s ≡ some s') × Joins s')
unfolding release task_sender
told_ends false stopped place told j = inl (_, refl, refl)
told_ends true stopped absent told j = cc
told_ends true stopped finished told j = inl (_, refl, refl)
told_ends true stopped looping told j =
    rw told (
      inr (record { has_thread = true; stop_flag = true; place = finished }, refl, (_, refl, refl)))

-- Whatever a sender's owner has called and its thread has done since the constructor, every `init`
-- with no thread there and answered with success or a negative number: after the `stop` of the
-- destructor the thread takes at most one step, and the join of the destructor returns at once or
-- after that step, and leaves no thread.
pub destroy_ends :
    (s s' : Sender) (k : ℕ)
    → Reach s
    → Turns (stop s) k s'
    → (k ≤ 1) × (Joins s' ⊎ ((s'' : Sender) × (task_sender s' ≡ some s'') × Joins s''))
destroy_ends s s' k r ts =
    let (left, told, j) = Turns-told ts refl (Reach-IsJoinable r) in
    (omega (arith, left, small s.place), told_ends s'.has_thread s'.stop_flag s'.place told j)
  where
    small : (x : Place) → rank x ≤ 1
    small absent = omega arith
    small looping = omega arith
    small finished = omega arith

abbrev running : Sender
running = record { has_thread = true; stop_flag = false; place = looping }

Turns-running : {k : ℕ} {s' : Sender} → Turns running k s' → s' ≡ running
unfolding task_sender
Turns-running still = refl
Turns-running (turn ts e) = let same = Turns-running ts in sym (some_inj (rw same at e))

-- A thread that was created and not told to stop is still in its loop after any number of steps, so
-- that `release` without `stop` does not return.
pub release_running :
    (c : Created) (k : ℕ) (s' : Sender)
    → c.ret ≡ pos 0
    → Turns (start (init c new_sender).1) k s'
    → (s'.place ≡ looping) × (release s' ≡ none)
unfolding init release
release_running c k s' made ts =
    let begun : (init c new_sender).1 ≡ running = rw made refl in
    rw (Turns-running (rw begun at ts)) (refl, refl)
