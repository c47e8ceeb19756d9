-- ===== src/Sender/Tests.antt =====
-- Senders on which the theorems about src/Sender.cpp apply.
use ff_test.Base.{◌≤◌, ◌≡◌, ◌⊎◌, refl, inl, true, false, some}
use ff_test.Base.Int.{pos}
use ff_test.TaskPool.{Created}
use ff_test.Sender.{Place, looping, finished, Sender, new_sender, init, stop, release, task_sender}
use ff_test.Sender.Life.{Reach, here, then_step, inits, Turns, still, turn, destroy_ends}

abbrev created : Created
created = record { ret = pos 0; leaves_tid = true }

abbrev told : Place → Sender
told place = record { has_thread = true; stop_flag = true; place = place }

begun : Reach (init created new_sender).1
begun = then_step here (inits created refl (inl refl))

told-Turns : Turns (stop (init created new_sender).1) 1 (told finished)
unfolding init task_sender
told-Turns = turn {s' = told looping} still refl

destroy_ends_example :
    let Joins = λ (s : Sender). (t : Sender) × (release s ≡ some t) × (t.has_thread ≡ false) in
    (1 ≤ 1)
    × (Joins (told finished) ⊎ ((s : Sender) × (task_sender (told finished) ≡ some s) × Joins s))
destroy_ends_example = destroy_ends (init created new_sender).1 (told finished) 1 begun told-Turns
