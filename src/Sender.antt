-- ===== src/Sender.antt =====
-- src/Sender.hpp and src/Sender.cpp: a sender, whose thread loops until it is told to stop. The
-- thread goes one step at a time, from its place in `task_sender`.
pub mod Life
mod Tests
use ff_test.Base.{Bool, true, false, if◌then◌else◌, Option, none, some}
use ff_test.Base.Int.{ℤ, pos, negsuc, is_negative, is_zero}
use ff_test.TaskPool.{Created}

-- Where the thread is: there is none, it is at the test of `m_bStop`, or it has returned.
pub data Place : Type 0 where
  absent looping finished : Place

-- `has_thread` is `m_tid != 0`. `m_lstFiles`, which no operation uses, is left out.
pub record Sender : Type 0 where
  pub has_thread : Bool
  pub stop_flag : Bool
  pub place : Place

-- `Sender::Sender`
abbrev pub new_sender : Sender
new_sender = record { has_thread = false; stop_flag = false; place = absent }

-- `Sender::init`, for what `pthread_create` answers.
unfoldable pub init : Created → Sender → ℤ × Sender
init c s =
    if is_negative c.ret
    then (negsuc 0, record s { has_thread = false })
    else if is_zero c.ret
    then (pos 0, record s { has_thread = true; place = looping })
    else (pos 0, record s { has_thread = c.leaves_tid })

-- `Sender::start`, which does nothing.
abbrev pub start : Sender → Sender
start s = s

-- `Sender::stop`
abbrev pub stop : Sender → Sender
stop s = record s { stop_flag = true }

-- `Sender::release`, when it returns: `pthread_join` waits until the thread has returned.
unfoldable pub release : Sender → Option Sender
release s =
    if s.has_thread
    then elim s.place [
      | finished ↦ some (record s { has_thread = false })
      | looping ↦ none
      | absent ↦ none
    ]
    else some s

-- `Sender::~Sender`, when it returns at once.
unfoldable pub destroy : Sender → Option Sender
unfolding release
destroy s = release (stop s)

-- One step of `Sender::task_sender`; `none` when there is no thread or it is over.
unfoldable pub task_sender : Sender → Option Sender
task_sender s = elim s.place [
  | absent ↦ none
  | looping ↦ some (if s.stop_flag then record s { place = finished } else s)
  | finished ↦ none
]
