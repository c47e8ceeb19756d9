-- ===== src/Task/Routine/Tests.antt =====
-- A file of one packet, on which the theorems about `decode_routine` of src/Task.cpp apply.
use ff_test.Base.{ℕ, ◌≡◌, refl, true, false, Option, none, some, List, [], ◌∷◌, arith}
use ff_test.Base.Handles.{Same}
use ff_test.Base.Text.{Text}
use ff_test.Base.Int.{pos, negsuc}
use ff_test.Utils.{util_diff_time_us}
use ff_test.File
use ff_test.File.{MFile, unnamed, create}
use ff_test.Decoder.Impl.{created}
use ff_test.Decoder.Lifecycle
use ff_test.Decoder.Lifecycle.{InitAnswers, OpenAnswers, Settings, video, other}
use ff_test.Decoder.Lifecycle.Life.{lost_buffer}
use ff_test.Decoder.Samples.{codes, now, read, end_of_stream, one_frame, receives}
use ff_test.Decoder.Callbacks.{set_cb_recv_frame, set_cb_read_pkt, read_for, read_pkt}
use ff_test.Decoder.Device.{Device, new_device, init, open_device, get_width, get_height}
use ff_test.Task.{read_pkt_file, output_file_create, get_file_name, after_last_slash}
use ff_test.Task.Routine.{Shared, Pointer, with_callbacks, Turn, Script, World, decode_routine}
use ff_test.Task.Routine.Whole.{decode_routine_records}
use ff_test.Task.Routine.Endless.{decode_routine_refused}
use ff_test.Task.Routine.Frees.{NotZero, IsFreed, decode_routine_frees}

abbrev answers : OpenAnswers
answers = record {
  input = pos 0;
  info = pos 0;
  best = pos 0;
  has_decoder = true;
  streams = video ∷ [];
  codec = some 7;
  parameters = pos 0;
  opened = pos 0;
  width = 4;
  height = 2;
}

-- A turn with the packet, and one at the end of the stream.
abbrev first : Turn
first = record {
  exit = false;
  read = read;
  reads = 2 ∷ [];
  sent = pos 0;
  has_frame = true;
  answers = one_frame;
  end_time = now;
}

abbrev last : Turn
last = record first { read = end_of_stream; reads = []; answers = receives (negsuc 541478724) ∷ [] }

-- The codec refuses the packet that ends the stream.
abbrev refused : Turn
refused = record last { sent = negsuc 21 }

abbrev new_file : Text → Option ℕ
new_file path = some 5

abbrev script : Script
script = record {
  sys = record { answer = λ n have. pos 2; written = λ k have. pos k; fuel = 3 };
  init = record { fmt = some 1; buffer = some 2; io = some 3; pkt = some 4 };
  init_mem = 50;
  cfg = record { skip_frame = 1; get_buffer = 0 };
  open_answers = answers;
  open_reads = 2 ∷ [];
  open_mem = 80;
  output_path = b'o' ∷ [];
  core_id = 1;
  path = b'/' ∷ b'a' ∷ [];
  opened = new_file;
  turns = first ∷ last ∷ [];
  t1 = now;
  t2 = record { tv_sec = 1; tv_usec = 0 };
  size = 10;
  memused_max = 90;
}

abbrev stuck : Script
stuck = record script { turns = refused ∷ refused ∷ [] }

-- The input is open, and each read gets two bytes of it.
abbrev input_file : MFile
input_file = record { fd = pos 3; name = b'v' ∷ []; size = 5 }

abbrev world : World
world = record {
  live = 9 ∷ [];
  open_fds = 3 ∷ [];
  shared = record {
    fdin = some input_file;
    fdout = none;
    input = 1 ∷ 2 ∷ 3 ∷ 4 ∷ 5 ∷ [];
    output = [];
  };
}

abbrev initialised : Device Pointer Shared
initialised = (init script.init 50 (new_device (9 ∷ []))).1

made : (init {P = Pointer} {S = Shared} script.init 50 (new_device (9 ∷ []))).0 ≡ pos 0
unfolding init Lifecycle.init
made = refl

opens :
    (v : Device Pointer Shared) × (s : Shared) × (open_device codes script.cfg answers
        (2 ∷ [])
        80
        (with_callbacks script.sys initialised)
        world.shared
      ≡ some (pos 0, v, s))
unfolding open_device init Lifecycle.init Lifecycle.stream_open Lifecycle.open_codec_ctx created
    new_device Lifecycle.first_video with_callbacks set_cb_read_pkt set_cb_recv_frame read_for
    read_pkt
opens = (_, _, refl)

creates :
    (f : MFile) × (fds : List ℕ) × (output_file_create new_file
        (b'o' ∷ [])
        1
        unnamed
        (b'/' ∷ b'a' ∷ [])
        (get_width opens.0)
        (get_height opens.0)
        (3 ∷ [])
      ≡ (pos 0, f, fds))
unfolding output_file_create get_file_name after_last_slash create unnamed
creates = (_, _, refl)

others : NotZero script
others path zero_fd = cc

-- The run, which the theorem about what is freed is applied to.
abbrev Recorded : Type 0
Recorded =
    (more : List ℕ) × (w' : World) × (decode_routine codes script world
      ≡ some (some (1 ∷ 1 ∷ 1 ∷ more), w'))
    × (w'.shared ≡ record world.shared { fdout = some creates.0; input = 5 ∷ []; output = 7 ∷ [] })
    × IsFreed script world w'

recorded : Recorded
unfolding opens util_diff_time_us read_pkt_file File.read
recorded =
    decode_routine_records codes script world opens.0 opens.1 creates.0 creates.1 made opens.2 refl
      creates.2 ((_, refl), ((_, refl), tt)) refl (λ k have. refl) others
      ((omega arith, omega arith, omega arith, omega arith, omega arith), tt) refl

decode_routine_records_example : Recorded
unfolding opens util_diff_time_us read_pkt_file File.read
decode_routine_records_example =
    decode_routine_records codes script world opens.0 opens.1 creates.0 creates.1 made opens.2 refl
      creates.2 ((_, refl), ((_, refl), tt)) refl (λ k have. refl) others
      ((omega arith, omega arith, omega arith, omega arith, omega arith), tt) refl

decode_routine_frees_example :
    let w' = recorded.1 in
    Same w'.live (lost_buffer script.init (9 ∷ [])) × Same w'.open_fds (3 ∷ [])
decode_routine_frees_example =
    decode_routine_frees codes script world recorded.1 (some (1 ∷ 1 ∷ 1 ∷ recorded.0)) recorded.2
      others

decode_routine_refused_example : decode_routine codes stuck world ≡ none
decode_routine_refused_example =
    decode_routine_refused codes stuck world opens.0 opens.1 creates.0 creates.1 made opens.2 refl
      creates.2 ((refl, refl, refl, refl), ((refl, refl, refl, refl), tt))
      ((_, refl), ((_, refl), tt)) (λ k have. refl)
