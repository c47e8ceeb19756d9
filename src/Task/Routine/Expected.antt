-- ===== src/Task/Routine/Expected.antt =====
-- What one turn of the loop of `decode_routine` in src/Task.cpp comes to, read off the answers of
-- FFmpeg.
use ff_test.Base.{
  ℕ, ◌+◌, ◌<◌, ◌≡◌, refl, inl, inr, Bool, true, false, not, ◌||◌, ◌&&◌, if◌then◌else◌, none, some,
  List, [], ◌∷◌, ◌++◌, arith, u32_mod, Bool-cases, append_assoc,
}
use ff_test.Base.Int.{ℤ, negsuc, is_negative, eqb}
use ff_test.Av.{ErrorCodes, Frame}
use ff_test.Decoder.State.{Decoder, Call, dec_again, dec_eof, dec_error}
use ff_test.Decoder.Demux.{ReadAnswer, demux}
use ff_test.Decoder.Decode.{Received, Exit, failed, is_eof, decode}
use ff_test.Decoder.Decode.Frames.{ready, stop, exit_of, outcome, decode_frames}
use ff_test.Decoder.Session.{delivered}
use ff_test.Decoder.Session.Stream.{is_fed, deliveries-delivered}
use ff_test.Decoder.Session.Packets.{count_packet}
use ff_test.Task.Routine.{Turn}

-- How the loop of `decode` ends.
abbrev pub exit_of_answers : ErrorCodes → List Received → Exit
exit_of_answers e answers = elim (stop answers) [ none ↦ failed | some last ↦ exit_of e last ]

-- The result of `decode`; `at_end` is whether the packet is empty.
abbrev pub result_of : ErrorCodes → Bool → Turn → ℤ
result_of e at_end t =
    if is_negative t.sent
    then (if eqb t.sent e.eof
        then dec_eof
        else if eqb t.sent e.eagain
        then dec_again
        else dec_error)
    else if t.has_frame
    then outcome at_end (exit_of_answers e t.answers)
    else negsuc 0

abbrev pub decoded_frames : Turn → List Frame
decoded_frames t = if is_negative t.sent then [] else if t.has_frame then ready t.answers else []

-- The codec answers until no frame is ready.
abbrev pub IsStopped : Turn → Type 0
IsStopped t = (last : Received) × (stop t.answers ≡ some last)

-- `decode` on all its branches: it returns, and has handed out the frames of the turn.
pub decode_turn_lem :
    (e : ErrorCodes) (t : Turn) (d : Decoder)
    → IsStopped t
    → d.decode_cnt < u32_mod
    → (d' : Decoder) × (cs : List Call) × (decode e t.sent t.has_frame t.answers t.end_time d
        ≡ some (result_of e (is_eof d.pkt) t, d'))
      × (d'.calls ≡ d.calls ++ cs)
      × (delivered cs ≡ decoded_frames t)
unfolding decode
decode_turn_lem e t d (last, stops) w = elim (Bool-cases (is_negative t.sent)) [
  | inl bad ↦ elim (Bool-cases (eqb t.sent e.eof)) [
    | inl at_eof ↦ rw (bad, at_eof) (_, _, refl, refl, refl)
    | inr other ↦ elim (Bool-cases (eqb t.sent e.eagain)) [
      | inl again ↦ rw (bad, other, again) (_, _, refl, append_assoc d.calls _ _, refl)
      | inr broken ↦ rw (bad, other, broken) (_, _, refl, refl, refl)
    ]
  ]
  | inr taken ↦ elim (Bool-cases t.has_frame) [
    | inr full ↦ rw (taken, full) (_, _, refl, refl, refl)
    | inl room ↦
        let (d', run, calls, _) =
          decode_frames e t.sent t.answers last t.end_time d taken stops w in
        let exit_is : exit_of_answers e t.answers ≡ exit_of e last =
          rw (exit_of_answers, stops) refl in
        rw (taken, room, exit_is)
          (d', _, rw taken at run, calls, deliveries-delivered (ready t.answers) (exit_of e last))
  ]
]

-- The packet that `decode` gets is empty: the end of the stream, or an empty packet.
abbrev pub is_last : ReadAnswer → Bool
is_last a = if is_negative a.ret then true else is_eof a.packet

-- The loop leaves in this turn, once it has passed the test of `m_bExit`.
abbrev pub turn_ends : ErrorCodes → ℤ → Turn → Bool
turn_ends e i t =
    if is_fed e i t.read
    then eqb (result_of e (is_last t.read) t) dec_eof
    else is_negative t.read.ret && not (eqb t.read.ret e.eagain)

abbrev pub turn_frames : ErrorCodes → ℤ → Turn → List Frame
turn_frames e i t = if is_fed e i t.read then decoded_frames t else []

-- Whether the loop ends with these turns, and the frames that are handed out by then.
abbrev pub ends : ErrorCodes → ℤ → List Turn → Bool
ends e i [] = false
ends e i (t ∷ later) = t.exit || turn_ends e i t || ends e i later

-- The packets of the stream that are read by then.
abbrev pub packets_until : ErrorCodes → ℤ → List Turn → ℕ
packets_until e i [] = 0
packets_until e i (t ∷ later) =
    let rest = packets_until e i later in
    if t.exit
    then 0
    else if turn_ends e i t
    then count_packet i t.read
    else count_packet i t.read + rest

-- The bytes that FFmpeg asks for by then, call by call.
abbrev pub reads_until : ErrorCodes → ℤ → List Turn → List ℕ
reads_until e i [] = []
reads_until e i (t ∷ later) =
    let rest = reads_until e i later in
    if t.exit then [] else if turn_ends e i t then t.reads else t.reads ++ rest

abbrev pub frames_until : ErrorCodes → ℤ → List Turn → List Frame
frames_until e i [] = []
frames_until e i (t ∷ later) =
    let rest = frames_until e i later in
    if t.exit then [] else if turn_ends e i t then turn_frames e i t else turn_frames e i t ++ rest

pub demux-is_last :
    (e : ErrorCodes) (a : ReadAnswer) (d : Decoder)
    → is_fed e d.stream_idx a ≡ true
    → is_eof (demux e a d).1.pkt ≡ is_last a
unfolding demux
demux-is_last e a d fed = ground (arith, e.distinct)

-- What `demux` answers when it has nothing for `decode`.
pub demux_unfed :
    (e : ErrorCodes) (a : ReadAnswer) (d : Decoder)
    → is_fed e d.stream_idx a ≡ false
    → eqb (demux e a d).0 dec_again ≡ not (is_negative a.ret && not (eqb a.ret e.eagain))
unfolding demux
demux_unfed e a d unfed = ground arith
