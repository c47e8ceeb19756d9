-- ===== src/Decoder/Decode/Results.antt =====
-- The result of `decode` and its AVFrame on every branch.
use ff_test.Base.{
  ℕ, suc, ◌+◌, ◌<◌, ◌≡◌, ◌↔◌, ◌⊎◌, refl, sym, ◌∙◌, inl, inr, Bool, true, false, Option, some, List,
  [], ◌∷◌, ◌++◌, arith, append_assoc, u32_mod, Bool-cases, Option-cases, some_fst, some_snd, subst,
}
use ff_test.Base.Int.{ℤ, negsuc, is_negative, eqb}
use ff_test.Utils.{Timeval}
use ff_test.Av.{ErrorCodes, Packet, Frame}
use ff_test.Decoder.State.{
  Decoder, Call, sends, unrefs_packet, allocs_frame, frees_frame, dec_ok, dec_again, dec_eof,
  dec_error, log,
}
use ff_test.Decoder.Decode.{
  Received, Exit, idle, drained, failed, receive_loop, decode, is_eof, finish,
}
use ff_test.Decoder.Decode.Frames.{
  ready, stop, deliveries, exit_of, closing, sent_packet, receive_loop-none, decode_frames,
}

abbrev pub allocs : List Call → ℕ
allocs [] = 0
allocs (allocs_frame ∷ cs) = suc (allocs cs)
allocs (_ ∷ cs) = allocs cs

abbrev pub frees : List Call → ℕ
frees [] = 0
frees (frees_frame ∷ cs) = suc (frees cs)
frees (_ ∷ cs) = frees cs

pub allocs-append : (cs ds : List Call) → allocs (cs ++ ds) ≡ allocs cs + allocs ds
allocs-append [] ds = omega arith
allocs-append (allocs_frame ∷ cs) ds = omega (arith, allocs-append cs ds)
allocs-append (_ ∷ cs) ds = allocs-append cs ds

pub frees-append : (cs ds : List Call) → frees (cs ++ ds) ≡ frees cs + frees ds
frees-append [] ds = omega arith
frees-append (frees_frame ∷ cs) ds = omega (arith, frees-append cs ds)
frees-append (_ ∷ cs) ds = frees-append cs ds

deliveries_even : (fs : List Frame) → (allocs (deliveries fs) ≡ 0) × (frees (deliveries fs) ≡ 0)
deliveries_even [] = (refl, refl)
deliveries_even (f ∷ fs) = deliveries_even fs

closing-frees : (x : Exit) → (allocs (closing x) ≡ 0) × (frees (closing x) ≡ 1)
closing-frees (idle t) = (refl, refl)
closing-frees drained = (refl, refl)
closing-frees failed = (refl, refl)

-- As many frames freed as allocated between two logs.
abbrev Even : List Call → List Call → Type 0
Even cs ds = allocs ds + frees cs ≡ frees ds + allocs cs

append-Even : (cs ds : List Call) → allocs ds ≡ frees ds → Even cs (cs ++ ds)
append-Even cs ds h = omega (arith, allocs-append cs ds, frees-append cs ds)

frames-Even :
    (p : Option Packet) (fs : List Frame) (x : Exit)
    → let ds = sends p ∷ allocs_frame ∷ (deliveries fs ++ closing x) in allocs ds ≡ frees ds
frames-Even p fs x = omega (
  arith,
  allocs-append (deliveries fs) (closing x),
  frees-append (deliveries fs) (closing x),
  deliveries_even fs,
  closing-frees x,
)

refused-Even :
    (e : ErrorCodes) (sent : ℤ) (has_frame : Bool) (answers : List Received) (t2 : Timeval)
    (d d' : Decoder) (r : ℤ)
    → is_negative sent ≡ true
    → decode e sent has_frame answers t2 d ≡ some (r, d')
    → Even d.calls d'.calls
unfolding decode
refused-Even e sent has_frame answers t2 d d' r bad run =
    let s : Call = sends (sent_packet d.pkt) in
    elim (Bool-cases (eqb sent e.eof)) [
      | inl at_eof ↦
          subst (λ x. Even d.calls x.calls) (some_snd (rw (bad, at_eof) at run))
            (append-Even d.calls (s ∷ []) refl)
      | inr other ↦ elim (Bool-cases (eqb sent e.eagain)) [
        | inl again ↦
            subst (λ x. Even d.calls x.calls) (some_snd (rw (bad, other, again) at run))
              (rw append_assoc (append-Even d.calls (s ∷ unrefs_packet ∷ []) refl))
        | inr broken ↦
            subst (λ x. Even d.calls x.calls) (some_snd (rw (bad, other, broken) at run))
              (append-Even d.calls (s ∷ []) refl)
      ]
    ]

looped-Even :
    (e : ErrorCodes) (sent : ℤ) (answers : List Received) (t2 : Timeval) (d d' : Decoder) (r : ℤ)
    → d.decode_cnt < u32_mod
    → is_negative sent ≡ false
    → decode e sent true answers t2 d ≡ some (r, d')
    → Even d.calls d'.calls
looped-Even e sent answers t2 d d' r w taken run = elim (Option-cases (stop answers)) [
  | inl endless ↦
      let start : Decoder = log (allocs_frame ∷ []) (log (sends (sent_packet d.pkt) ∷ []) d) in
      let lost = receive_loop-none e answers start endless in
      unfold decode in cc (rw (taken, lost) at run)
  | inr (last, s) ↦
      let (d1, run1, calls, _) = decode_frames e sent answers last t2 d taken s w in
      subst (λ x. Even d.calls x.calls) (some_snd (sym run1 ∙ run))
        (rw calls (
          append-Even d.calls _ (frames-Even (sent_packet d.pkt) (ready answers) (exit_of e last))))
]

-- Whenever `decode` returns, on every branch, with `decode_cnt` below 2^32 before, it has freed
-- as many frames as it has allocated.
pub decode-Even :
    (e : ErrorCodes) (sent : ℤ) (has_frame : Bool) (answers : List Received) (t2 : Timeval)
    (d d' : Decoder) (r : ℤ)
    → d.decode_cnt < u32_mod
    → decode e sent has_frame answers t2 d ≡ some (r, d')
    → allocs d'.calls + frees d.calls ≡ frees d'.calls + allocs d.calls
decode-Even e sent has_frame answers t2 d d' r w run = elim (Bool-cases (is_negative sent)) [
  | inl bad ↦ refused-Even e sent has_frame answers t2 d d' r bad run
  | inr taken ↦ elim (Bool-cases has_frame) [
    | inl yes_frame ↦ looped-Even e sent answers t2 d d' r w taken (rw yes_frame at run)
    | inr no_frame ↦
        unfold decode in
        subst (λ x. Even d.calls x.calls) (some_snd (rw (taken, no_frame) at run))
          (append-Even d.calls (sends (sent_packet d.pkt) ∷ []) refl)
  ]
]

-- The values of the enum of src/Decoder.hpp.
abbrev pub IsCode : ℤ → Type 0
IsCode r = (r ≡ dec_ok) ⊎ ((r ≡ dec_again) ⊎ ((r ≡ dec_eof) ⊎ (r ≡ dec_error)))

finish-IsCode : (eof : Bool) (t2 : Timeval) (x : Exit) (d : Decoder) → IsCode (finish eof t2 x d).0
unfolding finish
finish-IsCode true t2 (idle t1) d = ground arith
finish-IsCode false t2 (idle t1) d = ground arith
finish-IsCode eof t2 drained d = ground arith
finish-IsCode eof t2 failed d = ground arith

refused-IsCode :
    (e : ErrorCodes) (sent : ℤ) (has_frame : Bool) (answers : List Received) (t2 : Timeval)
    (d d' : Decoder) (r : ℤ)
    → is_negative sent ≡ true
    → decode e sent has_frame answers t2 d ≡ some (r, d')
    → IsCode r
unfolding decode
refused-IsCode e sent has_frame answers t2 d d' r bad run = elim (Bool-cases (eqb sent e.eof)) [
  | inl at_eof ↦ subst IsCode (some_fst (rw (bad, at_eof) at run)) (inr (inr (inl refl)))
  | inr other ↦ elim (Bool-cases (eqb sent e.eagain)) [
    | inl again ↦ subst IsCode (some_fst (rw (bad, other, again) at run)) (inr (inl refl))
    | inr broken ↦ subst IsCode (some_fst (rw (bad, other, broken) at run)) (inr (inr (inr refl)))
  ]
]

looped-IsCode :
    (e : ErrorCodes) (sent : ℤ) (answers : List Received) (t2 : Timeval) (d d' : Decoder) (r : ℤ)
    → is_negative sent ≡ false
    → decode e sent true answers t2 d ≡ some (r, d')
    → IsCode r
unfolding decode
looped-IsCode e sent answers t2 d d' r taken run =
    let start : Decoder = log (allocs_frame ∷ []) (log (sends (sent_packet d.pkt) ∷ []) d) in
    elim (Option-cases (receive_loop e answers start)) [
      | inl endless ↦ cc (rw (taken, endless) at run)
      | inr ((x, d1), q) ↦
          subst IsCode (some_fst (rw (taken, q) at run)) (finish-IsCode (is_eof d.pkt) t2 x d1)
    ]

-- When `decode` returns, its result is one of the four codes exactly if the codec has not taken
-- the packet or there was memory for a frame.
pub decode-IsCode :
    (e : ErrorCodes) (sent : ℤ) (has_frame : Bool) (answers : List Received) (t2 : Timeval)
    (d d' : Decoder) (r : ℤ)
    → decode e sent has_frame answers t2 d ≡ some (r, d')
    → IsCode r ↔ ((is_negative sent ≡ true) ⊎ (has_frame ≡ true))
unfolding decode
decode-IsCode e sent has_frame answers t2 d d' r run = elim (Bool-cases (is_negative sent)) [
  | inl bad ↦ (λ _. inl bad, λ _. refused-IsCode e sent has_frame answers t2 d d' r bad run)
  | inr taken ↦ elim (Bool-cases has_frame) [
    | inl full ↦ (λ _. inr full, λ _. looped-IsCode e sent answers t2 d d' r taken (rw full at run))
    | inr empty ↦
        let code : negsuc 0 ≡ r = some_fst (rw (taken, empty) at run) in
        (λ c. absurd (ground arith), λ h. absurd (ground arith))
  ]
]
