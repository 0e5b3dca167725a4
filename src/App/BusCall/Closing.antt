-- ===== src/App/BusCall/Closing.antt =====
-- internal/app/buscall.go: histories of frames and of hangups.
use bticino_go_companion.Common.{
  ◌≡◌, refl, ◌⊎◌, inl, inr, ◌∙◌, ap, sym, Text, true, false, none, some, Option-cases, List, [],
  ◌∷◌, arith, is_empty,
}
use bticino_go_companion.OpenWebNet.Commands.{build_call_end}
use bticino_go_companion.OpenWebNet.Frames.{CallStart, parse_call_start, is_call_answer}
use bticino_go_companion.OpenWebNet.Frames.Calls.{build_call_end_ends, parse_call_start_sound}
use bticino_go_companion.App.BusCall.{
  BusCall, skipped, sent, new_bus_call, observe_frame, end_bus_call, observe_all,
}

-- A frame that opens no call.
abbrev pub Quiet : List Text → Type 0
Quiet [] = Unit
Quiet (frame ∷ frames) =
    (parse_call_start frame ≡ none) × (is_call_answer frame ≡ false) × Quiet frames

Quiet-stays :
    (frames : List Text) (b : BusCall)
    → Quiet frames
    → b.is_open ≡ false
    → (observe_all frames b).is_open ≡ false
unfolding observe_all observe_frame
Quiet-stays [] b q h = h
Quiet-stays (f ∷ fs) b q h = Quiet-stays fs (observe_frame f b) q.2 (ground arith)

-- However many hangups report it, a call is closed once: after a call end was sent, or there was none
-- to send, the next is skipped, whatever frames came in between, if none of them opens a call.
pub end_bus_call_once :
    (frames : List Text) (b : BusCall)
    → Quiet frames
    → (end_bus_call (observe_all frames (end_bus_call b).0)).1 ≡ skipped
unfolding end_bus_call
end_bus_call_once frames b q = ground (arith, Quiet-stays frames (end_bus_call b).0 q)

-- The frame of the companion's own call end, seen on the bus, closes the call too.
pub observe_frame-end_bus_call :
    (b : BusCall) (frame : Text)
    → (end_bus_call b).1 ≡ sent frame
    → (observe_frame frame b).is_open ≡ false
unfolding end_bus_call observe_frame
observe_frame-end_bus_call b frame h = ground (arith, build_call_end_ends b.call_type b.called)

-- A call that the frames have started.
abbrev pub Started : List Text → CallStart → Type 0
Started [] c = ⊥
Started (frame ∷ frames) c = (parse_call_start frame ≡ some c) ⊎ Started frames c

abbrev call_of : BusCall → CallStart
call_of b = record { call_type = b.call_type; called = b.called }

-- The call in the record is one that the frames have started, or the one that was there before.
call_of-observe_all :
    (frames : List Text) (b : BusCall)
    → Started frames (call_of (observe_all frames b)) ⊎ (call_of (observe_all frames b) ≡ call_of b)
unfolding observe_all
call_of-observe_all [] b = inr refl
call_of-observe_all (f ∷ fs) b = elim (call_of-observe_all fs (observe_frame f b)) [
  | inl later ↦ inl (inr later)
  | inr same ↦ elim (Option-cases (parse_call_start f)) [
    | inl e ↦ inr (same ∙ kept f b e)
    | inr (c, e) ↦ inl (inl (e ∙ ap some (sym (same ∙ started f b c e))))
  ]
]
  where
    kept :
        (f : Text) (b : BusCall)
        → parse_call_start f ≡ none
        → call_of (observe_frame f b) ≡ call_of b
    kept f b e = unfold observe_frame in ground arith

    started :
        (f : Text) (b : BusCall) (c : CallStart)
        → parse_call_start f ≡ some c
        → call_of (observe_frame f b) ≡ c
    started f b c e = unfold observe_frame in ground arith

-- An open call has a called address.
abbrev IsNamed : BusCall → Type 0
IsNamed b = b.is_open ≡ true → is_empty b.called ≡ false

observe_frame-IsNamed : (f : Text) (b : BusCall) → IsNamed b → IsNamed (observe_frame f b)
unfolding observe_frame
observe_frame-IsNamed f b n = elim (Option-cases (parse_call_start f)) [
  | inl e ↦ ground arith
  | inr (c, e) ↦ ground (arith, (parse_call_start_sound f c e).0)
]

observe_all-IsNamed : (fs : List Text) (b : BusCall) → IsNamed b → IsNamed (observe_all fs b)
unfolding observe_all
observe_all-IsNamed [] b n = n
observe_all-IsNamed (f ∷ fs) b n =
    observe_all-IsNamed fs (observe_frame f b) (observe_frame-IsNamed f b n)

-- From the start of the program, the companion closes only a call that a frame on the bus has started,
-- and it sends the call end of that call.
pub end_bus_call_started :
    (frames : List Text) (frame : Text)
    → (end_bus_call (observe_all frames new_bus_call)).1 ≡ sent frame
    → (c : CallStart) × Started frames c × (frame ≡ build_call_end c.call_type c.called)
unfolding end_bus_call new_bus_call
end_bus_call_started frames frame h =
    let named = observe_all-IsNamed frames new_bus_call (λ e. cc) in
    elim (call_of-observe_all frames new_bus_call) [
      | inl seen ↦ (call_of (observe_all frames new_bus_call), seen, ground arith)
      | inr new ↦ absurd (ground arith)
    ]
