-- ===== src/App/BusCall.antt =====
-- internal/app/buscall.go: the door-entry call on the bus, followed by its frames.
pub mod Closing
mod Examples
use bticino_go_companion.Common.{
  Text, Bool, true, false, not, ◌||◌, ◌&&◌, Option, none, some, List, [], ◌∷◌, is_empty,
  if◌then◌else◌,
}
use bticino_go_companion.Strings.{trim_space}
use bticino_go_companion.OpenWebNet.Commands.{build_call_end}
use bticino_go_companion.OpenWebNet.Frames.{
  CallStart, parse_call_start, is_call_answer, is_call_end,
}

-- `open` is a reserved word.
pub record BusCall : Type 0 where
  pub call_type : Text
  pub called : Text
  pub is_open : Bool

-- The zero value.
pub new_bus_call : BusCall
new_bus_call = record { call_type = []; called = []; is_open = false }

pub observe_frame : Text → BusCall → BusCall
observe_frame frame b = elim (parse_call_start frame) [
  | some start ↦ record { call_type = start.call_type; called = start.called; is_open = true }
  | none ↦
      if is_call_answer frame
      then record b { is_open = not (is_empty b.called) }
      else if is_call_end frame
      then record b { is_open = false }
      else b
]

pub take : BusCall → BusCall × Option CallStart
take b = if not b.is_open then (b, none) else (
  record b { is_open = false },
  some (record { call_type = b.call_type; called = b.called }),
)

pub data EndCallResult : Type 0 where
  skipped : EndCallResult
  refused : EndCallResult
  sent : Text → EndCallResult

-- (*Control).EndCall: the frame that goes to the bus.
end_call : CallStart → EndCallResult
end_call c =
    if is_empty (trim_space c.call_type) || is_empty (trim_space c.called)
    then refused
    else sent (build_call_end c.call_type c.called)

-- endBusCall; whether the bus takes the frame is the bus's business.
pub end_bus_call : BusCall → BusCall × EndCallResult
unfolding take end_call
end_bus_call b = let (b', call) = take b in (b', elim call [ none ↦ skipped | some c ↦ end_call c ])

-- A history of frames.
pub observe_all : List Text → BusCall → BusCall
observe_all [] b = b
observe_all (frame ∷ frames) b = observe_all frames (observe_frame frame b)
