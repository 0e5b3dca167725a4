-- ===== src/App/BusCall/Examples.antt =====
-- The call of a ring that is closed by a hangup.
use bticino_go_companion.Strings.{
  contains, trim_prefix, trim_suffix, cut, has_suffix, trim_space, has_prefix,
}
use bticino_go_companion.Common.{◌≡◌, refl, Text, codes, false, List, [], ◌∷◌}
use bticino_go_companion.OpenWebNet.Commands.{build_call_end}
use bticino_go_companion.OpenWebNet.Frames.{is_call_end, parse_call_start, is_call_answer}
use bticino_go_companion.App.BusCall.{
  sent, skipped, new_bus_call, observe_frame, observe_all, end_bus_call,
}
use bticino_go_companion.App.BusCall.Closing.{
  end_bus_call_once, end_bus_call_started, observe_frame-end_bus_call,
}

abbrev history : List Text
history = codes "*8*1#1#4#21*11##" ∷ codes "*8*3#1#4*411##" ∷ codes "*8*2#1#4*11##" ∷ []

ended : (end_bus_call (observe_all history new_bus_call)).1 ≡ sent (codes "*8*3#1#4*411##")
unfolding end_bus_call observe_all observe_frame new_bus_call parse_call_start has_prefix trim_space
    is_call_answer is_call_end has_suffix cut trim_suffix trim_prefix contains build_call_end
ended = refl

end_bus_call_once_example :
    (end_bus_call (observe_all (codes "*7*0*##" ∷ []) (end_bus_call new_bus_call).0)).1 ≡ skipped
unfolding parse_call_start is_call_answer has_prefix trim_space
end_bus_call_once_example = end_bus_call_once (codes "*7*0*##" ∷ []) new_bus_call (refl, refl, tt)

observe_frame-end_bus_call_example :
    (observe_frame (codes "*8*3#1#4*411##") (observe_all history new_bus_call)).is_open ≡ false
observe_frame-end_bus_call_example =
    observe_frame-end_bus_call (observe_all history new_bus_call) (codes "*8*3#1#4*411##") ended

end_bus_call_started_example :
    codes "*8*3#1#4*411##"
    ≡ build_call_end
        (end_bus_call_started history (codes "*8*3#1#4*411##") ended).0.call_type
        (end_bus_call_started history (codes "*8*3#1#4*411##") ended).0.called
end_bus_call_started_example = (end_bus_call_started history (codes "*8*3#1#4*411##") ended).2
