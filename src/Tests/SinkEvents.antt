-- ===== src/Tests/SinkEvents.antt =====
-- A sink with a listener, over a sink with another.
use discord_ext_voice_recv.Base.{◌≡◌, refl, List, [], ◌∷◌}
use discord_ext_voice_recv.SinkEvents.{
  Sink, sink, sinks, no_sinks, new_router, set_sink, called, remove_first,
}
use discord_ext_voice_recv.Base.Dict.{get, put}
use discord_ext_voice_recv.SinkEvents.Listeners.{}
use discord_ext_voice_recv.SinkEvents.Thread.{
  Step, dispatches, feeds_rtcp, sets_sink, stops, runs, run, new_thread,
}
use discord_ext_voice_recv.SinkEvents.Thread.Delivery.{IsDelivered, run-new_thread-IsDelivered}

abbrev nested : Sink
nested = sink 1 ((5, 9) ∷ []) (sinks (sink 2 ((5, 8) ∷ (6, 7) ∷ []) no_sinks) no_sinks)

abbrev alone : Sink
alone = sink 3 ((5, 4) ∷ []) no_sinks

-- Two events are queued, and the sink is set before the second is taken; the third comes too late.
abbrev events_around : List Step
events_around =
    dispatches (5, 100)
    ∷ runs
    ∷ runs
    ∷ dispatches (6, 101)
    ∷ runs
    ∷ sets_sink nested
    ∷ runs
    ∷ stops
    ∷ runs
    ∷ feeds_rtcp 102
    ∷ runs
    ∷ []

run-new_thread-IsDelivered_example : IsDelivered events_around alone
run-new_thread-IsDelivered_example = run-new_thread-IsDelivered events_around alone

calls_around : (run events_around (new_thread alone)).calls ≡ ((3, 4), 100) ∷ ((2, 7), 101) ∷ []
unfolding run new_router set_sink called remove_first get put
calls_around = refl
