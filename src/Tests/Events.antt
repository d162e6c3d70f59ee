-- ===== src/Tests/Events.antt =====
-- The session becomes ready with a message, and its epoch is prepared.
use discord_ext_voice_recv.Base.{ℕ, ◌≡◌, refl, true, false, some, List, [], ◌∷◌}
use discord_ext_voice_recv.Dave.Bridge.{Connection, new_bridge}
use discord_ext_voice_recv.Events.{VoiceClient, speaking, member_connect}
use discord_ext_voice_recv.Events.Listeners
use discord_ext_voice_recv.Events.Listeners.{new_hub, due, run-new_hub-scheduled}
use discord_ext_voice_recv.Base.Dict.{get, put, remove}
use discord_ext_voice_recv.Events.Followed.{
  view_of, Step, message, epoch_prepared, voice_state_update, binary, cleans_up, IsFollowed, run,
  run-IsFollowed,
}
use discord_ext_voice_recv.Tests.Reader.{client}

abbrev connection : Connection
connection = record {
  dave_session = some (record { object = 1; epoch = some 3; status = 2; is_ready = true });
  dave_protocol_version = 1;
  generation = 1;
  dave_pending_transitions = [];
  dave_downgraded = false;
}

abbrev voice_client : VoiceClient
voice_client = record {
  tables = client;
  bridge = new_bridge;
  dave_event_state = new_bridge.state;
  dispatched = [];
  destroyed = [];
  resets = 0;
  wakes = 0;
  keys = [];
}

abbrev steps : List (ℕ × (Connection × Step))
steps =
    (5, (connection, message (speaking 42 7)))
    ∷ (9, (connection, epoch_prepared 1 1))
    ∷ (11, (connection, voice_state_update (some 2) (some 3)))
    ∷ (12, (connection, binary 30))
    ∷ (13, (connection, cleans_up 14 connection))
    ∷ []

run-IsFollowed_example : IsFollowed (view_of new_bridge.state) (run steps voice_client)
run-IsFollowed_example = run-IsFollowed (view_of new_bridge.state) steps voice_client refl

-- A coroutine that was added twice and removed once is scheduled once.
abbrev calls : List Listeners.Step
calls =
    Listeners.adds true 3 0
    ∷ Listeners.adds true 4 0
    ∷ Listeners.adds true 3 0
    ∷ Listeners.adds false 5 0
    ∷ Listeners.removes 3 0
    ∷ Listeners.dispatches (member_connect 42)
    ∷ Listeners.clears
    ∷ Listeners.dispatches (member_connect 43)
    ∷ []

run-new_hub-scheduled_example :
    (Listeners.run (λ e. 0) calls new_hub).scheduled ≡ due (λ e. 0) calls (λ m. [])
run-new_hub-scheduled_example = run-new_hub-scheduled (λ e. 0) calls

scheduled_once :
    (Listeners.run (λ e. 0) calls new_hub).scheduled
    ≡ (4, member_connect 42) ∷ (3, member_connect 42) ∷ []
unfolding Listeners.run get put remove
scheduled_once = refl
