-- ===== src/Events.antt =====
-- discord/ext/voice_recv/voice_client.py, the events of `VoiceRecvClient`, and gateway.py, `hook` and
-- `binary_hook`. An event is what `dispatch` hands to the bot, and to the listeners and the sink while
-- there are any, in the same order. Members and streams are named by their user, and a message holds
-- what the hook reads of it, and of the websocket the key that SESSION_DESCRIPTION finds there. The
-- histories of messages are in History, and the listeners in Listeners. `now` and the connection are
-- what the DAVE bridge observes at the message.
pub mod Followed
pub mod History
pub mod Listeners
use discord_ext_voice_recv.Base.{
  ℕ, ◌+◌, Bool, true, false, ◌&&◌, ◌||◌, not, Option, none, some, List, [], ◌∷◌, ◌++◌, ltb, ◌==◌,
  if◌then◌else◌, map,
}
use discord_ext_voice_recv.Base.Dict.{get}
use discord_ext_voice_recv.Base.Bytes.{Bytes}
use discord_ext_voice_recv.Dave.Bridge.{Connection, DaveBridge, DaveState, refresh, same}
use discord_ext_voice_recv.Dave.Bridge
use discord_ext_voice_recv.Client.{
  Client, Kind, VideoStreams, add_ssrc, update_video_ssrcs, remove_ssrc,
}
use discord_ext_voice_recv.Client

pub data Event : Type 0 where
  dave_protocol_version : ℕ → Event
  dave_epoch_changed : Option ℕ → Event
  dave_ready : Bool → Event
  dave_downgraded : Event
  dave_prepare_transition dave_execute_transition dave_prepare_epoch : ℕ → ℕ → Event
  dave_opcode : ℕ → Event
  member_speaking_state : ℕ → ℕ → Event
  member_connect member_video member_flags member_platform : ℕ → Event
  member_disconnect : ℕ → Option ℕ → Event

pub record VoiceClient : Type 0 where
  pub tables : Client
  pub bridge : DaveBridge
  pub dave_event_state : DaveState
  pub dispatched : List Event
  -- What the reader is told beside the calls of the tables: `destroy_decoder` of the router.
  pub destroyed : List ℕ
  -- How often the reader's router was told to destroy all decoders.
  pub resets : ℕ
  -- How often its retry thread was woken.
  pub wakes : ℕ
  -- The secret keys that the reader was given.
  pub keys : List Bytes

abbrev pub dispatch : Event → VoiceClient → VoiceClient
dispatch event c = record c { dispatched = c.dispatched ++ event ∷ [] }

abbrev pub when : Bool → Event → List Event
when b event = if b then event ∷ [] else []

abbrev pub eq_bool : Bool → Bool → Bool
eq_bool true b = b
eq_bool false b = not b

-- The events for a change of the state.
unfoldable pub changes : DaveState → DaveState → List Event
changes previous current =
    let renewed = not (current.generation == previous.generation) in
    when (not (current.protocol_version == previous.protocol_version))
      (dave_protocol_version current.protocol_version)
    ++ (when (not (same current.epoch previous.epoch) || renewed) (dave_epoch_changed current.epoch)
        ++ (when (not (eq_bool current.ready previous.ready) || current.ready && renewed)
              (dave_ready current.ready)
            ++ when
                (ltb 0 previous.protocol_version
                  && (current.protocol_version == 0 && current.downgrade_allowed))
                dave_downgraded))

-- `_dave_state_changed`
unfoldable pub dave_state_changed : ℕ → Connection → VoiceClient → VoiceClient
unfolding refresh changes
dave_state_changed now connection c =
    let b = refresh now connection c.bridge in
    record c {
      bridge = b;
      dave_event_state = b.state;
      wakes = if c.tables.has_reader then c.wakes + 1 else c.wakes;
      dispatched = c.dispatched ++ changes c.dave_event_state b.state;
    }

unfoldable pub on_dave_transition_prepared : ℕ → Connection → ℕ → ℕ → VoiceClient → VoiceClient
unfolding dave_state_changed
on_dave_transition_prepared now connection id version c =
    dispatch (dave_prepare_transition id version) (dave_state_changed now connection c)

unfoldable pub on_dave_transition_executed : ℕ → Connection → ℕ → ℕ → VoiceClient → VoiceClient
unfolding dave_state_changed
on_dave_transition_executed now connection id version c =
    dispatch (dave_execute_transition id version) (dave_state_changed now connection c)

unfoldable pub on_dave_epoch_prepared : ℕ → Connection → ℕ → ℕ → VoiceClient → VoiceClient
unfolding dave_state_changed Bridge.epoch_prepared
on_dave_epoch_prepared now connection epoch version c =
    dispatch (dave_prepare_epoch epoch version) (
      dave_state_changed now connection
        (record c { bridge = Bridge.epoch_prepared now connection c.bridge epoch }))

-- `on_voice_state_update`, with the channel that the client was in, and that of the message: without
-- one `int` raises the TypeError that is caught.
unfoldable pub on_voice_state_update :
    ℕ → Connection → Option ℕ → Option ℕ → VoiceClient → VoiceClient
unfolding dave_state_changed same
on_voice_state_update now connection old none c = dave_state_changed now connection c
on_voice_state_update now connection old (some channel) c =
    let c' = dave_state_changed now connection c in
    if c'.tables.has_reader && not (same (some channel) old)
    then record c' { resets = c'.resets + 1 }
    else c'

-- `stop`, of what it does to receive.
unfoldable pub stop : ℕ → Connection → VoiceClient → VoiceClient
unfolding dave_state_changed
stop now connection c =
    let c' = dave_state_changed now connection c in
    record c' { tables = record c'.tables { has_reader = false } }

-- `cleanup`: the connection may be another one when it comes to `stop`.
unfoldable pub cleanup : ℕ → Connection → ℕ → Connection → VoiceClient → VoiceClient
unfolding stop
cleanup now connection later final c = stop later final (dave_state_changed now connection c)

-- `binary_hook`
unfoldable pub binary_hook : ℕ → VoiceClient → VoiceClient
binary_hook op c = dispatch (dave_opcode op) c

-- What the hook reads of a message, by its opcode.
pub data Message : Type 0 where
  ready : ℕ → ℕ → Message
  session_description : Bytes → Message
  speaking : ℕ → ℕ → Message
  clients_connect : List ℕ → Message
  client_connect : ℕ → VideoStreams → Message
  client_disconnect : ℕ → Message
  flags platform : ℕ → Message
  dave_and_mls : ℕ → Message
  other : Message

-- `hook`, on the message that the client itself has the user `me`.
unfoldable pub handle : Message → VoiceClient → VoiceClient
unfolding add_ssrc update_video_ssrcs remove_ssrc
handle (ready me ssrc) c = record c { tables = add_ssrc c.tables me ssrc Kind.audio }
handle (session_description key) c =
    if c.tables.has_reader then record c { keys = c.keys ++ key ∷ [] } else c
handle (speaking uid ssrc) c =
    dispatch (member_speaking_state uid ssrc)
      (record c { tables = add_ssrc c.tables uid ssrc Kind.audio })
handle (clients_connect uids) c = record c { dispatched = c.dispatched ++ map member_connect uids }
handle (client_connect uid streams) c =
    let t = add_ssrc c.tables uid streams.audio_ssrc Kind.audio in
    dispatch (member_video uid) (record c { tables = update_video_ssrcs t uid streams })
handle (client_disconnect uid) c =
    let ssrc = get uid c.tables.id_to_ssrc in
    dispatch (member_disconnect uid ssrc) (record c {
      tables = remove_ssrc c.tables uid;
      destroyed =
          if c.tables.has_reader
          then elim ssrc [ none ↦ c.destroyed | some s ↦ c.destroyed ++ s ∷ [] ]
          else c.destroyed;
    })
handle (flags uid) c = dispatch (member_flags uid) c
handle (platform uid) c = dispatch (member_platform uid) c
handle (dave_and_mls op) c = dispatch (dave_opcode op) c
handle other c = c

unfoldable pub hook : ℕ → Connection → Message → VoiceClient → VoiceClient
unfolding dave_state_changed handle
hook now connection message c = handle message (dave_state_changed now connection c)
