-- ===== src/Listening.antt =====
-- discord/ext/voice_recv/voice_client.py, `listen`, `stop_listening` and `sink`, and reader.py,
-- `AudioReader.start`, `stop`, `_stop` and `set_sink`, with the stops of a reader by itself and the ends
-- of the threads of router.py. A reader and a sink have an identity. The threads of a reader that it
-- starts and tells to end are its fields, and what its stopper thread does is one step, so that the
-- calls of others come between.
pub mod Tally
pub mod Ends
pub mod Single
pub mod Late
use discord_ext_voice_recv.Base.{
  ℕ, ◌+◌, Bool, true, false, ◌||◌, not, Option, none, some, List, [], ◌∷◌, ◌++◌, if◌then◌else◌,
  is_some, Result, ok, raise, Error, type_error, value_error, client_exception, guard, ◌>>=◌, ◌>>◌,
}
use discord_ext_voice_recv.Base.Dict.{Dict, get, put, contains, remove}

-- `AudioReader`, of which the stopper thread was started or not, and has ended or not.
pub record AudioReader : Type 0 where
  pub sink : ℕ
  pub active : Bool
  pub error : Option Error
  pub retry_stop : Bool
  pub router_end : Bool
  pub events_end : Bool
  pub timer_end : Bool
  pub keepalive_end : Bool
  pub decryptor_closed : Bool
  -- What `after` was called with, and the sinks whose tree was cleaned up.
  pub after_calls : List (Option Error)
  pub cleaned : List ℕ

-- `AudioReader.__init__`
abbrev pub new_reader : ℕ → AudioReader
new_reader sink = record {
  sink = sink;
  active = false;
  error = none;
  retry_stop = false;
  router_end = false;
  events_end = false;
  timer_end = false;
  keepalive_end = false;
  decryptor_closed = false;
  after_calls = [];
  cleaned = [];
}

-- The client: its `_reader`, and besides it all readers that there ever were, those whose callback
-- listens to the socket, the stopper threads that run, and whether a sink has the client.
pub record Client : Type 0 where
  pub connected : Bool
  pub reader : Option ℕ
  pub readers : Dict AudioReader
  pub next_reader : ℕ
  pub socket_listeners : List ℕ
  pub stoppers : List ℕ
  pub voice_client : Dict Bool

abbrev pub new_client : Client
new_client = record {
  connected = true;
  reader = none;
  readers = [];
  next_reader = 0;
  socket_listeners = [];
  stoppers = [];
  voice_client = [];
}

abbrev pub is_active : Client → ℕ → Bool
is_active c object = elim (get object c.readers) [ none ↦ false | some r ↦ r.active ]

-- `VoiceRecvClient.is_listening`, as a condition.
unfoldable pub is_listening : Client → Bool
is_listening c = elim c.reader [ none ↦ false | some object ↦ is_active c object ]

-- `AudioReader.start`, which starts the threads and listens to the socket.
unfoldable pub start : ℕ → Client → Client
start object c = elim (get object c.readers) [
  | none ↦ c
  | some r ↦ if r.active then c else record c {
    socket_listeners = c.socket_listeners ++ object ∷ [];
    readers = put object (record r { active = true; retry_stop = false }) c.readers;
  }
]

-- `listen`, for something that is a sink or not and an `after` that can be called or not.
unfoldable pub listen : Bool → Bool → ℕ → Client → Result Client
unfolding start is_listening
listen is_sink callable sink c =
    guard c.connected client_exception
    >> guard is_sink type_error
    >> guard (not (is_listening c)) client_exception
    >> guard callable type_error
    >> ok (
        start c.next_reader (record c {
          reader = some c.next_reader;
          readers = put c.next_reader (new_reader sink) c.readers;
          next_reader = c.next_reader + 1;
          voice_client = put sink true c.voice_client;
        }))

-- `AudioReader.stop`, which leaves the rest to a thread.
unfoldable pub stop : ℕ → Client → Client
stop object c = elim (get object c.readers) [
  | none ↦ c
  | some r ↦
      if r.active
      then record c {
        socket_listeners = remove object c.socket_listeners;
        readers = put object (record r { active = false; retry_stop = true }) c.readers;
        stoppers = c.stoppers ++ object ∷ [];
      }
      else c
]

unfoldable pub stop_listening : Client → Client
unfolding stop
stop_listening c = elim c.reader [
  | none ↦ c
  | some object ↦ record (stop object c) { reader = none }
]

-- `_stop`, with an `after`: the retry thread ends once it is told to.
abbrev pub stopped : AudioReader → AudioReader
stopped r = record r {
  router_end = true;
  events_end = true;
  timer_end = true;
  keepalive_end = true;
  decryptor_closed = true;
  after_calls = r.after_calls ++ r.error ∷ [];
  cleaned = r.cleaned ++ r.sink ∷ [];
}

unfoldable pub run_stopper : ℕ → Client → Client
run_stopper object c =
    if contains object c.stoppers
    then elim (get object c.readers) [
      | none ↦ c
      | some r ↦ record c {
        stoppers = remove object c.stoppers;
        readers = put object (stopped r) c.readers;
      }
    ]
    else c

-- The reader gives up and stops itself, in `_callback` and in `_retry_loop`, with the error that it
-- sets or with none. The client keeps it.
unfoldable pub give_up : ℕ → Option Error → Client → Client
unfolding stop
give_up object error c = elim (get object c.readers) [
  | none ↦ c
  | some r ↦ stop object (record c {
    readers =
        put object (record r { error = elim error [ none ↦ r.error | some e ↦ some e ] }) c.readers;
  })
]

-- The end of `PacketRouter.run`, by an exception or because it was told to.
unfoldable pub end_router : ℕ → Option Error → Client → Client
unfolding stop_listening
end_router object error c = elim (get object c.readers) [
  | none ↦ c
  | some r ↦
      if is_some error || r.router_end
      then stop_listening (record c {
        readers =
            put object (record r { error = elim error [ none ↦ r.error | some e ↦ some e ] })
              c.readers;
      })
      else c
]

-- `AudioReader.set_sink` behind the setter of `VoiceRecvClient.sink`.
unfoldable pub set_sink : Bool → ℕ → Client → Result Client
set_sink is_sink sink c = guard is_sink type_error >> (elim c.reader [
  | none ↦ raise value_error
  | some object ↦ (elim (get object c.readers) [
    | none ↦ raise value_error
    | some r ↦ ok (record c {
      voice_client = put sink true (put r.sink false c.voice_client);
      readers = put object (record r { sink = sink }) c.readers;
    })
  ])
])

-- What happens to the client. A call that raises changes nothing.
pub data Step : Type 0 where
  connects : Bool → Step
  listens : Bool → Bool → ℕ → Step
  stops : Step
  runs_stopper : ℕ → Step
  gives_up ends_router : ℕ → Option Error → Step
  sets_sink : Bool → ℕ → Step

abbrev pub or_same : Client → Result Client → Client
or_same c (raise e) = c
or_same _ (ok c) = c

unfoldable pub step : Step → Client → Client
unfolding listen stop_listening run_stopper give_up end_router set_sink
step (connects connected) c = record c { connected = connected }
step (listens is_sink callable sink) c = or_same c (listen is_sink callable sink c)
step stops c = stop_listening c
step (runs_stopper object) c = run_stopper object c
step (gives_up object error) c = give_up object error c
step (ends_router object error) c = end_router object error c
step (sets_sink is_sink sink) c = or_same c (set_sink is_sink sink c)

unfoldable pub run : List Step → Client → Client
unfolding step
run [] c = c
run (s ∷ l) c = run l (step s c)
