-- ===== src/Speech.antt =====
-- discord/ext/voice_recv/extras/speechrecognition.py: `SpeechRecognitionSink`, which buffers the sound
-- of each user, and `DiscordSRAudioSource`, which the recognizer reads it from. A source reads the
-- buffer of the user that it was made for. `audioop.tomono` is the parameter `to_mono`, which raises for
-- a chunk that is not of whole frames; the recognizer and its callbacks are not modelled.
pub mod Whole
use discord_ext_voice_recv.Base.{
  ℕ, zero, suc, ◌*◌, Bool, true, false, not, ◌&&◌, Option, none, some, List, [], ◌∷◌, ◌++◌, ltb,
  is_empty, if◌then◌else◌, length, take, drop, Result, ok,
}
use discord_ext_voice_recv.Base.Bytes.{Bytes}
use discord_ext_voice_recv.Base.Dict.{Dict, get, put, delete, keys}

-- `_StreamData`: whether the recognizer listens in the background (`stopper`), and the buffer.
pub record StreamData : Type 0 where
  pub stopper : Bool
  pub buffer : Bytes

abbrev pub no_stream : StreamData
no_stream = record { stopper = false; buffer = [] }

pub record SpeechRecognitionSink : Type 0 where
  pub ignore_silence_packets : Bool
  pub stream_data : Dict StreamData
  -- The users whose recognizers were started, and stopped.
  pub started : List ℕ
  pub stopped : List ℕ

abbrev pub new_sink : Bool → SpeechRecognitionSink
new_sink ignore = record {
  ignore_silence_packets = ignore;
  stream_data = [];
  started = [];
  stopped = [];
}

-- The buffer of a user, empty if there is none.
abbrev pub buffer_of : ℕ → SpeechRecognitionSink → Bytes
buffer_of id s = elim (get id s.stream_data) [ none ↦ [] | some d ↦ d.buffer ]

-- `self._stream_data[user.id]` makes an entry if there is none.
abbrev pub stream_of : ℕ → SpeechRecognitionSink → StreamData
stream_of id s = elim (get id s.stream_data) [ none ↦ no_stream | some d ↦ d ]

unfoldable pub write : Bool → Option ℕ → Bytes → SpeechRecognitionSink → SpeechRecognitionSink
write is_silence none pcm s = s
write is_silence (some id) pcm s = if s.ignore_silence_packets && is_silence then s else record s {
  stream_data =
      put id (record { stopper = true; buffer = (stream_of id s).buffer ++ pcm }) s.stream_data;
  started = if (stream_of id s).stopper then s.started else s.started ++ id ∷ [];
}

-- `_drop`
unfoldable pub drop_user : ℕ → SpeechRecognitionSink → SpeechRecognitionSink
drop_user id s = elim (get id s.stream_data) [
  | none ↦ s
  | some d ↦ record s {
    stream_data = delete id s.stream_data;
    stopped = if d.stopper then s.stopped ++ id ∷ [] else s.stopped;
  }
]

unfoldable pub drop_each : List ℕ → SpeechRecognitionSink → SpeechRecognitionSink
unfolding drop_user
drop_each [] s = s
drop_each (id ∷ l) s = drop_each l (drop_user id s)

unfoldable pub cleanup : SpeechRecognitionSink → SpeechRecognitionSink
unfolding drop_each
cleanup s = drop_each (keys s.stream_data) s

-- A call of `write`: whether the packet is silence, the user, and the sound.
pub record Write : Type 0 where
  pub is_silence : Bool
  pub user : Option ℕ
  pub pcm : Bytes

unfoldable pub write_each : List Write → SpeechRecognitionSink → SpeechRecognitionSink
unfolding write
write_each [] s = s
write_each (w ∷ l) s = write_each l (write w.is_silence w.user w.pcm s)

-- The loop of `read` of a user's source, with the writes that come in each of its sleeps. The flag
-- says that it was left by a break; the writes that have not come by then are left.
unfoldable pub wait_for :
    ℕ
    → ℕ
    → ℕ
    → List (List Write)
    → SpeechRecognitionSink
    → Bool × SpeechRecognitionSink × List (List Write)
unfolding write_each
wait_for id chunksize zero batches s = (false, s, batches)
wait_for id chunksize (suc n) [] s =
    let rest = wait_for id chunksize n [] s in
    if ltb (length (buffer_of id s)) chunksize then rest else (true, s, [])
wait_for id chunksize (suc n) (l ∷ batches) s =
    let rest = wait_for id chunksize n batches (write_each l s) in
    if ltb (length (buffer_of id s)) chunksize then rest else (true, s, l ∷ batches)

-- `size * self.CHANNELS`
abbrev pub chunksize_of : ℕ → ℕ
chunksize_of size = size * 2

-- What `read` returns or raises, and what it leaves.
pub record Reading : Type 0 where
  pub chunk : Result Bytes
  pub after : SpeechRecognitionSink
  pub batches : List (List Write)

abbrev pub set_buffer : ℕ → Bytes → SpeechRecognitionSink → SpeechRecognitionSink
set_buffer id buffer s = record s {
  stream_data = put id (record (stream_of id s) { buffer = buffer }) s.stream_data;
}

-- What `read` does behind the loop. Nothing is taken of an empty buffer; else the bytes are deleted
-- before `to_mono` may raise.
unfoldable pub take_chunk :
    (Bytes → Result Bytes) → ℕ → ℕ → Bool × SpeechRecognitionSink × List (List Write) → Reading
take_chunk to_mono id size (left, s, batches) =
    let full = buffer_of id s in
    if not left && is_empty full
    then record { chunk = ok []; after = s; batches = batches }
    else record {
      chunk = to_mono (take (chunksize_of size) full);
      after = set_buffer id (drop (chunksize_of size) full) s;
      batches = batches;
    }

-- `read` of the source of a user whose data was not dropped since it was made.
unfoldable pub read :
    (Bytes → Result Bytes) → ℕ → ℕ → List (List Write) → SpeechRecognitionSink → Reading
unfolding wait_for take_chunk
read to_mono id size batches s =
    take_chunk to_mono id size (wait_for id (chunksize_of size) 10 batches s)
