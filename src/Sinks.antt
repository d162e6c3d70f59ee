-- ===== src/Sinks.antt =====
-- discord/ext/voice_recv/sinks.py: the sinks that write on to another, over a `BasicSink`. What
-- registers listeners and children is in the modules below. Volumes are in percent, and a user is an
-- id. `audioop.mul` for samples of two bytes is the parameter `mul`, and the readings of the clock are
-- the parameter `clock`, of which `tick` counts those that were taken. The callback of a `BasicSink`
-- returns.
pub mod Meta
pub mod Children
pub mod Built
pub mod Timely
pub mod Ffmpeg
use discord_ext_voice_recv.Base.{
  ℕ, ◌+◌, Bool, true, false, not, Option, none, some, List, [], ◌∷◌, ◌++◌, ltb, ◌==◌, if◌then◌else◌,
  Result, ok, raise, voice_recv_error, ◌>>=◌,
}
use discord_ext_voice_recv.Base.Int.{ℤ, pos, ltb_ℤ}
use discord_ext_voice_recv.Base.Bytes.{Bytes}
use discord_ext_voice_recv.Decoder.{AudioPacket, received, fake, VoiceData}
use discord_ext_voice_recv.Silence.{
  SilenceGenerator, Packet, new_generator, push, drop, stop_signal, stop_clear,
}

-- What was written: the user and the data.
abbrev pub Written : Type 0
Written = Option ℕ × VoiceData ℕ

-- The attributes of a `TimedFilter`; `once` says that `write` is bound to `_write_once`.
pub record Timed : Type 0 where
  pub duration : ℕ
  pub start_time : Option ℕ
  pub once : Bool

-- A sink with those that it writes on to. A `basic` one has `decode`, and what its callback got.
pub data Chain : Type 0 where
  basic : Bool → List Written → Chain
  volume_transformer : ℤ → Chain → Chain
  conditional_filter : (Option ℕ → VoiceData ℕ → Bool) → Chain → Chain
  timed_filter : Timed → Chain → Chain
  silence_sink : SilenceGenerator → Chain → Chain

unfoldable pub wants_opus : Chain → Bool
wants_opus (basic decode called) = not decode
wants_opus (volume_transformer volume destination) = false
wants_opus (conditional_filter predicate destination) = wants_opus destination
wants_opus (timed_filter t destination) = wants_opus destination
wants_opus (silence_sink g destination) = wants_opus destination

-- `PCMVolumeTransformer.__init__`
unfoldable pub new_volume_transformer : Chain → ℤ → Result Chain
new_volume_transformer destination volume =
    if wants_opus destination
    then raise voice_recv_error
    else ok (volume_transformer volume destination)

-- The setter of `volume`.
abbrev pub set_volume : ℤ → ℤ
set_volume value = if ltb_ℤ value (pos 0) then pos 0 else value

-- `min(self._volume, 2.0)`
abbrev pub factor : ℤ → ℤ
factor volume = if ltb_ℤ (pos 200) volume then pos 200 else volume

-- `UserFilter._predicate`
unfoldable pub is_user : ℕ → Option ℕ → VoiceData ℕ → Bool
is_user own none _ = false
is_user own (some user) _ = user == own

-- `TimedFilter.__init__`, with the reading of the clock for `start_on_init`.
unfoldable pub new_timed : ℕ → Option ℕ → Timed
new_timed duration none = record { duration = duration; start_time = none; once = true }
new_timed duration (some now) = record { duration = duration; start_time = some now; once = false }

-- The packet of the data, as the silence generator reads it.
abbrev pub packet_of : AudioPacket → Packet
packet_of (received p) = record { ssrc = p.ssrc; timestamp = p.timestamp }
packet_of (fake ssrc sequence timestamp) = record { ssrc = ssrc; timestamp = timestamp }

-- After a write: the readings taken, the chain, and whether it raised.
pub record Wrote : Type 0 where
  pub tick : ℕ
  pub chain : Chain
  pub result : Result (Unit {0})

abbrev pub within : (Chain → Chain) → Wrote → Wrote
within around w = record w { chain = around w.chain }

-- `ConditionalFilter.write` of a timed filter, whose predicate reads the clock once it has begun.
abbrev pub in_time : (ℕ → ℕ) → Timed → ℕ → Bool
in_time clock t tick = elim t.start_time [
  | none ↦ false
  | some start ↦ ltb (clock tick) (start + t.duration)
]

abbrev pub tick_after : Timed → ℕ → ℕ
tick_after t tick = elim t.start_time [ none ↦ tick | some _ ↦ tick + 1 ]

-- `_write_once`: the start is noted before, and `write` is bound again behind the write if that did
-- not raise.
abbrev pub begin : (ℕ → ℕ) → Timed → ℕ → Timed
begin clock t tick = if t.once then record t { start_time = some (clock tick) } else t

abbrev pub settle : Timed → Result (Unit {0}) → Timed
settle t result = elim result [ raise _ ↦ t | ok _ ↦ record t { once = false } ]

module _ (mul : Bytes → ℤ → Result Bytes) (clock : ℕ → ℕ) where
  unfoldable pub write : Option ℕ → VoiceData ℕ → ℕ → Chain → Wrote
  unfolding push
  write user d tick (basic decode called) = record {
    tick = tick;
    chain = basic decode (called ++ (user, d) ∷ []);
    result = ok tt;
  }
  write user d tick (volume_transformer volume destination) =
      let around = volume_transformer volume in
      elim (mul d.pcm (factor volume)) [
        | raise e ↦ record { tick = tick; chain = around destination; result = raise e }
        | ok pcm ↦ within around (write user (record d { pcm = pcm }) tick destination)
      ]
  write user d tick (conditional_filter predicate destination) =
      let around = conditional_filter predicate in
      let rest = within around (write user d tick destination) in
      if predicate user d
      then rest
      else record { tick = tick; chain = around destination; result = ok tt }
  write user d tick (timed_filter t destination) =
      let begun = begin clock t tick in
      let now = if t.once then tick + 1 else tick in
      let after = tick_after begun now in
      let rest = write user d after destination in
      if in_time clock begun now
      then record rest { chain = timed_filter (settle begun rest.result) rest.chain }
      else record {
        tick = after;
        chain = timed_filter (settle begun (ok tt)) destination;
        result = ok tt;
      }
  write user d tick (silence_sink g destination) =
      within (silence_sink (push (clock tick) user (packet_of d.packet) g))
        (write user d (tick + 1) destination)

  -- Writes one after another, as the router makes them; one that raises ends them.
  unfoldable pub write_all : List Written → ℕ → Chain → Wrote
  unfolding write
  write_all [] tick c = record { tick = tick; chain = c; result = ok tt }
  write_all ((user, d) ∷ l) tick c =
      let w = write user d tick c in
      let rest = write_all l w.tick w.chain in elim w.result [ raise e ↦ w | ok _ ↦ rest ]

-- `SilenceGeneratorSink.on_voice_member_disconnect` and `cleanup`
unfoldable pub member_disconnect :
    Option ℕ → ℕ → SilenceGenerator → SilenceGenerator × Result (Unit {0})
member_disconnect ssrc member g = drop ssrc (some member) g

unfoldable pub cleanup : SilenceGenerator → SilenceGenerator
unfolding stop_signal stop_clear
cleanup g = stop_clear (stop_signal g)
