-- ===== src/Speaking.antt =====
-- discord/ext/voice_recv/reader.py, `SpeakingTimer`: who is speaking. Of its thread
-- `get_next_entry` picks the ssrc to wait for, and `expire` is what follows the wait. Times are
-- in milliseconds; the events are what is dispatched to the sink, for the ssrcs that a member is
-- found for, which is a parameter.
pub mod Next
pub mod Thread
use discord_ext_voice_recv.Base.{
  ℕ, ◌+◌, Bool, true, false, ◌&&◌, ◌||◌, not, Option, none, some, List, [], ◌∷◌, ◌++◌, leb, ltb,
  ◌==◌, if◌then◌else◌,
}
use discord_ext_voice_recv.Base.Dict.{Dict, get, get_or, put, delete}
use discord_ext_voice_recv.HeapQueue.{sorted}

-- `voice_member_speaking_start` and `_stop`.
pub data SpeakingEvent : Type 0 where
  starts stops : ℕ → SpeakingEvent

pub record SpeakingTimer : Type 0 where
  pub last_speaking_state : Dict Bool
  pub speaking_cache : Dict ℕ
  pub dispatched : List SpeakingEvent

abbrev pub speaking_timeout_delay : ℕ
speaking_timeout_delay = 200

abbrev pub is_speaking : SpeakingTimer → ℕ → Bool
is_speaking t ssrc = get_or ssrc false t.last_speaking_state

-- `not tlast < now`, on the items of the cache.
abbrev pub is_earlier : ℕ × ℕ → ℕ × ℕ → Bool
is_earlier x y = ltb (x.1) (y.1)

-- The loop of `get_next_entry`.
unfoldable pub first_speaking : SpeakingTimer → Dict ℕ → Option (ℕ × ℕ)
first_speaking t [] = none
first_speaking t ((ssrc, last) ∷ m) =
    if is_speaking t ssrc then some (ssrc, last) else first_speaking t m

unfoldable pub get_next_entry : SpeakingTimer → Option (ℕ × ℕ)
unfolding first_speaking
get_next_entry t = first_speaking t (sorted is_earlier t.speaking_cache)

abbrev pub get_speaking : ℕ → SpeakingTimer → Option Bool
get_speaking ssrc t = get ssrc t.last_speaking_state

-- `VoiceRecvClient.get_speaking`, with the client's table of ssrcs, and the timer of its reader.
unfoldable pub client_get_speaking : Dict ℕ → Option SpeakingTimer → ℕ → Option Bool
client_get_speaking id_to_ssrc timer id = elim (get id id_to_ssrc) [
  | none ↦ none
  | some ssrc ↦ elim timer [ none ↦ none | some t ↦ get_speaking ssrc t ]
]

module _ (has_member : ℕ → Bool) where
  unfoldable pub dispatch : SpeakingEvent → ℕ → SpeakingTimer → SpeakingTimer
  dispatch event ssrc t =
      if has_member ssrc then record t { dispatched = t.dispatched ++ event ∷ [] } else t

  -- `notify(ssrc)`, with `maybe_dispatch_speaking_start`.
  unfoldable pub notify : ℕ → ℕ → SpeakingTimer → SpeakingTimer
  unfolding dispatch
  notify now ssrc t =
      let t' : SpeakingTimer = record t {
        last_speaking_state = put ssrc true t.last_speaking_state;
      } in
      let is_new : Bool = elim (get ssrc t.speaking_cache) [
        | none ↦ true
        | some last ↦ ltb (last + speaking_timeout_delay) now
      ] in
      let t'' = if is_new then dispatch (starts ssrc) ssrc t' else t' in
      record t'' { speaking_cache = put ssrc now t''.speaking_cache }

  unfoldable pub drop_ssrc : ℕ → SpeakingTimer → SpeakingTimer
  unfolding dispatch
  drop_ssrc ssrc t =
      let t' : SpeakingTimer = record t {
        speaking_cache = delete ssrc t.speaking_cache;
        last_speaking_state = delete ssrc t.last_speaking_state;
      } in
      if is_speaking t ssrc then dispatch (stops ssrc) ssrc t' else t'

  -- A round of `run` behind the wait for the entry that it picked, at the time `now`.
  unfoldable pub expire : ℕ → ℕ × ℕ → SpeakingTimer → SpeakingTimer
  unfolding dispatch
  expire now (ssrc, last) t =
      let t' = dispatch (stops ssrc) ssrc t in
      if ltb now (last + speaking_timeout_delay)
      then t
      else record t' { last_speaking_state = put ssrc false t'.last_speaking_state }
