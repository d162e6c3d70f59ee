-- ===== src/Sinks/Built.antt =====
-- The sinks over a `BasicSink`, as their constructors make them: what they ask for.
use discord_ext_voice_recv.Base.{
  ℕ, ◌≡◌, refl, Bool, true, false, not, ◌&&◌, Option, [], arith, Result, ok, raise,
  voice_recv_error, ◌>>=◌, if◌then◌else◌,
}
use discord_ext_voice_recv.Base.Int.{ℤ}
use discord_ext_voice_recv.Decoder.{VoiceData}
use discord_ext_voice_recv.Silence.{new_generator}
use discord_ext_voice_recv.Sinks.{
  Chain, basic, volume_transformer, conditional_filter, timed_filter, silence_sink, wants_opus,
  new_volume_transformer, is_user, new_timed,
}

-- The constructors that are called, from the outermost to `BasicSink(decode=…)`.
pub data Plan : Type 0 where
  ends : Bool → Plan
  scales : ℤ → Plan → Plan
  filters : (Option ℕ → VoiceData ℕ → Bool) → Plan → Plan
  users : ℕ → Plan → Plan
  times : ℕ → Option ℕ → Plan → Plan
  silences : Plan → Plan

unfoldable pub build : Plan → Result Chain
unfolding new_volume_transformer
build (ends decode) = ok (basic decode [])
build (scales volume p) = build p >>= λ c. new_volume_transformer c volume
build (filters predicate p) = build p >>= λ c. ok (conditional_filter predicate c)
build (users user p) = build p >>= λ c. ok (conditional_filter (is_user user) c)
build (times duration now p) = build p >>= λ c. ok (timed_filter (new_timed duration now) c)
build (silences p) = build p >>= λ c. ok (silence_sink new_generator c)

abbrev pub scales_any : Plan → Bool
scales_any (ends decode) = false
scales_any (scales volume p) = true
scales_any (filters predicate p) = scales_any p
scales_any (users user p) = scales_any p
scales_any (times duration now p) = scales_any p
scales_any (silences p) = scales_any p

abbrev pub decodes : Plan → Bool
decodes (ends decode) = decode
decodes (scales volume p) = decodes p
decodes (filters predicate p) = decodes p
decodes (users user p) = decodes p
decodes (times duration now p) = decodes p
decodes (silences p) = decodes p

-- What is to come of a plan.
abbrev pub shape : Plan → Chain
shape (ends decode) = basic decode []
shape (scales volume p) = volume_transformer volume (shape p)
shape (filters predicate p) = conditional_filter predicate (shape p)
shape (users user p) = conditional_filter (is_user user) (shape p)
shape (times duration now p) = timed_filter (new_timed duration now) (shape p)
shape (silences p) = silence_sink new_generator (shape p)

wants_opus-shape :
    (p : Plan) → wants_opus (shape p) ≡ (if scales_any p then false else not (decodes p))
unfolding wants_opus
wants_opus-shape (ends decode) = refl
wants_opus-shape (scales volume p) = refl
wants_opus-shape (filters predicate p) = wants_opus-shape p
wants_opus-shape (users user p) = wants_opus-shape p
wants_opus-shape (times duration now p) = wants_opus-shape p
wants_opus-shape (silences p) = wants_opus-shape p

abbrev pub outcome : Plan → Result Chain
outcome p = if scales_any p && not (decodes p) then raise voice_recv_error else ok (shape p)

build-outcome : (p : Plan) → build p ≡ outcome p
unfolding build new_volume_transformer
build-outcome (ends decode) = refl
build-outcome (scales volume p) = ground (arith, build-outcome p, wants_opus-shape p)
build-outcome (filters predicate p) = ground (arith, build-outcome p)
build-outcome (users user p) = ground (arith, build-outcome p)
build-outcome (times duration now p) = ground (arith, build-outcome p)
build-outcome (silences p) = ground (arith, build-outcome p)

-- Sinks can be put together as the calls say unless a volume is to be set over an end that takes
-- Opus, which is refused; and what they ask the decoder for is then what their end takes.
pub build-wants_opus :
    (p : Plan)
    → (build p ≡ outcome p) × ((c : Chain) → build p ≡ ok c → wants_opus c ≡ not (decodes p))
build-wants_opus p = (build-outcome p, λ c e. ground (arith, build-outcome p, wants_opus-shape p))
