-- ===== src/Tests/Speaking.antt =====
-- Two users speak, and one of them stops.
use discord_ext_voice_recv.Base.{ℕ, ◌≡◌, refl, Bool, true, some, List, [], ◌∷◌}
use discord_ext_voice_recv.Base.Dict.{get, put, delete}
use discord_ext_voice_recv.Speaking.{
  SpeakingTimer, starts, stops, notify, expire, dispatch, drop_ssrc, get_next_entry,
  client_get_speaking,
}
use discord_ext_voice_recv.Speaking.Thread.{
  Step, heard, drops, ticks, TimerThread, nobody, ended, new_thread, at_times, run, stops-ends,
}
use discord_ext_voice_recv.Speaking.Thread
use discord_ext_voice_recv.HeapQueue.{sorted}

abbrev two_speak : SpeakingTimer
two_speak = record {
  last_speaking_state = (7, true) ∷ (8, true) ∷ [];
  speaking_cache = (7, 90) ∷ (8, 30) ∷ [];
  dispatched = [];
}

abbrev silent : SpeakingTimer
silent = record { last_speaking_state = []; speaking_cache = []; dispatched = [] }

-- The timer waits for a packet of the time 0, and when the wait ends, at 200, a packet has just come:
-- the user is reported as silent, and no later packet reports otherwise.
stale_stop :
    let first = notify (λ s. true) 0 7 silent in
    let again = notify (λ s. true) 200 7 first in
    let stopped = expire (λ s. true) 200 (7, 0) again in
    (notify (λ s. true) 220 7 stopped).dispatched ≡ starts 7 ∷ stops 7 ∷ []
unfolding notify expire dispatch get put
stale_stop = refl

abbrev everybody : ℕ → Bool
everybody s = true

-- The only one who spoke is dropped, and the thread waits for something in the cache.
abbrev all_left : List Step
all_left = heard 0 7 ∷ ticks 1 ∷ ticks 2 ∷ drops 7 ∷ ticks 200 ∷ ticks 201 ∷ []

stops-ends_example :
    (run everybody
      (Thread.stops ∷ at_times (300 ∷ 301 ∷ 302 ∷ 303 ∷ []))
      (run everybody all_left new_thread)).place
    ≡ nobody
unfolding run get_next_entry sorted notify drop_ssrc expire dispatch get put delete
stops-ends_example = stops-ends everybody (run everybody all_left new_thread) 300 301 302 (303 ∷ [])

-- While somebody speaks it ends.
ends_in_time :
    (run everybody
      (Thread.stops ∷ at_times (300 ∷ 301 ∷ 302 ∷ []))
      (run everybody (heard 0 7 ∷ ticks 1 ∷ []) new_thread)).place
    ≡ ended
unfolding run get_next_entry sorted notify dispatch expire get put
ends_in_time = refl

speaking_known : client_get_speaking ((42, 7) ∷ []) (some two_speak) 42 ≡ some true
unfolding client_get_speaking get
speaking_known = refl
