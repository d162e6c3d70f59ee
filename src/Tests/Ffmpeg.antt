-- ===== src/Tests/Ffmpeg.antt =====
-- An `FFmpegSink` with a thread that writes to the process, 1, and one that reads from it, 2.
use discord_ext_voice_recv.Base.{◌≡◌, refl, true, false, some, List, [], ◌∷◌}
use discord_ext_voice_recv.Base.Dict.{get, put}
use discord_ext_voice_recv.Sinks.Ffmpeg.{
  Step, calls_write, writes, pours, reads, cleans, finishes, run, new_sink,
}

-- Both fail, the second before the first has given up the process, which is then killed twice, and
-- both call `on_error`.
abbrev both_fail : List Step
both_fail =
    calls_write 1 (4 ∷ 5 ∷ [])
    ∷ writes 1 false
    ∷ reads 2 (some (6 ∷ []))
    ∷ calls_write 1 (7 ∷ [])
    ∷ writes 1 true
    ∷ pours 2 true
    ∷ finishes 2
    ∷ finishes 1
    ∷ []

abbrev afterwards : List Step
afterwards = calls_write 1 (8 ∷ []) ∷ writes 1 false ∷ cleans 3 ∷ []

killed_twice : (run both_fail new_sink).killers ≡ 2
unfolding run get put
killed_twice = refl

reported_twice : (run both_fail new_sink).errors ≡ 2 ∷ 1 ∷ []
unfolding run get put
reported_twice = refl

written_once : (run afterwards (run both_fail new_sink)).input ≡ 4 ∷ 5 ∷ []
unfolding run get put
written_once = refl
