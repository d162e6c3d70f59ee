-- ===== src/Sinks/Ffmpeg/Killed.antt =====
-- The end of an `FFmpegSink`: how failures are reported before it, and that nothing is written behind it.
use discord_ext_voice_recv.Base.{◌≡◌, true}
use discord_ext_voice_recv.Base.Bytes.{Bytes}
use discord_ext_voice_recv.Sinks.Ffmpeg.{FfmpegSink}

-- What a sink of which the input is closed keeps.
abbrev IsOver : FfmpegSink → FfmpegSink → Type 0
IsOver s t = (t.stdin_closed ≡ true) × (t.input ≡ s.input)
