-- ===== src/Statistics/Kept.antt =====
-- `ReceiveAnalysisStats`: the samples and counters against everything that was reported.
use discord_ext_voice_recv.Base.Dict.{Dict}
use discord_ext_voice_recv.Statistics.{Statistics}
use discord_ext_voice_recv.Statistics.Reports.{Reports}
