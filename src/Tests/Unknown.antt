-- ===== src/Tests/Unknown.antt =====
-- One packet waits for its user, and another comes, within the limits of two seconds and one packet.
use discord_ext_voice_recv.Base.{refl, List, [], ◌∷◌, arith}
use discord_ext_voice_recv.Base.Dict.{Dict}
use discord_ext_voice_recv.Unknown.{Pending}
use discord_ext_voice_recv.Unknown.Queue.{IsPending}
use discord_ext_voice_recv.Tests.Data.{packet}

abbrev waiting : Dict (List Pending)
waiting = (7, record { packet = packet 5; queued_at = 10 } ∷ []) ∷ []

waiting-IsPending : IsPending 2 1 waiting
waiting-IsPending = ((omega arith, omega arith, (refl, tt)), tt)
