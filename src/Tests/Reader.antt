-- ===== src/Tests/Reader.antt =====
-- A packet of a user whose ssrc is known, for whom an older packet waits.
use discord_ext_voice_recv.Base.{true, false, [], ◌∷◌}
use discord_ext_voice_recv.Base.Dict.{}
use discord_ext_voice_recv.Rtp.{RtpPacket}
use discord_ext_voice_recv.Client.{Client, Kind}
use discord_ext_voice_recv.Transport.{aead_xchacha20_poly1305_rtpsize}
use discord_ext_voice_recv.Decryptor.{Decryptor}
use discord_ext_voice_recv.Decryptor.Drain.{}
use discord_ext_voice_recv.Decryptor.Store.{}
use discord_ext_voice_recv.Decryptor.Held.{}
use discord_ext_voice_recv.Reader.{Reader, Notices}
use discord_ext_voice_recv.Reader.Receive.{Around}
use discord_ext_voice_recv.Reader.Routed.{Routed}
use discord_ext_voice_recv.Tests.Data.{packet}
use discord_ext_voice_recv.Tests.Decryptor.{env, waiting, payload}
use discord_ext_voice_recv.Tests.Transport.{boxes}

abbrev none_yet : Notices
none_yet = record { count = []; last_info_at = []; last_info_count = [] }

abbrev pub client : Client
client = record {
  ssrc_to_id = (7, 42) ∷ [];
  ssrc_media_kind = (7, Kind.audio) ∷ [];
  id_to_ssrc = (42, 7) ∷ [];
  user_stream_ssrcs = [];
  has_reader = true;
  calls = [];
}

abbrev reader : Decryptor → Reader
reader d = record {
  decryptor = d;
  pending_unknown_packets = (7, record { packet = packet 4; queued_at = 10 } ∷ []) ∷ [];
  unknown_ssrc_notice = [];
  unknown_ssrc = none_yet;
  unexpected_rtcp = none_yet;
  calls = [];
  active = true;
  error = false;
}

abbrev idle : Decryptor
idle = record (waiting 2) { store = []; pending_inner_packets = [] }

-- The store with the older packet marked as waiting.
abbrev deferred : Decryptor
deferred =
    let p = packet 5 in
    record (waiting 2) {
      store = (0, record p { marks = record (p.marks) { pending = true } }) ∷ [];
    }

abbrev around : Around
around = record {
  env = env;
  client = client;
  cipher = boxes;
  mode = aead_xchacha20_poly1305_rtpsize;
  key = [];
  utf8 = λ l. true;
  ascii = λ l. true;
}

abbrev sent : RtpPacket
sent = record (packet 6) { data_ = 0 ∷ 1 ∷ 0xfa ∷ 0xfa ∷ 1 ∷ 2 ∷ 3 ∷ 4 ∷ [] }

abbrev split : RtpPacket
split = record sent { rtpsize = true; nonce = 1 ∷ 2 ∷ 3 ∷ 4 ∷ []; data_ = 0 ∷ payload }
