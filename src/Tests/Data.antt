-- ===== src/Tests/Data.antt =====
-- Packets of one stream: 20 ms of 48 kHz sound each.
use discord_ext_voice_recv.Base.{ℕ, ◌*◌, false, none, []}
use discord_ext_voice_recv.Rtp.{RtpPacket, no_marks}

abbrev pub packet : ℕ → RtpPacket
packet n = record {
  version = 2;
  padding = false;
  extended = false;
  cc = 0;
  marker = false;
  payload = 120;
  sequence = n;
  timestamp = 960 * n;
  ssrc = 7;
  csrcs = [];
  header = [];
  data_ = [];
  decrypted_data = none;
  nonce = [];
  extension = none;
  extension_data = [];
  marks = no_marks;
  rtpsize = false;
}
