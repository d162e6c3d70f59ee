-- ===== src/Tests/Rtp.antt =====
-- RTP packets with small headers.
use discord_ext_voice_recv.Base.{ℕ, ◌≤◌, ◌≡◌, true, false, some, List, [], ◌∷◌, arith, ok}
use discord_ext_voice_recv.Base.Dict.{put}
use discord_ext_voice_recv.Rtp.{RtpPacket, init, parse_bede_header, update_ext_headers}
use discord_ext_voice_recv.Rtp.Header.{Fields, Fits, layout, packet_of, init-layout}
use discord_ext_voice_recv.Rtp.Extension.{Element, encode, put_all, parse_bede_header-encode}
use discord_ext_voice_recv.Rtp.Payload.{update_ext_headers_total}
use discord_ext_voice_recv.Tests.Data.{packet}

abbrev fields : Fields
fields = record {
  version = 2;
  padding = false;
  extended = true;
  marker = true;
  payload = 120;
  sequence = 65535;
  timestamp = 4294967295;
  ssrc = 7;
  csrcs = 1 ∷ 2 ∷ [];
}

fields-Fits : Fits fields
fields-Fits = record {
  version_fits = omega arith;
  count_fits = omega arith;
  payload_fits = omega arith;
  sequence_fits = omega arith;
  timestamp_fits = omega arith;
  ssrc_fits = omega arith;
  csrcs_fit = (omega arith, (omega arith, tt));
}

init-layout_example : init (layout fields (1 ∷ 2 ∷ 3 ∷ [])) ≡ ok (packet_of fields (1 ∷ 2 ∷ 3 ∷ []))
init-layout_example = init-layout fields (1 ∷ 2 ∷ 3 ∷ []) fields-Fits

abbrev loud : RtpPacket
loud = record (packet 5) {
  padding = true;
  extended = true;
  rtpsize = true;
  header = 0xbe ∷ 0xde ∷ 0 ∷ 1 ∷ [];
  data_ = 0xbe ∷ 0xde ∷ 0 ∷ 1 ∷ 16 ∷ 30 ∷ 0 ∷ 0 ∷ 0 ∷ 0 ∷ 0 ∷ 1 ∷ [];
}

update_ext_headers_total_example :
    (q : RtpPacket) × (offset : ℕ) × (update_ext_headers loud (16 ∷ 30 ∷ 0 ∷ 0 ∷ 1 ∷ [])
      ≡ ok (q, offset))
    × (offset ≤ 5)
update_ext_headers_total_example =
    update_ext_headers_total loud (16 ∷ 30 ∷ 0 ∷ 0 ∷ 1 ∷ []) (λ e. omega arith)

abbrev elements : List Element
elements = (1, 30 ∷ []) ∷ (2, 4 ∷ 5 ∷ []) ∷ []

parse_bede_header-encode_example :
    parse_bede_header (0xbe ∷ 0xde ∷ 0 ∷ 2 ∷ encode elements (9 ∷ [])) 2 []
    ≡ some (put_all elements [])
parse_bede_header-encode_example = parse_bede_header-encode elements 0xbe 0xde 0 2 (9 ∷ []) [] (
  (omega arith, omega arith, omega arith, omega arith),
  ((omega arith, omega arith, omega arith, omega arith), tt),
)

-- The extension's length is in words, and the loop takes it for a number of elements: of two one-byte
-- elements, which fill an extension of one word, the second is never read.
second_element_unread :
    parse_bede_header (0xbe ∷ 0xde ∷ 0 ∷ 1 ∷ 16 ∷ 30 ∷ 32 ∷ 40 ∷ []) 1 []
    ≡ some (put 1 (30 ∷ []) [])
second_element_unread =
    parse_bede_header-encode ((1, 30 ∷ []) ∷ []) 0xbe 0xde 0 1 (32 ∷ 40 ∷ []) []
      ((omega arith, omega arith, omega arith, omega arith), tt)
