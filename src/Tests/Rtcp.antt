-- ===== src/Tests/Rtcp.antt =====
-- RTCP packets of one report or chunk.
use discord_ext_voice_recv.Base.{
  ◌≡◌, refl, true, false, some, List, [], ◌∷◌, ◌++◌, arith, ok, Result, raise, struct_error,
}
use discord_ext_voice_recv.Base.Bytes.{Bytes, unpack_at, be_from, eq_bytes, words, unpack_words}
use discord_ext_voice_recv.Rtcp.{
  read_common, Report, read_report, read_reports, Decodes, read_item, read_items, read_chunk,
  read_chunks, read_bye, Packet, bye, decode, is_rtcp,
}
use discord_ext_voice_recv.Rtcp.Chunks.{decode_total}
use discord_ext_voice_recv.Rtcp.Reports.{layouts, read_reports-layouts}

abbrev any_text : Decodes
any_text l = true

program : Unit {0}
unfolding read_common read_report read_reports read_item read_items read_chunk read_chunks read_bye
    decode is_rtcp unpack_at be_from words unpack_words eq_bytes
program = tt

-- BYE of ssrc 7 with the reason "no".
abbrev goodbye : Bytes
goodbye = 0x81 ∷ 203 ∷ 0 ∷ 2 ∷ 0 ∷ 0 ∷ 0 ∷ 7 ∷ 2 ∷ 0x6e ∷ 0x6f ∷ 0 ∷ []

abbrev goodbye_packet : Packet
goodbye_packet = bye (record {
  common = record { version = 2; padding = false; length_ = 2; low_bits = 1 };
  ssrcs = 7 ∷ [];
  reason = some (0x6e ∷ 0x6f ∷ []);
})

decode_total_example : (r : Result Packet) × (decode any_text any_text goodbye ≡ some r)
decode_total_example = decode_total any_text any_text goodbye

-- A description whose chunk ends on a word boundary: the END octet is the last byte of the packet,
-- and `_read_item` wants two.
on_boundary :
    decode any_text any_text (0x81 ∷ 202 ∷ 0 ∷ 2 ∷ 0 ∷ 0 ∷ 0 ∷ 7 ∷ 1 ∷ 1 ∷ 0x61 ∷ 0 ∷ [])
    ≡ some (raise struct_error)
unfolding program
on_boundary = refl

abbrev reports : List Report
reports =
    record {
      ssrc = 7;
      perc_loss = 25;
      total_lost = 70000;
      last_seq = 65536;
      jitter = 3;
      lsr = 0;
      dlsr = 4294967295;
    }
    ∷ []

read_reports-layouts_example :
    read_reports 1 ((1 ∷ 2 ∷ []) ++ layouts reports (9 ∷ [])) 2 ≡ ok reports
read_reports-layouts_example = read_reports-layouts reports (1 ∷ 2 ∷ []) (9 ∷ []) (
  record {
    ssrc_fits = omega arith;
    loss_fits = omega arith;
    lost_fits = omega arith;
    seq_fits = omega arith;
    jitter_fits = omega arith;
    lsr_fits = omega arith;
    dlsr_fits = omega arith;
  },
  tt,
)
