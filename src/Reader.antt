-- ===== src/Reader.antt =====
-- discord/ext/voice_recv/reader.py, `AudioReader`: from a datagram to the calls on the speaking timer
-- and the packet router, which are listed in order. The reader's lock makes one call of `callback` one
-- step, in which the tables of the voice client do not change and no time goes by. The log and the
-- counters of `analysis_stats` that nothing reads are left out; times are in milliseconds.
pub mod Receive
pub mod Routed
pub mod Closed
use discord_ext_voice_recv.Base.{
  ℕ, ◌+◌, ◌-◌, Bool, true, false, ◌&&◌, ◌||◌, not, Option, none, some, List, [], ◌∷◌, ◌++◌, leb,
  ltb, ◌==◌, if◌then◌else◌, is_some, is_empty,
}
use discord_ext_voice_recv.Base.Dict.{Dict, get, get_or, put, delete, contains, remove}
use discord_ext_voice_recv.Rtp.{RtpPacket, is_silence}
use discord_ext_voice_recv.Rtcp.{Packet}
use discord_ext_voice_recv.Client.{Client, Kind, is_audio, get_ssrc_media_kind}
use discord_ext_voice_recv.Client
use discord_ext_voice_recv.Unknown.{queue_packet, flush_for}
use discord_ext_voice_recv.Unknown
use discord_ext_voice_recv.Decryptor.{Decryptor, Env, close}
use discord_ext_voice_recv.Decryptor

-- `speaking_timer.notify`, `packet_router.feed_rtp` and `feed_rtcp`, and the end of `stop`.
pub data Call : Type 0 where
  notify : ℕ → Call
  feed_rtp : RtpPacket → Call
  feed_rtcp : Packet → Call
  remove_socket_listener : Call

-- What is known of the packets that were only counted: how many, and the count and the time of the
-- last message about them.
pub record Notices : Type 0 where
  pub count : Dict ℕ
  pub last_info_at : Dict ℕ
  pub last_info_count : Dict ℕ

pub record Reader : Type 0 where
  pub decryptor : Decryptor
  pub pending_unknown_packets : Dict (List Unknown.Pending)
  pub unknown_ssrc_notice : List ℕ
  pub unknown_ssrc : Notices
  pub unexpected_rtcp : Notices
  pub calls : List Call
  pub active : Bool
  pub error : Bool

abbrev pub pending_unknown_max_per_ssrc : ℕ
pending_unknown_max_per_ssrc = 32

abbrev pub pending_unknown_max_age : ℕ
pending_unknown_max_age = 500

abbrev pub info_every_packets : ℕ
info_every_packets = 200

abbrev pub info_every : ℕ
info_every = 5000

-- `stop`; the threads that it ends are not the reader's.
unfoldable pub stop : Reader → Reader
stop r =
    if r.active
    then record r { calls = r.calls ++ remove_socket_listener ∷ []; active = false }
    else r

-- The calls for a packet that goes on.
abbrev pub delivery : RtpPacket → List Call
delivery p = notify p.ssrc ∷ feed_rtp p ∷ []

-- The loop over the packets that waited for their user.
unfoldable pub deliveries : Client → List RtpPacket → List Call
deliveries c [] = []
deliveries c (p ∷ l) =
    let rest = deliveries c l in
    if is_audio (get_ssrc_media_kind c p.ssrc) then delivery p ++ rest else rest

-- `flush_pending_unknown_for_ssrc`
unfoldable pub flush_pending : Client → ℕ → Reader → ℕ → Reader
unfolding deliveries flush_for
flush_pending c now r ssrc =
    let (m, packets) =
      flush_for pending_unknown_max_age pending_unknown_max_per_ssrc now r.pending_unknown_packets
        ssrc in
    record r { pending_unknown_packets = m; calls = r.calls ++ deliveries c packets }

-- A message is due by the number of packets or by the time since the last.
unfoldable pub should_log_info : ℕ → ℕ → ℕ → Notices → Bool
should_log_info now key total n =
    leb info_every_packets (total - get_or key 0 n.last_info_count)
    || leb info_every (now - get_or key 0 n.last_info_at)

abbrev pub is_unknown : Kind → Bool
is_unknown Kind.unknown = true
is_unknown _ = false

abbrev pub logged : ℕ → ℕ → ℕ → Notices → Notices
logged now key total n = record n {
  last_info_at = put key now n.last_info_at;
  last_info_count = put key total n.last_info_count;
}

-- The count of a packet of an unknown ssrc, and whether there is a message about it.
unfoldable pub note_unknown : ℕ → Reader → ℕ → Reader
unfolding should_log_info
note_unknown now r ssrc =
    let total = get_or ssrc 0 r.unknown_ssrc.count + 1 in
    let n : Notices = record (r.unknown_ssrc) { count = put ssrc total r.unknown_ssrc.count } in
    if not (contains ssrc r.unknown_ssrc_notice)
    then record r {
      unknown_ssrc_notice = ssrc ∷ r.unknown_ssrc_notice;
      unknown_ssrc = logged now ssrc total n;
    }
    else record r {
      unknown_ssrc = if should_log_info now ssrc total n then logged now ssrc total n else n;
    }

abbrev pub forget_unknown : Reader → ℕ → Reader
forget_unknown r ssrc = record r {
  unknown_ssrc_notice = remove ssrc r.unknown_ssrc_notice;
  unknown_ssrc = record {
    count = delete ssrc r.unknown_ssrc.count;
    last_info_at = delete ssrc r.unknown_ssrc.last_info_at;
    last_info_count = delete ssrc r.unknown_ssrc.last_info_count;
  };
}

abbrev pub is_known : Client → ℕ → Bool
is_known c ssrc = is_some (get ssrc c.ssrc_to_id)

-- `_route_rtp_packet`
unfoldable pub route : Client → ℕ → Reader → RtpPacket → Reader
unfolding flush_pending note_unknown is_silence
route c now r p =
    let flushed = flush_pending c now (forget_unknown r p.ssrc) p.ssrc in
    let queued : Reader = record r {
      pending_unknown_packets =
          queue_packet pending_unknown_max_age pending_unknown_max_per_ssrc now
            r.pending_unknown_packets p;
    } in
    if is_known c p.ssrc
    then record flushed { calls = flushed.calls ++ delivery p }
    else if is_silence p
    then r
    else note_unknown now (if is_unknown (get_ssrc_media_kind c p.ssrc) then queued else r) p.ssrc
