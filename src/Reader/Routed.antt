-- ===== src/Reader/Routed.antt =====
-- What `_route_rtp_packet` calls: nothing for an ssrc without a user, and else the packets that waited
-- for the user before the packet itself.
use discord_ext_voice_recv.Base.{ℕ, ◌≤◌, ◌≡◌, true, false, none, List, ◌++◌, length, All}
use discord_ext_voice_recv.Base.Dict.{get}
use discord_ext_voice_recv.Rtp.{RtpPacket}
use discord_ext_voice_recv.Client.{Client}
use discord_ext_voice_recv.Unknown.{flush_for, queue_packet}
use discord_ext_voice_recv.Unknown.Queue.{IsPending}
use discord_ext_voice_recv.Reader.{
  Reader, deliveries, delivery, is_known, pending_unknown_max_age, pending_unknown_max_per_ssrc,
}

-- The state after a packet was routed: its ssrc has a user, and the packets of it that a flush finds
-- waiting go on before it; or nothing goes on.
pub data Routed (c : Client) (now : ℕ) (r : Reader) (p : RtpPacket) : Reader → Type 0 where
  goes_on :
      (r' : Reader) (earlier : List RtpPacket)
      → earlier
        ≡ (flush_for pending_unknown_max_age pending_unknown_max_per_ssrc now
            r.pending_unknown_packets p.ssrc).1
      → is_known c p.ssrc ≡ true
      → length earlier ≤ pending_unknown_max_per_ssrc
      → All (λ (q : RtpPacket). q.ssrc ≡ p.ssrc) earlier
      → r'.calls ≡ r.calls ++ (deliveries c earlier ++ delivery p)
      → get p.ssrc r'.pending_unknown_packets ≡ none
      → Routed c now r p r'
  is_held_back :
      (r' : Reader) → is_known c p.ssrc ≡ false → r'.calls ≡ r.calls → Routed c now r p r'

-- The queues of unknown ssrcs are bounded and apart.
abbrev pub IsTidy : Reader → Type 0
IsTidy r = IsPending pending_unknown_max_age pending_unknown_max_per_ssrc r.pending_unknown_packets

abbrev queued : ℕ → Reader → RtpPacket → Reader
queued now r p = record r {
  pending_unknown_packets =
      queue_packet pending_unknown_max_age pending_unknown_max_per_ssrc now
        r.pending_unknown_packets p;
}
