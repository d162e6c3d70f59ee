-- ===== src/Reader/Receive.antt =====
-- `AudioReader._callback`: a datagram off the wire. An object is the identity that the reader gives
-- to the packet it decodes, a fresh one at each call. No case of `decode` that answers `none` happens
-- (its fuel is enough), and none with an RTCP packet for a datagram that `is_rtcp` does not hold for.
use discord_ext_voice_recv.Base.{
  ℕ, ◌+◌, Bool, true, false, ◌&&◌, ◌||◌, none, some, List, [], ◌∷◌, ◌++◌, ◌==◌, if◌then◌else◌,
  get_elem?, length, Result, ok, raise, Error, crypto_error,
}
use discord_ext_voice_recv.Base.Bytes.{Bytes}
use discord_ext_voice_recv.Base.Dict.{get, get_or, put, contains}
use discord_ext_voice_recv.Rtp.{RtpPacket, adjust_rtpsize}
use discord_ext_voice_recv.Rtcp.{
  Packet, sender_report, receiver_report, sdes, bye, app, rtp, Decodes, decode, is_rtcp,
}
use discord_ext_voice_recv.Client.{Client, Kind, get_ssrc_media_kind}
use discord_ext_voice_recv.Transport.{Cipher, Mode, decrypt_rtcp}
use discord_ext_voice_recv.Decryptor.{Decryptor, Env}
use discord_ext_voice_recv.Decryptor.Drain.{pop_recovered, is_deferred}
use discord_ext_voice_recv.Decryptor.Receive.{decrypt_rtp, has_inner}
use discord_ext_voice_recv.Reader.{Reader, Notices, feed_rtcp, stop, route, should_log_info, logged}

-- What is around the reader: the voice client's tables, the cipher with its mode and key, Python's
-- decoders of text.
pub record Around : Type 0 where
  pub env : Env
  pub client : Client
  pub cipher : Cipher
  pub mode : Mode
  pub key : Bytes
  pub utf8 : Decodes
  pub ascii : Decodes

-- `_get_id_from_ssrc` reads the client's table.
abbrev pub env_of : Around → Env
env_of a = record (a.env) { get_id_from_ssrc = λ ssrc. get ssrc a.client.ssrc_to_id }

abbrev pub is_crypto : Error → Bool
is_crypto crypto_error = true
is_crypto _ = false

-- `_is_ip_discovery_packet`
unfoldable pub is_ip_discovery : Bytes → Bool
is_ip_discovery d = length d == 74 && (elim (get_elem? d 1) [ none ↦ false | some b ↦ b == 2 ])

abbrev pub packet_type : Packet → ℕ
packet_type (sender_report _) = 200
packet_type (receiver_report _) = 201
packet_type (sdes _ _) = 202
packet_type (bye _) = 203
packet_type (app _) = 204
packet_type (rtp p) = p.payload

abbrev pub is_report : Packet → Bool
is_report (sender_report _) = true
is_report (receiver_report _) = true
is_report _ = false

-- `_log_unexpected_rtcp_packet`; the class of a packet follows from its type.
unfoldable pub log_unexpected : ℕ → Reader → ℕ → Reader
unfolding should_log_info
log_unexpected now r type_ =
    let total = get_or type_ 0 r.unexpected_rtcp.count + 1 in
    let n : Notices = record (r.unexpected_rtcp) {
      count = put type_ total r.unexpected_rtcp.count;
    } in
    record r {
      unexpected_rtcp = elim (get type_ n.last_info_at) [
        | none ↦ logged now type_ total n
        | some _ ↦ if should_log_info now type_ total n then logged now type_ total n else n
      ];
    }

-- `packet.decrypted_data = l`
unfoldable pub with_data : ℕ → Bytes → Decryptor → Decryptor
with_data object l d = record d {
  store = elim (get object d.store) [
    | none ↦ d.store
    | some p ↦ put object (record p { decrypted_data = some l }) d.store
  ];
}

unfoldable pub route_object : Around → Reader → ℕ → Reader
unfolding route
route_object a r object = elim (get object r.decryptor.store) [
  | none ↦ r
  | some p ↦ route a.client a.env.now r p
]

unfoldable pub route_all : Around → Reader → List ℕ → Reader
unfolding route_object
route_all a r [] = r
route_all a r (object ∷ rest) = route_all a (route_object a r object) rest

unfoldable pub is_dropped : Decryptor → ℕ → Bool
is_dropped d object = elim (get object d.store) [ none ↦ false | some p ↦ p.marks.dropped ]

-- The end of `_callback` for an RTP packet.
unfoldable pub deliver_rtp : Around → Reader → List ℕ → Bool → ℕ → Reader
unfolding route_all is_dropped route_object
deliver_rtp a r recovered defer_current object =
    let r1 = route_all a r recovered in
    if is_dropped r1.decryptor object || defer_current then r1 else route_object a r1 object

unfoldable pub finish_rtp : Around → Reader → List ℕ → Bool → ℕ → Reader
unfolding stop deliver_rtp
finish_rtp a r recovered defer_current object =
    if r.error then stop r else deliver_rtp a r recovered defer_current object

-- What a failed decryption leaves of the packet.
abbrev pub touched : Mode → RtpPacket → RtpPacket
touched m p = if has_inner m then adjust_rtpsize p else p

-- `_callback` after the decryption of an RTP packet.
unfoldable pub settle :
    Around → Reader → Bytes → ℕ → RtpPacket → Result (Decryptor × Bytes) → Reader
unfolding is_ip_discovery with_data pop_recovered is_deferred finish_rtp
settle a r datagram object p (raise e) =
    let d : Decryptor = record (r.decryptor) {
      store = put object (touched a.mode p) r.decryptor.store;
    } in
    let r' : Reader = record r { decryptor = d } in
    if is_crypto e || is_ip_discovery datagram then r' else finish_rtp a r' [] false object
settle a r datagram object p (ok (d, l)) =
    let (d', ready) = pop_recovered (env_of a) (with_data object l d) in
    finish_rtp a (record r { decryptor = d' }) ready
      (is_deferred d' object || contains object ready) object

unfoldable pub receive_rtp : Around → Reader → Bytes → ℕ → RtpPacket → Reader
unfolding decrypt_rtp settle
receive_rtp a r datagram object p =
    settle a r datagram object p (decrypt_rtp a.cipher a.mode a.key (env_of a) r.decryptor object p)

-- An exception before there is a packet.
unfoldable pub fail : Reader → Bytes → Reader
unfolding is_ip_discovery stop
fail r datagram = if is_ip_discovery datagram then r else if r.error then stop r else r

abbrev pub is_other_media : Kind → Bool
is_other_media Kind.audio = false
is_other_media Kind.unknown = false
is_other_media _ = true

unfoldable pub receive_rtcp : Around → Reader → Bytes → Reader
unfolding decrypt_rtcp fail stop log_unexpected
receive_rtcp a r datagram = elim (decrypt_rtcp a.cipher a.mode a.key datagram) [
  | raise e ↦ if is_crypto e then r else fail r datagram
  | ok l ↦ (elim (decode a.utf8 a.ascii l) [
    | none ↦ r
    | some (raise e) ↦ fail r datagram
    | some (ok packet) ↦
        let r1 = if is_report packet then r else log_unexpected a.env.now r (packet_type packet) in
        if r1.error then stop r1 else record r1 { calls = r1.calls ++ feed_rtcp packet ∷ [] }
  ])
]

-- `_callback`
unfoldable pub callback : Around → Reader → Bytes → ℕ → Reader
unfolding is_rtcp fail receive_rtcp receive_rtp decode
callback a r datagram object = elim (is_rtcp datagram) [
  | raise e ↦ fail r datagram
  | ok true ↦ receive_rtcp a r datagram
  | ok false ↦ (elim (decode a.utf8 a.ascii datagram) [
    | some (ok (rtp p)) ↦
        if is_other_media (get_ssrc_media_kind a.client p.ssrc)
        then r
        else receive_rtp a r datagram object p
    | some (raise e) ↦ fail r datagram
    | _ ↦ r
  ])
]

-- One round of `_retry_loop`.
unfoldable pub retry : Around → Reader → Reader
unfolding pop_recovered route_all
retry a r =
    let (d, ready) = pop_recovered (env_of a) r.decryptor in
    route_all a (record r { decryptor = d }) ready
