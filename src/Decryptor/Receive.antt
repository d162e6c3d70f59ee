-- ===== src/Decryptor/Receive.antt =====
-- `PacketDecryptor.decrypt_rtp`: a packet off the wire, transport first and DAVE second.
use discord_ext_voice_recv.Base.{
  ℕ, Bool, true, false, ◌||◌, not, Option, none, some, [], ◌∷◌, ltb, if◌then◌else◌, length, is_some,
  is_empty, Result, ok, ◌>>=◌,
}
use discord_ext_voice_recv.Base.Bytes.{Bytes}
use discord_ext_voice_recv.Base.Dict.{put}
use discord_ext_voice_recv.Rtp.{RtpPacket, Marks}
use discord_ext_voice_recv.Dave.{DaveSupplemental, parse_dave_payload}
use discord_ext_voice_recv.Dave.Bridge.{DaveState, ends_marked}
use discord_ext_voice_recv.Decryptor.{
  InnerReason, ordered, is_retryable, is_ordered, dave_marker_packets, dave_non_marker_packets,
  dave_parse_ok, dave_parse_fail, dave_plaintext_rejected, dave_needs_inner_decrypt_packets,
  dave_inner_unresolved_packets, dave_inner_deferred, dave_inner_unavailable_skipped,
  add_dave_nonce, Decryptor, Env, count, mark, bridge_state, plaintext_rejected,
}
use discord_ext_voice_recv.Decryptor.Defer.{defer, queue_of}
use discord_ext_voice_recv.Decryptor.Drain.{try_inner}
use discord_ext_voice_recv.Transport.{
  Mode, aead_xchacha20_poly1305_rtpsize, Cipher, decrypt_transport,
}

-- What `parse_dave_payload` answers.
abbrev pub parsed_of : Bytes → Option DaveSupplemental
parsed_of payload = elim (parse_dave_payload payload) [ none ↦ none | some r ↦ r ]

abbrev pub ranges_of : Option DaveSupplemental → ℕ
ranges_of none = 0
ranges_of (some s) = length s.ranges

-- The marker and the trailer of the payload, counted.
unfoldable pub note_payload : Decryptor → ℕ → RtpPacket → Bytes → Decryptor
unfolding mark
note_payload d object p result =
    let has_marker = ends_marked result in
    let d' = count d ((if has_marker then dave_marker_packets else dave_non_marker_packets) ∷ []) in
    elim (parsed_of result) [
      | some s ↦ record (count d' (dave_parse_ok ∷ add_dave_nonce p.ssrc p.sequence s.nonce ∷ [])) {
        store = mark (λ m. record m { dave_nonce = some s.nonce }) object d'.store;
      }
      | none ↦ if has_marker then count d' (dave_parse_fail ∷ []) else d'
    ]

abbrev pub as_refused : Marks → Marks
as_refused m = record m { needs_inner = true; dropped = true }

-- The inner decryption failed for the reason: the packet waits, or is given up.
unfoldable pub unresolved : Env → Decryptor → ℕ → RtpPacket → Bytes → InnerReason → ℕ → Decryptor
unfolding defer mark
unresolved env d object p result reason ranges =
    let d' = count d (dave_inner_unresolved_packets ∷ []) in
    if is_retryable reason || is_ordered reason
    then count (defer env d' object p result reason ranges) (dave_inner_deferred ∷ [])
    else count (record d' { store = mark (λ m. record m { dropped = true }) object d'.store })
        (dave_inner_unavailable_skipped ∷ [])

abbrev pub as_covered : ℕ → Marks → Marks
as_covered n m = record m { needs_inner = true; pending = false; ranges_count = some n }

abbrev pub covered : ℕ → ℕ → Decryptor → Decryptor
covered object ranges d =
    count (record d { store = mark (as_covered ranges) object d.store })
      (dave_needs_inner_decrypt_packets ∷ [])

-- The inner decryption of a packet that DAVE covers. A packet never overtakes those that wait.
unfoldable pub resolve : Env → Decryptor → ℕ → RtpPacket → Bytes → ℕ → Decryptor × Bytes
unfolding unresolved try_inner mark
resolve env d object p result ranges =
    let d1 = covered object ranges d in
    if not (is_empty (queue_of p.ssrc d1))
    then (unresolved env d1 object p result ordered ranges, result)
    else (let (d2, (plain, reason)) = try_inner env true d1 object p result in
        elim plain [
          | some l ↦ (
            record d2 { store = mark (λ m. record m { ranges_count = some 0 }) object d2.store },
            l,
          )
          | none ↦ (unresolved env d2 object p result reason ranges, result)
        ])

-- DAVE is on for the connection, or the payload has a trailer.
abbrev pub is_covered : Option DaveState → Bytes → Bool
is_covered none result = is_some (parsed_of result)
is_covered (some s) result = ltb 0 s.protocol_version || is_some (parsed_of result)

-- `_decrypt_rtp_aead_xchacha20_poly1305_rtpsize` on what the transport layer opened.
unfoldable pub receive_opened : Env → Decryptor → ℕ → RtpPacket → Bytes → Decryptor × Bytes
unfolding bridge_state note_payload mark resolve
receive_opened env d object p result =
    let (d1, state) = bridge_state env d in
    let d2 = note_payload d1 object p result in
    let refused : Decryptor = record d2 { store = mark as_refused object d2.store } in
    if plaintext_rejected result state
    then (count refused (dave_plaintext_rejected ∷ []), [])
    else if is_covered state result
    then resolve env d2 object p result (ranges_of (parsed_of result))
    else if ends_marked result
    then (refused, result)
    else (d2, result)

abbrev pub has_inner : Mode → Bool
has_inner aead_xchacha20_poly1305_rtpsize = true
has_inner _ = false

-- `decrypt_rtp` of the packet with this identity.
unfoldable pub decrypt_rtp :
    Cipher → Mode → Bytes → Env → Decryptor → ℕ → RtpPacket → Result (Decryptor × Bytes)
unfolding decrypt_transport receive_opened
decrypt_rtp cipher mode key env d object p = decrypt_transport cipher mode key p >>= λ (p', result).
    let d' : Decryptor = record d { store = put object p' d.store } in
    ok (if has_inner mode then receive_opened env d' object p' result else (d', result))
