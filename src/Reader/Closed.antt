-- ===== src/Reader/Closed.antt =====
-- From the datagram to the router, in the transport mode with a DAVE layer. The other modes have none,
-- and after an exception of `decrypt_rtp` that is no CryptoError the packet goes on as it is (`settle`).
use discord_ext_voice_recv.Base.{ℕ, ◌≡◌, ◌⊎◌}
use discord_ext_voice_recv.Base.Bytes.{Bytes}
use discord_ext_voice_recv.Base.Dict.{put}
use discord_ext_voice_recv.Rtp.{RtpPacket}
use discord_ext_voice_recv.Decryptor.{Decryptor}
use discord_ext_voice_recv.Decryptor.Drain.{pop_recovered}
use discord_ext_voice_recv.Decryptor.Receive.{receive_opened}
use discord_ext_voice_recv.Decryptor.Closed.{Opened}
use discord_ext_voice_recv.Reader.{Reader}
use discord_ext_voice_recv.Reader.Receive.{Around, env_of, with_data, route_object, route_all}

-- The reader after the packets that were recovered along with a packet were routed.
abbrev pub after_recovered : Around → Reader → Decryptor → Reader
after_recovered a r d =
    let (d', ready) = pop_recovered (env_of a) d in route_all a (record r { decryptor = d' }) ready

-- The decryptor after the transport layer opened a packet.
abbrev pub opened : Around → Reader → ℕ → RtpPacket → Bytes → Decryptor × Bytes
opened a r object p payload =
    receive_opened (env_of a) (record (r.decryptor) { store = put object p r.decryptor.store })
      object p payload

-- What becomes of the packet itself.
abbrev pub Ending : Around → Reader → ℕ → RtpPacket → Bytes → Reader → Type 0
Ending a r object p payload r' =
    let o = opened a r object p payload in
    let r1 = after_recovered a r (with_data object (o.1) (o.0)) in
    (r' ≡ r1) ⊎ ((r' ≡ route_object a r1 object) × Opened (env_of a) p payload (o.1))
