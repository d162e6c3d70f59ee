-- ===== src/Transport.antt =====
-- discord/ext/voice_recv/reader.py, the transport layer of `PacketDecryptor`: one function per
-- encryption mode. The boxes of pynacl are the parameter `cipher`.
pub mod Seal
use discord_ext_voice_recv.Base.{
  ℕ, zero, suc, ◌+◌, ◌-◌, List, [], ◌∷◌, ◌++◌, Result, ok, raise, ◌>>=◌, if◌then◌else◌, length,
  take, drop,
}
use discord_ext_voice_recv.Base.Bytes.{Bytes, last_bytes, drop_last}
use discord_ext_voice_recv.Rtp.{RtpPacket, adjust_rtpsize, update_ext_headers, strip_padding}

pub data Mode : Type 0 where
  aead_xchacha20_poly1305_rtpsize xsalsa20_poly1305_lite : Mode
  xsalsa20_poly1305_suffix xsalsa20_poly1305 : Mode

-- `decrypt` of pynacl's `Aead` (key, data, associated data, nonce) and `SecretBox` (key, data,
-- nonce); a CryptoError is raised for data that the key does not open.
pub record Cipher : Type 0 where
  pub aead : Bytes → Bytes → Bytes → Bytes → Result Bytes
  pub secret_box : Bytes → Bytes → Bytes → Result Bytes

abbrev pub zeros : ℕ → Bytes
zeros zero = []
zeros (suc n) = 0 ∷ zeros n

-- `nonce = bytearray(24); nonce[:k] = l`
unfoldable pub nonce_from : ℕ → Bytes → Bytes
nonce_from k l = l ++ zeros (24 - k)

-- The end of every `_decrypt_rtp_...`: the extension, if there is one, and the padding.
unfoldable pub finish : RtpPacket → Bytes → Result (RtpPacket × Bytes)
finish p result =
    if p.extended
    then (update_ext_headers p result >>= λ (p', offset).
        ok (p', strip_padding p' (drop offset result)))
    else ok (p, strip_padding p result)

module _ (cipher : Cipher) where
  unfoldable pub decrypt_transport : Mode → Bytes → RtpPacket → Result (RtpPacket × Bytes)
  unfolding nonce_from finish
  decrypt_transport aead_xchacha20_poly1305_rtpsize key p =
      let p' = adjust_rtpsize p in
      cipher.aead key p'.data_ p'.header (nonce_from 4 p'.nonce) >>= λ result. finish p' result
  decrypt_transport xsalsa20_poly1305_lite key p =
      cipher.secret_box key (drop_last 4 p.data_) (nonce_from 4 (last_bytes 4 p.data_))
      >>= λ result. finish p result
  decrypt_transport xsalsa20_poly1305_suffix key p =
      cipher.secret_box key (drop_last 24 p.data_) (last_bytes 24 p.data_) >>= λ result.
      finish p result
  decrypt_transport xsalsa20_poly1305 key p =
      cipher.secret_box key p.data_ (nonce_from 12 p.header) >>= λ result. finish p result

  unfoldable pub decrypt_rtcp : Mode → Bytes → Bytes → Result Bytes
  unfolding nonce_from
  decrypt_rtcp aead_xchacha20_poly1305_rtpsize key d =
      cipher.aead key (drop 8 (drop_last 4 d)) (take 8 d) (nonce_from 4 (last_bytes 4 d))
      >>= λ result. ok (take 8 d ++ result)
  decrypt_rtcp xsalsa20_poly1305_lite key d =
      cipher.secret_box key (drop 8 (drop_last 4 d)) (nonce_from 4 (last_bytes 4 d)) >>= λ result.
      ok (take 8 d ++ result)
  decrypt_rtcp xsalsa20_poly1305_suffix key d =
      cipher.secret_box key (drop 8 (drop_last 24 d)) (last_bytes 24 d) >>= λ result.
      ok (take 8 d ++ result)
  decrypt_rtcp xsalsa20_poly1305 key d =
      cipher.secret_box key (drop 8 d) (nonce_from 8 (take 8 d)) >>= λ result.
      ok (take 8 d ++ result)
