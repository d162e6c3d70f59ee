-- ===== src/Tests/Transport.antt =====
-- A box that puts a byte before the message.
use discord_ext_voice_recv.Base.{◌≡◌, refl, [], ◌∷◌, ◌++◌, ok, drop}
use discord_ext_voice_recv.Base.Bytes.{Bytes}
use discord_ext_voice_recv.Rtp.{RtpPacket}
use discord_ext_voice_recv.Transport.{
  Cipher, aead_xchacha20_poly1305_rtpsize, decrypt_transport, decrypt_rtcp,
}
use discord_ext_voice_recv.Transport.Seal.{
  Sealer, seal_rtcp, decrypt_transport-seal, decrypt_rtcp-seal,
}
use discord_ext_voice_recv.Tests.Data.{packet}

abbrev pub boxes : Cipher
boxes = record {
  aead = λ key message aad nonce. ok (drop 1 message);
  secret_box = λ key message nonce. ok (drop 1 message);
}

abbrev sealer : Sealer boxes
sealer = record {
  seal_aead = λ key message aad nonce. 0 ∷ message;
  seal_box = λ key message nonce. 0 ∷ message;
  opens_aead = λ key message aad nonce. refl;
  opens_box = λ key message nonce. refl;
}

abbrev sent : RtpPacket
sent = record (packet 5) { data_ = 0 ∷ 9 ∷ 8 ∷ 1 ∷ 2 ∷ 3 ∷ 4 ∷ [] }

decrypt_transport-seal_example :
    (q : RtpPacket) × (decrypt_transport boxes aead_xchacha20_poly1305_rtpsize [] sent
      ≡ ok (q, 9 ∷ 8 ∷ []))
decrypt_transport-seal_example =
    decrypt_transport-seal sealer aead_xchacha20_poly1305_rtpsize [] (1 ∷ 2 ∷ 3 ∷ 4 ∷ [])
      (9 ∷ 8 ∷ []) sent refl refl refl refl

abbrev head : Bytes
head = 128 ∷ 200 ∷ 0 ∷ 6 ∷ 0 ∷ 0 ∷ 0 ∷ 7 ∷ []

decrypt_rtcp-seal_example :
    decrypt_rtcp boxes aead_xchacha20_poly1305_rtpsize []
      (seal_rtcp sealer aead_xchacha20_poly1305_rtpsize [] head (1 ∷ 2 ∷ 3 ∷ 4 ∷ []) (9 ∷ []))
    ≡ ok (head ++ 9 ∷ [])
decrypt_rtcp-seal_example =
    decrypt_rtcp-seal sealer aead_xchacha20_poly1305_rtpsize [] head (1 ∷ 2 ∷ 3 ∷ 4 ∷ []) (9 ∷ [])
      refl refl
