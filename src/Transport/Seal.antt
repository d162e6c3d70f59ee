-- ===== src/Transport/Seal.antt =====
-- What a sender seals is opened, in every mode.
use mathlib.Core.List.{append_assoc}
use discord_ext_voice_recv.Base.{
  ℕ, ◌-◌, ◌≡◌, refl, sym, ap, ◌∙◌, true, false, ◌++◌, ok, arith, length, take, drop, length-append,
  take-append, drop-append,
}
use discord_ext_voice_recv.Base.Bytes.{Bytes, last_bytes, drop_last}
use discord_ext_voice_recv.Rtp.{RtpPacket, adjust_rtpsize, strip_padding}
use discord_ext_voice_recv.Transport.{
  Mode, aead_xchacha20_poly1305_rtpsize, xsalsa20_poly1305_lite, xsalsa20_poly1305_suffix,
  xsalsa20_poly1305, Cipher, nonce_from, finish, decrypt_transport, decrypt_rtcp,
}

-- The sender's side of the boxes, which the receiver's opens.
pub record Sealer (cipher : Cipher) : Type 0 where
  pub seal_aead : Bytes → Bytes → Bytes → Bytes → Bytes
  pub seal_box : Bytes → Bytes → Bytes → Bytes
  pub opens_aead :
      (key message aad nonce : Bytes)
      → cipher.aead key (seal_aead key message aad nonce) aad nonce ≡ ok message
  pub opens_box :
      (key message nonce : Bytes)
      → cipher.secret_box key (seal_box key message nonce) nonce ≡ ok message

last_bytes-append : (k : ℕ) (l r : Bytes) → length r ≡ k → last_bytes k (l ++ r) ≡ r
last_bytes-append k l r h =
    drop-append (length (l ++ r) - k) l r (omega (arith, length-append l r, h))

drop_last-append : (k : ℕ) (l r : Bytes) → length r ≡ k → drop_last k (l ++ r) ≡ l
drop_last-append k l r h =
    take-append (length (l ++ r) - k) l r (omega (arith, length-append l r, h))

module _ {cipher : Cipher} (s : Sealer cipher) where
  -- What follows the header on the wire, and how many bytes of nonce a mode sends.
  abbrev pub sent_nonce : Mode → ℕ
  sent_nonce aead_xchacha20_poly1305_rtpsize = 4
  sent_nonce xsalsa20_poly1305_lite = 4
  sent_nonce xsalsa20_poly1305_suffix = 24
  sent_nonce xsalsa20_poly1305 = 0

  abbrev pub seal : Mode → Bytes → Bytes → Bytes → Bytes → Bytes
  seal aead_xchacha20_poly1305_rtpsize key header nonce message =
      s.seal_aead key message header (nonce_from 4 nonce) ++ nonce
  seal xsalsa20_poly1305_lite key header nonce message =
      s.seal_box key message (nonce_from 4 nonce) ++ nonce
  seal xsalsa20_poly1305_suffix key header nonce message = s.seal_box key message nonce ++ nonce
  seal xsalsa20_poly1305 key header nonce message = s.seal_box key message (nonce_from 12 header)

  finish_plain :
      (p : RtpPacket) (l : Bytes) → p.extended ≡ false → p.padding ≡ false → finish p l ≡ ok (p, l)
  unfolding finish strip_padding
  finish_plain p l e f = ground (arith, e, f)

  adjust_plain :
      (p : RtpPacket) (box nonce : Bytes)
      → p.extended ≡ false
      → p.data_ ≡ box ++ nonce
      → length nonce ≡ 4
      → adjust_rtpsize p ≡ record p { rtpsize = true; nonce = nonce; data_ = box }
  unfolding adjust_rtpsize
  adjust_plain p box nonce e d h =
      let front = ap (drop_last 4) d ∙ drop_last-append 4 box nonce h in
      let back = ap (last_bytes 4) d ∙ last_bytes-append 4 box nonce h in
      ground (arith, e, front, back)

  -- In every mode, the data of a packet without extension and padding that is what the mode's
  -- sender makes of a message, with a nonce of the mode's length, is opened to the message, if the
  -- sender's boxes are what the receiver's open.
  pub decrypt_transport-seal :
      (m : Mode) (key nonce message : Bytes) (p : RtpPacket)
      → p.extended ≡ false
      → p.padding ≡ false
      → length nonce ≡ sent_nonce m
      → p.data_ ≡ seal m key p.header nonce message
      → (q : RtpPacket) × (decrypt_transport cipher m key p ≡ ok (q, message))
  unfolding decrypt_transport
  decrypt_transport-seal aead_xchacha20_poly1305_rtpsize key nonce message p e f h d =
      let aad = p.header in
      let box = s.seal_aead key message aad (nonce_from 4 nonce) in
      let q : RtpPacket = record p { rtpsize = true; nonce = nonce; data_ = box } in
      let adjusted = adjust_plain p box nonce e d h in
      let opened = s.opens_aead key message aad (nonce_from 4 nonce) in
      (q, rw adjusted (rw opened (finish_plain q message e f)))
  decrypt_transport-seal xsalsa20_poly1305_lite key nonce message p e f h d =
      let box = s.seal_box key message (nonce_from 4 nonce) in
      let front : drop_last 4 p.data_ ≡ box = ap (drop_last 4) d ∙ drop_last-append 4 box nonce h in
      let back : last_bytes 4 p.data_ ≡ nonce =
        ap (last_bytes 4) d ∙ last_bytes-append 4 box nonce h in
      (
        p,
        rw (front, back, s.opens_box key message (nonce_from 4 nonce)) (finish_plain p message e f),
      )
  decrypt_transport-seal xsalsa20_poly1305_suffix key nonce message p e f h d =
      let box = s.seal_box key message nonce in
      let front : drop_last 24 p.data_ ≡ box =
        ap (drop_last 24) d ∙ drop_last-append 24 box nonce h in
      let back : last_bytes 24 p.data_ ≡ nonce =
        ap (last_bytes 24) d ∙ last_bytes-append 24 box nonce h in
      (p, rw (front, back, s.opens_box key message nonce) (finish_plain p message e f))
  decrypt_transport-seal xsalsa20_poly1305 key nonce message p e f h d =
      let opened : cipher.secret_box key p.data_ (nonce_from 12 p.header) ≡ ok message =
        ap (λ (l : Bytes). cipher.secret_box key l (nonce_from 12 p.header)) d
        ∙ s.opens_box key message (nonce_from 12 p.header) in
      (p, rw opened (finish_plain p message e f))

  -- An RTCP packet: eight bytes in the clear, then the sealed rest.
  abbrev pub seal_rtcp : Mode → Bytes → Bytes → Bytes → Bytes → Bytes
  seal_rtcp xsalsa20_poly1305 key header nonce message =
      header ++ s.seal_box key message (nonce_from 8 header)
  seal_rtcp m key header nonce message = header ++ seal m key header nonce message

  rtcp_parts :
      (header box nonce : Bytes) (k : ℕ)
      → length header ≡ 8
      → length nonce ≡ k
      → let d = header ++ (box ++ nonce) in
        (drop 8 (drop_last k d) ≡ box) × (last_bytes k d ≡ nonce) × (take 8 d ≡ header)
  rtcp_parts header box nonce k h n =
      let d : Bytes = header ++ (box ++ nonce) in
      let shape : d ≡ (header ++ box) ++ nonce = sym (append_assoc header box nonce) in
      let front : drop_last k d ≡ header ++ box =
        ap (drop_last k) shape ∙ drop_last-append k (header ++ box) nonce n in
      (
        ap (drop 8) front ∙ drop-append 8 header box (sym h),
        ap (last_bytes k) shape ∙ last_bytes-append k (header ++ box) nonce n,
        take-append 8 header (box ++ nonce) (sym h),
      )

  -- In every mode, an RTCP packet made by the mode's sender is opened to its header of eight bytes
  -- and the message.
  pub decrypt_rtcp-seal :
      (m : Mode) (key header nonce message : Bytes)
      → length header ≡ 8
      → length nonce ≡ sent_nonce m
      → decrypt_rtcp cipher m key (seal_rtcp m key header nonce message) ≡ ok (header ++ message)
  unfolding decrypt_rtcp
  decrypt_rtcp-seal aead_xchacha20_poly1305_rtpsize key header nonce message h n =
      let (box, tail, head) =
        rtcp_parts header (s.seal_aead key message header (nonce_from 4 nonce)) nonce 4 h n in
      rw (box, tail, head, s.opens_aead key message header (nonce_from 4 nonce)) refl
  decrypt_rtcp-seal xsalsa20_poly1305_lite key header nonce message h n =
      let (box, tail, head) =
        rtcp_parts header (s.seal_box key message (nonce_from 4 nonce)) nonce 4 h n in
      rw (box, tail, head, s.opens_box key message (nonce_from 4 nonce)) refl
  decrypt_rtcp-seal xsalsa20_poly1305_suffix key header nonce message h n =
      let (box, tail, head) = rtcp_parts header (s.seal_box key message nonce) nonce 24 h n in
      rw (box, tail, head, s.opens_box key message nonce) refl
  decrypt_rtcp-seal xsalsa20_poly1305 key header nonce message h n =
      let box = s.seal_box key message (nonce_from 8 header) in
      let rest : drop 8 (header ++ box) ≡ box = drop-append 8 header box (sym h) in
      let head : take 8 (header ++ box) ≡ header = take-append 8 header box (sym h) in
      rw (rest, head, s.opens_box key message (nonce_from 8 header)) refl
