-- ===== src/Decoder/Clean.antt =====
-- What reaches the codec.
use discord_ext_voice_recv.Base.{
  Result-cases, ◌≡◌, Bool, true, false, Option, none, some, List, [], ok, arith, inl, inr,
  Option-cases,
}
use discord_ext_voice_recv.Base.Bytes.{Bytes}
use discord_ext_voice_recv.Rtp.{RtpPacket, rtp_cmp}
use discord_ext_voice_recv.Buffer.{peek_next}
use discord_ext_voice_recv.Decoder.{
  AudioPacket, received, fake, Stat, Codec, PacketDecoder, attempt, decode_received, decode_fake,
  decode_packet, looks_like_dave,
}

module _ {D : Type 0} (codec : Codec D) (P : D → Type 0) where
  -- P is kept by decoding nothing, and by decoding a payload that does not look like a DAVE frame.
  pub record KeptByClean : Type 0 where
    pub lost : (state : D) (fec : Bool) → P state → P (codec.decode state none fec).0
    pub clear :
        (state : D) (payload : Bytes) (fec : Bool)
        → looks_like_dave payload ≡ false
        → P state
        → P (codec.decode state (some payload) fec).0

  attempt-keeps :
      (state state' : D) (payload : Option Bytes) (fec : Bool) (good bad : Stat)
      (rest : Bytes × List Stat)
      → P (codec.decode state payload fec).0
      → attempt codec state payload fec good bad ≡ ok (state', rest)
      → P state'
  unfolding attempt
  attempt-keeps state state' payload fec good bad rest h e = ground (arith, h, e)

  decode_received-keeps :
      (k : KeptByClean) (state state' : D) (p : RtpPacket) (rest : Bytes × List Stat)
      → P state
      → decode_received codec state p ≡ ok (state', rest)
      → P state'
  unfolding decode_received attempt
  decode_received-keeps k state state' p rest h e = elim (Option-cases p.decrypted_data) [
    | inl absent ↦ ground (arith, h, e, absent, k.clear state [] false)
    | inr (l, there) ↦ ground (arith, h, e, there, k.clear state l false)
  ]

  decode_fake-keeps :
      (k : KeptByClean) (state state' : D) (next_packet : Option RtpPacket)
      (rest : Bytes × List Stat)
      → P state
      → decode_fake codec state next_packet ≡ ok (state', rest)
      → P state'
  unfolding decode_fake attempt
  decode_fake-keeps k state state' none rest h e = ground (arith, h, e, k.lost state false)
  decode_fake-keeps k state state' (some p) rest h e = elim (Option-cases p.decrypted_data) [
    | inl absent ↦ ground (arith, h, e, absent)
    | inr (l, there) ↦ ground (arith, h, e, there, k.clear state l true)
  ]

  -- A DAVE frame never reaches the codec: whatever property of the codec's state is kept by decoding
  -- a lost frame and by decoding payloads that do not look like DAVE frames is kept by
  -- `decode_packet`, for every packet, received or synthetic, and every content of the buffer.
  pub decode_packet_clean :
      (k : KeptByClean) (d d' : PacketDecoder D) (state : D) (packet : AudioPacket)
      (rest : Bytes × List Stat)
      → d.decoder ≡ some state
      → P state
      → decode_packet codec d packet ≡ ok (d', rest)
      → (state' : D) × (d'.decoder ≡ some state') × P state'
  unfolding decode_packet
  decode_packet_clean k d d' state (received p) rest s h e =
      elim (Result-cases (decode_received codec state p)) [
        | inl (x, failed) ↦ absurd (ground (arith, e, s, failed))
        | inr ((state', rest'), decoded) ↦ (
          state',
          ground (arith, e, s, decoded),
          decode_received-keeps k state state' p rest' h decoded,
        )
      ]
  decode_packet_clean k d d' state (fake _ _ _) rest s h e =
      elim (Result-cases (decode_fake codec state (peek_next d.buffer))) [
        | inl (x, failed) ↦ absurd (ground (arith, e, s, failed))
        | inr ((state', rest'), decoded) ↦ (
          state',
          ground (arith, e, s, decoded),
          decode_fake-keeps k state state' (peek_next d.buffer) rest' h decoded,
        )
      ]
