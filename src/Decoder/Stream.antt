-- ===== src/Decoder/Stream.antt =====
-- What the decoder takes out of its buffer next.
use discord_ext_voice_recv.Base.{
  ◌&&◌, leb, ◌-◌, ◌≤◌, ◌<◌, ◌≡◌, ◌≢◌, refl, false, none, some, [], arith, inl, inr, Bool-cases,
  List-cases, ltb, if◌then◌else◌,
}
use discord_ext_voice_recv.Base.Int.{pos, ◌+ℤ◌, mod_ℤ}
use discord_ext_voice_recv.Wrap.{add_wrapped}
use discord_ext_voice_recv.Rtp.{RtpPacket, rtp_cmp}
use discord_ext_voice_recv.Buffer.{Buffer, pop, gap, advance, resync_to_next}
use discord_ext_voice_recv.Buffer.Ready.{IsValid, is_ready, advance-IsValid, resync_to_next-IsValid}
use discord_ext_voice_recv.Buffer.History.{pop-is_ready}
use discord_ext_voice_recv.Decoder.Gap.{
  gap-advance, gap-resync_to_next, items-advance, items-resync_to_next, gap_idle,
}
use discord_ext_voice_recv.Decoder.{
  AudioPacket, fake, received, Codec, PacketDecoder, make_fakepacket, get_next_packet,
}

waits : (b : Buffer RtpPacket) → IsValid b → is_ready b ≡ false → pop b ≡ (b, none)
waits b v h = elim (pop-is_ready b v) [
  | inl (_, ready) ↦ absurd (ground (arith, h, ready))
  | inr (same, _) ↦ same
]

module _ {D : Type 0} (codec : Codec D) where
  -- What conceals the packet after the last one, which is counted in 16 bits, and in 32 for the time.
  abbrev pub concealing : PacketDecoder D → AudioPacket
  concealing d =
      fake d.ssrc (mod_ℤ (d.last_seq +ℤ pos 1) 65536)
        (mod_ℤ (d.last_ts +ℤ pos codec.samples_per_frame) 4294967296)

  waiting :
      (d : PacketDecoder D)
      → pop d.buffer ≡ (d.buffer, none)
      → (gap d.buffer ≡ 0
          → (get_next_packet codec d).0 ≡ d × ((get_next_packet codec d).1.0 ≡ none))
        × (0 < gap d.buffer
            → d.max_conceal_frames < gap d.buffer
            → d.buffer.items ≢ []
            → ((get_next_packet codec d).0 ≡ record d { buffer = resync_to_next d.buffer })
              × ((get_next_packet codec d).1.0 ≡ none))
        × (0 < gap d.buffer
            → gap d.buffer ≤ d.max_conceal_frames
            → d.buffer.items ≢ []
            → ((get_next_packet codec d).0 ≡ record d { buffer = advance d.buffer 1 })
              × ((get_next_packet codec d).1.0 ≡ some (concealing d)))
  unfolding get_next_packet make_fakepacket add_wrapped
  waiting d e = elim (List-cases d.buffer.items) [
    | inl empty ↦ (ground (arith, e, empty), ground (arith, e, empty), ground (arith, e, empty))
    | inr (x, l, some_) ↦
        (ground (arith, e, some_), ground (arith, e, some_), ground (arith, e, some_))
  ]

  -- While the next packet may not go out, `_get_next_packet` keeps every packet that the buffer
  -- holds and keeps the buffer valid. A gap of more than `max_conceal_frames` is closed at once and
  -- nothing is emitted; a smaller one is closed by one with a synthetic packet, of the decoder's ssrc
  -- and of the sequence number and timestamp that come after those of its last packet; and without a
  -- gap nothing is emitted.
  pub get_next_packet-gap :
      (d : PacketDecoder D)
      → IsValid d.buffer
      → is_ready d.buffer ≡ false
      → let (d', (packet, stats)) = get_next_packet codec d in
        (d'.buffer.items ≡ d.buffer.items)
        × IsValid d'.buffer
        × (gap d'.buffer
            ≡ (if ltb d.max_conceal_frames (gap d.buffer) then 0 else gap d.buffer - 1))
        × (packet ≡ (
            if ltb 0 (gap d.buffer) && leb (gap d.buffer) d.max_conceal_frames
            then some (concealing d)
            else none))
  get_next_packet-gap d v idle =
      let b = d.buffer in
      let (still, resync, conceal) = waiting d (waits b v idle) in
      elim (Bool-cases (ltb 0 (gap b))) [
        | inr closed ↦
            let zero_ : gap b ≡ 0 = ground (arith, closed) in
            let (same, quiet) = still zero_ in
            rw (same, quiet) (refl, v, ground (arith, zero_), ground (arith, zero_))
        | inl open_ ↦
            let wide : 0 < gap b = ground (arith, open_) in
            let some_ : b.items ≢ [] = λ e. absurd (omega (arith, wide, gap_idle b (inl e))) in
            elim (Bool-cases (ltb d.max_conceal_frames (gap b))) [
              | inl far ↦
                  let beyond : d.max_conceal_frames < gap b = ground (arith, far) in
                  let (same, quiet) = resync wide beyond some_ in
                  rw (same, quiet, far)
                    (
                      items-resync_to_next b,
                      resync_to_next-IsValid b v,
                      gap-resync_to_next b v,
                      ground (arith, beyond),
                    )
              | inr near ↦
                  let within : gap b ≤ d.max_conceal_frames = ground (arith, near) in
                  let (same, emitted) = conceal wide within some_ in
                  rw (same, emitted, near)
                    (
                      items-advance b 1,
                      advance-IsValid b 1 v,
                      gap-advance b v wide,
                      ground (arith, wide, within),
                    )
            ]
      ]

  -- A packet that may go out is emitted as it was received, and is the one that the buffer pops.
  get_next_packet-ready :
      (d : PacketDecoder D) (p : RtpPacket)
      → (pop d.buffer).1 ≡ some p
      → get_next_packet codec d ≡ (record d { buffer = (pop d.buffer).0 }, (some (received p), []))
  unfolding get_next_packet
  get_next_packet-ready d p e = ground (arith, e)
