-- ===== src/Decoder.antt =====
-- discord/ext/voice_recv/opus.py, `PacketDecoder`. discord.py's `Decoder` is the parameter `codec`;
-- the calls into the statistics are listed in the order in which they are made. The jitter buffer
-- holds RTP packets only, which are true as conditions; a synthetic packet is false. `_flag_ready_state`
-- changes the router's waiter, so it stands with the router.
pub mod Gap
pub mod Stream
pub mod Clean
use discord_ext_voice_recv.Base.{
  ℕ, ◌+◌, ◌*◌, ◌^◌, Bool, true, false, ◌&&◌, ◌||◌, not, Option, none, some, List, [], ◌∷◌, ◌++◌,
  Result, ok, raise, Error, type_error, opus_error, assertion_error, ◌>>=◌, ltb, leb, ◌==◌,
  if◌then◌else◌, length, is_some, is_empty,
}
use discord_ext_voice_recv.Base.Int.{ℤ, pos, minus_one, ltb_ℤ, pos_part}
use discord_ext_voice_recv.Base.Bytes.{Bytes, eq_bytes, last_bytes}
use discord_ext_voice_recv.Wrap.{add_wrapped, seq_wrap}
use discord_ext_voice_recv.Rtp.{RtpPacket, rtp_cmp}
use discord_ext_voice_recv.Dave.{marker, parse_dave_payload}
use discord_ext_voice_recv.Buffer.{Buffer, pop, push, peek, peek_next, gap, advance, resync_to_next}
use discord_ext_voice_recv.Buffer

-- A packet off the wire, or a `FakePacket` of an ssrc, a sequence number and a timestamp.
pub data AudioPacket : Type 0 where
  received : RtpPacket → AudioPacket
  fake : ℕ → ℕ → ℕ → AudioPacket

abbrev pub sequence_of : AudioPacket → ℕ
sequence_of (received p) = p.sequence
sequence_of (fake ssrc sequence timestamp) = sequence

abbrev pub timestamp_of : AudioPacket → ℕ
timestamp_of (received p) = p.timestamp
timestamp_of (fake ssrc sequence timestamp) = timestamp

-- The keys that are counted, and the other calls.
pub data Stat : Type 0 where
  jitter_resync jitter_synthetic_packets dave_inner_decode_skipped dave_wrapped_decode_skipped :
      Stat
  opus_invalid_header_skipped opus_decode_ok opus_decode_err dave_inner_fec_skipped : Stat
  opus_fec_ok opus_fec_err opus_plc_ok opus_plc_err decode_error_sample : Stat
  add_pcm : ℕ → Stat
  add_opus_probe : Bool → Stat

-- discord.py's `Decoder`: its state, and what it answers. `decode` may change the state and raise.
pub record Codec (D : Type 0) : Type 0 where
  pub fresh : D
  pub samples_per_frame : ℕ
  pub packet_get_nb_frames : D → Bytes → Result ℤ
  pub packet_get_samples_per_frame : D → Bytes → Result ℤ
  pub decode : D → Option Bytes → Bool → D × Result Bytes

pub record PacketDecoder (D : Type 0) : Type 0 where
  pub ssrc : ℕ
  pub decoder : Option D
  pub buffer : Buffer RtpPacket
  pub max_conceal_frames : ℕ
  pub cached_id : Option ℕ
  pub last_seq : ℤ
  pub last_ts : ℤ

-- `JitterBuffer()`
abbrev pub new_buffer : Buffer RtpPacket
new_buffer = record {
  maxsize = 10;
  prefsize = 1;
  prefill = 1;
  prefill_left = 1;
  last_tx_seq = minus_one;
  has_item = false;
  items = [];
}

abbrev pub is_opus_error : Error → Bool
is_opus_error opus_error = true
is_opus_error _ = false

-- `_packet_needs_inner_decrypt`
abbrev pub needs_inner_decrypt : RtpPacket → Bool
needs_inner_decrypt p = p.marks.needs_inner || p.marks.pending

-- `_payload_looks_like_dave`
unfoldable pub looks_like_dave : Bytes → Bool
looks_like_dave payload =
    ltb 10 (length payload)
    && (eq_bytes (last_bytes 2 payload) marker
        && (elim (parse_dave_payload payload) [ none ↦ false | some r ↦ is_some r ]))

-- `VoiceData`
pub record VoiceData (U : Type 0) : Type 0 where
  pub packet : AudioPacket
  pub source : Option U
  pub pcm : Bytes

-- What `_process_packet` reads of the sink and the voice client: whether the sink wants Opus, the
-- guild's and the client's users, and `_get_id_from_ssrc`.
pub record Context (U : Type 0) : Type 0 where
  pub wants_opus : Bool
  pub get_user : ℕ → Option U
  pub get_id_from_ssrc : ℕ → Option ℕ

-- `_get_cached_member`, of an id that is true as a condition.
abbrev pub cached_member : {U : Type 0} → Context U → Option ℕ → Option U
cached_member c none = none
cached_member c (some id_) = if id_ == 0 then none else c.get_user id_

module _ {D : Type 0} (codec : Codec D) where
  -- `__init__`, for a sink that does or does not want Opus.
  unfoldable pub new_decoder : Bool → ℕ → Option ℤ → PacketDecoder D
  new_decoder wants_opus ssrc configured = record {
    ssrc = ssrc;
    decoder = if wants_opus then none else some codec.fresh;
    buffer = new_buffer;
    max_conceal_frames = elim configured [ none ↦ 25 | some value ↦ pos_part value ];
    cached_id = none;
    last_seq = minus_one;
    last_ts = minus_one;
  }

  -- `reset` and `destroy`, but for the flag.
  unfoldable pub reset : Bool → PacketDecoder D → PacketDecoder D
  reset wants_opus d = record d {
    buffer = Buffer.reset d.buffer;
    decoder = if wants_opus then none else some codec.fresh;
    last_seq = minus_one;
    last_ts = minus_one;
  }

  unfoldable pub destroy : PacketDecoder D → PacketDecoder D
  destroy d = record d { buffer = Buffer.reset d.buffer; decoder = none }

  unfoldable pub make_fakepacket : PacketDecoder D → AudioPacket
  make_fakepacket d =
      fake d.ssrc (add_wrapped d.last_seq (pos 1) seq_wrap)
        (add_wrapped d.last_ts (pos codec.samples_per_frame) (2 ^ 32))

  unfoldable pub get_next_packet :
      PacketDecoder D → PacketDecoder D × (Option AudioPacket × List Stat)
  unfolding make_fakepacket
  get_next_packet d =
      let (b, popped) = pop d.buffer in
      let d' : PacketDecoder D = record d { buffer = b } in
      elim popped [
        | some p ↦ (d', (some (received p), []))
        | none ↦
            if is_empty b.items
            then (d', (none, []))
            else if ltb d.max_conceal_frames (gap b)
            then (record d { buffer = resync_to_next b }, (none, jitter_resync ∷ []))
            else if ltb 0 (gap b)
            then (
              record d { buffer = advance b 1 },
              (some (make_fakepacket d), jitter_synthetic_packets ∷ []),
            )
            else (d', (none, []))
      ]

  -- `decode` in its `try`, with what is counted on success and on an OpusError.
  unfoldable pub attempt : D → Option Bytes → Bool → Stat → Stat → Result (D × (Bytes × List Stat))
  attempt state payload fec good bad =
      let (state', outcome) = codec.decode state payload fec in
      elim outcome [
        | ok pcm ↦ ok (state', (pcm, good ∷ add_pcm (length pcm) ∷ []))
        | raise e ↦
            if is_opus_error e
            then ok (state', ([], bad ∷ decode_error_sample ∷ add_pcm 0 ∷ []))
            else raise e
      ]

  -- The probe of the header: both answers there, and positive.
  unfoldable pub header_ok : D → Bytes → Bool
  header_ok state payload = elim (codec.packet_get_nb_frames state payload) [
    | raise e ↦ false
    | ok frames ↦ (elim (codec.packet_get_samples_per_frame state payload) [
      | raise e ↦ false
      | ok samples ↦ ltb_ℤ (pos 0) frames && ltb_ℤ (pos 0) samples
    ])
  ]

  unfoldable pub decode_received : D → RtpPacket → Result (D × (Bytes × List Stat))
  unfolding attempt header_ok
  decode_received state p =
      let payload : Bytes = elim p.decrypted_data [ none ↦ [] | some l ↦ l ] in
      if needs_inner_decrypt p
      then ok (state, ([], dave_inner_decode_skipped ∷ add_pcm 0 ∷ []))
      else if looks_like_dave payload
      then ok (state, ([], dave_wrapped_decode_skipped ∷ add_pcm 0 ∷ []))
      else if not (header_ok state payload)
      then ok (state, ([], add_opus_probe false ∷ opus_invalid_header_skipped ∷ add_pcm 0 ∷ []))
      else attempt state (some payload) false opus_decode_ok opus_decode_err
        >>= λ (state', (pcm, stats)). ok (state', (pcm, add_opus_probe true ∷ stats))

  -- A synthetic packet, given what `peek_next` answers. `len(None)` raises a TypeError.
  unfoldable pub decode_fake : D → Option RtpPacket → Result (D × (Bytes × List Stat))
  unfolding attempt
  decode_fake state none = attempt state none false opus_plc_ok opus_plc_err
  decode_fake state (some next_packet) =
      let skipped : D × (Bytes × List Stat) =
        (state, ([], dave_inner_fec_skipped ∷ add_pcm 0 ∷ [])) in
      if needs_inner_decrypt next_packet then ok skipped else (elim next_packet.decrypted_data [
        | none ↦ raise type_error
        | some nextdata ↦
            if looks_like_dave nextdata
            then ok skipped
            else attempt state (some nextdata) true opus_fec_ok opus_fec_err
      ])

  unfoldable pub decode_packet :
      PacketDecoder D → AudioPacket → Result (PacketDecoder D × (Bytes × List Stat))
  unfolding decode_received decode_fake
  decode_packet d packet = elim d.decoder [
    | none ↦ raise assertion_error
    | some state ↦
        (elim packet [
          | received p ↦ decode_received state p
          | fake _ _ _ ↦ decode_fake state (peek_next d.buffer)
        ])
        >>= λ (state', rest). ok (record d { decoder = some state' }, rest)
  ]

  -- The member, and the id that is cached from then on.
  unfoldable pub find_member : {U : Type 0} → Context U → ℕ → Option ℕ → Option U × Option ℕ
  find_member c ssrc cached_id = elim (cached_member c cached_id) [
    | some u ↦ (some u, cached_id)
    | none ↦ (cached_member c (c.get_id_from_ssrc ssrc), c.get_id_from_ssrc ssrc)
  ]

  unfoldable pub process_packet :
      {U : Type 0}
      → Context U
      → PacketDecoder D
      → AudioPacket
      → Result (PacketDecoder D × (VoiceData U × List Stat))
  unfolding decode_packet find_member
  process_packet c d packet = do
    (d', (pcm, stats)) ← (if c.wants_opus then ok (d, ([], [])) else decode_packet d packet)
    let (member, cached_id) = find_member c d.ssrc d'.cached_id
    ok (
      record d' {
        cached_id = cached_id;
        last_seq = pos (sequence_of packet);
        last_ts = pos (timestamp_of packet);
      },
      (record { packet = packet; source = member; pcm = pcm }, stats),
    )

  -- `pop_data`, but for the flag.
  unfoldable pub pop_data :
      {U : Type 0}
      → Context U
      → PacketDecoder D
      → Result (PacketDecoder D × (Option (VoiceData U) × List Stat))
  unfolding get_next_packet process_packet
  pop_data c d =
      let (d', (popped, stats)) = get_next_packet d in
      elim popped [
        | none ↦ ok (d', (none, stats))
        | some packet ↦ process_packet c d' packet >>= λ (d'', (data_, more)).
            ok (d'', (some data_, stats ++ more))
      ]
