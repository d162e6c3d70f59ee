-- ===== src/Rtp.antt =====
-- discord/ext/voice_recv/rtp.py, `RTPPacket`: the header, the rtpsize layout, the RFC 5285 extension
-- and the padding. The entries that other modules keep in `extension_data` under string keys
-- (`_voice_recv_...`) stand in a record of their own, `Marks`; a missing entry is false or none.
pub mod Header
pub mod Extension
pub mod Payload
use discord_ext_voice_recv.Base.{
  ℕ, zero, suc, ◌+◌, ◌-◌, ◌*◌, ◌/◌, min, max, bit_and, Bool, true, false, ◌&&◌, ◌||◌, not, Option,
  none, some, List, [], ◌∷◌, ◌++◌, Result, ok, raise, struct_error, guard, ◌>>=◌, ◌>>◌, ltb, leb,
  ◌==◌, if◌then◌else◌, length, take, drop, get_elem?, is_empty,
}
use discord_ext_voice_recv.Base.Bytes.{
  Bytes, byte_at, byte_from_end, slice, last_bytes, drop_last, eq_bytes, unpack_at, unpack_words,
}
use discord_ext_voice_recv.Base.Dict.{Dict, put}
use discord_ext_voice_recv.Compare.{PacketCmp}

pub record ExtensionHeader : Type 0 where
  pub profile : Bytes
  pub length_ : ℕ
  pub values : List ℕ

pub record Marks : Type 0 where
  pub needs_inner : Bool
  pub pending : Bool
  pub dropped : Bool
  pub inner_decrypted : Bool
  pub recovered : Bool
  pub dave_nonce : Option ℕ
  pub ranges_count : Option ℕ

abbrev pub no_marks : Marks
no_marks = record {
  needs_inner = false;
  pending = false;
  dropped = false;
  inner_decrypted = false;
  recovered = false;
  dave_nonce = none;
  ranges_count = none;
}

pub record RtpPacket : Type 0 where
  pub version : ℕ
  pub padding : Bool
  pub extended : Bool
  pub cc : ℕ
  pub marker : Bool
  pub payload : ℕ
  pub sequence : ℕ
  pub timestamp : ℕ
  pub ssrc : ℕ
  pub csrcs : List ℕ
  pub header : Bytes
  pub data_ : Bytes
  pub decrypted_data : Option Bytes
  pub nonce : Bytes
  pub extension : Option ExtensionHeader
  pub extension_data : Dict Bytes
  pub marks : Marks
  pub rtpsize : Bool

instance abbrev pub rtp_cmp : PacketCmp RtpPacket
rtp_cmp = record { ssrc = λ p. p.ssrc; sequence = λ p. p.sequence; timestamp = λ p. p.timestamp }

-- `bool(x & mask)`
abbrev pub has_bits : ℕ → ℕ → Bool
has_bits x mask = not (bit_and x mask == 0)

-- `__init__`
unfoldable pub init : Bytes → Result RtpPacket
init d = do
  b0 ← byte_at d 0
  b1 ← byte_at d 1
  guard (leb 12 (length d)) struct_error
  sequence ← unpack_at 2 d 2
  timestamp ← unpack_at 4 d 4
  ssrc ← unpack_at 4 d 8
  let cc = bit_and b0 0xf
  let offset = 4 * cc + 12
  csrcs ← (if cc == 0 then ok [] else unpack_words cc (slice 12 offset d))
  ok (record {
    version = b0 / 64;
    padding = has_bits b0 0x20;
    extended = has_bits b0 0x10;
    cc = cc;
    marker = has_bits b1 0x80;
    payload = bit_and b1 0x7f;
    sequence = sequence;
    timestamp = timestamp;
    ssrc = ssrc;
    csrcs = csrcs;
    header = take 12 d;
    data_ = if cc == 0 then drop 12 d else drop offset d;
    decrypted_data = none;
    nonce = [];
    extension = none;
    extension_data = [];
    marks = no_marks;
    rtpsize = false;
  })

unfoldable pub adjust_rtpsize : RtpPacket → RtpPacket
adjust_rtpsize p =
    let nonce = last_bytes 4 p.data_ in
    if not p.extended
    then record p { rtpsize = true; nonce = nonce; data_ = drop_last 4 p.data_ }
    else record p {
      rtpsize = true;
      nonce = nonce;
      header = p.header ++ take 4 p.data_;
      data_ = drop_last 4 (drop 4 p.data_);
    }

-- The loop of `_parse_bede_header`; `none` is no outcome of the code: the fuel ran out.
unfoldable pub bede_loop : ℕ → Bytes → ℕ → ℕ → ℕ → Dict Bytes → Option (Dict Bytes)
bede_loop zero d count offset n ext = none
bede_loop (suc f) d count offset n ext =
    if ltb n count
    then (elim (get_elem? d offset) [
      | none ↦ some ext
      | some header ↦
          let element_id = header / 16 in
          let element_len = 1 + bit_and header 0xf in
          let stop = offset + 1 + element_len in
          let pad = bede_loop f d count (offset + 1) n ext in
          let next =
            bede_loop f d count stop (n + 1) (put element_id (slice (offset + 1) stop d) ext) in
          if header == 0 then pad else if ltb (length d) stop then some ext else next
    ])
    else some ext

unfoldable pub parse_bede_header : Bytes → ℕ → Dict Bytes → Option (Dict Bytes)
unfolding bede_loop
parse_bede_header d count ext = bede_loop (length d + 1) d count 4 0 ext

abbrev pub ext_magic : Bytes
ext_magic = 0xbe ∷ 0xde ∷ []

-- The data that the extension is read from: rtpsize packets have its header in theirs.
abbrev pub ext_source : RtpPacket → Bytes → Bytes
ext_source p d = if p.rtpsize then last_bytes 4 p.header ++ d else d

-- `update_ext_headers` on the data d of an extended packet, of four bytes at least.
unfoldable pub read_extension : RtpPacket → Bytes → Result (RtpPacket × ℕ)
unfolding parse_bede_header
read_extension p d = do
  let profile = take 2 d
  count ← unpack_at 2 d 2
  let ext =
      if eq_bytes profile ext_magic
      then (elim (parse_bede_header d count p.extension_data) [
        | none ↦ p.extension_data
        | some e ↦ e
      ])
      else p.extension_data
  let max_words = (length d - 4) / 4
  let safe_length = min count max_words
  values ←
      (if ltb 0 safe_length
        then unpack_words safe_length (slice 4 (4 + safe_length * 4) d)
        else ok [])
  let offset = 4 + safe_length * 4
  ok (
    record p {
      extension = some (record { profile = profile; length_ = safe_length; values = values });
      extension_data = ext;
    },
    if p.rtpsize then offset - 4 else offset,
  )

-- The packet with its extension, and the offset of the payload.
unfoldable pub update_ext_headers : RtpPacket → Bytes → Result (RtpPacket × ℕ)
unfolding read_extension
update_ext_headers p payload =
    let d = ext_source p payload in
    let empty : ExtensionHeader = record { profile = []; length_ = 0; values = [] } in
    if not p.extended
    then ok (p, 0)
    else if ltb (length d) 4
    then ok (record p { extension = some empty }, 0)
    else read_extension p d

-- `payload[-1]` is there: the payload is not empty.
unfoldable pub strip_padding : RtpPacket → Bytes → Bytes
strip_padding p l = if not p.padding || is_empty l then l else (elim (byte_from_end l 1) [
  | raise e ↦ l
  | ok pad_len ↦ if ltb 0 pad_len && leb pad_len (length l) then drop_last pad_len l else l
])

abbrev pub opus_silence : Bytes
opus_silence = 0xf8 ∷ 0xff ∷ 0xfe ∷ []

unfoldable pub is_silence : RtpPacket → Bool
is_silence p = elim p.decrypted_data [ none ↦ false | some d ↦ eq_bytes d opus_silence ]
