-- ===== src/Rtcp.antt =====
-- discord/ext/voice_recv/rtp.py: the RTCP packets, and the choice of a packet class by `decode`.
-- Text and the fixed-point NTP time are kept as the bytes and numbers that they are read from.
pub mod Chunks
pub mod Reports
use discord_ext_voice_recv.Base.{
  ℕ, zero, suc, ◌+◌, ◌-◌, ◌*◌, ◌/◌, ◌%◌, ◌^◌, bit_and, Bool, true, false, ◌&&◌, ◌||◌, not, Option,
  none, some, List, [], ◌∷◌, ◌++◌, Result, ok, raise, struct_error, value_error, index_error,
  unicode_error, guard, ◌>>=◌, ◌>>◌, ltb, leb, ◌==◌, if◌then◌else◌, length, take, drop, get_elem?,
  is_empty,
}
use discord_ext_voice_recv.Base.Bytes.{
  Bytes, byte_at, slice, eq_bytes, unpack_at, unpack_words, words,
}
use discord_ext_voice_recv.Rtp.{RtpPacket, has_bits}
use discord_ext_voice_recv.Rtp

-- `RTCPPacket`: the third slot of every subclass holds the five low bits of the first byte.
pub record Common : Type 0 where
  pub version : ℕ
  pub padding : Bool
  pub length_ : ℕ
  pub low_bits : ℕ

unfoldable pub read_common : Bytes → Result Common
read_common d = do
  guard (leb 4 (length d)) struct_error
  head ← byte_at d 0
  length_ ← unpack_at 2 d 2
  ok (record {
    version = head / 64;
    padding = has_bits head 0x20;
    length_ = length_;
    low_bits = bit_and head 0x1f;
  })

pub record Report : Type 0 where
  pub ssrc : ℕ
  pub perc_loss : ℕ
  pub total_lost : ℕ
  pub last_seq : ℕ
  pub jitter : ℕ
  pub lsr : ℕ
  pub dlsr : ℕ

-- `_read_report`: the loss count is the low 24 bits of the word that also holds the fraction.
unfoldable pub read_report : Bytes → ℕ → Result Report
read_report d offset = do
  guard (leb (offset + 24) (length d)) struct_error
  ssrc ← unpack_at 4 d offset
  flost ← byte_at d (offset + 4)
  seq ← unpack_at 4 d (offset + 8)
  jit ← unpack_at 4 d (offset + 12)
  lsr ← unpack_at 4 d (offset + 16)
  dlsr ← unpack_at 4 d (offset + 20)
  lost_word ← unpack_at 4 d (offset + 4)
  ok (record {
    ssrc = ssrc;
    perc_loss = flost;
    total_lost = lost_word % 2 ^ 24;
    last_seq = seq;
    jitter = jit;
    lsr = lsr;
    dlsr = dlsr;
  })

-- The `for x in range(report_count)` of both report packets: n reports from `offset` on.
unfoldable pub read_reports : ℕ → Bytes → ℕ → Result (List Report)
unfolding read_report
read_reports zero d offset = ok []
read_reports (suc n) d offset = do
  r ← read_report d offset
  rest ← read_reports n d (offset + 24)
  ok (r ∷ rest)

-- What follows the reports, if anything does.
abbrev pub extension_from : Bytes → ℕ → Option Bytes
extension_from d offset = if ltb offset (length d) then some (drop offset d) else none

-- `ntp_ts` is ntp_high + ntp_low / 2 ^ 32.
pub record SenderInfo : Type 0 where
  pub ntp_high : ℕ
  pub ntp_low : ℕ
  pub rtp_ts : ℕ
  pub packet_count : ℕ
  pub octet_count : ℕ

unfoldable pub read_sender_info : Bytes → ℕ → Result SenderInfo
read_sender_info d offset = do
  guard (leb (offset + 20) (length d)) struct_error
  nhigh ← unpack_at 4 d offset
  nlow ← unpack_at 4 d (offset + 4)
  rtp_ts ← unpack_at 4 d (offset + 8)
  pcount ← unpack_at 4 d (offset + 12)
  ocount ← unpack_at 4 d (offset + 16)
  ok (record {
    ntp_high = nhigh;
    ntp_low = nlow;
    rtp_ts = rtp_ts;
    packet_count = pcount;
    octet_count = ocount;
  })

pub record SenderReport : Type 0 where
  pub common : Common
  pub ssrc : ℕ
  pub info : SenderInfo
  pub reports : List Report
  pub extension : Option Bytes

unfoldable pub read_sender_report : Bytes → Result SenderReport
unfolding read_common read_sender_info read_reports
read_sender_report d = do
  common ← read_common d
  ssrc ← unpack_at 4 d 4
  info ← read_sender_info d 8
  reports ← read_reports common.low_bits d 28
  ok (record {
    common = common;
    ssrc = ssrc;
    info = info;
    reports = reports;
    extension = extension_from d (28 + 24 * common.low_bits);
  })

pub record ReceiverReport : Type 0 where
  pub common : Common
  pub ssrc : ℕ
  pub reports : List Report
  pub extension : Option Bytes

unfoldable pub read_receiver_report : Bytes → Result ReceiverReport
unfolding read_common read_reports
read_receiver_report d = do
  common ← read_common d
  ssrc ← unpack_at 4 d 4
  reports ← read_reports common.low_bits d 8
  ok (record {
    common = common;
    ssrc = ssrc;
    reports = reports;
    extension = extension_from d (8 + 24 * common.low_bits);
  })

-- `decode` with a check that the bytes are UTF-8 (or ASCII), which is the standard library's.
abbrev pub Decodes : Type 0
Decodes = Bytes → Bool

abbrev pub decode_text : Decodes → Bytes → Result Bytes
decode_text valid l = if valid l then ok l else raise unicode_error

pub record Item : Type 0 where
  pub type_ : ℕ
  pub size : ℕ
  pub length_ : ℕ
  pub text : Option Bytes

-- `_read_item`: the item, and the position behind it.
unfoldable pub read_item : Decodes → Bytes → ℕ → Result (Item × ℕ)
read_item valid d pos_ = do
  guard (leb (pos_ + 2) (length d)) struct_error
  itype ← byte_at d pos_
  ilen ← byte_at d (pos_ + 1)
  let body = slice (pos_ + 2) (pos_ + 2 + ilen) d
  text ← (if ilen == 0 then ok none else (decode_text valid body >>= λ t. ok (some t)))
  ok (record { type_ = itype; size = ilen + 2; length_ = ilen; text = text }, pos_ + 2 + ilen)

-- The items up to and with the END item. `none` is no outcome of the code: the fuel ran out.
unfoldable pub read_items : ℕ → Decodes → Bytes → ℕ → Option (Result (List Item × ℕ))
read_items zero valid d pos_ = none
read_items (suc f) valid d pos_ = elim (read_item valid d pos_) [
  | raise e ↦ some (raise e)
  | ok (item, next) ↦
      let rest = read_items f valid d next in
      if item.type_ == 0 then some (ok (item ∷ [], next)) else (elim rest [
        | none ↦ none
        | some (raise e) ↦ some (raise e)
        | some (ok (items, after)) ↦ some (ok (item ∷ items, after))
      ])
]

pub record Chunk : Type 0 where
  pub ssrc : ℕ
  pub items : List Item

-- `ceil(pos / 4) * 4`
abbrev pub align : ℕ → ℕ
align n = if n % 4 == 0 then n else (n / 4 + 1) * 4

unfoldable pub read_chunk : Decodes → Bytes → ℕ → Option (Result (Chunk × ℕ))
read_chunk valid d pos_ = elim (unpack_at 4 d pos_) [
  | raise e ↦ some (raise e)
  | ok ssrc ↦
      if eq_bytes (slice (pos_ + 4) (pos_ + 8) d) (0 ∷ 0 ∷ 0 ∷ 0 ∷ [])
      then some (ok (record { ssrc = ssrc; items = [] }, pos_ + 8))
      else (elim (read_items (length d) valid d (pos_ + 4)) [
        | none ↦ none
        | some (raise e) ↦ some (raise e)
        | some (ok (items, after)) ↦ some (ok (record { ssrc = ssrc; items = items }, align after))
      ])
]

unfoldable pub read_chunks : ℕ → Decodes → Bytes → ℕ → Option (Result (List Chunk))
read_chunks zero valid d pos_ = some (ok [])
read_chunks (suc n) valid d pos_ = elim (read_chunk valid d pos_) [
  | none ↦ none
  | some (raise e) ↦ some (raise e)
  | some (ok (chunk, after)) ↦ (elim (read_chunks n valid d after) [
    | none ↦ none
    | some (raise e) ↦ some (raise e)
    | some (ok chunks) ↦ some (ok (chunk ∷ chunks))
  ])
]

pub record Bye : Type 0 where
  pub common : Common
  pub ssrcs : List ℕ
  pub reason : Option Bytes

-- `BYEPacket.__init__`
unfoldable pub read_bye : Decodes → Bytes → Result Bye
unfolding read_common
read_bye valid d = do
  common ← read_common d
  let n = common.low_bits
  let body_length = 4 + n * 4
  guard (leb body_length (length d)) struct_error
  let reason = do
    extra_len ← byte_at d body_length
    guard (leb (body_length + 1 + extra_len) (length d)) struct_error
    decode_text valid (slice (body_length + 1) (body_length + 1 + extra_len) d) >>= λ t. ok (some t)
  reason' ← (if ltb body_length (length d) then reason else ok none)
  ok (record { common = common; ssrcs = words n (drop 4 d); reason = reason' })

pub record App : Type 0 where
  pub common : Common
  pub ssrc : ℕ
  pub name : Bytes
  pub data_ : Bytes

unfoldable pub read_app : Decodes → Bytes → Result App
unfolding read_common
read_app ascii d = do
  common ← read_common d
  guard (leb 12 (length d)) struct_error
  ssrc ← unpack_at 4 d 4
  name ← decode_text ascii (slice 8 12 d)
  ok (record { common = common; ssrc = ssrc; name = name; data_ = drop 12 d })

pub data Packet : Type 0 where
  sender_report : SenderReport → Packet
  receiver_report : ReceiverReport → Packet
  sdes : Common → List Chunk → Packet
  bye : Bye → Packet
  app : App → Packet
  rtp : RtpPacket → Packet

-- `decode`; `none` is no outcome of the code, and `decode_total` excludes it.
unfoldable pub decode : Decodes → Decodes → Bytes → Option (Result Packet)
decode utf8 ascii d = elim (byte_at d 0) [
  | raise e ↦ some (raise e)
  | ok b0 ↦ if not (b0 / 64 == 2) then some (raise value_error) else (elim (byte_at d 1) [
    | raise e ↦ some (raise e)
    | ok ptype ↦
        if ptype == 200
        then some (read_sender_report d >>= λ p. ok (sender_report p))
        else if ptype == 201
        then some (read_receiver_report d >>= λ p. ok (receiver_report p))
        else if ptype == 202
        then (elim (read_common d) [
          | raise e ↦ some (raise e)
          | ok common ↦ (elim (read_chunks common.low_bits utf8 d 4) [
            | none ↦ none
            | some r ↦ some (r >>= λ chunks. ok (sdes common chunks))
          ])
        ])
        else if ptype == 203
        then some (read_bye utf8 d >>= λ p. ok (bye p))
        else if ptype == 204
        then some (read_app ascii d >>= λ p. ok (app p))
        else some (Rtp.init d >>= λ p. ok (rtp p))
  ])
]

unfoldable pub is_rtcp : Bytes → Result Bool
is_rtcp d = do ptype ← byte_at d 1; ok (leb 200 ptype && leb ptype 204)
