-- ===== src/Rtcp/Chunks.antt =====
-- The loops of the SDES packet end, so `decode` always has an outcome; and `is_rtcp` tells what the
-- outcome is.
use discord_ext_voice_recv.Base.{
  Result-cases, ℕ, zero, suc, ◌+◌, ◌≤◌, ◌<◌, ◌≡◌, ◌≢◌, Bool, true, false, not, none, some, arith,
  Result, ok, raise, length, Option-cases, inl, inr,
}
use discord_ext_voice_recv.Base.Bytes.{Bytes, unpack_at}
use discord_ext_voice_recv.Rtcp.{
  Decodes, Item, read_item, read_items, read_chunk, read_chunks, decode, is_rtcp, Packet, rtp,
  read_common,
}

-- An item that is read takes two bytes at least.
read_item_advances :
    (valid : Decodes) (d : Bytes) (pos_ : ℕ) (item : Item) (next : ℕ)
    → read_item valid d pos_ ≡ ok (item, next)
    → (pos_ + 2 ≤ next) × (pos_ + 2 ≤ length d)
unfolding read_item
read_item_advances valid d pos_ item next e = ground arith

read_items-ne-none :
    (f : ℕ) (valid : Decodes) (d : Bytes) (pos_ : ℕ)
    → 0 < f
    → length d < f + pos_
    → read_items f valid d pos_ ≢ none
unfolding read_items
read_items-ne-none zero valid d pos_ p h = absurd (omega arith)
read_items-ne-none (suc f) valid d pos_ p h = elim (Result-cases (read_item valid d pos_)) [
  | inl (e, failed) ↦ λ q. ground (arith, failed, q)
  | inr ((item, next), read) ↦
      let (moved, inside) = read_item_advances valid d pos_ item next read in
      let rest = read_items-ne-none f valid d next (omega arith) (omega arith) in
      λ q. ground (arith, read, rest, q)
]

word_inside : (d : Bytes) (pos_ n : ℕ) → unpack_at 4 d pos_ ≡ ok n → pos_ + 4 ≤ length d
unfolding unpack_at
word_inside d pos_ n e = ground (arith, e)

read_chunk-ne-none : (valid : Decodes) (d : Bytes) (pos_ : ℕ) → read_chunk valid d pos_ ≢ none
unfolding read_chunk
read_chunk-ne-none valid d pos_ = elim (Result-cases (unpack_at 4 d pos_)) [
  | inl (e, failed) ↦ λ q. ground (arith, failed, q)
  | inr (ssrc, read) ↦
      let inside = word_inside d pos_ ssrc read in
      let items = read_items-ne-none (length d) valid d (pos_ + 4) (omega arith) (omega arith) in
      λ q. ground (arith, read, items, q)
]

read_chunks-ne-none :
    (n : ℕ) (valid : Decodes) (d : Bytes) (pos_ : ℕ) → read_chunks n valid d pos_ ≢ none
unfolding read_chunks
read_chunks-ne-none zero valid d pos_ = λ q. cc q
read_chunks-ne-none (suc n) valid d pos_ = elim (Option-cases (read_chunk valid d pos_)) [
  | inl e ↦ absurd (read_chunk-ne-none valid d pos_ e)
  | inr (raise e, failed) ↦ λ q. ground (arith, failed, q)
  | inr (ok (chunk, after), read) ↦
      let rest = read_chunks-ne-none n valid d after in λ q. ground (arith, read, rest, q)
]

decode-ne-none : (utf8 ascii : Decodes) (d : Bytes) → decode utf8 ascii d ≢ none
unfolding decode
decode-ne-none utf8 ascii d = elim (Result-cases (read_common d)) [
  | inl (e, failed) ↦ λ q. ground (arith, failed, q)
  | inr (common, read) ↦
      let chunks = read_chunks-ne-none common.low_bits utf8 d 4 in
      λ q. ground (arith, read, chunks, q)
]

-- `decode` ends on every input, with a packet or an exception.
pub decode_total :
    (utf8 ascii : Decodes) (d : Bytes) → (r : Result Packet) × (decode utf8 ascii d ≡ some r)
decode_total utf8 ascii d = elim (Option-cases (decode utf8 ascii d)) [
  | inl e ↦ absurd (decode-ne-none utf8 ascii d e)
  | inr found ↦ found
]

abbrev pub is_rtp : Packet → Bool
is_rtp (rtp _) = true
is_rtp _ = false

-- When `decode` returns a packet, the packet is an RTCP one exactly when `is_rtcp` says so.
decode-is_rtcp :
    (utf8 ascii : Decodes) (d : Bytes) (p : Packet)
    → decode utf8 ascii d ≡ some (ok p)
    → is_rtcp d ≡ ok (not (is_rtp p))
unfolding decode is_rtcp
decode-is_rtcp utf8 ascii d p e = ground (arith, e)
