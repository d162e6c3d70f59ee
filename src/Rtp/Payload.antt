-- ===== src/Rtp/Payload.antt =====
-- Where the payload of a packet begins and ends: the rtpsize split, the extension's offset, and the
-- RFC 3550 padding.
use mathlib.Core.List.{append_assoc}
use discord_ext_voice_recv.Base.{
  ℕ, ◌+◌, ◌-◌, ◌*◌, ◌/◌, ◌≤◌, ◌<◌, ◌≡◌, refl, sym, ap, ◌∙◌, true, false, some, List, [], ◌∷◌, ◌++◌,
  arith, min, ok, if◌then◌else◌, ltb, length, take, drop, get_elem?, length-append, length-take,
  length-drop, take-append, get_elem?-append, is_empty, Bool-cases, inl, inr, take-append-drop,
  drop-add, Bool-cases, ◌⊎◌,
}
use discord_ext_voice_recv.Base.Bytes.{
  Bytes, slice, unpack_at, unpack_words, last_bytes, words, drop_last, be, byte_from_end,
}
use discord_ext_voice_recv.Rtp.{
  RtpPacket, read_extension, adjust_rtpsize, update_ext_headers, ext_source, strip_padding,
}

split_short : (d : Bytes) → drop_last 4 d ++ last_bytes 4 d ≡ d
split_short d = take-append-drop (length d - 4) d

split_long :
    (header d : Bytes)
    → 8 ≤ length d
    → (header ++ take 4 d) ++ (drop_last 4 (drop 4 d) ++ last_bytes 4 d) ≡ header ++ d
split_long header d h =
    let size = length-drop 4 d in
    let at_end : length d - 4 ≡ length (drop 4 d) - 4 + 4 = omega (arith, size) in
    rw (append_assoc header (take 4 d)) (
      ap (◌++◌ header) (
        ap (λ (t : Bytes). take 4 d ++ (drop_last 4 (drop 4 d) ++ t))
          (ap (λ (k : ℕ). drop k d) at_end ∙ drop-add (length (drop 4 d) - 4) 4 d)
        ∙ ap (◌++◌ (take 4 d)) (take-append-drop (length (drop 4 d) - 4) (drop 4 d))
        ∙ take-append-drop 4 d))

-- The rtpsize layout splits a packet without losing or moving a byte: header, data and nonce, put
-- together, are the header and data before, if the data holds the four bytes of the nonce and,
-- with an extension, the four of its header. The nonce is then the last four bytes.
adjust_rtpsize_splits :
    (p : RtpPacket)
    → (if p.extended then 8 else 4) ≤ length p.data_
    → let q = adjust_rtpsize p in
      (q.header ++ (q.data_ ++ q.nonce) ≡ p.header ++ p.data_)
      × (length q.nonce ≡ 4)
      × (length q.header ≡ length p.header + (if p.extended then 4 else 0))
unfolding adjust_rtpsize
adjust_rtpsize_splits p h = elim (Bool-cases p.extended) [
  | inl ext ↦
      let long : 8 ≤ length p.data_ = ground (arith, ext) in
      ground (
        arith,
        ext,
        split_long p.header p.data_ long,
        length-drop (length p.data_ - 4) p.data_,
        length-append p.header (take 4 p.data_),
        length-take 4 p.data_,
      )
  | inr plain ↦
      let long : 4 ≤ length p.data_ = ground (arith, plain) in
      ground (arith, plain, split_short p.data_, length-drop (length p.data_ - 4) p.data_)
]

unpack_at_ok :
    (size : ℕ) (d : Bytes) (offset : ℕ)
    → offset + size ≤ length d
    → unpack_at size d offset ≡ ok (be (slice offset (offset + size) d))
unfolding unpack_at
unpack_at_ok size d offset h = ground arith

unpack_words_ok :
    (n : ℕ) (d : Bytes)
    → 4 + n * 4 ≤ length d
    → unpack_words n (slice 4 (4 + n * 4) d) ≡ ok (words n (slice 4 (4 + n * 4) d))
unfolding unpack_words
unpack_words_ok n d h = ground (arith, length-take (4 + n * 4 - 4) (drop 4 d), length-drop 4 d)

read_values :
    (n : ℕ) (d : Bytes)
    → 4 + n * 4 ≤ length d
    → (l : List ℕ) × ((if ltb 0 n then unpack_words n (slice 4 (4 + n * 4) d) else ok []) ≡ ok l)
read_values n d h = elim (Bool-cases (ltb 0 n)) [
  | inl more ↦ rw more (words n (slice 4 (4 + n * 4) d), unpack_words_ok n d h)
  | inr none_ ↦ rw none_ ([], refl)
]

read_extension_total :
    (p : RtpPacket) (d : Bytes)
    → 4 ≤ length d
    → (q : RtpPacket) × (offset : ℕ) × (read_extension p d ≡ ok (q, offset))
      × ((if p.rtpsize then offset + 4 else offset) ≤ length d)
unfolding read_extension
read_extension_total p d h =
    let count = be (slice 2 4 d) in
    let n = min count ((length d - 4) / 4) in
    let fits : 4 + n * 4 ≤ length d = omega arith in
    let (values, read) = read_values n d fits in
    rw (unpack_at_ok 2 d 2 h, read) (_, _, refl, ground arith)

ext_source-length :
    (p : RtpPacket) (payload : Bytes)
    → (p.rtpsize ≡ true → 4 ≤ length p.header)
    → length (ext_source p payload) ≡ (if p.rtpsize then 4 + length payload else length payload)
ext_source-length p payload h = ground (
  arith,
  h,
  length-append (last_bytes 4 p.header) payload,
  length-drop (length p.header - 4) p.header,
)

-- `update_ext_headers` raises on no input: the offset that it answers lies within the payload, so
-- the slice behind it is what the payload holds past the extension. (An rtpsize packet has the four
-- bytes of the extension header in its own header.)
pub update_ext_headers_total :
    (p : RtpPacket) (payload : Bytes)
    → (p.rtpsize ≡ true → 4 ≤ length p.header)
    → (q : RtpPacket) × (offset : ℕ) × (update_ext_headers p payload ≡ ok (q, offset))
      × (offset ≤ length payload)
unfolding update_ext_headers
update_ext_headers_total p payload h =
    let d = ext_source p payload in
    let size = ext_source-length p payload h in
    elim (Bool-cases p.extended) [
      | inr plain ↦ (p, 0, ground (arith, plain), omega arith)
      | inl ext ↦ (elim (Bool-cases (ltb (length d) 4)) [
        | inl short ↦ (
          record p { extension = some (record { profile = []; length_ = 0; values = [] }) },
          0,
          ground (arith, ext, short),
          omega arith,
        )
        | inr long ↦
            let (q, offset, read, bound) = read_extension_total p d (ground arith) in
            (q, offset, ground (arith, ext, long, read), ground (arith, size, bound))
      ])
    ]

is_empty_long : (l : Bytes) → 0 < length l → is_empty l ≡ false
is_empty_long [] h = absurd (omega arith)
is_empty_long (x ∷ l) h = refl

-- A payload with the P bit set whose last byte counts the padding behind the body, itself
-- included, is stripped to the body.
strip_padding-body :
    (p : RtpPacket) (body pad : Bytes)
    → p.padding ≡ true
    → strip_padding p (body ++ (pad ++ (length pad + 1) ∷ [])) ≡ body
unfolding strip_padding
strip_padding-body p body pad h =
    let n = length pad + 1 in
    let l : Bytes = body ++ (pad ++ n ∷ []) in
    let size : length l ≡ length body + n =
      omega (arith, length-append body (pad ++ n ∷ []), length-append pad (n ∷ [])) in
    let front : l ≡ (body ++ pad) ++ n ∷ [] = sym (append_assoc body pad (n ∷ [])) in
    let last : get_elem? l (length l - 1) ≡ some n = rw front (
      get_elem?-append (body ++ pad) n [] _
        (omega (arith, size, ap length front, length-append body pad))) in
    let stripped : drop_last n l ≡ body =
      take-append (length l - n) body (pad ++ n ∷ []) (omega arith) in
    let full : is_empty l ≡ false = is_empty_long l (omega arith) in
    ground (arith, h, last, stripped, full, size)

-- A payload without the P bit, an empty one, and one whose last byte is 0 or more than its length
-- stay as they are.
pub strip_padding_invalid :
    (p : RtpPacket) (l : Bytes) (n : ℕ)
    → (p.padding ≡ false) ⊎ (l ≡ []) ⊎ ((byte_from_end l 1 ≡ ok n) × ((n ≡ 0) ⊎ (length l < n)))
    → strip_padding p l ≡ l
unfolding strip_padding
strip_padding_invalid p l n h = ground (arith, h)
