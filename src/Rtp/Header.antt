-- ===== src/Rtp/Header.antt =====
-- The fixed header of RFC 3550, written out, is read back by `RTPPacket.__init__`.
use discord_ext_voice_recv.Base.{
  ℕ, ◌+◌, ◌-◌, ◌*◌, ◌/◌, ◌%◌, ◌^◌, ◌<◌, ◌≡◌, refl, ap, ◌∙◌, Bool, true, false, List, [], ◌∷◌, ◌++◌,
  arith, ok, if◌then◌else◌, leb, length, take, drop, All, take-append, drop-append, ◌==◌, none,
  bit_and, List-cases, inl, inr, drop-add, le→leb,
}
use discord_ext_voice_recv.Base.Bits.{and_0x20, and_0x10, and_0x80, and_0x0f, and_0x7f}
use discord_ext_voice_recv.Base.Bytes.{Bytes, be, be_from, words, unpack_at, unpack_words, slice}
use discord_ext_voice_recv.Rtp.{RtpPacket, init, has_bits, no_marks}

abbrev pub be16 : ℕ → Bytes
be16 n = n / 256 ∷ n % 256 ∷ []

abbrev pub be32 : ℕ → Bytes → Bytes
be32 n l = n / 16777216 ∷ n / 65536 % 256 ∷ n / 256 % 256 ∷ n % 256 ∷ l

abbrev pub be32s : List ℕ → Bytes → Bytes
be32s [] l = l
be32s (x ∷ xs) l = be32 x (be32s xs l)

abbrev pub IsWord : ℕ → Type 0
IsWord n = n < 2 ^ 32

abbrev pub bit : Bool → ℕ
bit true = 1
bit false = 0

-- The fields of a header.
pub record Fields : Type 0 where
  pub version : ℕ
  pub padding : Bool
  pub extended : Bool
  pub marker : Bool
  pub payload : ℕ
  pub sequence : ℕ
  pub timestamp : ℕ
  pub ssrc : ℕ
  pub csrcs : List ℕ

pub record Fits (f : Fields) : Type 0 where
  pub version_fits : f.version < 4
  pub count_fits : length f.csrcs < 16
  pub payload_fits : f.payload < 128
  pub sequence_fits : f.sequence < 65536
  pub timestamp_fits : IsWord f.timestamp
  pub ssrc_fits : IsWord f.ssrc
  pub csrcs_fit : All IsWord f.csrcs

abbrev pub first_byte : Fields → ℕ
first_byte f = f.version * 64 + bit f.padding * 32 + bit f.extended * 16 + length f.csrcs

abbrev pub second_byte : Fields → ℕ
second_byte f = bit f.marker * 128 + f.payload

-- The packet of RFC 3550, section 5.1, with the given body.
abbrev pub layout : Fields → Bytes → Bytes
layout f body =
    first_byte f
    ∷ second_byte f
    ∷ f.sequence / 256
    ∷ f.sequence % 256
    ∷ be32 f.timestamp (be32 f.ssrc (be32s f.csrcs body))

be-be32 : (n : ℕ) → IsWord n → be (be32 n []) ≡ n
unfolding be_from
be-be32 n h = omega arith

words-be32s : (xs : List ℕ) → All IsWord xs → words (length xs) (be32s xs []) ≡ xs
unfolding words be_from
words-be32s [] h = refl
words-be32s (x ∷ xs) h = ground (arith, words-be32s xs h.1, h.0)

length-be32s : (xs : List ℕ) (l : Bytes) → length (be32s xs l) ≡ 4 * length xs + length l
length-be32s [] l = omega arith
length-be32s (x ∷ xs) l = omega (arith, length-be32s xs l)

be32s-append : (xs : List ℕ) (l : Bytes) → be32s xs l ≡ be32s xs [] ++ l
be32s-append [] l = refl
be32s-append (x ∷ xs) l = ap (be32 x) (be32s-append xs l)

take-be32s : (xs : List ℕ) (l : Bytes) → take (4 * length xs) (be32s xs l) ≡ be32s xs []
take-be32s xs l =
    rw (be32s-append xs l)
      (take-append (4 * length xs) (be32s xs []) l (omega (arith, length-be32s xs [])))

drop-be32s : (xs : List ℕ) (l : Bytes) → drop (4 * length xs) (be32s xs l) ≡ l
drop-be32s xs l =
    rw (be32s-append xs l)
      (drop-append (4 * length xs) (be32s xs []) l (omega (arith, length-be32s xs [])))

unpack_words-be32s : (xs : List ℕ) → All IsWord xs → unpack_words (length xs) (be32s xs []) ≡ ok xs
unfolding unpack_words
unpack_words-be32s xs h = ground (arith, length-be32s xs [], words-be32s xs h)

first_byte-lt : (f : Fields) → Fits f → first_byte f < 256
first_byte-lt f h = ground (arith, h.version_fits, h.count_fits)

first_bits :
    (f : Fields)
    → Fits f
    → (first_byte f / 64 ≡ f.version)
      × (has_bits (first_byte f) 0x20 ≡ f.padding)
      × (has_bits (first_byte f) 0x10 ≡ f.extended)
      × (bit_and (first_byte f) 0xf ≡ length f.csrcs)
first_bits f h =
    let small = first_byte-lt f h in
    ground (
      arith,
      and_0x20 (first_byte f) small,
      and_0x10 (first_byte f) small,
      and_0x0f (first_byte f) small,
      h.version_fits,
      h.count_fits,
    )

second_bits :
    (f : Fields)
    → Fits f
    → (has_bits (second_byte f) 0x80 ≡ f.marker) × (bit_and (second_byte f) 0x7f ≡ f.payload)
second_bits f h =
    let small : second_byte f < 256 = ground (arith, h.payload_fits) in
    ground (arith, and_0x80 (second_byte f) small, and_0x7f (second_byte f) small, h.payload_fits)

read_numbers :
    (f : Fields) (body : Bytes)
    → Fits f
    → (unpack_at 2 (layout f body) 2 ≡ ok f.sequence)
      × (unpack_at 4 (layout f body) 4 ≡ ok f.timestamp)
      × (unpack_at 4 (layout f body) 8 ≡ ok f.ssrc)
unfolding unpack_at be_from
read_numbers f body h =
    (ground (arith, h.sequence_fits), ground (arith, h.timestamp_fits), ground (arith, h.ssrc_fits))

read_csrcs :
    (f : Fields) (body : Bytes) (n : ℕ)
    → Fits f
    → n ≡ length f.csrcs
    → (if n == 0 then ok [] else unpack_words n (slice 12 (4 * n + 12) (layout f body)))
      ≡ ok f.csrcs
read_csrcs f body n h e =
    let shift : 4 * n + 12 - 12 ≡ 4 * n = omega arith in
    elim (List-cases f.csrcs) [
      | inl none_ ↦ rw (e, none_)
      | inr (x, xs, some_) ↦
          let more : (n == 0) ≡ false = ground (arith, e, some_) in
          rw (more, shift, e, take-be32s f.csrcs body) (unpack_words-be32s f.csrcs h.csrcs_fit)
    ]

read_body :
    (f : Fields) (body : Bytes) (n : ℕ)
    → n ≡ length f.csrcs
    → (if n == 0 then drop 12 (layout f body) else drop (4 * n + 12) (layout f body)) ≡ body
read_body f body n e = elim (List-cases f.csrcs) [
  | inl none_ ↦ rw (e, none_)
  | inr (x, xs, some_) ↦
      let more : (n == 0) ≡ false = ground (arith, e, some_) in
      rw more (drop-add (4 * n) 12 (layout f body) ∙ rw e (drop-be32s f.csrcs body))
]

-- What the fields say of the packet.
abbrev pub packet_of : Fields → Bytes → RtpPacket
packet_of f body = record {
  version = f.version;
  padding = f.padding;
  extended = f.extended;
  cc = length f.csrcs;
  marker = f.marker;
  payload = f.payload;
  sequence = f.sequence;
  timestamp = f.timestamp;
  ssrc = f.ssrc;
  csrcs = f.csrcs;
  header = take 12 (layout f body);
  data_ = body;
  decrypted_data = none;
  nonce = [];
  extension = none;
  extension_data = [];
  marks = no_marks;
  rtpsize = false;
}

-- `__init__` reads back every field of a packet laid out by RFC 3550 with fields in range: version,
-- flags, payload type, sequence number, timestamp, ssrc and the list of contributing sources; the
-- first twelve bytes are kept as the header, and what follows the sources is the packet's data.
pub init-layout :
    (f : Fields) (body : Bytes) → Fits f → init (layout f body) ≡ ok (packet_of f body)
unfolding init
init-layout f body h =
    let (v, p, x, n) = first_bits f h in
    let (m, t) = second_bits f h in
    let (seq, ts, src) = read_numbers f body h in
    let cs = read_csrcs f body (bit_and (first_byte f) 0xf) h n in
    let bd = read_body f body (bit_and (first_byte f) 0xf) n in
    let long : leb 12 (length (layout f body)) ≡ true = le→leb 12 _ (omega arith) in
    rw (long, seq, ts, src) (rw (cs, bd, v, p, x) (rw (n, m, t)))
