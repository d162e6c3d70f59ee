-- ===== src/Dave/Parse.antt =====
-- `parse_dave_payload` on whole frames.
use mathlib.Core.List.{append_assoc}
use discord_ext_voice_recv.Base.{
  Result-cases, ℕ, ◌+◌, ◌-◌, ◌^◌, ◌≤◌, ◌<◌, ◌≡◌, ◌≢◌, sym, ap, ◌∙◌, true, Option, none, some, List,
  [], ◌∷◌, ◌++◌, ok, leb, length, get_elem?, arith, length-append, get_elem?-append, Bool-cases,
  Option-cases, inl, inr, All, drop-append, drop,
}
use discord_ext_voice_recv.Base.Bytes.{Bytes, eq_bytes, eq_bytes_self, last_bytes, byte_from_end}
use discord_ext_voice_recv.Dave.Uleb.{uleb, read_uleb128-uleb, put_uleb-nonempty}
use discord_ext_voice_recv.Dave.Layout.{
  ranges_loop-ne-none, ranges_loop-put, put_ranges, IsRange, length-put_ranges,
}
use discord_ext_voice_recv.Dave.{
  marker, read_uleb128, Range, ranges_loop, read_supplemental, parse_dave_payload, DaveSupplemental,
}

read_supplemental-ne-none :
    (payload : Bytes) (size : ℕ) → 10 < length payload → read_supplemental payload size ≢ none
unfolding read_supplemental
read_supplemental-ne-none payload size h =
    let end_ = length payload - 3 in
    elim (Result-cases (read_uleb128 payload (length payload - size + 8) end_)) [
      | inl (e, failed) ↦ λ q. ground (arith, failed, q)
      | inr ((nonce, cursor), read) ↦
          let ranges =
            ranges_loop-ne-none (length payload) payload cursor end_ (omega arith) (omega arith) in
          λ q. ground (arith, read, ranges, q)
    ]

parse_dave_payload-ne-none : (payload : Bytes) → parse_dave_payload payload ≢ none
unfolding parse_dave_payload
parse_dave_payload-ne-none payload = elim (Bool-cases (leb (length payload) 10)) [
  | inl short ↦ λ q. ground (arith, short, q)
  | inr long ↦ (elim (Result-cases (byte_from_end payload 3)) [
    | inl (e, failed) ↦ λ q. ground (arith, long, failed, q)
    | inr (size, read) ↦
        let rest = read_supplemental-ne-none payload size (ground (arith, long)) in
        λ q. ground (arith, long, read, rest, q)
  ])
]

-- `parse_dave_payload` ends on every input, with a description of the trailer or with `None`.
parse_dave_payload_total :
    (payload : Bytes) → (r : Option DaveSupplemental) × (parse_dave_payload payload ≡ some r)
parse_dave_payload_total payload = elim (Option-cases (parse_dave_payload payload)) [
  | inl e ↦ absurd (parse_dave_payload-ne-none payload e)
  | inr found ↦ found
]

-- The frame: the ciphertext, the tag of eight bytes, the nonce, the ranges that are not encrypted,
-- the size of all that follows the ciphertext, and the marker.
abbrev pub trailer : ℕ → List Range → ℕ → Bytes
trailer nonce ranges size = uleb nonce ++ (put_ranges ranges ++ size ∷ marker)

abbrev pub frame : Bytes → Bytes → ℕ → List Range → Bytes
frame cipher tag nonce ranges =
    cipher
    ++ (tag
        ++ trailer nonce ranges
            (length tag + (length (uleb nonce) + length (put_ranges ranges)) + 3))

abbrev pub supplemental : ℕ → ℕ → ℕ → List Range → DaveSupplemental
supplemental cipher_length size nonce ranges = record {
  supplemental_size = size;
  supplemental_start = cipher_length;
  nonce = nonce;
  ranges = ranges;
  ciphertext_len = cipher_length;
}

read_supplemental_step :
    (payload : Bytes) (cipher_length size nonce cursor : ℕ) (ranges : List Range)
    → length payload - size ≡ cipher_length
    → 0 < cipher_length
    → read_uleb128 payload (length payload - size + 8) (length payload - 3) ≡ ok (nonce, cursor)
    → ranges_loop (length payload) payload cursor (length payload - 3) ≡ some (some ranges)
    → read_supplemental payload size ≡ some (some (supplemental cipher_length size nonce ranges))
unfolding read_supplemental
read_supplemental_step payload cipher_length size nonce cursor ranges e h read rest =
    ground (arith, e, h, read, rest)

parse_step :
    (payload : Bytes) (size : ℕ)
    → eq_bytes (last_bytes 2 payload) marker ≡ true
    → get_elem? payload (length payload - 3) ≡ some size
    → 10 < size
    → size ≤ length payload
    → parse_dave_payload payload ≡ read_supplemental payload size
unfolding parse_dave_payload
parse_step payload size marked found h fits = ground (arith, marked, found)

module _ (cipher tag : Bytes) (nonce : ℕ) (ranges : List Range) (eight : length tag ≡ 8) where
  abbrev body_size : ℕ
  body_size = length tag + (length (uleb nonce) + length (put_ranges ranges)) + 3

  length-frame : length (frame cipher tag nonce ranges) ≡ length cipher + body_size
  length-frame = omega (
    arith,
    length-append cipher (tag ++ trailer nonce ranges body_size),
    length-append tag (trailer nonce ranges body_size),
    length-append (uleb nonce) (put_ranges ranges ++ body_size ∷ marker),
    length-append (put_ranges ranges) (body_size ∷ marker),
  )

  -- Everything up to the size byte.
  abbrev front : Bytes
  front = cipher ++ (tag ++ (uleb nonce ++ put_ranges ranges))

  length-front : length front + 3 ≡ length cipher + body_size
  length-front = omega (
    arith,
    length-append cipher (tag ++ (uleb nonce ++ put_ranges ranges)),
    length-append tag (uleb nonce ++ put_ranges ranges),
    length-append (uleb nonce) (put_ranges ranges),
  )

  frame-front : frame cipher tag nonce ranges ≡ front ++ body_size ∷ marker
  frame-front =
      let l = put_ranges ranges in
      let end_ : Bytes = body_size ∷ marker in
      sym (
        append_assoc cipher (tag ++ (uleb nonce ++ l)) end_
        ∙ ap (◌++◌ cipher) (
            append_assoc tag (uleb nonce ++ l) end_
            ∙ ap (◌++◌ tag) (append_assoc (uleb nonce) l end_)))

  read_supplemental-frame :
      nonce < 2 ^ 70
      → All IsRange ranges
      → 0 < length cipher
      → read_supplemental (frame cipher tag nonce ranges) body_size
        ≡ some (some (supplemental (length cipher) body_size nonce ranges))
  read_supplemental-frame h rs some_ =
      let payload = frame cipher tag nonce ranges in
      let whole = length-frame in
      let pre : Bytes = cipher ++ tag in
      let pre' : Bytes = pre ++ uleb nonce in
      let l = put_ranges ranges in
      let end_ = length payload - 3 in
      let first : payload ≡ pre ++ (uleb nonce ++ (l ++ body_size ∷ marker)) =
        sym (append_assoc cipher tag (trailer nonce ranges body_size)) in
      let second : payload ≡ pre' ++ (l ++ body_size ∷ marker) =
        first ∙ sym (append_assoc pre (uleb nonce) (l ++ body_size ∷ marker)) in
      let size : length pre ≡ length cipher + length tag = length-append cipher tag in
      let size' : length pre' ≡ length pre + length (uleb nonce) = length-append pre (uleb nonce) in
      let start : length payload - body_size + 8 ≡ length pre = omega (arith, whole, size, eight) in
      let at_end : length pre' + length l ≡ end_ = omega (arith, whole, size, size') in
      let read : read_uleb128 payload (length pre) end_ ≡ ok (nonce, length pre') =
        ap (λ (b : Bytes). read_uleb128 b (length pre) end_) first
        ∙ rw size' (
            read_uleb128-uleb nonce pre (l ++ body_size ∷ marker) end_ h
              (omega (arith, size', at_end))) in
      let rest : ranges_loop (length payload) payload (length pre') end_ ≡ some (some ranges) =
        ap (λ (b : Bytes). ranges_loop (length payload) b (length pre') end_) second
        ∙ ap (ranges_loop (length payload) (pre' ++ (l ++ body_size ∷ marker)) (length pre'))
            (sym at_end)
        ∙ ranges_loop-put ranges (length payload) pre' (body_size ∷ marker) rs
            (omega (arith, whole, length-put_ranges ranges)) in
      read_supplemental_step payload (length cipher) body_size nonce (length pre') ranges
        (omega (arith, whole)) some_ (ap (λ (k : ℕ). read_uleb128 payload k end_) start ∙ read) rest

  -- A frame with a nonempty ciphertext, a tag of eight bytes, and the nonce and the ranges in
  -- LEB128 below 2 ^ 70, is parsed to exactly these: the nonce, the ranges in order, the length of
  -- the ciphertext and the size of what follows it.
  pub parse_dave_payload-frame :
      nonce < 2 ^ 70
      → All IsRange ranges
      → 0 < length cipher
      → parse_dave_payload (frame cipher tag nonce ranges)
        ≡ some (some (supplemental (length cipher) body_size nonce ranges))
  parse_dave_payload-frame h rs some_ =
      let payload = frame cipher tag nonce ranges in
      let whole = length-frame in
      let shape = frame-front in
      let size = length-front in
      let shape' : payload ≡ (front ++ body_size ∷ []) ++ marker =
        shape ∙ sym (append_assoc front (body_size ∷ []) marker) in
      let end_ : last_bytes 2 payload ≡ marker =
        ap (drop (length payload - 2)) shape'
        ∙ drop-append (length payload - 2) (front ++ body_size ∷ []) marker
            (omega (arith, whole, size, length-append front (body_size ∷ []))) in
      let marked : eq_bytes (last_bytes 2 payload) marker ≡ true =
        ap (λ (b : Bytes). eq_bytes b marker) end_ ∙ eq_bytes_self marker in
      let found : get_elem? payload (length payload - 3) ≡ some body_size =
        ap (λ (b : Bytes). get_elem? b (length payload - 3)) shape
        ∙ get_elem?-append front body_size marker _ (omega (arith, whole, size)) in
      parse_step payload body_size marked found
        (omega (eight, arith, put_uleb-nonempty 10 nonce (omega arith))) (omega (arith, whole))
      ∙ read_supplemental-frame h rs some_
