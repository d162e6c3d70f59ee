-- ===== src/Rtp/Extension.antt =====
-- The RFC 5285 one-byte header extension, and where the payload begins.
use mathlib.Core.List.{append_assoc}
use discord_ext_voice_recv.Base.{
  ℕ, zero, suc, ◌+◌, ◌-◌, ◌*◌, ◌/◌, ◌≤◌, ◌<◌, ◌≡◌, ◌≢◌, refl, sym, ◌∙◌, some, List, [], ◌∷◌, ◌++◌,
  arith, ltb, ◌==◌, length, get_elem?, length-append, All, take-append, drop-append, get_elem?-lt,
  get_elem?-append, Bool-cases, Option-cases, inl, inr, bit_and,
}
use discord_ext_voice_recv.Base.Bits.{and_0x0f}
use discord_ext_voice_recv.Base.Dict.{Dict, put}
use discord_ext_voice_recv.Base.Bytes.{Bytes, slice}
use discord_ext_voice_recv.Rtp.{bede_loop, parse_bede_header}

-- The loop of `_parse_bede_header` ends: each round moves on in the data.
bede_loop_total :
    (f : ℕ) (d : Bytes) (count offset n : ℕ) (ext : Dict Bytes)
    → 0 < f
    → length d < f + offset
    → (r : Dict Bytes) × (bede_loop f d count offset n ext ≡ some r)
unfolding bede_loop
bede_loop_total zero d count offset n ext p h = absurd (omega arith)
bede_loop_total (suc f) d count offset n ext p h = elim (Option-cases (get_elem? d offset)) [
  | inl e ↦ (ext, ground (arith, e))
  | inr (b, e) ↦
      let inside = get_elem?-lt d offset b e in
      let stop = offset + 1 + (1 + bit_and b 0xf) in
      let ext' = put (b / 16) (slice (offset + 1) stop d) ext in
      let (r, pad) = bede_loop_total f d count (offset + 1) n ext (omega arith) (omega arith) in
      let (r', next) = bede_loop_total f d count stop (n + 1) ext' (omega arith) (omega arith) in
      elim (Bool-cases (ltb n count)) [
        | inr done ↦ (ext, ground (arith, done))
        | inl more ↦ (elim (Bool-cases (b == 0)) [
          | inl zero_byte ↦ (r, rw (more, e) (rw (zero_byte, pad)))
          | inr element ↦ (elim (Bool-cases (ltb (length d) stop)) [
            | inl cut ↦ (ext, rw (more, e) (rw (element, cut)))
            | inr fits ↦ (r', rw (more, e) (rw (element, fits, next)))
          ])
        ])
      ]
]

-- `_parse_bede_header` ends on every input, with some dictionary of elements.
parse_bede_header_total :
    (d : Bytes) (count : ℕ) (ext : Dict Bytes)
    → (r : Dict Bytes) × (parse_bede_header d count ext ≡ some r)
unfolding parse_bede_header
parse_bede_header_total d count ext =
    bede_loop_total (length d + 1) d count 4 0 ext (omega arith) (omega arith)

-- An element of RFC 5285, section 4.2: an id and 1 to 16 bytes.
abbrev pub Element : Type 0
Element = ℕ × Bytes

abbrev pub IsElement : Element → Type 0
IsElement (i, l) = (1 ≤ i) × (i < 16) × (1 ≤ length l) × (length l ≤ 16)

abbrev pub encode : List Element → Bytes → Bytes
encode [] rest = rest
encode ((i, l) ∷ es) rest = (i * 16 + (length l - 1)) ∷ (l ++ encode es rest)

abbrev pub put_all : List Element → Dict Bytes → Dict Bytes
put_all [] ext = ext
put_all ((i, l) ∷ es) ext = put_all es (put i l ext)

length-encode : (es : List Element) (rest : Bytes) → length es ≤ length (encode es rest)
length-encode [] rest = omega arith
length-encode ((i, l) ∷ es) rest =
    omega (arith, length-encode es rest, length-append l (encode es rest))

bede_step :
    (f : ℕ) (d : Bytes) (count offset n header : ℕ) (ext : Dict Bytes)
    → get_elem? d offset ≡ some header
    → n < count
    → header ≢ 0
    → offset + 1 + (1 + bit_and header 0xf) ≤ length d
    → bede_loop (suc f) d count offset n ext
      ≡ bede_loop f d count
          (offset + 1 + (1 + bit_and header 0xf))
          (n + 1)
          (put (header / 16) (slice (offset + 1) (offset + 1 + (1 + bit_and header 0xf)) d) ext)
unfolding bede_loop
bede_step f d count offset n header ext e lt nonzero fits = ground (arith, e)

slice-middle :
    (pre : Bytes) (x : ℕ) (l rest : Bytes)
    → slice (length pre + 1) (length pre + 1 + length l) (pre ++ x ∷ (l ++ rest)) ≡ l
slice-middle pre x l rest =
    let size : length pre + 1 + length l - (length pre + 1) ≡ length l = omega arith in
    let front : pre ++ x ∷ (l ++ rest) ≡ (pre ++ x ∷ []) ++ (l ++ rest) =
      sym (append_assoc pre (x ∷ []) (l ++ rest)) in
    rw
      (
        size,
        front,
        drop-append (length pre + 1) (pre ++ x ∷ []) (l ++ rest)
            (omega (arith, length-append pre (x ∷ []))),
      )
      (take-append (length l) l rest refl)

bede_element :
    (f : ℕ) (pre : Bytes) (i : ℕ) (l rest : Bytes) (count n : ℕ) (ext : Dict Bytes)
    → IsElement (i, l)
    → n < count
    → bede_loop (suc f) (pre ++ (i * 16 + (length l - 1)) ∷ (l ++ rest)) count (length pre) n ext
      ≡ bede_loop f
          (pre ++ (i * 16 + (length l - 1)) ∷ (l ++ rest))
          count
          (length pre + 1 + length l)
          (n + 1)
          (put i l ext)
bede_element f pre i l rest count n ext h lt =
    let x = i * 16 + (length l - 1) in
    let low : bit_and x 0xf ≡ length l - 1 = omega (arith, and_0x0f x) in
    let stop : length pre + 1 + (1 + bit_and x 0xf) ≡ length pre + 1 + length l =
      omega (arith, low) in
    let id_ : x / 16 ≡ i = omega arith in
    let size = length-append pre (x ∷ (l ++ rest)) in
    bede_step f (pre ++ x ∷ (l ++ rest)) count (length pre) n x ext
      (get_elem?-append pre x (l ++ rest) (length pre) refl) lt (omega arith)
      (omega (arith, size, stop, length-append l rest))
    ∙ rw (stop, id_, slice-middle pre x l rest)

bede_loop-encode :
    (es : List Element) (f : ℕ) (pre rest : Bytes) (count n : ℕ) (ext : Dict Bytes)
    → All IsElement es
    → length es < f
    → n + length es ≡ count
    → bede_loop f (pre ++ encode es rest) count (length pre) n ext ≡ some (put_all es ext)
bede_loop-encode es zero pre rest count n ext h lt e = absurd (omega arith)
bede_loop-encode [] (suc f) pre rest count n ext h lt e = unfold bede_loop in ground arith
bede_loop-encode ((i, l) ∷ es) (suc f) pre rest count n ext h lt e =
    let x = i * 16 + (length l - 1) in
    let next : Bytes = pre ++ x ∷ l in
    let same : pre ++ x ∷ (l ++ encode es rest) ≡ next ++ encode es rest =
      sym (append_assoc pre (x ∷ l) (encode es rest)) in
    let size : length pre + 1 + length l ≡ length next = omega (arith, length-append pre (x ∷ l)) in
    bede_element f pre i l (encode es rest) count n ext h.0 (omega arith)
    ∙ rw (same, size)
        (bede_loop-encode es f next rest count (n + 1) (put i l ext) h.1 (omega arith)
          (omega arith))

-- Header elements encoded by RFC 5285 behind the four bytes of the extension header are read back
-- in order into `extension_data`, if the count given is their number; what follows is not read.
pub parse_bede_header-encode :
    (es : List Element) (h0 h1 h2 h3 : ℕ) (rest : Bytes) (ext : Dict Bytes)
    → All IsElement es
    → parse_bede_header (h0 ∷ h1 ∷ h2 ∷ h3 ∷ encode es rest) (length es) ext ≡ some (put_all es ext)
unfolding parse_bede_header
parse_bede_header-encode es h0 h1 h2 h3 rest ext h =
    bede_loop-encode es (length (h0 ∷ h1 ∷ h2 ∷ h3 ∷ encode es rest) + 1) (h0 ∷ h1 ∷ h2 ∷ h3 ∷ [])
      rest (length es) 0 ext h (omega (arith, length-encode es rest)) (omega arith)
