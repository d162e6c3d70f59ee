-- ===== src/Dave/Uleb.antt =====
-- LEB128 numbers are read back, and the parser always ends.
use mathlib.Core.List.{append_assoc}
use native.Mathlib.Omega.{pow_step}
use discord_ext_voice_recv.Base.{
  ℕ, zero, suc, ◌+◌, ◌*◌, ◌/◌, ◌%◌, ◌^◌, ◌≤◌, ◌<◌, ◌≡◌, refl, sym, ap, ◌∙◌, bit_and, bit_or, true,
  false, none, some, [], ◌∷◌, ◌++◌, ok, raise, Error, value_error, ltb, ◌==◌, if◌then◌else◌, length,
  get_elem?, arith, length-append, get_elem?-append, Bool-cases, Option-cases, inl, inr,
}
use discord_ext_voice_recv.Base.Bits.{and_0x7f, and_0x80, bit_or_above}
use discord_ext_voice_recv.Base.Bytes.{Bytes}
use discord_ext_voice_recv.Dave.{uleb_loop, read_uleb128}

-- The LEB128 form of a number below 128 ^ k, for a positive k.
unfoldable pub put_uleb : ℕ → ℕ → Bytes
put_uleb zero n = []
put_uleb (suc k) n =
    let rest = put_uleb k (n / 128) in if ltb n 128 then n ∷ [] else (128 + n % 128) ∷ rest

abbrev pub uleb : ℕ → Bytes
uleb = put_uleb 10

pub put_uleb-nonempty : (k n : ℕ) → 0 < k → 0 < length (put_uleb k n)
unfolding put_uleb
put_uleb-nonempty zero n h = absurd (omega arith)
put_uleb-nonempty (suc k) n h = ground arith

low_byte : (n : ℕ) → n < 128 → (bit_and n 0x7f ≡ n) × ((bit_and n 0x80 == 0) ≡ true)
low_byte n h = ground (arith, and_0x7f n, and_0x80 n)

high_byte :
    (n : ℕ)
    → (bit_and (128 + n % 128) 0x7f ≡ n % 128) × ((bit_and (128 + n % 128) 0x80 == 0) ≡ false)
high_byte n =
    let x = 128 + n % 128 in
    let small : x < 256 = omega arith in ground (arith, and_0x7f x small, and_0x80 x small)

uleb_step :
    (k : ℕ) (buf : Bytes) (index end_ shift value byte : ℕ)
    → index < end_
    → shift ≤ 63
    → get_elem? buf index ≡ some byte
    → uleb_loop (suc k) buf index end_ shift value ≡ (
        if bit_and byte 0x80 == 0
        then ok (bit_or value (bit_and byte 0x7f * 2 ^ shift), index + 1)
        else uleb_loop k buf
            (index + 1)
            end_
            (shift + 7)
            (bit_or value (bit_and byte 0x7f * 2 ^ shift)))
unfolding uleb_loop
uleb_step k buf index end_ shift value byte h s e = ground (arith, e)

shift_seven : (s : ℕ) → 2 ^ (s + 7) ≡ 128 * 2 ^ s
shift_seven s =
    let e : s + 7 ≡ suc (suc (suc (suc (suc (suc (suc s)))))) = omega arith in
    rw e (
      omega (
        arith,
        pow_step 2 s,
        pow_step 2 (suc s),
        pow_step 2 (suc (suc s)),
        pow_step 2 (suc (suc (suc s))),
        pow_step 2 (suc (suc (suc (suc s)))),
        pow_step 2 (suc (suc (suc (suc (suc s))))),
        pow_step 2 (suc (suc (suc (suc (suc (suc s)))))),
      ))

mul_le : (a b c : ℕ) → a ≤ b → a * c ≤ b * c
mul_le a b c h = grind arith

split_mul : (n q : ℕ) → n * q ≡ n / 128 * 128 * q + n % 128 * q
split_mul n q =
    let e : n ≡ n / 128 * 128 + n % 128 = omega arith in omega (arith, ap (λ (x : ℕ). x * q) e)

pair_eq : {a b c d : ℕ} → a ≡ b → c ≡ d → Path (ℕ × ℕ) (a, c) (b, d)
pair_eq p q = rw (p, q)

get_elem?-none : (l : Bytes) (i : ℕ) → get_elem? l i ≡ none → length l ≤ i
get_elem?-none [] i e = omega arith
get_elem?-none (x ∷ l) zero e = cc
get_elem?-none (x ∷ l) (suc i) e = omega (arith, get_elem?-none l i e)

uleb_loop-put :
    (k n : ℕ) (pre rest : Bytes) (end_ shift value : ℕ)
    → 0 < k
    → n < 128 ^ k
    → shift + 7 * k ≡ 70
    → value < 2 ^ shift
    → length pre + length (put_uleb k n) ≤ end_
    → uleb_loop k (pre ++ (put_uleb k n ++ rest)) (length pre) end_ shift value
      ≡ ok (value + n * 2 ^ shift, length pre + length (put_uleb k n))
unfolding put_uleb
uleb_loop-put zero n pre rest end_ shift value p lt e v h = absurd (omega arith)
uleb_loop-put (suc k) n pre rest end_ shift value p lt e v h = elim (Bool-cases (ltb n 128)) [
  | inl last ↦
      let (low, stop) = low_byte n (ground (arith, last)) in
      let found : get_elem? (pre ++ n ∷ rest) (length pre) ≡ some n =
        get_elem?-append pre n rest (length pre) refl in
      rw last (
        uleb_step k (pre ++ n ∷ rest) (length pre) end_ shift value n (ground (arith, last))
          (omega arith) found
        ∙ rw (stop, low, bit_or_above shift value n v) refl)
  | inr more ↦
      let x = 128 + n % 128 in
      let tail = put_uleb k (n / 128) in
      let (low, go) = high_byte n in
      let big : 128 ≤ n = ground (arith, more) in
      let power = pow_step 128 k in
      let positive : 0 < k =
        elim k as (λ (j : ℕ). n < 128 ^ suc j → 0 < j) [
          | zero ↦ λ q. absurd (omega (arith, q, big))
          | suc j ↦ λ q. omega arith
        ]
          lt in
      let next : Bytes = pre ++ x ∷ [] in
      let same : pre ++ x ∷ (tail ++ rest) ≡ next ++ (tail ++ rest) =
        sym (append_assoc pre (x ∷ []) (tail ++ rest)) in
      let size : length next ≡ length pre + 1 = length-append pre (x ∷ []) in
      let size' : length pre + 1 ≡ length next = sym size in
      let fits : length pre + suc (length tail) ≤ end_ = rw more at h in
      let shifted = shift_seven shift in
      let value' = value + n % 128 * 2 ^ shift in
      let digit : n % 128 * 2 ^ shift ≤ 127 * 2 ^ shift =
        mul_le (n % 128) 127 (2 ^ shift) (omega arith) in
      let whole : n * 2 ^ shift ≡ n / 128 * 128 * 2 ^ shift + n % 128 * 2 ^ shift =
        split_mul n (2 ^ shift) in
      let again =
        uleb_loop-put k (n / 128) next rest end_ (shift + 7) value' positive (omega (arith, power))
          (omega arith) (omega (arith, shifted, digit, v)) (omega (arith, size, fits)) in
      rw more (
        uleb_step k (pre ++ x ∷ (tail ++ rest)) (length pre) end_ shift value x
          (omega (arith, fits)) (omega (arith, positive))
          (get_elem?-append pre x (tail ++ rest) (length pre) refl)
        ∙ rw (go, low, bit_or_above shift value (n % 128) v, same, size')
            (again
              ∙ ap ok (
                  pair_eq (omega (arith, whole, ap (◌*◌ (n / 128)) shifted))
                    (omega (arith, size)))))
]

-- A number below 2 ^ 70 in LEB128 form is read back wherever it stands before the end, and the
-- cursor then stands behind it.
pub read_uleb128-uleb :
    (n : ℕ) (pre rest : Bytes) (end_ : ℕ)
    → n < 2 ^ 70
    → length pre + length (uleb n) ≤ end_
    → read_uleb128 (pre ++ (uleb n ++ rest)) (length pre) end_
      ≡ ok (n, length pre + length (uleb n))
unfolding read_uleb128
read_uleb128-uleb n pre rest end_ lt h =
    uleb_loop-put 10 n pre rest end_ 0 0 (omega arith) (omega arith) (omega arith) (omega arith) h
    ∙ ap ok (pair_eq (omega arith) refl)

-- A number that is read takes a byte at least, and lies before the end.
pub uleb_loop_advances :
    (k : ℕ) (buf : Bytes) (index end_ shift value n next : ℕ)
    → uleb_loop k buf index end_ shift value ≡ ok (n, next)
    → (index < next) × (next ≤ end_)
unfolding uleb_loop
uleb_loop_advances zero buf index end_ shift value n next e = cc
uleb_loop_advances (suc k) buf index end_ shift value n next e =
    elim (Option-cases (get_elem? buf index)) [
      | inl missing ↦ ground (arith, e, missing)
      | inr (byte, found) ↦ ground (
        arith,
        e,
        found,
        uleb_loop_advances k buf (index + 1) end_ (shift + 7)
            (bit_or value (bit_and byte 0x7f * 2 ^ shift)) n next,
      )
    ]

-- Below the end of the buffer only a ValueError is raised, the one that `parse_dave_payload`
-- catches.
pub uleb_loop_error :
    (k : ℕ) (buf : Bytes) (index end_ shift value : ℕ) (e : Error)
    → end_ ≤ length buf
    → uleb_loop k buf index end_ shift value ≡ raise e
    → e ≡ value_error
unfolding uleb_loop
uleb_loop_error zero buf index end_ shift value e h q = cc
uleb_loop_error (suc k) buf index end_ shift value e h q =
    elim (Option-cases (get_elem? buf index)) [
      | inl missing ↦ ground (arith, q, missing, get_elem?-none buf index missing)
      | inr (byte, found) ↦ ground (
        arith,
        q,
        found,
        uleb_loop_error k buf (index + 1) end_ (shift + 7)
            (bit_or value (bit_and byte 0x7f * 2 ^ shift)) e h,
      )
    ]
