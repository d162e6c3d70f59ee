-- ===== src/Dave.antt =====
-- discord/ext/voice_recv/dave.py, `parse_dave_payload`: the trailer of a DAVE frame.
pub mod Uleb
pub mod Layout
pub mod Parse
pub mod Bridge
pub mod Diagnostics
use discord_ext_voice_recv.Base.{
  ℕ, zero, suc, ◌+◌, ◌-◌, ◌*◌, ◌^◌, bit_and, bit_or, Bool, true, false, ◌&&◌, ◌||◌, not, Option,
  none, some, List, [], ◌∷◌, Result, ok, raise, value_error, index_error, ltb, leb, ◌==◌,
  if◌then◌else◌, length, get_elem?,
}
use discord_ext_voice_recv.Base.Bytes.{Bytes, last_bytes, eq_bytes, byte_from_end}

abbrev pub marker : Bytes
marker = 0xfa ∷ 0xfa ∷ []

-- The loop of `_read_uleb128`. `shift` runs through 0, 7, ..., 63, so there are ten rounds at most:
-- the first argument is how many are left.
unfoldable pub uleb_loop : ℕ → Bytes → ℕ → ℕ → ℕ → ℕ → Result (ℕ × ℕ)
uleb_loop zero buf index end_ shift value = raise value_error
uleb_loop (suc rounds) buf index end_ shift value =
    if ltb index end_ && leb shift 63
    then (elim (get_elem? buf index) [
      | none ↦ raise index_error
      | some byte ↦
          let value' = bit_or value (bit_and byte 0x7f * 2 ^ shift) in
          let rest = uleb_loop rounds buf (index + 1) end_ (shift + 7) value' in
          if bit_and byte 0x80 == 0 then ok (value', index + 1) else rest
    ])
    else raise value_error

unfoldable pub read_uleb128 : Bytes → ℕ → ℕ → Result (ℕ × ℕ)
unfolding uleb_loop
read_uleb128 buf start end_ = uleb_loop 10 buf start end_ 0 0

abbrev pub Range : Type 0
Range = ℕ × ℕ

-- The `while` over the ranges. `some none` is the caught ValueError; `none` is no outcome of the
-- code: the fuel ran out.
unfoldable pub ranges_loop : ℕ → Bytes → ℕ → ℕ → Option (Option (List Range))
unfolding read_uleb128
ranges_loop zero buf cursor end_ = none
ranges_loop (suc f) buf cursor end_ =
    if ltb cursor end_
    then (elim (read_uleb128 buf cursor end_) [
      | raise e ↦ some none
      | ok (offset, cursor') ↦ (elim (read_uleb128 buf cursor' end_) [
        | raise e ↦ some none
        | ok (size, cursor'') ↦ (elim (ranges_loop f buf cursor'' end_) [
          | none ↦ none
          | some none ↦ some none
          | some (some ranges) ↦ some (some ((offset, size) ∷ ranges))
        ])
      ])
    ])
    else some (some [])

pub record DaveSupplemental : Type 0 where
  pub supplemental_size : ℕ
  pub supplemental_start : ℕ
  pub nonce : ℕ
  pub ranges : List Range
  pub ciphertext_len : ℕ

-- `parse_dave_payload` past the checks of the size: the nonce, and the ranges.
unfoldable pub read_supplemental : Bytes → ℕ → Option (Option DaveSupplemental)
unfolding ranges_loop
read_supplemental payload size =
    let start = length payload - size in
    let end_ = length payload - 3 in
    elim (read_uleb128 payload (start + 8) end_) [
      | raise e ↦ some none
      | ok (nonce, cursor) ↦ (elim (ranges_loop (length payload) payload cursor end_) [
        | none ↦ none
        | some none ↦ some none
        | some (some ranges) ↦
            if leb (length payload - size) 0
            then some none
            else some (
                some (record {
                  supplemental_size = size;
                  supplemental_start = start;
                  nonce = nonce;
                  ranges = ranges;
                  ciphertext_len = length payload - size;
                }))
      ])
    ]

unfoldable pub parse_dave_payload : Bytes → Option (Option DaveSupplemental)
unfolding read_supplemental
parse_dave_payload payload =
    if not (eq_bytes (last_bytes 2 payload) marker)
    then some none
    else if leb (length payload) 10
    then some none
    else (elim (byte_from_end payload 3) [
      | raise e ↦ some none
      | ok size ↦
          if ltb (length payload) size || leb size 10
          then some none
          else if ltb (length payload - 3) (length payload - size + 8)
          then some none
          else read_supplemental payload size
    ])
