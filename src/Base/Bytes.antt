-- ===== src/Base/Bytes.antt =====
-- Byte strings as lists of numbers: Python's slices and indices, and big-endian `struct` fields.
use Prim.Native.Nat.{ℕ, zero, suc, ◌+◌, ◌-◌, ◌*◌, ◌<◌}
use mathlib.Core.Bool.{Bool, true, false, ◌&&◌}
use mathlib.Core.List.{List, [], ◌∷◌}
use mathlib.Core.Path.{◌≡◌, refl}
use native.Mathlib.Omega.{arith}
use discord_ext_voice_recv.Base.Tests.{leb, ◌==◌, if◌then◌else◌}
use discord_ext_voice_recv.Base.Lists.{length, take, drop, get_elem?}
use discord_ext_voice_recv.Base.Results.{Result, ok, raise, struct_error, index_error, or_raise}

abbrev pub Bytes : Type 0
Bytes = List ℕ

abbrev pub IsByte : ℕ → Type 0
IsByte b = b < 256

-- `data[i:j]`
abbrev pub slice : ℕ → ℕ → Bytes → Bytes
slice i j l = take (j - i) (drop i l)

-- `data[-k:]` and `data[:-k]`, for a positive k; where k passes the length they are all and nothing.
abbrev pub last_bytes : ℕ → Bytes → Bytes
last_bytes k l = drop (length l - k) l

abbrev pub drop_last : ℕ → Bytes → Bytes
drop_last k l = take (length l - k) l

-- `data[i]` and `data[-k]`
abbrev pub byte_at : Bytes → ℕ → Result ℕ
byte_at l i = or_raise (get_elem? l i) index_error

abbrev pub byte_from_end : Bytes → ℕ → Result ℕ
byte_from_end l k =
    if leb k (length l)
    then or_raise (get_elem? l (length l - k)) index_error
    else raise index_error

-- a == b on byte strings
unfoldable pub eq_bytes : Bytes → Bytes → Bool
eq_bytes [] [] = true
eq_bytes [] (b ∷ bs) = false
eq_bytes (a ∷ as') [] = false
eq_bytes (a ∷ as') (b ∷ bs) = a == b && eq_bytes as' bs

-- The big-endian number of a byte string.
unfoldable pub be_from : ℕ → Bytes → ℕ
be_from acc [] = acc
be_from acc (b ∷ bs) = be_from (acc * 256 + b) bs

abbrev pub be : Bytes → ℕ
be = be_from 0

-- An unsigned field of `size` bytes at `offset`, as `struct.unpack_from` reads it.
unfoldable pub unpack_at : ℕ → Bytes → ℕ → Result ℕ
unpack_at size data_ offset =
    if leb (offset + size) (length data_)
    then ok (be (slice offset (offset + size) data_))
    else raise struct_error

-- `struct.unpack('>nI', data)`: the buffer must hold exactly n words.
unfoldable pub words : ℕ → Bytes → List ℕ
words zero l = []
words (suc n) l = be (take 4 l) ∷ words n (drop 4 l)

unfoldable pub unpack_words : ℕ → Bytes → Result (List ℕ)
unpack_words n l = if length l == 4 * n then ok (words n l) else raise struct_error

pub eq_bytes→eq : (a b : Bytes) → eq_bytes a b ≡ true → a ≡ b
unfolding eq_bytes
eq_bytes→eq [] [] h = refl
eq_bytes→eq [] (b ∷ bs) h = cc
eq_bytes→eq (a ∷ as') [] h = cc
eq_bytes→eq (a ∷ as') (b ∷ bs) h = ground (arith, eq_bytes→eq as' bs)

pub eq_bytes_self : (a : Bytes) → eq_bytes a a ≡ true
unfolding eq_bytes
eq_bytes_self [] = refl
eq_bytes_self (a ∷ as') = ground (arith, eq_bytes_self as')

pub length-words : (n : ℕ) (l : Bytes) → length (words n l) ≡ n
unfolding words
length-words zero l = refl
length-words (suc n) l = omega (arith, length-words n (drop 4 l))
