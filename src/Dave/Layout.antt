-- ===== src/Dave/Layout.antt =====
-- A DAVE frame written out by its layout is parsed back, and the parser ends on every input.
use mathlib.Core.List.{append_assoc}
use discord_ext_voice_recv.Base.{
  Result-cases, ℕ, zero, suc, ◌+◌, ◌^◌, ◌≤◌, ◌<◌, ◌≡◌, ◌≢◌, sym, ap, ◌∙◌, none, some, List, [], ◌∷◌,
  ◌++◌, ok, length, arith, length-append, inl, inr, All,
}
use discord_ext_voice_recv.Base.Bytes.{Bytes}
use discord_ext_voice_recv.Dave.Uleb.{
  uleb, read_uleb128-uleb, uleb_loop_advances, put_uleb-nonempty,
}
use discord_ext_voice_recv.Dave.{read_uleb128, Range, ranges_loop}

pub advances :
    (buf : Bytes) (start end_ n next : ℕ)
    → read_uleb128 buf start end_ ≡ ok (n, next)
    → (start < next) × (next ≤ end_)
unfolding read_uleb128
advances buf start end_ n next e = uleb_loop_advances 10 buf start end_ 0 0 n next e

pub ranges_loop-ne-none :
    (f : ℕ) (buf : Bytes) (cursor end_ : ℕ)
    → 0 < f
    → end_ < f + cursor
    → ranges_loop f buf cursor end_ ≢ none
unfolding ranges_loop
ranges_loop-ne-none zero buf cursor end_ p h = absurd (omega arith)
ranges_loop-ne-none (suc f) buf cursor end_ p h =
    elim (Result-cases (read_uleb128 buf cursor end_)) [
      | inl (e, failed) ↦ λ q. ground (arith, failed, q)
      | inr ((offset, cursor'), read) ↦ (elim (Result-cases (read_uleb128 buf cursor' end_)) [
        | inl (e, failed) ↦ λ q. ground (arith, read, failed, q)
        | inr ((size, cursor''), read') ↦
            let (moved, inside) = advances buf cursor end_ offset cursor' read in
            let (moved', inside') = advances buf cursor' end_ size cursor'' read' in
            let rest = ranges_loop-ne-none f buf cursor'' end_ (omega arith) (omega arith) in
            λ q. ground (arith, read, read', rest, q)
      ])
    ]

abbrev pub put_ranges : List Range → Bytes
put_ranges [] = []
put_ranges ((offset, size) ∷ rs) = uleb offset ++ (uleb size ++ put_ranges rs)

abbrev pub IsRange : Range → Type 0
IsRange (offset, size) = (offset < 2 ^ 70) × (size < 2 ^ 70)

pub length-put_ranges : (rs : List Range) → length rs ≤ length (put_ranges rs)
length-put_ranges [] = omega arith
length-put_ranges ((offset, size) ∷ rs) = omega (
  arith,
  length-append (uleb offset) (uleb size ++ put_ranges rs),
  length-append (uleb size) (put_ranges rs),
  put_uleb-nonempty 10 offset (omega arith),
  length-put_ranges rs,
)

ranges_step :
    (f : ℕ) (buf : Bytes) (cursor end_ offset size cursor' cursor'' : ℕ) (rs : List Range)
    → cursor < end_
    → read_uleb128 buf cursor end_ ≡ ok (offset, cursor')
    → read_uleb128 buf cursor' end_ ≡ ok (size, cursor'')
    → ranges_loop f buf cursor'' end_ ≡ some (some rs)
    → ranges_loop (suc f) buf cursor end_ ≡ some (some ((offset, size) ∷ rs))
unfolding ranges_loop
ranges_step f buf cursor end_ offset size cursor' cursor'' rs h a b c = ground (arith, a, b, c)

pub ranges_loop-put :
    (rs : List Range) (f : ℕ) (pre rest : Bytes)
    → All IsRange rs
    → length rs < f
    → ranges_loop f
        (pre ++ (put_ranges rs ++ rest))
        (length pre)
        (length pre + length (put_ranges rs))
      ≡ some (some rs)
ranges_loop-put rs zero pre rest h lt = absurd (omega arith)
ranges_loop-put [] (suc f) pre rest h lt = unfold ranges_loop in ground arith
ranges_loop-put ((offset, size) ∷ rs) (suc f) pre rest h lt =
    let a = uleb offset in
    let b = uleb size in
    let l = put_ranges rs in
    let buf : Bytes = pre ++ (put_ranges ((offset, size) ∷ rs) ++ rest) in
    let first : buf ≡ pre ++ (a ++ (b ++ (l ++ rest))) =
      ap (◌++◌ pre) (append_assoc a (b ++ l) rest ∙ ap (◌++◌ a) (append_assoc b l rest)) in
    let pre' : Bytes = pre ++ a in
    let second : buf ≡ pre' ++ (b ++ (l ++ rest)) =
      first ∙ sym (append_assoc pre a (b ++ (l ++ rest))) in
    let pre'' : Bytes = pre' ++ b in
    let third : buf ≡ pre'' ++ (l ++ rest) = second ∙ sym (append_assoc pre' b (l ++ rest)) in
    let end_ = length pre + length (put_ranges ((offset, size) ∷ rs)) in
    let size_all = length-append a (b ++ l) in
    let size_rest = length-append b l in
    let size' : length pre' ≡ length pre + length a = length-append pre a in
    let size'' : length pre'' ≡ length pre' + length b = length-append pre' b in
    let at_end : length pre'' + length l ≡ end_ =
      omega (arith, size_all, size_rest, size', size'') in
    let positive = put_uleb-nonempty 10 offset (omega arith) in
    let read : read_uleb128 buf (length pre) end_ ≡ ok (offset, length pre') =
      rw (first, size')
        (read_uleb128-uleb offset pre (b ++ (l ++ rest)) end_ h.0.0 (omega arith)) in
    let read' : read_uleb128 buf (length pre') end_ ≡ ok (size, length pre'') =
      rw (second, size'') (read_uleb128-uleb size pre' (l ++ rest) end_ h.0.1 (omega arith)) in
    let again : ranges_loop f buf (length pre'') end_ ≡ some (some rs) =
      rw (third, ← at_end) (ranges_loop-put rs f pre'' rest h.1 (omega arith)) in
    ranges_step f buf (length pre) end_ offset size (length pre') (length pre'') rs (omega arith)
      read read' again
