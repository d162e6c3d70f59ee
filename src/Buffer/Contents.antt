-- ===== src/Buffer/Contents.antt =====
-- What the buffer holds: which packets a push refuses, and that none is lost but the one that a
-- full buffer gives up.
use mathlib.Core.List.{Perm}
use mathlib.Core.List.Perm
use discord_ext_voice_recv.Base.{
  ℕ, zero, suc, ◌+◌, ◌-◌, ◌%◌, ◌≤◌, ◌<◌, ◌≡◌, ◌≢◌, inl, inr, true, false, List, [], ◌∷◌, ◌++◌,
  arith, ltb, if◌then◌else◌, length, Bool-cases, List-cases, ◌↔◌,
}
use discord_ext_voice_recv.Base.Int.{pos}
use discord_ext_voice_recv.HeapQueue.{heappush}
use discord_ext_voice_recv.HeapQueue.Contents.{
  length-perm, heappop-perm, heappush-perm, length-heappush,
}
use discord_ext_voice_recv.Wrap.{gap_wrapped}
use discord_ext_voice_recv.Compare.{PacketCmp, before}
use discord_ext_voice_recv.Buffer.Ready.{IsValid, Is16Bit}
use discord_ext_voice_recv.Buffer.{
  Buffer, update_has_item, cleanup_loop, cleanup, is_old, insert, push,
}

module _ {ℓ} {A : Type ℓ} ⦃c : PacketCmp A⦄ where
  pub items-update_has_item : (b : Buffer A) → (update_has_item b).items ≡ b.items
  unfolding update_has_item
  items-update_has_item b = elim (List-cases b.items) [
    | inl e ↦ ground (arith, e)
    | inr (x, l, e) ↦ ground (arith, e)
  ]

  -- `_cleanup` takes out exactly the surplus.
  pub cleanup_loop-drops :
      (f maxsize : ℕ) (l : List A)
      → length l ≤ f
      → (dropped : List A) × Perm l (dropped ++ cleanup_loop f maxsize l)
        × (length dropped ≡ length l - maxsize)
  unfolding cleanup_loop
  cleanup_loop-drops zero m [] h = ([], Perm.refl [], omega arith)
  cleanup_loop-drops zero m (x ∷ l) h = absurd (omega arith)
  cleanup_loop-drops (suc f) m [] h = ([], ground (arith, Perm.refl {A = A} []), omega arith)
  cleanup_loop-drops (suc f) m (x ∷ l) h =
      let (r, popped, same) = heappop-perm before x l in
      let size = length-perm same in
      let (dropped, rest, count) = cleanup_loop-drops f m r (omega (arith, size)) in
      elim (Bool-cases (ltb m (length (x ∷ l)))) [
        | inl over ↦ (
          x ∷ dropped,
          rw (over, popped) (Perm.trans (Perm.symm same) (Perm.cons x rest)),
          ground (arith, count, size),
        )
        | inr fits ↦ ([], rw fits (Perm.refl (x ∷ l)), ground arith)
      ]

  pub push-new :
      (b : Buffer A) (p : A)
      → is_old b p ≡ false
      → push b p ≡ (update_has_item (cleanup (insert b p)), true)
  unfolding push
  push-new b p h = rw h

  pub push-refused : (b : Buffer A) (p : A) → is_old b p ≡ true → (push b p).1 ≢ true
  unfolding push
  push-refused b p h = λ e. ground (arith, h, e)

  -- A packet that a valid buffer takes is held from then on, together with all that was held
  -- before, except that a buffer which was full gives up exactly one packet.
  pub push-Perm :
      (b : Buffer A) (p : A)
      → IsValid b
      → (push b p).1 ≡ true
      → (dropped : List A) × Perm (p ∷ b.items) (dropped ++ (push b p).0.items)
        × (length dropped ≡ (if ltb (length b.items) b.maxsize then 0 else 1))
  push-Perm b p v e = elim (Bool-cases (is_old b p)) [
    | inl old ↦ absurd (push-refused b p old e)
    | inr new ↦
        let l : List A = heappush before b.items p in
        let (dropped, same, count) = cleanup_loop-drops (length l) b.maxsize l (omega arith) in
        let size = length-heappush before b.items p in
        (
          dropped,
          rw (push-new b p new, items-update_has_item)
              (unfold cleanup insert in
                Perm.trans (Perm.symm (heappush-perm before b.items p)) same),
          ground (arith, count, size, v.bounded),
        )
  ]

  -- A push is refused exactly when a packet has gone out already and the new one lies more than
  -- 10000 steps ahead of it on the circle of 16-bit numbers, which is to say behind it; a refused
  -- push leaves the buffer as it was.
  push-old :
      (b : Buffer A) (p : A) (n : ℕ)
      → Is16Bit p
      → n < 65536
      → b.last_tx_seq ≡ pos n
      → (((push b p).1 ≡ false) ↔ (10000 < (c.sequence p + 65535 - n) % 65536))
        × ((push b p).1 ≡ false → (push b p).0 ≡ b)
  unfolding push is_old gap_wrapped
  push-old b p n s h e = ground (arith, e)
