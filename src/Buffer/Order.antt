-- ===== src/Buffer/Order.antt =====
-- The order in which the buffer hands out the packets of one stream before a rollover.
use mathlib.Core.List.{Perm}
use mathlib.Core.List.Perm
use native.Mathlib.Bridge.{le_prop}
use discord_ext_voice_recv.Base.{
  ℕ, zero, suc, ◌≤◌, ◌≡◌, refl, subst, inl, inr, true, Option, some, List, [], ◌∷◌, ◌++◌, arith,
  ltb, length, All, Bool-cases,
}
use discord_ext_voice_recv.HeapQueue.{heappush, heappop}
use discord_ext_voice_recv.HeapQueue.Contents.{heappop-perm, All-perm, sorted-perm, heappush-perm}
use discord_ext_voice_recv.HeapQueue.Order.{IsHeapAt}
use discord_ext_voice_recv.HeapQueue.Order.Queue.{
  heappush-All, heappush-IsHeap, heappop-IsHeap, root_least-All,
}
use discord_ext_voice_recv.HeapQueue.Order.Sort.{IsAscending, sorted-IsAscending}
use discord_ext_voice_recv.Compare.{PacketCmp, before}
use discord_ext_voice_recv.Compare.Order.{StreamClock, OnStream, before-ltb}
use discord_ext_voice_recv.Buffer.Ready.{IsValid, Pops, waits, takes, pop-Pops}
use discord_ext_voice_recv.Buffer.Contents.{items-update_has_item, push-new, push-refused}
use discord_ext_voice_recv.Buffer.{Buffer, cleanup_loop, cleanup, is_old, insert, push, pop, flush}

All-back {ℓ} : {A : Type ℓ} (Q : A → Type 0) (l r : List A) → All Q (l ++ r) → All Q r
All-back Q [] r h = h
All-back Q (x ∷ l) r h = All-back Q l r h.1

module _ {ℓ} {A : Type ℓ} ⦃c : PacketCmp A⦄ (s : StreamClock) (x : ℕ) where
  -- The items belong to the stream and are in heap order.
  pub record Ordered (l : List A) : Type ℓ where
    pub stream : All (OnStream s x) l
    pub heap : (d : A) → IsHeapAt c.sequence d l

  -- No packet of the list is before p.
  abbrev pub Precedes : A → List A → Type 0
  Precedes p = All (λ q. c.sequence p ≤ c.sequence q)

  heappush-Ordered :
      (l : List A) (p : A) → Ordered l → OnStream s x p → Ordered (heappush before l p)
  heappush-Ordered l p o h = record {
    stream = heappush-All before (OnStream s x) l p o.stream h;
    heap = heappush-IsHeap c.sequence before (OnStream s x) (before-ltb s x) l p o.stream h o.heap;
  }

  heappop-Ordered :
      (p : A) (l : List A)
      → Ordered (p ∷ l)
      → (r : List A) × (heappop before (p ∷ l) ≡ some (p, r))
        × Ordered r
        × Precedes p r
        × Perm (p ∷ l) (p ∷ r)
  heappop-Ordered p l o =
      let (r, popped, heap, stream) =
        heappop-IsHeap c.sequence before (OnStream s x) (before-ltb s x) p l o.stream o.heap in
      let (r', popped', same) = heappop-perm before p l in
      let eq' : r' ≡ r = ground (arith, popped, popped') in
      let same' : Perm (p ∷ r) (p ∷ l) = subst (λ (t : List A). Perm (p ∷ t) (p ∷ l)) eq' same in
      (
        r,
        popped,
        record { stream = stream; heap = heap },
        All-perm (λ q. c.sequence p ≤ c.sequence q) (λ q. le_prop) (Perm.symm (Perm.cons_inv same'))
            (root_least-All c.sequence p l (o.heap p)),
        Perm.symm same',
      )

  cleanup_loop-Ordered :
      (f maxsize : ℕ) (l : List A)
      → Ordered l
      → (dropped : List A) × Perm l (dropped ++ cleanup_loop f maxsize l)
        × All (λ d. Precedes d (cleanup_loop f maxsize l)) dropped
        × Ordered (cleanup_loop f maxsize l)
  unfolding cleanup_loop
  cleanup_loop-Ordered zero m l o = ([], Perm.refl l, tt, o)
  cleanup_loop-Ordered (suc f) m [] o = elim (Bool-cases (ltb m 0)) [
    | inl over ↦ absurd (ground arith)
    | inr fits ↦ rw fits ([], Perm.refl [], tt, o)
  ]
  cleanup_loop-Ordered (suc f) m (p ∷ l) o = elim (Bool-cases (ltb m (length (p ∷ l)))) [
    | inl over ↦
        let (r, popped, o', first, same) = heappop-Ordered p l o in
        let (dropped, rest, older, o'') = cleanup_loop-Ordered f m r o' in
        let least =
          All-back (λ q. c.sequence p ≤ c.sequence q) dropped (cleanup_loop f m r)
            (All-perm (λ q. c.sequence p ≤ c.sequence q) (λ q. le_prop) rest first) in
        rw (over, popped) (p ∷ dropped, Perm.trans same (Perm.cons p rest), (least, older), o'')
    | inr fits ↦ rw fits ([], Perm.refl (p ∷ l), tt, o)
  ]

  -- On one stream before a rollover a push keeps the heap order, and the packets that it gives up
  -- are not after any that it keeps: what a full buffer drops is the oldest it has.
  pub push-drops_oldest :
      (b : Buffer A) (p : A)
      → OnStream s x p
      → Ordered b.items
      → (push b p).1 ≡ true
      → (dropped : List A) × Perm (p ∷ b.items) (dropped ++ (push b p).0.items)
        × All (λ d. Precedes d (push b p).0.items) dropped
        × Ordered (push b p).0.items
  push-drops_oldest b p h o e = elim (Bool-cases (is_old b p)) [
    | inl old ↦ absurd (push-refused b p old e)
    | inr new ↦
        let l : List A = heappush before b.items p in
        let (dropped, same, older, o') =
          cleanup_loop-Ordered (length l) b.maxsize l (heappush-Ordered b.items p o h) in
        rw (push-new b p new, items-update_has_item)
          (unfold cleanup insert in
            (dropped, Perm.trans (Perm.symm (heappush-perm before b.items p)) same, older, o'))
  ]

  Pops-least :
      (b : Buffer A) (o : Buffer A × Option A) (p : A)
      → Pops b o
      → Ordered b.items
      → o.1 ≡ some p
      → Perm b.items (p ∷ o.0.items) × Precedes p o.0.items × Ordered o.0.items
  Pops-least b _ p (waits _) o e = cc
  Pops-least b _ p (takes q l r ready e popped) o e' =
      let (r', popped', o', first, same) = heappop-Ordered q l (subst Ordered e o) in
      let same_rest : r' ≡ r = ground (arith, popped, popped') in
      let same_root : q ≡ p = ground (arith, e') in
      rw (items-update_has_item, e, ← same_rest, ← same_root) (same, first, o')

  -- On one stream before a rollover, the packet that a valid buffer pops has the least sequence
  -- number of all that it held; the others stay, in heap order.
  pub pop-least :
      (b : Buffer A) (p : A)
      → IsValid b
      → Ordered b.items
      → (pop b).1 ≡ some p
      → Perm b.items (p ∷ (pop b).0.items) × Precedes p (pop b).0.items × Ordered (pop b).0.items
  pop-least b p v o e = Pops-least b (pop b) p (pop-Pops b v) o e

  -- A flush hands out everything that is held, in the order of the sequence numbers on one stream
  -- before a rollover, and leaves the buffer empty.
  pub flush-IsAscending :
      (b : Buffer A)
      → All (OnStream s x) b.items
      → IsAscending c.sequence (flush b).1 × Perm (flush b).1 b.items × ((flush b).0.items ≡ [])
  unfolding flush
  flush-IsAscending b h = (
    sorted-IsAscending c.sequence before (OnStream s x) (before-ltb s x) b.items h,
    sorted-perm before b.items,
    refl,
  )
