-- ===== src/HeapQueue/Order/Queue.antt =====
-- `heappush` and `heappop` keep the heap order, and the item that is popped is the least.
use discord_ext_voice_recv.Base.{
  ℕ, zero, suc, ◌+◌, ◌*◌, ◌≤◌, ◌<◌, ◌≡◌, refl, sym, Bool, ◌&&◌, List, [], ◌∷◌, ◌++◌, some, arith,
  ltb, length, length-append, Bool-cases, inl, inr, All, All-append,
}
use discord_ext_voice_recv.HeapQueue.Array.{at, swap, length-swap, at-append}
use discord_ext_voice_recv.HeapQueue.Contents.{smaller_child-lt, split_last-eq}
use discord_ext_voice_recv.HeapQueue.Order.{
  IsHeapAt, root_least, sift_down-IsHeapAt, sift_up-IsHeapAt, All-swap,
}
use discord_ext_voice_recv.HeapQueue.{
  parent, smaller_child, sift_down, sift_up, heappush, heappop, split_last,
}

at_default {ℓ} : {A : Type ℓ} (d e : A) (l : List A) (i : ℕ) → i < length l → at d l i ≡ at e l i
unfolding at
at_default d e [] i h = absurd (omega arith)
at_default d e (x ∷ l) zero h = refl
at_default d e (x ∷ l) (suc i) h = at_default d e l i (omega arith)

-- Behind the root the new list reads as the old one did.
at_behind {ℓ} :
    {A : Type ℓ} (x : A) (front : List A) (z : A) (c : ℕ)
    → 0 < c
    → c < suc (length front)
    → at z (z ∷ front) c ≡ at z (x ∷ (front ++ z ∷ [])) c
unfolding at
at_behind x front z zero p q = absurd (omega arith)
at_behind x front z (suc c) p q = sym (at-append z front (z ∷ []) c (omega arith))

All-front {ℓ} :
    {A : Type ℓ} (P : A → Type 0) (l : List A) (z : A) → All P (l ++ z ∷ []) → All P l × P z
All-front P [] z h = (tt, h.0)
All-front P (x ∷ l) z h = let (front, last) = All-front P l z h.1 in ((h.0, front), last)

module _ {ℓ} {A : Type ℓ} (lt : A → A → Bool) (P : A → Type 0) where
  sift_down-All :
      (f : ℕ) (d : A) (l : List A) (i : ℕ) → i < length l → All P l → All P (sift_down lt f d l i)
  unfolding sift_down
  sift_down-All zero d l i p h = h
  sift_down-All (suc k) d l i p h =
      elim (Bool-cases (ltb 0 i && lt (at d l i) (at d l (parent i)))) [
        | inl up ↦
            let above : parent i < length l = omega arith in
            rw up (
              sift_down-All k d (swap d l i (parent i)) (parent i) (rw length-swap above)
                (All-swap P d l i (parent i) p above h))
        | inr stay ↦ rw stay h
      ]

  sift_up-All :
      (f : ℕ) (d : A) (l : List A) (i : ℕ) → i < length l → All P l → All P (sift_up lt f d l i)
  unfolding sift_up
  sift_up-All zero d l i p h = h
  sift_up-All (suc k) d l i p h = elim (Bool-cases (ltb (2 * i + 1) (length l))) [
    | inl more ↦
        let m = smaller_child lt d l i in
        let inside : m < length l = smaller_child-lt lt d l i (ground arith) in
        rw more
          (sift_up-All k d (swap d l i m) m (rw length-swap inside) (All-swap P d l i m p inside h))
    | inr leaf ↦ rw leaf (sift_down-All (i + 1) d l i p h)
  ]

  pub heappush-All : (l : List A) (x : A) → All P l → P x → All P (heappush lt l x)
  unfolding heappush
  heappush-All l x h p =
      sift_down-All (length l + 1) x (l ++ x ∷ []) (length l)
        (omega (arith, length-append l (x ∷ []))) (All-append P l (x ∷ []) h (p, tt))

  pub heappop-All :
      (x : A) (l : List A)
      → All P (x ∷ l)
      → (r : List A) × (heappop lt (x ∷ l) ≡ some (x, r)) × All P r
  unfolding heappop split_last
  heappop-All x [] h = ([], refl, tt)
  heappop-All x (y ∷ l) h =
      let front = (split_last lt y l).0 in
      let z = (split_last lt y l).1 in
      let (kept, last) = All-front P front z (rw (split_last-eq lt y l) h.1) in
      (
        sift_up lt (length front + 2) z (z ∷ front) 0,
        refl,
        sift_up-All (length front + 2) z (z ∷ front) 0 (omega arith) (last, kept),
      )

module _ {ℓ} {A : Type ℓ} (key : A → ℕ) (lt : A → A → Bool) (P : A → Type 0)
    (agree : (a b : A) → P a → P b → lt a b ≡ ltb (key a) (key b)) where
  abbrev pub IsHeap : List A → Type ℓ
  IsHeap l = (d : A) → IsHeapAt key d l

  IsHeapAt-IsHeap : (e : A) (l : List A) → IsHeapAt key e l → IsHeap l
  IsHeapAt-IsHeap e l h d c p q =
      ground (arith, at_default d e l c q, at_default d e l (parent c), h c p q)

  pub heappush-IsHeap : (l : List A) (x : A) → All P l → P x → IsHeap l → IsHeap (heappush lt l x)
  unfolding heappush
  heappush-IsHeap l x h p ordered =
      let r : List A = l ++ x ∷ [] in
      let size : length r ≡ length l + 1 = length-append l (x ∷ []) in
      IsHeapAt-IsHeap x (sift_down lt (length l + 1) x r (length l)) (
        sift_down-IsHeapAt key lt P agree (length l + 1) x r (length l) (omega arith) (omega arith)
          (All-append P l (x ∷ []) h (p, tt))
          (record {
            edges = λ c q u n. ground (
              arith,
              size,
              at-append x l (x ∷ []) c,
              at-append x l (x ∷ []) (parent c),
              ordered x c,
            );
            bridged = λ c q u e n. absurd (omega arith);
          }))

  replace_root-IsHeap :
      (x : A) (front : List A) (z : A)
      → All P front
      → P z
      → IsHeap (x ∷ (front ++ z ∷ []))
      → IsHeap (sift_up lt (length front + 2) z (z ∷ front) 0)
  replace_root-IsHeap x front z h p ordered =
      let size = length-append front (z ∷ []) in
      IsHeapAt-IsHeap z (sift_up lt (length front + 2) z (z ∷ front) 0) (
        sift_up-IsHeapAt key lt P agree (length front + 2) z (z ∷ front) 0 (omega arith)
          (omega arith) (p, h)
          (record {
            edges = λ c q u n o.
                ground
                  (arith, size, at_behind x front z c, at_behind x front z (parent c), ordered z c);
            bridged = λ c q u e n. absurd (omega arith);
          }))

  -- A heap pops its least item, and the rest is a heap again.
  pub heappop-IsHeap :
      (x : A) (l : List A)
      → All P (x ∷ l)
      → IsHeap (x ∷ l)
      → (r : List A) × (heappop lt (x ∷ l) ≡ some (x, r)) × IsHeap r × All P r
  unfolding heappop split_last
  heappop-IsHeap x [] h ordered = ([], refl, λ d c p q. absurd (omega arith), tt)
  heappop-IsHeap x (y ∷ l) h ordered =
      let front = (split_last lt y l).0 in
      let z = (split_last lt y l).1 in
      let whole = split_last-eq lt y l in
      let (kept, last) = All-front P front z (rw whole h.1) in
      (
        sift_up lt (length front + 2) z (z ∷ front) 0,
        refl,
        replace_root-IsHeap x front z kept last (rw whole ordered),
        sift_up-All lt P (length front + 2) z (z ∷ front) 0 (omega arith) (last, kept),
      )

All-of_at {ℓ} :
    {A : Type ℓ} (Q : A → Type 0) (d : A) (l : List A)
    → ((i : ℕ) → i < length l → Q (at d l i))
    → All Q l
unfolding at
All-of_at Q d [] h = tt
All-of_at Q d (x ∷ l) h = (h 0 (omega arith), All-of_at Q d l (λ i p. h (suc i) (omega arith)))

-- No item of a heap is below its root.
pub root_least-All {ℓ} :
    {A : Type ℓ} (key : A → ℕ) (x : A) (l : List A)
    → IsHeapAt key x (x ∷ l)
    → All (λ y. key x ≤ key y) l
unfolding at
root_least-All key x l h =
    All-of_at (λ y. key x ≤ key y) x l (λ i p. root_least key x (x ∷ l) (suc i) h (omega arith))
