-- ===== src/HeapQueue/Order.antt =====
-- The heap order, over items on which the comparison agrees with a number.
pub mod Queue
pub mod Sort
use discord_ext_voice_recv.Base.{
  ℕ, zero, suc, ◌+◌, ◌-◌, ◌*◌, ◌/◌, ◌≤◌, ◌<◌, ◌≡◌, ◌≢◌, ◌⊎◌, refl, sym, ap, Bool, ◌&&◌, not, List,
  [], ◌∷◌, ◌++◌, some, arith, if◌then◌else◌, ltb, length, length-append, Bool-cases, inl, inr, set,
  All, All-append, true, false,
}
use discord_ext_voice_recv.HeapQueue.Array.{at, swap, length-swap, at-swap, at-append}
use discord_ext_voice_recv.HeapQueue.Contents.{smaller_child-lt, split_last-eq}
use discord_ext_voice_recv.HeapQueue.{
  parent, smaller_child, sift_down, sift_up, heappush, heappop, split_last, replace_root,
}

module _ {ℓ} {A : Type ℓ} (P : A → Type 0) where
  pub All-at : (d : A) (l : List A) (i : ℕ) → All P l → i < length l → P (at d l i)
  unfolding at
  All-at d [] i h p = absurd (omega arith)
  All-at d (x ∷ l) zero h p = h.0
  All-at d (x ∷ l) (suc i) h p = All-at d l i h.1 (omega arith)

  pub All-set : (l : List A) (i : ℕ) (v : A) → All P l → P v → All P (set l i v)
  All-set [] i v h p = h
  All-set (x ∷ l) zero v h p = (p, h.1)
  All-set (x ∷ l) (suc i) v h p = (h.0, All-set l i v h.1 p)

  pub All-swap :
      (d : A) (l : List A) (i j : ℕ) → i < length l → j < length l → All P l → All P (swap d l i j)
  unfolding swap
  All-swap d l i j hi hj h =
      All-set (set l i (at d l j)) j (at d l i) (All-set l i (at d l j) h (All-at d l j h hj))
        (All-at d l i h hi)

module _ {ℓ} {A : Type ℓ} (key : A → ℕ) where
  -- Every item but the root is at least its parent.
  abbrev pub IsHeapAt : A → List A → Type 0
  IsHeapAt d l = (c : ℕ) → 0 < c → c < length l → key (at d l (parent c)) ≤ key (at d l c)

  root_least_below :
      (k : ℕ) (d : A) (l : List A) (i : ℕ)
      → IsHeapAt d l
      → i < k
      → i < length l
      → key (at d l 0) ≤ key (at d l i)
  root_least_below zero d l i h f p = absurd (omega arith)
  root_least_below (suc k) d l i h f p = ground (arith, h i, root_least_below k d l (parent i) h)

  pub root_least :
      (d : A) (l : List A) (i : ℕ) → IsHeapAt d l → i < length l → key (at d l 0) ≤ key (at d l i)
  root_least d l i h p = root_least_below (suc i) d l i h (omega arith) p

  -- Only the edge above i may be out of order; the children of i are in order with its parent.
  pub record Rising (d : A) (l : List A) (i : ℕ) : Type 0 where
    pub edges : (c : ℕ) → 0 < c → c < length l → c ≢ i → key (at d l (parent c)) ≤ key (at d l c)
    pub bridged :
        (c : ℕ)
        → 0 < c
        → c < length l
        → parent c ≡ i
        → 0 < i
        → key (at d l (parent i)) ≤ key (at d l c)

  -- Only the edges at i may be out of order; the children of i are in order with its parent.
  pub record Sinking (d : A) (l : List A) (i : ℕ) : Type 0 where
    pub edges :
        (c : ℕ)
        → 0 < c
        → c < length l
        → c ≢ i
        → parent c ≢ i
        → key (at d l (parent c)) ≤ key (at d l c)
    pub bridged :
        (c : ℕ)
        → 0 < c
        → c < length l
        → parent c ≡ i
        → 0 < i
        → key (at d l (parent i)) ≤ key (at d l c)

  rise-Rising :
      (d : A) (l : List A) (i : ℕ)
      → Rising d l i
      → 0 < i
      → i < length l
      → key (at d l i) < key (at d l (parent i))
      → Rising d (swap d l i (parent i)) (parent i)
  rise-Rising d l i v p hi below =
      let size = length-swap d l i (parent i) in
      let read = at-swap d l i (parent i) hi (omega arith) in
      record {
        edges = λ c q r n. ground (arith, size, read c, read (parent c), v.edges c, v.bridged c);
        bridged = λ c q r e n.
            ground (arith, size, read c, read (parent (parent i)), v.edges c, v.edges (parent i));
      }

  sink-Sinking :
      (d : A) (l : List A) (i m : ℕ)
      → Sinking d l i
      → i < length l
      → m < length l
      → (m ≡ 2 * i + 1) ⊎ (m ≡ 2 * i + 2)
      → ((c : ℕ) → 0 < c → c < length l → parent c ≡ i → key (at d l m) ≤ key (at d l c))
      → Sinking d (swap d l i m) m
  sink-Sinking d l i m v hi hm child least =
      let size = length-swap d l i m in
      let read = at-swap d l i m hi hm in
      record {
        edges = λ c q r n o.
            ground (arith, size, read c, read (parent c), v.edges c, v.bridged m, least c);
        bridged = λ c q r e n. ground (arith, size, read c, read (parent m), v.edges c);
      }

  module _ (lt : A → A → Bool) (P : A → Type 0)
      (agree : (a b : A) → P a → P b → lt a b ≡ ltb (key a) (key b)) where
    smaller_child-least :
        (d : A) (l : List A) (i : ℕ)
        → All P l
        → 2 * i + 1 < length l
        → ((smaller_child lt d l i ≡ 2 * i + 1) ⊎ (smaller_child lt d l i ≡ 2 * i + 2))
          × ((c : ℕ)
              → 0 < c
              → c < length l
              → parent c ≡ i
              → key (at d l (smaller_child lt d l i)) ≤ key (at d l c))
    unfolding smaller_child
    smaller_child-least d l i h more =
        let left = All-at P d l (2 * i + 1) h more in
        (
          ground arith,
          λ c q r e.
              let side : (c ≡ 2 * i + 1) ⊎ (c ≡ 2 * i + 2) = omega arith in
              ground (
                arith,
                All-at P d l (2 * i + 2) h,
                agree (at d l (2 * i + 1)) (at d l (2 * i + 2)) left,
              ),
        )

    pub sift_down-IsHeapAt :
        (f : ℕ) (d : A) (l : List A) (i : ℕ)
        → i < f
        → i < length l
        → All P l
        → Rising d l i
        → IsHeapAt d (sift_down lt f d l i)
    unfolding sift_down
    sift_down-IsHeapAt zero d l i f p h v = absurd (omega arith)
    sift_down-IsHeapAt (suc k) d l i f p h v =
        let above : parent i < length l = omega arith in
        let says =
          agree (at d l i) (at d l (parent i)) (All-at P d l i h p)
            (All-at P d l (parent i) h above) in
        elim (Bool-cases (ltb 0 i && lt (at d l i) (at d l (parent i)))) [
          | inl up ↦ rw up (
              sift_down-IsHeapAt k d (swap d l i (parent i)) (parent i) (ground arith)
                (rw length-swap above) (All-swap P d l i (parent i) p above h)
                (rise-Rising d l i v (ground arith) p (ground (arith, says))))
          | inr stay ↦ rw stay (λ c q r. ground (arith, says, v.edges c))
        ]

    pub sift_up-IsHeapAt :
        (f : ℕ) (d : A) (l : List A) (i : ℕ)
        → length l - i < f
        → i < length l
        → All P l
        → Sinking d l i
        → IsHeapAt d (sift_up lt f d l i)
    unfolding sift_up
    sift_up-IsHeapAt zero d l i f p h v = absurd (omega arith)
    sift_up-IsHeapAt (suc k) d l i f p h v = elim (Bool-cases (ltb (2 * i + 1) (length l))) [
      | inl more ↦
          let m = smaller_child lt d l i in
          let inside : m < length l = smaller_child-lt lt d l i (ground arith) in
          let (child, least) = smaller_child-least d l i h (ground arith) in
          rw more (
            sift_up-IsHeapAt k d (swap d l i m) m (omega (arith, length-swap d l i m))
              (rw length-swap inside) (All-swap P d l i m p inside h)
              (sink-Sinking d l i m v p inside child least))
      | inr leaf ↦ rw leaf (
          sift_down-IsHeapAt (i + 1) d l i (omega arith) p h
            (record { edges = λ c q r n. ground (arith, v.edges c); bridged = v.bridged }))
    ]
