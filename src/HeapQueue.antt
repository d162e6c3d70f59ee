-- ===== src/HeapQueue.antt =====
-- The parts of Python's heapq and of `sorted` that buffer.py calls: a binary heap in a list, over
-- the comparison `lt` of its items, which need be no order. Where the standard library moves a
-- hole, the model swaps: the lists agree when a call returns.
pub mod Array
pub mod Contents
pub mod Order
use discord_ext_voice_recv.Base.{
  ℕ, zero, suc, ◌+◌, ◌-◌, ◌*◌, ◌/◌, Bool, true, false, ◌&&◌, not, Option, none, some, List, [], ◌∷◌,
  ◌++◌, ltb, if◌then◌else◌, length, set,
}
use Array.{at, swap}

abbrev pub parent : ℕ → ℕ
parent i = (i - 1) / 2

module _ {ℓ} {A : Type ℓ} (lt : A → A → Bool) where
  -- The child that `_siftup` follows: the right one if it exists and the left one is not below it.
  unfoldable pub smaller_child : A → List A → ℕ → ℕ
  smaller_child d l i =
      if ltb (2 * i + 2) (length l) && not (lt (at d l (2 * i + 1)) (at d l (2 * i + 2)))
      then 2 * i + 2
      else 2 * i + 1

  -- `_siftdown(heap, 0, i)`, with fuel beyond i.
  unfoldable pub sift_down : ℕ → A → List A → ℕ → List A
  sift_down zero d l i = l
  sift_down (suc f) d l i =
      let rest = sift_down f d (swap d l i (parent i)) (parent i) in
      if ltb 0 i && lt (at d l i) (at d l (parent i)) then rest else l

  -- `_siftup(heap, i)`, with fuel beyond length l - i.
  unfoldable pub sift_up : ℕ → A → List A → ℕ → List A
  sift_up zero d l i = l
  sift_up (suc f) d l i =
      let m = smaller_child d l i in
      let rest = sift_up f d (swap d l i m) m in
      let last = sift_down (i + 1) d l i in if ltb (2 * i + 1) (length l) then rest else last

  unfoldable pub heappush : List A → A → List A
  heappush l x = sift_down (length l + 1) x (l ++ x ∷ []) (length l)

  -- `l.pop()` on x ∷ l: the last item, and the list without it.
  unfoldable pub split_last : A → List A → List A × A
  split_last x [] = ([], x)
  split_last x (y ∷ l) = let (front, z) = split_last y l in (x ∷ front, z)

  unfoldable pub replace_root : List A → A → A × List A
  replace_root [] z = (z, [])
  replace_root (x ∷ front) z = (x, sift_up (length front + 2) z (z ∷ front) 0)

  -- `none` is the IndexError of the empty heap.
  unfoldable pub heappop : List A → Option (A × List A)
  unfolding split_last replace_root
  heappop [] = none
  heappop (x ∷ l) = let (front, z) = split_last x l in some (replace_root front z)

  -- `sorted`: a stable sort; a new item goes behind those that it is not below.
  unfoldable pub insort : A → List A → List A
  insort x [] = x ∷ []
  insort x (y ∷ l) = let rest = insort x l in if lt x y then x ∷ y ∷ l else y ∷ rest

  sort_onto : List A → List A → List A
  sort_onto acc [] = acc
  sort_onto acc (x ∷ l) = sort_onto (insort x acc) l

  unfoldable pub sorted : List A → List A
  unfolding sort_onto insort
  sorted l = sort_onto [] l
