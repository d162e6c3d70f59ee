-- ===== src/HeapQueue/Array.antt =====
-- Reads and swaps by index, with a default for an index that is out of range.
use mathlib.Core.List.{Perm}
use mathlib.Core.List.Perm
use discord_ext_voice_recv.Base.{
  ℕ, zero, suc, ◌<◌, ◌≡◌, refl, List, [], ◌∷◌, ◌++◌, arith, ◌==◌, if◌then◌else◌, length, set,
  length-set,
}

module _ {ℓ} {A : Type ℓ} (d : A) where
  unfoldable pub at : List A → ℕ → A
  at [] i = d
  at (x ∷ l) zero = x
  at (x ∷ l) (suc i) = at l i

  unfoldable pub swap : List A → ℕ → ℕ → List A
  swap l i j = set (set l i (at l j)) j (at l i)

  pub at-set :
      (l : List A) (i j : ℕ) (v : A)
      → i < length l
      → at (set l i v) j ≡ (if i == j then v else at l j)
  unfolding at
  at-set [] i j v h = absurd (omega arith)
  at-set (x ∷ l) zero zero v h = refl
  at-set (x ∷ l) (suc i) (suc j) v h = ground (arith, at-set l i j v)
  at-set (x ∷ l) i j v h = ground arith

  pub at-append : (l r : List A) (i : ℕ) → i < length l → at (l ++ r) i ≡ at l i
  unfolding at
  at-append [] r i h = absurd (omega arith)
  at-append (x ∷ l) r zero h = refl
  at-append (x ∷ l) r (suc i) h = at-append l r i (omega arith)

  set-perm : (l : List A) (i : ℕ) (v : A) → i < length l → Perm (at l i ∷ set l i v) (v ∷ l)
  unfolding at
  set-perm [] i v h = absurd (omega arith)
  set-perm (x ∷ l) zero v h = Perm.swap v x l
  set-perm (x ∷ l) (suc i) v h =
      Perm.trans (Perm.swap x _ _)
        (Perm.trans (Perm.cons x (set-perm l i v (omega arith))) (Perm.swap v x l))

  pub length-swap : (l : List A) (i j : ℕ) → length (swap l i j) ≡ length l
  unfolding swap
  length-swap l i j = simp length-set

  module _ (l : List A) (i j : ℕ) (hi : i < length l) (hj : j < length l) where
    pub at-swap :
        (c : ℕ) → at (swap l i j) c ≡ (if j == c then at l i else if i == c then at l j else at l c)
    unfolding swap
    at-swap c =
        rw (at-set (set l i (at l j)) j c (at l i) (rw length-set hj), at-set l i c (at l j) hi)

    pub swap-perm : Perm (swap l i j) l
    unfolding swap
    swap-perm =
        let m = set l i (at l j) in
        let same : at m j ≡ at l j = ground (arith, at-set l i j (at l j)) in
        Perm.cons_inv (
          Perm.trans (rw same at (set-perm m j (at l i) (rw length-set hj)))
            (set-perm l i (at l j) hi))
