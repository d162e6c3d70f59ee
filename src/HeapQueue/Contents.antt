-- ===== src/HeapQueue/Contents.antt =====
-- What the heap holds: the operations only permute, whatever the comparison answers.
use mathlib.Core.Logic.{∥∥₁_elim}
use native.Mathlib.Nat.{ℕ_set}
use mathlib.Core.HLevel.{×_prop, Unit-prop}
use discord_ext_voice_recv.Base.{All, subst}
use discord_ext_voice_recv.Base.{◌∙◌}
use mathlib.Core.List.{Perm, Permᴰ, append-nil, perm_middle}
use mathlib.Core.List.Perm
use discord_ext_voice_recv.Base.{
  ℕ, zero, suc, ◌+◌, ◌*◌, ◌<◌, ◌≡◌, refl, ap, Bool, ◌&&◌, List, [], ◌∷◌, ◌++◌, some, arith, ltb,
  length, length-append, Bool-cases, inl, inr,
}
use discord_ext_voice_recv.HeapQueue.Array.{at, swap, length-swap, swap-perm}
use discord_ext_voice_recv.HeapQueue.{
  parent, smaller_child, sift_down, sift_up, heappush, heappop, split_last, replace_root, insort,
  sorted, sort_onto,
}

pub concat-perm {ℓ} : {A : Type ℓ} (l : List A) (x : A) → Perm (l ++ x ∷ []) (x ∷ l)
concat-perm l x = rw (append-nil l) at (perm_middle {a = x} l [])

Permᴰ-length {ℓ} : {A : Type ℓ} {l r : List A} → Permᴰ l r → length l ≡ length r
Permᴰ-length (Permᴰ.trans first then_) = Permᴰ-length first ∙ Permᴰ-length then_
Permᴰ-length (Permᴰ.swap _ _) = refl
Permᴰ-length (Permᴰ.cons _ rest) = ap suc (Permᴰ-length rest)
Permᴰ-length Permᴰ.nil = refl

pub length-perm {ℓ} : {A : Type ℓ} {l r : List A} → Perm l r → length l ≡ length r
length-perm p = ∥∥₁_elim p (ℕ_set _ _) Permᴰ-length

module _ {ℓ} {A : Type ℓ} (Q : A → Type 0) where
  All-permᴰ : {l r : List A} → Permᴰ l r → All Q l → All Q r
  All-permᴰ Permᴰ.nil h = h
  All-permᴰ (Permᴰ.cons e p) h = (subst Q e h.0, All-permᴰ p h.1)
  All-permᴰ (Permᴰ.swap e f) h = (subst Q f h.1.0, (subst Q e h.0, h.1.1))
  All-permᴰ (Permᴰ.trans p q) h = All-permᴰ q (All-permᴰ p h)

  All-prop : ((a : A) → IsProp (Q a)) → (l : List A) → IsProp (All Q l)
  All-prop q [] = Unit-prop
  All-prop q (x ∷ l) = ×_prop (q x) (All-prop q l)

  pub All-perm : ((a : A) → IsProp (Q a)) → {l r : List A} → Perm l r → All Q l → All Q r
  All-perm q {r} p h = ∥∥₁_elim p (All-prop q r) (λ e. All-permᴰ e h)

module _ {ℓ} {A : Type ℓ} (lt : A → A → Bool) where
  pub smaller_child-lt :
      (d : A) (l : List A) (i : ℕ) → 2 * i + 1 < length l → smaller_child lt d l i < length l
  unfolding smaller_child
  smaller_child-lt d l i h = ground arith

  pub sift_down-perm :
      (f : ℕ) (d : A) (l : List A) (i : ℕ) → i < length l → Perm (sift_down lt f d l i) l
  unfolding sift_down
  sift_down-perm zero d l i h = Perm.refl l
  sift_down-perm (suc f) d l i h =
      elim (Bool-cases (ltb 0 i && lt (at d l i) (at d l (parent i)))) [
        | inl up ↦
            let above : parent i < length l = omega arith in
            rw up (
              Perm.trans
                (sift_down-perm f d (swap d l i (parent i)) (parent i) (rw length-swap above))
                (swap-perm d l i (parent i) h above))
        | inr stay ↦ rw stay (Perm.refl l)
      ]

  pub sift_up-perm :
      (f : ℕ) (d : A) (l : List A) (i : ℕ) → i < length l → Perm (sift_up lt f d l i) l
  unfolding sift_up
  sift_up-perm zero d l i h = Perm.refl l
  sift_up-perm (suc f) d l i h = elim (Bool-cases (ltb (2 * i + 1) (length l))) [
    | inl more ↦
        let m = smaller_child lt d l i in
        let inside : m < length l = smaller_child-lt d l i (ground arith) in
        rw more (
          Perm.trans (sift_up-perm f d (swap d l i m) m (rw length-swap inside))
            (swap-perm d l i m h inside))
    | inr leaf ↦ rw leaf (sift_down-perm (i + 1) d l i h)
  ]

  pub heappush-perm : (l : List A) (x : A) → Perm (heappush lt l x) (x ∷ l)
  unfolding heappush
  heappush-perm l x =
      Perm.trans
        (sift_down-perm (length l + 1) x (l ++ x ∷ []) (length l)
          (omega (arith, length-append l (x ∷ []))))
        (concat-perm l x)

  pub split_last-eq :
      (x : A) (l : List A) → (split_last lt x l).0 ++ (split_last lt x l).1 ∷ [] ≡ x ∷ l
  unfolding split_last
  split_last-eq x [] = refl
  split_last-eq x (y ∷ l) = ap (◌∷◌ x) (split_last-eq y l)

  replace_root-perm :
      (front : List A) (z : A)
      → Perm ((replace_root lt front z).0 ∷ (replace_root lt front z).1) (z ∷ front)
  unfolding replace_root
  replace_root-perm [] z = Perm.refl (z ∷ [])
  replace_root-perm (x ∷ front) z =
      Perm.trans (Perm.cons x (sift_up-perm (length front + 2) z (z ∷ front) 0 (omega arith)))
        (Perm.swap z x front)

  -- `heappop` fails on the empty heap only; otherwise it returns the root and keeps the rest.
  pub heappop-perm :
      (x : A) (l : List A)
      → (r : List A) × (heappop lt (x ∷ l) ≡ some (x, r)) × Perm (x ∷ r) (x ∷ l)
  unfolding heappop split_last
  heappop-perm x [] = ([], refl, Perm.refl (x ∷ []))
  heappop-perm x (y ∷ l) =
      let front = (split_last lt y l).0 in
      let z = (split_last lt y l).1 in
      (
        (replace_root lt (x ∷ front) z).1,
        refl,
        Perm.trans (replace_root-perm (x ∷ front) z) (
            Perm.trans (Perm.symm (concat-perm (x ∷ front) z))
              (Perm.cons x (rw (split_last-eq y l) (Perm.refl (y ∷ l))))),
      )

  -- No item is lost or made up by a push, and a push adds one.
  pub length-heappush : (l : List A) (x : A) → length (heappush lt l x) ≡ length l + 1
  length-heappush l x = omega (arith, length-perm (heappush-perm l x))

  insort-perm : (x : A) (l : List A) → Perm (insort lt x l) (x ∷ l)
  unfolding insort
  insort-perm x [] = Perm.refl (x ∷ [])
  insort-perm x (y ∷ l) = elim (Bool-cases (lt x y)) [
    | inl below ↦ rw below (Perm.refl (x ∷ y ∷ l))
    | inr not_below ↦ rw not_below (Perm.trans (Perm.cons y (insort-perm x l)) (Perm.swap x y l))
  ]

  sort_onto-perm : (acc l : List A) → Perm (sort_onto lt acc l) (acc ++ l)
  unfolding sort_onto
  sort_onto-perm acc [] = rw (append-nil acc) (Perm.refl acc)
  sort_onto-perm acc (x ∷ l) =
      Perm.trans (sort_onto-perm (insort lt x acc) l)
        (Perm.trans (Perm.append_right l (insort-perm x acc)) (Perm.symm (perm_middle acc l)))

  pub sorted-perm : (l : List A) → Perm (sorted lt l) l
  unfolding sorted
  sorted-perm l = sort_onto-perm [] l
