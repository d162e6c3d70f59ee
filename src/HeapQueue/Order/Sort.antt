-- ===== src/HeapQueue/Order/Sort.antt =====
-- `sorted` puts the items in the order of their numbers.
use discord_ext_voice_recv.Base.{
  ℕ, ◌≤◌, ◌≡◌, Bool, List, [], ◌∷◌, arith, ltb, Bool-cases, inl, inr, All,
}
use discord_ext_voice_recv.HeapQueue.{insort, sort_onto, sorted}

module _ {ℓ} {A : Type ℓ} (lt : A → A → Bool) (Q : A → Type 0) where
  insort-All : (x : A) (l : List A) → Q x → All Q l → All Q (insort lt x l)
  unfolding insort
  insort-All x [] q h = (q, tt)
  insort-All x (y ∷ l) q h = elim (Bool-cases (lt x y)) [
    | inl below ↦ rw below (q, h)
    | inr not_below ↦ rw not_below (h.0, insort-All x l q h.1)
  ]

  sort_onto-All : (acc l : List A) → All Q acc → All Q l → All Q (sort_onto lt acc l)
  unfolding sort_onto
  sort_onto-All acc [] g h = g
  sort_onto-All acc (x ∷ l) g h = sort_onto-All (insort lt x acc) l (insort-All x acc h.0 g) h.1

  pub sorted-All : (l : List A) → All Q l → All Q (sorted lt l)
  unfolding sorted
  sorted-All l h = sort_onto-All [] l tt h

module _ {ℓ} {A : Type ℓ} (key : A → ℕ) where
  -- No item is below one before it.
  abbrev pub IsAscending : List A → Type 0
  IsAscending [] = Unit {0}
  IsAscending (x ∷ l) = All (λ y. key x ≤ key y) l × IsAscending l

  All-le_trans : (m n : ℕ) (l : List A) → m ≤ n → All (λ y. n ≤ key y) l → All (λ y. m ≤ key y) l
  All-le_trans m n [] h a = tt
  All-le_trans m n (x ∷ l) h a = (omega arith, All-le_trans m n l h a.1)

  module _ (lt : A → A → Bool) (P : A → Type 0)
      (agree : (a b : A) → P a → P b → lt a b ≡ ltb (key a) (key b)) where
    insort-IsAscending :
        (x : A) (l : List A) → P x → All P l → IsAscending l → IsAscending (insort lt x l)
    unfolding insort
    insort-IsAscending x [] p h a = (tt, tt)
    insort-IsAscending x (y ∷ l) p h a = elim (Bool-cases (lt x y)) [
      | inl below ↦
          let le : key x ≤ key y = ground (arith, agree x y p h.0) in
          rw below ((le, All-le_trans (key x) (key y) l le a.0), a)
      | inr not_below ↦ rw not_below (
        insort-All lt (λ b. key y ≤ key b) x l (ground (arith, agree x y p h.0)) a.0,
        insort-IsAscending x l p h.1 a.1,
      )
    ]

    sort_onto-IsAscending :
        (acc l : List A) → All P acc → All P l → IsAscending acc → IsAscending (sort_onto lt acc l)
    unfolding sort_onto
    sort_onto-IsAscending acc [] g h a = a
    sort_onto-IsAscending acc (x ∷ l) g h a =
        sort_onto-IsAscending (insort lt x acc) l (insort-All lt P x acc h.0 g) h.1
          (insort-IsAscending x acc h.0 g a)

    pub sorted-IsAscending : (l : List A) → All P l → IsAscending (sorted lt l)
    unfolding sorted
    sorted-IsAscending l h = sort_onto-IsAscending [] l tt h tt
