-- ===== src/Statistics/Windows.antt =====
-- `ReceiveAnalysisStats`: which of the events and samples are kept.
use discord_ext_voice_recv.Base.{
  ℕ, zero, suc, ◌+◌, ◌-◌, ◌≤◌, ◌<◌, ◌≡◌, refl, ap, sym, ◌∙◌, List, [], ◌∷◌, ◌++◌, arith, length,
  take, drop, map, length-append, length-drop, length-take, take_of_length-le, drop-add, leb,
  Bool-cases, inl, inr,
}
use mathlib.Core.List.{append_assoc, append-nil}
use discord_ext_voice_recv.Statistics.{
  keep_last, append_sample, append_each, max_samples, append_ring_sample,
}

module _ {ℓ} {A : Type ℓ} where
  drop-append_le : (n : ℕ) (l r : List A) → n ≤ length l → drop n (l ++ r) ≡ drop n l ++ r
  drop-append_le zero l r h = refl
  drop-append_le (suc n) [] r h = absurd (omega arith)
  drop-append_le (suc n) (x ∷ l) r h = drop-append_le n l r (omega arith)

  drop-congr : (n m : ℕ) (l : List A) → n ≡ m → drop n l ≡ drop m l
  drop-congr n m l e = ap (λ (k : ℕ). drop k l) e

  pub keep_last_short : (n : ℕ) (l : List A) → length l ≤ n → keep_last n l ≡ l
  keep_last_short n l h = drop-congr (length l - n) 0 l (omega arith)

  pub keep_last-append :
      (n : ℕ) (l : List A) (x : A)
      → keep_last n (keep_last n l ++ x ∷ []) ≡ keep_last n (l ++ x ∷ [])
  keep_last-append n l x = elim (Bool-cases (leb (length l) n)) [
    | inl short ↦ ap (λ r. keep_last n (r ++ x ∷ [])) (keep_last_short n l (ground (arith, short)))
    | inr long ↦
        let d = length l - n in
        let less : n < length l = ground (arith, long) in
        drop-congr (length (keep_last n l ++ x ∷ []) - n) 1 (keep_last n l ++ x ∷ [])
          (omega (arith, less, length-append (drop d l) (x ∷ []), length-drop d l))
        ∙ ap (drop 1) (sym (drop-append_le d l (x ∷ []) (omega arith)))
        ∙ sym (drop-add 1 d (l ++ x ∷ []))
        ∙ drop-congr (1 + d) (length (l ++ x ∷ []) - n) (l ++ x ∷ [])
            (omega (arith, less, length-append l (x ∷ [])))
  ]

  -- A ring holds the last of what was put into it.
  append_ring_sample-keep_last :
      (n : ℕ) (l : List A) (x : A) → 1 ≤ n → append_ring_sample l x n ≡ keep_last n (l ++ x ∷ [])
  unfolding append_ring_sample
  append_ring_sample-keep_last n l x h = elim (Bool-cases (leb n (length l))) [
    | inl full ↦
        let d = length l - n + 1 in
        let least : n ≤ length l = ground (arith, full) in
        ground (
          arith,
          full,
          drop-congr d (length (l ++ x ∷ []) - n) (l ++ x ∷ [])
              (omega (arith, least, length-append l (x ∷ []))),
          drop-append_le d l (x ∷ []) (omega (arith, least, h)),
        )
    | inr room ↦
        let more : length l < n = ground (arith, room) in
        ground (
          arith,
          room,
          keep_last_short n (l ++ x ∷ []) (omega (arith, more, length-append l (x ∷ []))),
        )
  ]

  take-append_le : (n : ℕ) (l r : List A) → n ≤ length l → take n (l ++ r) ≡ take n l
  take-append_le zero l r h = refl
  take-append_le (suc n) [] r h = absurd (omega arith)
  take-append_le (suc n) (x ∷ l) r h = ap (◌∷◌ x) (take-append_le n l r (omega arith))

  -- A list of samples holds the first of them.
  append_sample-take :
      (l : List A) (x : A) → append_sample (take max_samples l) x ≡ take max_samples (l ++ x ∷ [])
  append_sample-take l x = elim (Bool-cases (leb max_samples (length l))) [
    | inl full ↦
        let least : 20 ≤ length l = ground (arith, full) in
        let size : length (take 20 l) ≡ 20 = omega (arith, least, length-take 20 l) in
        ground (arith, size, take-append_le 20 l (x ∷ []) least)
    | inr room ↦
        let more : length l < 20 = ground (arith, room) in
        ground (
          arith,
          more,
          take_of_length-le 20 l (omega (arith, more)),
          take_of_length-le 20 (l ++ x ∷ []) (omega (arith, more, length-append l (x ∷ []))),
        )
  ]

module _ {κ ℓ} {A : Type κ} {B : Type ℓ} (f : A → B) where
  length-map : (l : List A) → length (map f l) ≡ length l
  length-map [] = refl
  length-map (x ∷ l) = ap suc (length-map l)

  map-append : (l r : List A) → map f (l ++ r) ≡ map f l ++ map f r
  map-append [] r = refl
  map-append (x ∷ l) r = ap (◌∷◌ (f x)) (map-append l r)

  map-drop : (n : ℕ) (l : List A) → map f (drop n l) ≡ drop n (map f l)
  map-drop zero l = refl
  map-drop (suc n) [] = refl
  map-drop (suc n) (x ∷ l) = map-drop n l

  map-keep_last : (n : ℕ) (l : List A) → map f (keep_last n l) ≡ keep_last n (map f l)
  map-keep_last n l =
      map-drop (length l - n) l
      ∙ drop-congr (length l - n) (length (map f l) - n) (map f l) (omega (arith, length-map l))

  map-append_sample :
      (l : List A) (x : A) → map f (append_sample l x) ≡ append_sample (map f l) (f x)
  map-append_sample l x = ground (arith, length-map l, map-append l (x ∷ []))

  -- One sample more in a ring, of which the events are looked at.
  pub ring-keep_last :
      (n : ℕ) (l : List A) (x : A) (all : List B)
      → 1 ≤ n
      → map f l ≡ keep_last n all
      → map f (append_ring_sample l x n) ≡ keep_last n (all ++ f x ∷ [])
  ring-keep_last n l x all h e =
      ap (map f) (append_ring_sample-keep_last n l x h)
      ∙ map-keep_last n (l ++ x ∷ [])
      ∙ ap (keep_last n) (map-append l (x ∷ []) ∙ ap (λ r. r ++ f x ∷ []) e)
      ∙ keep_last-append n all (f x)

  pub samples-take :
      (l : List A) (x : A) (all : List B)
      → map f l ≡ take max_samples all
      → map f (append_sample l x) ≡ take max_samples (all ++ f x ∷ [])
  samples-take l x all e =
      map-append_sample l x ∙ ap (λ r. append_sample r (f x)) e ∙ append_sample-take all (f x)

  pub samples-take_each :
      (l xs : List A) (all : List B)
      → map f l ≡ take max_samples all
      → map f (append_each l xs) ≡ take max_samples (all ++ map f xs)
  unfolding append_each
  samples-take_each l [] all e = e ∙ ap (take max_samples) (sym (append-nil all))
  samples-take_each l (x ∷ xs) all e =
      samples-take_each (append_sample l x) xs (all ++ f x ∷ []) (samples-take l x all e)
      ∙ ap (take max_samples) (append_assoc all (f x ∷ []) (map f xs))
