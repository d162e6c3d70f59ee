-- ===== src/Speaking/Next.antt =====
-- The ssrc that the timer waits for: of those that speak, the one heard the longest ago.
use discord_ext_voice_recv.Base.{
  ℕ, ◌≤◌, ◌≡◌, refl, inl, inr, Bool, true, false, ◌||◌, not, Option, none, some, [], ◌∷◌, arith,
  leb, Bool-cases, All,
}
use discord_ext_voice_recv.Base.Dict.{Dict}
use discord_ext_voice_recv.HeapQueue.{sorted}
use discord_ext_voice_recv.HeapQueue.Contents.{sorted-perm, All-perm}
use discord_ext_voice_recv.HeapQueue.Order.Sort.{IsAscending, sorted-IsAscending}
use discord_ext_voice_recv.Speaking.{
  SpeakingTimer, is_speaking, is_earlier, first_speaking, get_next_entry,
}

everything : (l : Dict ℕ) → All (λ _. Unit {0}) l
everything [] = tt
everything (x ∷ l) = (tt, everything l)

module _ (t : SpeakingTimer) where
  -- The entry is silent, or was not heard before the time.
  abbrev pub is_later : ℕ → ℕ × ℕ → Bool
  is_later time x = not (is_speaking t (x.0)) || leb time (x.1)

  -- What the search answers for a cache.
  pub data Next (m : Dict ℕ) : Option (ℕ × ℕ) → Type 0 where
    nobody : All (λ (x : ℕ × ℕ). is_speaking t (x.0) ≡ false) m → Next m none
    earliest :
        (ssrc time : ℕ)
        → is_speaking t ssrc ≡ true
        → All (λ x. is_later time x ≡ true) m
        → Next m (some (ssrc, time))

  later-All :
      (time : ℕ) (m : Dict ℕ)
      → All (λ (y : ℕ × ℕ). time ≤ y.1) m
      → All (λ x. is_later time x ≡ true) m
  later-All time [] h = tt
  later-All time (x ∷ m) h = (ground (arith, h.0), later-All time m h.1)

  further :
      (ssrc time : ℕ) (m : Dict ℕ)
      → is_speaking t ssrc ≡ false
      → (o : Option (ℕ × ℕ)) → Next m o
      → Next ((ssrc, time) ∷ m) o
  further ssrc time m silent _ (nobody h) = nobody (silent, h)
  further ssrc time m silent _ (earliest s u speaks h) =
      earliest s u speaks (ground (arith, silent), h)

  first_speaking-Next :
      (m : Dict ℕ) → IsAscending (λ (y : ℕ × ℕ). y.1) m → Next m (first_speaking t m)
  unfolding first_speaking
  first_speaking-Next [] h = nobody tt
  first_speaking-Next ((ssrc, time) ∷ m) h = elim (Bool-cases (is_speaking t ssrc)) [
    | inl speaks ↦ rw speaks (earliest ssrc time speaks (ground arith, later-All time m h.0))
    | inr silent ↦
        rw silent (further ssrc time m silent (first_speaking t m) (first_speaking-Next m h.1))
  ]

  Next-perm : (m : Dict ℕ) (o : Option (ℕ × ℕ)) → Next (sorted is_earlier m) o → Next m o
  Next-perm m _ (nobody h) = nobody (All-perm _ (λ x. hlevel) (sorted-perm is_earlier m) h)
  Next-perm m _ (earliest s u speaks h) =
      earliest s u speaks (All-perm _ (λ x. hlevel) (sorted-perm is_earlier m) h)

  -- `get_next_entry` answers none exactly for a cache of which nobody speaks; and else with an entry
  -- that speaks and before which no speaking entry was heard.
  get_next_entry-Next : Next t.speaking_cache (get_next_entry t)
  unfolding get_next_entry
  get_next_entry-Next = Next-perm t.speaking_cache _ (
      first_speaking-Next (sorted is_earlier t.speaking_cache) (
        sorted-IsAscending (λ (y : ℕ × ℕ). y.1) is_earlier (λ _. Unit {0}) (λ a b _ _. refl)
          t.speaking_cache (everything t.speaking_cache)))
