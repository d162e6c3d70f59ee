-- ===== src/Compare/Order.antt =====
-- When the comparisons of packets are an order, and when they are not.
use discord_ext_voice_recv.Base.{ℕ, ◌<◌, ◌≡◌, true, false, ok, ltb, arith, ◌==◌}
use discord_ext_voice_recv.Compare.{PacketCmp, before, after, lt, gt, eq}

-- The timestamps of one stream, as long as its 16-bit sequence numbers do not wrap: a later packet
-- has a later timestamp.
pub record StreamClock : Type 0 where
  pub clock : ℕ → ℕ
  pub monotone : (m n : ℕ) → m < n → clock m < clock n

module _ {ℓ} {A : Type ℓ} ⦃c : PacketCmp A⦄ where
  -- Stamped by the clock, with the given ssrc.
  abbrev pub OnStream : StreamClock → ℕ → A → Type 0
  OnStream s x p = (c.timestamp p ≡ s.clock (c.sequence p)) × (c.ssrc p ≡ x)

  pub before-ltb :
      (s : StreamClock) (x : ℕ) (p q : A)
      → OnStream s x p
      → OnStream s x q
      → before p q ≡ ltb (c.sequence p) (c.sequence q)
  unfolding before
  before-ltb s x p q hp hq = ground (arith, s.monotone (c.sequence p) (c.sequence q))

  -- Two packets of one stream before a rollover are compared by sequence number alone: `__lt__` is
  -- `<`, `__gt__` its converse, and `__eq__` holds exactly when neither does. None of them raises.
  lt-sequence :
      (s : StreamClock) (x : ℕ) (p q : A)
      → OnStream s x p
      → OnStream s x q
      → (lt p q ≡ ok (ltb (c.sequence p) (c.sequence q)))
        × (gt p q ≡ lt q p)
        × (eq p q ≡ (c.sequence p == c.sequence q))
  unfolding lt gt eq before after
  lt-sequence s x p q hp hq =
      ground
        (arith, s.monotone (c.sequence p) (c.sequence q), s.monotone (c.sequence q) (c.sequence p))

  -- Across a rollover of the sequence number (the earlier packet has the higher number) neither of
  -- two packets is below the other, each is above the other, and they are not equal.
  pub rollover_incomparable :
      (p q : A)
      → c.ssrc p ≡ c.ssrc q
      → c.sequence q < c.sequence p
      → c.timestamp p < c.timestamp q
      → (lt p q ≡ ok false)
        × (lt q p ≡ ok false)
        × (gt p q ≡ ok true)
        × (gt q p ≡ ok true)
        × (eq p q ≡ false)
  unfolding lt gt eq before after
  rollover_incomparable p q h e f = ground arith
