-- ===== src/Compare.antt =====
-- discord/ext/voice_recv/rtp.py, `_PacketCmpMixin`: what the packet classes have in common and how
-- packets are compared. The buffer is written against this interface.
pub mod Order
use discord_ext_voice_recv.Base.{
  ℕ, Bool, false, ◌&&◌, ◌||◌, Result, ok, raise, type_error, ltb, ◌==◌, if◌then◌else◌,
}

-- The attributes that `_PacketCmpMixin` reads.
pub record PacketCmp {ℓ} (A : Type ℓ) : Type ℓ where
  pub ssrc : A → ℕ
  pub sequence : A → ℕ
  pub timestamp : A → ℕ

module _ {ℓ} {A : Type ℓ} ⦃c : PacketCmp A⦄ where
  -- `__lt__` past its ssrc check.
  unfoldable pub before : A → A → Bool
  before p q = ltb (c.sequence p) (c.sequence q) && ltb (c.timestamp p) (c.timestamp q)

  unfoldable pub after : A → A → Bool
  after p q = ltb (c.sequence q) (c.sequence p) || ltb (c.timestamp q) (c.timestamp p)

  unfoldable pub lt : A → A → Result Bool
  lt p q = if c.ssrc p == c.ssrc q then ok (before p q) else raise type_error

  unfoldable pub gt : A → A → Result Bool
  gt p q = if c.ssrc p == c.ssrc q then ok (after p q) else raise type_error

  unfoldable pub eq : A → A → Bool
  eq p q =
      if c.ssrc p == c.ssrc q
      then c.sequence p == c.sequence q && c.timestamp p == c.timestamp q
      else false
