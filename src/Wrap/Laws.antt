-- ===== src/Wrap/Laws.antt =====
-- Gaps and advances on 16-bit sequence numbers.
use discord_ext_voice_recv.Base.{ℕ, ◌+◌, ◌-◌, ◌%◌, ◌<◌, ◌≡◌, ◌↔◌, arith}
use discord_ext_voice_recv.Base.Int.{pos, minus_one}
use discord_ext_voice_recv.Wrap.{gap_wrapped, add_wrapped, seq_wrap}

pub gap_pos :
    (a b : ℕ)
    → a < 65536
    → b < 65536
    → gap_wrapped (pos a) (pos b) seq_wrap ≡ (b + 65535 - a) % 65536
unfolding gap_wrapped
gap_pos a b ha hb = ground arith

pub gap_start : (b : ℕ) → b < 65536 → gap_wrapped minus_one (pos b) seq_wrap ≡ b
unfolding gap_wrapped
gap_start b hb = ground arith

pub add_one : (a : ℕ) → a < 65536 → add_wrapped (pos a) (pos 1) seq_wrap ≡ (a + 1) % 65536
unfolding add_wrapped
add_one a h = ground arith

-- For 16-bit sequence numbers the gap is below 65536; advancing from the first number by the gap
-- and one more lands on the second; and the gap is 0 exactly when the second number is the
-- successor of the first modulo 65536.
gap-add :
    (a b : ℕ)
    → a < 65536
    → b < 65536
    → (gap_wrapped (pos a) (pos b) seq_wrap < 65536)
      × (add_wrapped (pos a) (pos (gap_wrapped (pos a) (pos b) seq_wrap + 1)) seq_wrap ≡ b)
      × ((gap_wrapped (pos a) (pos b) seq_wrap ≡ 0) ↔ (add_wrapped (pos a) (pos 1) seq_wrap ≡ b))
unfolding add_wrapped
gap-add a b ha hb = ground (arith, gap_pos a b)
