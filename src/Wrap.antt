-- ===== src/Wrap.antt =====
-- discord/ext/voice_recv/utils.py: the wrap-around arithmetic of sequence numbers and timestamps.
pub mod Laws
use discord_ext_voice_recv.Base.{ℕ}
use discord_ext_voice_recv.Base.Int.{ℤ, pos, ◌+ℤ◌, ◌-ℤ◌, mod_ℤ}

unfoldable pub gap_wrapped : ℤ → ℤ → ℕ → ℕ
gap_wrapped a b wrap = mod_ℤ (b -ℤ (a +ℤ pos 1) +ℤ pos wrap) wrap

unfoldable pub add_wrapped : ℤ → ℤ → ℕ → ℕ
add_wrapped a b wrap = mod_ℤ (a +ℤ b) wrap

-- The default of the keyword `wrap`.
abbrev pub seq_wrap : ℕ
seq_wrap = 65536
