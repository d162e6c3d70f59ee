-- ===== src/Timers.antt =====
-- The clocks: discord/ext/voice_recv/utils.py, `LoopTimer`, and reader.py, `UDPKeepAlive`. Times are
-- integers in one unit.
use native.Mathlib.Nat.{mul-suc}
use discord_ext_voice_recv.Base.{ℕ, suc, ◌≤◌, ◌≡◌, arith, ◌+◌, ◌*◌}
use discord_ext_voice_recv.Base.Int.{ℤ, pos, ◌+ℤ◌, ◌-ℤ◌, pos_part}

pub record LoopTimer : Type 0 where
  pub delay : ℕ
  pub start_time : ℕ
  pub loops : ℕ

abbrev pub start : ℕ → LoopTimer → LoopTimer
start now t = record t { loops = 0; start_time = now }

abbrev pub mark : LoopTimer → LoopTimer
mark t = record t { loops = suc t.loops }

unfoldable pub remaining_time : ℕ → LoopTimer → ℤ
remaining_time now t = pos t.delay +ℤ (pos (t.start_time + t.delay * t.loops) -ℤ pos now)

-- How long `sleep` sleeps.
unfoldable pub sleep : ℕ → LoopTimer → ℕ
unfolding remaining_time
sleep now t = pos_part (remaining_time now t)

-- A loop that sleeps and marks never drifts: a round that begins in time ends at the next point of the
-- grid, however long its body took.
sleep-grid :
    (now : ℕ) (t : LoopTimer)
    → now ≤ t.start_time + t.delay * suc t.loops
    → now + sleep now t ≡ t.start_time + t.delay * suc t.loops
unfolding sleep remaining_time
sleep-grid now t h = ground (arith, h, mul-suc t.delay t.loops)
