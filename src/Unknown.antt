-- ===== src/Unknown.antt =====
-- discord/ext/voice_recv/reader.py, `AudioReader`: the packets of ssrcs that no user is known for
-- yet. `now` is what `time.monotonic` answers; the limits are the attributes that the reader sets.
pub mod Queue
use discord_ext_voice_recv.Base.{
  ℕ, zero, suc, ◌+◌, ◌-◌, Bool, true, false, Option, none, some, List, [], ◌∷◌, ◌++◌, ltb,
  if◌then◌else◌, length, drop, map, is_empty,
}
use discord_ext_voice_recv.Base.Dict.{Dict, get, put, delete}
use discord_ext_voice_recv.Rtp.{RtpPacket}

-- `PendingUnknownPacket`
pub record Pending : Type 0 where
  pub packet : RtpPacket
  pub queued_at : ℕ

module _ (max_age max_per_ssrc : ℕ) where
  unfoldable pub expire_queue : ℕ → List Pending → List Pending
  expire_queue now [] = []
  expire_queue now (p ∷ q) =
      let rest = expire_queue now q in if ltb (p.queued_at + max_age) now then rest else p ∷ q

  -- `_expire_pending_unknown_locked`
  unfoldable pub expire : ℕ → Dict (List Pending) → Dict (List Pending)
  unfolding expire_queue
  expire now [] = []
  expire now ((ssrc, q) ∷ m) =
      let left = expire_queue now q in
      let rest = expire now m in if is_empty left then rest else (ssrc, left) ∷ rest

  -- `_queue_pending_unknown_packet`
  unfoldable pub queue_packet : ℕ → Dict (List Pending) → RtpPacket → Dict (List Pending)
  unfolding expire
  queue_packet now m p =
      let m' = expire now m in
      let q : List Pending = elim (get p.ssrc m') [ none ↦ [] | some l ↦ l ] in
      let q' : List Pending = q ++ record { packet = p; queued_at = now } ∷ [] in
      put p.ssrc (drop (length q' - max_per_ssrc) q') m'

  -- `_flush_pending_unknown_for_ssrc`
  unfoldable pub flush_for : ℕ → Dict (List Pending) → ℕ → Dict (List Pending) × List RtpPacket
  unfolding expire
  flush_for now m ssrc =
      let m' = expire now m in
      elim (get ssrc m') [
        | none ↦ (m', [])
        | some q ↦ (delete ssrc m', map (λ (x : Pending). x.packet) q)
      ]
