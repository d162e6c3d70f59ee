-- ===== src/Decryptor/Defer.antt =====
-- `PacketDecryptor._defer_pending_inner_packet`: a packet joins the queue of its ssrc.
use discord_ext_voice_recv.Base.{
  ℕ, ◌+◌, Bool, true, Option, none, some, List, [], ◌∷◌, ◌++◌, ltb, if◌then◌else◌, length,
}
use discord_ext_voice_recv.Base.Int.{ℤ, pos, ◌+ℤ◌, ◌-ℤ◌, mod_ℤ, ltb_ℤ}
use discord_ext_voice_recv.Base.Bytes.{Bytes}
use discord_ext_voice_recv.Base.Dict.{get, put}
use discord_ext_voice_recv.HeapQueue.{sorted}
use discord_ext_voice_recv.Rtp.{RtpPacket, Marks}
use discord_ext_voice_recv.Dave.Bridge.{DaveState}
use discord_ext_voice_recv.Decryptor.{
  InnerReason, overflow, dave_inner_defer_queued, dave_inner_defer_reason, dave_inner_defer_drop,
  Pending, Decryptor, Env, max_per_ssrc, count, mark, as_dropped, bridge_state,
}

-- The key by which `_defer_pending_inner_packet` sorts: the signed 16-bit distance from the anchor.
unfoldable pub distance : ℕ → Pending → ℤ
distance anchor x =
    pos (mod_ℤ (pos x.packet.sequence -ℤ pos anchor +ℤ pos 32768) 65536) -ℤ pos 32768

abbrev pub nearer : ℕ → Pending → Pending → Bool
nearer anchor x y = ltb_ℤ (distance anchor x) (distance anchor y)

-- `queue.sort`, anchored at the first item.
unfoldable pub sort_queue : List Pending → List Pending
unfolding distance
sort_queue [] = []
sort_queue (x ∷ q) = sorted (nearer x.packet.sequence) (x ∷ q)

-- The last step of `_defer_pending_inner_packet`: a queue beyond its limit gives up its first item.
unfoldable pub trim : List Pending → Decryptor → Decryptor × List Pending
unfolding mark
trim [] d = (d, [])
trim (x ∷ q) d =
    let dropped =
      count (record d { store = mark as_dropped x.object d.store })
        (dave_inner_defer_drop overflow ∷ []) in
    if ltb max_per_ssrc (length (x ∷ q)) then (dropped, q) else (d, x ∷ q)

abbrev pub queue_of : ℕ → Decryptor → List Pending
queue_of ssrc d = elim (get ssrc d.pending_inner_packets) [ none ↦ [] | some q ↦ q ]

-- Fifteen seconds right after an epoch was prepared, and else ten.
abbrev pub patience : ℕ → Option DaveState → ℕ
patience now none = 10000
patience now (some s) = elim s.prepared_at [
  | none ↦ 10000
  | some t ↦ if ltb now (t + 5000) then 15000 else 10000
]

abbrev pub as_waiting : ℕ → Marks → Marks
as_waiting n m = record m { pending = true; needs_inner = true; ranges_count = some n }

-- `_defer_pending_inner_packet`
unfoldable pub defer : Env → Decryptor → ℕ → RtpPacket → Bytes → InnerReason → ℕ → Decryptor
unfolding bridge_state sort_queue trim mark
defer env d object packet payload reason ranges_count =
    let (d1, state) = bridge_state env d in
    let item : Pending = record {
      object = object;
      packet = packet;
      payload = payload;
      reason = reason;
      queued_at = env.now;
      max_age = patience env.now state;
    } in
    let queue = sort_queue (queue_of packet.ssrc d1 ++ item ∷ []) in
    let d2 : Decryptor =
      count (record d1 { store = mark (as_waiting ranges_count) object d1.store })
        (dave_inner_defer_queued ∷ dave_inner_defer_reason reason ∷ []) in
    let (d3, queue') = trim queue d2 in
    record d3 { pending_inner_packets = put packet.ssrc queue' d3.pending_inner_packets }
