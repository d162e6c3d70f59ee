-- ===== src/Decryptor/Drain.antt =====
-- `PacketDecryptor._try_dave_inner_decrypt` and the drain of the queues.
use discord_ext_voice_recv.Base.{
  ℕ, ◌+◌, Bool, true, false, not, Option, none, some, List, [], ◌∷◌, ◌++◌, leb, if◌then◌else◌,
  is_empty,
}
use discord_ext_voice_recv.Base.Bytes.{Bytes}
use discord_ext_voice_recv.Base.Dict.{Dict, get, put}
use discord_ext_voice_recv.Rtp.{RtpPacket, Marks}
use discord_ext_voice_recv.Dave.Bridge.{DaveState, Reason, decrypt_audio}
use discord_ext_voice_recv.Decryptor.{
  InnerReason, bridge_says, no_voice_client, no_user_id, is_retryable, Drop, expired, plaintext,
  unrecoverable, Stat, dave_plaintext_rejected, dave_inner_defer_recovered, dave_inner_decrypt_ok,
  dave_inner_decrypt_err, dave_unhandled_sample, dave_inner_decrypt, dave_inner_defer_drop, Pending,
  Decryptor, Env, count, mark, as_dropped, bridge_state, plaintext_rejected,
}

-- The reasons that also count as a decryption error.
abbrev pub is_error : Reason → Bool
is_error Reason.decrypt_error = true
is_error Reason.no_decryptor = true
is_error Reason.busy = true
is_error _ = false

abbrev pub is_rejection : Reason → Bool
is_rejection Reason.plaintext_rejected = true
is_rejection _ = false

abbrev pub failure_stats : Bool → Reason → List Stat
failure_stats emit_error_sample reason =
    (if is_rejection reason then dave_plaintext_rejected ∷ [] else [])
    ++ dave_inner_decrypt (bridge_says reason)
      ∷ (if is_error reason
          then dave_inner_decrypt_err
            ∷ (if emit_error_sample then dave_unhandled_sample ∷ [] else [])
          else [])

abbrev pub as_decrypted : Marks → Marks
as_decrypted m = record m { inner_decrypted = true; needs_inner = false; pending = false }

-- `_try_dave_inner_decrypt`
unfoldable pub try_inner :
    Env → Bool → Decryptor → ℕ → RtpPacket → Bytes → Decryptor × (Option Bytes × InnerReason)
unfolding mark
try_inner env emit_error_sample d object packet payload =
    if not env.has_client
    then (count d (dave_inner_decrypt no_voice_client ∷ []), (none, no_voice_client))
    else (elim (env.get_id_from_ssrc packet.ssrc) [
      | none ↦ (count d (dave_inner_decrypt no_user_id ∷ []), (none, no_user_id))
      | some user_id ↦
          let (b, (decrypted, reason)) =
            decrypt_audio env.decrypt env.now env.connection d.bridge user_id payload in
          let d' : Decryptor = record d { bridge = b } in
          elim decrypted [
            | none ↦ (count d' (failure_stats emit_error_sample reason), (none, bridge_says reason))
            | some l ↦ (
              count (record d' { store = mark as_decrypted object d'.store })
                  (dave_inner_decrypt_ok ∷ []),
              (some l, bridge_says Reason.ok),
            )
          ]
    ])

-- The end of a round of the drain that drops the packet.
unfoldable pub drop_pending : Drop → Pending → Decryptor → Decryptor
unfolding mark
drop_pending reason x d =
    count (record d { store = mark as_dropped x.object d.store })
      (dave_inner_defer_drop reason ∷ [])

-- A packet whose payload is decrypted after all.
unfoldable pub recover : Pending → Bytes → Decryptor → Decryptor
recover x plain d =
    count
      (record d {
        store = elim (get x.object d.store) [
          | none ↦ d.store
          | some p ↦
              put x.object
                (record p {
                  decrypted_data = some plain;
                  marks = record (p.marks) { ranges_count = some 0; recovered = true };
                })
                d.store
        ];
        pending_inner_ready = d.pending_inner_ready ++ x.object ∷ [];
      })
      (dave_inner_defer_recovered ∷ [])

-- One round of the drain of a queue: whether the packet is kept, and whether the queue is blocked
-- from then on.
unfoldable pub judge :
    Env → Option DaveState → Bool → Pending → Decryptor → Decryptor × (Bool × Bool)
unfolding drop_pending recover try_inner
judge env state blocked x d =
    if leb (x.queued_at + x.max_age) env.now
    then (drop_pending expired x d, (false, blocked))
    else if plaintext_rejected x.payload state
    then (drop_pending plaintext x (count d (dave_plaintext_rejected ∷ [])), (false, blocked))
    else if blocked
    then (d, (true, true))
    else (let (d', (plain, outcome)) = try_inner env false d x.object x.packet x.payload in
        elim plain [
          | some l ↦ (recover x l d', (false, false))
          | none ↦
              if is_retryable outcome
              then (d', (true, true))
              else (drop_pending unrecoverable x d', (false, false))
        ])

unfoldable pub drain_queue :
    Env → Option DaveState → Bool → List Pending → Decryptor → Decryptor × List Pending
unfolding judge
drain_queue env state blocked [] d = (d, [])
drain_queue env state blocked (x ∷ q) d =
    let (d', (kept, blocked')) = judge env state blocked x d in
    let (d'', rest) = drain_queue env state blocked' q d' in (d'', if kept then x ∷ rest else rest)

unfoldable pub drain_queues :
    Env → Option DaveState → Dict (List Pending) → Decryptor → Decryptor × Dict (List Pending)
unfolding drain_queue
drain_queues env state [] d = (d, [])
drain_queues env state ((ssrc, q) ∷ m) d =
    let (d', kept) = drain_queue env state false q d in
    let (d'', rest) = drain_queues env state m d' in
    (d'', if is_empty kept then rest else (ssrc, kept) ∷ rest)

-- `_drain_pending_inner_packets`
unfoldable pub drain : Env → Decryptor → Decryptor
unfolding bridge_state drain_queues
drain env d =
    let (d1, state) = bridge_state env d in
    let (d2, kept) = drain_queues env state d1.pending_inner_packets d1 in
    record d2 { pending_inner_packets = kept }

unfoldable pub pop_recovered : Env → Decryptor → Decryptor × List ℕ
unfolding drain
pop_recovered env d =
    let d' = drain env d in (record d' { pending_inner_ready = [] }, d'.pending_inner_ready)

-- `is_deferred_packet`
unfoldable pub is_deferred : Decryptor → ℕ → Bool
is_deferred d object = elim (get object d.store) [ none ↦ false | some p ↦ p.marks.pending ]
