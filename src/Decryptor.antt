-- ===== src/Decryptor.antt =====
-- discord/ext/voice_recv/reader.py, `PacketDecryptor` above the transport: the packets that wait for
-- the DAVE session. A packet is an object that the reader, the queues and the router share, so its
-- `decrypted_data` and marks stand in a store under its identity; its header never changes, and a
-- waiting packet carries it. Times are in milliseconds, and one call takes no time. The calls into
-- the statistics are listed in order.
pub mod Defer
pub mod Drain
pub mod Receive
pub mod Order
pub mod Queue
pub mod Closed
pub mod Store
pub mod Renewed
pub mod Held
use discord_ext_voice_recv.Base.{
  ℕ, ◌+◌, ◌-◌, Bool, true, false, ◌&&◌, ◌||◌, not, Option, none, some, List, [], ◌∷◌, ◌++◌, ltb,
  leb, ◌==◌, if◌then◌else◌, length, is_some, is_empty, Result, ok, raise, ◌>>=◌,
}
use discord_ext_voice_recv.Base.Int.{ℤ, pos, ◌+ℤ◌, ◌-ℤ◌, mod_ℤ, ltb_ℤ}
use discord_ext_voice_recv.Base.Bytes.{Bytes}
use discord_ext_voice_recv.Base.Dict.{Dict, get, put, delete}
use discord_ext_voice_recv.HeapQueue.{sorted}
use discord_ext_voice_recv.Rtp.{RtpPacket, Marks, no_marks}
use discord_ext_voice_recv.Dave.{DaveSupplemental, parse_dave_payload}
use discord_ext_voice_recv.Dave.Bridge.{
  Session, Connection, Decrypted, DaveBridge, DaveState, Reason, refresh, decrypt_audio, same,
  ends_marked,
}
use discord_ext_voice_recv.Dave.Bridge

-- Why a payload stays encrypted: what the bridge says, or what is known before it is asked.
pub data InnerReason : Type 0 where
  bridge_says : Reason → InnerReason
  no_voice_client no_user_id ordered : InnerReason

-- `_is_retryable_inner_reason`
abbrev pub is_retryable : InnerReason → Bool
is_retryable (bridge_says Reason.no_decryptor) = true
is_retryable (bridge_says Reason.busy) = true
is_retryable (bridge_says Reason.session_not_ready) = true
is_retryable (bridge_says Reason.decrypt_error) = true
is_retryable no_user_id = true
is_retryable _ = false

abbrev pub is_ordered : InnerReason → Bool
is_ordered ordered = true
is_ordered _ = false

pub data Drop : Type 0 where
  expired plaintext unrecoverable overflow session_reset : Drop

pub data Stat : Type 0 where
  dave_marker_packets dave_non_marker_packets dave_parse_ok dave_parse_fail : Stat
  dave_plaintext_rejected dave_needs_inner_decrypt_packets dave_inner_unresolved_packets : Stat
  dave_inner_deferred dave_inner_unavailable_skipped dave_inner_defer_queued : Stat
  dave_inner_defer_recovered dave_inner_decrypt_ok dave_inner_decrypt_err : Stat
  dave_unhandled_sample reset_all_dave_nonces : Stat
  dave_inner_defer_reason dave_inner_decrypt : InnerReason → Stat
  dave_inner_defer_drop : Drop → Stat
  add_dave_nonce : ℕ → ℕ → ℕ → Stat

-- `PendingInnerPacket`; `object` is the identity of `packet`.
pub record Pending : Type 0 where
  pub object : ℕ
  pub packet : RtpPacket
  pub payload : Bytes
  pub reason : InnerReason
  pub queued_at : ℕ
  pub max_age : ℕ

pub record Decryptor : Type 0 where
  pub store : Dict RtpPacket
  pub pending_inner_packets : Dict (List Pending)
  pub pending_inner_ready : List ℕ
  pub last_epoch_change : Option ℕ
  pub session_generation : Option ℕ
  pub bridge : DaveBridge
  pub stats : List Stat

-- What the decryptor reads around it: the clock, the voice client with its connection and
-- `_get_id_from_ssrc` (none if there is no client), and davey's `decrypt`.
pub record Env : Type 0 where
  pub now : ℕ
  pub has_client : Bool
  pub connection : Connection
  pub get_id_from_ssrc : ℕ → Option ℕ
  pub decrypt : Session → ℕ → Bytes → Decrypted

abbrev pub max_per_ssrc : ℕ
max_per_ssrc = 1024

unfoldable pub close : Decryptor → Decryptor
close d = record d { pending_inner_packets = []; pending_inner_ready = [] }

abbrev pub count : Decryptor → List Stat → Decryptor
count d l = record d { stats = d.stats ++ l }

-- A write to the marks of an object.
unfoldable pub mark : (Marks → Marks) → ℕ → Dict RtpPacket → Dict RtpPacket
mark f object s = elim (get object s) [
  | none ↦ s
  | some p ↦ put object (record p { marks = f p.marks }) s
]

abbrev pub as_dropped : Marks → Marks
as_dropped m = record m { dropped = true; pending = false }

unfoldable pub drop_queue : List Pending → Decryptor → Decryptor
unfolding mark
drop_queue [] d = d
drop_queue (x ∷ q) d = drop_queue q (
    count (record d { store = mark as_dropped x.object d.store })
      (dave_inner_defer_drop session_reset ∷ []))

unfoldable pub drop_queues : Dict (List Pending) → Decryptor → Decryptor
unfolding drop_queue
drop_queues [] d = d
drop_queues ((ssrc, q) ∷ m) d = drop_queues m (drop_queue q d)

-- The first half of `_bridge_state`: another generation of the session drops all that waits.
unfoldable pub reset_session : ℕ → Decryptor → Decryptor
unfolding drop_queues
reset_session generation d =
    let renewed = elim d.session_generation as (λ _. Bool) [
      | none ↦ false
      | some g ↦ not (generation == g)
    ] in
    let emptied : Decryptor = record (drop_queues d.pending_inner_packets d) {
      pending_inner_packets = [];
      pending_inner_ready = [];
    } in
    let d' : Decryptor = if renewed then count emptied (reset_all_dave_nonces ∷ []) else d in
    record d' { session_generation = some generation }

-- `_bridge_state`
unfoldable pub bridge_state : Env → Decryptor → Decryptor × Option DaveState
unfolding reset_session
bridge_state env d =
    if not env.has_client
    then (d, none)
    else (let b = refresh env.now env.connection d.bridge in
        let d' = reset_session b.state.generation (record d { bridge = b }) in
        let changed = not (same b.state.last_epoch_change d'.last_epoch_change) in
        let d'' : Decryptor =
          if changed
          then record (count d' (reset_all_dave_nonces ∷ [])) {
            last_epoch_change = b.state.last_epoch_change;
          }
          else d' in
        (d'', some b.state))

-- `_plaintext_rejected`
abbrev pub plaintext_rejected : Bytes → Option DaveState → Bool
plaintext_rejected payload none = false
plaintext_rejected payload (some s) =
    ltb 0 s.protocol_version && (s.ready && (not s.downgrade_allowed && not (ends_marked payload)))
