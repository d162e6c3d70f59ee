-- ===== src/Events/History.antt =====
-- `VoiceRecvClient._record_voice_ws_event` and `_flush_voice_ws_pending_events`: the histories of
-- websocket events. Which opcodes are of DAVE and MLS is discord.py's to say.
use discord_ext_voice_recv.Base.{
  ℕ, ◌-◌, ◌≤◌, Bool, Option, none, some, List, [], ◌∷◌, ◌++◌, arith, length, drop, length-drop,
  if◌then◌else◌, Bool-cases, Option-cases, inl, inr,
}
use discord_ext_voice_recv.Base.Dict.{Dict, put}
use discord_ext_voice_recv.Dave.Bridge.{Connection}
use discord_ext_voice_recv.Events.{VoiceClient, Message, hook, binary_hook}

-- `op` is none for an event without an opcode, or with a negative one; `P` is the type of `d`.
pub record WsEvent (P : Type 0) : Type 0 where
  pub op : Option ℕ
  pub payload : P

pub record Histories (P : Type 0) : Type 0 where
  pub recent_ops : List ℕ
  pub last_payloads : Dict P
  pub dave_recent_ops : List ℕ
  pub dave_last_payloads : Dict P
  pub pending_events : List (WsEvent P)
  -- What `add_voice_ws_event` of the reader's statistics was called with.
  pub counted : List (WsEvent P)

-- `l[-n:]`
abbrev keep_last {ℓ} : {A : Type ℓ} → ℕ → List A → List A
keep_last n l = drop (length l - n) l

module _ {P : Type 0} (is_dave : ℕ → Bool) where
  unfoldable record_op : ℕ → P → Histories P → Histories P
  record_op op payload h =
      let h' : Histories P = record h {
        recent_ops = keep_last 512 (h.recent_ops ++ op ∷ []);
        last_payloads = put op payload h.last_payloads;
      } in
      if is_dave op
      then record h' {
        dave_recent_ops = keep_last 256 (h'.dave_recent_ops ++ op ∷ []);
        dave_last_payloads = put op payload h'.dave_last_payloads;
      }
      else h'

  -- `_record_voice_ws_event`, with or without the statistics of a reader.
  unfoldable record_event : Bool → WsEvent P → Histories P → Histories P
  unfolding record_op
  record_event has_stats e h =
      let h' : Histories P = elim e.op [ none ↦ h | some op ↦ record_op op e.payload h ] in
      if has_stats
      then record h' { counted = h'.counted ++ e ∷ [] }
      else record h' { pending_events = keep_last 1024 (h'.pending_events ++ e ∷ []) }

  -- `_flush_voice_ws_pending_events`
  unfoldable flush : Bool → Histories P → Histories P
  flush has_stats h =
      if has_stats
      then record h { counted = h.counted ++ h.pending_events; pending_events = [] }
      else h

-- `hook` and `binary_hook` with the record of their message, which is made first. The statistics are
-- there when the reader is.
module _ {P : Type 0} (is_dave : ℕ → Bool) where
  unfoldable pub hook_recorded :
      ℕ → Connection → WsEvent P → Message → VoiceClient × Histories P → VoiceClient × Histories P
  unfolding hook record_event
  hook_recorded now connection e m (c, h) =
      (hook now connection m c, record_event is_dave c.tables.has_reader e h)

  unfoldable pub binary_hook_recorded :
      ℕ → P → VoiceClient × Histories P → VoiceClient × Histories P
  unfolding binary_hook record_event
  binary_hook_recorded op payload (c, h) = (
    binary_hook op c,
    record_event is_dave c.tables.has_reader (record { op = some op; payload = payload }) h,
  )

record IsBounded {P : Type 0} (h : Histories P) : Type 0 where
  pub ops : length h.recent_ops ≤ 512
  pub dave_ops : length h.dave_recent_ops ≤ 256
  pub pending : length h.pending_events ≤ 1024

length-keep_last {ℓ} : {A : Type ℓ} (n : ℕ) (l : List A) → length (keep_last n l) ≤ n
length-keep_last n l = omega (arith, length-drop (length l - n) l)

module _ {P : Type 0} (is_dave : ℕ → Bool) where
  record_op-IsBounded :
      (op : ℕ) (payload : P) (h : Histories P)
      → IsBounded h
      → IsBounded (record_op is_dave op payload h)
  unfolding record_op
  record_op-IsBounded op payload h b = elim (Bool-cases (is_dave op)) [
    | inl of_dave ↦ rw of_dave (record {
      ops = length-keep_last 512 (h.recent_ops ++ op ∷ []);
      dave_ops = length-keep_last 256 (h.dave_recent_ops ++ op ∷ []);
      pending = b.pending;
    })
    | inr not_of_dave ↦ rw not_of_dave (record {
      ops = length-keep_last 512 (h.recent_ops ++ op ∷ []);
      dave_ops = b.dave_ops;
      pending = b.pending;
    })
  ]

  abbrev after_op : WsEvent P → Histories P → Histories P
  after_op e h = elim e.op [ none ↦ h | some op ↦ record_op is_dave op e.payload h ]

  after_op-IsBounded : (e : WsEvent P) (h : Histories P) → IsBounded h → IsBounded (after_op e h)
  after_op-IsBounded e h b = elim (Option-cases e.op) [
    | inl no_op ↦ rw no_op b
    | inr (op, has_op) ↦ rw has_op (record_op-IsBounded op e.payload h b)
  ]

  -- The histories stay within their limits.
  record_event-IsBounded :
      (has_stats : Bool) (e : WsEvent P) (h : Histories P)
      → IsBounded h
      → IsBounded (record_event is_dave has_stats e h)
  unfolding record_event
  record_event-IsBounded has_stats e h b =
      let h' = after_op e h in
      let b' = after_op-IsBounded e h b in
      elim (Bool-cases has_stats) [
        | inl counts ↦
            rw counts (record { ops = b'.ops; dave_ops = b'.dave_ops; pending = b'.pending })
        | inr waits ↦ rw waits (record {
          ops = b'.ops;
          dave_ops = b'.dave_ops;
          pending = length-keep_last 1024 (h'.pending_events ++ e ∷ []);
        })
      ]
