-- ===== src/Tests/Decryptor.antt =====
-- A packet with a DAVE marker comes while another of its ssrc waits.
use discord_ext_voice_recv.Base.{ℕ, ◌≤◌, refl, true, none, some, [], ◌∷◌, arith, length, false}
use discord_ext_voice_recv.Base.Bytes.{Bytes}
use discord_ext_voice_recv.Base.Dict.{get}
use discord_ext_voice_recv.Dave.Bridge.{plain, new_bridge, refresh, no_decryptor, same}
use discord_ext_voice_recv.Decryptor.{
  Pending, Decryptor, Env, bridge_says, ordered, bridge_state, reset_session,
}
use discord_ext_voice_recv.Decryptor.Defer.{defer, queue_of, patience}
use discord_ext_voice_recv.Decryptor.Drain.{drain_queue}
use discord_ext_voice_recv.Decryptor.Order.{Drained, drain_queue-Drained}
use discord_ext_voice_recv.Decryptor.Queue.{Joined, defer-Joined}
use discord_ext_voice_recv.Decryptor.Renewed.{Renewed, bridge_state-Renewed}
use discord_ext_voice_recv.Decryptor.Receive.{receive_opened}
use discord_ext_voice_recv.Decryptor.Closed.{IsClosed, receive_opened-IsClosed}
use discord_ext_voice_recv.Tests.Data.{packet}

abbrev pub env : Env
env = record {
  now = 20;
  has_client = true;
  connection = record {
    dave_session = some (record { object = 1; epoch = some 3; status = 2; is_ready = true });
    dave_protocol_version = 1;
    generation = 2;
    dave_pending_transitions = [];
    dave_downgraded = false;
  };
  get_id_from_ssrc = λ ssrc. some 42;
  decrypt = λ s user_id payload. plain (0xf8 ∷ []);
}

abbrev pub payload : Bytes
payload = 1 ∷ 0xfa ∷ 0xfa ∷ []

abbrev older : Pending
older = record {
  object = 0;
  packet = packet 5;
  payload = payload;
  reason = bridge_says no_decryptor;
  queued_at = 10;
  max_age = 10000;
}

-- The state with the older packet waiting, in the session of the generation.
abbrev pub waiting : ℕ → Decryptor
waiting generation = record {
  store = (0, packet 5) ∷ (1, packet 6) ∷ [];
  pending_inner_packets = (7, older ∷ []) ∷ [];
  pending_inner_ready = [];
  last_epoch_change = none;
  session_generation = some generation;
  bridge = new_bridge;
  stats = [];
}

drain_queue-Drained_example :
    Drained env none (older ∷ []) [] (drain_queue env none false (older ∷ []) (waiting 2))
drain_queue-Drained_example = drain_queue-Drained env none (older ∷ []) (waiting 2)

bridge_state-Renewed_example : Renewed (waiting 1) (bridge_state env (waiting 1)).0
bridge_state-Renewed_example = bridge_state-Renewed env (waiting 1) 1 refl refl (omega arith)

receive_opened-IsClosed_example :
    IsClosed env 1 (packet 6) payload (receive_opened env (waiting 2) 1 (packet 6) payload)
unfolding get
receive_opened-IsClosed_example =
    receive_opened-IsClosed env (waiting 2) 1 (packet 6) payload refl (omega arith) refl

few : length (queue_of 7 (bridge_state env (waiting 2)).0) ≤ 1024
unfolding bridge_state refresh same reset_session get
few = omega arith

defer-Joined_example :
    Joined
      (queue_of 7 (bridge_state env (waiting 2)).0)
      (record {
        object = 1;
        packet = packet 6;
        payload = payload;
        reason = ordered;
        queued_at = 20;
        max_age = patience 20 (bridge_state env (waiting 2)).1;
      })
      (queue_of 7 (defer env (waiting 2) 1 (packet 6) payload ordered 0))
defer-Joined_example = defer-Joined env (waiting 2) 1 (packet 6) payload ordered 0 few
