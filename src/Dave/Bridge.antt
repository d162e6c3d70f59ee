-- ===== src/Dave/Bridge.antt =====
-- discord/ext/voice_recv/dave.py, `DaveBridge`. The connection is that of the discord.py fork, and
-- its session is davey's: their attributes are read, and `session.decrypt` is a parameter. `now` is
-- what `time.monotonic` answers, in ticks.
use discord_ext_voice_recv.Base.{
  ℕ, ◌≡◌, refl, Bool, true, false, ◌&&◌, ◌||◌, not, Option, none, some, List, [], ltb, ◌==◌,
  if◌then◌else◌, map, arith, Option-cases, inl, inr,
}
use discord_ext_voice_recv.Base.Dict.{Dict, keys, contains}
use discord_ext_voice_recv.Base.Bytes.{Bytes, eq_bytes, last_bytes}
use discord_ext_voice_recv.Dave.{marker}

-- `object` is the identity of the session.
pub record Session : Type 0 where
  pub object : ℕ
  pub epoch : Option ℕ
  pub status : ℕ
  pub is_ready : Bool

pub record Connection : Type 0 where
  pub dave_session : Option Session
  pub dave_protocol_version : ℕ
  pub generation : ℕ
  pub dave_pending_transitions : Dict ℕ
  pub dave_downgraded : Bool

-- What `session.decrypt` does: bytes, a RuntimeError, or a ValueError, which does or does not name
-- `NoDecryptorForUser`.
pub data Decrypted : Type 0 where
  plain : Bytes → Decrypted
  runtime_failure : Decrypted
  value_failure : Bool → Decrypted

pub record DaveState : Type 0 where
  pub protocol_version : ℕ
  pub epoch : Option ℕ
  pub status : Option ℕ
  pub pending_transition_ids : List ℕ
  pub last_epoch_change : Option ℕ
  pub ready : Bool
  pub downgrade_allowed : Bool
  pub prepared_at : Option ℕ
  pub generation : ℕ

pub record DaveBridge : Type 0 where
  pub epoch_prepared_at : Option ℕ
  pub session : Option ℕ
  pub state : DaveState

-- `__init__`
abbrev pub new_bridge : DaveBridge
new_bridge = record {
  epoch_prepared_at = none;
  session = none;
  state = record {
    protocol_version = 0;
    epoch = none;
    status = none;
    pending_transition_ids = [];
    last_epoch_change = none;
    ready = false;
    downgrade_allowed = false;
    prepared_at = none;
    generation = 0;
  };
}

-- `a == b` on optional numbers, and `a is b` on optional objects.
unfoldable pub same : Option ℕ → Option ℕ → Bool
same none none = true
same (some a) (some b) = a == b
same _ _ = false

abbrev session_epoch : Option Session → Option ℕ
session_epoch none = none
session_epoch (some s) = s.epoch

abbrev session_status : Option Session → Option ℕ
session_status none = none
session_status (some s) = some s.status

abbrev session_object : Option Session → Option ℕ
session_object none = none
session_object (some s) = some s.object

abbrev session_ready : Option Session → Bool
session_ready none = false
session_ready (some s) = s.is_ready

abbrev pub is_ready : Connection → Bool
is_ready c = ltb 0 c.dave_protocol_version && session_ready c.dave_session

abbrev pub allows_plaintext : Connection → Bool
allows_plaintext c = c.dave_downgraded || contains 0 (map (λ e. e.1) c.dave_pending_transitions)

abbrev pub ends_marked : Bytes → Bool
ends_marked payload = eq_bytes (last_bytes 2 payload) marker

-- `_refresh_locked`
unfoldable pub refresh : ℕ → Connection → DaveBridge → DaveBridge
unfolding same
refresh now c b =
    let renewed = not (c.generation == b.state.generation) in
    let prepared = if renewed then none else b.epoch_prepared_at in
    let epoch = session_epoch c.dave_session in
    let changed =
      not (same (session_object c.dave_session) b.session)
      || not (same epoch b.state.epoch)
      || renewed in
    record {
      epoch_prepared_at = prepared;
      session = session_object c.dave_session;
      state = record {
        protocol_version = c.dave_protocol_version;
        epoch = epoch;
        status = session_status c.dave_session;
        pending_transition_ids = keys c.dave_pending_transitions;
        last_epoch_change = if changed then some now else b.state.last_epoch_change;
        ready = is_ready c;
        downgrade_allowed = allows_plaintext c;
        prepared_at = prepared;
        generation = c.generation;
      };
    }

unfoldable pub epoch_prepared : ℕ → Connection → DaveBridge → ℕ → DaveBridge
unfolding refresh
epoch_prepared now c b epoch =
    if epoch == 1 then record (refresh now c b) { epoch_prepared_at = some now } else b

-- The second component of what `decrypt_audio` returns. `assertion` is no outcome of the code that
-- can happen: `session is not None` fails.
pub data Reason : Type 0 where
  ok session_not_ready plaintext_rejected busy no_decryptor decrypt_error assertion : Reason

module _ (decrypt : Session → ℕ → Bytes → Decrypted) where
  unfoldable pub decrypt_locked : Option Session → ℕ → Bytes → Option Bytes × Reason
  decrypt_locked none user_id payload = (none, assertion)
  decrypt_locked (some s) user_id payload = elim (decrypt s user_id payload) [
    | plain l ↦ (some l, ok)
    | runtime_failure ↦ (none, busy)
    | value_failure names ↦ (none, if names then no_decryptor else decrypt_error)
  ]

  unfoldable pub decrypt_audio :
      ℕ → Connection → DaveBridge → ℕ → Bytes → DaveBridge × (Option Bytes × Reason)
  unfolding refresh decrypt_locked
  decrypt_audio now c b user_id payload =
      let b' = refresh now c b in
      if not b'.state.ready
      then (b', (none, session_not_ready))
      else if not b'.state.downgrade_allowed && not (ends_marked payload)
      then (b', (none, plaintext_rejected))
      else (b', decrypt_locked c.dave_session user_id payload)

  -- The outcome as a function of the connection alone.
  abbrev pub expected : Connection → ℕ → Bytes → Option Bytes × Reason
  expected c user_id payload = elim c.dave_session [
    | none ↦ (none, session_not_ready)
    | some s ↦
        if not (ltb 0 c.dave_protocol_version && s.is_ready)
        then (none, session_not_ready)
        else if not (allows_plaintext c || ends_marked payload)
        then (none, plaintext_rejected)
        else (elim (decrypt s user_id payload) [
          | plain l ↦ (some l, ok)
          | runtime_failure ↦ (none, busy)
          | value_failure names ↦ (none, if names then no_decryptor else decrypt_error)
        ])
  ]

  -- What `decrypt_audio` returns depends on the connection as it is at the call, and not on what
  -- the bridge observed before: no ready session, a payload refused as plaintext, or what the
  -- current session's `decrypt` does. The assertion in it never fails.
  pub decrypt_audio-expected :
      (now : ℕ) (c : Connection) (b : DaveBridge) (user_id : ℕ) (payload : Bytes)
      → (decrypt_audio now c b user_id payload).1 ≡ expected c user_id payload
  unfolding decrypt_audio
  decrypt_audio-expected now c b user_id payload = elim (Option-cases c.dave_session) [
    | inl e ↦ ground (arith, e)
    | inr (s, e) ↦ ground (arith, e)
  ]

  -- Unless a downgrade is allowed, a payload without the DAVE marker at its end never yields bytes.
  pub decrypt_audio-closed :
      (now : ℕ) (c : Connection) (b : DaveBridge) (user_id : ℕ) (payload : Bytes)
      → allows_plaintext c ≡ false
      → ends_marked payload ≡ false
      → (decrypt_audio now c b user_id payload).1.0 ≡ none
  unfolding decrypt_audio
  decrypt_audio-closed now c b user_id payload h m = ground (arith, h, m)

same_self : (a : Option ℕ) → same a a ≡ true
unfolding same
same_self none = refl
same_self (some n) = ground arith

-- A second refresh on an unchanged connection changes nothing, however much later it comes: the
-- time of the last epoch change stays that of the first observation.
refresh_again :
    (now later : ℕ) (c : Connection) (b : DaveBridge)
    → refresh later c (refresh now c b) ≡ refresh now c b
unfolding refresh
refresh_again now later c b =
    ground
      (arith, same_self (session_object c.dave_session), same_self (session_epoch c.dave_session))
