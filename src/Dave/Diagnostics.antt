-- ===== src/Dave/Diagnostics.antt =====
-- `DaveBridge.member_ids` and `diagnostics` of discord/ext/voice_recv/dave.py, with
-- `VoiceRecvClient._dave_diagnostics`, which calls it. What the session answers is given:
-- `user_ids` for `get_user_ids`, and `answer` for `get_decryption_stats`, by user.
use discord_ext_voice_recv.Base.{
  ℕ, ◌-◌, ◌≡◌, refl, Bool, true, false, Option, none, some, List, [], ◌∷◌, length, ltb,
  if◌then◌else◌, Result, ok, raise, value_error, ◌>>=◌, arith,
}
use discord_ext_voice_recv.Base.Dict.{Dict, put}
use discord_ext_voice_recv.HeapQueue.{sorted}
use discord_ext_voice_recv.Dave.Bridge.{Session, Connection, DaveBridge, refresh}

pub record DecryptionStats : Type 0 where
  pub successes : ℕ
  pub failures : ℕ
  pub duration : ℕ
  pub attempts : ℕ
  pub passthroughs : ℕ

-- A ValueError does or does not name `NoDecryptorForUser`.
pub data Answer : Type 0 where
  stats : DecryptionStats → Answer
  no_stats : Answer
  value_failure : Bool → Answer

pub record Diagnostics : Type 0 where
  pub status : Option ℕ
  pub epoch : Option ℕ
  pub ready : Bool
  pub protocol_version : ℕ
  pub generation : ℕ
  pub member_count : ℕ
  pub pending_transitions : List ℕ
  pub seconds_since_epoch_change : Option ℕ
  pub decryption_stats : Dict (ℕ × DecryptionStats)

unfoldable pub member_ids : (Session → List ℕ) → Connection → List ℕ
unfolding sorted
member_ids user_ids c = elim c.dave_session [ none ↦ [] | some s ↦ sorted ltb (user_ids s) ]

-- The loop of `diagnostics`, over the ssrcs and their users.
unfoldable pub decryptions : (ℕ → Answer) → Dict ℕ → Result (Dict (ℕ × DecryptionStats))
decryptions answer [] = ok []
decryptions answer ((ssrc, uid) ∷ l) = elim (answer uid) [
  | stats s ↦ decryptions answer l >>= λ d. ok ((ssrc, (uid, s)) ∷ d)
  | no_stats ↦ decryptions answer l
  | value_failure no_decryptor ↦ if no_decryptor then decryptions answer l else raise value_error
]

-- The state is refreshed also if the loop raises. `now` is the clock at the refresh, and `later` what
-- it answers at the end.
unfoldable pub diagnostics :
    (Session → List ℕ)
    → (ℕ → Answer)
    → ℕ
    → ℕ
    → Connection
    → Dict ℕ
    → DaveBridge
    → DaveBridge × Result Diagnostics
unfolding refresh member_ids decryptions sorted
diagnostics user_ids answer now later c audio_ssrcs b =
    let b' = refresh now c b in
    let state = b'.state in
    let loop : Result (Dict (ℕ × DecryptionStats)) = elim c.dave_session [
      | none ↦ ok []
      | some s ↦ decryptions answer audio_ssrcs
    ] in
    (
      b',
      loop >>= λ d. ok (record {
        status = state.status;
        epoch = state.epoch;
        ready = state.ready;
        protocol_version = state.protocol_version;
        generation = state.generation;
        member_count = length (member_ids user_ids c);
        pending_transitions = sorted ltb state.pending_transition_ids;
        seconds_since_epoch_change = elim state.last_epoch_change [
          | none ↦ none
          | some at ↦ some (later - at)
        ];
        decryption_stats = d;
      }),
    )

-- `{ssrc: uid for uid, ssrc in ...}`: of two users with one ssrc the later one stays.
unfoldable pub audio_ssrcs_from : Dict ℕ → Dict ℕ → Dict ℕ
audio_ssrcs_from acc [] = acc
audio_ssrcs_from acc ((uid, ssrc) ∷ l) = audio_ssrcs_from (put ssrc uid acc) l

unfoldable pub dave_diagnostics :
    (Session → List ℕ)
    → (ℕ → Answer)
    → ℕ
    → ℕ
    → Connection
    → Dict ℕ
    → DaveBridge
    → DaveBridge × Result Diagnostics
unfolding diagnostics audio_ssrcs_from
dave_diagnostics user_ids answer now later c id_to_ssrc b =
    diagnostics user_ids answer now later c (audio_ssrcs_from [] id_to_ssrc) b

-- Whether the session fails for one of the users in another way than having no decryptor.
abbrev pub any_fails : (ℕ → Answer) → Dict ℕ → Bool
any_fails answer [] = false
any_fails answer ((ssrc, uid) ∷ l) = elim (answer uid) [
  | value_failure false ↦ true
  | _ ↦ any_fails answer l
]

-- The entries of those that it has something of.
abbrev pub known : (ℕ → Answer) → Dict ℕ → Dict (ℕ × DecryptionStats)
known answer [] = []
known answer ((ssrc, uid) ∷ l) = elim (answer uid) [
  | stats s ↦ (ssrc, (uid, s)) ∷ known answer l
  | _ ↦ known answer l
]

-- The loop raises exactly when the session fails for one of the users in another way than having no
-- decryptor; else it keeps, in order, the ssrcs of those users that the session has statistics of.
pub decryptions-known :
    (answer : ℕ → Answer) (l : Dict ℕ)
    → decryptions answer l ≡ (if any_fails answer l then raise value_error else ok (known answer l))
unfolding decryptions
decryptions-known answer [] = refl
decryptions-known answer ((ssrc, uid) ∷ l) = ground (arith, decryptions-known answer l)
