-- ===== src/Tests/Dave.antt =====
-- A DAVE frame of one byte of ciphertext.
use discord_ext_voice_recv.Base.{
  ℕ, ◌≡◌, refl, true, false, some, none, List, [], ◌∷◌, arith, ◌==◌, if◌then◌else◌, ok, raise,
  value_error,
}
use discord_ext_voice_recv.Base.Bytes.{Bytes, eq_bytes}
use discord_ext_voice_recv.Base.Dict.{contains}
use discord_ext_voice_recv.Dave.{parse_dave_payload, Range}
use discord_ext_voice_recv.Dave.Bridge.{
  Session, Connection, Decrypted, plain, new_bridge, decrypt_audio, decrypt_audio-closed,
}
use discord_ext_voice_recv.Dave.Diagnostics.{
  DecryptionStats, Answer, stats, no_stats, value_failure, decryptions,
}
use discord_ext_voice_recv.Dave.Uleb.{put_uleb}
use discord_ext_voice_recv.Dave.Parse.{frame, supplemental, parse_dave_payload-frame}

abbrev tag : Bytes
tag = 1 ∷ 2 ∷ 3 ∷ 4 ∷ 5 ∷ 6 ∷ 7 ∷ 8 ∷ []

abbrev ranges : List Range
ranges = (0, 1) ∷ []

parse_dave_payload-frame_example :
    parse_dave_payload (frame (9 ∷ []) tag 300 ranges) ≡ some (some (supplemental 1 15 300 ranges))
unfolding put_uleb
parse_dave_payload-frame_example =
    parse_dave_payload-frame (9 ∷ []) tag 300 ranges refl (omega arith)
      ((omega arith, omega arith), tt) (omega arith)

abbrev session : Session
session = record { object = 1; epoch = some 3; status = 2; is_ready = true }

abbrev connection : Connection
connection = record {
  dave_session = some session;
  dave_protocol_version = 1;
  generation = 1;
  dave_pending_transitions = [];
  dave_downgraded = false;
}

-- A session that decrypts everything to silence.
abbrev silent : Session → ℕ → Bytes → Decrypted
silent s user_id payload = plain (0xf8 ∷ 0xff ∷ 0xfe ∷ [])

plaintext_refused : (decrypt_audio silent 5 connection new_bridge 42 (1 ∷ 2 ∷ 3 ∷ [])).1.0 ≡ none
unfolding contains eq_bytes
plaintext_refused =
    decrypt_audio-closed silent 5 connection new_bridge 42 (1 ∷ 2 ∷ 3 ∷ []) refl refl

-- Of three ssrcs the session knows the first, and has no decryptor for the user of the second.
abbrev counts : DecryptionStats
counts = record { successes = 5; failures = 1; duration = 9; attempts = 6; passthroughs = 0 }

abbrev answer : ℕ → Answer
answer uid = if uid == 1 then stats counts else if uid == 2 then value_failure true else no_stats

some_known : decryptions answer ((10, 1) ∷ (20, 2) ∷ (30, 3) ∷ []) ≡ ok ((10, (1, counts)) ∷ [])
unfolding decryptions
some_known = refl

others_raise : decryptions (λ uid. value_failure false) ((10, 1) ∷ []) ≡ raise value_error
unfolding decryptions
others_raise = refl
