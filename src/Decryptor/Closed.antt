-- ===== src/Decryptor/Closed.antt =====
-- The receiver fails closed: while DAVE is on, a packet goes on only with what the session decrypted.
use discord_ext_voice_recv.Base.{
  ℕ, ◌<◌, ◌≡◌, ◌⊎◌, sym, ap, ◌∙◌, inl, inr, Bool, true, Option, some, List, [], ◌∷◌, ◌++◌, arith,
  ltb, ◌||◌, Bool-cases, Option-cases, is_some, is_empty, length,
}
use discord_ext_voice_recv.Base.Bytes.{Bytes}
use discord_ext_voice_recv.Base.Dict.{get}
use discord_ext_voice_recv.Rtp.{RtpPacket}
use discord_ext_voice_recv.Dave.Bridge.{
  Reason, decrypt_audio, decrypt_audio-expected, expected, refresh,
}
use discord_ext_voice_recv.Decryptor.{
  Decryptor, Env, Pending, InnerReason, mark, bridge_state, max_per_ssrc, plaintext_rejected,
  is_retryable, is_ordered, ordered, count, dave_inner_defer_queued, dave_inner_defer_reason,
  dave_inner_unresolved_packets,
}
use discord_ext_voice_recv.Decryptor.Defer.{defer, as_waiting, trim, sort_queue, queue_of, patience}
use discord_ext_voice_recv.Decryptor.Drain.{try_inner, as_decrypted}
use discord_ext_voice_recv.Decryptor.Receive.{
  note_payload, unresolved, resolve, receive_opened, is_covered, parsed_of, ranges_of, as_refused,
  as_covered, covered,
}
use discord_ext_voice_recv.Decryptor.Store.{
  is_held, has, has-mark, is_held-dropped, is_held-mark, has-bridge_state,
}

has-note_payload :
    (j : ℕ) (d : Decryptor) (object : ℕ) (p : RtpPacket) (l : Bytes)
    → has (note_payload d object p l).store j ≡ has d.store j
unfolding note_payload
has-note_payload j d object p l = elim (Option-cases (parsed_of l)) [
  | inl absent ↦ ground (arith, absent)
  | inr (s, found) ↦
      ground (arith, found, has-mark (λ m. record m { dave_nonce = some s.nonce }) object j d.store)
]

is_held-trim :
    (j : ℕ) (q : List Pending) (d : Decryptor)
    → is_held d.store j ≡ true
    → is_held (trim q d).0.store j ≡ true
unfolding trim
is_held-trim j [] d h = h
is_held-trim j (x ∷ q) d h = elim (Bool-cases (ltb max_per_ssrc (length (x ∷ q)))) [
  | inl over ↦ rw over (is_held-dropped x.object j d.store h)
  | inr fits ↦ rw fits h
]

is_held-defer :
    (env : Env) (d : Decryptor) (object : ℕ) (p : RtpPacket) (l : Bytes) (r : InnerReason) (n : ℕ)
    → has d.store object ≡ true
    → is_held (defer env d object p l r n).store object ≡ true
unfolding defer
is_held-defer env d object p l r n h =
    let b = bridge_state env d in
    let x : Pending = record {
      object = object;
      packet = p;
      payload = l;
      reason = r;
      queued_at = env.now;
      max_age = patience env.now b.1;
    } in
    let s = mark (as_waiting n) object b.0.store in
    let d' =
      count (record (b.0) { store = s })
        (dave_inner_defer_queued ∷ dave_inner_defer_reason r ∷ []) in
    is_held-trim object (sort_queue (queue_of p.ssrc b.0 ++ x ∷ [])) d' (
      is_held-mark (as_waiting n) object b.0.store (λ m. ground arith)
        (has-bridge_state object env d ∙ h))

is_held-unresolved :
    (env : Env) (d : Decryptor) (object : ℕ) (p : RtpPacket) (l : Bytes) (r : InnerReason) (n : ℕ)
    → has d.store object ≡ true
    → is_held (unresolved env d object p l r n).store object ≡ true
unfolding unresolved
is_held-unresolved env d object p l r n h = elim (Bool-cases (is_retryable r || is_ordered r)) [
  | inl waits ↦
      rw waits (is_held-defer env (count d (dave_inner_unresolved_packets ∷ [])) object p l r n h)
  | inr never ↦
      rw never
        (is_held-mark (λ m. record m { dropped = true }) object d.store (λ m. ground arith) h)
]

has-try_inner :
    (env : Env) (emit : Bool) (d : Decryptor) (object : ℕ) (p : RtpPacket) (l : Bytes)
    → has (try_inner env emit d object p l).0.store object ≡ has d.store object
unfolding try_inner
has-try_inner env emit d object p l = elim (Option-cases (env.get_id_from_ssrc p.ssrc)) [
  | inl nobody ↦ ground (arith, nobody)
  | inr (u, known) ↦
      (elim (Option-cases (decrypt_audio env.decrypt env.now env.connection d.bridge u l).1.0) [
        | inl failed ↦ ground (arith, known, failed)
        | inr (plain, decrypted) ↦
            ground (arith, known, decrypted, has-mark as_decrypted object object d.store)
      ])
]

-- The bytes are what the session decrypts the payload to for the user of the ssrc.
abbrev pub Opened : Env → RtpPacket → Bytes → Bytes → Type 0
Opened env p payload plain =
    (u : ℕ) × (env.get_id_from_ssrc p.ssrc ≡ some u)
    × ((expected env.decrypt env.connection u payload).0 ≡ some plain)

try_inner-Opened :
    (env : Env) (emit : Bool) (d : Decryptor) (object : ℕ) (p : RtpPacket) (l plain : Bytes)
    → (try_inner env emit d object p l).1.0 ≡ some plain
    → Opened env p l plain
unfolding try_inner
try_inner-Opened env emit d object p l plain h = elim (Option-cases (env.get_id_from_ssrc p.ssrc)) [
  | inl nobody ↦ absurd (ground (arith, nobody, h))
  | inr (u, known) ↦
      let e = decrypt_audio-expected env.decrypt env.now env.connection d.bridge u l in
      (elim (Option-cases (decrypt_audio env.decrypt env.now env.connection d.bridge u l).1.0) [
        | inl failed ↦ absurd (ground (arith, known, failed, h))
        | inr (plain', decrypted) ↦
            let same : plain' ≡ plain = ground (arith, known, decrypted, h) in
            (u, known, sym (ap (λ (o : Option Bytes × Reason). o.0) e) ∙ decrypted ∙ ap some same)
      ])
]

-- What the receiver ends with.
abbrev pub IsClosed : Env → ℕ → RtpPacket → Bytes → Decryptor × Bytes → Type 0
IsClosed env object p payload o = (is_held o.0.store object ≡ true) ⊎ Opened env p payload (o.1)

resolve-IsClosed :
    (env : Env) (d : Decryptor) (object : ℕ) (p : RtpPacket) (l : Bytes) (n : ℕ)
    → has d.store object ≡ true
    → IsClosed env object p l (resolve env d object p l n)
unfolding resolve
resolve-IsClosed env d object p l n h =
    let stored = has-mark (as_covered n) object object d.store ∙ h in
    let d1 : Decryptor = covered object n d in
    let o = try_inner env true d1 object p l in
    elim (Bool-cases (is_empty (queue_of p.ssrc d1))) [
      | inr waits ↦ rw waits (inl (is_held-unresolved env d1 object p l ordered n stored))
      | inl free ↦ (elim (Option-cases o.1.0) [
        | inl failed ↦
            rw (free, failed)
              (inl (
                is_held-unresolved env o.0 object p l o.1.1 n
                  (has-try_inner env true d1 object p l ∙ stored)))
        | inr (plain, decrypted) ↦
            rw (free, decrypted) (inr (try_inner-Opened env true d1 object p l plain decrypted))
      ])
    ]

bridge_state-on :
    (env : Env) (d : Decryptor) (l : Bytes)
    → env.has_client ≡ true
    → 0 < env.connection.dave_protocol_version
    → is_covered (bridge_state env d).1 l ≡ true
unfolding bridge_state refresh
bridge_state-on env d l client on = ground (arith, client, on)

-- While there is a voice client whose connection has the DAVE protocol on, a packet of the store that
-- the transport layer opened ends either marked as dropped or as waiting, or with the bytes that the
-- bridge's session decrypts its payload to for the user of the ssrc. Nothing else goes on.
pub receive_opened-IsClosed :
    (env : Env) (d : Decryptor) (object : ℕ) (p : RtpPacket) (l : Bytes)
    → env.has_client ≡ true
    → 0 < env.connection.dave_protocol_version
    → is_some (get object d.store) ≡ true
    → IsClosed env object p l (receive_opened env d object p l)
unfolding receive_opened
receive_opened-IsClosed env d object p l client on h =
    let b = bridge_state env d in
    let d2 = note_payload b.0 object p l in
    let stored : has d2.store object ≡ true =
      has-note_payload object b.0 object p l ∙ has-bridge_state object env d ∙ h in
    elim (Bool-cases (plaintext_rejected l b.1)) [
      | inl refused ↦
          rw refused (inl (is_held-mark as_refused object d2.store (λ m. ground arith) stored))
      | inr marked ↦
          rw (marked, bridge_state-on env d l client on)
            (resolve-IsClosed env d2 object p l (ranges_of (parsed_of l)) stored)
    ]
