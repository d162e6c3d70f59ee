-- ===== src/Decryptor/Held.antt =====
-- The drain lets go of no packet in silence: what is dropped or waits is afterwards dropped, waits, or
-- is among the recovered.
use discord_ext_voice_recv.Base.{
  ℕ, ◌+◌, ◌≡◌, inl, inr, Bool, true, false, Option, none, some, List, [], ◌∷◌, ◌++◌, arith, leb,
  ◌==◌, ◌||◌, Bool-cases, Option-cases,
}
use discord_ext_voice_recv.Base.Bytes.{Bytes}
use discord_ext_voice_recv.Base.Dict.{Dict, get, get-put, contains}
use discord_ext_voice_recv.Rtp.{RtpPacket}
use discord_ext_voice_recv.Dave.Bridge.{DaveState, decrypt_audio}
use discord_ext_voice_recv.Decryptor.{
  Decryptor, Env, Pending, Drop, expired, plaintext, unrecoverable, count, dave_plaintext_rejected,
  mark, bridge_state, plaintext_rejected, is_retryable,
}
use discord_ext_voice_recv.Decryptor.Drain.{
  try_inner, as_decrypted, drop_pending, recover, judge, drain_queue, drain_queues, drain,
  pop_recovered,
}
use discord_ext_voice_recv.Decryptor.Order.{try_inner-ready}
use discord_ext_voice_recv.Decryptor.Store.{
  get-mark, is_held, is_held-dropped, bridge_state-is_held,
}

-- Held, or recovered.
abbrev pub is_kept : ℕ → Decryptor → Bool
is_kept j d = is_held d.store j || contains j d.pending_inner_ready

contains-concat : (j x : ℕ) (l : List ℕ) → contains j (l ++ x ∷ []) ≡ (x == j || contains j l)
unfolding contains
contains-concat j x [] = ground arith
contains-concat j x (y ∷ l) = ground (arith, contains-concat j x l)

is_held-decrypted :
    (k j : ℕ) (s : Dict RtpPacket)
    → (k == j) ≡ false
    → is_held (mark as_decrypted k s) j ≡ is_held s j
is_held-decrypted k j s ne = ground (arith, get-mark as_decrypted k j s, ne)

module _ (j : ℕ) (env : Env) where
  try_inner-other :
      (emit : Bool) (d : Decryptor) (object : ℕ) (p : RtpPacket) (l : Bytes)
      → (object == j) ≡ false
      → is_held (try_inner env emit d object p l).0.store j ≡ is_held d.store j
  unfolding try_inner
  try_inner-other emit d object p l ne = elim (Option-cases (env.get_id_from_ssrc p.ssrc)) [
    | inl nobody ↦ ground (arith, nobody)
    | inr (u, known) ↦
        (elim (Option-cases (decrypt_audio env.decrypt env.now env.connection d.bridge u l).1.0) [
          | inl failed ↦ ground (arith, known, failed)
          | inr (plain, decrypted) ↦
              ground (arith, known, decrypted, is_held-decrypted object j d.store ne)
        ])
  ]

  try_inner-failed :
      (emit : Bool) (d : Decryptor) (object : ℕ) (p : RtpPacket) (l : Bytes)
      → (try_inner env emit d object p l).1.0 ≡ none
      → (try_inner env emit d object p l).0.store ≡ d.store
  unfolding try_inner
  try_inner-failed emit d object p l h = elim (Option-cases (env.get_id_from_ssrc p.ssrc)) [
    | inl nobody ↦ ground (arith, nobody)
    | inr (u, known) ↦
        (elim (Option-cases (decrypt_audio env.decrypt env.now env.connection d.bridge u l).1.0) [
          | inl failed ↦ ground (arith, known, failed)
          | inr (plain, decrypted) ↦ (elim (Bool-cases env.has_client) [
            | inl client ↦ absurd (ground (arith, client, known, decrypted, h))
            | inr alone ↦ ground (arith, alone)
          ])
        ])
  ]

  drop_pending-is_kept :
      (why : Drop) (x : Pending) (d : Decryptor)
      → is_kept j d ≡ true
      → is_kept j (drop_pending why x d) ≡ true
  unfolding drop_pending
  drop_pending-is_kept why x d h = elim (Bool-cases (is_held d.store j)) [
    | inl held ↦ ground (arith, is_held-dropped x.object j d.store held)
    | inr free ↦ ground (arith, h, free)
  ]

  recover-is_held :
      (x : Pending) (l : Bytes) (d : Decryptor)
      → is_held (recover x l d).store j ≡ is_held d.store j
  unfolding recover
  recover-is_held x l d = elim (Option-cases (get x.object d.store)) [
    | inl absent ↦ ground (arith, absent)
    | inr (p, found) ↦
        let q : RtpPacket = record p {
          decrypted_data = some l;
          marks = record (p.marks) { ranges_count = some 0; recovered = true };
        } in
        (elim (Bool-cases (x.object == j)) [
          | inl e ↦
              let here : get j d.store ≡ some p = ground (arith, found, e) in
              ground (arith, found, here, e, get-put x.object j q d.store)
          | inr ne ↦ ground (arith, found, ne, get-put x.object j q d.store)
        ])
  ]

  recover-is_kept :
      (x : Pending) (l : Bytes) (d : Decryptor)
      → (is_kept j d || x.object == j) ≡ true
      → is_kept j (recover x l d) ≡ true
  unfolding recover
  recover-is_kept x l d h =
      ground (arith, h, recover-is_held x l d, contains-concat j x.object d.pending_inner_ready)

  judge-is_kept :
      (state : Option DaveState) (blocked : Bool) (x : Pending) (d : Decryptor)
      → is_kept j d ≡ true
      → is_kept j (judge env state blocked x d).0 ≡ true
  unfolding judge
  judge-is_kept state blocked x d h =
      let o = try_inner env false d x.object x.packet x.payload in
      let same = try_inner-ready env false d x.object x.packet x.payload in
      elim (Bool-cases (leb (x.queued_at + x.max_age) env.now)) [
        | inl old ↦ rw old (drop_pending-is_kept expired x d h)
        | inr young ↦ (elim (Bool-cases (plaintext_rejected x.payload state)) [
          | inl plain ↦
              rw (young, plain)
                (drop_pending-is_kept plaintext x (count d (dave_plaintext_rejected ∷ [])) h)
          | inr marked ↦ (elim (Bool-cases blocked) [
            | inl b ↦ rw (young, marked, b) h
            | inr free ↦ (elim (Option-cases o.1.0) [
              | inl failed ↦
                  let kept : is_kept j o.0 ≡ true =
                    ground (
                      arith,
                      h,
                      same,
                      try_inner-failed false d x.object x.packet x.payload failed,
                    ) in
                  (elim (Bool-cases (is_retryable o.1.1)) [
                    | inl retry ↦ rw (young, marked, free, failed, retry) kept
                    | inr never ↦
                        rw (young, marked, free, failed, never)
                          (drop_pending-is_kept unrecoverable x o.0 kept)
                  ])
              | inr (l, plain) ↦
                  let kept : (is_kept j o.0 || x.object == j) ≡ true =
                    (elim (Bool-cases (x.object == j)) [
                      | inl e ↦ ground (arith, e)
                      | inr ne ↦
                          ground
                            (arith, h, same, try_inner-other false d x.object x.packet x.payload ne)
                    ]) in
                  rw (young, marked, free, plain) (recover-is_kept x l o.0 kept)
            ])
          ])
        ])
      ]

  drain_queue-is_kept :
      (state : Option DaveState) (blocked : Bool) (q : List Pending) (d : Decryptor)
      → is_kept j d ≡ true
      → is_kept j (drain_queue env state blocked q d).0 ≡ true
  unfolding drain_queue
  drain_queue-is_kept state blocked [] d h = h
  drain_queue-is_kept state blocked (x ∷ q) d h =
      let o = judge env state blocked x d in
      drain_queue-is_kept state o.1.1 q o.0 (judge-is_kept state blocked x d h)

  drain_queues-is_kept :
      (state : Option DaveState) (m : Dict (List Pending)) (d : Decryptor)
      → is_kept j d ≡ true
      → is_kept j (drain_queues env state m d).0 ≡ true
  unfolding drain_queues
  drain_queues-is_kept state [] d h = h
  drain_queues-is_kept state ((ssrc, q) ∷ m) d h =
      drain_queues-is_kept state m (drain_queue env state false q d).0
        (drain_queue-is_kept state false q d h)

  -- A packet that is marked as dropped or as waiting is, after the recovered packets are taken, marked
  -- so or among those taken.
  pub pop_recovered-is_held :
      (d : Decryptor)
      → is_held d.store j ≡ true
      → let (d', ready) = pop_recovered env d in (is_held d'.store j || contains j ready) ≡ true
  unfolding pop_recovered drain
  pop_recovered-is_held d h =
      let b = bridge_state env d in
      let start : is_kept j b.0 ≡ true = ground (arith, bridge_state-is_held j env d h) in
      drain_queues-is_kept b.1 b.0.pending_inner_packets b.0 start
