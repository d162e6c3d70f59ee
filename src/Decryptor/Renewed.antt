-- ===== src/Decryptor/Renewed.antt =====
-- A new generation of the session drops all that waits.
use discord_ext_voice_recv.Base.{
  ℕ, ◌≡◌, ◌≢◌, refl, sym, subst, inl, inr, Bool, true, false, none, some, List, [], ◌∷◌, arith,
  ◌==◌, ◌&&◌, ◌||◌, not, Bool-cases, Option-cases, All,
}
use discord_ext_voice_recv.Base.Dict.{Dict, get}
use discord_ext_voice_recv.Rtp.{RtpPacket}
use discord_ext_voice_recv.Dave.Bridge.{refresh, same}
use discord_ext_voice_recv.Decryptor.{
  Decryptor, Env, Pending, mark, as_dropped, drop_queue, drop_queues, reset_session, bridge_state,
}
use discord_ext_voice_recv.Decryptor.Store.{get-mark}

-- Dropped and waiting no more, if it is there at all.
abbrev pub is_gone : Dict RtpPacket → ℕ → Bool
is_gone s object = elim (get object s) [
  | none ↦ true
  | some p ↦ p.marks.dropped && not p.marks.pending
]

is_gone-mark :
    (k j : ℕ) (s : Dict RtpPacket) → is_gone (mark as_dropped k s) j ≡ (k == j || is_gone s j)
is_gone-mark k j s = elim (Option-cases (get j s)) [
  | inl absent ↦ ground (arith, get-mark as_dropped k j s, absent)
  | inr (q, found) ↦ ground (arith, get-mark as_dropped k j s, found)
]

drop_queue-keeps :
    (j : ℕ) (q : List Pending) (d : Decryptor)
    → is_gone d.store j ≡ true
    → is_gone (drop_queue q d).store j ≡ true
unfolding drop_queue
drop_queue-keeps j [] d h = h
drop_queue-keeps j (x ∷ q) d h =
    drop_queue-keeps j q _ (ground (arith, is_gone-mark x.object j d.store, h))

drop_queue-All :
    (q : List Pending) (d : Decryptor) → All (λ x. is_gone (drop_queue q d).store x.object ≡ true) q
unfolding drop_queue
drop_queue-All [] d = tt
drop_queue-All (x ∷ q) d = (
  drop_queue-keeps x.object q _ (ground (arith, is_gone-mark x.object x.object d.store)),
  drop_queue-All q _,
)

drop_queues-keeps :
    (j : ℕ) (m : Dict (List Pending)) (d : Decryptor)
    → is_gone d.store j ≡ true
    → is_gone (drop_queues m d).store j ≡ true
unfolding drop_queues
drop_queues-keeps j [] d h = h
drop_queues-keeps j ((ssrc, q) ∷ m) d h =
    drop_queues-keeps j m (drop_queue q d) (drop_queue-keeps j q d h)

module _ (s t : Dict RtpPacket) (further : (j : ℕ) → is_gone s j ≡ true → is_gone t j ≡ true) where
  All-is_gone :
      (q : List Pending)
      → All (λ x. is_gone s x.object ≡ true) q
      → All (λ x. is_gone t x.object ≡ true) q
  All-is_gone [] h = tt
  All-is_gone (x ∷ q) h = (further x.object h.0, All-is_gone q h.1)

-- All that the queues hold is gone.
abbrev pub AllGone : Dict RtpPacket → Dict (List Pending) → Type 0
AllGone s m = All (λ (e : ℕ × List Pending). All (λ x. is_gone s x.object ≡ true) (e.1)) m

drop_queues-AllGone : (m : Dict (List Pending)) (d : Decryptor) → AllGone (drop_queues m d).store m
unfolding drop_queues
drop_queues-AllGone [] d = tt
drop_queues-AllGone ((ssrc, q) ∷ m) d = (
  All-is_gone (drop_queue q d).store (drop_queues m (drop_queue q d)).store
      (λ j. drop_queues-keeps j m (drop_queue q d)) q (drop_queue-All q d),
  drop_queues-AllGone m (drop_queue q d),
)

-- What a new session leaves of the queues.
abbrev pub Renewed : Decryptor → Decryptor → Type 0
Renewed d d' =
    (d'.pending_inner_packets ≡ [])
    × (d'.pending_inner_ready ≡ [])
    × AllGone d'.store d.pending_inner_packets

-- The store, the queues and the recovered packets of two states.
abbrev pub waits : Decryptor → Dict RtpPacket × (Dict (List Pending) × List ℕ)
waits d = (d.store, (d.pending_inner_packets, d.pending_inner_ready))

by_waits :
    (d d' : Decryptor) (w : Dict RtpPacket × (Dict (List Pending) × List ℕ))
    → waits d' ≡ w
    → (w.1.0 ≡ []) × (w.1.1 ≡ []) × AllGone w.0 d.pending_inner_packets
    → Renewed d d'
by_waits d d' w e =
    subst
      (λ (v : Dict RtpPacket × (Dict (List Pending) × List ℕ)).
        (v.1.0 ≡ []) × (v.1.1 ≡ []) × AllGone v.0 d.pending_inner_packets)
      (sym e)

reset_session-Renewed :
    (generation g : ℕ) (d : Decryptor)
    → d.session_generation ≡ some g
    → g ≢ generation
    → Renewed d (reset_session generation d)
unfolding reset_session
reset_session-Renewed generation g d known other =
    let renewed : (generation == g) ≡ false = ground arith in
    let e : waits (reset_session generation d)
        ≡ ((drop_queues d.pending_inner_packets d).store, ([], [])) =
      ground (arith, known, renewed) in
    by_waits d (reset_session generation d) _ e
      (refl, refl, drop_queues-AllGone d.pending_inner_packets d)

pub bridge_state-reset :
    (env : Env) (d : Decryptor)
    → env.has_client ≡ true
    → waits (bridge_state env d).0
      ≡ waits (
          reset_session env.connection.generation
            (record d { bridge = refresh env.now env.connection d.bridge }))
unfolding bridge_state refresh
bridge_state-reset env d client =
    let b = refresh env.now env.connection d.bridge in
    let d' = reset_session env.connection.generation (record d { bridge = b }) in
    elim (Bool-cases (same b.state.last_epoch_change d'.last_epoch_change)) [
      | inl e ↦ ground (arith, client, e)
      | inr e ↦ ground (arith, client, e)
    ]

-- If there is a voice client, a look at the bridge after another generation of the session began
-- empties the queues and the list of recovered packets, and every packet that waited is, if it is in
-- the store, marked as dropped and as waiting no more.
pub bridge_state-Renewed :
    (env : Env) (d : Decryptor) (g : ℕ)
    → env.has_client ≡ true
    → d.session_generation ≡ some g
    → g ≢ env.connection.generation
    → Renewed d (bridge_state env d).0
bridge_state-Renewed env d g client known other =
    let b = refresh env.now env.connection d.bridge in
    let r : Decryptor = record d { bridge = b } in
    by_waits d (bridge_state env d).0 (waits (reset_session env.connection.generation r))
      (bridge_state-reset env d client)
      (reset_session-Renewed env.connection.generation g r known other)
