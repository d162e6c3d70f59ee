-- ===== src/Decryptor/Store.antt =====
-- The marks of the packets in the store, through the writes of a reset.
use discord_ext_voice_recv.Base.{
  ℕ, ◌≡◌, refl, ◌∙◌, inl, inr, Bool, true, false, none, some, List, [], ◌∷◌, arith, ◌==◌, ◌||◌,
  if◌then◌else◌, Bool-cases, Option-cases, is_some,
}
use discord_ext_voice_recv.Base.Dict.{Dict, get, get-put}
use discord_ext_voice_recv.Rtp.{RtpPacket, Marks}
use discord_ext_voice_recv.Dave.Bridge.{refresh}
use discord_ext_voice_recv.Decryptor.{
  Decryptor, Env, Pending, mark, as_dropped, drop_queue, drop_queues, reset_session, bridge_state,
}

abbrev pub marked : (Marks → Marks) → RtpPacket → RtpPacket
marked f p = record p { marks = f p.marks }

pub get-mark :
    (f : Marks → Marks) (k j : ℕ) (s : Dict RtpPacket)
    → get j (mark f k s)
      ≡ (if k == j then elim (get j s) [ none ↦ none | some p ↦ some (marked f p) ] else get j s)
unfolding mark
get-mark f k j s = elim (Option-cases (get k s)) [
  | inl absent ↦ (elim (Bool-cases (k == j)) [
    | inl e ↦ ground (arith, absent)
    | inr ne ↦ ground (arith, absent)
  ])
  | inr (p, found) ↦ ground (arith, found, get-put k j (marked f p) s)
]

abbrev pub is_held : Dict RtpPacket → ℕ → Bool
is_held s object = elim (get object s) [
  | none ↦ false
  | some p ↦ p.marks.dropped || p.marks.pending
]

abbrev pub has : Dict RtpPacket → ℕ → Bool
has s object = is_some (get object s)

pub has-mark : (f : Marks → Marks) (k j : ℕ) (s : Dict RtpPacket) → has (mark f k s) j ≡ has s j
has-mark f k j s = elim (Option-cases (get j s)) [
  | inl absent ↦ ground (arith, get-mark f k j s, absent)
  | inr (p, found) ↦ ground (arith, get-mark f k j s, found)
]

pub is_held-dropped :
    (k j : ℕ) (s : Dict RtpPacket) → is_held s j ≡ true → is_held (mark as_dropped k s) j ≡ true
is_held-dropped k j s h = elim (Option-cases (get j s)) [
  | inl absent ↦ ground (arith, get-mark as_dropped k j s, absent, h)
  | inr (p, found) ↦ ground (arith, get-mark as_dropped k j s, found, h)
]

-- A write that drops the packet or lets it wait holds it.
pub is_held-mark :
    (f : Marks → Marks) (object : ℕ) (s : Dict RtpPacket)
    → ((m : Marks) → ((f m).dropped || (f m).pending) ≡ true)
    → has s object ≡ true
    → is_held (mark f object s) object ≡ true
is_held-mark f object s holds h = elim (Option-cases (get object s)) [
  | inl absent ↦ absurd (ground (arith, absent, h))
  | inr (p, found) ↦ ground (arith, get-mark f object object s, found, holds p.marks)
]

pub has-drop_queue :
    (j : ℕ) (q : List Pending) (d : Decryptor) → has (drop_queue q d).store j ≡ has d.store j
unfolding drop_queue
has-drop_queue j [] d = refl
has-drop_queue j (x ∷ q) d = has-drop_queue j q _ ∙ has-mark as_dropped x.object j d.store

pub has-drop_queues :
    (j : ℕ) (m : Dict (List Pending)) (d : Decryptor)
    → has (drop_queues m d).store j ≡ has d.store j
unfolding drop_queues
has-drop_queues j [] d = refl
has-drop_queues j ((ssrc, q) ∷ m) d = has-drop_queues j m (drop_queue q d) ∙ has-drop_queue j q d

pub has-reset_session :
    (j generation : ℕ) (d : Decryptor) → has (reset_session generation d).store j ≡ has d.store j
unfolding reset_session
has-reset_session j generation d = elim (Option-cases d.session_generation) [
  | inl new ↦ ground (arith, new)
  | inr (g, known) ↦ (elim (Bool-cases (generation == g)) [
    | inl e ↦ ground (arith, known, e)
    | inr ne ↦ ground (arith, known, ne, has-drop_queues j d.pending_inner_packets d)
  ])
]

pub has-bridge_state :
    (j : ℕ) (env : Env) (d : Decryptor) → has (bridge_state env d).0.store j ≡ has d.store j
unfolding bridge_state
has-bridge_state j env d =
    let b = refresh env.now env.connection d.bridge in
    let step = has-reset_session j b.state.generation (record d { bridge = b }) in
    elim (Bool-cases env.has_client) [
      | inl client ↦ ground (arith, client, step)
      | inr alone ↦ ground (arith, alone)
    ]

module _ (j : ℕ) (env : Env) where
  drop_queue-is_held :
      (q : List Pending) (d : Decryptor)
      → is_held d.store j ≡ true
      → is_held (drop_queue q d).store j ≡ true
  unfolding drop_queue
  drop_queue-is_held [] d h = h
  drop_queue-is_held (x ∷ q) d h = drop_queue-is_held q _ (is_held-dropped x.object j d.store h)

  drop_queues-is_held :
      (m : Dict (List Pending)) (d : Decryptor)
      → is_held d.store j ≡ true
      → is_held (drop_queues m d).store j ≡ true
  unfolding drop_queues
  drop_queues-is_held [] d h = h
  drop_queues-is_held ((ssrc, q) ∷ m) d h = drop_queues-is_held m _ (drop_queue-is_held q d h)

  reset_session-is_held :
      (generation : ℕ) (d : Decryptor)
      → is_held d.store j ≡ true
      → is_held (reset_session generation d).store j ≡ true
  unfolding reset_session
  reset_session-is_held generation d h = elim (Option-cases d.session_generation) [
    | inl new ↦ ground (arith, new, h)
    | inr (g, known) ↦ (elim (Bool-cases (generation == g)) [
      | inl e ↦ ground (arith, known, e, h)
      | inr ne ↦ ground (arith, known, ne, drop_queues-is_held d.pending_inner_packets d h)
    ])
  ]

  pub bridge_state-is_held :
      (d : Decryptor) → is_held d.store j ≡ true → is_held (bridge_state env d).0.store j ≡ true
  unfolding bridge_state
  bridge_state-is_held d h =
      let b = refresh env.now env.connection d.bridge in
      let step = reset_session-is_held b.state.generation (record d { bridge = b }) h in
      elim (Bool-cases env.has_client) [
        | inl client ↦ ground (arith, client, step)
        | inr alone ↦ ground (arith, alone, h)
      ]
