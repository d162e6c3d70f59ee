-- ===== src/Unknown/Queue.antt =====
-- The queues of unknown ssrcs stay bounded and apart.
use discord_ext_voice_recv.Base.{
  ℕ, suc, ◌+◌, ◌-◌, ◌≤◌, ◌<◌, ◌≡◌, refl, subst, none, some, List, [], ◌∷◌, ◌++◌, arith, ltb, ◌==◌,
  length, drop, map, All, All-append, All-drop, length-drop, length-append, length-map, Bool-cases,
  Option-cases, List-cases, inl, inr,
}
use discord_ext_voice_recv.Base.Dict.{Dict, get, put, delete, get-delete_self}
use discord_ext_voice_recv.Rtp.{RtpPacket}
use discord_ext_voice_recv.Unknown.{Pending, expire_queue, expire, queue_packet, flush_for}

module _ (max_age max_per_ssrc : ℕ) where
  abbrev pub Of : ℕ → Pending → Type 0
  Of ssrc x = x.packet.ssrc ≡ ssrc

  -- A queue holds one packet at least and `max_per_ssrc` at most, all of its own ssrc.
  abbrev pub IsQueue : ℕ × List Pending → Type 0
  IsQueue (ssrc, q) = (0 < length q) × (length q ≤ max_per_ssrc) × All (Of ssrc) q

  abbrev pub IsPending : Dict (List Pending) → Type 0
  IsPending m = All IsQueue m

  expire_queue_keeps :
      (now ssrc : ℕ) (q : List Pending)
      → All (Of ssrc) q
      → (length (expire_queue max_age max_per_ssrc now q) ≤ length q)
        × All (Of ssrc) (expire_queue max_age max_per_ssrc now q)
  unfolding expire_queue
  expire_queue_keeps now ssrc [] h = (omega arith, h)
  expire_queue_keeps now ssrc (p ∷ q) h =
      let (short, kept) = expire_queue_keeps now ssrc q h.1 in
      elim (Bool-cases (ltb (p.queued_at + max_age) now)) [
        | inl old ↦ rw old (omega (arith, short), kept)
        | inr young ↦ rw young (omega arith, h)
      ]

  expire-IsPending :
      (now : ℕ) (m : Dict (List Pending))
      → IsPending m
      → IsPending (expire max_age max_per_ssrc now m)
  unfolding expire
  expire-IsPending now [] h = h
  expire-IsPending now ((ssrc, q) ∷ m) h =
      let (short, kept) = expire_queue_keeps now ssrc q h.0.2 in
      let rest = expire-IsPending now m h.1 in
      elim (List-cases (expire_queue max_age max_per_ssrc now q)) [
        | inl e ↦ rw (e, expire) rest
        | inr (x, l, e) ↦
            let fits : suc (length l) ≤ max_per_ssrc = ground (arith, e, short, h.0.1) in
            rw (e, expire) ((omega arith, fits, subst (All (Of ssrc)) e kept), rest)
      ]

  get-IsQueue :
      (k : ℕ) (q : List Pending) (m : Dict (List Pending))
      → IsPending m
      → get k m ≡ some q
      → IsQueue (k, q)
  unfolding get
  get-IsQueue k q [] h e = cc
  get-IsQueue k q ((j, r) ∷ m) h e = elim (Bool-cases (j == k)) [
    | inl same ↦
        let key : j ≡ k = ground (arith, same) in
        let value : r ≡ q = ground (arith, e, same) in
        subst (λ (i : ℕ). IsQueue (i, q)) key
          (subst (λ (l : List Pending). IsQueue (j, l)) value h.0)
    | inr other ↦ get-IsQueue k q m h.1 (ground (arith, e, other))
  ]

  put-IsPending :
      (k : ℕ) (q : List Pending) (m : Dict (List Pending))
      → IsQueue (k, q)
      → IsPending m
      → IsPending (put k q m)
  unfolding put
  put-IsPending k q [] p h = (p, tt)
  put-IsPending k q ((j, r) ∷ m) p h = elim (Bool-cases (j == k)) [
    | inl same ↦ rw same (p, h.1)
    | inr other ↦ rw other (h.0, put-IsPending k q m p h.1)
  ]

  queued :
      (now ssrc : ℕ) (p : RtpPacket) (q : List Pending)
      → 0 < max_per_ssrc
      → p.ssrc ≡ ssrc
      → All (Of ssrc) q
      → let q' : List Pending = q ++ record { packet = p; queued_at = now } ∷ [] in
        IsQueue (ssrc, drop (length q' - max_per_ssrc) q')
  queued now ssrc p q h e o =
      let q' : List Pending = q ++ record { packet = p; queued_at = now } ∷ [] in
      let size = length-append q (record { packet = p; queued_at = now } ∷ []) in
      let left = length-drop (length q' - max_per_ssrc) q' in
      (
        omega (arith, size, left),
        omega (arith, size, left),
        All-drop (Of ssrc) (length q' - max_per_ssrc) q'
            (All-append (Of ssrc) q (record { packet = p; queued_at = now } ∷ []) o (e, tt)),
      )

  -- A packet that is queued leaves every queue nonempty, within the limit, and with packets of its
  -- own ssrc only, whatever expires at that time, if the limit is positive and it was so before.
  pub queue_packet-IsPending :
      (now : ℕ) (m : Dict (List Pending)) (p : RtpPacket)
      → 0 < max_per_ssrc
      → IsPending m
      → IsPending (queue_packet max_age max_per_ssrc now m p)
  unfolding queue_packet
  queue_packet-IsPending now m p h o =
      let m' = expire max_age max_per_ssrc now m in
      let o' = expire-IsPending now m o in
      elim (Option-cases (get p.ssrc m')) [
        | inl e ↦
            rw (e, queue_packet) (put-IsPending p.ssrc _ m' (queued now p.ssrc p [] h refl tt) o')
        | inr (q, e) ↦
            rw (e, queue_packet)
              (put-IsPending p.ssrc _ m'
                (queued now p.ssrc p q h refl (get-IsQueue p.ssrc q m' o' e).2) o')
      ]

  delete-IsPending : (k : ℕ) (m : Dict (List Pending)) → IsPending m → IsPending (delete k m)
  unfolding delete
  delete-IsPending k [] h = h
  delete-IsPending k ((j, q) ∷ m) h = elim (Bool-cases (j == k)) [
    | inl same ↦ rw same (delete-IsPending k m h.1)
    | inr other ↦ rw other (h.0, delete-IsPending k m h.1)
  ]

  pub flush_for-keeps :
      (now : ℕ) (m : Dict (List Pending)) (ssrc : ℕ)
      → IsPending m
      → IsPending (flush_for max_age max_per_ssrc now m ssrc).0
  unfolding flush_for
  flush_for-keeps now m ssrc o =
      let m' = expire max_age max_per_ssrc now m in
      let o' = expire-IsPending now m o in
      elim (Option-cases (get ssrc m')) [
        | inl e ↦ rw (e, flush_for) o'
        | inr (q, e) ↦ rw (e, flush_for) (delete-IsPending ssrc m' o')
      ]

  Of-packets :
      (ssrc : ℕ) (q : List Pending)
      → All (Of ssrc) q
      → All (λ (p : RtpPacket). p.ssrc ≡ ssrc) (map (λ (x : Pending). x.packet) q)
  Of-packets ssrc [] h = h
  Of-packets ssrc (x ∷ q) h = (h.0, Of-packets ssrc q h.1)

  -- A flush of an ssrc hands out packets of that ssrc only, at most `max_per_ssrc` of them, and
  -- leaves none of them queued, if every queue is nonempty, bounded and its own.
  pub flush_for-IsPending :
      (now : ℕ) (m : Dict (List Pending)) (ssrc : ℕ)
      → IsPending m
      → let (m', packets) = flush_for max_age max_per_ssrc now m ssrc in
        (length packets ≤ max_per_ssrc)
        × All (λ (p : RtpPacket). p.ssrc ≡ ssrc) packets
        × (get ssrc m' ≡ none)
  unfolding flush_for
  flush_for-IsPending now m ssrc o =
      let m' = expire max_age max_per_ssrc now m in
      let o' = expire-IsPending now m o in
      elim (Option-cases (get ssrc m')) [
        | inl e ↦ rw (e, flush_for) (omega arith, tt, e)
        | inr (q, e) ↦
            let (some_, fits, own) = get-IsQueue ssrc q m' o' e in
            let size : length (map (λ (x : Pending). x.packet) q) ≤ max_per_ssrc =
              omega (arith, length-map (λ (x : Pending). x.packet) q, fits) in
            rw (e, flush_for) (size, Of-packets ssrc q own, get-delete_self ssrc m')
      ]
