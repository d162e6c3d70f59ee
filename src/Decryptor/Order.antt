-- ===== src/Decryptor/Order.antt =====
-- The drain keeps the order of each queue: no packet overtakes one that waits.
use mathlib.Core.List.{Sublist, sublist-append_right, nil-sublist, append_assoc}
use mathlib.Core.List.Sublist
use discord_ext_voice_recv.Base.{
  ℕ, ◌+◌, ◌<◌, ◌≡◌, refl, sym, ap, subst, ◌∙◌, inl, inr, Bool, true, false, Option, List, [], ◌∷◌,
  ◌++◌, arith, map, leb, if◌then◌else◌, Bool-cases, Option-cases, All,
}
use discord_ext_voice_recv.Base.Bytes.{Bytes}
use discord_ext_voice_recv.Rtp.{RtpPacket}
use discord_ext_voice_recv.Dave.Bridge.{DaveState, decrypt_audio}
use discord_ext_voice_recv.Decryptor.{Decryptor, Env, Pending, plaintext_rejected, is_retryable}
use discord_ext_voice_recv.Decryptor.Drain.{try_inner, drop_pending, recover, judge, drain_queue}

pub try_inner-ready :
    (env : Env) (emit : Bool) (d : Decryptor) (object : ℕ) (p : RtpPacket) (payload : Bytes)
    → (try_inner env emit d object p payload).0.pending_inner_ready ≡ d.pending_inner_ready
unfolding try_inner
try_inner-ready env emit d object p payload = elim (Option-cases (env.get_id_from_ssrc p.ssrc)) [
  | inl nobody ↦ ground (arith, nobody)
  | inr (u, known) ↦
      (elim (Option-cases
        (decrypt_audio env.decrypt env.now env.connection d.bridge u payload).1.0) [
          | inl failed ↦ ground (arith, known, failed)
          | inr (l, decrypted) ↦ ground (arith, known, decrypted)
        ])
]

-- What a round does: the packet stays, unexpired and not refused as plaintext, and blocks the
-- queue; or it is recovered from an unblocked queue; or it is dropped.
pub data Judged (env : Env) (state : Option DaveState) (blocked : Bool) (x : Pending)
    (d : Decryptor) : Decryptor × (Bool × Bool) → Type 0 where
  stays :
      (d' : Decryptor)
      → d'.pending_inner_ready ≡ d.pending_inner_ready
      → env.now < x.queued_at + x.max_age
      → plaintext_rejected x.payload state ≡ false
      → Judged env state blocked x d (d', (true, true))
  recovers :
      (d' : Decryptor)
      → d'.pending_inner_ready ≡ d.pending_inner_ready ++ x.object ∷ []
      → blocked ≡ false
      → Judged env state blocked x d (d', (false, false))
  drops :
      (d' : Decryptor) (b : Bool)
      → d'.pending_inner_ready ≡ d.pending_inner_ready
      → (blocked ≡ true → b ≡ true)
      → Judged env state blocked x d (d', (false, b))

judge-Judged :
    (env : Env) (state : Option DaveState) (blocked : Bool) (x : Pending) (d : Decryptor)
    → Judged env state blocked x d (judge env state blocked x d)
unfolding judge drop_pending recover
judge-Judged env state blocked x d = elim (Bool-cases (leb (x.queued_at + x.max_age) env.now)) [
  | inl old ↦ rw (old, judge) (drops _ blocked refl (λ h. h))
  | inr young ↦ (elim (Bool-cases (plaintext_rejected x.payload state)) [
    | inl plain ↦ rw (young, plain, judge) (drops _ blocked refl (λ h. h))
    | inr marked ↦ (elim (Bool-cases blocked) [
      | inl b ↦ rw (young, marked, b, judge) (stays d refl (ground (arith, young)) marked)
      | inr free ↦
          let o = try_inner env false d x.object x.packet x.payload in
          let same = try_inner-ready env false d x.object x.packet x.payload in
          elim (Option-cases o.1.0) [
            | inr (l, plain) ↦
                rw (young, marked, free, plain, judge)
                  (recovers (recover x l o.0) (ap (λ r. r ++ x.object ∷ []) same) refl)
            | inl failed ↦ (elim (Bool-cases (is_retryable o.1.1)) [
              | inl retry ↦
                  rw (young, marked, free, failed, retry, judge)
                    (stays o.0 same (ground (arith, young)) marked)
              | inr never ↦
                  rw (young, marked, free, failed, never, judge) (drops _ false same (λ h. h))
            ])
          ]
    ])
  ])
]

abbrev pub objects : List Pending → List ℕ
objects = map (λ x. x.object)

-- The packet may wait on: it has not expired, and is not refused as plaintext.
abbrev pub IsAlive : Env → Option DaveState → Pending → Type 0
IsAlive env state x =
    (env.now < x.queued_at + x.max_age) × (plaintext_rejected x.payload state ≡ false)

-- What the drain makes of a queue: a front part, out of which packets are recovered in order, and a
-- back part, out of which packets stay in order and alive.
pub record Drained (env : Env) (state : Option DaveState) (q : List Pending) (ready : List ℕ)
    (o : Decryptor × List Pending) : Type 0 where
  pub recovered : List Pending
  pub front : List Pending
  pub back : List Pending
  pub whole : q ≡ front ++ back
  pub earlier : Sublist recovered front
  pub later : Sublist (o.1) back
  pub appended : o.0.pending_inner_ready ≡ ready ++ objects recovered
  pub alive : All (IsAlive env state) (o.1)

Drains :
    Env → Option DaveState → Bool → List Pending → Decryptor → Decryptor × List Pending → Type 0
Drains env state blocked q d o =
    (r : Drained env state q d.pending_inner_ready o) × (blocked ≡ true → r.recovered ≡ [])

append_nothing : (l : List ℕ) → l ≡ l ++ []
append_nothing [] = refl
append_nothing (x ∷ l) = ap (◌∷◌ x) (append_nothing l)

round :
    (env : Env) (state : Option DaveState) (blocked : Bool) (x : Pending) (q : List Pending)
    (d : Decryptor) (o : Decryptor × (Bool × Bool)) (p : Decryptor × List Pending)
    → Judged env state blocked x d o
    → Drains env state o.1.1 q o.0 p
    → Drains env state blocked (x ∷ q) d (p.0, if o.1.0 then x ∷ p.1 else p.1)
unfolding Drains
round env state blocked x q d _ p (stays d' same alive marked) (r, idle) = (
  record {
    recovered = [];
    front = [];
    back = x ∷ q;
    whole = refl;
    earlier = nil-sublist [];
    later = Sublist.cons-cons x (
        subst (Sublist p.1) (sym r.whole)
          (Sublist.trans r.later (sublist-append_right r.front r.back)));
    appended =
        r.appended
        ∙ ap (λ l. d'.pending_inner_ready ++ objects l) (idle refl)
        ∙ sym (append_nothing d'.pending_inner_ready)
        ∙ same
        ∙ append_nothing d.pending_inner_ready;
    alive = ((alive, marked), r.alive);
  },
  λ h. refl,
)
round env state blocked x q d _ p (recovers d' more free) (r, idle) = (
  record {
    recovered = x ∷ r.recovered;
    front = x ∷ r.front;
    back = r.back;
    whole = ap (◌∷◌ x) r.whole;
    earlier = Sublist.cons-cons x r.earlier;
    later = r.later;
    appended =
        r.appended
        ∙ ap (λ l. l ++ objects r.recovered) more
        ∙ append_assoc d.pending_inner_ready (x.object ∷ []) (objects r.recovered);
    alive = r.alive;
  },
  λ h. cc,
)
round env state blocked x q d _ p (drops d' b same keeps) (r, idle) = (
  record {
    recovered = r.recovered;
    front = x ∷ r.front;
    back = r.back;
    whole = ap (◌∷◌ x) r.whole;
    earlier = Sublist.cons x r.earlier;
    later = r.later;
    appended = r.appended ∙ ap (λ l. l ++ objects r.recovered) same;
    alive = r.alive;
  },
  λ h. idle (keeps h),
)

drain_queue-Drains :
    (env : Env) (state : Option DaveState) (blocked : Bool) (q : List Pending) (d : Decryptor)
    → Drains env state blocked q d (drain_queue env state blocked q d)
unfolding drain_queue Drains
drain_queue-Drains env state blocked [] d = (
  record {
    recovered = [];
    front = [];
    back = [];
    whole = refl;
    earlier = nil-sublist [];
    later = nil-sublist [];
    appended = append_nothing d.pending_inner_ready;
    alive = tt;
  },
  λ h. refl,
)
drain_queue-Drains env state blocked (x ∷ q) d =
    let o = judge env state blocked x d in
    round env state blocked x q d o (drain_queue env state o.1.1 q o.0)
      (judge-Judged env state blocked x d) (drain_queue-Drains env state o.1.1 q o.0)

-- Draining a queue never lets a packet overtake an older one of its queue: the queue splits into a
-- front part, of which some packets are recovered, in order and behind those recovered before, and
-- a back part, of which some stay, in order. None that stays has expired or would be refused as
-- plaintext, so a packet leaves the queue at the first drain after its time at the latest.
pub drain_queue-Drained :
    (env : Env) (state : Option DaveState) (q : List Pending) (d : Decryptor)
    → Drained env state q d.pending_inner_ready (drain_queue env state false q d)
unfolding Drains
drain_queue-Drained env state q d = (drain_queue-Drains env state false q d).0
