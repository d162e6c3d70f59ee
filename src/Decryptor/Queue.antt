-- ===== src/Decryptor/Queue.antt =====
-- The queue of an ssrc after a packet has joined it.
use mathlib.Core.List.{Perm}
use mathlib.Core.List.Perm
use discord_ext_voice_recv.Base.{
  ℕ, suc, ◌≤◌, ◌≡◌, refl, sym, subst, inl, inr, List, [], ◌∷◌, ◌++◌, arith, ltb, Bool-cases, All,
  length, length-append,
}
use discord_ext_voice_recv.Base.Int.{pos, ◌+ℤ◌, ◌-ℤ◌, mod_ℤ}
use discord_ext_voice_recv.Base.Bytes.{Bytes}
use discord_ext_voice_recv.Base.Dict.{Dict, get_or, put, get-put_self}
use discord_ext_voice_recv.HeapQueue.Contents.{sorted-perm, length-perm}
use discord_ext_voice_recv.HeapQueue.Order.Sort.{IsAscending, sorted-IsAscending}
use discord_ext_voice_recv.Rtp.{RtpPacket}
use discord_ext_voice_recv.Decryptor.{
  Decryptor, Env, Pending, InnerReason, max_per_ssrc, bridge_state,
}
use discord_ext_voice_recv.Decryptor.Defer.{
  distance, nearer, sort_queue, trim, queue_of, patience, defer,
}

-- The place of a packet in the half-circle before and the half-circle after the anchor.
abbrev pub place : ℕ → Pending → ℕ
place anchor x = mod_ℤ (pos x.packet.sequence -ℤ pos anchor +ℤ pos 32768) 65536

nearer-place :
    (anchor : ℕ) (x y : Pending) → nearer anchor x y ≡ ltb (place anchor x) (place anchor y)
unfolding distance
nearer-place anchor x y = ground arith

everything : (l : List Pending) → All (λ _. Unit {0}) l
everything [] = tt
everything (x ∷ l) = (tt, everything l)

abbrev pub anchor_of : List Pending → ℕ
anchor_of [] = 0
anchor_of (x ∷ q) = x.packet.sequence

sort_queue-perm : (q : List Pending) → Perm (sort_queue q) q
unfolding sort_queue
sort_queue-perm [] = Perm.refl []
sort_queue-perm (x ∷ q) = sorted-perm (nearer x.packet.sequence) (x ∷ q)

sort_queue-IsAscending : (q : List Pending) → IsAscending (place (anchor_of q)) (sort_queue q)
unfolding sort_queue
sort_queue-IsAscending [] = tt
sort_queue-IsAscending (x ∷ q) =
    sorted-IsAscending (place x.packet.sequence) (nearer x.packet.sequence) (λ _. Unit {0})
      (λ a b _ _. nearer-place x.packet.sequence a b) (x ∷ q) (everything (x ∷ q))

-- What is left of a sorted queue: all of it, or, beyond the limit, all but its first packet.
pub data Trimmed (l : List Pending) : List Pending → Type 0 where
  whole : length l ≤ max_per_ssrc → Trimmed l l
  without_first :
      (x : Pending) (q : List Pending) → l ≡ x ∷ q → length q ≡ max_per_ssrc → Trimmed l q

trim-Trimmed :
    (l : List Pending) (d : Decryptor) → length l ≤ suc max_per_ssrc → Trimmed l (trim l d).1
unfolding trim
trim-Trimmed [] d h = whole (omega arith)
trim-Trimmed (x ∷ q) d h = elim (Bool-cases (ltb max_per_ssrc (length (x ∷ q)))) [
  | inl over ↦ rw over (without_first x q refl (ground (arith, over)))
  | inr fits ↦ rw fits (whole (ground (arith, fits)))
]

-- A queue that took a packet: a rearrangement of it with the packet, in order of the distance from
-- its first packet, and trimmed.
pub record Joined (old : List Pending) (x : Pending) (new : List Pending) : Type 0 where
  pub sorted_queue : List Pending
  pub same_packets : Perm sorted_queue (old ++ x ∷ [])
  pub ascending : IsAscending (place (anchor_of (old ++ x ∷ []))) sorted_queue
  pub trimmed : Trimmed sorted_queue new

get_queue-put :
    (ssrc : ℕ) (q : List Pending) (m : Dict (List Pending)) → get_or ssrc [] (put ssrc q m) ≡ q
get_queue-put ssrc q m = ground (arith, get-put_self ssrc q m)

-- A packet that is deferred joins the queue of its ssrc in a way that keeps its packets, in
-- ascending order of the signed 16-bit distance from the packet that was first. If the queue, as
-- the bridge's state leaves it, was within its limit, it still is: the first packet is given up if it
-- is full, and none is lost otherwise.
pub defer-Joined :
    (env : Env) (d : Decryptor) (object : ℕ) (p : RtpPacket) (payload : Bytes)
    (reason : InnerReason) (ranges : ℕ)
    → length (queue_of p.ssrc (bridge_state env d).0) ≤ max_per_ssrc
    → Joined
        (queue_of p.ssrc (bridge_state env d).0)
        (record {
          object = object;
          packet = p;
          payload = payload;
          reason = reason;
          queued_at = env.now;
          max_age = patience env.now (bridge_state env d).1;
        })
        (queue_of p.ssrc (defer env d object p payload reason ranges))
unfolding defer
defer-Joined env d object p payload reason ranges h =
    let b = bridge_state env d in
    let x : Pending = record {
      object = object;
      packet = p;
      payload = payload;
      reason = reason;
      queued_at = env.now;
      max_age = patience env.now b.1;
    } in
    let q = queue_of p.ssrc b.0 ++ x ∷ [] in
    let fits : length (sort_queue q) ≤ suc max_per_ssrc =
      omega
        (arith, h, length-perm (sort_queue-perm q), length-append (queue_of p.ssrc b.0) (x ∷ [])) in
    subst (Joined (queue_of p.ssrc b.0) x) (sym (get_queue-put p.ssrc _ _)) (record {
      sorted_queue = sort_queue q;
      same_packets = sort_queue-perm q;
      ascending = sort_queue-IsAscending q;
      trimmed = trim-Trimmed (sort_queue q) _ fits;
    })
