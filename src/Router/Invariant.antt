-- ===== src/Router/Invariant.antt =====
-- Each decoder serves one ssrc and holds only packets of that ssrc.
use discord_ext_voice_recv.Base.{
  ℕ, zero, suc, ◌<◌, ◌≡◌, refl, sym, subst, ◌∙◌, ◌⊎◌, Bool, Option, none, List, [], ◌∷◌, ok, arith,
  inl, inr, Option-cases, Bool-cases, List-cases, Result-cases, ltb, length, All,
}
use discord_ext_voice_recv.Base.Bytes.{Bytes}
use discord_ext_voice_recv.HeapQueue.{heappush}
use discord_ext_voice_recv.HeapQueue.Order.Queue.{heappush-All, heappop-All}
use discord_ext_voice_recv.Compare.{PacketCmp, before}
use discord_ext_voice_recv.Rtp.{RtpPacket, rtp_cmp}
use discord_ext_voice_recv.Buffer.{
  Buffer, push, pop, is_old, insert, cleanup, cleanup_loop, advance, resync_to_next, reset,
  peek_next,
}
use discord_ext_voice_recv.Buffer.Ready.{
  IsValid, Pops, waits, takes, pop-Pops, push-IsValid, pop-IsValid, advance-IsValid,
  resync_to_next-IsValid, reset-IsValid, is_ready,
}
use discord_ext_voice_recv.Buffer.Contents.{items-update_has_item}
use discord_ext_voice_recv.Decoder.Gap.{items-advance, items-resync_to_next}
use discord_ext_voice_recv.Decoder.{
  Codec, PacketDecoder, new_decoder, destroy, pop_data, get_next_packet, process_packet,
  decode_packet, decode_received, decode_fake, received, fake, Context, VoiceData, AudioPacket,
  Stat,
}
use discord_ext_voice_recv.Router.{push_packet}

module _ {ℓ} {A : Type ℓ} ⦃c : PacketCmp A⦄ (Q : A → Type 0) where
  cleanup_loop-All : (f maxsize : ℕ) (l : List A) → All Q l → All Q (cleanup_loop f maxsize l)
  unfolding cleanup_loop
  cleanup_loop-All zero m l h = h
  cleanup_loop-All (suc f) m [] h = ground arith
  cleanup_loop-All (suc f) m (x ∷ l) h =
      let (r, popped, kept) = heappop-All before Q x l h in
      elim (Bool-cases (ltb m (length (x ∷ l)))) [
        | inl over ↦ rw (over, popped) (cleanup_loop-All f m r kept)
        | inr fits ↦ rw fits h
      ]

  push-All : (b : Buffer A) (p : A) → Q p → All Q b.items → All Q (push b p).0.items
  unfolding push insert cleanup
  push-All b p q h = elim (Bool-cases (is_old b p)) [
    | inl old ↦ rw old h
    | inr new ↦
        let l = heappush before b.items p in
        rw (new, items-update_has_item)
          (cleanup_loop-All (length l) b.maxsize l (heappush-All before Q b.items p h q))
  ]

  Pops-All : (b : Buffer A) (o : Buffer A × Option A) → Pops b o → All Q b.items → All Q o.0.items
  Pops-All b _ (waits _) h = h
  Pops-All b _ (takes x l r ready e popped) h =
      let s : All Q (x ∷ l) = subst (All Q) e h in
      let (r', popped', kept) = heappop-All before Q x l s in
      let same : r' ≡ r = ground (arith, popped, popped') in
      rw items-update_has_item (subst (All Q) same kept)

-- A decoder's buffer is valid and holds packets of its own ssrc.
pub record IsOwn {D : Type 0} (d : PacketDecoder D) : Type 0 where
  pub valid : IsValid d.buffer
  pub own : All (λ (p : RtpPacket). p.ssrc ≡ d.ssrc) d.buffer.items

pub moved-IsOwn :
    {D : Type 0}
    → (d d' : PacketDecoder D) → d'.buffer ≡ d.buffer
    → d'.ssrc ≡ d.ssrc
    → IsOwn d
    → IsOwn d'
moved-IsOwn d d' b s o = record {
  valid = subst (λ (x : Buffer RtpPacket). IsValid x) (sym b) o.valid;
  own =
      subst (λ (x : Buffer RtpPacket). All (λ (p : RtpPacket). p.ssrc ≡ d'.ssrc) x.items) (sym b)
        (subst (λ (k : ℕ). All (λ (p : RtpPacket). p.ssrc ≡ k) d.buffer.items) (sym s) o.own);
}

module _ {D : Type 0} (codec : Codec D) where
  pub new_decoder-IsOwn :
      (wants_opus : Bool) (ssrc : ℕ) → IsOwn (new_decoder codec wants_opus ssrc none)
  unfolding new_decoder is_ready
  new_decoder-IsOwn wants_opus ssrc = record {
    valid = record {
      positive = omega arith;
      pref = omega arith;
      bounded = omega arith;
      sequences = tt;
      cursor = refl;
      flag = ground arith;
    };
    own = tt;
  }

  pub push_packet-IsOwn :
      (d : PacketDecoder D) (p : RtpPacket)
      → p.ssrc ≡ d.ssrc
      → p.sequence < 65536
      → IsOwn d
      → IsOwn (push_packet codec d p)
  unfolding push_packet
  push_packet-IsOwn d p e h o = record {
    valid = push-IsValid d.buffer p h o.valid;
    own = push-All (λ (q : RtpPacket). q.ssrc ≡ d.ssrc) d.buffer p e o.own;
  }

  pub destroy-IsOwn : (d : PacketDecoder D) → IsOwn d → IsOwn (destroy codec d)
  unfolding destroy reset
  destroy-IsOwn d o = record { valid = reset-IsValid d.buffer o.valid; own = tt }

  next_buffer :
      (d : PacketDecoder D)
      → let b = (pop d.buffer).0 in
        let d' = (get_next_packet codec d).0 in
        (d' ≡ record d { buffer = b })
        ⊎ ((d' ≡ record d { buffer = resync_to_next b }) ⊎ (d' ≡ record d { buffer = advance b 1 }))
  unfolding get_next_packet
  next_buffer d = elim (Option-cases (pop d.buffer).1) [
    | inr (p, e) ↦ ground (arith, e)
    | inl e ↦ (elim (List-cases (pop d.buffer).0.items) [
      | inl f ↦ ground (arith, e, f)
      | inr (x, l, f) ↦ ground (arith, e, f)
    ])
  ]

  get_next_packet-IsOwn :
      (d : PacketDecoder D)
      → IsOwn d
      → IsOwn (get_next_packet codec d).0 × ((get_next_packet codec d).0.ssrc ≡ d.ssrc)
  get_next_packet-IsOwn d o =
      let b = (pop d.buffer).0 in
      let Q : RtpPacket → Type 0 = λ p. p.ssrc ≡ d.ssrc in
      let kept = Pops-All Q d.buffer (pop d.buffer) (pop-Pops d.buffer o.valid) o.own in
      let v = pop-IsValid d.buffer o.valid in
      elim (next_buffer d) [
        | inl e ↦ rw e (record { valid = v; own = kept }, refl)
        | inr (inl e) ↦ rw e (
          record {
            valid = resync_to_next-IsValid b v;
            own = subst (All Q) (sym (items-resync_to_next b)) kept;
          },
          refl,
        )
        | inr (inr e) ↦ rw e (
          record {
            valid = advance-IsValid b 1 v;
            own = subst (All Q) (sym (items-advance b 1)) kept;
          },
          refl,
        )
      ]

  decode_packet_frame :
      (d d' : PacketDecoder D) (packet : AudioPacket) (rest : Bytes × List Stat)
      → decode_packet codec d packet ≡ ok (d', rest)
      → (d'.buffer ≡ d.buffer) × (d'.ssrc ≡ d.ssrc)
  unfolding decode_packet
  decode_packet_frame d d' (received p) rest e = elim (Option-cases d.decoder) [
    | inl off ↦ absurd (ground (arith, e, off))
    | inr (state, on) ↦ (elim (Result-cases (decode_received codec state p)) [
      | inl (x, failed) ↦ absurd (ground (arith, e, on, failed))
      | inr (_, decoded) ↦ ground (arith, e, on, decoded)
    ])
  ]
  decode_packet_frame d d' (fake _ _ _) rest e = elim (Option-cases d.decoder) [
    | inl off ↦ absurd (ground (arith, e, off))
    | inr (state, on) ↦ (elim (Result-cases (decode_fake codec state (peek_next d.buffer))) [
      | inl (x, failed) ↦ absurd (ground (arith, e, on, failed))
      | inr (_, decoded) ↦ ground (arith, e, on, decoded)
    ])
  ]

  process_packet_frame :
      {U : Type 0}
      → (c : Context U) (d d' : PacketDecoder D) (packet : AudioPacket)
        (rest : VoiceData U × List Stat)
      → process_packet codec c d packet ≡ ok (d', rest)
      → (d'.buffer ≡ d.buffer) × (d'.ssrc ≡ d.ssrc)
  unfolding process_packet
  process_packet_frame c d d' packet rest e = elim (Bool-cases c.wants_opus) [
    | inl opus ↦ ground (arith, e, opus)
    | inr pcm ↦ (elim (Result-cases (decode_packet codec d packet)) [
      | inl (x, failed) ↦ absurd (ground (arith, e, pcm, failed))
      | inr ((d'', r), decoded) ↦
          let (same, same') = decode_packet_frame d d'' packet r decoded in
          ground (arith, e, pcm, decoded, same, same')
    ])
  ]

  pub pop_data-IsOwn :
      {U : Type 0}
      → (c : Context U) (d d' : PacketDecoder D) (rest : Option (VoiceData U) × List Stat)
      → pop_data codec c d ≡ ok (d', rest)
      → IsOwn d
      → IsOwn d' × (d'.ssrc ≡ d.ssrc)
  unfolding pop_data
  pop_data-IsOwn c d d' rest e o =
      let next_ = (get_next_packet codec d).0 in
      let (o', s) = get_next_packet-IsOwn d o in
      elim (Option-cases (get_next_packet codec d).1.0) [
        | inl quiet ↦ let same : d' ≡ next_ = ground (arith, e, quiet) in rw same (o', s)
        | inr (packet, emitted) ↦ (elim (Result-cases (process_packet codec c next_ packet)) [
          | inl (x, failed) ↦ absurd (ground (arith, e, emitted, failed))
          | inr ((d'', r), done) ↦
              let (b, s') = process_packet_frame c next_ d'' packet r done in
              let same : d' ≡ d'' = ground (arith, e, emitted, done) in
              rw same (moved-IsOwn next_ d'' b s' o', s' ∙ s)
        ])
      ]
