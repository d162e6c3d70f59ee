-- ===== src/Decoder/Gap.antt =====
-- How the decoder closes a gap in the stream.
use discord_ext_voice_recv.Base.{
  ℕ, ◌+◌, ◌-◌, ◌%◌, ◌<◌, ◌≡◌, refl, ap, subst, ◌∙◌, List, [], ◌∷◌, arith, inl, inr, List-cases, ◌⊎◌,
  All,
}
use discord_ext_voice_recv.Base.Int.{ℤ, pos, negsuc, minus_one}
use discord_ext_voice_recv.Wrap.{add_wrapped, seq_wrap}
use discord_ext_voice_recv.Wrap.Laws.{gap_pos, add_one}
use discord_ext_voice_recv.Rtp.{rtp_cmp}
use discord_ext_voice_recv.Compare.{PacketCmp}
use discord_ext_voice_recv.Buffer.{Buffer, update_has_item, gap, advance, resync_to_next}
use discord_ext_voice_recv.Buffer.Ready.{IsValid, IsCursor, Is16Bit, add_wrapped-lt}
use discord_ext_voice_recv.Buffer.Contents.{items-update_has_item}

gap_numbers :
    (n m : ℕ)
    → n < 65536
    → m < 65536
    → 0 < (m + 65535 - n) % 65536
    → (m + 65535 - (n + 1) % 65536) % 65536 ≡ (m + 65535 - n) % 65536 - 1
gap_numbers n m hn hm h = omega arith

before_numbers :
    (m : ℕ) → m < 65536 → (m + 65535 - add_wrapped (pos m) minus_one seq_wrap) % 65536 ≡ 0
unfolding add_wrapped
before_numbers m h = ground arith

cursor_cases : (z : ℤ) → IsCursor z → (z ≡ minus_one) ⊎ ((n : ℕ) × (z ≡ pos n) × (n < 65536))
cursor_cases (pos n) h = inr (n, refl, h)
cursor_cases (negsuc n) h = inl (ap negsuc h)

module _ {ℓ} {A : Type ℓ} ⦃c : PacketCmp A⦄ where
  gap-update_has_item : (b : Buffer A) → gap (update_has_item b) ≡ gap b
  unfolding gap update_has_item
  gap-update_has_item b = elim (List-cases b.items) [
    | inl e ↦ ground (arith, e)
    | inr (x, l, e) ↦ ground (arith, e)
  ]

  pub items-advance : (b : Buffer A) (n : ℕ) → (advance b n).items ≡ b.items
  unfolding advance
  items-advance b n =
      let e =
        items-update_has_item
          (record b { last_tx_seq = pos (add_wrapped b.last_tx_seq (pos n) seq_wrap) }) in
      ground (arith, e)

  pub items-resync_to_next : (b : Buffer A) → (resync_to_next b).items ≡ b.items
  unfolding resync_to_next
  items-resync_to_next b = elim (List-cases b.items) [
    | inl e ↦ ground (arith, e)
    | inr (x, l, e) ↦ rw (e, resync_to_next) (items-update_has_item _ ∙ e)
  ]

  gap_at :
      (b : Buffer A) (n : ℕ) (x : A) (l : List A)
      → b.last_tx_seq ≡ pos n
      → b.items ≡ x ∷ l
      → n < 65536
      → c.sequence x < 65536
      → gap b ≡ (c.sequence x + 65535 - n) % 65536
  unfolding gap
  gap_at b n x l e f hn hx = ground (arith, e, f, gap_pos n (c.sequence x) hn hx)

  pub gap_idle : (b : Buffer A) → (b.items ≡ []) ⊎ (b.last_tx_seq ≡ minus_one) → gap b ≡ 0
  unfolding gap
  gap_idle b (inl e) = ground (arith, e)
  gap_idle b (inr e) = elim (List-cases b.items) [
    | inl f ↦ ground (arith, e, f)
    | inr (x, l, f) ↦ ground (arith, e, f)
  ]

  advance_at :
      (b : Buffer A) (n : ℕ)
      → b.last_tx_seq ≡ pos n
      → n < 65536
      → advance b 1 ≡ update_has_item (record b { last_tx_seq = pos ((n + 1) % 65536) })
  unfolding advance
  advance_at b n e h = ground (arith, e, add_one n h)

  -- One synthetic packet closes the gap by one.
  pub gap-advance : (b : Buffer A) → IsValid b → 0 < gap b → gap (advance b 1) ≡ gap b - 1
  gap-advance b v h = elim (List-cases b.items) [
    | inl e ↦ absurd (omega (arith, h, gap_idle b (inl e)))
    | inr (x, l, e) ↦ (elim (cursor_cases b.last_tx_seq v.cursor) [
      | inl f ↦ absurd (omega (arith, h, gap_idle b (inr f)))
      | inr (n, f, hn) ↦
          let s : All Is16Bit (x ∷ l) = subst (All Is16Bit) e v.sequences in
          let moved : Buffer A = record b { last_tx_seq = pos ((n + 1) % 65536) } in
          let now = gap_at b n x l f e hn s.0 in
          let then_ = gap_at moved ((n + 1) % 65536) x l refl e (omega arith) s.0 in
          let m : ℕ = c.sequence x in
          let hm : m < 65536 = s.0 in
          ap gap (advance_at b n f hn)
          ∙ gap-update_has_item moved
          ∙ then_
          ∙ gap_numbers n m hn hm (omega (arith, h, now))
          ∙ omega (arith, now)
    ])
  ]

  resync_at :
      (b : Buffer A) (x : A) (l : List A)
      → b.items ≡ x ∷ l
      → resync_to_next b
        ≡ update_has_item
            (record b { last_tx_seq = pos (add_wrapped (pos (c.sequence x)) minus_one seq_wrap) })
  unfolding resync_to_next
  resync_at b x l e = ground (arith, e)

  -- After a resync the next packet is the one that is due.
  pub gap-resync_to_next : (b : Buffer A) → IsValid b → gap (resync_to_next b) ≡ 0
  gap-resync_to_next b v = elim (List-cases b.items) [
    | inl e ↦ gap_idle (resync_to_next b) (inl (items-resync_to_next b ∙ e))
    | inr (x, l, e) ↦
        let s : All Is16Bit (x ∷ l) = subst (All Is16Bit) e v.sequences in
        let n = add_wrapped (pos (c.sequence x)) minus_one seq_wrap in
        let moved : Buffer A = record b { last_tx_seq = pos n } in
        let m : ℕ = c.sequence x in
        let hm : m < 65536 = s.0 in
        let small = add_wrapped-lt (pos m) minus_one in
        ap gap (resync_at b x l e)
        ∙ gap-update_has_item moved
        ∙ gap_at moved n x l refl e small hm
        ∙ before_numbers m hm
  ]
