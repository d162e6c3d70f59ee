-- ===== src/Buffer/Ready.antt =====
-- The invariant of the jitter buffer: its bounds, and what its event says.
use discord_ext_voice_recv.Base.{
  ℕ, zero, suc, ◌+◌, ◌%◌, ◌≤◌, ◌<◌, ◌≡◌, inl, inr, refl, Bool, true, false, ◌&&◌, ◌||◌, Option,
  none, some, List, [], ◌∷◌, arith, ltb, leb, ◌==◌, length, All, Bool-cases, ok, get_last?,
  List-cases, Option-cases, ◌≢◌, subst, ◌∙◌,
}
use discord_ext_voice_recv.Base.Int.{ℤ, pos, negsuc, minus_one, ltb_ℤ}
use discord_ext_voice_recv.Wrap.{add_wrapped, seq_wrap}
use discord_ext_voice_recv.HeapQueue.{heappush, heappop, sorted}
use discord_ext_voice_recv.HeapQueue.Contents.{length-perm, heappop-perm}
use discord_ext_voice_recv.HeapQueue.Order.Queue.{heappush-All, heappop-All}
use discord_ext_voice_recv.HeapQueue.Order.Sort.{sorted-All}
use discord_ext_voice_recv.Compare.{PacketCmp, before}
use discord_ext_voice_recv.Buffer.{
  Buffer, init, next_is_due, update_has_item, cleanup_loop, cleanup, is_old, insert, push, pop,
  advance, resync_to_next, flush, reset,
}

-- -1, or a 16-bit sequence number.
abbrev pub IsCursor : ℤ → Type 0
IsCursor (pos n) = n < 65536
IsCursor (negsuc n) = n ≡ 0

pub add_wrapped-lt : (z w : ℤ) → add_wrapped z w seq_wrap < 65536
unfolding add_wrapped
add_wrapped-lt z w = ground arith

module _ {ℓ} {A : Type ℓ} ⦃c : PacketCmp A⦄ where
  abbrev pub Is16Bit : A → Type 0
  Is16Bit p = c.sequence p < 65536

  -- Nothing has gone out yet, or the packet follows the one that went out last.
  unfoldable pub follows : ℤ → A → Bool
  follows (negsuc _) p = true
  follows (pos n) p = c.sequence p == (n + 1) % 65536

  abbrev pub next_due : Buffer A → List A → Bool
  next_due b [] = false
  next_due b (next ∷ _) = follows b.last_tx_seq next || leb b.maxsize (length b.items)

  -- A packet may go out: the prefill is done, more than `prefsize` packets are held, and the next
  -- one continues the stream or the buffer is full.
  unfoldable pub is_ready : Buffer A → Bool
  is_ready b = b.prefill_left == 0 && ltb b.prefsize (length b.items) && next_due b b.items

  -- The sizes are those that `__init__` accepts, the buffer is never overfull, the cursor is -1 or
  -- a sequence number, and the event is set exactly when a packet may go out.
  pub record IsValid (b : Buffer A) : Type ℓ where
    pub positive : 0 < b.maxsize
    pub pref : b.prefsize ≤ b.maxsize
    pub bounded : length b.items ≤ b.maxsize
    pub sequences : All Is16Bit b.items
    pub cursor : IsCursor b.last_tx_seq
    pub flag : b.has_item ≡ is_ready b

  next_is_due-next_due :
      (b : Buffer A) (p : A)
      → IsCursor b.last_tx_seq
      → next_is_due b p ≡ (follows b.last_tx_seq p || leb b.maxsize (length b.items))
  unfolding next_is_due follows add_wrapped
  next_is_due-next_due b p h = ground arith

  update_has_item-flag :
      (b : Buffer A)
      → IsCursor b.last_tx_seq
      → update_has_item b ≡ record b { has_item = is_ready b }
  unfolding update_has_item is_ready
  update_has_item-flag b h = elim (List-cases b.items) [
    | inl e ↦ ground (arith, e)
    | inr (x, r, e) ↦ ground (arith, e, next_is_due-next_due b x)
  ]

  refresh-IsValid :
      (b : Buffer A)
      → 0 < b.maxsize
      → b.prefsize ≤ b.maxsize
      → length b.items ≤ b.maxsize
      → All Is16Bit b.items
      → IsCursor b.last_tx_seq
      → IsValid (update_has_item b)
  unfolding is_ready
  refresh-IsValid b h p l s k =
      rw (update_has_item-flag b k)
        (record { positive = h; pref = p; bounded = l; sequences = s; cursor = k; flag = refl })

  cleanup_loop_keeps :
      (f maxsize : ℕ) (l : List A)
      → length l ≤ f
      → All Is16Bit l
      → (length (cleanup_loop f maxsize l) ≤ maxsize) × All Is16Bit (cleanup_loop f maxsize l)
  unfolding cleanup_loop
  cleanup_loop_keeps zero m [] h s = (omega arith, s)
  cleanup_loop_keeps zero m (x ∷ l) h s = absurd (omega arith)
  cleanup_loop_keeps (suc f) m [] h s = (ground arith, ground arith)
  cleanup_loop_keeps (suc f) m (x ∷ l) h s =
      let (r, popped, kept) = heappop-All before Is16Bit x l s in
      let (r', popped', same) = heappop-perm before x l in
      let size : length r ≡ length l = ground (arith, popped, popped', length-perm same) in
      elim (Bool-cases (ltb m (length (x ∷ l)))) [
        | inl over ↦ rw (over, popped) (cleanup_loop_keeps f m r (omega (arith, size)) kept)
        | inr fits ↦ rw fits (ground arith, s)
      ]

  -- `push` keeps the invariant, whether it takes the packet or drops it as old.
  pub push-IsValid : (b : Buffer A) (p : A) → Is16Bit p → IsValid b → IsValid (push b p).0
  unfolding push insert cleanup
  push-IsValid b p s v = elim (Bool-cases (is_old b p)) [
    | inl old ↦ rw old v
    | inr new ↦
        let l = heappush before b.items p in
        let (size, kept) =
          cleanup_loop_keeps (length l) b.maxsize l (omega arith)
            (heappush-All before Is16Bit b.items p v.sequences s) in
        rw new (refresh-IsValid (cleanup (insert b p)) v.positive v.pref size kept v.cursor)
  ]

  -- `pop` on a valid buffer: nothing happens, or the root is popped and becomes the cursor.
  pub data Pops (b : Buffer A) : Buffer A × Option A → Type ℓ where
    waits : is_ready b ≡ false → Pops b (b, none)
    takes :
        (x : A) (l r : List A)
        → is_ready b ≡ true
        → b.items ≡ x ∷ l
        → heappop before (x ∷ l) ≡ some (x, r)
        → Pops b
            (update_has_item (record b { items = r; last_tx_seq = pos (c.sequence x) }), some x)

  pop_popped :
      (b : Buffer A) (x : A) (l r : List A)
      → b.has_item ≡ true
      → is_ready b ≡ true
      → b.items ≡ x ∷ l
      → heappop before (x ∷ l) ≡ some (x, r)
      → pop b ≡ (update_has_item (record b { items = r; last_tx_seq = pos (c.sequence x) }), some x)
  unfolding pop is_ready
  pop_popped b x l r f h e q = ground (arith, f, h, e, q)

  pop_waits : (b : Buffer A) → b.has_item ≡ false → pop b ≡ (b, none)
  unfolding pop
  pop_waits b f = ground arith

  ready_nonempty : (b : Buffer A) → is_ready b ≡ true → b.items ≢ []
  unfolding is_ready
  ready_nonempty b h = λ e. ground (arith, h, e)

  pub pop-Pops : (b : Buffer A) → IsValid b → Pops b (pop b)
  pop-Pops b v = elim (Bool-cases (is_ready b)) [
    | inl ready ↦ (elim (List-cases b.items) [
      | inl e ↦ absurd (ready_nonempty b ready e)
      | inr (x, l, e) ↦
          let (r, popped, _) = heappop-perm before x l in
          rw (pop_popped b x l r (v.flag ∙ ready) ready e popped) (takes x l r ready e popped)
    ])
    | inr idle ↦ rw (pop_waits b (v.flag ∙ idle)) (waits idle)
  ]

  popped-IsValid : (b : Buffer A) (o : Buffer A × Option A) → Pops b o → IsValid b → IsValid o.0
  popped-IsValid b _ (waits _) v = v
  popped-IsValid b _ (takes x l r _ e popped) v =
      let s : All Is16Bit (x ∷ l) = subst (All Is16Bit) e v.sequences in
      let (r', popped', kept) = heappop-All before Is16Bit x l s in
      let (r'', popped'', same) = heappop-perm before x l in
      let eq' : r' ≡ r = ground (arith, popped, popped') in
      let eq'' : r'' ≡ r = ground (arith, popped, popped'') in
      let smaller = length-perm same in
      refresh-IsValid (record b { items = r; last_tx_seq = pos (c.sequence x) }) v.positive v.pref
        (ground (arith, v.bounded, smaller)) (subst (All Is16Bit) eq' kept) s.0

  -- `pop` keeps the invariant.
  pub pop-IsValid : (b : Buffer A) → IsValid b → IsValid (pop b).0
  pop-IsValid b v = popped-IsValid b (pop b) (pop-Pops b v) v

  pub advance-IsValid : (b : Buffer A) (n : ℕ) → IsValid b → IsValid (advance b n)
  unfolding advance
  advance-IsValid b n v = elim (Bool-cases (ltb n 1 || ltb_ℤ b.last_tx_seq (pos 0))) [
    | inl skip ↦ rw skip v
    | inr move ↦ rw move (
        refresh-IsValid
          (record b { last_tx_seq = pos (add_wrapped b.last_tx_seq (pos n) seq_wrap) }) v.positive
          v.pref v.bounded v.sequences (add_wrapped-lt b.last_tx_seq (pos n)))
  ]

  pub resync_to_next-IsValid : (b : Buffer A) → IsValid b → IsValid (resync_to_next b)
  unfolding resync_to_next
  resync_to_next-IsValid b v = elim (List-cases b.items) [
    | inl e ↦ rw (e, resync_to_next) v
    | inr (x, l, e) ↦
        rw (e, resync_to_next)
          (refresh-IsValid
            (record b { last_tx_seq = pos (add_wrapped (pos (c.sequence x)) minus_one seq_wrap) })
            v.positive v.pref v.bounded v.sequences (add_wrapped-lt (pos (c.sequence x)) minus_one))
  ]

  last_of_sorted : (l : List A) → All Is16Bit l → (p : A) → get_last? l ≡ some p → Is16Bit p
  last_of_sorted [] h p e = cc
  last_of_sorted (x ∷ []) h p e = ground (arith, h.0)
  last_of_sorted (x ∷ y ∷ l) h p e = last_of_sorted (y ∷ l) h.1 p e

  pub flush-IsValid : (b : Buffer A) → IsValid b → IsValid (flush b).0
  unfolding flush is_ready
  flush-IsValid b v = elim (Option-cases (get_last? (sorted before b.items))) [
    | inl e ↦ rw e (record {
      positive = v.positive;
      pref = v.pref;
      bounded = omega arith;
      sequences = tt;
      cursor = v.cursor;
      flag = ground arith;
    })
    | inr (p, e) ↦ rw e (record {
      positive = v.positive;
      pref = v.pref;
      bounded = omega arith;
      sequences = tt;
      cursor =
          last_of_sorted (sorted before b.items) (sorted-All before Is16Bit b.items v.sequences) p
            e;
      flag = ground arith;
    })
  ]

  pub reset-IsValid : (b : Buffer A) → IsValid b → IsValid (reset b)
  unfolding reset is_ready
  reset-IsValid b v = record {
    positive = v.positive;
    pref = v.pref;
    bounded = omega arith;
    sequences = tt;
    cursor = refl;
    flag = ground arith;
  }

  pub init-IsValid :
      (maxsize prefsize : ℤ) (prefill : ℕ) {b : Buffer A}
      → init maxsize prefsize prefill ≡ ok b
      → IsValid b
  unfolding init is_ready
  init-IsValid maxsize prefsize prefill e = ground (arith, e)
