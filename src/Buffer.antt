-- ===== src/Buffer.antt =====
-- discord/ext/voice_recv/buffer.py, `HeapJitterBuffer`. One buffer holds the packets of one ssrc,
-- so `__lt__` does not raise on them. `Event` is its flag; `pop` is called with timeout 0, for which
-- `wait` returns the flag at once. Sequence numbers are those of RTP, 0 to 65535.
pub mod Ready
pub mod Contents
pub mod Order
pub mod History
use discord_ext_voice_recv.Base.{
  ℕ, zero, suc, ◌+◌, ◌-◌, ◌≤◌, Bool, true, false, ◌&&◌, ◌||◌, not, Option, none, some, List, [],
  ◌∷◌, Result, ok, raise, value_error, ltb, leb, ◌==◌, if◌then◌else◌, length, head?, get_last?,
  is_empty,
}
use discord_ext_voice_recv.Base.Int.{ℤ, pos, negsuc, minus_one, ltb_ℤ, leb_ℤ, eqb_ℤ, pos_part}
use discord_ext_voice_recv.Wrap.{gap_wrapped, add_wrapped, seq_wrap}
use discord_ext_voice_recv.HeapQueue.{heappush, heappop, sorted}
use discord_ext_voice_recv.Compare.{PacketCmp, before}

pub record Buffer {ℓ} (A : Type ℓ) : Type ℓ where
  pub maxsize : ℕ
  pub prefsize : ℕ
  pub prefill : ℕ
  -- `_prefill`: how many more packets must come before the first one goes out.
  pub prefill_left : ℕ
  pub last_tx_seq : ℤ
  pub has_item : Bool
  pub items : List A

-- `__init__`
unfoldable pub init {ℓ} : {A : Type ℓ} → ℤ → ℤ → ℕ → Result (Buffer A)
init maxsize prefsize prefill =
    if ltb_ℤ maxsize (pos 1)
    then raise value_error
    else if not (leb_ℤ (pos 0) prefsize && leb_ℤ prefsize maxsize)
    then raise value_error
    else ok (record {
      maxsize = pos_part maxsize;
      prefsize = pos_part prefsize;
      prefill = prefill;
      prefill_left = prefill;
      last_tx_seq = minus_one;
      has_item = false;
      items = [];
    })

abbrev pub threshold : ℕ
threshold = 10000

module _ {ℓ} {A : Type ℓ} ⦃c : PacketCmp A⦄ where
  -- The last three tests of `_update_has_item`, on `self._buffer[0]`.
  unfoldable pub next_is_due : Buffer A → A → Bool
  next_is_due b next =
      let sequential = add_wrapped b.last_tx_seq (pos 1) seq_wrap == c.sequence next in
      let positive_seq = leb_ℤ (pos 0) b.last_tx_seq in
      (sequential && positive_seq) || not positive_seq || leb b.maxsize (length b.items)

  unfoldable pub update_has_item : Buffer A → Buffer A
  unfolding next_is_due
  update_has_item b =
      let prefilled = b.prefill_left == 0 in
      let packet_ready = ltb b.prefsize (length b.items) in
      if not prefilled || not packet_ready then record b { has_item = false } else elim b.items [
        | [] ↦ record b { has_item = false }
        | next ∷ _ ↦ record b { has_item = next_is_due b next }
      ]

  -- `_cleanup`, with fuel of at least the number of items.
  unfoldable pub cleanup_loop : ℕ → ℕ → List A → List A
  cleanup_loop zero maxsize items = items
  cleanup_loop (suc f) maxsize items =
      if ltb maxsize (length items)
      then (elim (heappop before items) [
        | none ↦ items
        | some (_, rest) ↦ cleanup_loop f maxsize rest
      ])
      else items

  unfoldable pub cleanup : Buffer A → Buffer A
  unfolding cleanup_loop
  cleanup b = record b { items = cleanup_loop (length b.items) b.maxsize b.items }

  -- Older than what has gone out: far behind, on the circle of sequence numbers.
  unfoldable pub is_old : Buffer A → A → Bool
  is_old b p =
      ltb threshold (gap_wrapped b.last_tx_seq (pos (c.sequence p)) seq_wrap)
      && not (eqb_ℤ b.last_tx_seq minus_one)

  -- `_push` and the prefill count of `push`.
  unfoldable pub insert : Buffer A → A → Buffer A
  insert b p = record b {
    items = heappush before b.items p;
    prefill_left = if ltb 0 b.prefill_left then b.prefill_left - 1 else b.prefill_left;
  }

  unfoldable pub push : Buffer A → A → Buffer A × Bool
  push b p = if is_old b p then (b, false) else (update_has_item (cleanup (insert b p)), true)

  -- `_pop_if_ready`, and the cursor, which `pop` sets to the packet that it got.
  unfoldable pub pop_if_ready : Buffer A → Buffer A × Option A
  pop_if_ready b =
      if ltb b.prefsize (length b.items)
      then (elim (heappop before b.items) [
        | none ↦ (b, none)
        | some (p, rest) ↦ (record b { items = rest; last_tx_seq = pos (c.sequence p) }, some p)
      ])
      else (b, none)

  -- `pop(timeout=0)`
  unfoldable pub pop : Buffer A → Buffer A × Option A
  unfolding pop_if_ready
  pop b =
      if not b.has_item
      then (b, none)
      else if ltb 0 b.prefill_left
      then (b, none)
      else let (b', packet) = pop_if_ready b in (update_has_item b', packet)

  -- `peek(all=all_items)`
  unfoldable pub peek : Buffer A → Bool → Option A
  peek b all_items =
      if all_items
      then head? b.items
      else if ltb b.prefsize (length b.items)
      then head? b.items
      else none

  unfoldable pub peek_next : Buffer A → Option A
  unfolding peek
  peek_next b = elim (peek b true) [
    | none ↦ none
    | some packet ↦
        if c.sequence packet == add_wrapped b.last_tx_seq (pos 1) seq_wrap
          || ltb_ℤ b.last_tx_seq (pos 0)
        then some packet
        else none
  ]

  unfoldable pub gap : Buffer A → ℕ
  gap b = elim b.items [
    | [] ↦ 0
    | next ∷ _ ↦
        if leb_ℤ (pos 0) b.last_tx_seq
        then gap_wrapped b.last_tx_seq (pos (c.sequence next)) seq_wrap
        else 0
  ]

  unfoldable pub advance : Buffer A → ℕ → Buffer A
  advance b count =
      if ltb count 1 || ltb_ℤ b.last_tx_seq (pos 0)
      then b
      else update_has_item
          (record b { last_tx_seq = pos (add_wrapped b.last_tx_seq (pos count) seq_wrap) })

  unfoldable pub resync_to_next : Buffer A → Buffer A
  resync_to_next b = elim b.items [
    | [] ↦ b
    | next ∷ _ ↦
        update_has_item
          (record b { last_tx_seq = pos (add_wrapped (pos (c.sequence next)) minus_one seq_wrap) })
  ]

  unfoldable pub flush : Buffer A → Buffer A × List A
  flush b =
      let packets = sorted before b.items in
      (
        record b {
          items = [];
          last_tx_seq = elim (get_last? packets) [
            | none ↦ b.last_tx_seq
            | some p ↦ pos (c.sequence p)
          ];
          prefill_left = b.prefill;
          has_item = false;
        },
        packets,
      )

  unfoldable pub reset : Buffer A → Buffer A
  reset b = record b {
    items = [];
    has_item = false;
    prefill_left = b.prefill;
    last_tx_seq = minus_one;
  }
