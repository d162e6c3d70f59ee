-- ===== src/Tests/Buffer.antt =====
-- The jitter buffer on a short stream.
use mathlib.Core.List.{Perm}
use discord_ext_voice_recv.Base.{
  ◌*◌, ◌≡◌, ◌≢◌, ◌⊎◌, refl, true, false, none, some, List, [], ◌∷◌, ◌++◌, arith, length, All, ok,
  ltb, if◌then◌else◌,
}
use discord_ext_voice_recv.Base.Int.{pos, minus_one}
use discord_ext_voice_recv.Wrap.{gap_wrapped, add_wrapped}
use discord_ext_voice_recv.HeapQueue.{
  smaller_child, sift_down, sift_up, heappush, heappop, split_last, replace_root, insort, sorted,
}
use discord_ext_voice_recv.HeapQueue.Array.{at, swap}
use discord_ext_voice_recv.HeapQueue.Order.Sort.{IsAscending}
use discord_ext_voice_recv.Rtp.{RtpPacket, rtp_cmp}
use discord_ext_voice_recv.Compare.{before, after, lt, gt, eq}
use discord_ext_voice_recv.Compare.Order.{StreamClock, rollover_incomparable}
use discord_ext_voice_recv.Buffer.{
  Buffer, init, next_is_due, update_has_item, cleanup_loop, cleanup, is_old, insert, push,
  pop_if_ready, pop, advance, resync_to_next, flush, reset,
}
use discord_ext_voice_recv.Buffer.Ready.{IsValid, is_ready, follows}
use discord_ext_voice_recv.Buffer.Contents.{push-Perm}
use discord_ext_voice_recv.Buffer.Order.{
  Ordered, Precedes, push-drops_oldest, pop-least, flush-IsAscending,
}
use discord_ext_voice_recv.Buffer.History.{Call, run, step, run-init-IsValid, pop-is_ready}
use discord_ext_voice_recv.Tests.Data.{packet}

program : Unit {0}
unfolding next_is_due update_has_item cleanup_loop cleanup is_old insert push pop_if_ready pop
    advance resync_to_next flush reset init gap_wrapped add_wrapped before after lt gt eq
    smaller_child sift_down sift_up heappush heappop split_last replace_root insort sorted at swap
    is_ready follows step run
program = tt

-- Packet 4 has gone out; 5 and 7 are held.
abbrev queue : Buffer RtpPacket
queue = record {
  maxsize = 2;
  prefsize = 0;
  prefill = 0;
  prefill_left = 0;
  last_tx_seq = pos 4;
  has_item = true;
  items = packet 5 ∷ packet 7 ∷ [];
}

abbrev ticks : StreamClock
ticks = record { clock = λ n. 960 * n; monotone = λ m n h. omega arith }

queue-IsValid : IsValid queue
unfolding program
queue-IsValid = record {
  positive = omega arith;
  pref = omega arith;
  bounded = omega arith;
  sequences = (omega arith, (omega arith, tt));
  cursor = omega arith;
  flag = refl;
}

queue-Ordered : Ordered ticks 7 queue.items
unfolding program
queue-Ordered = record {
  stream = ((refl, refl), ((refl, refl), tt));
  heap = λ d c p q. ground arith;
}

-- Pushing 6 onto the full buffer drops 5, after which 6 is not the next one but goes out first.
main :
    ((push queue (packet 6)).0.items ≡ packet 6 ∷ packet 7 ∷ [])
    × ((pop queue).1 ≡ some (packet 5))
    × ((pop (pop queue).0).1 ≡ none)
    × ((flush queue).1 ≡ packet 5 ∷ packet 7 ∷ [])
    × ((push queue (packet 3)).1 ≡ false)
unfolding program
main = (refl, refl, refl, refl, refl)

-- Packet 65535, and the first one of the next round.
abbrev wrapped : RtpPacket
wrapped = record (packet 65536) { sequence = 0 }

rollover_of_packets :
    (lt (packet 65535) wrapped ≡ ok false)
    × (lt wrapped (packet 65535) ≡ ok false)
    × (gt (packet 65535) wrapped ≡ ok true)
    × (gt wrapped (packet 65535) ≡ ok true)
    × (eq (packet 65535) wrapped ≡ false)
rollover_of_packets = rollover_incomparable (packet 65535) wrapped refl (omega arith) (omega arith)

push-Perm_example :
    (dropped : List RtpPacket) × Perm
      (packet 6 ∷ queue.items)
      (dropped ++ (push queue (packet 6)).0.items)
    × (length dropped ≡ (if ltb 2 2 then 0 else 1))
unfolding program
push-Perm_example = push-Perm queue (packet 6) queue-IsValid refl

push-drops_oldest_example :
    (dropped : List RtpPacket) × Perm
      (packet 6 ∷ queue.items)
      (dropped ++ (push queue (packet 6)).0.items)
    × All (λ d. Precedes ticks 7 d (push queue (packet 6)).0.items) dropped
    × Ordered ticks 7 (push queue (packet 6)).0.items
unfolding program
push-drops_oldest_example =
    push-drops_oldest ticks 7 queue (packet 6) (refl, refl) queue-Ordered refl

pop-least_example :
    Perm queue.items (packet 5 ∷ (pop queue).0.items)
    × Precedes ticks 7 (packet 5) (pop queue).0.items
    × Ordered ticks 7 (pop queue).0.items
unfolding program
pop-least_example = pop-least ticks 7 queue (packet 5) queue-IsValid queue-Ordered refl

flush-IsAscending_example :
    IsAscending rtp_cmp.sequence (flush queue).1
    × Perm (flush queue).1 queue.items
    × ((flush queue).0.items ≡ [])
flush-IsAscending_example = flush-IsAscending ticks 7 queue queue-Ordered.stream

abbrev fresh : Buffer RtpPacket
fresh = record queue { prefill_left = 0; last_tx_seq = minus_one; has_item = false; items = [] }

abbrev calls : List (Call RtpPacket)
calls = Call.pushes (packet 5) ∷ Call.pushes (packet 7) ∷ Call.pops ∷ Call.resyncs ∷ Call.pops ∷ []

run-init-IsValid_example : IsValid (run fresh calls)
unfolding program
run-init-IsValid_example =
    run-init-IsValid (pos 2) (pos 0) 0 fresh calls refl
      (omega arith, (omega arith, (tt, (tt, (tt, tt)))))

pop-is_ready_example :
    (((pop queue).1 ≢ none) × (is_ready queue ≡ true))
    ⊎ ((pop queue ≡ (queue, none)) × (is_ready queue ≡ false))
pop-is_ready_example = pop-is_ready queue queue-IsValid
