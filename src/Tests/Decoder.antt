-- ===== src/Tests/Decoder.antt =====
-- The decoder and the router, with a codec that keeps the number of its calls.
use discord_ext_voice_recv.Base.{
  ◌&&◌, leb, ℕ, ◌+◌, ◌-◌, ◌≤◌, ◌≡◌, refl, true, false, none, some, [], ◌∷◌, ok, arith, ltb,
  if◌then◌else◌,
}
use discord_ext_voice_recv.Base.Int.{pos}
use discord_ext_voice_recv.Base.Bytes.{eq_bytes}
use discord_ext_voice_recv.Base.Dict.{get, put, contains, delete, remove}
use discord_ext_voice_recv.Wrap.{gap_wrapped, add_wrapped}
use discord_ext_voice_recv.HeapQueue.{
  smaller_child, sift_down, sift_up, heappush, heappop, split_last, replace_root,
}
use discord_ext_voice_recv.HeapQueue.Array.{at, swap}
use discord_ext_voice_recv.Compare.{before}
use discord_ext_voice_recv.Rtp.{RtpPacket, rtp_cmp}
use discord_ext_voice_recv.Buffer.{
  next_is_due, update_has_item, cleanup_loop, cleanup, is_old, insert, push, pop_if_ready, pop,
  peek, peek_next, advance, resync_to_next, gap,
}
use discord_ext_voice_recv.Buffer.Ready.{IsValid, is_ready, follows}
use discord_ext_voice_recv.Decoder.{
  received, fake, Stat, Codec, PacketDecoder, new_buffer, new_decoder, get_next_packet,
  decode_packet, make_fakepacket, attempt, header_ok, decode_received, decode_fake, looks_like_dave,
  Context, process_packet, pop_data, find_member,
}
use discord_ext_voice_recv.Decoder.Clean.{KeptByClean, decode_packet_clean}
use discord_ext_voice_recv.Decoder.Stream.{concealing, get_next_packet-gap}
use discord_ext_voice_recv.Router.{
  Router, append_bounded, store, push_packet, get_decoder, push_to, feed_rtp, set_user_id,
  destroy_decoder, serve, serve_all,
}
use discord_ext_voice_recv.Router.History.{
  IsRouter, empty, feeds, serves, run, step, run-empty-IsRouter,
}
use discord_ext_voice_recv.Waiter.{register, unregister, check_ready}
use discord_ext_voice_recv.Tests.Data.{packet}

program : Unit {0}
unfolding next_is_due update_has_item cleanup_loop cleanup is_old insert push pop_if_ready pop peek
    peek_next advance resync_to_next gap gap_wrapped add_wrapped before smaller_child sift_down
    sift_up heappush heappop split_last replace_root at swap is_ready follows new_decoder
    get_next_packet decode_packet make_fakepacket attempt header_ok decode_received decode_fake
    looks_like_dave process_packet pop_data find_member append_bounded store push_packet get_decoder
    push_to feed_rtp set_user_id destroy_decoder serve serve_all run step register unregister
    check_ready get put contains delete remove eq_bytes
program = tt

abbrev counting : Codec ℕ
counting = record {
  fresh = 0;
  samples_per_frame = 960;
  packet_get_nb_frames = λ n l. ok (pos 1);
  packet_get_samples_per_frame = λ n l. ok (pos 960);
  decode = λ n l fec. (n + 1, ok (1 ∷ 2 ∷ []));
}

-- Packet 4 has gone out, and 7 is held.
abbrev behind : PacketDecoder ℕ
behind = record {
  ssrc = 7;
  decoder = some 3;
  buffer = record new_buffer { prefill_left = 0; last_tx_seq = pos 4; items = packet 7 ∷ [] };
  max_conceal_frames = 25;
  cached_id = none;
  last_seq = pos 4;
  last_ts = pos 3840;
}

behind-IsValid : IsValid behind.buffer
unfolding program
behind-IsValid = record {
  positive = omega arith;
  pref = omega arith;
  bounded = omega arith;
  sequences = (omega arith, tt);
  cursor = omega arith;
  flag = refl;
}

-- Two packets are missing: the first of them is made up.
conceals : (get_next_packet counting behind).1.0 ≡ some (fake 7 5 4800)
unfolding program
conceals = refl

get_next_packet-gap_example :
    let (d', (emitted, stats)) = get_next_packet counting behind in
    (d'.buffer.items ≡ behind.buffer.items)
    × IsValid d'.buffer
    × (gap d'.buffer ≡ (if ltb 25 (gap behind.buffer) then 0 else gap behind.buffer - 1))
    × (emitted ≡ (
        if ltb 0 (gap behind.buffer) && leb (gap behind.buffer) 25
        then some (concealing counting behind)
        else none))
unfolding is_ready
get_next_packet-gap_example = get_next_packet-gap counting behind behind-IsValid refl

counted : KeptByClean counting (λ n. 3 ≤ n)
counted = record { lost = λ n fec h. omega (arith, h); clear = λ n l fec e h. omega (arith, h) }

abbrev heard : RtpPacket
heard = record (packet 5) { decrypted_data = some (0xf8 ∷ []) }

decode_packet_clean_example :
    (state' : ℕ) × ((record behind { decoder = some 4 }).decoder ≡ some state') × (3 ≤ state')
unfolding program
decode_packet_clean_example =
    decode_packet_clean counting (λ n. 3 ≤ n) counted behind (record behind { decoder = some 4 }) 3
      (received heard)
      (1 ∷ 2 ∷ [], Stat.add_opus_probe true ∷ Stat.opus_decode_ok ∷ Stat.add_pcm 2 ∷ []) refl
      (omega arith) refl

abbrev client : Context ℕ
client = record {
  wants_opus = false;
  get_user = λ id_. some id_;
  get_id_from_ssrc = λ ssrc. some 42;
}

abbrev fed : Router ℕ
fed = feed_rtp counting false (empty ℕ) heard

run-empty-IsRouter_example : IsRouter fed
unfolding program
run-empty-IsRouter_example =
    run-empty-IsRouter counting {U = ℕ} fed (feeds false heard ∷ serves client ∷ [])
      (omega arith, (tt, tt)) refl
