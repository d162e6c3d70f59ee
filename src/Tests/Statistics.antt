-- ===== src/Tests/Statistics.antt =====
-- The statistics of a few reports.
use discord_ext_voice_recv.Base.{ℕ, ◌≡◌, refl, true, false, none, some, List, [], ◌∷◌, map}
use discord_ext_voice_recv.Base.Dict.{get, put}
use discord_ext_voice_recv.Nonces.{
  NonceKind, nonce_gap, nonce_rewind, nonce_seq_mismatch, count_frame, samples_of,
}
use discord_ext_voice_recv.Statistics.{
  Sample, new_statistics, increment, append_ring_sample, ws_context, len_bucket, add_voice_ws_event,
  add_non_audio_rtp_packet, add_pcm, add_opus_probe, Call, adds_event, adds_non_audio, adds_pcm,
  adds_unhandled, adds_nonce, adds_probe, call, call_all, add_dave_unhandled_sample, add_dave_nonce,
  append_each,
}

abbrev kind_of : NonceKind → ℕ
kind_of nonce_gap = 20
kind_of nonce_rewind = 21
kind_of nonce_seq_mismatch = 22

abbrev reports : List (Call ℕ)
reports =
    adds_event (record { transport = 1; op = some 25; fields = 3 })
    ∷ adds_event (record { transport = 0; op = some 5; fields = 4 })
    ∷ adds_non_audio 2 101 7
    ∷ adds_probe 20 (some 1) (some 960) (some 960) true 0
    ∷ adds_probe 2 none none none false 9
    ∷ adds_unhandled 11
    ∷ adds_nonce kind_of 42 1 5
    ∷ adds_nonce kind_of 42 2 9
    ∷ adds_nonce kind_of 42 3 9
    ∷ adds_pcm 3840
    ∷ adds_pcm 0
    ∷ []

context_of_packet :
    (call_all reports new_statistics).non_audio_rtp_samples
    ≡ record {
      fields = 7;
      context = some (record {
        ws_total = 2;
        ws_last_op = some 5;
        ws_recent_ops = some 25 ∷ some 5 ∷ [];
        dave_ws_total = 1;
        dave_ws_last_op = some 25;
      });
    }
      ∷ []
unfolding call_all call add_voice_ws_event add_non_audio_rtp_packet add_pcm add_opus_probe
    add_dave_unhandled_sample add_dave_nonce append_each count_frame samples_of ws_context
    append_ring_sample increment len_bucket get put
context_of_packet = refl

buckets_of_probes : (call_all reports new_statistics).opus_len_bucket ≡ (1, 1) ∷ (0, 1) ∷ []
unfolding call_all call add_voice_ws_event add_non_audio_rtp_packet add_pcm add_opus_probe
    add_dave_unhandled_sample add_dave_nonce append_each count_frame samples_of ws_context
    append_ring_sample increment len_bucket get put
buckets_of_probes = refl

-- The nonce leaps, and then stands still, and differs from the sequence number both times.
shared_samples :
    map (λ (x : Sample ℕ). x.fields) (call_all reports new_statistics).dave_unhandled_samples
    ≡ 11 ∷ 20 ∷ 22 ∷ 21 ∷ 22 ∷ []
unfolding call_all call add_voice_ws_event add_non_audio_rtp_packet add_pcm add_opus_probe
    add_dave_unhandled_sample add_dave_nonce append_each count_frame samples_of ws_context
    append_ring_sample increment len_bucket get put
shared_samples = refl
