-- ===== src/Statistics.antt =====
-- discord/ext/voice_recv/reader.py, `ReceiveAnalysisStats`, with the counts of nonces of Nonces. The
-- counters of a family (`voice_ws_op_…`) are a dictionary. Transports and kinds are numbers, and what
-- is copied into a sample besides the context is of the parameter `P`. Counters that `inc` alone
-- writes, the averages of the snapshot and the JSON lines are left out.
pub mod Windows
pub mod Reports
pub mod Kept
use discord_ext_voice_recv.Base.{
  ℕ, suc, ◌+◌, ◌-◌, Bool, true, false, ◌&&◌, ◌||◌, not, Option, none, some, List, [], ◌∷◌, ◌++◌,
  leb, ltb, ◌==◌, if◌then◌else◌, length, drop, map, get_last?, is_empty, is_some,
}
use discord_ext_voice_recv.Base.Dict.{Dict, get, get_or, put}
use discord_ext_voice_recv.Nonces.{
  NonceKind, NonceStats, no_nonces, count_frame, samples_of, reset_all_dave_nonces,
}

-- An item of `_voice_ws_recent_events`; an `op` of -1 is none.
pub record WsItem (P : Type 0) : Type 0 where
  pub transport : ℕ
  pub op : Option ℕ
  pub fields : P

-- `_ws_context_unlocked`, when there are events.
pub record WsContext : Type 0 where
  pub ws_total : ℕ
  pub ws_last_op : Option ℕ
  pub ws_recent_ops : List (Option ℕ)
  pub dave_ws_total : ℕ
  pub dave_ws_last_op : Option ℕ

pub record Sample (P : Type 0) : Type 0 where
  pub fields : P
  pub context : Option WsContext

pub record Statistics (P : Type 0) : Type 0 where
  pub pcm_frames : ℕ
  pub pcm_bytes_total : ℕ
  pub pcm_empty : ℕ
  pub pcm_non_20ms : ℕ
  pub voice_ws_total : ℕ
  pub voice_ws_transport : Dict ℕ
  pub voice_ws_op : Dict ℕ
  pub voice_ws_last_op : Option ℕ
  pub dave_ws_total : ℕ
  pub dave_ws_transport : Dict ℕ
  pub dave_ws_op : Dict ℕ
  pub dave_ws_last_op : Option ℕ
  pub rtp_non_audio_packets_total : ℕ
  pub rtp_non_audio_packets : Dict ℕ
  pub rtp_non_audio_payload_type : Dict ℕ
  pub opus_probe_total : ℕ
  pub opus_len_bucket : Dict ℕ
  pub opus_probe_header_ok : ℕ
  pub opus_probe_header_err : ℕ
  pub opus_probe_frames : Dict ℕ
  pub opus_probe_spf : Dict ℕ
  pub opus_probe_frame_size : Dict ℕ
  pub nonces : NonceStats
  pub recent_events : List (WsItem P)
  pub non_audio_rtp_samples : List (Sample P)
  pub dave_unhandled_samples : List (Sample P)
  pub decode_err_samples : List (Sample P)

-- `__init__`
abbrev pub new_statistics : {P : Type 0} → Statistics P
new_statistics = record {
  pcm_frames = 0;
  pcm_bytes_total = 0;
  pcm_empty = 0;
  pcm_non_20ms = 0;
  voice_ws_total = 0;
  voice_ws_transport = [];
  voice_ws_op = [];
  voice_ws_last_op = none;
  dave_ws_total = 0;
  dave_ws_transport = [];
  dave_ws_op = [];
  dave_ws_last_op = none;
  rtp_non_audio_packets_total = 0;
  rtp_non_audio_packets = [];
  rtp_non_audio_payload_type = [];
  opus_probe_total = 0;
  opus_len_bucket = [];
  opus_probe_header_ok = 0;
  opus_probe_header_err = 0;
  opus_probe_frames = [];
  opus_probe_spf = [];
  opus_probe_frame_size = [];
  nonces = no_nonces;
  recent_events = [];
  non_audio_rtp_samples = [];
  dave_unhandled_samples = [];
  decode_err_samples = [];
}

-- `self._counters[f'…_{k}'] += 1`
unfoldable pub increment : ℕ → Dict ℕ → Dict ℕ
increment k m = put k (suc (get_or k 0 m)) m

-- The key of an op, with -1 before 0.
abbrev pub op_key : Option ℕ → ℕ
op_key none = 0
op_key (some op) = suc op

-- `l[-n:]`, for a positive `n`.
abbrev pub keep_last {ℓ} : {A : Type ℓ} → ℕ → List A → List A
keep_last n l = drop (length l - n) l

abbrev pub max_samples : ℕ
max_samples = 20

abbrev pub append_sample {ℓ} : {A : Type ℓ} → List A → A → List A
append_sample target item = if leb max_samples (length target) then target else target ++ item ∷ []

unfoldable pub append_each {ℓ} : {A : Type ℓ} → List A → List A → List A
append_each target [] = target
append_each target (item ∷ l) = append_each (append_sample target item) l

-- `_append_ring_sample`
unfoldable pub append_ring_sample {ℓ} : {A : Type ℓ} → List A → A → ℕ → List A
append_ring_sample target item maxlen =
    if ltb maxlen 1
    then target
    else if leb maxlen (length target)
    then drop (length target - maxlen + 1) target ++ item ∷ []
    else target ++ item ∷ []

-- `21 <= op <= 31`
abbrev pub is_dave_op : Option ℕ → Bool
is_dave_op none = false
is_dave_op (some op) = leb 21 op && leb op 31

-- `_len_bucket`, as the place of the bucket.
unfoldable pub len_bucket : ℕ → ℕ
len_bucket payload_len =
    if leb payload_len 3
    then 0
    else if leb payload_len 20
    then 1
    else if leb payload_len 40
    then 2
    else if leb payload_len 80
    then 3
    else if leb payload_len 120
    then 4
    else if leb payload_len 160
    then 5
    else if leb payload_len 240
    then 6
    else 7

abbrev pub increment_if : Option ℕ → Dict ℕ → Dict ℕ
increment_if none m = m
increment_if (some k) m = increment k m

module _ {P : Type 0} where
  unfoldable pub ws_context : Statistics P → Option WsContext
  ws_context s =
      let ops = map (λ (e : WsItem P). e.op) (keep_last 5 s.recent_events) in
      elim (get_last? ops) [
        | none ↦ none
        | some last ↦ some (record {
          ws_total = s.voice_ws_total;
          ws_last_op = last;
          ws_recent_ops = ops;
          dave_ws_total = s.dave_ws_total;
          dave_ws_last_op = s.dave_ws_last_op;
        })
      ]

  unfoldable pub add_voice_ws_event : WsItem P → Statistics P → Statistics P
  add_voice_ws_event item s =
      let key = op_key item.op in
      let recent = s.recent_events ++ item ∷ [] in
      let s' : Statistics P = record s {
        voice_ws_total = suc s.voice_ws_total;
        voice_ws_transport = increment item.transport s.voice_ws_transport;
        voice_ws_op = increment key s.voice_ws_op;
        voice_ws_last_op = item.op;
        recent_events = if ltb 64 (length recent) then keep_last 64 recent else recent;
      } in
      if is_dave_op item.op
      then record s' {
        dave_ws_total = suc s.dave_ws_total;
        dave_ws_transport = increment item.transport s.dave_ws_transport;
        dave_ws_op = increment key s.dave_ws_op;
        dave_ws_last_op = item.op;
      }
      else s'

  unfoldable pub add_non_audio_rtp_packet : ℕ → ℕ → P → Statistics P → Statistics P
  unfolding append_ring_sample ws_context
  add_non_audio_rtp_packet kind payload_type fields s = record s {
    rtp_non_audio_packets_total = suc s.rtp_non_audio_packets_total;
    rtp_non_audio_packets = increment kind s.rtp_non_audio_packets;
    rtp_non_audio_payload_type = increment payload_type s.rtp_non_audio_payload_type;
    non_audio_rtp_samples =
        append_ring_sample s.non_audio_rtp_samples
          (record { fields = fields; context = ws_context s }) 64;
  }

  unfoldable pub add_pcm : ℕ → Statistics P → Statistics P
  add_pcm pcm_len s = record s {
    pcm_frames = suc s.pcm_frames;
    pcm_bytes_total = s.pcm_bytes_total + pcm_len;
    pcm_empty = if pcm_len == 0 then suc s.pcm_empty else s.pcm_empty;
    pcm_non_20ms =
        if (pcm_len == 0) || (pcm_len == 3840) then s.pcm_non_20ms else suc s.pcm_non_20ms;
  }

  unfoldable pub add_dave_unhandled_sample : P → Statistics P → Statistics P
  unfolding ws_context
  add_dave_unhandled_sample fields s = record s {
    dave_unhandled_samples =
        append_sample s.dave_unhandled_samples (record { fields = fields; context = ws_context s });
  }

  -- The items of a kind hold `fields kind` beside the context.
  unfoldable pub add_dave_nonce : (NonceKind → P) → ℕ → ℕ → ℕ → Statistics P → Statistics P
  unfolding ws_context append_each count_frame samples_of
  add_dave_nonce fields ssrc seq nonce s = record s {
    nonces = count_frame ssrc seq nonce s.nonces;
    dave_unhandled_samples = append_each s.dave_unhandled_samples (
        map (λ (kind : NonceKind). record { fields = fields kind; context = ws_context s })
          (samples_of ssrc seq nonce s.nonces));
  }

  -- The sample of a bad header is without the context.
  unfoldable pub add_opus_probe :
      ℕ → Option ℕ → Option ℕ → Option ℕ → Bool → P → Statistics P → Statistics P
  unfolding len_bucket
  add_opus_probe payload_len frames samples_per_frame frame_size header_ok fields s = record s {
    opus_probe_total = suc s.opus_probe_total;
    opus_len_bucket = increment (len_bucket payload_len) s.opus_len_bucket;
    opus_probe_header_ok = if header_ok then suc s.opus_probe_header_ok else s.opus_probe_header_ok;
    opus_probe_header_err =
        if header_ok then s.opus_probe_header_err else suc s.opus_probe_header_err;
    decode_err_samples =
        if header_ok
        then s.decode_err_samples
        else append_sample s.decode_err_samples (record { fields = fields; context = none });
    opus_probe_frames = increment_if frames s.opus_probe_frames;
    opus_probe_spf = increment_if samples_per_frame s.opus_probe_spf;
    opus_probe_frame_size = increment_if frame_size s.opus_probe_frame_size;
  }

  unfoldable pub add_decode_error_sample : P → Statistics P → Statistics P
  unfolding ws_context
  add_decode_error_sample fields s = record s {
    decode_err_samples =
        append_sample s.decode_err_samples (record { fields = fields; context = ws_context s });
  }

pub data Call (P : Type 0) : Type 0 where
  adds_event : WsItem P → Call P
  adds_non_audio : ℕ → ℕ → P → Call P
  adds_pcm : ℕ → Call P
  adds_unhandled adds_decode_error : P → Call P
  adds_nonce : (NonceKind → P) → ℕ → ℕ → ℕ → Call P
  resets_nonces : Call P
  adds_probe : ℕ → Option ℕ → Option ℕ → Option ℕ → Bool → P → Call P

module _ {P : Type 0} where
  unfoldable pub call : Call P → Statistics P → Statistics P
  unfolding add_voice_ws_event add_non_audio_rtp_packet add_pcm add_dave_unhandled_sample
      add_opus_probe add_decode_error_sample add_dave_nonce reset_all_dave_nonces
  call (adds_event item) s = add_voice_ws_event item s
  call (adds_non_audio kind payload_type fields) s =
      add_non_audio_rtp_packet kind payload_type fields s
  call (adds_pcm pcm_len) s = add_pcm pcm_len s
  call (adds_unhandled fields) s = add_dave_unhandled_sample fields s
  call (adds_nonce fields ssrc seq nonce) s = add_dave_nonce fields ssrc seq nonce s
  call resets_nonces s = record s { nonces = reset_all_dave_nonces s.nonces }
  call (adds_decode_error fields) s = add_decode_error_sample fields s
  call (adds_probe payload_len frames spf frame_size header_ok fields) s =
      add_opus_probe payload_len frames spf frame_size header_ok fields s

  unfoldable pub call_all : List (Call P) → Statistics P → Statistics P
  unfolding call
  call_all [] s = s
  call_all (x ∷ l) s = call_all l (call x s)
