-- ===== src/Statistics/Reports.antt =====
-- What the statistics are to hold of everything that was reported.
use discord_ext_voice_recv.Base.{
  ℕ, suc, ◌+◌, ◌≡◌, Bool, List, [], ◌∷◌, ◌++◌, arith, length, take, map, ◌==◌, if◌then◌else◌,
}
use discord_ext_voice_recv.Base.Dict.{get_or}
use discord_ext_voice_recv.Nonces.{
  NonceStats, no_nonces, count_frame, samples_of, reset_all_dave_nonces, frames,
}
use discord_ext_voice_recv.Statistics.{
  WsItem, Sample, Statistics, op_key, keep_last, max_samples, is_dave_op, len_bucket, Call,
  adds_event, adds_non_audio, adds_pcm, adds_unhandled, adds_decode_error, adds_nonce,
  resets_nonces, adds_probe,
}

-- All that was reported, in order, the samples of frames not handled and of nonces together; how many
-- nonces were, and what they are counted as.
pub record Reports (P : Type 0) : Type 0 where
  pub events : List (WsItem P)
  pub non_audio : List P
  pub unhandled : List P
  pub decode_errors : List P
  pub nonces : NonceStats
  pub nonce_reports : ℕ
  pub probes : List (ℕ × Bool)
  pub pcm : List ℕ

abbrev pub nothing : {P : Type 0} → Reports P
nothing = record {
  events = [];
  non_audio = [];
  unhandled = [];
  decode_errors = [];
  nonces = no_nonces;
  nonce_reports = 0;
  probes = [];
  pcm = [];
}

module _ {P : Type 0} where
  unfoldable pub reported : Call P → Reports P → Reports P
  unfolding count_frame samples_of reset_all_dave_nonces
  reported (adds_event item) h = record h { events = h.events ++ item ∷ [] }
  reported (adds_non_audio kind payload_type fields) h = record h {
    non_audio = h.non_audio ++ fields ∷ [];
  }
  reported (adds_pcm pcm_len) h = record h { pcm = h.pcm ++ pcm_len ∷ [] }
  reported (adds_unhandled fields) h = record h { unhandled = h.unhandled ++ fields ∷ [] }
  reported (adds_nonce fields ssrc seq nonce) h = record h {
    unhandled = h.unhandled ++ map fields (samples_of ssrc seq nonce h.nonces);
    nonces = count_frame ssrc seq nonce h.nonces;
    nonce_reports = suc h.nonce_reports;
  }
  reported resets_nonces h = record h { nonces = reset_all_dave_nonces h.nonces }
  reported (adds_decode_error fields) h = record h {
    decode_errors = h.decode_errors ++ fields ∷ [];
  }
  reported (adds_probe payload_len frames spf frame_size header_ok fields) h = record h {
    probes = h.probes ++ (payload_len, header_ok) ∷ [];
    decode_errors = if header_ok then h.decode_errors else h.decode_errors ++ fields ∷ [];
  }

  unfoldable pub all_reported : List (Call P) → Reports P → Reports P
  unfolding reported
  all_reported [] h = h
  all_reported (x ∷ l) h = all_reported l (reported x h)

-- The number of the items that pass a test.
unfoldable pub count_if {ℓ} : {A : Type ℓ} → (A → Bool) → List A → ℕ
count_if f [] = 0
count_if f (x ∷ l) = (if f x then 1 else 0) + count_if f l

pub count_if-append {ℓ} :
    {A : Type ℓ} (f : A → Bool) (l : List A) (x : A)
    → count_if f (l ++ x ∷ []) ≡ count_if f l + (if f x then 1 else 0)
unfolding count_if
count_if-append f [] x = ground arith
count_if-append f (y ∷ l) x = ground (arith, count_if-append f l x)

abbrev pub is_op : ℕ → {P : Type 0} → WsItem P → Bool
is_op key item = op_key item.op == key

abbrev pub is_dave : {P : Type 0} → WsItem P → Bool
is_dave item = is_dave_op item.op

abbrev pub is_ok : ℕ × Bool → Bool
is_ok probe = probe.1

abbrev pub is_zero : ℕ → Bool
is_zero n = n == 0

abbrev pub is_20ms : ℕ → Bool
is_20ms n = n == 3840

abbrev pub in_bucket : ℕ → ℕ × Bool → Bool
in_bucket bucket probe = len_bucket (probe.0) == bucket

abbrev pub fields_of : {P : Type 0} → Sample P → P
fields_of x = x.fields

-- The statistics of what was reported: the last 64 events and packets, the first 20 samples of errors,
-- and counts. Each nonce counts as a first one, a next one, a gap or a step back.
pub record IsKept {P : Type 0} (s : Statistics P) (h : Reports P) : Type 0 where
  pub recent : s.recent_events ≡ keep_last 64 h.events
  pub non_audio : map fields_of s.non_audio_rtp_samples ≡ keep_last 64 h.non_audio
  pub unhandled : map fields_of s.dave_unhandled_samples ≡ take max_samples h.unhandled
  pub nonces : s.nonces ≡ h.nonces
  pub counted : frames s.nonces ≡ h.nonce_reports
  pub decode_errors : map fields_of s.decode_err_samples ≡ take max_samples h.decode_errors
  pub events_total : s.voice_ws_total ≡ length h.events
  pub dave_total : s.dave_ws_total ≡ count_if is_dave h.events
  pub ops : (key : ℕ) → get_or key 0 s.voice_ws_op ≡ count_if (is_op key) h.events
  pub non_audio_total : s.rtp_non_audio_packets_total ≡ length h.non_audio
  pub headers_ok : s.opus_probe_header_ok ≡ count_if is_ok h.probes
  pub headers : s.opus_probe_header_ok + s.opus_probe_header_err ≡ length h.probes
  pub probes_total : s.opus_probe_total ≡ length h.probes
  pub buckets :
      (bucket : ℕ) → get_or bucket 0 s.opus_len_bucket ≡ count_if (in_bucket bucket) h.probes
  pub frames : s.pcm_frames ≡ length h.pcm
  pub empty : s.pcm_empty ≡ count_if is_zero h.pcm
  pub not_20ms : s.pcm_empty + s.pcm_non_20ms + count_if is_20ms h.pcm ≡ length h.pcm
