-- ===== src/Nonces.antt =====
-- discord/ext/voice_recv/reader.py, `ReceiveAnalysisStats`: the nonces and sequence numbers of DAVE
-- frames. The samples of a frame are their kinds; Statistics puts them into the list that they share
-- with the samples of frames not handled.
use discord_ext_voice_recv.Base.{
  ℕ, suc, ◌+◌, ◌-◌, ◌/◌, ◌≡◌, refl, inl, inr, arith, Bool, Option, none, some, List, [], ◌∷◌, ◌++◌,
  ltb, if◌then◌else◌, Bool-cases, Option-cases,
}
use discord_ext_voice_recv.Base.Int.{ℤ, pos, ◌-ℤ◌, mod_ℤ, ltb_ℤ, eqb_ℤ, pos_part}
use discord_ext_voice_recv.Base.Dict.{Dict, get, put}

pub data NonceKind : Type 0 where
  nonce_gap nonce_rewind nonce_seq_mismatch : NonceKind

pub record NonceStats : Type 0 where
  pub nonce_last : Dict ℕ
  pub seq_last : Dict ℕ
  pub first : ℕ
  pub seq_delta1 : ℕ
  pub seq_gap_events : ℕ
  pub seq_gap_total : ℕ
  pub seq_rewind_events : ℕ
  pub delta1 : ℕ
  pub gap_events : ℕ
  pub gap_total : ℕ
  pub rewind_events : ℕ
  pub mismatch_events : ℕ
  pub epoch_reset : ℕ

abbrev pub no_nonces : NonceStats
no_nonces = record {
  nonce_last = [];
  seq_last = [];
  first = 0;
  seq_delta1 = 0;
  seq_gap_events = 0;
  seq_gap_total = 0;
  seq_rewind_events = 0;
  delta1 = 0;
  gap_events = 0;
  gap_total = 0;
  rewind_events = 0;
  mismatch_events = 0;
  epoch_reset = 0;
}

unfoldable wrapped_delta : ℕ → ℕ → ℕ → ℤ
wrapped_delta wrap current last =
    let raw = mod_ℤ (pos current -ℤ pos last) wrap in
    if ltb (wrap / 2) raw then pos raw -ℤ pos wrap else pos raw

abbrev is_one : ℤ → Bool
is_one d = eqb_ℤ d (pos 1)

abbrev is_gap : ℤ → Bool
is_gap d = ltb_ℤ (pos 1) d

unfoldable count_seq : ℤ → NonceStats → NonceStats
count_seq d s =
    if is_one d
    then record s { seq_delta1 = suc s.seq_delta1 }
    else if is_gap d
    then record s {
      seq_gap_events = suc s.seq_gap_events;
      seq_gap_total = s.seq_gap_total + (pos_part d - 1);
    }
    else record s { seq_rewind_events = suc s.seq_rewind_events }

unfoldable count_nonce : ℤ → NonceStats → NonceStats
count_nonce d s =
    if is_one d
    then record s { delta1 = suc s.delta1 }
    else if is_gap d
    then record s { gap_events = suc s.gap_events; gap_total = s.gap_total + (pos_part d - 1) }
    else record s { rewind_events = suc s.rewind_events }

-- The counts for a frame behind another of its ssrc, whose sequence number may be missing.
unfoldable count_next : ℤ → Option ℤ → NonceStats → NonceStats
unfolding count_seq count_nonce
count_next nonce_delta none s = count_nonce nonce_delta s
count_next nonce_delta (some seq_delta) s =
    let s' = count_nonce nonce_delta (count_seq seq_delta s) in
    if eqb_ℤ nonce_delta seq_delta
    then s'
    else record s' { mismatch_events = suc s'.mismatch_events }

unfoldable seq_delta_of : ℕ → ℕ → NonceStats → Option ℤ
unfolding wrapped_delta
seq_delta_of ssrc seq s = elim (get ssrc s.seq_last) [
  | none ↦ none
  | some last ↦ some (wrapped_delta 65536 seq last)
]

-- What `add_dave_nonce` counts.
unfoldable pub count_frame : ℕ → ℕ → ℕ → NonceStats → NonceStats
unfolding count_next seq_delta_of
count_frame ssrc seq nonce s =
    let counted : NonceStats = elim (get ssrc s.nonce_last) [
      | none ↦ record s { first = suc s.first }
      | some last ↦ count_next (pos nonce -ℤ pos last) (seq_delta_of ssrc seq s) s
    ] in
    record counted {
      nonce_last = put ssrc nonce counted.nonce_last;
      seq_last = put ssrc seq counted.seq_last;
    }

unfoldable nonce_samples : ℤ → List NonceKind
nonce_samples d = if is_one d then [] else if is_gap d then nonce_gap ∷ [] else nonce_rewind ∷ []

unfoldable next_samples : ℤ → Option ℤ → List NonceKind
unfolding nonce_samples
next_samples nonce_delta none = nonce_samples nonce_delta
next_samples nonce_delta (some seq_delta) =
    nonce_samples nonce_delta
    ++ (if eqb_ℤ nonce_delta seq_delta then [] else nonce_seq_mismatch ∷ [])

-- The samples that `add_dave_nonce` makes, in order.
unfoldable pub samples_of : ℕ → ℕ → ℕ → NonceStats → List NonceKind
unfolding next_samples seq_delta_of
samples_of ssrc seq nonce s = elim (get ssrc s.nonce_last) [
  | none ↦ []
  | some last ↦ next_samples (pos nonce -ℤ pos last) (seq_delta_of ssrc seq s)
]

unfoldable pub reset_all_dave_nonces : NonceStats → NonceStats
reset_all_dave_nonces s = record s {
  nonce_last = [];
  seq_last = [];
  epoch_reset = suc s.epoch_reset;
}

-- The frames that the nonce counters have counted.
abbrev pub frames : NonceStats → ℕ
frames s = s.first + s.delta1 + s.gap_events + s.rewind_events

frames-count_nonce : (d : ℤ) (s : NonceStats) → frames (count_nonce d s) ≡ suc (frames s)
unfolding count_nonce
frames-count_nonce d s = elim (Bool-cases (is_one d)) [
  | inl one ↦ ground (arith, one)
  | inr other ↦ (elim (Bool-cases (is_gap d)) [
    | inl gap ↦ ground (arith, other, gap)
    | inr rewind ↦ ground (arith, other, rewind)
  ])
]

frames-count_seq : (d : ℤ) (s : NonceStats) → frames (count_seq d s) ≡ frames s
unfolding count_seq
frames-count_seq d s = elim (Bool-cases (is_one d)) [
  | inl one ↦ ground (arith, one)
  | inr other ↦ (elim (Bool-cases (is_gap d)) [
    | inl gap ↦ ground (arith, other, gap)
    | inr rewind ↦ ground (arith, other, rewind)
  ])
]

frames-count_next :
    (d : ℤ) (e : Option ℤ) (s : NonceStats) → frames (count_next d e s) ≡ suc (frames s)
unfolding count_next
frames-count_next d none s = frames-count_nonce d s
frames-count_next d (some e) s =
    let step = frames-count_nonce d (count_seq e s) in
    let same = frames-count_seq e s in
    elim (Bool-cases (eqb_ℤ d e)) [
      | inl agree ↦ rw agree (ground (arith, step, same))
      | inr differ ↦ rw differ (ground (arith, step, same))
    ]

-- Every frame is counted once: as a first one, a next one, a gap or a step back.
pub frames-count_frame :
    (ssrc seq nonce : ℕ) (s : NonceStats) → frames (count_frame ssrc seq nonce s) ≡ suc (frames s)
unfolding count_frame seq_delta_of
frames-count_frame ssrc seq nonce s = elim (Option-cases (get ssrc s.nonce_last)) [
  | inl new ↦ ground (arith, new)
  | inr (last, known) ↦
      rw (known, count_frame)
        (frames-count_next (pos nonce -ℤ pos last) (seq_delta_of ssrc seq s) s)
]

pub frames-reset_all_dave_nonces : (s : NonceStats) → frames (reset_all_dave_nonces s) ≡ frames s
unfolding reset_all_dave_nonces
frames-reset_all_dave_nonces s = refl
