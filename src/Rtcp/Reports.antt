-- ===== src/Rtcp/Reports.antt =====
-- The report blocks of RFC 3550, section 6.4.1, written out, are read back.
use mathlib.Core.List.{append_assoc}
use discord_ext_voice_recv.Base.{
  ℕ, suc, ◌+◌, ◌-◌, ◌*◌, ◌/◌, ◌%◌, ◌^◌, ◌<◌, ◌≡◌, refl, sym, ap, ◌∙◌, true, List, [], ◌∷◌, ◌++◌,
  arith, ok, leb, le→leb, length, drop, get_elem?, All, length-append, some,
}
use discord_ext_voice_recv.Base.Bytes.{Bytes, unpack_at, be_from}
use discord_ext_voice_recv.Rtp.Header.{be32, IsWord}
use discord_ext_voice_recv.Rtcp.{Report, read_report, read_reports}

drop-append_add : (pre d : Bytes) (k : ℕ) → drop (length pre + k) (pre ++ d) ≡ drop k d
drop-append_add [] d k = ap (λ (i : ℕ). drop i d) (omega arith)
drop-append_add (x ∷ pre) d k =
    let e : suc (length pre) + k ≡ suc (length pre + k) = omega arith in
    rw e (drop-append_add pre d k)

get_elem?-append_add :
    (pre d : Bytes) (k : ℕ) → get_elem? (pre ++ d) (length pre + k) ≡ get_elem? d k
get_elem?-append_add [] d k = ap (get_elem? d) (omega arith)
get_elem?-append_add (x ∷ pre) d k =
    let e : suc (length pre) + k ≡ suc (length pre + k) = omega arith in
    rw e (get_elem?-append_add pre d k)

unpack_at-append :
    (size : ℕ) (pre d : Bytes) (k : ℕ)
    → unpack_at size (pre ++ d) (length pre + k) ≡ unpack_at size d k
unfolding unpack_at
unpack_at-append size pre d k =
    let e : length pre + k + size - (length pre + k) ≡ k + size - k = omega arith in
    ground (arith, e, drop-append_add pre d k, length-append pre d)

-- The layout of one report block.
abbrev pub layout : Report → Bytes → Bytes
layout r l = be32 r.ssrc (
    r.perc_loss
    ∷ r.total_lost / 65536
    ∷ r.total_lost / 256 % 256
    ∷ r.total_lost % 256
    ∷ be32 r.last_seq (be32 r.jitter (be32 r.lsr (be32 r.dlsr l))))

abbrev pub layouts : List Report → Bytes → Bytes
layouts [] l = l
layouts (r ∷ rs) l = layout r (layouts rs l)

pub record Fits (r : Report) : Type 0 where
  pub ssrc_fits : IsWord r.ssrc
  pub loss_fits : r.perc_loss < 256
  pub lost_fits : r.total_lost < 2 ^ 24
  pub seq_fits : IsWord r.last_seq
  pub jitter_fits : IsWord r.jitter
  pub lsr_fits : IsWord r.lsr
  pub dlsr_fits : IsWord r.dlsr

-- The words of a block, read from its start.
layout_words :
    (r : Report) (l : Bytes)
    → Fits r
    → (unpack_at 4 (layout r l) 0 ≡ ok r.ssrc)
      × ((k : ℕ) × (unpack_at 4 (layout r l) 4 ≡ ok k) × (k % 2 ^ 24 ≡ r.total_lost))
      × (unpack_at 4 (layout r l) 8 ≡ ok r.last_seq)
      × (unpack_at 4 (layout r l) 12 ≡ ok r.jitter)
      × (unpack_at 4 (layout r l) 16 ≡ ok r.lsr)
      × (unpack_at 4 (layout r l) 20 ≡ ok r.dlsr)
unfolding unpack_at be_from
layout_words r l h = (
  ground (arith, h.ssrc_fits),
  (r.perc_loss * 16777216 + r.total_lost, ground (arith, h.lost_fits), omega arith),
  ground (arith, h.seq_fits),
  ground (arith, h.jitter_fits),
  ground (arith, h.lsr_fits),
  ground (arith, h.dlsr_fits),
)

read_report-layout :
    (pre : Bytes) (r : Report) (l : Bytes)
    → Fits r
    → read_report (pre ++ layout r l) (length pre) ≡ ok r
unfolding read_report
read_report-layout pre r l h =
    let d = layout r l in
    let (ssrc, (k, lost, low), seq, jitter, lsr, dlsr) = layout_words r l h in
    let start : length pre + 0 ≡ length pre = omega arith in
    let ssrc' : unpack_at 4 (pre ++ d) (length pre) ≡ ok r.ssrc =
      rw start at (unpack_at-append 4 pre d 0 ∙ ssrc) in
    let loss : get_elem? (pre ++ d) (length pre + 4) ≡ some r.perc_loss =
      get_elem?-append_add pre d 4 in
    let long : leb (length pre + 24) (length (pre ++ d)) ≡ true =
      le→leb _ _ (omega (arith, length-append pre d)) in
    rw
      (
        long,
        ssrc',
        loss,
        unpack_at-append 4 pre d 8 ∙ seq,
        unpack_at-append 4 pre d 12 ∙ jitter,
        unpack_at-append 4 pre d 16 ∙ lsr,
        unpack_at-append 4 pre d 20 ∙ dlsr,
        unpack_at-append 4 pre d 4 ∙ lost,
      )
      (rw low)

-- Report blocks with fields in range, written one after another behind any bytes, are read back
-- from where they begin: all of them, in order, with every field.
pub read_reports-layouts :
    (rs : List Report) (pre l : Bytes)
    → All Fits rs
    → read_reports (length rs) (pre ++ layouts rs l) (length pre) ≡ ok rs
unfolding read_reports
read_reports-layouts [] pre l h = refl
read_reports-layouts (r ∷ rs) pre l h =
    let first = read_report-layout pre r (layouts rs l) h.0 in
    let block : Bytes = layout r [] in
    let same : pre ++ layout r (layouts rs l) ≡ (pre ++ block) ++ layouts rs l =
      sym (append_assoc pre block (layouts rs l)) in
    let at : length pre + 24 ≡ length (pre ++ block) = omega (arith, length-append pre block) in
    let rest : read_reports (length rs) (pre ++ layout r (layouts rs l)) (length pre + 24) ≡ ok rs =
      rw (same, at) (read_reports-layouts rs (pre ++ block) l h.1) in
    rw (first, rest)
