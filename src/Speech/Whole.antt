-- ===== src/Speech/Whole.antt =====
-- `DiscordSRAudioSource`: what the recognizer reads of a user, call by call, between the writes.
use mathlib.Core.List.{append_assoc, append-nil}
use discord_ext_voice_recv.Base.{
  Result, ok, ℕ, zero, suc, ◌≤◌, ◌<◌, ◌≡◌, refl, ap, sym, subst, ◌∙◌, ◌⊎◌, inl, inr, Bool, true,
  ◌&&◌, not, Option, none, some, List, [], ◌∷◌, ◌++◌, arith, ltb, ◌==◌, if◌then◌else◌, is_empty,
  length, take, drop, take-append-drop, length-take, Bool-cases,
}
use discord_ext_voice_recv.Base.Bytes.{Bytes}
use discord_ext_voice_recv.Base.Dict.{Dict, get, put, get-put}
use discord_ext_voice_recv.Speech.{
  StreamData, SpeechRecognitionSink, Write, new_sink, buffer_of, stream_of, write, write_each,
  wait_for, chunksize_of, Reading, take_chunk, read, set_buffer,
}

-- The sound that a write, or some writes, bring of a user, where silence may be ignored.
abbrev pub brought : Bool → ℕ → Bool → Option ℕ → Bytes → Bytes
brought ignore id silence none pcm = []
brought ignore id silence (some user) pcm =
    if ignore && silence then [] else if user == id then pcm else []

abbrev pub sound_of : Bool → ℕ → List Write → Bytes
sound_of ignore id [] = []
sound_of ignore id (w ∷ l) = brought ignore id w.is_silence w.user w.pcm ++ sound_of ignore id l

abbrev pub sound_of_each : Bool → ℕ → List (List Write) → Bytes
sound_of_each ignore id [] = []
sound_of_each ignore id (l ∷ batches) = sound_of ignore id l ++ sound_of_each ignore id batches

write-ignore :
    (silence : Bool) (user : Option ℕ) (pcm : Bytes) (s : SpeechRecognitionSink)
    → (write silence user pcm s).ignore_silence_packets ≡ s.ignore_silence_packets
unfolding write
write-ignore silence none pcm s = refl
write-ignore silence (some user) pcm s = ground arith

abbrev buffer_in : ℕ → Dict StreamData → Bytes
buffer_in id m = elim (get id m) [ none ↦ [] | some d ↦ d.buffer ]

buffer_in-put :
    (user id : ℕ) (d : StreamData) (m : Dict StreamData)
    → buffer_in id (put user d m) ≡ (if user == id then d.buffer else buffer_in id m)
buffer_in-put user id d m = ground (arith, get-put user id d m)

stream_of_buffer :
    (user id : ℕ) (s : SpeechRecognitionSink)
    → (user == id) ≡ true
    → (stream_of user s).buffer ≡ buffer_of id s
stream_of_buffer user id s h = let at : user ≡ id = ground (arith, h) in rw at (ground arith)

write-buffer :
    (id : ℕ) (silence : Bool) (user : Option ℕ) (pcm : Bytes) (s : SpeechRecognitionSink)
    → buffer_of id (write silence user pcm s)
      ≡ buffer_of id s ++ brought s.ignore_silence_packets id silence user pcm
unfolding write
write-buffer id silence none pcm s = sym (append-nil (buffer_of id s))
write-buffer id silence (some user) pcm s =
    let d : StreamData = record { stopper = true; buffer = (stream_of user s).buffer ++ pcm } in
    elim (Bool-cases (s.ignore_silence_packets && silence)) [
      | inl ignored ↦ rw ignored (sym (append-nil (buffer_of id s)))
      | inr heard ↦ (elim (Bool-cases (user == id)) [
        | inl same ↦ rw heard (
            rw same (
              rw same at (buffer_in-put user id d s.stream_data)
              ∙ ap (λ l. l ++ pcm) (stream_of_buffer user id s same)))
        | inr other ↦ rw heard (
            rw other (
              rw other at (buffer_in-put user id d s.stream_data)
              ∙ sym (append-nil (buffer_of id s))))
      ])
    ]

-- The silence that is ignored, and all the sound of the user that is in the buffer or yet to come.
abbrev Sounds : Bool → ℕ → Bytes → SpeechRecognitionSink → List (List Write) → Type 0
Sounds ignore id sound s batches =
    (s.ignore_silence_packets ≡ ignore)
    × (buffer_of id s ++ sound_of_each ignore id batches ≡ sound)

write_each-Sounds :
    (ignore : Bool) (id : ℕ) (l : List Write) (s : SpeechRecognitionSink)
    → s.ignore_silence_packets ≡ ignore
    → ((write_each l s).ignore_silence_packets ≡ ignore)
      × (buffer_of id (write_each l s) ≡ buffer_of id s ++ sound_of ignore id l)
unfolding write_each
write_each-Sounds ignore id [] s h = (h, sym (append-nil (buffer_of id s)))
write_each-Sounds ignore id (w ∷ l) s h =
    let s' = write w.is_silence w.user w.pcm s in
    let rest = write_each-Sounds ignore id l s' (write-ignore w.is_silence w.user w.pcm s ∙ h) in
    let here : buffer_of id s' ≡ buffer_of id s ++ brought ignore id w.is_silence w.user w.pcm =
      rw (← h) (write-buffer id w.is_silence w.user w.pcm s) in
    (
      rest.0,
      rest.1
          ∙ ap (λ b. b ++ sound_of ignore id l) here
          ∙ append_assoc (buffer_of id s) (brought ignore id w.is_silence w.user w.pcm)
              (sound_of ignore id l),
    )

-- A sink in which the sound that a user's source has not read is `sound`, with the writes to come.
wait_for-Sounds :
    (ignore : Bool) (id chunksize n : ℕ) (batches : List (List Write)) (s : SpeechRecognitionSink)
    → s.ignore_silence_packets ≡ ignore
    → Sounds ignore id
        (buffer_of id s ++ sound_of_each ignore id batches)
        ((wait_for id chunksize n batches s).1)
        ((wait_for id chunksize n batches s).2)
unfolding wait_for
wait_for-Sounds ignore id chunksize zero batches s h = (h, refl)
wait_for-Sounds ignore id chunksize (suc n) [] s h =
    elim (Bool-cases (ltb (length (buffer_of id s)) chunksize)) [
      | inl short ↦ rw short (wait_for-Sounds ignore id chunksize n [] s h)
      | inr enough ↦ rw enough (h, refl)
    ]
wait_for-Sounds ignore id chunksize (suc n) (l ∷ batches) s h =
    elim (Bool-cases (ltb (length (buffer_of id s)) chunksize)) [
      | inl short ↦
          let here = write_each-Sounds ignore id l s h in
          let rest = wait_for-Sounds ignore id chunksize n batches (write_each l s) here.0 in
          rw short (
            rest.0,
            rest.1
                ∙ ap (λ b. b ++ sound_of_each ignore id batches) here.1
                ∙ append_assoc (buffer_of id s) (sound_of ignore id l)
                    (sound_of_each ignore id batches),
          )
      | inr enough ↦ rw enough (h, refl)
    ]

-- What a call of `read` for `size` gave out or raised, of the bytes that it took: at most so many, and
-- fewer only if the buffer is empty behind them.
pub record IsChunk (to_mono : Bytes → Result Bytes) (id size : ℕ) (taken : Bytes) (r : Reading)
    : Type 0 where
  pub mono : (r.chunk ≡ to_mono taken) ⊎ ((r.chunk ≡ ok []) × (taken ≡ []))
  pub fits : length taken ≤ chunksize_of size
  pub rest : length taken < chunksize_of size → buffer_of id r.after ≡ []

drop-short : (n : ℕ) (l : Bytes) → length (take n l) < n → drop n l ≡ []
drop-short zero l h = absurd (omega arith)
drop-short (suc n) [] h = refl
drop-short (suc n) (x ∷ l) h = drop-short n l (omega arith)

buffer_of-set :
    (id : ℕ) (b : Bytes) (s : SpeechRecognitionSink) → buffer_of id (set_buffer id b s) ≡ b
buffer_of-set id b s =
    ground (arith, buffer_in-put id id (record (stream_of id s) { buffer = b }) s.stream_data)

is_empty-eq : (l : Bytes) → is_empty l ≡ true → l ≡ []
is_empty-eq [] h = refl
is_empty-eq (x ∷ l) h = cc

module _ (to_mono : Bytes → Result Bytes) (ignore : Bool) (id : ℕ) where
  -- A call of `read` takes a front part of the sound that was not read.
  abbrev pub Takes : ℕ → Bytes → Bytes → Reading → Type 0
  Takes size taken sound r =
      IsChunk to_mono id size taken r
      × (r.after.ignore_silence_packets ≡ ignore)
      × (taken ++ (buffer_of id r.after ++ sound_of_each ignore id r.batches) ≡ sound)

  take_chunk-Takes :
      (size : ℕ) (left : Bool) (s : SpeechRecognitionSink) (batches : List (List Write))
      → s.ignore_silence_packets ≡ ignore
      → (taken : Bytes) × Takes size taken
          (buffer_of id s ++ sound_of_each ignore id batches)
          (take_chunk to_mono id size (left, s, batches))
  unfolding take_chunk
  take_chunk-Takes size left s batches h =
      let full = buffer_of id s in
      let n = chunksize_of size in
      let left_over = buffer_of-set id (drop n full) s in
      let sounds = sound_of_each ignore id batches in
      elim (Bool-cases (not left && is_empty full)) [
        | inl empty ↦
            let nothing : full ≡ [] = is_empty-eq full (ground (arith, empty)) in
            rw empty (
              [],
              (
                record { mono = inr (refl, refl); fits = omega arith; rest = λ short. nothing },
                h,
                refl,
              ),
            )
        | inr some_left ↦ rw some_left (
          take n full,
          (
            record {
              mono = inl refl;
              fits = omega (arith, length-take n full);
              rest = λ short. left_over ∙ drop-short n full short;
            },
            h,
            ap (λ b. take n full ++ (b ++ sounds)) left_over
                ∙ sym (append_assoc (take n full) (drop n full) sounds)
                ∙ ap (λ b. b ++ sounds) (take-append-drop n full),
          ),
        )
      ]

  read-Takes :
      (size : ℕ) (s : SpeechRecognitionSink) (batches : List (List Write))
      → s.ignore_silence_packets ≡ ignore
      → (taken : Bytes) × Takes size taken
          (buffer_of id s ++ sound_of_each ignore id batches)
          (read to_mono id size batches s)
  unfolding read
  read-Takes size s batches h =
      let w = wait_for id (chunksize_of size) 10 batches s in
      let all = wait_for-Sounds ignore id (chunksize_of size) 10 batches s h in
      let t = take_chunk-Takes size w.0 w.1 w.2 all.0 in (t.0, (t.1.0, t.1.1, t.1.2 ∙ all.1))

  -- The calls of `read` for some sizes take the sound in order, piece by piece, and leave the rest.
  abbrev pub IsWhole : Bytes → List ℕ → List (List Write) → SpeechRecognitionSink → Type 0
  IsWhole sound [] batches s = buffer_of id s ++ sound_of_each ignore id batches ≡ sound
  IsWhole sound (size ∷ sizes) batches s =
      let r = read to_mono id size batches s in
      (taken : Bytes) × (rest : Bytes) × (taken ++ rest ≡ sound)
      × IsChunk to_mono id size taken r
      × IsWhole rest sizes r.batches r.after

  reads-IsWhole :
      (sizes : List ℕ) (batches : List (List Write)) (s : SpeechRecognitionSink)
      → s.ignore_silence_packets ≡ ignore
      → IsWhole (buffer_of id s ++ sound_of_each ignore id batches) sizes batches s
  reads-IsWhole [] batches s h = refl
  reads-IsWhole (size ∷ sizes) batches s h =
      let r = read to_mono id size batches s in
      let t = read-Takes size s batches h in
      (
        t.0,
        buffer_of id r.after ++ sound_of_each ignore id r.batches,
        t.1.2,
        t.1.0,
        reads-IsWhole sizes r.batches r.after t.1.1,
      )

  -- When a user's source is read, with other writes of all users before and in the sleeps of the
  -- reads, the reads for any sizes take all the sound of the user that was written, in order and
  -- nothing else, but silence where it is ignored, and leave the rest: each takes two bytes at most
  -- for one of its size, fewer only if it empties the buffer, and gives out what `to_mono` makes of
  -- them, or raises what that raises, when the bytes are gone; or gives out nothing when it takes
  -- nothing.
  pub read-write_each-IsWhole :
      (l : List Write) (sizes : List ℕ) (batches : List (List Write))
      → IsWhole
          (sound_of ignore id l ++ sound_of_each ignore id batches)
          sizes
          batches
          (write_each l (new_sink ignore))
  unfolding get
  read-write_each-IsWhole l sizes batches =
      let (kept, buffered) = write_each-Sounds ignore id l (new_sink ignore) refl in
      subst
        (λ b.
          IsWhole (b ++ sound_of_each ignore id batches) sizes batches
            (write_each l (new_sink ignore)))
        buffered (reads-IsWhole sizes batches (write_each l (new_sink ignore)) kept)
