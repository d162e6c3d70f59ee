-- ===== src/Sinks/Timely.antt =====
-- `TimedFilter`: which of the writes it lets through.
use discord_ext_voice_recv.Base.{
  ℕ, zero, suc, ◌+◌, ◌≤◌, ◌<◌, ◌≡◌, refl, ap, sym, Bool, false, Option, none, some, List, [], ◌∷◌,
  ◌++◌, arith, ltb, length, take, Result, ok, Bool-cases, inl, inr, if◌then◌else◌,
}
use mathlib.Core.List.{append-nil, append_assoc}
use discord_ext_voice_recv.Base.Int.{ℤ}
use discord_ext_voice_recv.Base.Bytes.{Bytes}
use discord_ext_voice_recv.Decoder.{VoiceData}
use discord_ext_voice_recv.Sinks.{Written, Chain, basic, timed_filter, new_timed, write, write_all}

-- The first `k` of the writes, and no more, are made before `end_`, where the clock is read once for
-- each of them.
pub record IsCut (clock : ℕ → ℕ) (end_ first n k : ℕ) : Type 0 where
  pub within : k ≤ n
  pub before : (i : ℕ) → i < k → clock (first + i) < end_
  pub behind : (i : ℕ) → k ≤ i → i < n → end_ ≤ clock (first + i)

plus_zero : (a : ℕ) → a + 0 ≡ a
plus_zero a = omega arith

plus_suc : (a b : ℕ) → a + suc b ≡ a + 1 + b
plus_suc a b = omega arith

module _ (mul : Bytes → ℤ → Result Bytes) (clock : ℕ → ℕ)
    (forward : (i j : ℕ) → i ≤ j → clock i ≤ clock j) (decode : Bool) (duration start : ℕ) where
  -- The filter once it has begun, over a callback.
  abbrev started : List Written → Chain
  started called =
      timed_filter (record { duration = duration; start_time = some start; once = false })
        (basic decode called)

  write-started :
      (user : Option ℕ) (d : VoiceData ℕ) (tick : ℕ) (called : List Written)
      → write mul clock user d tick (started called) ≡ record {
        tick = tick + 1;
        chain =
            started
              (if ltb (clock tick) (start + duration) then called ++ (user, d) ∷ [] else called);
        result = ok tt;
      }
  unfolding write
  write-started user d tick called = ground arith

  write_all-next :
      (user : Option ℕ) (d : VoiceData ℕ) (l : List Written) (tick : ℕ) (called : List Written)
      → write_all mul clock ((user, d) ∷ l) tick (started called)
        ≡ write_all mul clock l (tick + 1) (
            started
              (if ltb (clock tick) (start + duration) then called ++ (user, d) ∷ [] else called))
  unfolding write_all
  write_all-next user d l tick called = ground (arith, write-started user d tick called)

  write_all-late :
      (l : List Written) (tick : ℕ) (called : List Written)
      → start + duration ≤ clock tick
      → (write_all mul clock l tick (started called)).chain ≡ started called
  write_all-late [] tick called late = unfold write_all in refl
  write_all-late ((user, d) ∷ l) tick called late =
      let later = forward tick (tick + 1) (omega arith) in
      ground (
        arith,
        write_all-next user d l tick called,
        write_all-late l (tick + 1) called (omega arith),
      )

  -- The cut behind one write more.
  moved :
      (tick n k : ℕ)
      → clock tick < start + duration
      → IsCut clock (start + duration) (tick + 1) n k
      → IsCut clock (start + duration) tick (suc n) (suc k)
  moved tick n k early c = record {
    within = omega (arith, c.within);
    before = before;
    behind = behind;
  }
    where
      before : (i : ℕ) → i < suc k → clock (tick + i) < start + duration
      before zero h = omega (arith, early, ap clock (plus_zero tick))
      before (suc i) h = omega (arith, c.before i (omega arith), ap clock (plus_suc tick i))

      behind : (i : ℕ) → suc k ≤ i → i < suc n → start + duration ≤ clock (tick + i)
      behind zero h g = absurd (omega arith)
      behind (suc i) h g =
          omega (arith, c.behind i (omega arith) (omega arith), ap clock (plus_suc tick i))

  unfoldable Through : List Written → ℕ → List Written → Type 0
  Through l tick called =
      (k : ℕ) × ((write_all mul clock l tick (started called)).chain ≡ started (called ++ take k l))
      × IsCut clock (start + duration) tick (length l) k

  write_all-Through : (l : List Written) (tick : ℕ) (called : List Written) → Through l tick called
  unfolding Through
  write_all-Through [] tick called = (
    0,
    unfold write_all in ap started (sym (append-nil called)),
    record {
      within = omega arith;
      before = λ i h. absurd (omega arith);
      behind = λ i h g. absurd (omega arith);
    },
  )
  write_all-Through ((user, d) ∷ l) tick called =
      elim (Bool-cases (ltb (clock tick) (start + duration))) [
        | inl early ↦
            let (k, e, c) = write_all-Through l (tick + 1) (called ++ (user, d) ∷ []) in
            (
              suc k,
              ground (
                arith,
                early,
                write_all-next user d l tick called,
                e,
                append_assoc called ((user, d) ∷ []) (take k l),
              ),
              moved tick (length l) k (ground (arith, early)) c,
            )
        | inr late ↦ (
          0,
          ground (
            arith,
            late,
            write_all-next user d l tick called,
            write_all-late l (tick + 1) called (ground (arith, late, forward tick (tick + 1))),
            append-nil called,
          ),
          record {
            within = omega arith;
            before = λ i h. absurd (omega arith);
            behind = λ i h g. ground (arith, late, forward tick (tick + i));
          },
        )
      ]

-- The first write notes the start, and is then like any other.
write_all-once :
    (mul : Bytes → ℤ → Result Bytes) (clock : ℕ → ℕ) (decode : Bool) (duration tick : ℕ)
    (user : Option ℕ) (d : VoiceData ℕ) (l : List Written)
    → write_all mul clock
        ((user, d) ∷ l)
        tick
        (timed_filter (new_timed duration none) (basic decode []))
      ≡ write_all mul clock
          ((user, d) ∷ l)
          (tick + 1)
          (timed_filter (new_timed duration (some (clock tick))) (basic decode []))
unfolding write_all write new_timed
write_all-once mul clock decode duration tick user d l = ground arith

-- A timed filter that begins with its first write lets through, of the writes to it, those of which
-- the clock is read within the duration from that start, for a clock that never goes back: they are
-- the first writes, in order, and none behind them is let through. One that begins when it is made
-- does so from that time.
pub write_all-IsCut :
    (mul : Bytes → ℤ → Result Bytes) (clock : ℕ → ℕ) (decode : Bool) (duration tick : ℕ)
    (w : Written) (l : List Written)
    → ((i j : ℕ) → i ≤ j → clock i ≤ clock j)
    → ((k : ℕ) × ((write_all mul clock
            (w ∷ l)
            tick
            (timed_filter (new_timed duration none) (basic decode []))).chain
          ≡ timed_filter (new_timed duration (some (clock tick))) (basic decode (take k (w ∷ l))))
        × IsCut clock (clock tick + duration) (tick + 1) (suc (length l)) k)
      × ((start : ℕ)
          → (k : ℕ) × ((write_all mul clock
                (w ∷ l)
                tick
                (timed_filter (new_timed duration (some start)) (basic decode []))).chain
              ≡ timed_filter (new_timed duration (some start)) (basic decode (take k (w ∷ l))))
            × IsCut clock (start + duration) tick (suc (length l)) k)
unfolding new_timed Through
write_all-IsCut mul clock decode duration tick w l forward = (
  rw (write_all-once mul clock decode duration tick w.0 w.1 l)
      (write_all-Through mul clock forward decode duration (clock tick) (w ∷ l) (tick + 1) []),
  λ start. write_all-Through mul clock forward decode duration start (w ∷ l) tick [],
)
