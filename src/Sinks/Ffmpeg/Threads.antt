-- ===== src/Sinks/Ffmpeg/Threads.antt =====
-- The threads in an `FFmpegSink`: how many are killing the process, and who answers for what failed.
use discord_ext_voice_recv.Base.{
  ℕ, ◌+◌, ◌<◌, ◌≡◌, ◌↔◌, refl, ap, Bool, true, false, Option, none, some, [], ◌∷◌, ◌++◌, arith,
  length, length-append, Bool-cases, inl, inr, ◌&&◌, ◌||◌, not, if◌then◌else◌,
}
use discord_ext_voice_recv.Base.Bytes.{Bytes}
use discord_ext_voice_recv.Base.Dict.{Dict, get, get_or, put}
use discord_ext_voice_recv.Sinks.Ffmpeg.{
  Cause, write_failed, pipe_failed, cleaned, Place, idle, ended, writing, piping, killing,
  FfmpegSink, new_sink, place_of, go_to, kill_process, finish, fail, call_write, do_write,
  read_pipe, write_on, cleanup,
}

-- The threads that are killing the process, and those of them that have yet to report.
abbrev pub kills_at : Place → ℕ
kills_at (killing cause) = 1
kills_at _ = 0

abbrev pub reports_at : Place → ℕ
reports_at (killing write_failed) = 1
reports_at (killing pipe_failed) = 1
reports_at _ = 0

pub total : (Place → ℕ) → Dict Place → ℕ
total weight [] = 0
total weight ((who, p) ∷ m) = weight p + total weight m

total-put :
    (weight : Place → ℕ) (who : ℕ) (p : Place) (m : Dict Place)
    → weight idle ≡ 0
    → total weight (put who p m) + weight (get_or who idle m) ≡ total weight m + weight p
unfolding total get put
total-put weight who p [] h = omega (arith, h)
total-put weight who p ((j, q) ∷ m) h = ground (arith, total-put weight who p m h)

-- What holds of a sink with so many failed writes that no thread answers for yet.
record IsOwing (n : ℕ) (s : FfmpegSink) : Type 0 where
  pub closed : (s.stdin_closed ≡ true) ↔ (0 < s.killers)
  pub gone : s.process ≡ false → 0 < s.killers
  pub there : s.process ≡ true → s.killers ≡ total kills_at s.places
  pub reported : length s.errors + total reports_at s.places + n ≡ length s.raised

-- At any time: the input is closed exactly when a thread began to kill the process, which is not given
-- up before; until it is, all that began to are still at it; and those that reported a failed write, with
-- those that are yet to, are as many as failed.
pub record IsSound (s : FfmpegSink) : Type 0 where
  pub closed : (s.stdin_closed ≡ true) ↔ (0 < s.killers)
  pub gone : s.process ≡ false → 0 < s.killers
  pub there : s.process ≡ true → s.killers ≡ total kills_at s.places
  pub reported : length s.errors + total reports_at s.places ≡ length s.raised

pub new_sink-IsSound : IsSound new_sink
unfolding total
new_sink-IsSound = ground arith

abbrev owed : Cause → ℕ
owed cleaned = 0
owed _ = 1

-- A thread that is in none of the methods but `write` and `_pipe_reader`.
abbrev IsFree : Place → Type 0
IsFree p = (kills_at p ≡ 0) × (reports_at p ≡ 0)

-- The totals when a thread moves on.
moved :
    (who : ℕ) (p : Place) (m : Dict Place)
    → (total kills_at (put who p m) + kills_at (get_or who idle m) ≡ total kills_at m + kills_at p)
      × (total reports_at (put who p m) + reports_at (get_or who idle m)
          ≡ total reports_at m + reports_at p)
moved who p m = (total-put kills_at who p m refl, total-put reports_at who p m refl)

go_to-IsSound :
    (who : ℕ) (p : Place) (s : FfmpegSink)
    → IsSound s
    → IsFree (place_of who s)
    → IsFree p
    → IsSound (go_to who p s)
go_to-IsSound who p s h e f =
    ground (arith, h.closed, h.gone, h.there, h.reported, moved who p s.places)

kill_process-IsSound :
    (who : ℕ) (cause : Cause) (s : FfmpegSink)
    → IsOwing (owed cause) s
    → IsFree (place_of who s)
    → IsSound (kill_process who cause s)
unfolding kill_process
kill_process-IsSound who write_failed s h e = ground (
  arith,
  h.closed,
  h.gone,
  h.there,
  h.reported,
  length-append s.errors (who ∷ []),
  moved who (killing write_failed) s.places,
  moved who idle s.places,
)
kill_process-IsSound who pipe_failed s h e = ground (
  arith,
  h.closed,
  h.gone,
  h.there,
  h.reported,
  length-append s.errors (who ∷ []),
  moved who (killing pipe_failed) s.places,
  moved who ended s.places,
)
kill_process-IsSound who cleaned s h e = ground (
  arith,
  h.closed,
  h.gone,
  h.there,
  h.reported,
  moved who (killing cleaned) s.places,
  moved who idle s.places,
)

-- A write raises, of which the thread will answer.
raise-IsOwing :
    (who : ℕ) (s : FfmpegSink) → IsSound s → IsOwing 1 (record s { raised = s.raised ++ who ∷ [] })
raise-IsOwing who s h =
    ground (arith, h.closed, h.gone, h.there, h.reported, length-append s.raised (who ∷ []))

if-IsFree : (pcm : Bytes) (b : Bool) → IsFree (if b then piping pcm else ended)
if-IsFree pcm true = (refl, refl)
if-IsFree pcm false = (refl, refl)

module _ (who : ℕ) (s : FfmpegSink) (h : IsSound s) where
  pub finish-IsSound : (p : Place) → place_of who s ≡ p → IsSound (finish who p s)
  unfolding finish
  finish-IsSound (killing write_failed) e = ground (
    arith,
    h.closed,
    h.gone,
    h.there,
    h.reported,
    length-append s.errors (who ∷ []),
    moved who idle s.places,
    ap kills_at e,
    ap reports_at e,
  )
  finish-IsSound (killing pipe_failed) e = ground (
    arith,
    h.closed,
    h.gone,
    h.there,
    h.reported,
    length-append s.errors (who ∷ []),
    moved who ended s.places,
    ap kills_at e,
    ap reports_at e,
  )
  finish-IsSound (killing cleaned) e = ground (
    arith,
    h.closed,
    h.gone,
    h.there,
    h.reported,
    moved who idle s.places,
    ap kills_at e,
    ap reports_at e,
  )
  finish-IsSound idle e = h
  finish-IsSound ended e = h
  finish-IsSound (writing pcm) e = h
  finish-IsSound (piping pcm) e = h

  pub call_write-IsSound :
      (p : Place) (pcm : Bytes) → place_of who s ≡ p → IsSound (call_write who p pcm s)
  unfolding call_write
  call_write-IsSound idle pcm e = elim (Bool-cases (s.process && not s.stdin_closed)) [
    | inl open_ ↦
        rw open_ (go_to-IsSound who (writing pcm) s h (ap kills_at e, ap reports_at e) (refl, refl))
    | inr shut ↦ rw shut h
  ]
  call_write-IsSound ended pcm e = h
  call_write-IsSound (writing l) pcm e = h
  call_write-IsSound (piping l) pcm e = h
  call_write-IsSound (killing cause) pcm e = h

  pub do_write-IsSound :
      (p : Place) (fails : Bool) → place_of who s ≡ p → IsSound (do_write who p fails s)
  unfolding do_write fail
  do_write-IsSound (writing pcm) fails e = elim (Bool-cases (fails || s.stdin_closed)) [
    | inl failed ↦ rw failed (
        kill_process-IsSound who write_failed (record s { raised = s.raised ++ who ∷ [] })
          (raise-IsOwing who s h) (ap kills_at e, ap reports_at e))
    | inr written ↦ rw written (
        go_to-IsSound who idle (record s { input = s.input ++ pcm })
          (ground (arith, h.closed, h.gone, h.there, h.reported)) (ap kills_at e, ap reports_at e)
          (refl, refl))
  ]
  do_write-IsSound idle fails e = h
  do_write-IsSound ended fails e = h
  do_write-IsSound (piping l) fails e = h
  do_write-IsSound (killing cause) fails e = h

  pub write_on-IsSound :
      (p : Place) (fails : Bool) → place_of who s ≡ p → IsSound (write_on who p fails s)
  unfolding write_on fail
  write_on-IsSound (piping pcm) true e =
      kill_process-IsSound who pipe_failed (record s { raised = s.raised ++ who ∷ [] })
        (raise-IsOwing who s h) (ap kills_at e, ap reports_at e)
  write_on-IsSound (piping pcm) false e =
      go_to-IsSound who idle (record s { output = s.output ++ pcm })
        (ground (arith, h.closed, h.gone, h.there, h.reported)) (ap kills_at e, ap reports_at e)
        (refl, refl)
  write_on-IsSound idle fails e = h
  write_on-IsSound ended fails e = h
  write_on-IsSound (writing l) fails e = h
  write_on-IsSound (killing cause) fails e = h

  pub read_pipe-IsSound :
      (p : Place) (pcm : Option Bytes) → place_of who s ≡ p → IsSound (read_pipe who p pcm s)
  unfolding read_pipe
  read_pipe-IsSound idle none e =
      go_to-IsSound who ended s h (ap kills_at e, ap reports_at e) (refl, refl)
  read_pipe-IsSound idle (some pcm) e =
      go_to-IsSound who (if s.process then piping pcm else ended) s h
        (ap kills_at e, ap reports_at e) (if-IsFree pcm s.process)
  read_pipe-IsSound ended pcm e = h
  read_pipe-IsSound (writing l) pcm e = h
  read_pipe-IsSound (piping l) pcm e = h
  read_pipe-IsSound (killing cause) pcm e = h

  pub cleanup-IsSound : (p : Place) → place_of who s ≡ p → IsSound (cleanup who p s)
  unfolding cleanup
  cleanup-IsSound idle e =
      kill_process-IsSound who cleaned s (ground (arith, h.closed, h.gone, h.there, h.reported))
        (ap kills_at e, ap reports_at e)
  cleanup-IsSound ended e = h
  cleanup-IsSound (writing l) e = h
  cleanup-IsSound (piping l) e = h
  cleanup-IsSound (killing cause) e = h
