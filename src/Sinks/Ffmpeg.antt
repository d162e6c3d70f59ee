-- ===== src/Sinks/Ffmpeg.antt =====
-- `FFmpegSink` of discord/ext/voice_recv/sinks.py, once its process runs: `write`, `cleanup`,
-- `_kill_process` and `_pipe_reader`, as the steps of the threads that are in them. A thread is a
-- number. Whether a write of a pipe raises is an argument, but a write to a closed one always does.
-- What the process writes is given with the step that reads it; `subprocess` is not modelled
-- further: `wait` and `kill` may raise, which is caught.
pub mod Threads
pub mod Killed
use discord_ext_voice_recv.Base.{
  ℕ, ◌+◌, Bool, true, false, ◌&&◌, ◌||◌, not, Option, none, some, List, [], ◌∷◌, ◌++◌,
  if◌then◌else◌,
}
use discord_ext_voice_recv.Base.Bytes.{Bytes}
use discord_ext_voice_recv.Base.Dict.{Dict, get, get_or, put}

-- Why a thread is in `_kill_process`, behind its first test.
pub data Cause : Type 0 where
  write_failed pipe_failed cleaned : Cause

-- Where a thread is: in none of the methods, behind the test of `write`, in `_pipe_reader` with what
-- it read, in `_kill_process`, or at the end of `_pipe_reader`.
pub data Place : Type 0 where
  idle ended : Place
  writing piping : Bytes → Place
  killing : Cause → Place

pub record FfmpegSink : Type 0 where
  -- Whether `_process` is there, and not MISSING.
  pub process : Bool
  pub stdin_closed : Bool
  -- What was written to the process, and what came of it into the buffer.
  pub input : Bytes
  pub output : Bytes
  pub places : Dict Place
  -- How many threads began to kill the process, in which threads a write raised, and which called
  -- `on_error`.
  pub killers : ℕ
  pub raised : List ℕ
  pub errors : List ℕ

-- `__init__`, behind `_spawn_process`.
abbrev pub new_sink : FfmpegSink
new_sink = record {
  process = true;
  stdin_closed = false;
  input = [];
  output = [];
  places = [];
  killers = 0;
  raised = [];
  errors = [];
}

abbrev pub place_of : ℕ → FfmpegSink → Place
place_of who s = get_or who idle s.places

abbrev pub go_to : ℕ → Place → FfmpegSink → FfmpegSink
go_to who p s = record s { places = put who p s.places }

-- Where a thread goes from `_kill_process`, and whether it calls `on_error` first.
abbrev pub behind : Cause → Place
behind pipe_failed = ended
behind _ = idle

abbrev pub reports : Cause → Bool
reports cleaned = false
reports _ = true

abbrev pub report : ℕ → Cause → FfmpegSink → FfmpegSink
report who cause s = record s { errors = if reports cause then s.errors ++ who ∷ [] else s.errors }

-- `_kill_process`, up to `self._stdin.close()`. Without a process it returns at once.
unfoldable pub kill_process : ℕ → Cause → FfmpegSink → FfmpegSink
kill_process who cause s =
    if s.process
    then go_to who (killing cause) (record s { stdin_closed = true; killers = s.killers + 1 })
    else go_to who (behind cause) (report who cause s)

-- The rest of it, which waits, kills the process and waits for its end, and the rest of its caller.
unfoldable pub finish : ℕ → Place → FfmpegSink → FfmpegSink
finish who (killing cause) s =
    go_to who (behind cause) (report who cause (record s { process = false }))
finish who _ s = s

unfoldable pub fail : ℕ → Cause → FfmpegSink → FfmpegSink
unfolding kill_process
fail who cause s = kill_process who cause (record s { raised = s.raised ++ who ∷ [] })

-- The test of `write`.
unfoldable pub call_write : ℕ → Place → Bytes → FfmpegSink → FfmpegSink
call_write who idle pcm s = if s.process && not s.stdin_closed then go_to who (writing pcm) s else s
call_write who _ pcm s = s

-- `self._stdin.write(audio)`
unfoldable pub do_write : ℕ → Place → Bool → FfmpegSink → FfmpegSink
unfolding fail
do_write who (writing pcm) fails s =
    if fails || s.stdin_closed
    then fail who write_failed s
    else go_to who idle (record s { input = s.input ++ pcm })
do_write who _ fails s = s

-- A round of `_pipe_reader`, up to what `read` returns: none if it raised, or returned None.
unfoldable pub read_pipe : ℕ → Place → Option Bytes → FfmpegSink → FfmpegSink
read_pipe who idle none s = go_to who ended s
read_pipe who idle (some pcm) s = go_to who (if s.process then piping pcm else ended) s
read_pipe who _ pcm s = s

-- `dest.write(data)`
unfoldable pub write_on : ℕ → Place → Bool → FfmpegSink → FfmpegSink
unfolding fail
write_on who (piping pcm) fails s =
    if fails then fail who pipe_failed s else go_to who idle (record s { output = s.output ++ pcm })
write_on who _ fails s = s

unfoldable pub cleanup : ℕ → Place → FfmpegSink → FfmpegSink
unfolding kill_process
cleanup who idle s = kill_process who cleaned s
cleanup who _ s = s

pub data Step : Type 0 where
  calls_write : ℕ → Bytes → Step
  writes pours : ℕ → Bool → Step
  reads : ℕ → Option Bytes → Step
  cleans finishes : ℕ → Step

unfoldable pub step : Step → FfmpegSink → FfmpegSink
unfolding call_write do_write read_pipe write_on cleanup finish
step (calls_write who pcm) s = call_write who (place_of who s) pcm s
step (writes who fails) s = do_write who (place_of who s) fails s
step (pours who fails) s = write_on who (place_of who s) fails s
step (reads who pcm) s = read_pipe who (place_of who s) pcm s
step (cleans who) s = cleanup who (place_of who s) s
step (finishes who) s = finish who (place_of who s) s

unfoldable pub run : List Step → FfmpegSink → FfmpegSink
unfolding step
run [] s = s
run (x ∷ l) s = run l (step x s)
