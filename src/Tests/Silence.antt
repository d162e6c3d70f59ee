-- ===== src/Tests/Silence.antt =====
-- The silence generator on concrete sequences of steps.
use discord_ext_voice_recv.Base.{
  ◌≡◌, refl, true, false, none, some, List, [], ◌∷◌, ◌++◌, arith, ok, raise, key_error,
}
use discord_ext_voice_recv.Base.Dict.{get, delete, put}
use discord_ext_voice_recv.Silence.{
  Packet, new_generator, push, drop, drop_ssrc, stop_signal, stop_clear, min_from, get_next_info,
  bump, dead, waiting, take, check, finish, advance, wake, Step, pushes, drops, signals, clears,
  advances, raises, callback_raises, step, run, new_machine,
}
use discord_ext_voice_recv.Silence.Idle.{IsSoundMachine, is_dead}
use discord_ext_voice_recv.Silence.Alive.{DiesOf, run-new_machine-IsSoundMachine}
use discord_ext_voice_recv.Silence.Quiet.{history, silences, run-silences}

abbrev first : Packet
first = record { ssrc = 11; timestamp = 960 }

abbrev second : Packet
second = record { ssrc = 11; timestamp = 9600 }

abbrev other : Packet
other = record { ssrc = 12; timestamp = 480 }

run-silences_example :
    let m = run (history 0 90000 (some 7) none first second 3 2) new_machine in
    (m.emitted ≡ silences (some 7) 11 960 3 ++ silences none 11 9600 2)
    × (get_next_info m.generator ≡ ok (record { time = 130000; user = none; packet = second }))
run-silences_example = run-silences 0 90000 (some 7) none first second 3 2 refl (omega arith)

-- The entry is dropped between the wait and the lock.
abbrev dropped_late : List Step
dropped_late = pushes 0 (some 7) first ∷ advances ∷ advances ∷ drops (some 11) (some 7) ∷ []

run-new_machine-IsSoundMachine_example :
    let m = run dropped_late new_machine in
    IsSoundMachine m
    × (is_dead m.phase ≡ false → is_dead (step advances m).phase ≡ true → DiesOf advances m)
run-new_machine-IsSoundMachine_example = run-new_machine-IsSoundMachine dropped_late advances

dropped_late_dies : (step advances (run dropped_late new_machine)).phase ≡ dead
unfolding run step push drop drop_ssrc advance take get_next_info put get delete wake
dropped_late_dies = refl

-- Two packets of one time.
tie_dies :
    (run
      (pushes 0 none first ∷ pushes 0 none other ∷ advances ∷ advances ∷ advances ∷ [])
      new_machine).phase
    ≡ dead
unfolding run step push advance take get_next_info min_from put get wake
tie_dies = refl

-- A packet that comes during the callback is overwritten by the one of the round before, and its
-- timestamp is moved on.
lost_packet :
    (run
      (pushes 0 none first
        ∷ advances
        ∷ advances
        ∷ advances
        ∷ advances
        ∷ pushes 36000 (some 7) second
        ∷ advances
        ∷ [])
      new_machine).generator
    ≡ record {
      ssrc_data = (11, record { time = 20000; user = none; packet = first }) ∷ [];
      last_timestamp = (11, 10560) ∷ [];
      user_map_backup = (7, 11) ∷ [];
      end_ = false;
      has_data = true;
    }
unfolding run step push advance take check finish bump get_next_info min_from put get wake
lost_packet = refl

-- One who never spoke leaves.
drop_unknown : (drop (some 11) (some 7) new_generator).1 ≡ raise key_error
unfolding drop drop_ssrc get
drop_unknown = refl

-- The thread is stopped between the test of the loop and the wait.
stop_unheard : (run (advances ∷ signals ∷ clears ∷ advances ∷ []) new_machine).phase ≡ waiting
unfolding run step advance stop_signal stop_clear wake
stop_unheard = refl

raising_callback_kills :
    (run
      (pushes 0 none first ∷ advances ∷ advances ∷ advances ∷ advances ∷ raises ∷ [])
      new_machine).phase
    ≡ dead
unfolding run step push advance take check get_next_info min_from put get wake callback_raises
raising_callback_kills = refl
