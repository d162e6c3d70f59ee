-- ===== src/Silence.antt =====
-- discord/ext/voice_recv/silence.py, `SilenceGenerator`. Its thread is a state machine over its rounds
-- (`Phase`), of which each test of the loop, each part under the lock, each wait and the callback are
-- one step, so that the calls of other threads may come between any two of them; the callback may
-- raise (`raises`), which ends the thread. Times are in
-- microseconds, users are named by their id, and what the callback gets is the list `emitted`.
pub mod Sound
pub mod Idle
pub mod Alive
pub mod Quiet
use discord_ext_voice_recv.Base.{
  ℕ, ◌+◌, Bool, true, false, ◌&&◌, ◌||◌, not, Option, none, some, List, [], ◌∷◌, ◌++◌, ltb, ◌==◌,
  if◌then◌else◌, map, is_empty, is_some, Result, ok, raise, value_error, type_error, key_error,
  ◌>>=◌,
}
use discord_ext_voice_recv.Base.Dict.{Dict, get, get_or, put, delete}

-- A packet, of which the generator reads the ssrc and the timestamp.
pub record Packet : Type 0 where
  pub ssrc : ℕ
  pub timestamp : ℕ

-- `SSRCData`
pub record SsrcData : Type 0 where
  pub time : ℕ
  pub user : Option ℕ
  pub packet : Packet

pub record SilenceGenerator : Type 0 where
  pub ssrc_data : Dict SsrcData
  pub last_timestamp : Dict ℕ
  pub user_map_backup : Dict ℕ
  pub end_ : Bool
  pub has_data : Bool

abbrev pub packet_interval : ℕ
packet_interval = 20000

abbrev pub samples_per_frame : ℕ
samples_per_frame = 960

-- `__init__`
abbrev pub new_generator : SilenceGenerator
new_generator = record {
  ssrc_data = [];
  last_timestamp = [];
  user_map_backup = [];
  end_ = false;
  has_data = false;
}

unfoldable pub push : ℕ → Option ℕ → Packet → SilenceGenerator → SilenceGenerator
push now user packet g = record g {
  ssrc_data = put packet.ssrc (record { time = now; user = user; packet = packet }) g.ssrc_data;
  last_timestamp = put packet.ssrc packet.timestamp g.last_timestamp;
  user_map_backup = elim user [
    | none ↦ g.user_map_backup
    | some id ↦ put id packet.ssrc g.user_map_backup
  ];
  has_data = true;
}

-- `if not self._ssrc_data: self._has_data.clear()`
abbrev pub clear_if_empty : SilenceGenerator → SilenceGenerator
clear_if_empty g = if is_empty g.ssrc_data then record g { has_data = false } else g

abbrev pub forget : ℕ → SilenceGenerator → SilenceGenerator
forget ssrc g = record g {
  last_timestamp = delete ssrc g.last_timestamp;
  ssrc_data = delete ssrc g.ssrc_data;
}

-- The part of `drop` behind the look-up of the ssrc. A KeyError leaves what was done before it.
unfoldable pub drop_ssrc : ℕ → Option ℕ → SilenceGenerator → SilenceGenerator × Result (Unit {0})
drop_ssrc ssrc user g =
    let g' = forget ssrc g in
    let done : SilenceGenerator × Result (Unit {0}) = (clear_if_empty g', ok tt) in
    elim (get ssrc g.ssrc_data) [
      | some _ ↦ done
      | none ↦ elim user [
        | none ↦ done
        | some id ↦ elim (get id g.user_map_backup) [
          | none ↦ (g', raise key_error)
          | some own ↦ (
            clear_if_empty (record g' {
              user_map_backup = delete id g.user_map_backup;
              ssrc_data = delete own g'.ssrc_data;
            }),
            ok tt,
          )
        ]
      ]
    ]

-- `drop(ssrc=…, user=…)`; with neither, the attribute `id` of MISSING is asked for, which no caller
-- does.
unfoldable pub drop : Option ℕ → Option ℕ → SilenceGenerator → SilenceGenerator × Result (Unit {0})
unfolding drop_ssrc
drop (some ssrc) user g = drop_ssrc ssrc user g
drop none none g = (g, raise type_error)
drop none (some id) g = elim (get id g.user_map_backup) [
  | none ↦ (g, ok tt)
  | some ssrc ↦
      drop_ssrc ssrc (some id) (record g { user_map_backup = delete id g.user_map_backup })
]

-- `stop` sets both events, and then clears everything under the lock.
unfoldable pub stop_signal : SilenceGenerator → SilenceGenerator
stop_signal g = record g { end_ = true; has_data = true }

unfoldable pub stop_clear : SilenceGenerator → SilenceGenerator
stop_clear g = record new_generator { end_ = g.end_ }

-- `min` of the tuples. Two of one time are compared by user and packet, which are of different ssrcs
-- and so have no order.
unfoldable pub min_from : SsrcData → List SsrcData → Result SsrcData
min_from best [] = ok best
min_from best (x ∷ l) =
    let rest = min_from (if ltb x.time best.time then x else best) l in
    if x.time == best.time then raise type_error else rest

unfoldable pub get_next_info : SilenceGenerator → Result SsrcData
unfolding min_from
get_next_info g = elim (map (λ (e : ℕ × SsrcData). e.1) g.ssrc_data) [
  | [] ↦ raise value_error
  | x ∷ l ↦ min_from x l
]

-- What a round keeps over its sleep: `tlast`, `user`, `packet` and `next_packet`.
pub record Round : Type 0 where
  pub tlast : ℕ
  pub user : Option ℕ
  pub packet : Packet
  pub next_packet : Packet

-- `testing` stands before the test of the loop, `entering` between it and the wait for data, `waiting`
-- in the wait and `woken` behind it.
pub data Phase : Type 0 where
  testing entering waiting woken ended dead : Phase
  sleeping calling : Round → Phase

-- The generator with its thread, and what the callback got: the user and the packet.
pub record Machine : Type 0 where
  pub generator : SilenceGenerator
  pub phase : Phase
  pub emitted : List (Option ℕ × Packet)

abbrev pub round_of : SilenceGenerator → SsrcData → Round
round_of g x = record {
  tlast = x.time;
  user = x.user;
  packet = x.packet;
  next_packet = record {
    ssrc = x.packet.ssrc;
    timestamp = get_or x.packet.ssrc x.packet.timestamp g.last_timestamp + samples_per_frame;
  };
}

-- The first part under the lock.
unfoldable pub take : Machine → Machine
unfolding get_next_info
take m = elim (get_next_info m.generator) [
  | raise e ↦ record m { phase = dead }
  | ok x ↦ record m { phase = sleeping (round_of m.generator x) }
]

-- The part behind the sleep: the second look at the data, and the callback.
unfoldable pub check : Round → Machine → Machine
check r m =
    let ssrc = r.packet.ssrc in
    let called : Option (Option ℕ) = elim (get ssrc m.generator.ssrc_data) [
      | none ↦ none
      | some x ↦ if (x.packet.ssrc == ssrc) && (x.time == r.tlast) then some x.user else none
    ] in
    elim called [
      | none ↦ record m { phase = testing }
      | some user ↦
          if m.generator.end_
          then record m { phase = testing }
          else record m { phase = calling r; emitted = m.emitted ++ (user, r.next_packet) ∷ [] }
    ]

unfoldable pub bump : Round → ℕ → SilenceGenerator → SilenceGenerator
bump r timestamp g =
    let ssrc = r.packet.ssrc in
    record g {
      ssrc_data =
          put ssrc (record { time = r.tlast + packet_interval; user = r.user; packet = r.packet })
            g.ssrc_data;
      last_timestamp = put ssrc (timestamp + samples_per_frame) g.last_timestamp;
    }

-- The last part under the lock. It tests times that were read before the callback, which are equal.
unfoldable pub finish : Round → Machine → Machine
unfolding bump
finish r m = elim (get r.packet.ssrc m.generator.ssrc_data) [
  | none ↦ record m { phase = testing }
  | some _ ↦ elim (get r.packet.ssrc m.generator.last_timestamp) [
    | none ↦ record m { phase = dead }
    | some timestamp ↦ record m { phase = testing; generator = bump r timestamp m.generator }
  ]
]

-- A step of the thread. One that waits is woken by the other threads only.
unfoldable pub advance : Machine → Machine
unfolding take check finish
advance m = elim m.phase [
  | testing ↦ record m { phase = if m.generator.end_ then ended else entering }
  | entering ↦ record m { phase = if m.generator.has_data then woken else waiting }
  | waiting ↦ m
  | woken ↦ if m.generator.end_ then record m { phase = ended } else take m
  | sleeping r ↦ check r m
  | calling r ↦ finish r m
  | ended ↦ m
  | dead ↦ m
]

-- `self._has_data.set()` wakes a thread that waits, whatever becomes of the event afterwards.
unfoldable pub wake : Machine → Machine
wake m = elim m.phase [
  | waiting ↦ record m { phase = woken }
  | testing ↦ m
  | entering ↦ m
  | woken ↦ m
  | sleeping r ↦ m
  | calling r ↦ m
  | ended ↦ m
  | dead ↦ m
]

-- `self.callback(…)` raises, in a thread that is in its call.
unfoldable pub callback_raises : Machine → Machine
callback_raises m = elim m.phase [
  | calling r ↦ record m { phase = dead }
  | testing ↦ m
  | entering ↦ m
  | waiting ↦ m
  | woken ↦ m
  | sleeping r ↦ m
  | ended ↦ m
  | dead ↦ m
]

pub data Step : Type 0 where
  pushes : ℕ → Option ℕ → Packet → Step
  drops : Option ℕ → Option ℕ → Step
  signals clears advances raises : Step

unfoldable pub step : Step → Machine → Machine
unfolding push drop stop_signal stop_clear advance wake callback_raises
step (pushes now user packet) m = wake (record m { generator = push now user packet m.generator })
step (drops ssrc user) m = record m { generator = (drop ssrc user m.generator).0 }
step signals m = wake (record m { generator = stop_signal m.generator })
step clears m = record m { generator = stop_clear m.generator }
step advances m = advance m
step raises m = callback_raises m

unfoldable pub run : List Step → Machine → Machine
unfolding step
run [] m = m
run (s ∷ l) m = run l (step s m)

abbrev pub new_machine : Machine
new_machine = record { generator = new_generator; phase = testing; emitted = [] }
