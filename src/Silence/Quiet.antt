-- ===== src/Silence/Quiet.antt =====
-- `SilenceGenerator`: what the callback gets while no packet comes.
use discord_ext_voice_recv.Base.{
  ℕ, zero, suc, ◌+◌, ◌*◌, ◌≡◌, ◌≢◌, sym, ◌∙◌, ap, true, false, Option, none, some, List, [], ◌∷◌,
  ◌++◌, arith, refl, ok,
}
use mathlib.Core.List.{append-nil, append_assoc}
use discord_ext_voice_recv.Base.Dict.{Dict, get, put}
use discord_ext_voice_recv.Silence.{
  Packet, SsrcData, push, bump, min_from, get_next_info, round_of, packet_interval,
  samples_per_frame, testing, Machine, take, check, finish, advance, wake, Step, pushes, advances,
  step, run, new_machine,
}

-- The steps of one round.
abbrev pub round : List Step
round = advances ∷ advances ∷ advances ∷ advances ∷ advances ∷ []

abbrev after_round : SsrcData → ℕ → Machine → Machine
after_round x t m = record m {
  generator = bump (round_of m.generator x) t m.generator;
  emitted =
      m.emitted
      ++ (x.user, record { ssrc = x.packet.ssrc; timestamp = t + samples_per_frame }) ∷ [];
}

-- A round of which nothing changes the data emits one packet for the ssrc that was heard the longest
-- ago, and moves that ssrc on.
round-quiet :
    (x : SsrcData) (t : ℕ) (m : Machine)
    → m.phase ≡ testing
    → m.generator.end_ ≡ false
    → m.generator.has_data ≡ true
    → get_next_info m.generator ≡ ok x
    → get x.packet.ssrc m.generator.ssrc_data ≡ some x
    → get x.packet.ssrc m.generator.last_timestamp ≡ some t
    → run round m ≡ after_round x t m
unfolding run step advance take check finish
round-quiet x t m at_test goes_on has_data next found stamped = ground (arith)

abbrev pub rounds : ℕ → List Step
rounds zero = []
rounds (suc k) = round ++ rounds k

-- A round in the sleep of which a packet comes.
abbrev pub interrupted : ℕ → Option ℕ → Packet → List Step
interrupted now user packet =
    advances ∷ advances ∷ advances ∷ pushes now user packet ∷ advances ∷ []

-- What `k` rounds are to give for an ssrc: packets that are a frame apart, the first of them a frame
-- behind `timestamp`.
unfoldable pub silences : Option ℕ → ℕ → ℕ → ℕ → List (Option ℕ × Packet)
silences user ssrc timestamp zero = []
silences user ssrc timestamp (suc k) =
    let next = timestamp + samples_per_frame in
    (user, record { ssrc = ssrc; timestamp = next }) ∷ silences user ssrc next k

run-append : (l r : List Step) (m : Machine) → run (l ++ r) m ≡ run r (run l m)
unfolding run
run-append [] r m = refl
run-append (s ∷ l) r m = run-append l r (step s m)

module _ (user : Option ℕ) (packet : Packet) (backup : Dict ℕ) where
  -- A generator of one ssrc at the begin of a round.
  abbrev pub steady : ℕ → ℕ → List (Option ℕ × Packet) → Machine
  steady time timestamp emitted = record {
    generator = record {
      ssrc_data = (packet.ssrc, record { time = time; user = user; packet = packet }) ∷ [];
      last_timestamp = (packet.ssrc, timestamp) ∷ [];
      user_map_backup = backup;
      end_ = false;
      has_data = true;
    };
    phase = testing;
    emitted = emitted;
  }

  round-steady :
      (time timestamp : ℕ) (emitted : List (Option ℕ × Packet))
      → run round (steady time timestamp emitted)
        ≡ steady (time + packet_interval) (timestamp + samples_per_frame) (
            emitted
            ++ (user, record { ssrc = packet.ssrc; timestamp = timestamp + samples_per_frame })
              ∷ [])
  unfolding run step advance take check finish get_next_info min_from get put bump
  round-steady time timestamp emitted = ground (arith)

  steady_eq :
      {time time' timestamp timestamp' : ℕ} {emitted emitted' : List (Option ℕ × Packet)}
      → time ≡ time'
      → timestamp ≡ timestamp'
      → emitted ≡ emitted'
      → steady time timestamp emitted ≡ steady time' timestamp' emitted'
  steady_eq e f g = cc

  rounds-steady :
      (k time timestamp : ℕ) (emitted : List (Option ℕ × Packet))
      → run (rounds k) (steady time timestamp emitted)
        ≡ steady
            (time + k * packet_interval)
            (timestamp + k * samples_per_frame)
            (emitted ++ silences user packet.ssrc timestamp k)
  unfolding silences
  rounds-steady zero time timestamp emitted =
      unfold run in steady_eq (omega arith) (omega arith) (sym (append-nil emitted))
  rounds-steady (suc k) time timestamp emitted =
      run-append round (rounds k) (steady time timestamp emitted)
      ∙ ap (run (rounds k)) (round-steady time timestamp emitted)
      ∙ rounds-steady k _ _ _
      ∙ steady_eq (omega arith) (omega arith) (append_assoc emitted _ _)

abbrev pub remembered : Option ℕ → ℕ → Dict ℕ → Dict ℕ
remembered user ssrc backup = elim user [ none ↦ backup | some id ↦ put id ssrc backup ]

interrupted-steady :
    (user user' : Option ℕ) (packet packet' : Packet) (backup : Dict ℕ) (now time timestamp : ℕ)
    (emitted : List (Option ℕ × Packet))
    → packet'.ssrc ≡ packet.ssrc
    → now ≢ time
    → run (interrupted now user' packet') (steady user packet backup time timestamp emitted)
      ≡ steady user' packet' (remembered user' packet'.ssrc backup) now packet'.timestamp emitted
unfolding run step advance take check finish get_next_info min_from get put push wake
interrupted-steady user user' packet packet' backup now time timestamp emitted same later =
    ground (arith, same)

push-steady :
    (now : ℕ) (user : Option ℕ) (packet : Packet)
    → run (pushes now user packet ∷ []) new_machine
      ≡ steady user packet (remembered user packet.ssrc []) now packet.timestamp []
unfolding run step push wake put
push-steady now user packet = refl

abbrev pub history : ℕ → ℕ → Option ℕ → Option ℕ → Packet → Packet → ℕ → ℕ → List Step
history now now' user user' packet packet' k j =
    pushes now user packet ∷ [] ++ (rounds k ++ (interrupted now' user' packet' ++ rounds j))

run-history :
    (now now' : ℕ) (user user' : Option ℕ) (packet packet' : Packet) (k j : ℕ)
    → packet'.ssrc ≡ packet.ssrc
    → now' ≢ now + k * packet_interval
    → run (history now now' user user' packet packet' k j) new_machine
      ≡ steady user' packet'
          (remembered user' packet'.ssrc (remembered user packet.ssrc []))
          (now' + j * packet_interval)
          (packet'.timestamp + j * samples_per_frame)
          (silences user packet.ssrc packet.timestamp k
            ++ silences user' packet'.ssrc packet'.timestamp j)
run-history now now' user user' packet packet' k j same later =
    run-append (pushes now user packet ∷ []) _ new_machine
    ∙ ap (run _) (push-steady now user packet)
    ∙ run-append (rounds k) _ _
    ∙ ap (run _) (rounds-steady user packet _ k now packet.timestamp [])
    ∙ run-append (interrupted now' user' packet') (rounds j) _
    ∙ ap (run (rounds j)) (interrupted-steady user user' packet packet' _ now' _ _ _ same later)
    ∙ rounds-steady user' packet' _ j now' packet'.timestamp _

-- In a new generator whose only calls are two pushes, of one ssrc: after the first, when the ssrc is
-- quiet for `k` rounds of the thread, it gets `k` silence packets, a frame apart from the packet on;
-- when a packet of it then comes in the sleep of a round, at a time other than the one the round
-- began with, the round sends nothing, and `j` more quiet rounds send `j` packets that count from the
-- new one. The next round is then due `j` intervals after it.
pub run-silences :
    (now now' : ℕ) (user user' : Option ℕ) (packet packet' : Packet) (k j : ℕ)
    → packet'.ssrc ≡ packet.ssrc
    → now' ≢ now + k * packet_interval
    → let m = run (history now now' user user' packet packet' k j) new_machine in
      (m.emitted
        ≡ silences user packet.ssrc packet.timestamp k
          ++ silences user' packet.ssrc packet'.timestamp j)
      × (get_next_info m.generator
          ≡ ok (record { time = now' + j * packet_interval; user = user'; packet = packet' }))
unfolding get_next_info min_from
run-silences now now' user user' packet packet' k j same later =
    let e = run-history now now' user user' packet packet' k j same later in
    (
      ap (λ (m : Machine). m.emitted) e
          ∙ ap
              (λ ssrc.
                silences user packet.ssrc packet.timestamp k
                ++ silences user' ssrc packet'.timestamp j)
              same,
      ap (λ (m : Machine). get_next_info m.generator) e,
    )
