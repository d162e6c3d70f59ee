-- ===== src/Silence/Idle.antt =====
-- `SilenceGenerator`: the thread waits only while there is no data.
use discord_ext_voice_recv.Base.{
  ℕ, ◌≡◌, sym, ◌∙◌, Bool, true, false, Option, none, some, List, [], ◌∷◌, arith, refl, is_empty,
  Bool-cases, Option-cases, inl, inr,
}
use discord_ext_voice_recv.Base.Dict.{get, delete}
use discord_ext_voice_recv.Silence.{
  SilenceGenerator, drop_ssrc, drop, stop_signal, stop_clear, Round, Phase, testing, entering,
  waiting, woken, ended, dead, sleeping, calling, Machine, take, check, finish, advance, wake, Step,
  pushes, drops, signals, clears, advances, raises, callback_raises, step, run,
}
use discord_ext_voice_recv.Silence.Sound.{
  IsSound, push-IsSound, drop-IsSound, bumped-IsSound, delete_of_empty,
}

abbrev pub waits : Phase → Bool
waits waiting = true
waits _ = false

abbrev pub is_dead : Phase → Bool
is_dead dead = true
is_dead _ = false

-- The generator is sound, and unless it was stopped, the thread waits only while there is no data.
pub record IsSoundMachine (m : Machine) : Type 0 where
  pub generator : IsSound m.generator
  pub idle : waits m.phase ≡ true → m.generator.end_ ≡ false → is_empty m.generator.ssrc_data ≡ true

wake-same : (m : Machine) → ((wake m).generator ≡ m.generator) × (waits (wake m).phase ≡ false)
unfolding wake
wake-same m = ground arith

woken_up : (m : Machine) → IsSound m.generator → IsSoundMachine (wake m)
woken_up m h = record {
  generator = rw ((wake-same m).0) h;
  idle = λ e. absurd (ground (arith, (wake-same m).1));
}

finish-IsSoundMachine :
    (r : Round) (m : Machine) → IsSound m.generator → IsSoundMachine (finish r m)
unfolding finish
finish-IsSoundMachine r m h = elim (Option-cases (get r.packet.ssrc m.generator.ssrc_data)) [
  | inl gone ↦ rw (gone, finish) (record { generator = h; idle = λ e. absurd (cc) })
  | inr (x, found) ↦ elim (Option-cases (get r.packet.ssrc m.generator.last_timestamp)) [
    | inl unstamped ↦
        rw (found, unstamped, finish) (record { generator = h; idle = λ e. absurd (cc) })
    | inr (timestamp, stamped) ↦
        rw (found, stamped, finish)
          (record {
            generator = bumped-IsSound r x timestamp m.generator found h;
            idle = λ e. absurd (cc);
          })
  ]
]

check-same :
    (r : Round) (m : Machine)
    → ((check r m).generator ≡ m.generator) × (waits (check r m).phase ≡ false)
unfolding check
check-same r m = ground arith

take-same : (m : Machine) → ((take m).generator ≡ m.generator) × (waits (take m).phase ≡ false)
unfolding take
take-same m = ground arith

woke :
    (m m' : Machine)
    → m'.generator ≡ m.generator
    → waits m'.phase ≡ false
    → IsSound m.generator
    → IsSoundMachine m'
woke m m' same awake h = record {
  generator = rw same h;
  idle = λ e. absurd (ground (arith, awake));
}

-- A step of the thread, by where it stands.
advance_at : (p : Phase) (m : Machine) → m.phase ≡ p → IsSoundMachine m → IsSoundMachine (advance m)
unfolding advance
advance_at testing m e h = rw (e, advance) (woke m _ refl (ground arith) h.generator)
advance_at entering m e h =
    rw (e, advance)
      (record {
        generator = h.generator;
        idle = λ w goes_on. ground (arith, h.generator.ready goes_on);
      })
advance_at waiting m e h = rw (e, advance) h
advance_at woken m e h =
    rw (e, advance)
      (elim (Bool-cases m.generator.end_) [
        | inl is_end ↦ woke m _ (ground (arith, is_end)) (ground (arith, is_end)) h.generator
        | inr goes_on ↦
            woke m _ (ground (arith, goes_on, (take-same m).0))
              (ground (arith, goes_on, (take-same m).1)) h.generator
      ])
advance_at ended m e h = rw (e, advance) h
advance_at dead m e h = rw (e, advance) h
advance_at (sleeping r) m e h =
    rw (e, advance) (woke m (check r m) ((check-same r m).0) ((check-same r m).1) h.generator)
advance_at (calling r) m e h = rw (e, advance) (finish-IsSoundMachine r m h.generator)

drop_ssrc-shrinks :
    (ssrc : ℕ) (user : Option ℕ) (g : SilenceGenerator)
    → ((drop_ssrc ssrc user g).0.end_ ≡ g.end_)
      × (is_empty g.ssrc_data ≡ true → is_empty ((drop_ssrc ssrc user g).0.ssrc_data) ≡ true)
unfolding drop_ssrc
drop_ssrc-shrinks ssrc none g = ground (arith, delete_of_empty ssrc g.ssrc_data)
drop_ssrc-shrinks ssrc (some id) g = elim (Option-cases (get id g.user_map_backup)) [
  | inl unknown ↦ ground (arith, unknown, delete_of_empty ssrc g.ssrc_data)
  | inr (own, known) ↦ ground (
    arith,
    known,
    delete_of_empty ssrc g.ssrc_data,
    delete_of_empty own (delete ssrc g.ssrc_data),
  )
]

-- `drop` keeps what ends the thread, and what it leaves is in what was there.
drop-shrinks :
    (ssrc user : Option ℕ) (g : SilenceGenerator)
    → ((drop ssrc user g).0.end_ ≡ g.end_)
      × (is_empty g.ssrc_data ≡ true → is_empty ((drop ssrc user g).0.ssrc_data) ≡ true)
unfolding drop
drop-shrinks (some ssrc) user g = drop_ssrc-shrinks ssrc user g
drop-shrinks none none g = (refl, λ e. e)
drop-shrinks none (some id) g = elim (Option-cases (get id g.user_map_backup)) [
  | inl unknown ↦ rw (unknown, drop) (refl, λ e. e)
  | inr (ssrc, known) ↦
      rw (known, drop)
        (drop_ssrc-shrinks ssrc (some id)
          (record g { user_map_backup = delete id g.user_map_backup }))
]

raises_at :
    (p : Phase) (m : Machine) → m.phase ≡ p → IsSoundMachine m → IsSoundMachine (callback_raises m)
unfolding callback_raises
raises_at testing m e h = rw (e, callback_raises) h
raises_at entering m e h = rw (e, callback_raises) h
raises_at waiting m e h = rw (e, callback_raises) h
raises_at woken m e h = rw (e, callback_raises) h
raises_at ended m e h = rw (e, callback_raises) h
raises_at dead m e h = rw (e, callback_raises) h
raises_at (sleeping r) m e h = rw (e, callback_raises) h
raises_at (calling r) m e h = rw (e, callback_raises) (woke m _ refl refl h.generator)

step-IsSoundMachine : (s : Step) (m : Machine) → IsSoundMachine m → IsSoundMachine (step s m)
unfolding step stop_signal stop_clear get
step-IsSoundMachine (pushes now user packet) m h =
    woken_up _ (push-IsSound now user packet m.generator h.generator)
step-IsSoundMachine (drops ssrc user) m h = record {
  generator = drop-IsSound ssrc user m.generator h.generator;
  idle = λ w e.
      (drop-shrinks ssrc user m.generator).1
        (h.idle w (sym ((drop-shrinks ssrc user m.generator).0) ∙ e));
}
step-IsSoundMachine signals m h = woken_up _ (record {
  own = h.generator.own;
  stamped = h.generator.stamped;
  ready = λ e. absurd (ground arith);
})
step-IsSoundMachine clears m h = record {
  generator = record {
    own = λ k x e. absurd (ground arith);
    stamped = λ k e. refl;
    ready = λ e. refl;
  };
  idle = λ w e. refl;
}
step-IsSoundMachine advances m h = advance_at m.phase m refl h
step-IsSoundMachine raises m h = raises_at m.phase m refl h

-- Whatever comes between the steps of the thread: every ssrc with data has a timestamp, and until
-- the generator is stopped the event is set exactly when there is data, and the thread waits only
-- while there is none.
pub run-IsSoundMachine : (l : List Step) (m : Machine) → IsSoundMachine m → IsSoundMachine (run l m)
unfolding run
run-IsSoundMachine [] m h = h
run-IsSoundMachine (s ∷ l) m h = run-IsSoundMachine l (step s m) (step-IsSoundMachine s m h)
