-- ===== src/Silence/Alive.antt =====
-- `SilenceGenerator.run`: what an exception, which ends the thread, may come from.
use discord_ext_voice_recv.Base.{
  ℕ, ◌≡◌, ◌⊎◌, inl, inr, Bool, true, false, ◌||◌, List, [], ◌∷◌, arith, refl, ap, is_empty, ltb,
  ◌==◌, raise, Error, map, Bool-cases, Result-cases,
}
use discord_ext_voice_recv.Base.Dict.{Dict, get, contains}
use discord_ext_voice_recv.Silence.{
  SsrcData, SilenceGenerator, min_from, get_next_info, Round, Phase, testing, entering, waiting,
  woken, ended, dead, sleeping, calling, Machine, take, check, finish, advance, wake, Step, pushes,
  drops, signals, clears, advances, raises, callback_raises, step, run, new_machine,
}
use discord_ext_voice_recv.Silence.Sound.{IsSound}
use discord_ext_voice_recv.Silence.Idle.{IsSoundMachine, is_dead, run-IsSoundMachine}

-- Two of the times are equal.
unfoldable pub tied : List ℕ → Bool
unfolding contains
tied [] = false
tied (t ∷ l) = contains t l || tied l

abbrev times : List SsrcData → List ℕ
times = map (λ (x : SsrcData). x.time)

min_from-tied :
    (best : SsrcData) (l : List SsrcData) (e : Error)
    → min_from best l ≡ raise e
    → tied (best.time ∷ times l) ≡ true
unfolding min_from tied contains
min_from-tied best [] e r = absurd (cc)
min_from-tied best (x ∷ l) e r = elim (Bool-cases (x.time == best.time)) [
  | inl same ↦ ground (arith, same)
  | inr other ↦ (elim (Bool-cases (ltb x.time best.time)) [
    | inl earlier ↦ ground (arith, other, earlier, r, min_from-tied x l e)
    | inr later ↦ ground (arith, other, later, r, min_from-tied best l e)
  ])
]

abbrev pub data_times : SilenceGenerator → List ℕ
data_times g = map (λ (e : ℕ × SsrcData). e.1.time) g.ssrc_data

times-map :
    (l : Dict SsrcData)
    → times (map (λ (e : ℕ × SsrcData). e.1) l) ≡ map (λ (e : ℕ × SsrcData). e.1.time) l
times-map [] = refl
times-map (x ∷ l) = ap (λ r. x.1.time ∷ r) (times-map l)

-- There is no data, or two of the times are equal.
abbrev pub HasNoNext : SilenceGenerator → Type 0
HasNoNext g = (is_empty g.ssrc_data ≡ true) ⊎ (tied (data_times g) ≡ true)

get_next_info-HasNoNext :
    (g : SilenceGenerator) (l : Dict SsrcData) (e : Error)
    → g.ssrc_data ≡ l
    → get_next_info g ≡ raise e
    → HasNoNext g
unfolding get_next_info
get_next_info-HasNoNext g [] e found r = inl (ground (arith, found))
get_next_info-HasNoNext g (x ∷ l) e found r =
    let raised : min_from (x.1) (map (λ (y : ℕ × SsrcData). y.1) l) ≡ raise e =
      rw (found, get_next_info) at r in
    inr (rw found (rw (times-map l) at (min_from-tied (x.1) _ e raised)))

take-survives : (m : Machine) → is_dead (take m).phase ≡ true → HasNoNext m.generator
unfolding take
take-survives m h = elim (Result-cases (get_next_info m.generator)) [
  | inl (e, raised) ↦ get_next_info-HasNoNext m.generator _ e refl raised
  | inr (x, returns) ↦ absurd (ground (arith, returns))
]

finish-survives :
    (r : Round) (m : Machine) → IsSound m.generator → is_dead (finish r m).phase ≡ false
unfolding finish
finish-survives r m h = ground (arith, h.stamped r.packet.ssrc)

check-survives : (r : Round) (m : Machine) → is_dead (check r m).phase ≡ false
unfolding check
check-survives r m = ground arith

wake-survives : (m : Machine) → is_dead m.phase ≡ false → is_dead (wake m).phase ≡ false
unfolding wake
wake-survives m h = ground arith

-- Why the thread dies in a step: the callback raises, or there is no least time behind the wait.
abbrev pub DiesOf : Step → Machine → Type 0
DiesOf raises m = (r : Round) × (m.phase ≡ calling r)
DiesOf _ m = (m.phase ≡ woken) × (m.generator.end_ ≡ false) × HasNoNext m.generator

raises-DiesOf :
    (p : Phase) (m : Machine)
    → m.phase ≡ p
    → is_dead m.phase ≡ false
    → is_dead (callback_raises m).phase ≡ true
    → DiesOf raises m
unfolding callback_raises
raises-DiesOf testing m e lives d = absurd (ground (arith, e))
raises-DiesOf entering m e lives d = absurd (ground (arith, e))
raises-DiesOf waiting m e lives d = absurd (ground (arith, e))
raises-DiesOf woken m e lives d = absurd (ground (arith, e))
raises-DiesOf ended m e lives d = absurd (ground (arith, e))
raises-DiesOf dead m e lives d = absurd (ground (arith, e))
raises-DiesOf (sleeping r) m e lives d = absurd (ground (arith, e))
raises-DiesOf (calling r) m e lives d = (r, e)

advance-DiesOf :
    (p : Phase) (m : Machine)
    → m.phase ≡ p
    → IsSound m.generator
    → is_dead m.phase ≡ false
    → is_dead (advance m).phase ≡ true
    → DiesOf advances m
unfolding advance
advance-DiesOf testing m e h lives d = absurd (ground (arith, e))
advance-DiesOf entering m e h lives d = absurd (ground (arith, e))
advance-DiesOf waiting m e h lives d = absurd (ground (arith, e))
advance-DiesOf woken m e h lives d =
    let goes_on : m.generator.end_ ≡ false = ground (arith, e) in
    (e, goes_on, take-survives m (ground (arith, e, goes_on)))
advance-DiesOf ended m e h lives d = absurd (ground (arith, e))
advance-DiesOf dead m e h lives d = absurd (ground (arith, e))
advance-DiesOf (sleeping r) m e h lives d = absurd (ground (arith, e, check-survives r m))
advance-DiesOf (calling r) m e h lives d = absurd (ground (arith, e, finish-survives r m h))

step-DiesOf :
    (s : Step) (m : Machine)
    → IsSound m.generator
    → is_dead m.phase ≡ false
    → is_dead (step s m).phase ≡ true
    → DiesOf s m
unfolding step
step-DiesOf (pushes now user packet) m h lives d = absurd (ground (arith, wake-survives _ lives))
step-DiesOf (drops ssrc user) m h lives d = absurd (ground arith)
step-DiesOf signals m h lives d = absurd (ground (arith, wake-survives _ lives))
step-DiesOf clears m h lives d = absurd (ground arith)
step-DiesOf advances m h lives d = advance-DiesOf m.phase m refl h lives d
step-DiesOf raises m h lives d = raises-DiesOf m.phase m refl lives d

new_machine-IsSoundMachine : IsSoundMachine new_machine
unfolding get
new_machine-IsSoundMachine = record {
  generator = record {
    own = λ k x e. absurd (ground arith);
    stamped = λ k e. refl;
    ready = λ e. refl;
  };
  idle = λ e. absurd (cc);
}

-- However the calls of other threads come between the steps of a generator's thread, its callback
-- raising or not: every ssrc that has data has a timestamp, and the data is of that ssrc; until the
-- generator is stopped the event is set exactly when there is data, and the thread waits only while
-- there is none. And a step that kills the living thread is one in which the callback raises, or one
-- behind the wait, of a generator that is not stopped, which finds no data or two equal times.
pub run-new_machine-IsSoundMachine :
    (l : List Step) (s : Step)
    → let m = run l new_machine in
      IsSoundMachine m × (is_dead m.phase ≡ false → is_dead (step s m).phase ≡ true → DiesOf s m)
run-new_machine-IsSoundMachine l s =
    let h = run-IsSoundMachine l new_machine new_machine-IsSoundMachine in
    (h, step-DiesOf s (run l new_machine) h.generator)
