-- ===== src/Speaking/Thread.antt =====
-- The thread of `SpeakingTimer`, step by step, with the calls of other threads between. `notify` sets
-- its event and clears it at once, so that only a thread that waits just then is woken. Whether the
-- wait for an entry ends so or by its timeout does not matter: the thread looks at the clock behind it.
use discord_ext_voice_recv.Base.{
  ℕ, ◌≡◌, refl, Bool, true, false, Option, none, some, List, [], ◌∷◌, map, not, is_some,
  if◌then◌else◌, is_empty,
}
use discord_ext_voice_recv.Speaking.{SpeakingTimer, get_next_entry, notify, drop_ssrc, expire}

-- Where the thread is: in the first wait, at the test of the loop, in the wait for something in the
-- cache, before the search, in the wait behind it that finds nobody, in the wait for the entry that it
-- picked, or at its end.
pub data Place : Type 0 where
  starting testing unfilled picking nobody ended : Place
  waiting : ℕ × ℕ → Place

pub record TimerThread : Type 0 where
  pub timer : SpeakingTimer
  pub end_thread : Bool
  pub place : Place

abbrev pub new_thread : TimerThread
new_thread = record {
  timer = record { last_speaking_state = []; speaking_cache = []; dispatched = [] };
  end_thread = false;
  place = starting;
}

-- What `speaking_timer_event.set()` does to the thread. A wait for an entry is not left by this step,
-- but by `expires`.
abbrev pub woken : Place → Place
woken starting = testing
woken unfilled = picking
woken nobody = testing
woken p = p

-- Where the search leads.
abbrev pub found : Option (ℕ × ℕ) → Place
found none = nobody
found (some entry) = waiting entry

-- A call of another thread, or a step of the thread at a time.
pub data Step : Type 0 where
  heard : ℕ → ℕ → Step
  drops ticks : ℕ → Step
  stops : Step

module _ (has_member : ℕ → Bool) where
  -- A step of `run`, at the time `now`. In a wait without timeout the thread stays.
  unfoldable pub advance : ℕ → Place → TimerThread → TimerThread
  unfolding get_next_entry expire
  advance now testing t = record t {
    place =
        if t.end_thread
        then ended
        else if is_empty t.timer.speaking_cache
        then unfilled
        else picking;
  }
  advance now picking t = record t { place = found (get_next_entry t.timer) }
  advance now (waiting entry) t = record t {
    timer = expire has_member now entry t.timer;
    place = testing;
  }
  advance now _ t = t

  unfoldable pub step : Step → TimerThread → TimerThread
  unfolding notify drop_ssrc advance
  step (heard now ssrc) t = record t {
    timer = notify has_member now ssrc t.timer;
    place = woken t.place;
  }
  step (drops ssrc) t = record t {
    timer = drop_ssrc has_member ssrc t.timer;
    place = woken t.place;
  }
  step (ticks now) t = advance now t.place t
  step stops t = record t { end_thread = true; place = woken t.place }

  unfoldable pub run : List Step → TimerThread → TimerThread
  unfolding step
  run [] t = t
  run (s ∷ l) t = run l (step s t)

-- The thread has yet to search, and will find nobody who speaks.
abbrev hangs_at : SpeakingTimer → Place → Bool
hangs_at timer unfilled = not (is_some (get_next_entry timer))
hangs_at timer picking = not (is_some (get_next_entry timer))
hangs_at timer _ = false

abbrev pub hangs : TimerThread → Bool
hangs t = hangs_at t.timer t.place

abbrev pub at_times : List ℕ → List Step
at_times = map ticks

abbrev told : SpeakingTimer → Place → TimerThread
told timer p = record { timer = timer; end_thread = true; place = p }

module _ (has_member : ℕ → Bool) where
  -- A thread that has ended, or waits to be woken, stays where it is.
  ticks-still :
      (times : List ℕ) (timer : SpeakingTimer) (b : Bool)
      → (run has_member (at_times times) (told timer (if b then nobody else ended))).place
        ≡ (if b then nobody else ended)
  unfolding run step advance
  ticks-still [] timer b = refl
  ticks-still (now ∷ times) timer true = ticks-still times timer true
  ticks-still (now ∷ times) timer false = ticks-still times timer false

  search-steps :
      (b c : ℕ) (times : List ℕ) (timer : SpeakingTimer) (o : Option (ℕ × ℕ))
      → (run has_member (at_times (b ∷ c ∷ times)) (told timer (found o))).place
        ≡ (if not (is_some o) then nobody else ended)
  unfolding run step advance
  search-steps b c times timer none = ticks-still times timer true
  search-steps b c times timer (some x) = ticks-still times (expire has_member b x timer) false

  told-ends :
      (a b c : ℕ) (times : List ℕ) (timer : SpeakingTimer) (p : Place)
      → (run has_member (at_times (a ∷ b ∷ c ∷ times)) (told timer (woken p))).place
        ≡ (if hangs_at timer p then nobody else ended)
  unfolding run step advance
  told-ends a b c times timer starting = ticks-still times timer false
  told-ends a b c times timer testing = ticks-still times timer false
  told-ends a b c times timer unfilled = search-steps b c times timer (get_next_entry timer)
  told-ends a b c times timer picking = search-steps b c times timer (get_next_entry timer)
  told-ends a b c times timer nobody = ticks-still times timer false
  told-ends a b c times timer ended = ticks-still times timer false
  told-ends a b c times timer (waiting x) = ticks-still times (expire has_member a x timer) false

  -- When the timer is told to end and is not called any more, its thread has ended after three steps
  -- more at most, whatever it did, unless it had yet to search for who speaks, also while it waited
  -- for something in the cache, and nobody does: then it waits for good.
  pub stops-ends :
      (t : TimerThread) (a b c : ℕ) (times : List ℕ)
      → (run has_member (stops ∷ at_times (a ∷ b ∷ c ∷ times)) t).place
        ≡ (if hangs t then nobody else ended)
  unfolding run step
  stops-ends t a b c times = told-ends a b c times t.timer t.place
