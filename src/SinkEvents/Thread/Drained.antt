-- ===== src/SinkEvents/Thread/Drained.antt =====
-- The thread of `SinkEventRouter` goes on until it is told to end, and empties the queue.
use discord_ext_voice_recv.Base.{
  ℕ, zero, suc, ◌-◌, ◌*◌, ◌≤◌, ◌≡◌, ◌≢◌, refl, ap, ◌∙◌, true, false, List, [], ◌∷◌, arith, length,
  if◌then◌else◌, Bool-cases, inl, inr,
}
use discord_ext_voice_recv.SinkEvents.Thread.{
  Event, Place, testing, getting, ended, EventThread, take_event, advance, Step, dispatches,
  feeds_rtcp, sets_sink, stops, runs, step, run,
}

-- The steps of the thread that an event in the queue takes.
abbrev pending : Place → List Event → ℕ
pending testing b = 2 * length b
pending getting b = 2 * length b - 1
pending ended b = 0

abbrev pub rounds : ℕ → List Step
rounds zero = []
rounds (suc n) = runs ∷ rounds n

-- A thread that was not told to end is in its loop.
abbrev pub IsAlive : EventThread → Type 0
IsAlive t = (t.end_thread ≡ false) × (t.place ≢ ended)

advance-testing :
    (t : EventThread)
    → t.place ≡ testing
    → t.end_thread ≡ false
    → advance t.place t ≡ record t { place = getting }
unfolding advance
advance-testing t hp e =
    ap (λ p. advance p t) hp ∙ ap (λ x. record t { place = if x then ended else getting }) e

advance-getting :
    (t : EventThread) (b : List Event)
    → t.place ≡ getting
    → t.buffer ≡ b
    → advance t.place t ≡ take_event b t
unfolding advance
advance-getting t b hp hb = ap (λ p. advance p t) hp ∙ ap (λ l. take_event l t) hb

pending-le : (p : Place) (b : List Event) → pending p b ≤ 2 * length b
pending-le testing b = omega arith
pending-le getting b = omega arith
pending-le ended b = omega arith

rounds-empty :
    (n : ℕ) (p : Place) (b : List Event) (t : EventThread)
    → t.place ≡ p
    → t.buffer ≡ b
    → IsAlive t
    → pending p b ≤ n
    → (run (rounds n) t).buffer ≡ []
unfolding run step take_event
rounds-empty n ended b t hp hb alive h = absurd (alive.1 hp)
rounds-empty zero testing [] t hp hb alive h = hb
rounds-empty zero testing (e ∷ b) t hp hb alive h = absurd (omega arith)
rounds-empty zero getting [] t hp hb alive h = hb
rounds-empty zero getting (e ∷ b) t hp hb alive h = absurd (omega arith)
rounds-empty (suc n) testing b t hp hb alive h =
    ap (λ u. (run (rounds n) u).buffer) (advance-testing t hp alive.0)
    ∙ rounds-empty n getting b (record t { place = getting }) refl hb (alive.0, cc) (omega arith)
rounds-empty (suc n) getting [] t hp hb alive h =
    ap (λ u. (run (rounds n) u).buffer) (advance-getting t [] hp hb)
    ∙ rounds-empty n testing [] (take_event [] t) refl hb (alive.0, cc) (omega arith)
rounds-empty (suc n) getting (e ∷ b) t hp hb alive h =
    ap (λ u. (run (rounds n) u).buffer) (advance-getting t (e ∷ b) hp hb)
    ∙ rounds-empty n testing b (take_event (e ∷ b) t) refl refl (alive.0, cc) (omega arith)

pub drain : (t : EventThread) → IsAlive t → (run (rounds (2 * length t.buffer)) t).buffer ≡ []
drain t alive =
    rounds-empty (2 * length t.buffer) t.place t.buffer t refl refl alive
      (pending-le t.place t.buffer)

-- The thread leaves its loop only when it is told to.
abbrev pub EndsWhenTold : EventThread → Type 0
EndsWhenTold t = t.place ≡ ended → t.end_thread ≡ true

advance-EndsWhenTold :
    (p : Place) (b : List Event) (t : EventThread)
    → t.place ≡ p
    → t.buffer ≡ b
    → EndsWhenTold t
    → EndsWhenTold (advance p t)
unfolding advance take_event
advance-EndsWhenTold testing b t hp hb h e = elim (Bool-cases t.end_thread) [
  | inl told ↦ told
  | inr not_told ↦ absurd (cc (rw not_told at e))
]
advance-EndsWhenTold getting [] t hp hb h e = absurd (cc (rw (hb, take_event) at e))
advance-EndsWhenTold getting (x ∷ b) t hp hb h e = absurd (cc (rw (hb, take_event) at e))
advance-EndsWhenTold ended b t hp hb h e = h hp

pub run-EndsWhenTold : (l : List Step) (t : EventThread) → EndsWhenTold t → EndsWhenTold (run l t)
unfolding run step
run-EndsWhenTold [] t h = h
run-EndsWhenTold (dispatches e ∷ l) t h = run-EndsWhenTold l (step (dispatches e) t) h
run-EndsWhenTold (feeds_rtcp packet ∷ l) t h = run-EndsWhenTold l (step (feeds_rtcp packet) t) h
run-EndsWhenTold (sets_sink s ∷ l) t h = run-EndsWhenTold l (step (sets_sink s) t) h
run-EndsWhenTold (stops ∷ l) t h = run-EndsWhenTold l (step stops t) (λ e. refl)
run-EndsWhenTold (runs ∷ l) t h =
    run-EndsWhenTold l (advance t.place t) (advance-EndsWhenTold t.place t.buffer t refl refl h)
