-- ===== src/SinkEvents/Thread/Delivery.antt =====
-- Each event that is queued is delivered once and in order, to those who listen when it is.
use mathlib.Core.List.{append_assoc, append-nil, map-append}
use discord_ext_voice_recv.Base.{
  ◌*◌, ◌≡◌, refl, sym, ap, ◌∙◌, false, List, [], ◌∷◌, ◌++◌, length, map,
}
use discord_ext_voice_recv.SinkEvents.{Sink, walk}
use discord_ext_voice_recv.SinkEvents.Listeners.{named, IsOwn, new_router-IsOwn, set_sink-IsOwn}
use discord_ext_voice_recv.SinkEvents.Thread.{
  Event, Call, Place, testing, getting, ended, EventThread, new_thread, calls_of, rtcp_packet,
  take_event, advance, Step, dispatches, feeds_rtcp, sets_sink, stops, runs, step, run,
}
use discord_ext_voice_recv.SinkEvents.Thread.Drained.{rounds, drain, run-EndsWhenTold}

-- The events that a step queues, and that some steps do.
abbrev pub queued_by : Step → List Event
queued_by (dispatches e) = e ∷ []
queued_by (feeds_rtcp packet) = (rtcp_packet, packet) ∷ []
queued_by _ = []

abbrev pub queued : List Step → List Event
queued [] = []
queued (s ∷ l) = queued_by s ++ queued l

-- The event that a thread takes in a step of it, with the sink that there is then.
abbrev pub taken : Place → List Event → Sink → List (Sink × Event)
taken getting (e ∷ rest) s = (s, e) ∷ []
taken _ _ s = []

abbrev pub handled_by : Step → EventThread → List (Sink × Event)
handled_by runs t = taken t.place t.buffer t.router.current
handled_by _ t = []

abbrev pub handled : List Step → EventThread → List (Sink × Event)
handled [] t = []
handled (s ∷ l) t = handled_by s t ++ handled l (step s t)

-- The calls that are due for them: of the methods in the tree of the sink that listen.
abbrev pub due : List (Sink × Event) → List Call
due [] = []
due ((s, e) ∷ l) = calls_of e (named e.0 (walk s)) ++ due l

abbrev pub events : List (Sink × Event) → List Event
events = map (λ p. p.1)

due-append : (l r : List (Sink × Event)) → due (l ++ r) ≡ due l ++ due r
due-append [] r = refl
due-append ((s, e) ∷ l) r =
    ap (λ d. calls_of e (named e.0 (walk s)) ++ d) (due-append l r)
    ∙ sym (append_assoc (calls_of e (named e.0 (walk s))) (due l) (due r))

advance-buffer :
    (p : Place) (b : List Event) (t : EventThread)
    → t.buffer ≡ b
    → events (taken p b t.router.current) ++ (advance p t).buffer ≡ b
unfolding advance take_event
advance-buffer testing b t h = h
advance-buffer getting [] t h = rw (h, take_event)
advance-buffer getting (e ∷ rest) t h = rw (h, take_event)
advance-buffer ended b t h = h

advance-calls :
    (p : Place) (b : List Event) (t : EventThread)
    → t.buffer ≡ b
    → IsOwn t.router
    → (advance p t).calls ≡ t.calls ++ due (taken p b t.router.current)
unfolding advance take_event
advance-calls testing b t h own = sym (append-nil t.calls)
advance-calls getting [] t h own = rw (h, take_event) (sym (append-nil t.calls))
advance-calls getting (e ∷ rest) t h own =
    rw (h, take_event)
      (ap (λ l. t.calls ++ l)
        (ap (calls_of e) (own e.0)
          ∙ sym (append-nil (calls_of e (named e.0 (walk t.router.current))))))
advance-calls ended b t h own = sym (append-nil t.calls)

advance-IsOwn :
    (p : Place) (b : List Event) (t : EventThread)
    → t.buffer ≡ b
    → IsOwn t.router
    → IsOwn (advance p t).router
unfolding advance take_event
advance-IsOwn testing b t h own = own
advance-IsOwn getting [] t h own = rw (h, take_event) own
advance-IsOwn getting (e ∷ rest) t h own = rw (h, take_event) own
advance-IsOwn ended b t h own = own

step-buffer :
    (s : Step) (t : EventThread)
    → events (handled_by s t) ++ (step s t).buffer ≡ t.buffer ++ queued_by s
unfolding step
step-buffer (dispatches e) t = refl
step-buffer (feeds_rtcp packet) t = refl
step-buffer (sets_sink s) t = sym (append-nil t.buffer)
step-buffer stops t = sym (append-nil t.buffer)
step-buffer runs t = advance-buffer t.place t.buffer t refl ∙ sym (append-nil t.buffer)

step-calls :
    (s : Step) (t : EventThread)
    → IsOwn t.router
    → ((step s t).calls ≡ t.calls ++ due (handled_by s t)) × IsOwn (step s t).router
unfolding step
step-calls (dispatches e) t own = (sym (append-nil t.calls), own)
step-calls (feeds_rtcp packet) t own = (sym (append-nil t.calls), own)
step-calls (sets_sink s) t own = (sym (append-nil t.calls), set_sink-IsOwn t.router s own)
step-calls stops t own = (sym (append-nil t.calls), own)
step-calls runs t own =
    (advance-calls t.place t.buffer t refl own, advance-IsOwn t.place t.buffer t refl own)

run-buffer :
    (l : List Step) (t : EventThread)
    → events (handled l t) ++ (run l t).buffer ≡ t.buffer ++ queued l
unfolding run
run-buffer [] t = sym (append-nil t.buffer)
run-buffer (s ∷ l) t =
    let t' = step s t in
    let now = events (handled_by s t) in
    ap (λ b. b ++ (run l t').buffer) (map-append (λ p. p.1) (handled_by s t) (handled l t'))
    ∙ append_assoc now (events (handled l t')) (run l t').buffer
    ∙ ap (λ b. now ++ b) (run-buffer l t')
    ∙ sym (append_assoc now t'.buffer (queued l))
    ∙ ap (λ b. b ++ queued l) (step-buffer s t)
    ∙ append_assoc t.buffer (queued_by s) (queued l)

run-calls :
    (l : List Step) (t : EventThread)
    → IsOwn t.router
    → (run l t).calls ≡ t.calls ++ due (handled l t)
unfolding run
run-calls [] t own = sym (append-nil t.calls)
run-calls (s ∷ l) t own =
    let t' = step s t in
    let here = step-calls s t own in
    run-calls l t' here.1
    ∙ ap (λ b. b ++ due (handled l t')) here.0
    ∙ append_assoc t.calls (due (handled_by s t)) (due (handled l t'))
    ∙ ap (λ b. t.calls ++ b) (sym (due-append (handled_by s t) (handled l t')))

pub record IsDelivered (l : List Step) (s : Sink) : Type 0 where
  pub in_order : events (handled l (new_thread s)) ++ (run l (new_thread s)).buffer ≡ queued l
  pub called : (run l (new_thread s)).calls ≡ due (handled l (new_thread s))
  pub drained :
      (run l (new_thread s)).end_thread ≡ false
      → (run (rounds (2 * length (run l (new_thread s)).buffer)) (run l (new_thread s))).buffer ≡ []

-- However the calls of other threads come between the steps of the thread of an event router: the
-- events that it has taken and those that wait are all that were queued, in order; for each that it
-- took the methods in the tree of the sink that was set then that listen to the event were called
-- with its arguments, in the order of the walk, and nothing else was called; and while it is not told
-- to end, two more steps of it for each event that waits leave none waiting.
pub run-new_thread-IsDelivered : (l : List Step) (s : Sink) → IsDelivered l s
run-new_thread-IsDelivered l s =
    let t = run l (new_thread s) in
    record {
      in_order = run-buffer l (new_thread s);
      called = run-calls l (new_thread s) (new_router-IsOwn s);
      drained = λ told. drain t (told, λ e. cc (run-EndsWhenTold l (new_thread s) (λ h. cc) e));
    }
