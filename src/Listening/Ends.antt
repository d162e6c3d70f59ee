-- ===== src/Listening/Ends.antt =====
-- The ends of a reader, by the client or by itself, and of its threads.
use discord_ext_voice_recv.Base.{
  ℕ, ◌≡◌, refl, ◌||◌, true, false, Option, none, some, [], ◌∷◌, ◌++◌, arith, is_some, Bool-cases,
  Option-cases, inl, inr, Error,
}
use discord_ext_voice_recv.Base.Dict.{get, put, contains, remove, get-put}
use discord_ext_voice_recv.Listening.{
  AudioReader, Client, is_active, stop, stop_listening, stopped, run_stopper, give_up, end_router,
}
use discord_ext_voice_recv.Listening.Tally.{
  count-append, count-remove, IsTallied-put, IsTallied-idled, IsTallied-stopped, Now-put, Now, idle,
  listening, halted, IsSingle, idled,
}

-- The client with another `_reader`, when a reader was stopped.
abbrev ended : Option ℕ → ℕ → AudioReader → Client → Client
ended o object r c = record c {
  socket_listeners = [];
  readers = put object (idled r) c.readers;
  stoppers = c.stoppers ++ object ∷ [];
  reader = o;
}

stop_listening-ended :
    (c : Client) (object : ℕ) (r : AudioReader)
    → c.reader ≡ some object
    → c.socket_listeners ≡ object ∷ []
    → get object c.readers ≡ some r
    → r.active ≡ true
    → stop_listening c ≡ ended none object r c
unfolding stop_listening stop remove
stop_listening-ended c object r has_reader alone found active =
    ground (arith, has_reader, alone, found, active)

stop-ended :
    (c : Client) (object : ℕ) (r : AudioReader)
    → c.socket_listeners ≡ object ∷ []
    → get object c.readers ≡ some r
    → r.active ≡ true
    → stop object c ≡ ended c.reader object r c
unfolding stop remove
stop-ended c object r alone found active = ground (arith, alone, found, active)

stop_listening-freed :
    (c : Client) (object : ℕ) (r : AudioReader)
    → c.reader ≡ some object
    → get object c.readers ≡ some r
    → r.active ≡ false
    → stop_listening c ≡ record c { reader = none }
unfolding stop_listening stop
stop_listening-freed c object r has_reader found inactive =
    ground (arith, has_reader, found, inactive)

none_active :
    (c : Client) (o : Option ℕ) (object j : ℕ) (r : AudioReader)
    → ((j : ℕ) → is_active c j ≡ true → j ≡ object)
    → is_active (ended o object r c) j ≡ false
none_active c o object j r alone = ground (arith, get-put object j (idled r) c.readers, alone j)

ended-IsSingle :
    (c : Client) (o : Option ℕ) (object : ℕ) (r : AudioReader)
    → get object c.readers ≡ some r
    → r.active ≡ true
    → Now (ended o object r c) o
    → IsSingle c
    → IsSingle (ended o object r c)
ended-IsSingle c o object r found active now_ h = record {
  fresh = λ j e. ground (arith, get-put object j (idled r) c.readers, h.fresh j, found);
  quiet = λ j e.
      ground
        (arith, get-put object j (idled r) c.readers, h.quiet j, count-append j object c.stoppers);
  tallied =
      IsTallied-put c.stoppers (c.stoppers ++ object ∷ []) object (idled r) c.readers
        (IsTallied-idled c.stoppers object r active (h.tallied object r found))
        (λ j other. ground (arith, count-append j object c.stoppers))
        (λ j x other e. h.tallied j x e);
  now = now_;
}

stop_now :
    (c : Client) (o : Option ℕ) → c.reader ≡ o → Now c o → IsSingle c → IsSingle (stop_listening c)
stop_now c _ e (idle nobody all) h = unfold stop_listening in (rw (e, stop_listening) h)
stop_now c _ e (listening object r alone found active attached only) h =
    rw (stop_listening-ended c object r e alone found active) (
      ended-IsSingle c none object r found active
        (idle refl (λ j. none_active c none object j r only)) h)
stop_now c _ e (halted object r nobody found attached all) h =
    rw (stop_listening-freed c object r e found (ground (arith, all object, found)))
      (record { fresh = h.fresh; quiet = h.quiet; tallied = h.tallied; now = idle nobody all })

-- A reader that stops itself is the one that the client has, if it is active.
stops_itself :
    (c : Client) (o : Option ℕ) (object : ℕ) (r : AudioReader)
    → c.reader ≡ o
    → Now c o
    → get object c.readers ≡ some r
    → r.active ≡ true
    → IsSingle c
    → IsSingle (stop object c)
stops_itself c _ object r e (idle nobody all) found active h =
    absurd (ground (arith, all object, found, active))
stops_itself c _ object r e (halted k x nobody at_k attached all) found active h =
    absurd (ground (arith, all object, found, active))
stops_itself c _ object r e (listening k x alone at_k active_k attached only) found active h =
    let same : object ≡ k = only object (ground (arith, found, active)) in
    let same_reader : r ≡ x = ground (arith, same, found, at_k) in
    rw (stop-ended c object r (rw same alone) found active) (
      ended-IsSingle c c.reader object r found active
        (rw (e, same, same_reader)
          (halted k (idled x) refl (ground (arith, get-put k k (idled x) c.readers)) attached
            (λ j. none_active c (some k) k j x only)))
        h)

stop-IsSingle : (object : ℕ) (c : Client) → IsSingle c → IsSingle (stop object c)
unfolding stop
stop-IsSingle object c h = elim (Option-cases (get object c.readers)) [
  | inl unknown ↦ rw (unknown, stop) h
  | inr (r, found) ↦ elim (Bool-cases r.active) [
    | inl active ↦ stops_itself c c.reader object r refl h.now found active h
    | inr inactive ↦ rw (found, inactive, stop) h
  ]
]

pub stop_listening-IsSingle : (c : Client) → IsSingle c → IsSingle (stop_listening c)
stop_listening-IsSingle c h = stop_now c c.reader refl h.now h

run_stopper-stopped :
    (object : ℕ) (r : AudioReader) (c : Client)
    → contains object c.stoppers ≡ true
    → get object c.readers ≡ some r
    → run_stopper object c
      ≡ record c { stoppers = remove object c.stoppers; readers = put object (stopped r) c.readers }
unfolding run_stopper
run_stopper-stopped object r c there found = ground (arith, there, found)

stopped-IsSingle :
    (object : ℕ) (r : AudioReader) (c : Client)
    → contains object c.stoppers ≡ true
    → get object c.readers ≡ some r
    → IsSingle c
    → IsSingle (record c {
      stoppers = remove object c.stoppers;
      readers = put object (stopped r) c.readers;
    })
stopped-IsSingle object r c there found h = record {
  fresh = λ j e. ground (arith, get-put object j (stopped r) c.readers, h.fresh j, found);
  quiet = λ j e. ground (
    arith,
    get-put object j (stopped r) c.readers,
    h.quiet j,
    count-remove j object c.stoppers there,
  );
  tallied =
      IsTallied-put c.stoppers (remove object c.stoppers) object (stopped r) c.readers
        (IsTallied-stopped c.stoppers object r there (h.tallied object r found))
        (λ j other. ground (arith, count-remove j object c.stoppers there))
        (λ j x other e. h.tallied j x e);
  now = Now-put c object r (stopped r) (remove object c.stoppers) found refl refl c.reader h.now;
}

pub run_stopper-IsSingle : (object : ℕ) (c : Client) → IsSingle c → IsSingle (run_stopper object c)
unfolding run_stopper
run_stopper-IsSingle object c h = elim (Bool-cases (contains object c.stoppers)) [
  | inl there ↦ (elim (Option-cases (get object c.readers)) [
    | inl unknown ↦ rw (there, unknown, run_stopper) h
    | inr (r, found) ↦ rw (there, found, run_stopper) (stopped-IsSingle object r c there found h)
  ])
  | inr absent ↦ rw (absent, run_stopper) h
]

abbrev failed : Option Error → AudioReader → AudioReader
failed error r = record r { error = elim error [ none ↦ r.error | some e ↦ some e ] }

failed-IsSingle :
    (object : ℕ) (error : Option Error) (r : AudioReader) (c : Client)
    → get object c.readers ≡ some r
    → IsSingle c
    → IsSingle (record c { readers = put object (failed error r) c.readers })
failed-IsSingle object error r c found h =
    let t = h.tallied object r found in
    record {
      fresh = λ j e. ground (arith, get-put object j (failed error r) c.readers, h.fresh j, found);
      quiet = λ j e. ground (arith, get-put object j (failed error r) c.readers, h.quiet j);
      tallied =
          IsTallied-put c.stoppers c.stoppers object (failed error r) c.readers
            (record {
              once = t.once;
              cleaned = t.cleaned;
              router_end = t.router_end;
              events_end = t.events_end;
              timer_end = t.timer_end;
              keepalive_end = t.keepalive_end;
              decryptor_closed = t.decryptor_closed;
            })
            (λ j other. refl) (λ j x other e. h.tallied j x e);
      now = Now-put c object r (failed error r) c.stoppers found refl refl c.reader h.now;
    }

pub end_router-IsSingle :
    (object : ℕ) (error : Option Error) (c : Client)
    → IsSingle c
    → IsSingle (end_router object error c)
unfolding end_router
end_router-IsSingle object error c h = elim (Option-cases (get object c.readers)) [
  | inl unknown ↦ rw (unknown, end_router) h
  | inr (r, found) ↦ (elim (Bool-cases (is_some error || r.router_end)) [
    | inl ends ↦
        rw (found, ends, end_router)
          (stop_listening-IsSingle _ (failed-IsSingle object error r c found h))
    | inr goes_on ↦ rw (found, goes_on, end_router) h
  ])
]

pub give_up-IsSingle :
    (object : ℕ) (error : Option Error) (c : Client)
    → IsSingle c
    → IsSingle (give_up object error c)
unfolding give_up
give_up-IsSingle object error c h = elim (Option-cases (get object c.readers)) [
  | inl unknown ↦ rw (unknown, give_up) h
  | inr (r, found) ↦
      rw (found, give_up) (stop-IsSingle object _ (failed-IsSingle object error r c found h))
]
