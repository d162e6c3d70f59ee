-- ===== src/Listening/Single.antt =====
-- `VoiceRecvClient.listen` and `stop_listening`: one reader at a time, and what becomes of the others.
use discord_ext_voice_recv.Base.{
  ℕ, ◌+◌, ◌≡◌, sym, ◌∙◌, subst, refl, Bool, true, false, not, ◌&&◌, Option, some, List, [], ◌∷◌,
  ◌++◌, arith, ◌==◌, if◌then◌else◌, Bool-cases, inl, inr,
}
use discord_ext_voice_recv.Base.Dict.{get, put, get-put}
use discord_ext_voice_recv.Listening.{
  AudioReader, new_reader, Client, new_client, start, listen, is_listening, is_active, set_sink,
  Step, connects, listens, stops, runs_stopper, gives_up, ends_router, sets_sink, or_same, step,
  run,
}
use discord_ext_voice_recv.Listening.Tally.{
  IsTallied-put, IsTallied-new, count, Now, idle, listening, halted, IsSingle,
}
use discord_ext_voice_recv.Listening.Ends.{
  stop_listening-IsSingle, run_stopper-IsSingle, give_up-IsSingle, end_router-IsSingle,
}

new_client-IsSingle : IsSingle new_client
unfolding get count
new_client-IsSingle = record {
  fresh = λ j h. refl;
  quiet = λ j h. refl;
  tallied = λ j r e. absurd (cc);
  now = idle refl (λ j. refl);
}

-- A reader that starts.
abbrev begun : ℕ → Client → Client
begun sink c = record c {
  reader = some c.next_reader;
  readers =
      put c.next_reader (record (new_reader sink) { active = true })
        (put c.next_reader (new_reader sink) c.readers);
  next_reader = c.next_reader + 1;
  socket_listeners = c.socket_listeners ++ c.next_reader ∷ [];
  voice_client = put sink true c.voice_client;
}

listen-begun :
    (is_sink callable : Bool) (sink : ℕ) (c : Client)
    → or_same c (listen is_sink callable sink c)
      ≡ (if (c.connected && is_sink) && (not (is_listening c) && callable) then begun sink c else c)
unfolding listen start
listen-begun is_sink callable sink c =
    ground (arith, get-put c.next_reader c.next_reader (new_reader sink) c.readers)

-- Nothing listens, and no reader is active, for a client that does not listen.
Now-free :
    (c : Client) (o : Option ℕ)
    → c.reader ≡ o
    → Now c o
    → is_listening c ≡ false
    → (c.socket_listeners ≡ []) × ((j : ℕ) → is_active c j ≡ false)
unfolding is_listening
Now-free c _ e (idle nobody all) free = (nobody, all)
Now-free c _ e (listening object r alone found active attached only) free =
    absurd (ground (arith, e, found, active))
Now-free c _ e (halted object r nobody found attached all) free = (nobody, all)

get-begun :
    (sink j : ℕ) (c : Client)
    → get j (begun sink c).readers ≡ (
        if c.next_reader == j
        then some (record (new_reader sink) { active = true })
        else get j c.readers)
get-begun sink j c = ground (
  arith,
  get-put c.next_reader j (record (new_reader sink) { active = true })
      (put c.next_reader (new_reader sink) c.readers),
  get-put c.next_reader j (new_reader sink) c.readers,
)

begun-IsSingle :
    (sink : ℕ) (c : Client) → is_listening c ≡ false → IsSingle c → IsSingle (begun sink c)
begun-IsSingle sink c free h =
    let (nobody, all) = Now-free c c.reader refl h.now free in
    let new : AudioReader = record (new_reader sink) { active = true } in
    let unknown = h.fresh c.next_reader (omega arith) in
    record {
      fresh = λ j e. ground (arith, get-begun sink j c, h.fresh j);
      quiet = λ j e. ground (arith, get-begun sink j c, h.quiet j);
      tallied =
          IsTallied-put c.stoppers c.stoppers c.next_reader new
            (put c.next_reader (new_reader sink) c.readers)
            (IsTallied-new sink c.next_reader c.stoppers (h.quiet c.next_reader unknown))
            (λ j other. refl)
            (λ j r other e.
              h.tallied j r
                (ground (arith, e, get-put c.next_reader j (new_reader sink) c.readers)));
      now =
          listening c.next_reader new (ground (arith, nobody))
            (ground (arith, get-begun sink c.next_reader c)) refl
            (ground (arith, get-put sink sink true c.voice_client))
            (λ j e. ground (arith, get-begun sink j c, all j));
    }

listen-IsSingle :
    (is_sink callable : Bool) (sink : ℕ) (c : Client)
    → IsSingle c
    → IsSingle (or_same c (listen is_sink callable sink c))
listen-IsSingle is_sink callable sink c h =
    elim (Bool-cases ((c.connected && is_sink) && (not (is_listening c) && callable))) [
      | inl goes ↦
          rw (listen-begun is_sink callable sink c, goes)
            (begun-IsSingle sink c (ground (arith, goes)) h)
      | inr refused ↦ rw (listen-begun is_sink callable sink c, refused) h
    ]

-- The client whose reader gets another sink.
abbrev moved : ℕ → AudioReader → ℕ → Client → Client
moved object r sink c = record c {
  voice_client = put sink true (put r.sink false c.voice_client);
  readers = put object (record r { sink = sink }) c.readers;
}

moved-IsSingle :
    (object : ℕ) (r : AudioReader) (sink : ℕ) (c : Client)
    → get object c.readers ≡ some r
    → Now (moved object r sink c) c.reader
    → IsSingle c
    → IsSingle (moved object r sink c)
moved-IsSingle object r sink c found now_ h =
    let new : AudioReader = record r { sink = sink } in
    let t = h.tallied object r found in
    record {
      fresh = λ j e. ground (arith, get-put object j new c.readers, h.fresh j, found);
      quiet = λ j e. ground (arith, get-put object j new c.readers, h.quiet j);
      tallied =
          IsTallied-put c.stoppers c.stoppers object new c.readers
            (record {
              once = t.once;
              cleaned = t.cleaned;
              router_end = t.router_end;
              events_end = t.events_end;
              timer_end = t.timer_end;
              keepalive_end = t.keepalive_end;
              decryptor_closed = t.decryptor_closed;
            })
            (λ j other. refl) (λ j x other e. h.tallied j x e);
      now = now_;
    }

is_active-moved :
    (object j : ℕ) (r : AudioReader) (sink : ℕ) (c : Client)
    → get object c.readers ≡ some r
    → is_active (moved object r sink c) j ≡ is_active c j
is_active-moved object j r sink c found =
    ground (arith, get-put object j (record r { sink = sink }) c.readers, found)

attached_now :
    (object : ℕ) (r : AudioReader) (sink : ℕ) (c : Client)
    → get sink (moved object r sink c).voice_client ≡ some true
attached_now object r sink c =
    ground (arith, get-put sink sink true (put r.sink false c.voice_client))

found_now :
    (object : ℕ) (r : AudioReader) (sink : ℕ) (c : Client)
    → get object (moved object r sink c).readers ≡ some (record r { sink = sink })
found_now object r sink c =
    ground (arith, get-put object object (record r { sink = sink }) c.readers)

set_sink-moved :
    (object : ℕ) (r : AudioReader) (sink : ℕ) (c : Client)
    → c.reader ≡ some object
    → get object c.readers ≡ some r
    → or_same c (set_sink true sink c) ≡ moved object r sink c
unfolding set_sink
set_sink-moved object r sink c e found = ground (arith, e, found)

set_sink_now :
    (sink : ℕ) (c : Client) (o : Option ℕ)
    → c.reader ≡ o
    → Now c o
    → IsSingle c
    → IsSingle (or_same c (set_sink true sink c))
unfolding set_sink
set_sink_now sink c _ e (idle nobody all) h =
    let same : or_same c (set_sink true sink c) ≡ c = ground (arith, e) in rw same h
set_sink_now sink c _ e (listening object r alone found active attached only) h =
    let now_ : Now (moved object r sink c) (some object) =
      listening object (record r { sink = sink }) alone (found_now object r sink c) active
        (attached_now object r sink c)
        (λ j a. only j (sym (is_active-moved object j r sink c found) ∙ a)) in
    rw (set_sink-moved object r sink c e found)
      (moved-IsSingle object r sink c found (subst (Now (moved object r sink c)) (sym e) now_) h)
set_sink_now sink c _ e (halted object r nobody found attached all) h =
    let now_ : Now (moved object r sink c) (some object) =
      halted object (record r { sink = sink }) nobody (found_now object r sink c)
        (attached_now object r sink c) (λ j. is_active-moved object j r sink c found ∙ all j) in
    rw (set_sink-moved object r sink c e found)
      (moved-IsSingle object r sink c found (subst (Now (moved object r sink c)) (sym e) now_) h)

set_sink-IsSingle :
    (is_sink : Bool) (sink : ℕ) (c : Client)
    → IsSingle c
    → IsSingle (or_same c (set_sink is_sink sink c))
set_sink-IsSingle true sink c h = set_sink_now sink c c.reader refl h.now h
set_sink-IsSingle false sink c h = unfold set_sink in h

connected-IsSingle : (b : Bool) (c : Client) → IsSingle c → IsSingle (record c { connected = b })
connected-IsSingle b c h = record {
  fresh = h.fresh;
  quiet = h.quiet;
  tallied = h.tallied;
  now = connected_now c.reader h.now;
}
  where
    connected_now : (o : Option ℕ) → Now c o → Now (record c { connected = b }) o
    connected_now _ (idle nobody all) = idle nobody all
    connected_now _ (listening object r alone found active attached only) =
        listening object r alone found active attached only
    connected_now _ (halted object r nobody found attached all) =
        halted object r nobody found attached all

step-IsSingle : (s : Step) (c : Client) → IsSingle c → IsSingle (step s c)
unfolding step
step-IsSingle (connects b) c h = connected-IsSingle b c h
step-IsSingle (listens is_sink callable sink) c h = listen-IsSingle is_sink callable sink c h
step-IsSingle stops c h = stop_listening-IsSingle c h
step-IsSingle (runs_stopper object) c h = run_stopper-IsSingle object c h
step-IsSingle (gives_up object error) c h = give_up-IsSingle object error c h
step-IsSingle (ends_router object error) c h = end_router-IsSingle object error c h
step-IsSingle (sets_sink is_sink sink) c h = set_sink-IsSingle is_sink sink c h

run-IsSingle : (l : List Step) (c : Client) → IsSingle c → IsSingle (run l c)
unfolding run
run-IsSingle [] c h = h
run-IsSingle (s ∷ l) c h = run-IsSingle l (step s c) (step-IsSingle s c h)

pub run-new_client-IsSingle : (l : List Step) → IsSingle (run l new_client)
run-new_client-IsSingle l = run-IsSingle l new_client new_client-IsSingle
