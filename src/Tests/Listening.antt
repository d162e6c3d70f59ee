-- ===== src/Tests/Listening.antt =====
-- A client that listens, stops, and listens again.
use discord_ext_voice_recv.Base.{
  ◌≡◌, refl, true, false, none, some, List, [], ◌∷◌, ◌++◌, if◌then◌else◌, arith,
}
use discord_ext_voice_recv.Base.Dict.{get, put, remove, contains}
use discord_ext_voice_recv.Listening.{
  AudioReader, Client, new_client, is_listening, listen, start, stop, stop_listening, run_stopper,
  end_router, Step, listens, stops, gives_up, runs_stopper, give_up, step, run,
}
use discord_ext_voice_recv.Listening.Single.{run-new_client-IsSingle}
use discord_ext_voice_recv.Listening.Late.{end_router-stops_other}

-- The sink 5, and then 6, which the stopper thread of the first reader only finds later.
abbrev twice : List Step
twice = listens true true 5 ∷ stops ∷ listens true true 6 ∷ runs_stopper 0 ∷ []

abbrev listening_twice : Client
listening_twice = run twice new_client

abbrev first_reader : AudioReader
first_reader = record {
  sink = 5;
  active = false;
  error = none;
  retry_stop = true;
  router_end = true;
  events_end = true;
  timer_end = true;
  keepalive_end = true;
  decryptor_closed = true;
  after_calls = none ∷ [];
  cleaned = 5 ∷ [];
}

listening_again : is_listening listening_twice ≡ true
unfolding run step listen start stop stop_listening run_stopper is_listening get put remove contains
listening_again = refl

first_stopped : get 0 listening_twice.readers ≡ some first_reader
unfolding run step listen start stop stop_listening run_stopper is_listening get put remove contains
first_stopped = refl

second_reader : listening_twice.reader ≡ some 1
unfolding run step listen start stop stop_listening run_stopper is_listening get put remove contains
second_reader = refl

end_router-stops_other_example :
    let c = end_router 0 none listening_twice in
    (is_listening c ≡ false)
    × (c.socket_listeners ≡ [])
    × (c.stoppers ≡ (
        if is_listening listening_twice
        then listening_twice.stoppers ++ 1 ∷ []
        else listening_twice.stoppers))
end_router-stops_other_example =
    end_router-stops_other listening_twice 0 1 first_reader (run-new_client-IsSingle twice)
      first_stopped refl second_reader (omega arith)

-- A reader that stopped itself is not stopped again, and has one stopper thread.
abbrev given_up : Client
given_up = run (listens true true 5 ∷ gives_up 0 none ∷ stops ∷ []) new_client

stopped_once : (given_up.stoppers ≡ 0 ∷ []) × (given_up.reader ≡ none)
unfolding run step listen start stop stop_listening give_up is_listening get put remove contains
stopped_once = (refl, refl)
