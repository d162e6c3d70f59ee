-- ===== src/Listening/Late.antt =====
-- `PacketRouter.run`: what its end does to a reader that came later.
use discord_ext_voice_recv.Base.{
  ℕ, ◌≡◌, ◌≢◌, true, false, Option, none, some, [], ◌∷◌, if◌then◌else◌, ◌++◌, arith,
}
use discord_ext_voice_recv.Base.Dict.{get, remove, get-put}
use discord_ext_voice_recv.Listening.{
  AudioReader, Client, is_listening, stop, stop_listening, end_router,
}
use discord_ext_voice_recv.Listening.Tally.{IsSingle, Now, idle, listening, halted}

stops_now :
    (c : Client) (object other : ℕ) (r : AudioReader) (o : Option ℕ)
    → Now c o
    → get object c.readers ≡ some r
    → r.router_end ≡ true
    → c.reader ≡ some other
    → o ≡ some other
    → object ≢ other
    → let c' = end_router object none c in
      (is_listening c' ≡ false)
      × (c'.socket_listeners ≡ [])
      × (c'.stoppers ≡ (if is_listening c then c.stoppers ++ other ∷ [] else c.stoppers))
unfolding end_router stop_listening stop is_listening remove
stops_now c object other r _ (idle nobody all) found told has_other e not_other = absurd (cc)
stops_now c object other r _ (listening k x alone at_k active attached only) found told has_other e
      not_other =
    let same : k ≡ other = ground (arith, e) in
    ground (
      arith,
      same,
      found,
      told,
      has_other,
      not_other,
      alone,
      at_k,
      active,
      get-put object other r c.readers,
    )
stops_now c object other r _ (halted k x nobody at_k attached all) found told has_other e
      not_other =
    let same : k ≡ other = ground (arith, e) in
    let inactive : x.active ≡ false = ground (arith, all k, at_k) in
    ground (
      arith,
      same,
      found,
      told,
      has_other,
      not_other,
      nobody,
      at_k,
      inactive,
      get-put object other r c.readers,
    )

-- When the router of a reader ends because that was stopped, and the client has another reader by
-- then, this one is stopped: the client listens no longer, nothing listens to the socket, and the
-- stopper thread of the new reader is started, unless that had stopped itself.
pub end_router-stops_other :
    (c : Client) (object other : ℕ) (r : AudioReader)
    → IsSingle c
    → get object c.readers ≡ some r
    → r.router_end ≡ true
    → c.reader ≡ some other
    → object ≢ other
    → let c' = end_router object none c in
      (is_listening c' ≡ false)
      × (c'.socket_listeners ≡ [])
      × (c'.stoppers ≡ (if is_listening c then c.stoppers ++ other ∷ [] else c.stoppers))
end_router-stops_other c object other r h found told has_other not_other =
    stops_now c object other r c.reader h.now found told has_other has_other not_other
