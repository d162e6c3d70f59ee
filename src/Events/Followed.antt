-- ===== src/Events/Followed.antt =====
-- A listener that goes by the events knows the state of DAVE.
use discord_ext_voice_recv.Base.{
  ℕ, ◌≡◌, refl, sym, ap, ◌∙◌, Bool, true, false, Option, none, some, List, [], ◌∷◌, ◌++◌, arith,
  ltb, ◌==◌, ◌&&◌, ◌||◌, not, map, Bool-cases, inl, inr,
}
use discord_ext_voice_recv.Dave.Bridge.{Connection, DaveState, refresh, same}
use discord_ext_voice_recv.Events.{
  Event, dave_protocol_version, dave_epoch_changed, dave_ready, VoiceClient, Message, when, eq_bool,
  changes, dave_state_changed, handle, hook, on_dave_transition_prepared,
  on_dave_transition_executed, on_dave_epoch_prepared, on_voice_state_update, stop, cleanup,
  binary_hook,
}
use discord_ext_voice_recv.Dave.Bridge
use discord_ext_voice_recv.Events

-- What a listener goes by: the protocol version, the epoch and whether the session is ready.
abbrev pub View : Type 0
View = ℕ × (Option ℕ × Bool)

abbrev pub view_of : DaveState → View
view_of s = (s.protocol_version, (s.epoch, s.ready))

abbrev pub follow : View → Event → View
follow v (dave_protocol_version n) = (n, v.1)
follow v (dave_epoch_changed e) = (v.0, (e, v.1.1))
follow v (dave_ready b) = (v.0, (v.1.0, b))
follow v _ = v

abbrev pub follow_all : View → List Event → View
follow_all v [] = v
follow_all v (e ∷ l) = follow_all (follow v e) l

follow_all-append :
    (v : View) (l r : List Event) → follow_all v (l ++ r) ≡ follow_all (follow_all v l) r
follow_all-append v [] r = refl
follow_all-append v (e ∷ l) r = follow_all-append (follow v e) l r

same-eq : (a b : Option ℕ) → same a b ≡ true → a ≡ b
unfolding same
same-eq none none h = refl
same-eq (some a) (some b) h = ap some (ground (arith, h))
same-eq none (some b) h = absurd (ground (arith, h))
same-eq (some a) none h = absurd (ground (arith, h))

eq_bool-eq : (a b : Bool) → eq_bool a b ≡ true → a ≡ b
eq_bool-eq true b h = sym h
eq_bool-eq false true h = h
eq_bool-eq false false h = refl

follow-version :
    (v : View) (b : Bool) (n : ℕ)
    → (b ≡ false → v.0 ≡ n)
    → follow_all v (when b (dave_protocol_version n)) ≡ (n, v.1)
follow-version v true n h = refl
follow-version v false n h = ap (λ (m : ℕ). (m, v.1)) (h refl)

follow-epoch :
    (v : View) (b : Bool) (e : Option ℕ)
    → (b ≡ false → v.1.0 ≡ e)
    → follow_all v (when b (dave_epoch_changed e)) ≡ (v.0, (e, v.1.1))
follow-epoch v true e h = refl
follow-epoch v false e h = ap (λ (m : Option ℕ). (v.0, (m, v.1.1))) (h refl)

follow-ready :
    (v : View) (b r : Bool)
    → (b ≡ false → v.1.1 ≡ r)
    → follow_all v (when b (dave_ready r)) ≡ (v.0, (v.1.0, r))
follow-ready v true r h = refl
follow-ready v false r h = ap (λ (m : Bool). (v.0, (v.1.0, m))) (h refl)

follow-downgraded : (v : View) (b : Bool) → follow_all v (when b Events.dave_downgraded) ≡ v
follow-downgraded v true = refl
follow-downgraded v false = refl

differ-same : (a b : Option ℕ) (r : Bool) → (not (same a b) || r) ≡ false → b ≡ a
differ-same a b r h = sym (same-eq a b (ground (arith, h)))

differ-eq_bool : (a b r : Bool) → (not (eq_bool a b) || r) ≡ false → b ≡ a
differ-eq_bool a b r h = sym (eq_bool-eq a b (ground (arith, h)))

follow_all-changes : (s t : DaveState) → follow_all (view_of s) (changes s t) ≡ view_of t
unfolding changes
follow_all-changes s t =
    let renewed = not (t.generation == s.generation) in
    let b1 = not (t.protocol_version == s.protocol_version) in
    let b2 = not (same t.epoch s.epoch) || renewed in
    let b3 = not (eq_bool t.ready s.ready) || (t.ready && renewed) in
    let b4 = ltb 0 s.protocol_version && (t.protocol_version == 0 && t.downgrade_allowed) in
    let l3 = when b3 (dave_ready t.ready) ++ when b4 Events.dave_downgraded in
    let v1 : View = (t.protocol_version, (s.epoch, s.ready)) in
    let v2 : View = (t.protocol_version, (t.epoch, s.ready)) in
    let e1 : follow_all (view_of s) (when b1 (dave_protocol_version t.protocol_version)) ≡ v1 =
      follow-version (view_of s) b1 t.protocol_version (λ h. ground (arith, h)) in
    let e2 : follow_all v1 (when b2 (dave_epoch_changed t.epoch)) ≡ v2 =
      follow-epoch v1 b2 t.epoch (differ-same t.epoch s.epoch renewed) in
    let e3 : follow_all v2 (when b3 (dave_ready t.ready)) ≡ view_of t =
      follow-ready v2 b3 t.ready (differ-eq_bool t.ready s.ready (t.ready && renewed)) in
    follow_all-append (view_of s) (when b1 (dave_protocol_version t.protocol_version)) _
    ∙ ap (λ v. follow_all v (when b2 (dave_epoch_changed t.epoch) ++ l3)) e1
    ∙ follow_all-append v1 (when b2 (dave_epoch_changed t.epoch)) l3
    ∙ ap (λ v. follow_all v l3) e2
    ∙ follow_all-append v2 (when b3 (dave_ready t.ready)) (when b4 Events.dave_downgraded)
    ∙ ap (λ v. follow_all v (when b4 Events.dave_downgraded)) e3
    ∙ follow-downgraded (view_of t) b4

-- One who has followed the events of the client from the view on knows its state.
abbrev pub IsFollowed : View → VoiceClient → Type 0
IsFollowed v c = follow_all v c.dispatched ≡ view_of c.dave_event_state

dave_state_changed-IsFollowed :
    (v : View) (now : ℕ) (connection : Connection) (c : VoiceClient)
    → IsFollowed v c
    → IsFollowed v (dave_state_changed now connection c)
unfolding dave_state_changed
dave_state_changed-IsFollowed v now connection c h =
    let t = (refresh now connection c.bridge).state in
    follow_all-append v c.dispatched (changes c.dave_event_state t)
    ∙ ap (λ w. follow_all w (changes c.dave_event_state t)) h
    ∙ follow_all-changes c.dave_event_state t

follow-connects : (v : View) (l : List ℕ) → follow_all v (map Events.member_connect l) ≡ v
follow-connects v [] = refl
follow-connects v (uid ∷ l) = follow-connects v l

handle-IsFollowed :
    (v : View) (message : Message) (c : VoiceClient)
    → IsFollowed v c
    → IsFollowed v (handle message c)
unfolding handle
handle-IsFollowed v (Events.ready me ssrc) c h = h
handle-IsFollowed v (Events.session_description key) c h = elim (Bool-cases c.tables.has_reader) [
  | inl listens ↦ ground (arith, listens, h)
  | inr deaf ↦ ground (arith, deaf, h)
]
handle-IsFollowed v (Events.speaking uid ssrc) c h = follow_all-append v c.dispatched _ ∙ h
handle-IsFollowed v (Events.clients_connect uids) c h =
    follow_all-append v c.dispatched (map Events.member_connect uids)
    ∙ follow-connects (follow_all v c.dispatched) uids
    ∙ h
handle-IsFollowed v (Events.client_connect uid streams) c h = follow_all-append v c.dispatched _ ∙ h
handle-IsFollowed v (Events.client_disconnect uid) c h = follow_all-append v c.dispatched _ ∙ h
handle-IsFollowed v (Events.flags uid) c h = follow_all-append v c.dispatched _ ∙ h
handle-IsFollowed v (Events.platform uid) c h = follow_all-append v c.dispatched _ ∙ h
handle-IsFollowed v (Events.dave_and_mls op) c h = follow_all-append v c.dispatched _ ∙ h
handle-IsFollowed v Events.other c h = h

-- What drives the client: the messages of the gateway, the callbacks of the connection, and the calls
-- that end it.
pub data Step : Type 0 where
  message : Message → Step
  transition_prepared transition_executed epoch_prepared : ℕ → ℕ → Step
  voice_state_update : Option ℕ → Option ℕ → Step
  binary : ℕ → Step
  stops : Step
  cleans_up : ℕ → Connection → Step

abbrev pub step : ℕ → Connection → Step → VoiceClient → VoiceClient
step now connection (message m) c = hook now connection m c
step now connection (transition_prepared id version) c =
    on_dave_transition_prepared now connection id version c
step now connection (transition_executed id version) c =
    on_dave_transition_executed now connection id version c
step now connection (epoch_prepared epoch version) c =
    on_dave_epoch_prepared now connection epoch version c
step now connection (voice_state_update old channel) c =
    on_voice_state_update now connection old channel c
step now connection (binary op) c = binary_hook op c
step now connection stops c = stop now connection c
step now connection (cleans_up later final) c = cleanup now connection later final c

on_voice_state_update-events :
    (now : ℕ) (connection : Connection) (old channel : Option ℕ) (c : VoiceClient)
    → ((on_voice_state_update now connection old channel c).dispatched
        ≡ (dave_state_changed now connection c).dispatched)
      × ((on_voice_state_update now connection old channel c).dave_event_state
          ≡ (dave_state_changed now connection c).dave_event_state)
unfolding on_voice_state_update
on_voice_state_update-events now connection old none c = (refl, refl)
on_voice_state_update-events now connection old (some channel) c = ground arith

step-IsFollowed :
    (v : View) (now : ℕ) (connection : Connection) (s : Step) (c : VoiceClient)
    → IsFollowed v c
    → IsFollowed v (step now connection s c)
unfolding hook on_dave_transition_prepared on_dave_transition_executed on_dave_epoch_prepared
    binary_hook stop cleanup
step-IsFollowed v now connection (message m) c h =
    handle-IsFollowed v m (dave_state_changed now connection c)
      (dave_state_changed-IsFollowed v now connection c h)
step-IsFollowed v now connection (transition_prepared id version) c h =
    let c' = dave_state_changed now connection c in
    follow_all-append v c'.dispatched _ ∙ dave_state_changed-IsFollowed v now connection c h
step-IsFollowed v now connection (transition_executed id version) c h =
    let c' = dave_state_changed now connection c in
    follow_all-append v c'.dispatched _ ∙ dave_state_changed-IsFollowed v now connection c h
step-IsFollowed v now connection (epoch_prepared epoch version) c h =
    let b : VoiceClient = record c {
      bridge = Bridge.epoch_prepared now connection c.bridge epoch;
    } in
    let c' = dave_state_changed now connection b in
    follow_all-append v c'.dispatched _ ∙ dave_state_changed-IsFollowed v now connection b h
step-IsFollowed v now connection (voice_state_update old channel) c h =
    let e = on_voice_state_update-events now connection old channel c in
    ap (follow_all v) e.0
    ∙ dave_state_changed-IsFollowed v now connection c h
    ∙ ap view_of (sym e.1)
step-IsFollowed v now connection (binary op) c h = follow_all-append v c.dispatched _ ∙ h
step-IsFollowed v now connection stops c h = dave_state_changed-IsFollowed v now connection c h
step-IsFollowed v now connection (cleans_up later final) c h =
    dave_state_changed-IsFollowed v later final (dave_state_changed now connection c)
      (dave_state_changed-IsFollowed v now connection c h)

-- The steps of a client, each with the time and the connection that it finds.
abbrev pub run : List (ℕ × (Connection × Step)) → VoiceClient → VoiceClient
run [] c = c
run ((now, (connection, s)) ∷ l) c = run l (step now connection s c)

-- Whatever messages, callbacks and calls come, one who goes by the dispatched events alone knows the
-- protocol version, the epoch and the readiness of the DAVE session that the client observed last, if
-- it was so before them.
pub run-IsFollowed :
    (v : View) (l : List (ℕ × (Connection × Step))) (c : VoiceClient)
    → IsFollowed v c
    → IsFollowed v (run l c)
run-IsFollowed v [] c h = h
run-IsFollowed v ((now, (connection, s)) ∷ l) c h =
    run-IsFollowed v l (step now connection s c) (step-IsFollowed v now connection s c h)
