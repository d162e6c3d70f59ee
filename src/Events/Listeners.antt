-- ===== src/Events/Listeners.antt =====
-- `add_listener`, `remove_listener` and `dispatch` of `VoiceRecvClient`, in
-- discord/ext/voice_recv/voice_client.py: who gets an event. A coroutine is a number, and `name` gives
-- an event the name under which its listeners are kept. A coroutine is scheduled as a task, which
-- catches what it raises.
use mathlib.Core.List.{append_assoc, append-nil}
use discord_ext_voice_recv.Base.{
  ℕ, ◌≡◌, refl, sym, ap, ◌∙◌, Bool, true, false, none, some, List, [], ◌∷◌, ◌++◌, arith, map, ◌==◌,
  if◌then◌else◌, Result, ok, raise, type_error, guard, ◌>>◌, Bool-cases, Option-cases, inl, inr,
}
use discord_ext_voice_recv.Base.Dict.{Dict, get, get_or, put, get-put, remove}
use discord_ext_voice_recv.Events.{Event}

pub record Hub : Type 0 where
  pub event_listeners : Dict (List ℕ)
  pub has_reader : Bool
  -- The tasks that were made, and what the reader's event router and the client got.
  pub scheduled : List (ℕ × Event)
  pub to_sink : List Event
  pub to_client : List Event

abbrev pub new_hub : Hub
new_hub = record {
  event_listeners = [];
  has_reader = false;
  scheduled = [];
  to_sink = [];
  to_client = [];
}

-- Either branch of `add_listener` puts the coroutine behind those that there are.
unfoldable pub add_listener : Bool → ℕ → ℕ → Hub → Result Hub
add_listener is_coroutine coro name h =
    guard is_coroutine type_error
    >> ok (record h {
      event_listeners = put name (get_or name [] h.event_listeners ++ coro ∷ []) h.event_listeners;
    })

unfoldable pub remove_listener : ℕ → ℕ → Hub → Hub
remove_listener coro name h = elim (get name h.event_listeners) [
  | none ↦ h
  | some l ↦ record h { event_listeners = put name (remove coro l) h.event_listeners }
]

pub data Step : Type 0 where
  adds : Bool → ℕ → ℕ → Step
  removes : ℕ → ℕ → Step
  dispatches : Event → Step
  sets_reader : Bool → Step
  clears : Step

abbrev pub or_same : Hub → Result Hub → Hub
or_same h (raise e) = h
or_same _ (ok h) = h

-- The coroutines that listen under each name.
abbrev pub Registered : Type 0
Registered = ℕ → List ℕ

abbrev pub registered : Step → Registered → Registered
registered (adds true coro n) f m = if n == m then f m ++ coro ∷ [] else f m
registered (removes coro n) f m = if n == m then remove coro (f m) else f m
registered clears f m = []
registered _ f m = f m

put-listeners :
    (n m : ℕ) (l : List ℕ) (d : Dict (List ℕ))
    → get_or m [] (put n l d) ≡ (if n == m then l else get_or m [] d)
put-listeners n m l d = ground (arith, get-put n m l d)

remove_listener-listeners :
    (coro n m : ℕ) (h : Hub)
    → get_or m [] (remove_listener coro n h).event_listeners ≡ (
        if n == m
        then remove coro (get_or m [] h.event_listeners)
        else get_or m [] h.event_listeners)
unfolding remove_listener remove
remove_listener-listeners coro n m h =
    let d = h.event_listeners in
    elim (Option-cases (get n d)) [
      | inl absent ↦ (elim (Bool-cases (n == m)) [
        | inl same ↦
            let at : n ≡ m = ground (arith, same) in
            let here : get m d ≡ none = sym (ap (λ (k : ℕ). get k d) at) ∙ absent in
            ground (arith, absent, same, here)
        | inr other ↦ ground (arith, absent, other)
      ])
      | inr (l, found) ↦ (elim (Bool-cases (n == m)) [
        | inl same ↦
            let at : n ≡ m = ground (arith, same) in
            let here : get m d ≡ some l = sym (ap (λ (k : ℕ). get k d) at) ∙ found in
            ground (arith, found, get-put n m (remove coro l) d, same, here)
        | inr other ↦ ground (arith, found, get-put n m (remove coro l) d, other)
      ])
    ]

remove_listener-scheduled :
    (coro n : ℕ) (h : Hub) → (remove_listener coro n h).scheduled ≡ h.scheduled ++ []
unfolding remove_listener
remove_listener-scheduled coro n h = elim (Option-cases (get n h.event_listeners)) [
  | inl absent ↦ ground (arith, absent, append-nil h.scheduled)
  | inr (l, found) ↦ ground (arith, found, append-nil h.scheduled)
]

abbrev IsRegistered : Registered → Hub → Type 0
IsRegistered f h = (m : ℕ) → get_or m [] h.event_listeners ≡ f m

module _ (name : Event → ℕ) where
  -- `dispatch`, with `dispatch_sink`.
  unfoldable pub dispatch : Event → Hub → Hub
  dispatch e h = record h {
    scheduled = h.scheduled ++ map (λ c. (c, e)) (get_or (name e) [] h.event_listeners);
    to_sink = if h.has_reader then h.to_sink ++ e ∷ [] else h.to_sink;
    to_client = h.to_client ++ e ∷ [];
  }

  -- A call that raises changes nothing. `clears` is what `cleanup` does.
  unfoldable pub step : Step → Hub → Hub
  unfolding add_listener remove_listener dispatch
  step (adds is_coroutine coro n) h = or_same h (add_listener is_coroutine coro n h)
  step (removes coro n) h = remove_listener coro n h
  step (dispatches e) h = dispatch e h
  step (sets_reader b) h = record h { has_reader = b }
  step clears h = record h { event_listeners = [] }

  unfoldable pub run : List Step → Hub → Hub
  unfolding step
  run [] h = h
  run (s ∷ l) h = run l (step s h)

  -- The tasks that are due.
  abbrev pub due_at : Step → Registered → List (ℕ × Event)
  due_at (dispatches e) f = map (λ c. (c, e)) (f (name e))
  due_at _ f = []

  abbrev pub due : List Step → Registered → List (ℕ × Event)
  due [] f = []
  due (s ∷ l) f = due_at s f ++ due l (registered s f)

  step-IsRegistered :
      (s : Step) (f : Registered) (h : Hub)
      → IsRegistered f h
      → IsRegistered (registered s f) (step s h)
  unfolding step get
  step-IsRegistered (adds true coro n) f h r m =
      let old = get_or n [] h.event_listeners in
      elim (Bool-cases (n == m)) [
        | inl same ↦
            let at : n ≡ m = ground (arith, same) in
            rw same (
              put-listeners n m (old ++ coro ∷ []) h.event_listeners
              ∙ rw same (ap (λ l. l ++ coro ∷ []) (r n ∙ ap f at)))
        | inr other ↦
            rw other (put-listeners n m (old ++ coro ∷ []) h.event_listeners ∙ rw other (r m))
      ]
  step-IsRegistered (adds false coro n) f h r m = r m
  step-IsRegistered (removes coro n) f h r m = elim (Bool-cases (n == m)) [
    | inl same ↦
        rw same (rw same at (remove_listener-listeners coro n m h) ∙ ap (remove coro) (r m))
    | inr other ↦ rw other (rw other at (remove_listener-listeners coro n m h) ∙ r m)
  ]
  step-IsRegistered (dispatches e) f h r m = r m
  step-IsRegistered (sets_reader b) f h r m = r m
  step-IsRegistered clears f h r m = refl

  step-scheduled :
      (s : Step) (f : Registered) (h : Hub)
      → IsRegistered f h
      → (step s h).scheduled ≡ h.scheduled ++ due_at s f
  unfolding step
  step-scheduled (adds true coro n) f h r = sym (append-nil h.scheduled)
  step-scheduled (adds false coro n) f h r = sym (append-nil h.scheduled)
  step-scheduled (removes coro n) f h r = remove_listener-scheduled coro n h
  step-scheduled (dispatches e) f h r = ap (λ l. h.scheduled ++ map (λ c. (c, e)) l) (r (name e))
  step-scheduled (sets_reader b) f h r = sym (append-nil h.scheduled)
  step-scheduled clears f h r = sym (append-nil h.scheduled)

  run-scheduled :
      (l : List Step) (f : Registered) (h : Hub)
      → IsRegistered f h
      → (run l h).scheduled ≡ h.scheduled ++ due l f
  unfolding run
  run-scheduled [] f h r = sym (append-nil h.scheduled)
  run-scheduled (s ∷ l) f h r =
      run-scheduled l (registered s f) (step s h) (step-IsRegistered s f h r)
      ∙ ap (λ t. t ++ due l (registered s f)) (step-scheduled s f h r)
      ∙ append_assoc h.scheduled (due_at s f) (due l (registered s f))

  -- Whatever listeners come and go: for each event a task is made of every coroutine that was added
  -- under its name and not removed, or cleared, since, in the order of the additions; a removal takes
  -- the earliest addition of a coroutine away. What is no coroutine is refused and never called.
  pub run-new_hub-scheduled : (l : List Step) → (run l new_hub).scheduled ≡ due l (λ m. [])
  unfolding get
  run-new_hub-scheduled l = run-scheduled l (λ m. []) new_hub (λ m. refl)
