-- ===== src/SinkEvents/Listeners.antt =====
-- The router calls the listeners of its sink, and no others, whatever sinks it had before.
use mathlib.Core.List.{append_assoc}
use discord_ext_voice_recv.Base.{
  ℕ, ◌≡◌, refl, sym, ap, ◌∙◌, inl, inr, none, some, List, [], ◌∷◌, ◌++◌, arith, ◌==◌, if◌then◌else◌,
  Bool-cases, Option-cases,
}
use discord_ext_voice_recv.Base.Dict.{Dict, get, get_or, get-put}
use discord_ext_voice_recv.SinkEvents.{
  Sink, Listener, walk, add_listener, register_all, remove_first, remove_listener, unregister_all,
  SinkEventRouter, new_router, set_sink, called,
}

-- The methods that listen to an event, out of a list of listeners.
abbrev pub named : ℕ → List Listener → List (ℕ × ℕ)
named name [] = []
named name ((n, f) ∷ l) = if n == name then f ∷ named name l else named name l

append_nothing : (l : List (ℕ × ℕ)) → l ≡ l ++ []
append_nothing [] = refl
append_nothing (x ∷ l) = ap (◌∷◌ x) (append_nothing l)

module _ (name : ℕ) where
  get-add_listener :
      (n : ℕ) (f : ℕ × ℕ) (m : Dict (List (ℕ × ℕ)))
      → get_or name [] (add_listener (n, f) m)
        ≡ (if n == name then get_or name [] m ++ f ∷ [] else get_or name [] m)
  unfolding add_listener
  get-add_listener n f m =
      let e = get-put n name (get_or n [] m ++ f ∷ []) m in
      elim (Bool-cases (n == name)) [
        | inl same ↦
            let at : n ≡ name = ground (arith, same) in
            let here : get_or n [] m ≡ get_or name [] m = ap (λ (k : ℕ). get_or k [] m) at in
            ground (arith, e, same, here)
        | inr other ↦ ground (arith, e, other)
      ]

  get-remove_listener :
      (n : ℕ) (f : ℕ × ℕ) (m : Dict (List (ℕ × ℕ)))
      → get_or name [] (remove_listener (n, f) m)
        ≡ (if n == name then remove_first f (get_or name [] m) else get_or name [] m)
  unfolding remove_listener remove_first
  get-remove_listener n f m = elim (Option-cases (get n m)) [
    | inl absent ↦ (elim (Bool-cases (n == name)) [
      | inl same ↦
          let at : n ≡ name = ground (arith, same) in
          let here : get name m ≡ none = sym (ap (λ (k : ℕ). get k m) at) ∙ absent in
          ground (arith, absent, same, here)
      | inr other ↦ ground (arith, absent, other)
    ])
    | inr (l, found) ↦
        let e = get-put n name (remove_first f l) m in
        (elim (Bool-cases (n == name)) [
          | inl same ↦
              let at : n ≡ name = ground (arith, same) in
              let here : get name m ≡ some l = sym (ap (λ (k : ℕ). get k m) at) ∙ found in
              ground (arith, found, e, same, here)
          | inr other ↦ ground (arith, found, e, other)
        ])
  ]

  remove_first-head : (f : ℕ × ℕ) (l : List (ℕ × ℕ)) → remove_first f (f ∷ l) ≡ l
  unfolding remove_first
  remove_first-head f l = ground arith

  register_all-named :
      (l : List Listener) (m : Dict (List (ℕ × ℕ)))
      → get_or name [] (register_all l m) ≡ get_or name [] m ++ named name l
  unfolding register_all
  register_all-named [] m = append_nothing (get_or name [] m)
  register_all-named ((n, f) ∷ l) m =
      let rest = register_all-named l (add_listener (n, f) m) in
      let here = get-add_listener n f m in
      elim (Bool-cases (n == name)) [
        | inl same ↦
            let here' : get_or name [] (add_listener (n, f) m) ≡ get_or name [] m ++ f ∷ [] =
              rw same at here in
            rw same (
              rest
              ∙ ap (λ r. r ++ named name l) here'
              ∙ append_assoc (get_or name [] m) (f ∷ []) (named name l))
        | inr other ↦
            let here' : get_or name [] (add_listener (n, f) m) ≡ get_or name [] m =
              rw other at here in
            rw other (rest ∙ ap (λ r. r ++ named name l) here')
      ]

  unregister_all-named :
      (l : List Listener) (m : Dict (List (ℕ × ℕ))) (r : List (ℕ × ℕ))
      → get_or name [] m ≡ named name l ++ r
      → get_or name [] (unregister_all l m) ≡ r
  unfolding unregister_all
  unregister_all-named [] m r h = h
  unregister_all-named ((n, f) ∷ l) m r h =
      let here = get-remove_listener n f m in
      elim (Bool-cases (n == name)) [
        | inl same ↦
            let full : get_or name [] m ≡ f ∷ (named name l ++ r) = rw same at h in
            let here' : get_or name [] (remove_listener (n, f) m)
                ≡ remove_first f (get_or name [] m) =
              rw same at here in
            unregister_all-named l (remove_listener (n, f) m) r
              (here' ∙ ap (remove_first f) full ∙ remove_first-head f (named name l ++ r))
        | inr other ↦
            let full : get_or name [] m ≡ named name l ++ r = rw other at h in
            let here' : get_or name [] (remove_listener (n, f) m) ≡ get_or name [] m =
              rw other at here in
            unregister_all-named l (remove_listener (n, f) m) r (here' ∙ full)
      ]

-- A router after its sink was set, time and again.
abbrev pub set_all : List Sink → SinkEventRouter → SinkEventRouter
set_all [] r = r
set_all (s ∷ l) r = set_all l (set_sink r s)

-- It calls the listeners of its sink, in order.
abbrev pub IsOwn : SinkEventRouter → Type 0
IsOwn r = (name : ℕ) → called r name ≡ named name (walk r.current)

pub new_router-IsOwn : (s : Sink) → IsOwn (new_router s)
unfolding new_router called get
new_router-IsOwn s name = register_all-named name (walk s) []

pub set_sink-IsOwn : (r : SinkEventRouter) (s : Sink) → IsOwn r → IsOwn (set_sink r s)
unfolding set_sink called
set_sink-IsOwn r s h name =
    let emptied =
      unregister_all-named name (walk r.current) r.event_listeners []
        (h name ∙ append_nothing (named name (walk r.current))) in
    register_all-named name (walk s) (unregister_all (walk r.current) r.event_listeners)
    ∙ ap (λ l. l ++ named name (walk s)) emptied

set_all-IsOwn : (l : List Sink) (r : SinkEventRouter) → IsOwn r → IsOwn (set_all l r)
set_all-IsOwn [] r h = h
set_all-IsOwn (s ∷ l) r h = set_all-IsOwn l (set_sink r s) (set_sink-IsOwn r s h)

-- However often the sink of an event router is set, an event calls the methods that listen to it of
-- the sink that was set last and of all below it, in the order of the walk, and nothing else.
pub set_all-new_router-IsOwn : (s : Sink) (l : List Sink) → IsOwn (set_all l (new_router s))
set_all-new_router-IsOwn s l = set_all-IsOwn l (new_router s) (new_router-IsOwn s)
