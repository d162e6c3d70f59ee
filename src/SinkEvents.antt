-- ===== src/SinkEvents.antt =====
-- discord/ext/voice_recv/router.py, `SinkEventRouter`, with `walk_children` of sinks.py: who listens to
-- the events of a sink. A listener is a bound method, of which two are equal if the sink and the
-- method are; sinks, methods and names of events are numbers. The tree below a sink does not change
-- while the sink is set.
pub mod Listeners
pub mod Thread
use discord_ext_voice_recv.Base.{
  ℕ, Bool, true, false, ◌&&◌, Option, none, some, List, [], ◌∷◌, ◌++◌, ◌==◌, if◌then◌else◌, is_some,
}
use discord_ext_voice_recv.Base.Dict.{Dict, get, get_or, put}

-- A sink: its identity, its `__sink_listeners__` (the event and the method), its children.
mutual
  pub data Sink : Type 0 where
    sink : ℕ → List (ℕ × ℕ) → Sinks → Sink

  pub data Sinks : Type 0 where
    no_sinks : Sinks
    sinks : Sink → Sinks → Sinks

-- An event and the bound method that listens to it.
abbrev pub Listener : Type 0
Listener = ℕ × (ℕ × ℕ)

unfoldable pub listeners_of : ℕ → List (ℕ × ℕ) → List Listener
listeners_of object [] = []
listeners_of object ((name, method) ∷ l) = (name, (object, method)) ∷ listeners_of object l

-- The listeners of a sink and of all below it, in the order of `walk_children`, depth first.
unfoldable mutual
  unfolding listeners_of

  pub walk : Sink → List Listener
  walk (sink object methods children) = listeners_of object methods ++ walk_children children

  pub walk_children : Sinks → List Listener
  walk_children no_sinks = []
  walk_children (sinks s rest) = walk s ++ walk_children rest

-- A round of `_register_listeners`.
unfoldable pub add_listener : Listener → Dict (List (ℕ × ℕ)) → Dict (List (ℕ × ℕ))
add_listener (name, f) m = put name (get_or name [] m ++ f ∷ []) m

unfoldable pub register_all : List Listener → Dict (List (ℕ × ℕ)) → Dict (List (ℕ × ℕ))
unfolding add_listener
register_all [] m = m
register_all (x ∷ l) m = register_all l (add_listener x m)

-- `list.remove`, of which the ValueError is caught.
unfoldable pub remove_first : ℕ × ℕ → List (ℕ × ℕ) → List (ℕ × ℕ)
remove_first f [] = []
remove_first f (g ∷ l) =
    let rest = remove_first f l in if (f.0 == g.0) && (f.1 == g.1) then l else g ∷ rest

-- A round of `_unregister_listeners`.
unfoldable pub remove_listener : Listener → Dict (List (ℕ × ℕ)) → Dict (List (ℕ × ℕ))
unfolding remove_first
remove_listener (name, f) m = elim (get name m) [
  | none ↦ m
  | some l ↦ put name (remove_first f l) m
]

unfoldable pub unregister_all : List Listener → Dict (List (ℕ × ℕ)) → Dict (List (ℕ × ℕ))
unfolding remove_listener
unregister_all [] m = m
unregister_all (x ∷ l) m = unregister_all l (remove_listener x m)

pub record SinkEventRouter : Type 0 where
  pub current : Sink
  pub event_listeners : Dict (List (ℕ × ℕ))

-- `__init__`, with `register_events`.
unfoldable pub new_router : Sink → SinkEventRouter
unfolding register_all walk
new_router s = record { current = s; event_listeners = register_all (walk s) [] }

-- `set_sink`, with `unregister_events` and `register_events`.
unfoldable pub set_sink : SinkEventRouter → Sink → SinkEventRouter
unfolding register_all unregister_all walk
set_sink r s = record {
  current = s;
  event_listeners = register_all (walk s) (unregister_all (walk r.current) r.event_listeners);
}

-- `_dispatch_to_listeners`: what is called, in order. An exception of one stops no other.
unfoldable pub called : SinkEventRouter → ℕ → List (ℕ × ℕ)
called r name = get_or name [] r.event_listeners
