-- ===== src/Sinks/Meta.antt =====
-- discord/ext/voice_recv/sinks.py, `SinkMeta` and `AudioSink.listener`: which methods of a class
-- listen to which events. Names are numbers.
pub mod Registered
use discord_ext_voice_recv.Base.{
  ℕ, ◌≡◌, refl, Option, none, some, List, [], ◌∷◌, ◌++◌, arith, ◌==◌, if◌then◌else◌, All, Result,
  raise, ok, type_error, Bool, Option-cases, inl, inr,
}
use discord_ext_voice_recv.Base.Dict.{Dict, get, put, delete, get-put, get-delete}

-- A function: its `__name__`, and its `__sink_listener_names__` if it is marked.
pub record Function : Type 0 where
  pub name : ℕ
  pub events : Option (List ℕ)

-- `listener(name)` on a function that is a coroutine function or not; no name is MISSING.
unfoldable pub listener : Option ℕ → Bool → Function → Result Function
listener name is_coroutine f =
    let to_assign : ℕ = elim name [ none ↦ f.name | some n ↦ n ] in
    let names : List ℕ = elim f.events [ none ↦ to_assign ∷ [] | some l ↦ l ++ to_assign ∷ [] ] in
    if is_coroutine then raise type_error else ok (record f { events = some names })

-- An attribute of a class: none for one that is not a function.
abbrev pub ClassDict : Type 0
ClassDict = Dict (Option Function)

-- The names of events of an attribute that is a listener.
abbrev pub events_of : Option Function → Option Function
events_of none = none
events_of (some f) = elim f.events [ none ↦ none | some names ↦ some f ]

-- A round of the inner loop of `__new__`.
unfoldable pub collect : ℕ → Option Function → Dict Function → Dict Function
collect elem value listeners =
    let rest = delete elem listeners in
    elim (events_of value) [ none ↦ rest | some f ↦ put elem f rest ]

unfoldable pub collect_class : ClassDict → Dict Function → Dict Function
unfolding collect
collect_class [] listeners = listeners
collect_class ((elem, value) ∷ base) listeners = collect_class base (collect elem value listeners)

-- The outer loop goes over the reversed mro, so that a class comes after those it derives from.
unfoldable pub collect_all : List ClassDict → Dict Function
unfolding collect_class
collect_all [] = []
collect_all (base ∷ bases) = collect_class base (collect_all bases)

abbrev pub pair_with : ℕ → List ℕ → List (ℕ × ℕ)
pair_with name [] = []
pair_with name (event ∷ l) = (event, name) ∷ pair_with name l

-- `__sink_listeners__`: the event and the method.
unfoldable pub listener_list : Dict Function → List (ℕ × ℕ)
listener_list [] = []
listener_list ((elem, f) ∷ l) =
    elim f.events [ none ↦ [] | some names ↦ pair_with f.name names ] ++ listener_list l

-- `__new__`, for the mro of the class.
abbrev pub sink_listeners : List ClassDict → List (ℕ × ℕ)
sink_listeners mro = listener_list (collect_all mro)

-- What Python finds for an attribute: the definition of the first class of the mro that has one.
unfoldable pub attribute : List ClassDict → ℕ → Option (Option Function)
attribute [] elem = none
attribute (base ∷ bases) elem = elim (get elem base) [
  | none ↦ attribute bases elem
  | some value ↦ some value
]

abbrev pub listener_of : Option (Option Function) → Option Function
listener_of none = none
listener_of (some value) = events_of value

-- The keys of a dictionary are different.
abbrev pub IsUnique {ℓ} : {V : Type ℓ} → Dict V → Type ℓ
IsUnique [] = Unit {ℓ}
IsUnique ((k, v) ∷ m) = (get k m ≡ none) × IsUnique m

get-collect :
    (elem j : ℕ) (value : Option Function) (l : Dict Function)
    → get j (collect elem value l) ≡ (if elem == j then events_of value else get j l)
unfolding collect
get-collect elem j value l = elim (Option-cases (events_of value)) [
  | inl plain ↦ ground (arith, plain, get-delete elem j l)
  | inr (f, marked) ↦ ground (arith, marked, get-delete elem j l, get-put elem j f (delete elem l))
]

get-collect_class :
    (base : ClassDict) (j : ℕ) (l : Dict Function)
    → IsUnique base
    → get j (collect_class base l)
      ≡ elim (get j base) [ none ↦ get j l | some value ↦ events_of value ]
unfolding collect_class get
get-collect_class [] j l u = refl
get-collect_class ((elem, value) ∷ base) j l (new, u) =
    ground
      (arith, new, get-collect_class base j (collect elem value l) u, get-collect elem j value l)

-- The dictionary has the function that Python finds for an attribute, if that is marked.
pub get-collect_all :
    (mro : List ClassDict) (elem : ℕ)
    → All IsUnique mro
    → get elem (collect_all mro) ≡ listener_of (attribute mro elem)
unfolding collect_all attribute get
get-collect_all [] elem u = refl
get-collect_all (base ∷ bases) elem (u, v) =
    ground (arith, get-collect_class base elem (collect_all bases) u, get-collect_all bases elem v)
