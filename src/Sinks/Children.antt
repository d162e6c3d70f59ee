-- ===== src/Sinks/Children.antt =====
-- discord/ext/voice_recv/sinks.py: how a new sink gets the sinks below it. A new sink has no parent,
-- so that the tree that `_register_child` looks at is what was registered before.
use discord_ext_voice_recv.Base.{
  ℕ, ◌≡◌, refl, ap, ◌∙◌, sym, Option, none, some, List, [], ◌∷◌, ◌++◌, arith, false, Result, raise,
  ok, Result-cases, runtime_error, Bool-cases, inl, inr, ◌||◌, ◌>>=◌, if◌then◌else◌, All,
}
use discord_ext_voice_recv.Base.Dict.{contains}
use discord_ext_voice_recv.SinkEvents.{Sink, sink, Sinks, no_sinks, sinks}

-- The sinks that `walk_children` goes through, by their identity.
unfoldable mutual
  pub walk_ids : Sink → List ℕ
  walk_ids (sink object methods children) = object ∷ children_ids children

  pub children_ids : Sinks → List ℕ
  children_ids no_sinks = []
  children_ids (sinks s rest) = walk_ids s ++ children_ids rest

abbrev pub id_of : Sink → ℕ
id_of (sink object methods children) = object

-- `self._children.append(child)`
unfoldable pub append : Sinks → Sink → Sinks
append no_sinks child = sinks child no_sinks
append (sinks s rest) child = sinks s (append rest child)

-- `_register_child` of a new sink with the children that it has.
unfoldable pub register_child : Sinks → Sink → Result Sinks
unfolding append
register_child children child =
    if contains (id_of child) (children_ids children)
    then raise runtime_error
    else ok (append children child)

-- `MultiAudioSink.__init__`
unfoldable pub register_children : List Sink → Sinks → Result Sinks
register_children [] children = ok children
register_children (child ∷ l) children =
    register_child children child >>= λ registered. register_children l registered

unfoldable pub multi_sink : ℕ → List (ℕ × ℕ) → List Sink → Result Sink
multi_sink object methods destinations =
    register_children destinations no_sinks >>= λ children. ok (sink object methods children)

-- `AudioSink.__init__`, where the new sink has no child yet.
unfoldable pub audio_sink : ℕ → List (ℕ × ℕ) → Option Sink → Result Sink
audio_sink object methods none = ok (sink object methods no_sinks)
audio_sink object methods (some destination) =
    register_child no_sinks destination >>= λ children. ok (sink object methods children)

-- None of the sinks is an earlier one of them or below it.
abbrev pub IsSpread : List Sink → Type 0
IsSpread [] = Unit {0}
IsSpread (d ∷ l) = All (λ e. contains (id_of e) (walk_ids d) ≡ false) l × IsSpread l

abbrev IsOutside : Sinks → List Sink → Type 0
IsOutside children l = All (λ e. contains (id_of e) (children_ids children) ≡ false) l

abbrev pub in_order : List Sink → Sinks
in_order [] = no_sinks
in_order (d ∷ l) = sinks d (in_order l)

abbrev append_all : Sinks → List Sink → Sinks
append_all no_sinks l = in_order l
append_all (sinks s rest) l = sinks s (append_all rest l)

append_all-append :
    (children : Sinks) (d : Sink) (l : List Sink)
    → append_all (append children d) l ≡ append_all children (d ∷ l)
unfolding append
append_all-append no_sinks d l = refl
append_all-append (sinks s rest) d l = ap (sinks s) (append_all-append rest d l)

append_all-nil : (children : Sinks) → append_all children [] ≡ children
append_all-nil no_sinks = refl
append_all-nil (sinks s rest) = ap (sinks s) (append_all-nil rest)

contains-append : (x : ℕ) (l r : List ℕ) → contains x (l ++ r) ≡ (contains x l || contains x r)
unfolding contains
contains-append x [] r = refl
contains-append x (y ∷ l) r = ground (arith, contains-append x l r)

contains-children_ids :
    (x : ℕ) (children : Sinks) (d : Sink)
    → contains x (children_ids (append children d))
      ≡ (contains x (children_ids children) || contains x (walk_ids d))
unfolding append children_ids contains
contains-children_ids x no_sinks d = ground (arith, contains-append x (walk_ids d) [])
contains-children_ids x (sinks s rest) d = ground (
  arith,
  contains-append x (walk_ids s) (children_ids (append rest d)),
  contains-append x (walk_ids s) (children_ids rest),
  contains-children_ids x rest d,
)

IsOutside-append :
    (children : Sinks) (d : Sink) (l : List Sink)
    → IsOutside children l
    → All (λ e. contains (id_of e) (walk_ids d) ≡ false) l
    → IsOutside (append children d) l
IsOutside-append children d [] o s = tt
IsOutside-append children d (e ∷ l) o s = (
  ground (arith, contains-children_ids (id_of e) children d, o.0, s.0),
  IsOutside-append children d l o.1 s.1,
)

IsOutside-each :
    (children : Sinks) (d : Sink) (l : List Sink)
    → IsOutside (append children d) l
    → IsOutside children l × All (λ e. contains (id_of e) (walk_ids d) ≡ false) l
IsOutside-each children d [] o = (tt, tt)
IsOutside-each children d (e ∷ l) o =
    let rest = IsOutside-each children d l o.1 in
    let both = contains-children_ids (id_of e) children d in
    ((ground (arith, both, o.0), rest.0), (ground (arith, both, o.0), rest.1))

register_children_accepts :
    (l : List Sink) (children : Sinks)
    → IsOutside children l
    → IsSpread l
    → register_children l children ≡ ok (append_all children l)
unfolding register_children register_child
register_children_accepts [] children o s = ap ok (sym (append_all-nil children))
register_children_accepts (d ∷ l) children o s = rw o.0 (
    register_children_accepts l (append children d) (IsOutside-append children d l o.1 s.0) s.1
    ∙ ap ok (append_all-append children d l))

register_children-IsSpread :
    (l : List Sink) (children result : Sinks)
    → register_children l children ≡ ok result
    → IsOutside children l × IsSpread l
unfolding register_children register_child
register_children-IsSpread [] children result e = (tt, tt)
register_children-IsSpread (d ∷ l) children result e =
    elim (Bool-cases (contains (id_of d) (children_ids children))) [
      | inl there ↦ absurd (ground (arith, there))
      | inr new ↦
          let rest =
            register_children-IsSpread l (append children d) result (ground (arith, e, new)) in
          let each = IsOutside-each children d l rest.0 in ((new, each.0), (each.1, rest.1))
    ]

IsOutside-no_sinks : (l : List Sink) → IsOutside no_sinks l
unfolding children_ids contains
IsOutside-no_sinks [] = tt
IsOutside-no_sinks (d ∷ l) = (refl, IsOutside-no_sinks l)

-- A sink with several destinations is made exactly when none of them is an earlier one or stands
-- below an earlier one, and they are its children then, in their order. A sink with one destination
-- is always made.
pub multi_sink-IsSpread :
    (object : ℕ) (methods : List (ℕ × ℕ)) (destinations : List Sink)
    → (IsSpread destinations
        → multi_sink object methods destinations ≡ ok (sink object methods (in_order destinations)))
      × ((s : Sink) → multi_sink object methods destinations ≡ ok s → IsSpread destinations)
      × ((d : Sink)
          → audio_sink object methods (some d) ≡ ok (sink object methods (sinks d no_sinks)))
unfolding multi_sink audio_sink register_child append children_ids contains
multi_sink-IsSpread object methods destinations = (
  λ s.
      rw (register_children_accepts destinations no_sinks (IsOutside-no_sinks destinations) s) refl,
  λ s e. elim (Result-cases (register_children destinations no_sinks)) [
    | inl (error, raises) ↦ absurd (ground (arith, e, raises))
    | inr (result, returns) ↦ (register_children-IsSpread destinations no_sinks result returns).1
  ],
  λ d. refl,
)
