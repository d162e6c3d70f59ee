-- ===== src/Sinks/Meta/Registered.antt =====
-- `SinkMeta.__new__`: what stands in `__sink_listeners__`, against what Python finds for an attribute.
use discord_ext_voice_recv.Base.{
  ℕ, ◌≡◌, ◌↔◌, refl, sym, ◌∙◌, Bool, true, false, ◌&&◌, ◌||◌, Option, none, some, List, [], ◌∷◌,
  ◌++◌, arith, ◌==◌, All, Bool-cases, Option-cases, inl, inr,
}
use discord_ext_voice_recv.Base.Dict.{Dict, get, put, delete, contains, get-put, get-delete}
use discord_ext_voice_recv.Sinks.Meta.{
  Function, ClassDict, events_of, collect, collect_class, collect_all, pair_with, listener_list,
  sink_listeners, attribute, listener_of, IsUnique, get-collect_all,
}

module _ {ℓ} {V : Type ℓ} where
  IsUnique-put : (k : ℕ) (v : V) (m : Dict V) → IsUnique m → IsUnique (put k v m)
  unfolding put get
  IsUnique-put k v [] u = (refl, tt)
  IsUnique-put k v ((j, w) ∷ m) (new, u) = elim (Bool-cases (j == k)) [
    | inl same ↦ rw (same, put) (ground (arith, same, new), u)
    | inr other ↦
        rw (other, put) (ground (arith, other, new, get-put k j v m), IsUnique-put k v m u)
  ]

  IsUnique-delete : (k : ℕ) (m : Dict V) → IsUnique m → IsUnique (delete k m)
  unfolding delete get
  IsUnique-delete k [] u = tt
  IsUnique-delete k ((j, w) ∷ m) (new, u) = elim (Bool-cases (j == k)) [
    | inl same ↦ rw (same, delete) (IsUnique-delete k m u)
    | inr other ↦ rw (other, delete) (ground (arith, new, get-delete k j m), IsUnique-delete k m u)
  ]

collect-IsUnique :
    (elem : ℕ) (value : Option Function) (l : Dict Function)
    → IsUnique l
    → IsUnique (collect elem value l)
unfolding collect
collect-IsUnique elem value l u = elim (Option-cases (events_of value)) [
  | inl plain ↦ rw (plain, collect) (IsUnique-delete elem l u)
  | inr (f, marked) ↦
      rw (marked, collect) (IsUnique-put elem f (delete elem l) (IsUnique-delete elem l u))
]

collect_class-IsUnique :
    (base : ClassDict) (l : Dict Function) → IsUnique l → IsUnique (collect_class base l)
unfolding collect_class
collect_class-IsUnique [] l u = u
collect_class-IsUnique ((elem, value) ∷ base) l u =
    collect_class-IsUnique base (collect elem value l) (collect-IsUnique elem value l u)

collect_all-IsUnique : (mro : List ClassDict) → IsUnique (collect_all mro)
unfolding collect_all
collect_all-IsUnique [] = tt
collect_all-IsUnique (base ∷ bases) =
    collect_class-IsUnique base (collect_all bases) (collect_all-IsUnique bases)

-- The method of this name is there for the event.
unfoldable pub listed : ℕ → ℕ → List (ℕ × ℕ) → Bool
listed event name [] = false
listed event name ((e, n) ∷ l) = (e == event) && (n == name) || listed event name l

-- A function of this name is marked for the event.
abbrev pub hears : ℕ → ℕ → Function → Bool
hears event name f =
    (f.name == name) && (elim f.events [ none ↦ false | some names ↦ contains event names ])

listed-append :
    (event name : ℕ) (l l' : List (ℕ × ℕ))
    → listed event name (l ++ l') ≡ listed event name l || listed event name l'
unfolding listed
listed-append event name [] l' = refl
listed-append event name ((e, n) ∷ l) l' = ground (arith, listed-append event name l l')

listed-pair_with :
    (event name n : ℕ) (names : List ℕ)
    → listed event name (pair_with n names) ≡ (n == name) && contains event names
unfolding listed contains
listed-pair_with event name n [] = ground arith
listed-pair_with event name n (e ∷ names) = ground (arith, listed-pair_with event name n names)

listed-listener_list :
    (event name elem : ℕ) (f : Function) (l : Dict Function)
    → listed event name (listener_list ((elem, f) ∷ l))
      ≡ hears event name f || listed event name (listener_list l)
unfolding listener_list listed
listed-listener_list event name elem f l = elim (Option-cases f.events) [
  | inl plain ↦ ground (arith, plain)
  | inr (names, marked) ↦ ground (
    arith,
    marked,
    listed-append event name (pair_with f.name names) (listener_list l),
    listed-pair_with event name f.name names,
  )
]

-- Some function of the dictionary is marked for the event.
abbrev Heard : ℕ → ℕ → Dict Function → Type 0
Heard event name l =
    (elem : ℕ) × (f : Function) × (get elem l ≡ some f) × (hears event name f ≡ true)

listed-Heard :
    (event name : ℕ) (l : Dict Function)
    → IsUnique l
    → listed event name (listener_list l) ≡ true
    → Heard event name l
unfolding listener_list listed get
listed-Heard event name [] u h = absurd (cc)
listed-Heard event name ((elem, f) ∷ l) (new, u) h = elim (Bool-cases (hears event name f)) [
  | inl here ↦ (elem, f, ground arith, here)
  | inr not_here ↦
      let later : listed event name (listener_list l) ≡ true =
        ground (arith, h, not_here, listed-listener_list event name elem f l) in
      let (k, g, found, heard) = listed-Heard event name l u later in
      (k, g, ground (arith, found, new), heard)
]

Heard-listed :
    (event name elem : ℕ) (f : Function) (l : Dict Function)
    → get elem l ≡ some f
    → hears event name f ≡ true
    → listed event name (listener_list l) ≡ true
unfolding get
Heard-listed event name elem f [] found heard = absurd (cc)
Heard-listed event name elem f ((k, g) ∷ l) found heard =
    ground
      (arith, found, heard, listed-listener_list event name k g l, Heard-listed event name elem f l)

-- `__sink_listeners__` has an event with the name of a method exactly when some attribute, as Python
-- looks it up in the mro of the class, is a function that is marked as a listener of the event and has
-- that name as its `__name__`, which need not be the name of the attribute: an override without a mark
-- takes the listener away. The keys of each class are taken to be different.
pub listed-sink_listeners :
    (mro : List ClassDict) (event name : ℕ)
    → All IsUnique mro
    → (listed event name (sink_listeners mro) ≡ true) ↔ (
        (elem : ℕ) × (f : Function) × (listener_of (attribute mro elem) ≡ some f)
        × (hears event name f ≡ true))
listed-sink_listeners mro event name u = (
  λ h.
      let (elem, f, found, heard) =
        listed-Heard event name (collect_all mro) (collect_all-IsUnique mro) h in
      (elem, f, sym (get-collect_all mro elem u) ∙ found, heard),
  λ (elem, f, found, heard).
      Heard-listed event name elem f (collect_all mro) (get-collect_all mro elem u ∙ found) heard,
)
