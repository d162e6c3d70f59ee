-- ===== src/Bidict.antt =====
-- discord/ext/voice_recv/utils.py, `Bidict`: a dictionary that holds each pair in both directions. A
-- result of none is the KeyError. Keys and values are numbers, and an argument that is left out is
-- none.
pub mod Pairs
use discord_ext_voice_recv.Base.{
  ℕ, Bool, true, false, Option, none, some, List, [], ◌∷◌, ◌++◌, ◌==◌, if◌then◌else◌, is_some,
}
use discord_ext_voice_recv.Base.Dict.{Dict, get, put, delete}

-- `dict.update` of a dictionary.
unfoldable pub put_all : Dict ℕ → Dict ℕ → Dict ℕ
put_all [] m = m
put_all ((k, v) ∷ l) m = put_all l (put k v m)

-- `{v: k for k, v in self.items()}`, as the assignments that build it.
unfoldable pub inverse : Dict ℕ → Dict ℕ
inverse [] = []
inverse ((k, v) ∷ l) = (v, k) ∷ inverse l

-- `__init__`
unfoldable pub init : Dict ℕ → Dict ℕ
unfolding put_all inverse
init items = put_all (inverse (put_all items [])) (put_all items [])

-- `super().__delitem__` and `super().pop`
unfoldable pub delete_strict : ℕ → Dict ℕ → Option (Dict ℕ)
delete_strict k m = if is_some (get k m) then some (delete k m) else none

-- `__delitem__`
unfoldable pub del_item : ℕ → Dict ℕ → Option (Dict ℕ)
unfolding delete_strict
del_item k m = elim (get k m) [
  | none ↦ none
  | some v ↦ (elim (delete_strict v m) [
    | none ↦ none
    | some m' ↦ if k == v then some m' else delete_strict k m'
  ])
]

-- `if k in self: del self[k]`
unfoldable pub del_if_there : ℕ → Dict ℕ → Option (Dict ℕ)
unfolding del_item
del_if_there k m = if is_some (get k m) then del_item k m else some m

-- `__setitem__`
unfoldable pub set_item : ℕ → ℕ → Dict ℕ → Option (Dict ℕ)
unfolding del_if_there
set_item k v m = elim (del_if_there k m) [
  | none ↦ none
  | some m1 ↦ (elim (del_if_there v m1) [ none ↦ none | some m2 ↦ some (put v k (put k v m2)) ])
]

-- `pop`; the second `super().pop` never raises, since its default is given.
unfoldable pub pop : ℕ → Option ℕ → Dict ℕ → Option (Dict ℕ × ℕ)
pop k default_ m = elim (get k m) [
  | some v ↦ some (delete v (delete k m), v)
  | none ↦ elim default_ [ none ↦ none | some d ↦ some (m, d) ]
]

-- `setdefault` with a default.
unfoldable pub set_default : ℕ → ℕ → Dict ℕ → Option (Dict ℕ × ℕ)
unfolding set_item
set_default k d m = elim (get k m) [
  | some v ↦ some (m, v)
  | none ↦
      if is_some (get d m)
      then some (m, d)
      else elim (set_item k d m) [ none ↦ none | some m' ↦ some (m', d) ]
]

-- `update` with a list of pairs.
unfoldable pub update : Dict ℕ → Dict ℕ → Option (Dict ℕ)
unfolding set_item
update [] m = some m
update ((k, v) ∷ l) m = elim (set_item k v m) [ none ↦ none | some m' ↦ update l m' ]

-- The item that `dict.popitem` takes, the last one, and what is left.
unfoldable pub split_last : Dict ℕ → Option (Dict ℕ × (ℕ × ℕ))
split_last [] = none
split_last (x ∷ l) = elim (split_last l) [
  | none ↦ some ([], x)
  | some (rest, y) ↦ some (x ∷ rest, y)
]

unfoldable pub pop_item : Dict ℕ → Option (Dict ℕ × (ℕ × ℕ))
unfolding split_last delete_strict
pop_item m = elim (split_last m) [
  | none ↦ none
  | some (rest, (k, v)) ↦ elim (delete_strict v rest) [ none ↦ none | some m' ↦ some (m', (k, v)) ]
]
