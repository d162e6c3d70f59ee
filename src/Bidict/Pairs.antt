-- ===== src/Bidict/Pairs.antt =====
-- A two-way dictionary is a set of unordered pairs: what its operations are on the pairs.
use discord_ext_voice_recv.Base.{
  ℕ, ◌≡◌, sym, ap, ◌∙◌, inl, inr, false, ◌||◌, Option, none, some, arith, ◌==◌, if◌then◌else◌,
  Bool-cases, Option-cases,
}
use discord_ext_voice_recv.Base.Dict.{Dict, get, put, delete, get-put, get-delete}
use discord_ext_voice_recv.Bidict.{delete_strict, del_item, del_if_there, set_item}

-- Every value leads back to its key.
abbrev pub IsTwoWay : Dict ℕ → Type 0
IsTwoWay m =
    (k : ℕ) → elim (get k m) as (λ _. Type 0) [ none ↦ Unit {0} | some v ↦ get v m ≡ some k ]

back : (m : Dict ℕ) → IsTwoWay m → (k v : ℕ) → get k m ≡ some v → get v m ≡ some k
back m two k v h = rw h at (two k)

-- The pair of the key is gone, and the others are as they were.
abbrev pub without : ℕ → Dict ℕ → ℕ → Option ℕ
without k m j = elim (get j m) [ none ↦ none | some v ↦ if j == k || v == k then none else some v ]

delete-without :
    (m : Dict ℕ) (k : ℕ)
    → IsTwoWay m
    → (v : ℕ) → get k m ≡ some v
    → (j : ℕ) → get j (delete k (delete v m)) ≡ without k m j
delete-without m k two v h j =
    let b = back m two k v h in
    let outer = get-delete k j (delete v m) in
    let inner = get-delete v j m in
    elim (Option-cases (get j m)) [
      | inl absent ↦ ground (arith, outer, inner, absent)
      | inr (w, found) ↦
          let c = back m two j w found in
          elim (Bool-cases (w == k)) [
            | inl is_k ↦
                let at_k : get k m ≡ some j = ground (arith, is_k, c) in
                let same : j ≡ v = ground (arith, at_k, h) in
                ground (arith, outer, inner, found, is_k, same)
            | inr not_k ↦ (elim (Bool-cases (j == v)) [
              | inl is_v ↦
                  let at_v : get v m ≡ some w = ground (arith, is_v, found) in
                  let same : w ≡ k = ground (arith, at_v, b) in absurd (ground (arith, same, not_k))
              | inr not_v ↦ ground (arith, outer, inner, found, not_k, not_v)
            ])
          ]
    ]

del_item-without :
    (m : Dict ℕ) (k : ℕ)
    → IsTwoWay m
    → (v : ℕ) → get k m ≡ some v
    → (m' : Dict ℕ) × (del_item k m ≡ some m') × ((j : ℕ) → get j m' ≡ without k m j)
unfolding del_item delete_strict
del_item-without m k two v h =
    let b = back m two k v h in
    elim (Bool-cases (k == v)) [
      | inl same ↦ (
        delete v m,
        ground (arith, h, b, same),
        λ j. ground (
          arith,
          same,
          get-delete k j (delete v m),
          get-delete v j m,
          delete-without m k two v h j,
        ),
      )
      | inr other ↦ (
        delete k (delete v m),
        ground (arith, h, b, other, get-delete v k m),
        delete-without m k two v h,
      )
    ]

pub two_way : (m : Dict ℕ) → ((k v : ℕ) → get k m ≡ some v → get v m ≡ some k) → IsTwoWay m
two_way m h k = elim (Option-cases (get k m)) [
  | inl absent ↦ rw absent tt
  | inr (v, found) ↦ rw found (h k v found)
]

without-some :
    (m : Dict ℕ) (k j w : ℕ)
    → without k m j ≡ some w
    → (get j m ≡ some w) × ((j == k) ≡ false) × ((w == k) ≡ false)
without-some m k j w h = elim (Option-cases (get j m)) [
  | inl absent ↦ absurd (ground (arith, absent, h))
  | inr (u, found) ↦ (ground (arith, found, h), ground (arith, found, h), ground (arith, found, h))
]

without-IsTwoWay :
    (m m' : Dict ℕ) (k : ℕ) → IsTwoWay m → ((j : ℕ) → get j m' ≡ without k m j) → IsTwoWay m'
without-IsTwoWay m m' k two same = two_way m' (λ j w h.
    let (found, not_k, w_not_k) = without-some m k j w (sym (same j) ∙ h) in
    ground (arith, same w, back m two j w found, not_k, w_not_k))

without-absent :
    (m : Dict ℕ) (k : ℕ) → IsTwoWay m → get k m ≡ none → (j : ℕ) → get j m ≡ without k m j
without-absent m k two h j = elim (Option-cases (get j m)) [
  | inl absent ↦ ground (arith, absent)
  | inr (w, found) ↦
      let b = back m two j w found in
      elim (Bool-cases (w == k)) [
        | inl is_k ↦
            let at_k : get k m ≡ some j = ground (arith, is_k, b) in
            absurd (ground (arith, at_k, h))
        | inr not_k ↦ (elim (Bool-cases (j == k)) [
          | inl j_is_k ↦
              let at_k : get k m ≡ some w = ground (arith, j_is_k, found) in
              absurd (ground (arith, at_k, h))
          | inr j_not_k ↦ ground (arith, found, not_k, j_not_k)
        ])
      ]
]

-- A dictionary without the pair of the key, if it has one.
abbrev Cleared : Dict ℕ → ℕ → Option (Dict ℕ) → Type 0
Cleared m k o = (m' : Dict ℕ) × (o ≡ some m') × IsTwoWay m' × ((j : ℕ) → get j m' ≡ without k m j)

del_if_there-Cleared : (m : Dict ℕ) (k : ℕ) → IsTwoWay m → Cleared m k (del_if_there k m)
unfolding del_if_there
del_if_there-Cleared m k two = elim (Option-cases (get k m)) [
  | inl absent ↦ (m, ground (arith, absent), two, without-absent m k two absent)
  | inr (v, found) ↦
      let (m', e, same) = del_item-without m k two v found in
      (m', ground (arith, found, e), without-IsTwoWay m m' k two same, same)
]

-- What `d[k] = v` makes of the key j: the new pair, and no pair that the key or the value had.
abbrev pub paired : ℕ → ℕ → Dict ℕ → ℕ → Option ℕ
paired k v m j =
    if j == k
    then some v
    else if j == v
    then some k
    else (elim (get j m) [ none ↦ none | some w ↦ if w == k || w == v then none else some w ])

paired-some :
    (m : Dict ℕ) (k v j w : ℕ) → IsTwoWay m → paired k v m j ≡ some w → paired k v m w ≡ some j
paired-some m k v j w two h = elim (Bool-cases (j == k)) [
  | inl is_k ↦ ground (arith, is_k, h)
  | inr not_k ↦ (elim (Bool-cases (j == v)) [
    | inl is_v ↦ ground (arith, not_k, is_v, h)
    | inr not_v ↦ (elim (Option-cases (get j m)) [
      | inl absent ↦ absurd (ground (arith, not_k, not_v, absent, h))
      | inr (u, found) ↦
          let same : u ≡ w = ground (arith, not_k, not_v, found, h) in
          let w_not_k : (w == k) ≡ false = ground (arith, not_k, not_v, found, h) in
          let w_not_v : (w == v) ≡ false = ground (arith, not_k, not_v, found, h) in
          let b : get w m ≡ some j = back m two j w (found ∙ ap some same) in
          ground (arith, w_not_k, w_not_v, b, not_k, not_v)
    ])
  ])
]

paired-IsTwoWay :
    (m m' : Dict ℕ) (k v : ℕ) → IsTwoWay m → ((j : ℕ) → get j m' ≡ paired k v m j) → IsTwoWay m'
paired-IsTwoWay m m' k v two same =
    two_way m' (λ j w h. same w ∙ paired-some m k v j w two (sym (same j) ∙ h))

put_both :
    (m m1 m2 : Dict ℕ) (k v j : ℕ)
    → get j m1 ≡ without k m j
    → get j m2 ≡ without v m1 j
    → get j (put v k (put k v m2)) ≡ paired k v m j
put_both m m1 m2 k v j same1 same2 =
    let outer = get-put v j k (put k v m2) in
    let inner = get-put k j v m2 in
    elim (Option-cases (get j m)) [
      | inl absent ↦
          let none1 : get j m1 ≡ none = ground (arith, same1, absent) in
          let none2 : get j m2 ≡ none = ground (arith, same2, none1) in
          ground (arith, outer, inner, absent, none2)
      | inr (w, found) ↦ (elim (Bool-cases (j == k || w == k)) [
        | inl gone ↦
            let none1 : get j m1 ≡ none = ground (arith, same1, found, gone) in
            let none2 : get j m2 ≡ none = ground (arith, same2, none1) in
            ground (arith, outer, inner, found, gone, none2)
        | inr kept ↦
            let found1 : get j m1 ≡ some w = ground (arith, same1, found, kept) in
            ground (arith, outer, inner, found, kept, same2, found1)
      ])
    ]

-- An assignment to a two-way dictionary never raises, and leaves a two-way dictionary of which the
-- new pair is one, in both directions, the pairs that the key or the value had are gone, in both
-- directions, and all other pairs are as they were.
pub set_item-paired :
    (m : Dict ℕ) (k v : ℕ)
    → IsTwoWay m
    → (m' : Dict ℕ) × (set_item k v m ≡ some m')
      × IsTwoWay m'
      × ((j : ℕ) → get j m' ≡ paired k v m j)
unfolding set_item
set_item-paired m k v two =
    let (m1, e1, two1, same1) = del_if_there-Cleared m k two in
    let (m2, e2, two2, same2) = del_if_there-Cleared m1 v two1 in
    let m' = put v k (put k v m2) in
    let all : (j : ℕ) → get j m' ≡ paired k v m j =
      λ j. put_both m m1 m2 k v j (same1 j) (same2 j) in
    (m', ground (arith, e1, e2), paired-IsTwoWay m m' k v two all, all)
