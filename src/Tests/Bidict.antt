-- ===== src/Tests/Bidict.antt =====
-- A two-way dictionary with one pair.
use discord_ext_voice_recv.Base.{ℕ, ◌≡◌, refl, none, some, [], ◌∷◌, arith}
use discord_ext_voice_recv.Base.Dict.{Dict, get, put}
use discord_ext_voice_recv.Bidict.{
  init, put_all, inverse, set_item, pop_item, split_last, delete_strict,
}
use discord_ext_voice_recv.Bidict.Pairs.{IsTwoWay, paired, two_way, set_item-paired}

abbrev one_pair : Dict ℕ
one_pair = (1, 2) ∷ (2, 1) ∷ []

one_pair-IsTwoWay : IsTwoWay one_pair
unfolding get
one_pair-IsTwoWay = two_way one_pair (λ k v h. ground (arith, h))

set_item-paired_example :
    (m' : Dict ℕ) × (set_item 2 3 one_pair ≡ some m')
    × IsTwoWay m'
    × ((j : ℕ) → get j m' ≡ paired 2 3 one_pair j)
set_item-paired_example = set_item-paired one_pair 2 3 one_pair-IsTwoWay

-- The constructor lets a chain through: 3 leads to 2, but 2 leads to 1.
init_of_chain : init ((1, 2) ∷ (2, 3) ∷ []) ≡ (1, 2) ∷ (2, 1) ∷ (3, 2) ∷ []
unfolding init put_all inverse put
init_of_chain = refl

-- `popitem` of a key that is its own value raises.
pop_item_of_self : pop_item ((1, 1) ∷ []) ≡ none
unfolding pop_item split_last delete_strict get
pop_item_of_self = refl
