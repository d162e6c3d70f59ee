-- ===== src/Tests/Sinks.antt =====
-- Sinks on concrete writes, classes and trees.
use discord_ext_voice_recv.Base.{
  ℕ, ◌↔◌, ◌+◌, ◌*◌, ◌≡◌, refl, true, false, none, some, [], ◌∷◌, arith, ok, raise, voice_recv_error,
  Result, take,
}
use discord_ext_voice_recv.Base.Dict.{get, put, delete, contains}
use discord_ext_voice_recv.Base.Int.{ℤ, pos, negsuc}
use discord_ext_voice_recv.Base.Bytes.{Bytes}
use discord_ext_voice_recv.Decoder.{fake}
use discord_ext_voice_recv.SinkEvents.{
  Sink, sink, no_sinks, sinks, walk, walk_children, listeners_of,
}
use discord_ext_voice_recv.Sinks.{
  Written, Chain, basic, timed_filter, volume_transformer, new_timed, new_volume_transformer,
  wants_opus, set_volume, write, write_all,
}
use discord_ext_voice_recv.Sinks.Timely.{IsCut, write_all-IsCut}
use discord_ext_voice_recv.Sinks.Built.{
  Plan, ends, scales, users, silences, build, build-wants_opus,
}
use discord_ext_voice_recv.Sinks.Children.{
  walk_ids, children_ids, append, register_child, register_children, multi_sink, audio_sink,
  IsSpread, in_order, multi_sink-IsSpread,
}
use discord_ext_voice_recv.Sinks.Meta.Registered.{listed, hears, listed-sink_listeners}
use discord_ext_voice_recv.Sinks.Meta.{
  Function, ClassDict, collect_all, collect_class, collect, attribute, listener_of, sink_listeners,
  listener_list,
}

abbrev written : ℕ → Written
written timestamp =
    (some 7, record { packet = fake 11 1 timestamp; source = some 7; pcm = 0 ∷ 0 ∷ [] })

-- A clock that moves on by ten with each reading.
abbrev clock : ℕ → ℕ
clock n = 100 + n * 10

abbrev same_volume : Bytes → ℤ → Result Bytes
same_volume pcm volume = ok pcm

write_all-IsCut_example :
    let l = written 960 ∷ written 1920 ∷ [] in
    ((k : ℕ) × ((write_all same_volume clock
          (written 0 ∷ l)
          4
          (timed_filter (new_timed 15 none) (basic true []))).chain
        ≡ timed_filter (new_timed 15 (some 140)) (basic true (take k (written 0 ∷ l))))
      × IsCut clock 155 5 3 k)
    × ((start : ℕ)
        → (k : ℕ) × ((write_all same_volume clock
              (written 0 ∷ l)
              4
              (timed_filter (new_timed 15 (some start)) (basic true []))).chain
            ≡ timed_filter (new_timed 15 (some start)) (basic true (take k (written 0 ∷ l))))
          × IsCut clock (start + 15) 4 3 k)
write_all-IsCut_example =
    write_all-IsCut same_volume clock true 15 4 (written 0) (written 960 ∷ written 1920 ∷ [])
      (λ i j h. omega (arith, h))

-- Of three writes, the clock is within the 25 units for the first two.
timed_example :
    (write_all same_volume clock
      (written 0 ∷ written 960 ∷ written 1920 ∷ [])
      4
      (timed_filter (new_timed 25 none) (basic true []))).chain
    ≡ timed_filter (new_timed 25 (some 140)) (basic true (written 0 ∷ written 960 ∷ []))
unfolding write_all write new_timed
timed_example = refl

abbrev over_opus : Plan
over_opus = silences (scales (pos 50) (users 7 (ends false)))

build-wants_opus_example :
    (build over_opus ≡ raise voice_recv_error)
    × ((c : Chain) → build over_opus ≡ ok c → wants_opus c ≡ true)
build-wants_opus_example = build-wants_opus over_opus

-- The volume given to the constructor is not bounded below, as that given to the setter is.
negative_volume :
    (new_volume_transformer (basic true []) (negsuc 99)
      ≡ ok (volume_transformer (negsuc 99) (basic true [])))
    × (set_volume (negsuc 99) ≡ pos 0)
unfolding new_volume_transformer wants_opus
negative_volume = (refl, refl)

abbrev leaf : ℕ → Sink
leaf object = sink object ((5, 50) ∷ []) no_sinks

multi_sink-IsSpread_example :
    let l = leaf 2 ∷ leaf 3 ∷ [] in
    (IsSpread l → multi_sink 1 [] l ≡ ok (sink 1 [] (in_order l)))
    × ((s : Sink) → multi_sink 1 [] l ≡ ok s → IsSpread l)
    × ((d : Sink) → audio_sink 1 [] (some d) ≡ ok (sink 1 [] (sinks d no_sinks)))
multi_sink-IsSpread_example = multi_sink-IsSpread 1 [] (leaf 2 ∷ leaf 3 ∷ [])

-- A sink and then one above it are taken, and the first is walked to twice.
taken_twice :
    multi_sink 1 [] (leaf 2 ∷ sink 3 [] (sinks (leaf 2) no_sinks) ∷ [])
    ≡ ok (sink 1 [] (sinks (leaf 2) (sinks (sink 3 [] (sinks (leaf 2) no_sinks)) no_sinks)))
unfolding multi_sink register_children register_child append walk_ids children_ids contains
taken_twice = refl

walked_twice :
    walk (sink 1 [] (sinks (leaf 2) (sinks (sink 3 [] (sinks (leaf 2) no_sinks)) no_sinks)))
    ≡ (5, (2, 50)) ∷ (5, (2, 50)) ∷ []
unfolding walk walk_children listeners_of
walked_twice = refl

abbrev parent_class : ClassDict
parent_class = (50, some (record { name = 50; events = some (5 ∷ 6 ∷ []) })) ∷ (51, none) ∷ []

-- The class overrides the method without a mark.
abbrev child_class : ClassDict
child_class = (50, some (record { name = 50; events = none })) ∷ []

listed-sink_listeners_example :
    (listed 5 50 (sink_listeners (child_class ∷ parent_class ∷ [])) ≡ true) ↔ (
      (elem : ℕ) × (f : Function) × (listener_of (attribute (child_class ∷ parent_class ∷ []) elem)
        ≡ some f)
      × (hears 5 50 f ≡ true))
listed-sink_listeners_example =
    listed-sink_listeners (child_class ∷ parent_class ∷ []) 5 50
      ((unfold get in refl, tt), ((unfold get in refl, (unfold get in refl, tt)), tt))

-- A second name for a marked function: the listener is registered under the `__name__`.
aliased :
    sink_listeners (((51, some (record { name = 50; events = some (5 ∷ []) })) ∷ []) ∷ [])
    ≡ (5, 50) ∷ []
unfolding collect_all collect_class collect listener_list put delete
aliased = refl

overridden :
    (sink_listeners (child_class ∷ parent_class ∷ []) ≡ [])
    × (sink_listeners (parent_class ∷ []) ≡ (5, 50) ∷ (6, 50) ∷ [])
unfolding collect_all collect_class collect listener_list put delete
overridden = (refl, refl)
