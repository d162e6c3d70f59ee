-- ===== src/Silence/Sound.antt =====
-- `SilenceGenerator`: what holds of the generator and its thread after any sequence of steps.
use discord_ext_voice_recv.Base.{
  ℕ, ◌+◌, ◌≡◌, sym, ◌∙◌, true, false, not, Option, none, some, [], ◌∷◌, arith, refl, is_empty,
  is_some, Bool-cases, Option-cases, inl, inr,
}
use discord_ext_voice_recv.Base.Dict.{Dict, get, put, delete, get-put, get-delete}
use discord_ext_voice_recv.Silence.{
  Packet, SsrcData, SilenceGenerator, push, clear_if_empty, forget, drop_ssrc, drop, Round, bump,
  packet_interval, samples_per_frame,
}

-- Every ssrc that has data has a timestamp, and its data is of the ssrc; until the generator is
-- stopped the event is set exactly when there is data.
pub record IsSound (g : SilenceGenerator) : Type 0 where
  pub own : (k : ℕ) (x : SsrcData) → get k g.ssrc_data ≡ some x → x.packet.ssrc ≡ k
  pub stamped : (k : ℕ) → is_some (get k g.last_timestamp) ≡ false → get k g.ssrc_data ≡ none
  pub ready : g.end_ ≡ false → g.has_data ≡ not (is_empty g.ssrc_data)

module _ {ℓ} {V : Type ℓ} where
  is_empty-put : (k : ℕ) (v : V) (m : Dict V) → is_empty (put k v m) ≡ false
  unfolding put
  is_empty-put k v [] = refl
  is_empty-put k v ((j, w) ∷ m) = ground arith

  is_empty-delete : (k : ℕ) (m : Dict V) → is_empty (delete k m) ≡ false → is_empty m ≡ false
  unfolding delete
  is_empty-delete k [] e = e
  is_empty-delete k ((j, w) ∷ m) e = refl

  delete-absent : (k : ℕ) (m : Dict V) → get k m ≡ none → delete k m ≡ m
  unfolding get delete
  delete-absent k [] e = refl
  delete-absent k ((j, w) ∷ m) e = ground (arith, delete-absent k m)

  pub delete_of_empty : (k : ℕ) (m : Dict V) → is_empty m ≡ true → is_empty (delete k m) ≡ true
  unfolding delete
  delete_of_empty k [] e = refl
  delete_of_empty k (x ∷ m) e = absurd (cc)

  full_of : (k : ℕ) (v : V) (m : Dict V) → get k m ≡ some v → is_empty m ≡ false
  unfolding get
  full_of k v [] e = absurd (cc)
  full_of k v (x ∷ m) e = refl

pub push-IsSound :
    (now : ℕ) (user : Option ℕ) (packet : Packet) (g : SilenceGenerator)
    → IsSound g
    → IsSound (push now user packet g)
unfolding push
push-IsSound now user packet g h =
    let x : SsrcData = record { time = now; user = user; packet = packet } in
    record {
      own = λ k y e. ground (arith, get-put packet.ssrc k x g.ssrc_data, h.own k y);
      stamped = λ k e. ground (
        arith,
        get-put packet.ssrc k x g.ssrc_data,
        get-put packet.ssrc k packet.timestamp g.last_timestamp,
        h.stamped k,
      );
      ready = λ e. ground (arith, is_empty-put packet.ssrc x g.ssrc_data);
    }

-- What lost data, and has its event tested again.
shrunk-IsSound :
    (g g' : SilenceGenerator)
    → IsSound g
    → g'.end_ ≡ g.end_
    → g'.has_data ≡ g.has_data
    → ((k : ℕ) (x : SsrcData) → get k g'.ssrc_data ≡ some x → get k g.ssrc_data ≡ some x)
    → ((k : ℕ) → is_some (get k g'.last_timestamp) ≡ false → get k g'.ssrc_data ≡ none)
    → (is_empty g'.ssrc_data ≡ false → is_empty g.ssrc_data ≡ false)
    → IsSound (clear_if_empty g')
shrunk-IsSound g g' h same_end same_event sub stamped less =
    elim (Bool-cases (is_empty g'.ssrc_data)) [
      | inl empty ↦ rw empty (record {
        own = λ k x e. h.own k x (sub k x e);
        stamped = stamped;
        ready = λ e. ground (arith, empty);
      })
      | inr full ↦ rw full (record {
        own = λ k x e. h.own k x (sub k x e);
        stamped = stamped;
        ready = λ e. ground (arith, full, less full, same_event, h.ready (sym same_end ∙ e));
      })
    ]

forget-IsSound :
    (ssrc : ℕ) (g : SilenceGenerator) → IsSound g → IsSound (clear_if_empty (forget ssrc g))
forget-IsSound ssrc g h =
    shrunk-IsSound g (forget ssrc g) h refl refl
      (λ k x e. ground (arith, get-delete ssrc k g.ssrc_data))
      (λ k e.
        ground
          (arith, get-delete ssrc k g.ssrc_data, get-delete ssrc k g.last_timestamp, h.stamped k))
      (is_empty-delete ssrc g.ssrc_data)

-- The branch of `drop` that looks for the ssrc of the user.
unfoldable forget_both : ℕ → ℕ → ℕ → SilenceGenerator → SilenceGenerator
forget_both ssrc id own g = record (forget ssrc g) {
  user_map_backup = delete id g.user_map_backup;
  ssrc_data = delete own (delete ssrc g.ssrc_data);
}

forget_both-IsSound :
    (ssrc id own : ℕ) (g : SilenceGenerator)
    → IsSound g
    → IsSound (clear_if_empty (forget_both ssrc id own g))
unfolding forget_both
forget_both-IsSound ssrc id own g h =
    shrunk-IsSound g (forget_both ssrc id own g) h refl refl
      (λ k x e.
        ground (arith, get-delete ssrc k g.ssrc_data, get-delete own k (delete ssrc g.ssrc_data)))
      (λ k e. ground (
        arith,
        get-delete ssrc k g.ssrc_data,
        get-delete own k (delete ssrc g.ssrc_data),
        get-delete ssrc k g.last_timestamp,
        h.stamped k,
      ))
      (λ e. is_empty-delete ssrc g.ssrc_data (is_empty-delete own (delete ssrc g.ssrc_data) e))

-- The branch with the KeyError.
forget_absent-IsSound :
    (ssrc : ℕ) (g : SilenceGenerator)
    → get ssrc g.ssrc_data ≡ none
    → IsSound g
    → IsSound (forget ssrc g)
forget_absent-IsSound ssrc g absent h = rw (delete-absent ssrc g.ssrc_data absent) (record {
  own = h.own;
  stamped = λ k e. ground (arith, absent, get-delete ssrc k g.last_timestamp, h.stamped k);
  ready = h.ready;
})

drop_ssrc-IsSound :
    (ssrc : ℕ) (user : Option ℕ) (g : SilenceGenerator)
    → IsSound g
    → IsSound ((drop_ssrc ssrc user g).0)
unfolding drop_ssrc forget_both
drop_ssrc-IsSound ssrc none g h = elim (Option-cases (get ssrc g.ssrc_data)) [
  | inr (x, found) ↦ rw (found, drop_ssrc) (forget-IsSound ssrc g h)
  | inl absent ↦ rw (absent, drop_ssrc) (forget-IsSound ssrc g h)
]
drop_ssrc-IsSound ssrc (some id) g h = elim (Option-cases (get ssrc g.ssrc_data)) [
  | inr (x, found) ↦ rw (found, drop_ssrc) (forget-IsSound ssrc g h)
  | inl absent ↦ elim (Option-cases (get id g.user_map_backup)) [
    | inl unknown ↦ rw (absent, unknown, drop_ssrc) (forget_absent-IsSound ssrc g absent h)
    | inr (own, known) ↦ rw (absent, known, drop_ssrc) (forget_both-IsSound ssrc id own g h)
  ]
]

pub drop-IsSound :
    (ssrc user : Option ℕ) (g : SilenceGenerator) → IsSound g → IsSound ((drop ssrc user g).0)
unfolding drop
drop-IsSound (some ssrc) user g h = drop_ssrc-IsSound ssrc user g h
drop-IsSound none none g h = h
drop-IsSound none (some id) g h = elim (Option-cases (get id g.user_map_backup)) [
  | inl unknown ↦ rw (unknown, drop) h
  | inr (ssrc, known) ↦
      rw (known, drop)
        (drop_ssrc-IsSound ssrc (some id)
          (record g { user_map_backup = delete id g.user_map_backup })
          (record { own = h.own; stamped = h.stamped; ready = h.ready }))
]

-- The part of a round that goes on with the generator writes to an ssrc that is there.
pub bumped-IsSound :
    (r : Round) (x : SsrcData) (timestamp : ℕ) (g : SilenceGenerator)
    → get r.packet.ssrc g.ssrc_data ≡ some x
    → IsSound g
    → IsSound (bump r timestamp g)
unfolding bump
bumped-IsSound r x timestamp g found h =
    let ssrc = r.packet.ssrc in
    let y : SsrcData = record {
      time = r.tlast + packet_interval;
      user = r.user;
      packet = r.packet;
    } in
    record {
      own = λ k z e. ground (arith, get-put ssrc k y g.ssrc_data, h.own k z);
      stamped = λ k e. ground (
        arith,
        get-put ssrc k y g.ssrc_data,
        get-put ssrc k (timestamp + samples_per_frame) g.last_timestamp,
        h.stamped k,
      );
      ready = λ e. ground (
        arith,
        is_empty-put ssrc y g.ssrc_data,
        h.ready e,
        found,
        full_of ssrc x g.ssrc_data found,
      );
    }
