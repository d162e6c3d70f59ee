-- ===== src/Client/Ssrcs.antt =====
-- The tables of ssrcs stay together, and a user who leaves is forgotten.
use discord_ext_voice_recv.Base.{
  ℕ, ◌≡◌, ◌≢◌, ◌⊎◌, refl, sym, subst, Bool, true, false, Option, none, some, List, [], ◌∷◌, ◌++◌,
  arith, ◌==◌, if◌then◌else◌, Bool-cases, Option-cases, inl, inr, is_some,
}
use discord_ext_voice_recv.Base.Dict.{get, delete, contains, get-put, get-delete}
use discord_ext_voice_recv.Client.{
  Kind, drop_ssrc, audio, video, rtx, Client, Stream, VideoStreams, add_ssrc, forget, add_optional,
  add_streams, forget_stale, streams_of, update_video_ssrcs, forget_streams, forget_own,
  remove_ssrc, stream_kind,
}

-- An ssrc has a user exactly when it has a kind.
abbrev pub Together : Client → Type 0
Together c = (ssrc : ℕ) → is_some (get ssrc c.ssrc_to_id) ≡ is_some (get ssrc c.ssrc_media_kind)

add_ssrc-Together : (c : Client) (u s : ℕ) (k : Kind) → Together c → Together (add_ssrc c u s k)
unfolding add_ssrc
add_ssrc-Together c u s k h x =
    ground (arith, h x, get-put s x u c.ssrc_to_id, get-put s x k c.ssrc_media_kind)

forget-Together : (c : Client) (s : ℕ) → Together c → Together (forget c s)
unfolding forget
forget-Together c s h x =
    ground (arith, h x, get-delete s x c.ssrc_to_id, get-delete s x c.ssrc_media_kind)

either-Together :
    (b : Bool) (c d : Client) → Together c → Together d → Together (if b then c else d)
either-Together true c d h k = h
either-Together false c d h k = k

first-Together :
    (b : Bool) (o p : Client × List ℕ)
    → Together o.0
    → Together p.0
    → Together (if b then o else p).0
first-Together true o p h k = h
first-Together false o p h k = k

add_optional-Together :
    (c : Client) (u : ℕ) (s : Option ℕ) (k : Kind) → Together c → Together (add_optional c u s k).0
unfolding add_optional
add_optional-Together c u none k h = h
add_optional-Together c u (some s) k h =
    first-Together (s == 0) (c, []) (add_ssrc c u s k, s ∷ []) h (add_ssrc-Together c u s k h)

add_streams-Together :
    (c : Client) (u : ℕ) (l : List Stream) → Together c → Together (add_streams c u l).0
unfolding add_streams
add_streams-Together c u [] h = h
add_streams-Together c u (s ∷ l) h =
    let c' = add_ssrc c u s.ssrc (stream_kind s.type_) in
    add_streams-Together (add_optional c' u s.rtx_ssrc rtx).0 u l (
      add_optional-Together c' u s.rtx_ssrc rtx
        (add_ssrc-Together c u s.ssrc (stream_kind s.type_) h))

forget_stale-Together :
    (c : Client) (u : ℕ) (current l : List ℕ) → Together c → Together (forget_stale c u current l)
unfolding forget_stale
forget_stale-Together c u current [] h = h
forget_stale-Together c u current (s ∷ l) h =
    let skip = forget_stale-Together c u current l h in
    either-Together (contains s current) _ _ skip (
      either-Together _ _ _ skip
        (forget_stale-Together (forget c s) u current l (forget-Together c s h)))

forget_streams-Together :
    (c : Client) (own : Option ℕ) (l : List ℕ) → Together c → Together (forget_streams c own l)
unfolding forget_streams
forget_streams-Together c own [] h = h
forget_streams-Together c own (s ∷ l) h =
    either-Together _ _ _ (forget_streams-Together c own l h)
      (forget_streams-Together (forget c s) own l (forget-Together c s h))

forget_own-Together : (c : Client) (own : Option ℕ) → Together c → Together (forget_own c own)
unfolding forget_own
forget_own-Together c none h = h
forget_own-Together c (some s) h =
    let called : Client = record c {
      calls = if c.has_reader then c.calls ++ drop_ssrc s ∷ [] else c.calls;
    } in
    either-Together (s == 0) c (forget called s) h (forget-Together called s h)

-- `_add_ssrc`, `_update_video_ssrcs` and `_remove_ssrc` keep the tables of users and of kinds
-- together: an ssrc has a user exactly when it has a kind.
tables-Together :
    (c : Client) (user_id ssrc : ℕ) (kind : Kind) (v : VideoStreams)
    → Together c
    → Together (add_ssrc c user_id ssrc kind)
      × Together (update_video_ssrcs c user_id v)
      × Together (remove_ssrc c user_id)
unfolding update_video_ssrcs remove_ssrc
tables-Together c u ssrc kind v h =
    let c1 = add_ssrc c u v.audio_ssrc audio in
    let h1 = add_ssrc-Together c u v.audio_ssrc audio h in
    let c2 = (add_optional c1 u v.video_ssrc video).0 in
    let h2 = add_optional-Together c1 u v.video_ssrc video h1 in
    let own = get u c.id_to_ssrc in
    let d1 : Client = record c { id_to_ssrc = delete u c.id_to_ssrc } in
    let d2 = forget_own d1 own in
    let d3 : Client = record d2 { user_stream_ssrcs = delete u d2.user_stream_ssrcs } in
    (
      add_ssrc-Together c u ssrc kind h,
      forget_stale-Together _ u _ _ (add_streams-Together c2 u v.streams h2),
      forget_streams-Together d3 own (streams_of d2 u) (forget_own-Together d1 own h),
    )

-- Nobody is known by the ssrc.
abbrev pub Gone : ℕ → Client → Type 0
Gone x c = get x c.ssrc_to_id ≡ none

forget-Gone : (c : Client) (s x : ℕ) → Gone x c → Gone x (forget c s)
unfolding forget
forget-Gone c s x h = ground (arith, h, get-delete s x c.ssrc_to_id)

forget-Gone_self : (c : Client) (x : ℕ) → Gone x (forget c x)
unfolding forget
forget-Gone_self c x = ground (arith, get-delete x x c.ssrc_to_id)

either-Gone : (x : ℕ) (b : Bool) (c d : Client) → Gone x c → Gone x d → Gone x (if b then c else d)
either-Gone x true c d h k = h
either-Gone x false c d h k = k

forget_streams-Gone :
    (c : Client) (own : Option ℕ) (l : List ℕ) (x : ℕ) → Gone x c → Gone x (forget_streams c own l)
unfolding forget_streams
forget_streams-Gone c own [] x h = h
forget_streams-Gone c own (s ∷ l) x h =
    either-Gone x _ _ _ (forget_streams-Gone c own l x h)
      (forget_streams-Gone (forget c s) own l x (forget-Gone c s x h))

forget_streams-member :
    (c : Client) (own : Option ℕ) (l : List ℕ) (x : ℕ)
    → contains x l ≡ true
    → (own ≡ some x → Gone x c)
    → Gone x (forget_streams c own l)
unfolding forget_streams contains
forget_streams-member c own [] x e h = cc
forget_streams-member c own (s ∷ l) x e h =
    let dropped = forget_streams-Gone (forget c s) own l x in
    let gone : s ≡ x → Gone x (forget c s) =
      λ p. subst (λ (t : ℕ). Gone x (forget c t)) (sym p) (forget-Gone_self c x) in
    let skipped = forget_streams-Gone c own l x in
    let skip = forget_streams-member c own l x in
    let drop_ = forget_streams-member (forget c s) own l x in
    let older : (own ≡ some x → Gone x (forget c s)) = λ p. forget-Gone c s x (h p) in
    elim (Bool-cases (s == x)) [
      | inl same ↦
          let p : s ≡ x = ground (arith, same) in
          elim (Option-cases own) [
            | inl q ↦ ground (arith, q, dropped (gone p))
            | inr (o, q) ↦ (elim (Bool-cases (s == o)) [
              | inl is_own ↦
                  let r : own ≡ some x = ground (arith, q, is_own, p) in
                  ground (arith, q, is_own, skipped (h r))
              | inr other ↦ ground (arith, q, other, dropped (gone p))
            ])
          ]
      | inr differs ↦
          let later : contains x l ≡ true = ground (arith, e, differs) in
          either-Gone x _ _ _ (skip later h) (drop_ later older)
    ]

forget_own-Gone : (c : Client) (x : ℕ) → x ≢ 0 → Gone x (forget_own c (some x))
unfolding forget_own
forget_own-Gone c x h =
    let nonzero : (x == 0) ≡ false = ground (arith, h) in
    let called : Client = record c {
      calls = if c.has_reader then c.calls ++ drop_ssrc x ∷ [] else c.calls;
    } in
    rw nonzero (forget-Gone_self called x)

streams-forget_own :
    (c : Client) (own : Option ℕ) → (forget_own c own).user_stream_ssrcs ≡ c.user_stream_ssrcs
unfolding forget_own forget
streams-forget_own c none = refl
streams-forget_own c (some x) = ground arith

-- After `_remove_ssrc` neither the audio ssrc that the user had, if it is not 0, nor any ssrc of the
-- user's streams is known to be anybody's.
pub remove_ssrc-forgets :
    (c : Client) (user_id ssrc : ℕ)
    → ssrc ≢ 0
    → (get user_id c.id_to_ssrc ≡ some ssrc) ⊎ (contains ssrc (streams_of c user_id) ≡ true)
    → Gone ssrc (remove_ssrc c user_id)
unfolding remove_ssrc
remove_ssrc-forgets c u x nonzero h =
    let own = get u c.id_to_ssrc in
    let d1 : Client = record c { id_to_ssrc = delete u c.id_to_ssrc } in
    let d2 = forget_own d1 own in
    let d3 : Client = record d2 { user_stream_ssrcs = delete u d2.user_stream_ssrcs } in
    let gone : (own ≡ some x → Gone x d3) = λ p.
      subst (λ (o : Option ℕ). Gone x (forget_own d1 o)) (sym p) (forget_own-Gone d1 x nonzero) in
    elim h [
      | inl p ↦ forget_streams-Gone d3 own (streams_of d2 u) x (gone p)
      | inr e ↦
          let same : streams_of d2 u ≡ streams_of c u = ground (arith, streams-forget_own d1 own) in
          let listed : contains x (streams_of d2 u) ≡ true =
            subst (λ (l : List ℕ). contains x l ≡ true) (sym same) e in
          forget_streams-member d3 own (streams_of d2 u) x listed gone
    ]
