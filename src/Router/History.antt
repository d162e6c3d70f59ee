-- ===== src/Router/History.antt =====
-- Any history of the router.
use discord_ext_voice_recv.Base.{
  ℕ, ◌-◌, ◌≤◌, ◌<◌, ◌≡◌, refl, sym, subst, Bool, false, Option, none, some, List, [], ◌∷◌, ◌++◌,
  Result, ok, arith, inl, inr, Option-cases, Bool-cases, Result-cases, ◌==◌, length, All,
  length-drop, ◌>>=◌,
}
use discord_ext_voice_recv.Base.Dict.{
  Dict, get, delete, contains, remove, get-put, get-delete, keys,
}
use discord_ext_voice_recv.Rtp.{RtpPacket, rtp_cmp}
use discord_ext_voice_recv.Waiter
use discord_ext_voice_recv.Decoder.{
  Codec, PacketDecoder, new_decoder, destroy, pop_data, Context, VoiceData,
}
use discord_ext_voice_recv.Router.{
  Router, append_bounded, store, push_packet, get_decoder, push_to, feed_rtp, set_user_id,
  destroy_decoder, destroy_each, destroy_all_decoders, serve, serve_all,
}
use discord_ext_voice_recv.Router.Invariant.{
  IsOwn, new_decoder-IsOwn, push_packet-IsOwn, destroy-IsOwn, pop_data-IsOwn, moved-IsOwn,
}

-- Every decoder object is its own (valid, and with packets of its ssrc only); the table names for
-- each ssrc a decoder of that ssrc; new objects are new; and at most 16 dropped ssrcs are remembered.
pub record IsRouter {D : Type 0} (r : Router D) : Type 0 where
  pub owned : (object : ℕ) (d : PacketDecoder D) → get object r.objects ≡ some d → IsOwn d
  pub table :
      (ssrc object : ℕ)
      → get ssrc r.decoders ≡ some object
      → (d : PacketDecoder D) × (get object r.objects ≡ some d) × (d.ssrc ≡ ssrc)
  pub fresh :
      (object : ℕ) (d : PacketDecoder D) → get object r.objects ≡ some d → object < r.next_object
  pub remembered : length r.dropped_ssrcs ≤ 16

abbrev pub empty : (D : Type 0) → Router D
empty D = record {
  decoders = [];
  objects = [];
  next_object = 0;
  waiter = Waiter.empty;
  dropped_ssrcs = [];
}

empty-IsRouter : (D : Type 0) → IsRouter (empty D)
unfolding get
empty-IsRouter D = record {
  owned = λ object d e. cc;
  table = λ ssrc object e. absurd (cc e);
  fresh = λ object d e. absurd (cc e);
  remembered = omega arith;
}

length-append_bounded : (l : List ℕ) (x : ℕ) → length (append_bounded l x) ≤ 16
unfolding append_bounded
length-append_bounded l x = omega (arith, length-drop (length (l ++ x ∷ []) - 16) (l ++ x ∷ []))

length-remove : (x : ℕ) (l : List ℕ) → length (remove x l) ≤ length l
unfolding remove
length-remove x [] = omega arith
length-remove x (y ∷ l) = ground (arith, length-remove x l)

module _ {D : Type 0} (codec : Codec D) where
  store-IsRouter :
      (r : Router D) (object : ℕ) (d d' : PacketDecoder D)
      → get object r.objects ≡ some d
      → d'.ssrc ≡ d.ssrc
      → IsOwn d'
      → IsRouter r
      → IsRouter (store codec r object d')
  unfolding store
  store-IsRouter r object d d' e s o h = record {
    owned = λ k x f. ground (arith, get-put object k d' r.objects, f, o, h.owned k x);
    table = λ ssrc k f.
        let (x, g, t) = h.table ssrc k f in
        elim (Bool-cases (object == k)) [
          | inl same ↦
              let both : x ≡ d = ground (arith, same, e, g) in
              (d', ground (arith, get-put object k d' r.objects, same), ground (arith, s, both, t))
          | inr other ↦ (x, ground (arith, get-put object k d' r.objects, other, g), t)
        ];
    fresh =
        λ k x f. ground (arith, get-put object k d' r.objects, f, h.fresh k x, h.fresh object d e);
    remembered = h.remembered;
  }

  get_decoder-IsRouter :
      (wants_opus : Bool) (r : Router D) (ssrc : ℕ)
      → IsRouter r
      → let (r', object) = get_decoder codec wants_opus r ssrc in
        IsRouter r' × ((d : PacketDecoder D) × (get object r'.objects ≡ some d) × (d.ssrc ≡ ssrc))
  unfolding get_decoder
  get_decoder-IsRouter wants_opus r ssrc h = elim (Option-cases (get ssrc r.decoders)) [
    | inr (object, e) ↦ rw (e, get_decoder) (h, h.table ssrc object e)
    | inl e ↦
        let n = r.next_object in
        let new = new_decoder codec wants_opus ssrc none in
        let own = new_decoder-IsOwn codec wants_opus ssrc in
        let named : new.ssrc ≡ ssrc = unfold new_decoder in refl in
        let other : (k : ℕ) (d : PacketDecoder D) → get k r.objects ≡ some d → (n == k) ≡ false =
          λ k d f. ground (arith, h.fresh k d f) in
        rw (e, get_decoder)
          (
            record {
              owned = λ k d f. ground (arith, get-put n k new r.objects, f, own, h.owned k d);
              table = λ s k f. elim (Bool-cases (ssrc == s)) [
                | inl same ↦ (
                  new,
                  ground (arith, f, get-put ssrc s n r.decoders, same, get-put n k new r.objects),
                  ground (arith, same, named),
                )
                | inr differs ↦
                    let old : get s r.decoders ≡ some k =
                      ground (arith, f, get-put ssrc s n r.decoders, differs) in
                    let (d, g, t) = h.table s k old in
                    (d, ground (arith, get-put n k new r.objects, g, other k d g), t)
              ];
              fresh = λ k d f. ground (arith, get-put n k new r.objects, f, h.fresh k d);
              remembered = h.remembered;
            },
            (new, ground (arith, get-put n n new r.objects), named),
          )
  ]

  feed_rtp-IsRouter :
      (wants_opus : Bool) (r : Router D) (p : RtpPacket)
      → p.sequence < 65536
      → IsRouter r
      → IsRouter (feed_rtp codec wants_opus r p)
  unfolding feed_rtp
  feed_rtp-IsRouter wants_opus r p s h = elim (Bool-cases (contains p.ssrc r.dropped_ssrcs)) [
    | inl dropped ↦ rw dropped h
    | inr live ↦
        let (h', (d, e, t)) = get_decoder-IsRouter wants_opus r p.ssrc h in
        rw (live, push_to, e)
          (store-IsRouter _ _ d (push_packet codec d p) e (unfold push_packet in refl)
            (push_packet-IsOwn codec d p (sym t) s (h'.owned _ d e)) h')
  ]

  forget-IsRouter :
      (r : Router D) (l : List ℕ) (k : Dict ℕ)
      → length l ≤ 16
      → ((ssrc object : ℕ) → get ssrc k ≡ some object → get ssrc r.decoders ≡ some object)
      → IsRouter r
      → IsRouter (record r { dropped_ssrcs = l; decoders = k })
  forget-IsRouter r l k short sub h = record {
    owned = h.owned;
    table = λ ssrc object e. h.table ssrc object (sub ssrc object e);
    fresh = h.fresh;
    remembered = short;
  }

  destroy_decoder-IsRouter :
      (r : Router D) (ssrc : ℕ) → IsRouter r → IsRouter (destroy_decoder codec r ssrc)
  unfolding destroy_decoder
  destroy_decoder-IsRouter r ssrc h = elim (Option-cases (get ssrc r.decoders)) [
    | inl absent ↦ rw (absent, destroy_decoder) h
    | inr (object, e) ↦
        let (d, g, t) = h.table ssrc object e in
        let r' : Router D = record r {
          dropped_ssrcs = append_bounded r.dropped_ssrcs ssrc;
          decoders = delete ssrc r.decoders;
        } in
        let h' : IsRouter r' =
          forget-IsRouter r (append_bounded r.dropped_ssrcs ssrc) (delete ssrc r.decoders)
            (length-append_bounded r.dropped_ssrcs ssrc)
            (λ s k f. ground (arith, get-delete ssrc s r.decoders, f)) h in
        rw (e, g, destroy_decoder)
          (store-IsRouter r' object d (destroy codec d) g (unfold destroy in refl)
            (destroy-IsOwn codec d (h.owned object d g)) h')
  ]

  set_user_id-IsRouter :
      (r : Router D) (ssrc user_id : ℕ) → IsRouter r → IsRouter (set_user_id codec r ssrc user_id)
  unfolding set_user_id store
  set_user_id-IsRouter r ssrc user_id h =
      let l = remove ssrc r.dropped_ssrcs in
      let short : length l ≤ 16 = omega (arith, length-remove ssrc r.dropped_ssrcs, h.remembered) in
      let h' : IsRouter (record r { dropped_ssrcs = l }) =
        forget-IsRouter r l r.decoders short (λ s k f. f) h in
      elim (Option-cases (get ssrc r.decoders)) [
        | inl absent ↦ rw (absent, set_user_id) h'
        | inr (object, e) ↦
            let (d, g, t) = h.table ssrc object e in
            let d' : PacketDecoder D = record d { cached_id = some user_id } in
            let s =
              store-IsRouter r object d d' g refl (moved-IsOwn d d' refl refl (h.owned object d g))
                h in
            rw (e, g, set_user_id)
              (record { owned = s.owned; table = s.table; fresh = s.fresh; remembered = short })
      ]

  serve-IsRouter :
      {U : Type 0}
      → (c : Context U) (r r' : Router D) (object : ℕ) (data_ : Option (VoiceData U))
      → serve codec c r object ≡ ok (r', data_)
      → IsRouter r
      → IsRouter r'
  unfolding serve
  serve-IsRouter c r r' object data_ e h = elim (Option-cases (get object r.objects)) [
    | inl absent ↦ absurd (ground (arith, e, absent))
    | inr (d, g) ↦ (elim (Result-cases (pop_data codec c d)) [
      | inl (x, failed) ↦ absurd (ground (arith, e, g, failed))
      | inr ((d', rest), popped) ↦
          let (o, s) = pop_data-IsOwn codec c d d' rest popped (h.owned object d g) in
          let same : r' ≡ store codec r object d' = ground (arith, e, g, popped) in
          subst (λ (x : Router D). IsRouter x) (sym same) (store-IsRouter r object d d' g s o h)
    ])
  ]

  serve_all-IsRouter :
      {U : Type 0}
      → (c : Context U) (r r' : Router D) (l : List ℕ) (written : List (VoiceData U))
      → serve_all codec c r l ≡ ok (r', written)
      → IsRouter r
      → IsRouter r'
  unfolding serve_all
  serve_all-IsRouter c r r' [] written e h =
      let same : r' ≡ r = ground (arith, e) in subst (λ (x : Router D). IsRouter x) (sym same) h
  serve_all-IsRouter c r r' (object ∷ l) written e h =
      elim (Result-cases (serve codec c r object)) [
        | inl (x, failed) ↦ absurd (ground (arith, e, failed))
        | inr ((r'', data_), served) ↦
            let h' = serve-IsRouter c r r'' object data_ served h in
            elim (Result-cases (serve_all codec c r'' l)) [
              | inl (x, failed) ↦ absurd (ground (arith, e, served, failed))
              | inr ((r''', more), rest) ↦
                  let same : r' ≡ r''' = ground (arith, e, served, rest) in
                  subst (λ (x : Router D). IsRouter x) (sym same)
                    (serve_all-IsRouter c r'' r''' l more rest h')
            ]
      ]

  destroy_each-IsRouter :
      (r : Router D) (l : List ℕ) → IsRouter r → IsRouter (destroy_each codec r l)
  unfolding destroy_each
  destroy_each-IsRouter r [] h = h
  destroy_each-IsRouter r (ssrc ∷ l) h =
      destroy_each-IsRouter (destroy_decoder codec r ssrc) l (destroy_decoder-IsRouter r ssrc h)

-- What happens to a router: the reader feeds it, the voice client names a user or drops an ssrc,
-- and its own thread serves the decoders that wait, under the sink and the client of that time.
pub data Event (U : Type 0) : Type 0 where
  feeds : Bool → RtpPacket → Event U
  names : ℕ → ℕ → Event U
  destroys : ℕ → Event U
  destroys_all : Event U
  serves : Context U → Event U

module _ {D : Type 0} (codec : Codec D) {U : Type 0} where
  unfoldable pub step : Router D → Event U → Result (Router D)
  step r (feeds wants_opus p) = ok (feed_rtp codec wants_opus r p)
  step r (names ssrc user_id) = ok (set_user_id codec r ssrc user_id)
  step r (destroys ssrc) = ok (destroy_decoder codec r ssrc)
  step r destroys_all = ok (destroy_all_decoders codec r)
  step r (serves c) = serve_all codec c r r.waiter.items >>= λ (r', written). ok r'

  unfoldable pub run : Router D → List (Event U) → Result (Router D)
  run r [] = ok r
  run r (x ∷ xs) = step r x >>= λ r'. run r' xs

  abbrev pub Is16BitEvent : Event U → Type 0
  Is16BitEvent (feeds _ p) = p.sequence < 65536
  Is16BitEvent _ = Unit {0}

  step-IsRouter :
      (r r' : Router D) (x : Event U) → Is16BitEvent x → step r x ≡ ok r' → IsRouter r → IsRouter r'
  unfolding step destroy_all_decoders
  step-IsRouter r r' (feeds w p) b e h =
      subst (λ (x : Router D). IsRouter x) (ground (arith, e)) (feed_rtp-IsRouter codec w r p b h)
  step-IsRouter r r' (names s u) b e h =
      subst (λ (x : Router D). IsRouter x) (ground (arith, e)) (set_user_id-IsRouter codec r s u h)
  step-IsRouter r r' (destroys s) b e h =
      subst (λ (x : Router D). IsRouter x) (ground (arith, e))
        (destroy_decoder-IsRouter codec r s h)
  step-IsRouter r r' destroys_all b e h =
      subst (λ (x : Router D). IsRouter x) (ground (arith, e))
        (destroy_each-IsRouter codec r (keys r.decoders) h)
  step-IsRouter r r' (serves c) b e h = elim (Result-cases (serve_all codec c r r.waiter.items)) [
    | inl (x, failed) ↦ absurd (ground (arith, e, failed))
    | inr ((r'', written), served) ↦
        subst (λ (x : Router D). IsRouter x) (ground (arith, e, served))
          (serve_all-IsRouter codec c r r'' r.waiter.items written served h)
  ]

  run-IsRouter :
      (r r' : Router D) (xs : List (Event U))
      → All Is16BitEvent xs
      → run r xs ≡ ok r'
      → IsRouter r
      → IsRouter r'
  unfolding run
  run-IsRouter r r' [] b e h = subst (λ (x : Router D). IsRouter x) (ground (arith, e)) h
  run-IsRouter r r' (x ∷ xs) b e h = elim (Result-cases (step r x)) [
    | inl (y, failed) ↦ absurd (ground (arith, e, failed))
    | inr (r'', done) ↦
        run-IsRouter r'' r' xs b.1 (ground (arith, e, done)) (step-IsRouter r r'' x b.0 done h)
  ]

  -- After any history of a router that starts empty, with 16-bit sequence numbers, if no exception
  -- ended it: every decoder's buffer is valid and holds packets of that decoder's ssrc only, so
  -- that comparing them never raises; the table names for an ssrc a decoder of that ssrc; and at
  -- most 16 dropped ssrcs are remembered.
  pub run-empty-IsRouter :
      (r : Router D) (xs : List (Event U))
      → All Is16BitEvent xs
      → run (empty D) xs ≡ ok r
      → IsRouter r
  run-empty-IsRouter r xs b e = run-IsRouter (empty D) r xs b e (empty-IsRouter D)
