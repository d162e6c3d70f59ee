-- ===== src/Router/Dropped.antt =====
-- The ssrcs whose decoders were destroyed.
use discord_ext_voice_recv.Base.{
  ℕ, zero, suc, ◌-◌, ◌≤◌, ◌≡◌, refl, Bool, true, some, List, [], ◌∷◌, ◌++◌, arith, inl, inr,
  Option-cases, length, drop, length-append,
}
use discord_ext_voice_recv.Base.Dict.{get, contains}
use discord_ext_voice_recv.Rtp.{RtpPacket}
use discord_ext_voice_recv.Decoder.{Codec}
use discord_ext_voice_recv.Router.{Router, append_bounded, feed_rtp, destroy_decoder, store}

contains-drop : (k x : ℕ) (l : List ℕ) → k ≤ length l → contains x (drop k (l ++ x ∷ [])) ≡ true
unfolding contains
contains-drop zero x [] h = ground arith
contains-drop zero x (y ∷ l) h = ground (arith, contains-drop zero x l)
contains-drop (suc k) x [] h = absurd (omega arith)
contains-drop (suc k) x (y ∷ l) h = contains-drop k x l (omega arith)

contains-append_bounded : (l : List ℕ) (x : ℕ) → contains x (append_bounded l x) ≡ true
unfolding append_bounded
contains-append_bounded l x =
    contains-drop (length (l ++ x ∷ []) - 16) x l (omega (arith, length-append l (x ∷ [])))

module _ {D : Type 0} (codec : Codec D) where
  remembers :
      (r : Router D) (ssrc object : ℕ)
      → get ssrc r.decoders ≡ some object
      → (destroy_decoder codec r ssrc).dropped_ssrcs ≡ append_bounded r.dropped_ssrcs ssrc
  unfolding destroy_decoder store
  remembers r ssrc object e = elim (Option-cases (get object r.objects)) [
    | inl absent ↦ ground (arith, e, absent)
    | inr (d, found) ↦ ground (arith, e, found)
  ]

  -- Once the decoder of an ssrc is destroyed, a packet of that ssrc changes nothing in the router,
  -- however many ssrcs were dropped before: no decoder is made for it again.
  feed_rtp-destroy_decoder :
      (wants_opus : Bool) (r : Router D) (p : RtpPacket) (object : ℕ)
      → get p.ssrc r.decoders ≡ some object
      → feed_rtp codec wants_opus (destroy_decoder codec r p.ssrc) p
        ≡ destroy_decoder codec r p.ssrc
  unfolding feed_rtp
  feed_rtp-destroy_decoder wants_opus r p object e =
      let known = contains-append_bounded r.dropped_ssrcs p.ssrc in
      rw (remembers r p.ssrc object e, known) refl
