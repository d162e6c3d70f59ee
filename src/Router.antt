-- ===== src/Router.antt =====
-- discord/ext/voice_recv/router.py, `PacketRouter`. Decoders are objects with an identity: the table
-- of decoders and the waiter name them by it, and a destroyed decoder may still stand in the waiter.
-- Each operation holds the router's lock, so it is one step; `write` of the sink is the list of what
-- is handed to it.
pub mod Invariant
pub mod History
pub mod Dropped
use discord_ext_voice_recv.Base.{
  ℕ, ◌+◌, ◌-◌, Bool, true, false, Option, none, some, List, [], ◌∷◌, ◌++◌, Result, ok, raise,
  key_error, ◌>>=◌, if◌then◌else◌, length, drop, is_some,
}
use discord_ext_voice_recv.Base.Dict.{Dict, get, put, delete, keys, contains, remove}
use discord_ext_voice_recv.Waiter.{Waiter, register, unregister}
use discord_ext_voice_recv.Rtp.{RtpPacket, rtp_cmp}
use discord_ext_voice_recv.Buffer.{push, peek}
use discord_ext_voice_recv.Decoder.{
  Codec, PacketDecoder, new_decoder, destroy, pop_data, Context, VoiceData,
}

pub record Router (D : Type 0) : Type 0 where
  -- `decoders`: the object of an ssrc.
  pub decoders : Dict ℕ
  pub objects : Dict (PacketDecoder D)
  pub next_object : ℕ
  pub waiter : Waiter
  pub dropped_ssrcs : List ℕ

-- `deque(maxlen=16).append`
unfoldable pub append_bounded : List ℕ → ℕ → List ℕ
append_bounded l x = let l' = l ++ x ∷ [] in drop (length l' - 16) l'

module _ {D : Type 0} (codec : Codec D) where
  -- The object with its new state, and `_flag_ready_state`.
  unfoldable pub store : Router D → ℕ → PacketDecoder D → Router D
  store r object d = record r {
    objects = put object d r.objects;
    waiter =
        if is_some (peek d.buffer false)
        then register r.waiter object
        else unregister r.waiter object;
  }

  unfoldable pub push_packet : PacketDecoder D → RtpPacket → PacketDecoder D
  push_packet d p = record d { buffer = (push d.buffer p).0 }

  -- `get_decoder`, for a sink that does or does not want Opus.
  unfoldable pub get_decoder : Bool → Router D → ℕ → Router D × ℕ
  get_decoder wants_opus r ssrc = elim (get ssrc r.decoders) [
    | some object ↦ (r, object)
    | none ↦ (
      record r {
        decoders = put ssrc r.next_object r.decoders;
        objects = put r.next_object (new_decoder codec wants_opus ssrc none) r.objects;
        next_object = r.next_object + 1;
      },
      r.next_object,
    )
  ]

  -- `decoder.push_packet` on the object.
  unfoldable pub push_to : Router D → ℕ → RtpPacket → Router D
  unfolding store push_packet
  push_to r object p = elim (get object r.objects) [
    | none ↦ r
    | some d ↦ store r object (push_packet d p)
  ]

  unfoldable pub feed_rtp : Bool → Router D → RtpPacket → Router D
  unfolding get_decoder push_to
  feed_rtp wants_opus r p =
      if contains p.ssrc r.dropped_ssrcs
      then r
      else let (r', object) = get_decoder wants_opus r p.ssrc in push_to r' object p

  unfoldable pub set_user_id : Router D → ℕ → ℕ → Router D
  set_user_id r ssrc user_id =
      let r' : Router D = record r { dropped_ssrcs = remove ssrc r.dropped_ssrcs } in
      elim (get ssrc r.decoders) [
        | none ↦ r'
        | some object ↦ (elim (get object r.objects) [
          | none ↦ r'
          | some d ↦ record r' {
            objects = put object (record d { cached_id = some user_id }) r.objects;
          }
        ])
      ]

  unfoldable pub destroy_decoder : Router D → ℕ → Router D
  unfolding store append_bounded
  destroy_decoder r ssrc = elim (get ssrc r.decoders) [
    | none ↦ r
    | some object ↦
        let r' : Router D = record r {
          decoders = delete ssrc r.decoders;
          dropped_ssrcs = append_bounded r.dropped_ssrcs ssrc;
        } in
        elim (get object r.objects) [ none ↦ r' | some d ↦ store r' object (destroy codec d) ]
  ]

  unfoldable pub destroy_each : Router D → List ℕ → Router D
  unfolding destroy_decoder
  destroy_each r [] = r
  destroy_each r (ssrc ∷ rest) = destroy_each (destroy_decoder r ssrc) rest

  unfoldable pub destroy_all_decoders : Router D → Router D
  unfolding destroy_each
  destroy_all_decoders r = destroy_each r (keys r.decoders)

  -- One round of the `for` in `_do_run`: what is written to the sink, if anything.
  unfoldable pub serve :
      {U : Type 0} → Context U → Router D → ℕ → Result (Router D × Option (VoiceData U))
  unfolding store
  serve c r object = elim (get object r.objects) [
    | none ↦ raise key_error
    | some d ↦ pop_data codec c d >>= λ (d', (data_, stats)). ok (store r object d', data_)
  ]

  -- The loop over a copy of the waiter's items.
  unfoldable pub serve_all :
      {U : Type 0} → Context U → Router D → List ℕ → Result (Router D × List (VoiceData U))
  unfolding serve
  serve_all c r [] = ok (r, [])
  serve_all c r (object ∷ rest) = do
    (r', data_) ← serve c r object
    (r'', written) ← serve_all c r' rest
    ok (r'', elim data_ [ none ↦ written | some v ↦ v ∷ written ])
