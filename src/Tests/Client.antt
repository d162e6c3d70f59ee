-- ===== src/Tests/Client.antt =====
-- A client with one user.
use discord_ext_voice_recv.Base.{inl, refl, true, some, [], ◌∷◌, arith}
use discord_ext_voice_recv.Base.Dict.{get}
use discord_ext_voice_recv.Client.{audio, video, Client, VideoStreams, remove_ssrc}
use discord_ext_voice_recv.Client.Ssrcs.{Together, Gone, remove_ssrc-forgets}

abbrev known : Client
known = record {
  ssrc_to_id = (7, 42) ∷ (8, 42) ∷ [];
  ssrc_media_kind = (7, audio) ∷ (8, video) ∷ [];
  id_to_ssrc = (42, 7) ∷ [];
  user_stream_ssrcs = (42, 8 ∷ []) ∷ [];
  has_reader = true;
  calls = [];
}

known-Together : Together known
unfolding get
known-Together x = ground arith

abbrev camera : VideoStreams
camera = record {
  audio_ssrc = 7;
  video_ssrc = some 9;
  streams = record { ssrc = 9; type_ = video; rtx_ssrc = some 10 } ∷ [];
}

remove_ssrc-forgets_example : Gone 7 (remove_ssrc known 42)
unfolding get
remove_ssrc-forgets_example =
    remove_ssrc-forgets known 42 7 (λ e. absurd (omega (arith, e))) (inl refl)
