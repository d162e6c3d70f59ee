-- ===== src/Tests/Speech.antt =====
-- Two users speak, and the recognizer of one reads.
use discord_ext_voice_recv.Base.{
  ℕ, ◌≡◌, refl, true, false, none, some, List, [], ◌∷◌, Result, ok, raise, ◌>>=◌, audioop_error,
}
use discord_ext_voice_recv.Base.Bytes.{Bytes}
use discord_ext_voice_recv.Base.Dict.{get, put, delete}
use discord_ext_voice_recv.Speech.{Write, write_each, new_sink, read, drop_user, buffer_of}
use discord_ext_voice_recv.Speech.Whole.{IsWhole, read-write_each-IsWhole}

abbrev said : ℕ → Bytes → Write
said id pcm = record { is_silence = false; user = some id; pcm = pcm }

abbrev silent : Write
silent = record { is_silence = true; user = some 7; pcm = 0 ∷ [] }

abbrev unknown : Write
unknown = record { is_silence = false; user = none; pcm = 9 ∷ [] }

abbrev before : List Write
before = said 7 (1 ∷ 2 ∷ 3 ∷ 4 ∷ []) ∷ said 8 (5 ∷ 6 ∷ 7 ∷ 8 ∷ []) ∷ silent ∷ unknown ∷ []

abbrev later : List (List Write)
later = (said 8 (7 ∷ []) ∷ []) ∷ (said 7 (3 ∷ 4 ∷ 5 ∷ 6 ∷ []) ∷ []) ∷ []

-- The left channel, of whole frames of four bytes.
unfoldable left_channel : Bytes → Result Bytes
left_channel [] = ok []
left_channel (a ∷ b ∷ c ∷ d ∷ l) = left_channel l >>= λ rest. ok (a ∷ b ∷ rest)
left_channel _ = raise audioop_error

read-write_each-IsWhole_example :
    IsWhole left_channel true 7
      (1 ∷ 2 ∷ 3 ∷ 4 ∷ 3 ∷ 4 ∷ 5 ∷ 6 ∷ [])
      (2 ∷ 4 ∷ [])
      later
      (write_each before (new_sink true))
read-write_each-IsWhole_example =
    read-write_each-IsWhole left_channel true 7 before (2 ∷ 4 ∷ []) later

-- A short chunk is given out after the sleeps, in mono.
late_chunk : (read left_channel 7 4 [] (write_each before (new_sink true))).chunk ≡ ok (1 ∷ 2 ∷ [])
unfolding read write_each get put left_channel
late_chunk = refl

-- A chunk that is not of whole frames raises, and its bytes are gone.
lost_chunk :
    let r = read left_channel 7 1 [] (write_each before (new_sink true)) in
    (r.chunk ≡ raise audioop_error) × (buffer_of 7 r.after ≡ 3 ∷ 4 ∷ [])
unfolding read write_each get put left_channel
lost_chunk = (refl, refl)

dropped_buffer : buffer_of 7 (drop_user 7 (write_each before (new_sink true))) ≡ []
unfolding drop_user write_each get put delete
dropped_buffer = refl
