-- ===== src/Client.antt =====
-- discord/ext/voice_recv/voice_client.py, the tables of `VoiceRecvClient` that say whose an ssrc is.
-- The calls on the reader are listed in the order in which they are made; a set is a list of which
-- only the members matter. An id or ssrc that is missing or 0 is false as a condition.
pub mod Ssrcs
use discord_ext_voice_recv.Base.{
  ℕ, Bool, true, false, ◌&&◌, Option, none, some, List, [], ◌∷◌, ◌++◌, ◌==◌, if◌then◌else◌,
}
use discord_ext_voice_recv.Base.Dict.{Dict, get, put, delete, contains}

pub data Kind : Type 0 where
  audio video screen test rtx unknown : Kind

pub data ReaderCall : Type 0 where
  set_user_id : ℕ → ℕ → ReaderCall
  flush_pending : ℕ → ReaderCall
  drop_ssrc : ℕ → ReaderCall

pub record Client : Type 0 where
  pub ssrc_to_id : Dict ℕ
  pub ssrc_media_kind : Dict Kind
  pub id_to_ssrc : Dict ℕ
  pub user_stream_ssrcs : Dict (List ℕ)
  pub has_reader : Bool
  pub calls : List ReaderCall

pub record Stream : Type 0 where
  pub ssrc : ℕ
  pub type_ : Kind
  pub rtx_ssrc : Option ℕ

pub record VideoStreams : Type 0 where
  pub audio_ssrc : ℕ
  pub video_ssrc : Option ℕ
  pub streams : List Stream

abbrev pub is_audio : Kind → Bool
is_audio audio = true
is_audio _ = false

-- `_add_ssrc`
unfoldable pub add_ssrc : Client → ℕ → ℕ → Kind → Client
add_ssrc c user_id ssrc kind = if ssrc == 0 then c else record c {
  ssrc_to_id = put ssrc user_id c.ssrc_to_id;
  ssrc_media_kind = put ssrc kind c.ssrc_media_kind;
  id_to_ssrc = if is_audio kind then put user_id ssrc c.id_to_ssrc else c.id_to_ssrc;
  calls =
      if is_audio kind && c.has_reader
      then c.calls ++ set_user_id ssrc user_id ∷ flush_pending ssrc ∷ []
      else c.calls;
}

-- `self._ssrc_to_id.pop(ssrc, None)` and the same for the kind.
unfoldable pub forget : Client → ℕ → Client
forget c ssrc = record c {
  ssrc_to_id = delete ssrc c.ssrc_to_id;
  ssrc_media_kind = delete ssrc c.ssrc_media_kind;
}

abbrev pub stream_kind : Kind → Kind
stream_kind screen = screen
stream_kind test = test
stream_kind _ = video

-- An optional ssrc: what is added to `current`, and the client with it.
unfoldable pub add_optional : Client → ℕ → Option ℕ → Kind → Client × List ℕ
unfolding add_ssrc
add_optional c user_id none kind = (c, [])
add_optional c user_id (some ssrc) kind =
    if ssrc == 0 then (c, []) else (add_ssrc c user_id ssrc kind, ssrc ∷ [])

unfoldable pub add_streams : Client → ℕ → List Stream → Client × List ℕ
unfolding add_optional
add_streams c user_id [] = (c, [])
add_streams c user_id (s ∷ rest) =
    let c' = add_ssrc c user_id s.ssrc (stream_kind s.type_) in
    let (c'', rtx_ssrcs) = add_optional c' user_id s.rtx_ssrc rtx in
    let (c''', more) = add_streams c'' user_id rest in (c''', s.ssrc ∷ (rtx_ssrcs ++ more))

-- The loop over `previous - current`.
unfoldable pub forget_stale : Client → ℕ → List ℕ → List ℕ → Client
unfolding forget
forget_stale c user_id current [] = c
forget_stale c user_id current (ssrc ∷ rest) =
    let is_own : Bool = elim (get user_id c.id_to_ssrc) [ none ↦ false | some own ↦ ssrc == own ] in
    let skip = forget_stale c user_id current rest in
    let drop_ = forget_stale (forget c ssrc) user_id current rest in
    if contains ssrc current then skip else if is_own then skip else drop_

abbrev pub streams_of : Client → ℕ → List ℕ
streams_of c user_id = elim (get user_id c.user_stream_ssrcs) [ none ↦ [] | some l ↦ l ]

unfoldable pub update_video_ssrcs : Client → ℕ → VideoStreams → Client
unfolding add_streams forget_stale
update_video_ssrcs c user_id v =
    let c1 = add_ssrc c user_id v.audio_ssrc audio in
    let (c2, first) = add_optional c1 user_id v.video_ssrc video in
    let (c3, more) = add_streams c2 user_id v.streams in
    let current = first ++ more in
    let c4 = forget_stale c3 user_id current (streams_of c3 user_id) in
    record c4 { user_stream_ssrcs = put user_id current c4.user_stream_ssrcs }

-- The loop over the streams in `_remove_ssrc`.
unfoldable pub forget_streams : Client → Option ℕ → List ℕ → Client
unfolding forget
forget_streams c own [] = c
forget_streams c own (ssrc ∷ rest) =
    let is_own : Bool = elim own [ none ↦ false | some x ↦ ssrc == x ] in
    let skip = forget_streams c own rest in
    let drop_ = forget_streams (forget c ssrc) own rest in if is_own then skip else drop_

-- The audio ssrc in `_remove_ssrc`.
unfoldable pub forget_own : Client → Option ℕ → Client
unfolding forget
forget_own c none = c
forget_own c (some ssrc) =
    let c' : Client = record c {
      calls = if c.has_reader then c.calls ++ drop_ssrc ssrc ∷ [] else c.calls;
    } in
    if ssrc == 0 then c else forget c' ssrc

unfoldable pub remove_ssrc : Client → ℕ → Client
unfolding forget_own forget_streams
remove_ssrc c user_id =
    let own = get user_id c.id_to_ssrc in
    let c1 : Client = record c { id_to_ssrc = delete user_id c.id_to_ssrc } in
    let c2 = forget_own c1 own in
    let previous = streams_of c2 user_id in
    let c3 : Client = record c2 { user_stream_ssrcs = delete user_id c2.user_stream_ssrcs } in
    forget_streams c3 own previous

unfoldable pub get_ssrc_media_kind : Client → ℕ → Kind
get_ssrc_media_kind c ssrc = elim (get ssrc c.ssrc_media_kind) [ none ↦ unknown | some k ↦ k ]
