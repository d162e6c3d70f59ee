-- ===== src/SinkEvents/Thread.antt =====
-- The queue and the thread of `SinkEventRouter`, and `feed_rtcp` of `PacketRouter`, which queues an
-- event. Other threads queue events, set the sink and tell the thread to end between any two steps of
-- it. An exception of a listener is caught, so that nothing raises out of `_do_run`.
pub mod Delivery
pub mod Drained
use discord_ext_voice_recv.Base.{ℕ, Bool, true, false, List, [], ◌∷◌, ◌++◌, if◌then◌else◌, map}
use discord_ext_voice_recv.SinkEvents.{Sink, SinkEventRouter, new_router, set_sink, called}

-- An event: its name and its arguments.
abbrev pub Event : Type 0
Event = ℕ × ℕ

-- A listener and what it is called with.
abbrev pub Call : Type 0
Call = (ℕ × ℕ) × ℕ

-- Where the thread is: before the test of `_end_thread`, in `get`, or behind the loop.
pub data Place : Type 0 where
  testing getting ended : Place

pub record EventThread : Type 0 where
  pub router : SinkEventRouter
  pub buffer : List Event
  pub end_thread : Bool
  pub place : Place
  pub calls : List Call

abbrev pub new_thread : Sink → EventThread
new_thread s = record {
  router = new_router s;
  buffer = [];
  end_thread = false;
  place = testing;
  calls = [];
}

abbrev pub calls_of : Event → List (ℕ × ℕ) → List Call
calls_of (name, args) listeners = map (λ f. (f, args)) listeners

unfoldable pub dispatch : Event → EventThread → EventThread
dispatch e t = record t { buffer = t.buffer ++ e ∷ [] }

-- The name of 'rtcp_packet', of which the packet and the guild are the arguments.
abbrev pub rtcp_packet : ℕ
rtcp_packet = 0

unfoldable pub feed_rtcp : ℕ → EventThread → EventThread
unfolding dispatch
feed_rtcp packet t = dispatch (rtcp_packet, packet) t

-- `_dispatch_to_listeners` on the event that `get` returned. `get` fails after half a second in which
-- nothing was queued.
unfoldable pub take_event : List Event → EventThread → EventThread
take_event [] t = record t { place = testing }
take_event (e ∷ rest) t = record t {
  buffer = rest;
  place = testing;
  calls = t.calls ++ calls_of e (called t.router e.0);
}

-- A step of `_do_run`.
unfoldable pub advance : Place → EventThread → EventThread
unfolding take_event
advance testing t = record t { place = if t.end_thread then ended else getting }
advance getting t = take_event t.buffer t
advance ended t = t

pub data Step : Type 0 where
  dispatches : Event → Step
  feeds_rtcp : ℕ → Step
  sets_sink : Sink → Step
  stops runs : Step

unfoldable pub step : Step → EventThread → EventThread
unfolding dispatch feed_rtcp advance
step (dispatches e) t = dispatch e t
step (feeds_rtcp packet) t = feed_rtcp packet t
step (sets_sink s) t = record t { router = set_sink t.router s }
step stops t = record t { end_thread = true }
step runs t = advance t.place t

unfoldable pub run : List Step → EventThread → EventThread
unfolding step
run [] t = t
run (s ∷ l) t = run l (step s t)
