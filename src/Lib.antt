-- ===== src/Lib.antt =====
-- discord-ext-voice-recv: receiving voice from discord.
--
-- A reader thread takes datagrams off the voice socket. `decode` makes RTP and RTCP packets of
-- them, the decryptor opens them, or lets them wait for the DAVE session, the router keeps one
-- decoder per ssrc, and each decoder holds its packets in a jitter buffer, from which it takes
-- them in order, conceals gaps and writes the decoded sound to a sink. The parts and the files
-- that model them:
--
--   discord/ext/voice_recv/utils.py     Wrap: `gap_wrapped`, `add_wrapped`; Waiter: `MultiDataEvent`;
--                                       Bidict; Timers: `LoopTimer`
--   discord/ext/voice_recv/rtp.py       Compare: `_PacketCmpMixin`; Rtp: `RTPPacket`;
--                                       Rtcp: the RTCP packets, `decode`, `is_rtcp`
--   discord/ext/voice_recv/buffer.py    Buffer: `HeapJitterBuffer`, on HeapQueue, the model of the
--                                       standard library's heapq and `sorted`
--   discord/ext/voice_recv/dave.py      Dave: `parse_dave_payload`; Dave/Bridge, Dave/Diagnostics:
--                                       `DaveBridge`
--   discord/ext/voice_recv/opus.py      Decoder: `PacketDecoder`
--   discord/ext/voice_recv/router.py    Router: `PacketRouter`; SinkEvents: `SinkEventRouter`, with the
--                                       walk over the sinks of sinks.py; SinkEvents/Thread: its
--                                       queue and thread
--   discord/ext/voice_recv/silence.py   Silence: `SilenceGenerator` and its thread
--   discord/ext/voice_recv/sinks.py     Sinks: the sinks that write on to another; Sinks/Meta: `SinkMeta`;
--                                       Sinks/Children: `_register_child`; Sinks/Ffmpeg: `FFmpegSink`
--   discord/ext/voice_recv/extras/speechrecognition.py
--                                       Speech: the buffers of `SpeechRecognitionSink`
--   discord/ext/voice_recv/voice_client.py
--                                       Client: the tables of ssrcs of `VoiceRecvClient`; Events: the
--                                       events that it dispatches; Events/Listeners: who gets them;
--                                       Events/History: their record; Listening: `listen` and
--                                       `stop_listening`, with the start and stop of `AudioReader`
--   discord/ext/voice_recv/gateway.py   Events: `hook`, `binary_hook`
--   discord/ext/voice_recv/reader.py    Transport, Decryptor: `PacketDecryptor`, its transport and its
--                                       DAVE layer; Unknown: the packets of ssrcs without a user;
--                                       Reader: `AudioReader`, from a datagram to the router;
--                                       Speaking: `SpeakingTimer`; Nonces, Statistics:
--                                       `ReceiveAnalysisStats`
--
-- A Python object is a record of the attributes that the code reads or writes, and a method is a
-- function from the object before to the object after, with what it returns; an exception is a value
-- of `Result` (Base/Results). Bytes are lists of numbers, dictionaries association lists (Base/Dict).
-- Integers are natural numbers where the code keeps them so, and the integers of Base/Int where it
-- does not. HeapQueue follows the algorithm that heapq documents, so the array it keeps is the
-- buffer's `_buffer`; the comparison of packets is an argument. The router keeps decoders by
-- identity, since a destroyed one may still stand in the waiter while a new one serves its ssrc.
--
-- Fuel: `cleanup_loop` gets the number of items, and each round takes one out; `bede_loop` gets one
-- more than the number of bytes, and each round moves on in them; `read_items` gets the number of
-- bytes, and each item takes two at least; `ranges_loop` gets the number of bytes, and each range
-- takes two. Where the fuel of the last three could run out the answer is `none`, which the theorems
-- exclude; `cleanup_loop` would keep the surplus, which the bound on the items excludes. `uleb_loop`
-- counts the ten rounds that its `shift` allows.
--
-- A packet is one object for the reader, the queues and the router, and code that holds it on writes
-- marks to it; so the decryptor keeps the packets in a store by identity, and a queue holds the
-- identity. What the reader tells the timer and the router is a list of calls, in order.
--
-- Threads: an operation under a lock is one step. Where the order of the steps of several threads
-- matters (Silence, Listening, SinkEvents/Thread, Speaking/Thread, Sinks/Ffmpeg), the threads are a list
-- of steps, in any order.
--
-- Not modelled: the sockets, logging, the websocket, and the codec of discord.py, the boxes of pynacl
-- and the session of davey, which are parameters where they are used. Of the statistics the averages
-- and the layout of the snapshot, of the sinks the one that writes to a file and the start of ffmpeg,
-- the keep-alive thread, the playback and the recognizers of extras, and the example bot are not
-- modelled: most of it passes data on to files, processes, sockets and other libraries.
pub mod Base
pub mod Wrap
pub mod HeapQueue
pub mod Compare
pub mod Buffer
pub mod Rtp
pub mod Rtcp
pub mod Bidict
pub mod Client
pub mod Dave
pub mod Decoder
pub mod Decryptor
pub mod Events
pub mod Listening
pub mod Nonces
pub mod Reader
pub mod Router
pub mod Silence
pub mod SinkEvents
pub mod Sinks
pub mod Speaking
pub mod Speech
pub mod Statistics
pub mod Tests
pub mod Timers
pub mod Transport
pub mod Unknown
pub mod Waiter
