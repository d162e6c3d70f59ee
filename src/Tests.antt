-- ===== src/Tests.antt =====
-- Runs of the code on concrete packets, and the theorems at them.
mod Data
mod Buffer
mod Rtp
mod Rtcp
mod Dave
mod Decoder
mod Client
mod Unknown
mod Transport
mod Decryptor
mod Reader
mod Bidict
mod Speaking
mod Speech
mod Events
mod SinkEvents
mod Silence
mod Sinks
mod Listening
mod Statistics
mod Ffmpeg
