-- ===== src/Examples.antt =====
-- Tests of the model on concrete inputs, and each theorem at an input that meets its hypotheses.
mod Alternatives
mod Layout
mod Many
mod Messages
mod Streams
mod Connections
mod Fields
mod Sockets
mod Transport
