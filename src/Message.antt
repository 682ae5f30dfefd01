-- ===== src/Message.antt =====
-- Message.h and Message.cc: the classes of messages. Each is a record of its members, with what it
-- inherits as fields too, and has an encoder and a decoder. A decoder takes the object that it
-- decodes into and returns it changed: a std::string and a std::vector keep part of their old value.
pub mod Fresh
pub mod RoundTrip
pub mod Operation
pub mod Layout
pub mod Partial
pub mod Accessors
pub mod Parts
pub mod Session
pub mod File
pub mod Metadata
