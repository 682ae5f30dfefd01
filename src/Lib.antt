-- ===== src/Lib.antt =====
-- libkzr, a C++17 library of the 9P protocol: messages, their encoding on a stream, and connections
-- that carry them.
--
-- The parts and their files. A message is encoded onto a MessageStream, whose content a Connection
-- frames with its length and hands to the functions of a file descriptor, which a socket supplies.
--   Prelude, Prelude/*       library names and lemmas on lists, bytes, bits and tests
--   Outcome                  how a call ends: `returns`, `throws` with what Exception.h carries, or
--                            `undefined`; an `Action` also gives back the object it changed
--   StringStream, */*        std::stringstream, as the C++ standard documents what the code uses: the
--                            bytes read (`taken`) and left (`unread`), the put position, three flags
--   Exception, Exception/*   Exception.h, Exception.cc: the text of an exception
--   Core, Core/Fields        Core.h: bit fields of an unsigned integer
--   Operations               Operations.h: the codes of the messages, their kinds and classes
--   MessageStream            MessageStream.h, MessageStream.cc: << and >> of numbers, strings and
--                            vectors, and `write`, `read`, `peek`, `str`, `reset`
--   Message/Parts            Operations.cc, and of Message.h and Message.cc: Qid, Stat, MessageHeader
--                            and the data of reads and writes
--   Message/{Session,File,Metadata}   the messages of Message.h, in its three sections
--   Message/Fresh            the objects as their constructors leave them
--   Message/Accessors        tests of Message.h, and setters as a client uses them, up to the encoded
--                            message; */Setters has the setters, and */Build the messages that are made by them
--   Message/Layout           a message as its parts, in the order in which they are encoded
--   Message/Partial          what a refused part of a message leaves in the stream
--   Request, Response        Interaction.h, Interaction.cc: the two variants and their << and >>
--   Interaction              the variant of both; Interaction/Sequence is a caller of several >>, and
--                            Interaction/Transport one that encodes, writes, and decodes; Interaction/Bound
--                            has the types bound to the kinds, Interaction/Tagged the operation of a variant,
--                            Interaction/Forward what is encoded after it was decoded,
--                            Interaction/Errors every exception of `>>`, and Interaction/Unambiguous
--                            the comparison of messages by their encodings
--   Connection               Connection.h, Connection.cc: `write` and `read`; Connection/Channel is a
--                            connection that takes all it is handed, as a list of messages
--   FileHandleConnection     FileHandleConnection.h, FileHandleConnection.cc
--   SocketConnection         SocketConnection.h, SocketConnection.cc: `dial` and `announce`; Kinds has
--                            the domains and types of sockets
--   UnixDomainSocketConnection   UnixDomainSocketConnection.h, UnixDomainSocketConnection.cc
--   Examples                 tests, and each result at a concrete input
-- In each part, Wire is an independent description of the bytes that a value is and of the values that
-- fit (`IsX`), Encode, Decode and Codec relate the code to it, Preserves says what a decoder leaves
-- alone, Bounded which values it gives where the stream holds bytes, and Quiet whether it throws.
-- Prefix says whether one encoding can be the beginning of another.
-- Layout relates an encoder to the parts that it writes, up to the first that is over its limit.
--
-- Names are the source's in snake_case. A method `T::encode` is `encode_t`; a method `T::decode` is
-- `decode_t` and takes the object it is called on, so that what it leaves of it is visible. An overload
-- has the name of its type (`build_u32`), and what follows a test of the code, where it is long, is a
-- function of its own (`after_header`, `finish_read`).
--
-- The choices of the model:
--   * A number is a natural number, and a width is a hypothesis or a `% 2 ^ w` as the code converts. An
--     Operation is its byte, since `peek` and `>>` make one of any byte.
--   * A std::string or a std::vector of bytes is a list of bytes. Decoding into a string goes over the
--     front of what it holds, as the code reserves room and does not resize (`overlay`).
--   * `ArgumentOrder` is the order in which the compiler evaluates the two calls in
--     `build(decode<uint32_t>(), decode<uint32_t>())`, which C++ leaves open.
--   * `undefined` is undefined behaviour: a local array used where a short read did not fill it, and
--     SUN_LEN on a path without a terminator. It is never given a value, and a sequence of calls on a
--     socket ends where one of them is.
--   * An initial value that C++ leaves indeterminate (a number of a message that was just created) is 0
--     in `fresh_t`; every decoder of such a message assigns it before it is used.
--   * rawWrite and rawRead, the system calls, performDial and performAnnounce for a socket in general,
--     and the capacity of a std::string are parameters, as functions of a state of the world.
--   * The values of SocketDomain and SocketType are constants of <sys/socket.h>, a parameter; what
--     socket(2) says of the flags is IsSocketConstants.
-- Every loop of the code runs over a list or a length that was read, so nothing diverges. Fuel stands in
-- two places outside the code: Connection/Channel takes frames off a text, with its length as fuel, and
-- Exception writes a number in decimal, with the number as fuel.
--
-- Not modelled: the getters, which copy a member; the operators << and >> that only call a method;
-- AccessPermissions.h, which declares nothing; the markers in Operations.h against copying and moving;
-- memory that runs out.
pub mod Prelude
pub mod Core
pub mod Outcome
pub mod Exception
pub mod Operations
pub mod StringStream
pub mod MessageStream
pub mod Message
pub mod Request
pub mod Response
pub mod Interaction
pub mod Connection
pub mod FileHandleConnection
pub mod SocketConnection
pub mod UnixDomainSocketConnection
pub mod Examples
