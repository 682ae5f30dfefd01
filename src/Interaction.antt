-- ===== src/Interaction.antt =====
-- Interaction.h and Interaction.cc: the variant of Request and Response, and how one goes over a stream.
pub mod Wire
pub mod Encode
pub mod Layout
pub mod Decode
pub mod RoundTrip
pub mod Texts
pub mod Arrival
pub mod Sequence
pub mod Transport
pub mod Refusals
pub mod Prefix
pub mod Unambiguous
pub mod Build
pub mod Quiet
pub mod Errors
pub mod CutOff
pub mod Bound
pub mod Tagged
pub mod Preserves
pub mod Forward
pub mod Bounded
use libkzr.Prelude.{ℕ, [], Bool, true, false, Option, none, some, if◌then◌else◌}
use libkzr.Outcome.{
  Outcome, returns, throws, undefined, pure, throw, continue, ◌>>=◌, undefined_request,
  undefined_response, illegal_type, bad_state,
}
use libkzr.Operations.{
  ConceptualOperation, Operation, request, response, convert, is_request, version, auth, attach,
  error, flush, walk, open_, create, read, write, clunk, remove, stat, wstat,
}
use libkzr.Operations
use libkzr.Request.{
  Request, blank_request, version_request, auth_request, attach_request, error_request,
  flush_request, walk_request, open_request, create_request, read_request, write_request,
  clunk_request, remove_request, stat_request, wstat_request, fresh_request, encode_request,
  decode_request_kind, decode_request_after, decode_request,
}
use libkzr.Response.{
  Response, blank_response, version_response, auth_response, attach_response, error_response,
  flush_response, walk_response, open_response, create_response, read_response, write_response,
  clunk_response, remove_response, stat_response, wstat_response, fresh_response, encode_response,
  decode_response_kind, decode_response_after, decode_response,
}
use libkzr.StringStream.{StringStream}
use libkzr.MessageStream
use libkzr.MessageStream.{OnStream, ArgumentOrder}
use libkzr.Message.Parts.{MessageHeader, fresh_header, encode_header, decode_header}
use libkzr.Message.Fresh.{
  fresh_attach_request, fresh_attach_response, fresh_authentication_request,
  fresh_authentication_response, fresh_create_request, fresh_error_response, fresh_fid_request,
  fresh_flush_request, fresh_open_or_create_response, fresh_open_request, fresh_read_request,
  fresh_read_response, fresh_stat_response, fresh_version_message, fresh_wstat_request,
  fresh_walk_request, fresh_walk_response, fresh_write_request, fresh_write_response,
}
use libkzr.Message.Session.{
  ErrorResponse, encode_error_response, decode_error_response, VersionMessage,
  encode_version_message, decode_version_message, AuthenticationRequest,
  encode_authentication_request, decode_authentication_request, AuthenticationResponse,
  encode_authentication_response, decode_authentication_response, FlushRequest,
  encode_flush_request, decode_flush_request, AttachRequest, encode_attach_request,
  decode_attach_request, AttachResponse, encode_attach_response, decode_attach_response,
}
use libkzr.Message.File.{
  WalkRequest, encode_walk_request, decode_walk_request, WalkResponse, encode_walk_response,
  decode_walk_response, OpenRequest, encode_open_request, decode_open_request, OpenOrCreateResponse,
  encode_open_or_create_response, decode_open_or_create_response, CreateRequest,
  encode_create_request, decode_create_request, FidRequest, encode_fid_request, decode_fid_request,
  ReadRequest, encode_read_request, decode_read_request, ReadResponse, encode_read_response,
  decode_read_response, WriteRequest, encode_write_request, decode_write_request, WriteResponse,
  encode_write_response, decode_write_response,
}
use libkzr.Message.Metadata.{
  StatResponse, encode_stat_response, decode_stat_response, WStatRequest, encode_wstat_request,
  decode_wstat_request,
}

pub data Interaction : Type 0 where
  of_response : Response → Interaction
  of_request : Request → Interaction

unfoldable pub encode_interaction : Interaction → OnStream (Unit {0})
encode_interaction (of_response r) = encode_response r
encode_interaction (of_request r) = encode_request r

-- `thing.emplace<A>()`, and then a decoder that puts its value there, or leaves what was emplaced.
unfoldable pub emplace :
    {A : Type 0}
    → (A → Interaction)
    → A
    → Outcome A × StringStream
    → Outcome (Unit {0}) × (Interaction × StringStream)
emplace wrap fresh (returns a, s) = (returns tt, (wrap a, s))
emplace wrap fresh (throws e, s) = (throws e, (wrap fresh, s))
emplace wrap fresh (undefined, s) = (undefined, (wrap fresh, s))

-- The interaction and the stream change together.
unfoldable pub decode_interaction_after :
    ArgumentOrder
    → Interaction
    → Outcome (Option Operation) × StringStream
    → Outcome (Unit {0}) × (Interaction × StringStream)
unfolding emplace
decode_interaction_after order thing (returns none, s) = (throws bad_state, (thing, s))
decode_interaction_after order thing (returns (some op), s) =
    if is_request op
    then emplace of_request fresh_request (decode_request order s)
    else emplace of_response fresh_response (decode_response order s)
decode_interaction_after order thing (throws e, s) = (throws e, (thing, s))
decode_interaction_after order thing (undefined, s) = (undefined, (thing, s))

unfoldable pub decode_interaction :
    ArgumentOrder → Interaction × StringStream → Outcome (Unit {0}) × (Interaction × StringStream)
unfolding decode_interaction_after
decode_interaction order (thing, s) = decode_interaction_after order thing (MessageStream.peek s)
