-- ===== src/Interaction/Tagged.antt =====
-- What an interaction is after it was decoded: the operation in its header and the alternative that the
-- variant holds belong together.
pub mod Kinds
pub mod Decode
use libkzr.Prelude.{
  zero, suc, ◌<◌, ◌≡◌, refl, true, false, List, [], ◌∷◌, Bool-cases, inl, inr, arith,
}
use libkzr.Prelude.Bytes.{Byte}
use libkzr.Outcome.{Outcome, returns, throws, undefined, illegal_type, ◌>>=◌}
use libkzr.Outcome.Yields.{Holds, YieldsAt, Yields-pure, Yields-throw, YieldsAt->>=, YieldsAt-map}
use libkzr.Operations
use libkzr.Operations.{
  ConceptualOperation, Operation, convert, is_request, is_response, request, response, version,
  auth, attach, error, flush, walk, open_, create, read, write, clunk, remove, stat, wstat,
}
use libkzr.Operations.Codes.{is_undefined}
use libkzr.StringStream
use libkzr.StringStream.{StringStream, good}
use libkzr.MessageStream.{ArgumentOrder, decode_u8}
use libkzr.MessageStream.Storage.{peek_front, peek_flagged}
use libkzr.Message.Parts.{MessageHeader, fresh_header, decode_operation}
use libkzr.Message.Fresh.{
  fresh_attach_request, fresh_attach_response, fresh_authentication_request,
  fresh_authentication_response, fresh_create_request, fresh_error_response, fresh_fid_request,
  fresh_flush_request, fresh_open_or_create_response, fresh_open_request, fresh_read_request,
  fresh_read_response, fresh_stat_response, fresh_version_message, fresh_wstat_request,
  fresh_walk_request, fresh_walk_response, fresh_write_request, fresh_write_response,
}
use libkzr.Message.Operation.{
  decode_attach_request-op, decode_attach_response-op, decode_authentication_request-op,
  decode_authentication_response-op, decode_create_request-op, decode_error_response-op,
  decode_fid_request-op, decode_flush_request-op, decode_header-op,
  decode_open_or_create_response-op, decode_open_request-op, decode_read_request-op,
  decode_read_response-op, decode_stat_response-op, decode_version_message-op,
  decode_walk_request-op, decode_walk_response-op, decode_write_request-op,
  decode_write_response-op, decode_wstat_request-op,
}
use libkzr.Request.{
  Request, blank_request, fresh_request, decode_request_kind, decode_request, version_request,
  auth_request, attach_request, error_request, flush_request, walk_request, open_request,
  create_request, read_request, write_request, clunk_request, remove_request, stat_request,
  wstat_request,
}
use libkzr.Response.{
  Response, blank_response, fresh_response, decode_response_kind, decode_response, version_response,
  auth_response, attach_response, error_response, flush_response, walk_response, open_response,
  create_response, read_response, write_response, clunk_response, remove_response, stat_response,
  wstat_response,
}
use libkzr.Interaction.{Interaction, of_request, of_response, emplace, decode_interaction}
use libkzr.Interaction.Decode.{request_kind, response_kind}
use libkzr.Interaction.Refusals.{decode_interaction_zero, decode_interaction_end}

-- What `getOperation` of the alternative looks at.
unfoldable pub request_header : Request → MessageHeader
request_header (blank_request h) = h
request_header (version_request m) = m.header
request_header (auth_request m) = m.header
request_header (attach_request m) = m.header
request_header (error_request m) = m
request_header (flush_request m) = m.header
request_header (walk_request m) = m.header
request_header (open_request m) = m.header
request_header (create_request m) = m.header
request_header (read_request m) = m.header
request_header (write_request m) = m.header
request_header (clunk_request m) = m.header
request_header (remove_request m) = m.header
request_header (stat_request m) = m.header
request_header (wstat_request m) = m.header

unfoldable pub response_header : Response → MessageHeader
response_header (blank_response h) = h
response_header (version_response m) = m.header
response_header (auth_response m) = m.header
response_header (attach_response m) = m.header
response_header (error_response m) = m.header
response_header (flush_response m) = m
response_header (walk_response m) = m.header
response_header (open_response m) = m.header
response_header (create_response m) = m.header
response_header (read_response m) = m.header
response_header (write_response m) = m.header
response_header (clunk_response m) = m
response_header (remove_response m) = m
response_header (stat_response m) = m.header
response_header (wstat_response m) = m

-- The operation in the header is of the direction and the known kind of the alternative.
unfoldable pub IsTagged : Interaction → Type 0
IsTagged (of_request r) =
    (is_request (request_header r).op ≡ true)
    × (convert (request_header r).op ≡ request_kind r)
    × (is_undefined (request_kind r) ≡ false)
IsTagged (of_response r) =
    (is_request (response_header r).op ≡ false)
    × (convert (response_header r).op ≡ response_kind r)
    × (is_undefined (response_kind r) ≡ false)
