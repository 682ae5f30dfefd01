-- ===== src/Response.antt =====
-- The Response variant of Interaction.h, and its << and >> of Interaction.cc.
use libkzr.Prelude.{Option, none, some}
use libkzr.Outcome.{pure, throw, ◌>>=◌, undefined_response, illegal_type, bad_state}
use libkzr.Operations.{
  ConceptualOperation, Operation, request, response, convert, is_request, version, auth, attach,
  error, flush, walk, open_, create, read, write, clunk, remove, stat, wstat,
}
use libkzr.Operations
use libkzr.MessageStream
use libkzr.MessageStream.{OnStream, ArgumentOrder}
use libkzr.Message.Parts.{MessageHeader, fresh_header, encode_header, decode_header}
use libkzr.Message.Fresh.{
  fresh_attach_response, fresh_authentication_response, fresh_error_response,
  fresh_open_or_create_response, fresh_read_response, fresh_stat_response, fresh_version_message,
  fresh_walk_response, fresh_write_response,
}
use libkzr.Message.Session.{
  ErrorResponse, encode_error_response, decode_error_response, VersionMessage,
  encode_version_message, decode_version_message, AuthenticationResponse,
  encode_authentication_response, decode_authentication_response, AttachResponse,
  encode_attach_response, decode_attach_response,
}
use libkzr.Message.File.{
  WalkResponse, encode_walk_response, decode_walk_response, OpenOrCreateResponse,
  encode_open_or_create_response, decode_open_or_create_response, ReadResponse,
  encode_read_response, decode_read_response, WriteResponse, encode_write_response,
  decode_write_response,
}
use libkzr.Message.Metadata.{StatResponse, encode_stat_response, decode_stat_response}

-- `undefined` stands first: it is what a variant holds at first.
pub data Response : Type 0 where
  blank_response : MessageHeader → Response
  version_response : VersionMessage → Response
  auth_response : AuthenticationResponse → Response
  attach_response : AttachResponse → Response
  error_response : ErrorResponse → Response
  flush_response : MessageHeader → Response
  walk_response : WalkResponse → Response
  open_response : OpenOrCreateResponse → Response
  create_response : OpenOrCreateResponse → Response
  read_response : ReadResponse → Response
  write_response : WriteResponse → Response
  clunk_response : MessageHeader → Response
  remove_response : MessageHeader → Response
  stat_response : StatResponse → Response
  wstat_response : MessageHeader → Response

unfoldable pub fresh_response : Response
unfolding fresh_header
fresh_response = blank_response (fresh_header Operations.undefined response)

unfoldable pub encode_response : Response → OnStream (Unit {0})
encode_response (blank_response h) = throw undefined_response
encode_response (version_response m) = encode_version_message m
encode_response (auth_response m) = encode_authentication_response m
encode_response (attach_response m) = encode_attach_response m
encode_response (error_response m) = encode_error_response m
encode_response (flush_response m) = encode_header m
encode_response (walk_response m) = encode_walk_response m
encode_response (open_response m) = encode_open_or_create_response m
encode_response (create_response m) = encode_open_or_create_response m
encode_response (read_response m) = encode_read_response m
encode_response (write_response m) = encode_write_response m
encode_response (clunk_response m) = encode_header m
encode_response (remove_response m) = encode_header m
encode_response (stat_response m) = encode_stat_response m
encode_response (wstat_response m) = encode_header m

-- One case of the switch: the alternative is emplaced and decoded into.
unfoldable pub decode_response_kind : ArgumentOrder → ConceptualOperation → OnStream Response
decode_response_kind order Operations.undefined = throw illegal_type
decode_response_kind order version = do
  m ← decode_version_message (fresh_version_message version response)
  pure (version_response m)
decode_response_kind order auth = do
  m ← decode_authentication_response order fresh_authentication_response
  pure (auth_response m)
decode_response_kind order attach = do
  m ← decode_attach_response order fresh_attach_response
  pure (attach_response m)
decode_response_kind order error = do
  m ← decode_error_response fresh_error_response
  pure (error_response m)
decode_response_kind order flush = do
  m ← decode_header (fresh_header flush response)
  pure (flush_response m)
decode_response_kind order walk = do
  m ← decode_walk_response order fresh_walk_response
  pure (walk_response m)
decode_response_kind order open_ = do
  m ← decode_open_or_create_response order (fresh_open_or_create_response open_ response)
  pure (open_response m)
decode_response_kind order create = do
  m ← decode_open_or_create_response order (fresh_open_or_create_response create response)
  pure (create_response m)
decode_response_kind order read = do
  m ← decode_read_response fresh_read_response
  pure (read_response m)
decode_response_kind order write = do
  m ← decode_write_response fresh_write_response
  pure (write_response m)
decode_response_kind order clunk = do
  m ← decode_header (fresh_header clunk response)
  pure (clunk_response m)
decode_response_kind order remove = do
  m ← decode_header (fresh_header remove response)
  pure (remove_response m)
decode_response_kind order stat = do
  m ← decode_stat_response fresh_stat_response
  pure (stat_response m)
decode_response_kind order wstat = do
  m ← decode_header (fresh_header wstat response)
  pure (wstat_response m)

unfoldable pub decode_response_after : ArgumentOrder → Option Operation → OnStream Response
unfolding decode_response_kind
decode_response_after order none = throw bad_state
decode_response_after order (some op) = decode_response_kind order (convert op)

-- If this throws, the variant that is decoded into keeps its value.
unfoldable pub decode_response : ArgumentOrder → OnStream Response
unfolding decode_response_after
decode_response order = do op ← MessageStream.peek; decode_response_after order op
