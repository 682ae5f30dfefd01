-- ===== src/Request.antt =====
-- The Request variant of Interaction.h, and its << and >> of Interaction.cc.
use libkzr.Prelude.{Option, none, some}
use libkzr.Outcome.{pure, throw, ◌>>=◌, undefined_request, illegal_type, bad_state}
use libkzr.Operations.{
  ConceptualOperation, Operation, request, response, convert, is_request, version, auth, attach,
  error, flush, walk, open_, create, read, write, clunk, remove, stat, wstat,
}
use libkzr.Operations
use libkzr.MessageStream
use libkzr.MessageStream.{OnStream, ArgumentOrder}
use libkzr.Message.Parts.{MessageHeader, fresh_header, encode_header, decode_header}
use libkzr.Message.Fresh.{
  fresh_attach_request, fresh_authentication_request, fresh_create_request, fresh_fid_request,
  fresh_flush_request, fresh_open_request, fresh_read_request, fresh_version_message,
  fresh_wstat_request, fresh_walk_request, fresh_write_request,
}
use libkzr.Message.Session.{
  VersionMessage, encode_version_message, decode_version_message, AuthenticationRequest,
  encode_authentication_request, decode_authentication_request, FlushRequest, encode_flush_request,
  decode_flush_request, AttachRequest, encode_attach_request, decode_attach_request,
}
use libkzr.Message.File.{
  WalkRequest, encode_walk_request, decode_walk_request, OpenRequest, encode_open_request,
  decode_open_request, CreateRequest, encode_create_request, decode_create_request, FidRequest,
  encode_fid_request, decode_fid_request, ReadRequest, encode_read_request, decode_read_request,
  WriteRequest, encode_write_request, decode_write_request,
}
use libkzr.Message.Metadata.{WStatRequest, encode_wstat_request, decode_wstat_request}

-- `undefined` stands first: it is what a variant holds at first.
pub data Request : Type 0 where
  blank_request : MessageHeader → Request
  version_request : VersionMessage → Request
  auth_request : AuthenticationRequest → Request
  attach_request : AttachRequest → Request
  error_request : MessageHeader → Request
  flush_request : FlushRequest → Request
  walk_request : WalkRequest → Request
  open_request : OpenRequest → Request
  create_request : CreateRequest → Request
  read_request : ReadRequest → Request
  write_request : WriteRequest → Request
  clunk_request : FidRequest → Request
  remove_request : FidRequest → Request
  stat_request : FidRequest → Request
  wstat_request : WStatRequest → Request

unfoldable pub fresh_request : Request
unfolding fresh_header
fresh_request = blank_request (fresh_header Operations.undefined request)

unfoldable pub encode_request : Request → OnStream (Unit {0})
encode_request (blank_request h) = throw undefined_request
encode_request (version_request m) = encode_version_message m
encode_request (auth_request m) = encode_authentication_request m
encode_request (attach_request m) = encode_attach_request m
encode_request (error_request m) = encode_header m
encode_request (flush_request m) = encode_flush_request m
encode_request (walk_request m) = encode_walk_request m
encode_request (open_request m) = encode_open_request m
encode_request (create_request m) = encode_create_request m
encode_request (read_request m) = encode_read_request m
encode_request (write_request m) = encode_write_request m
encode_request (clunk_request m) = encode_fid_request m
encode_request (remove_request m) = encode_fid_request m
encode_request (stat_request m) = encode_fid_request m
encode_request (wstat_request m) = encode_wstat_request m

-- One case of the switch: the alternative is emplaced and decoded into.
unfoldable pub decode_request_kind : ArgumentOrder → ConceptualOperation → OnStream Request
decode_request_kind order Operations.undefined = throw illegal_type
decode_request_kind order version = do
  m ← decode_version_message (fresh_version_message version request)
  pure (version_request m)
decode_request_kind order auth = do
  m ← decode_authentication_request fresh_authentication_request
  pure (auth_request m)
decode_request_kind order attach = do
  m ← decode_attach_request fresh_attach_request
  pure (attach_request m)
decode_request_kind order error = do
  m ← decode_header (fresh_header error request)
  pure (error_request m)
decode_request_kind order flush = do
  m ← decode_flush_request fresh_flush_request
  pure (flush_request m)
decode_request_kind order walk = do
  m ← decode_walk_request fresh_walk_request
  pure (walk_request m)
decode_request_kind order open_ = do
  m ← decode_open_request fresh_open_request
  pure (open_request m)
decode_request_kind order create = do
  m ← decode_create_request fresh_create_request
  pure (create_request m)
decode_request_kind order read = do
  m ← decode_read_request order fresh_read_request
  pure (read_request m)
decode_request_kind order write = do
  m ← decode_write_request order fresh_write_request
  pure (write_request m)
decode_request_kind order clunk = do
  m ← decode_fid_request (fresh_fid_request clunk request)
  pure (clunk_request m)
decode_request_kind order remove = do
  m ← decode_fid_request (fresh_fid_request remove request)
  pure (remove_request m)
decode_request_kind order stat = do
  m ← decode_fid_request (fresh_fid_request stat request)
  pure (stat_request m)
decode_request_kind order wstat = do
  m ← decode_wstat_request order fresh_wstat_request
  pure (wstat_request m)

unfoldable pub decode_request_after : ArgumentOrder → Option Operation → OnStream Request
unfolding decode_request_kind
decode_request_after order none = throw bad_state
decode_request_after order (some op) = decode_request_kind order (convert op)

-- If this throws, the variant that is decoded into keeps its value.
unfoldable pub decode_request : ArgumentOrder → OnStream Request
unfolding decode_request_after
decode_request order = do op ← MessageStream.peek; decode_request_after order op
