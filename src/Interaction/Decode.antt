-- ===== src/Interaction/Decode.antt =====
-- The decoders of Interaction.cc read back the message in the variant.
use libkzr.Operations.{
  ConceptualOperation, MessageDirection, request, response, translate_concept, convert, version,
  auth, attach, error, flush, walk, open_, create, read, write, clunk, remove, stat, wstat,
}
use libkzr.Operations
use libkzr.StringStream.Frame.{Reads, Reads-pure}
use libkzr.MessageStream.{ArgumentOrder}
use libkzr.Message.Parts.{fresh_header}
use libkzr.Message.Parts.Codec.{decode_header-Reads}
use libkzr.Message.Fresh.{
  fresh_attach_request, fresh_attach_response, fresh_authentication_request,
  fresh_authentication_response, fresh_create_request, fresh_error_response, fresh_fid_request,
  fresh_flush_request, fresh_open_or_create_response, fresh_open_request, fresh_read_request,
  fresh_read_response, fresh_stat_response, fresh_version_message, fresh_wstat_request,
  fresh_walk_request, fresh_walk_response, fresh_write_request, fresh_write_response,
}
use libkzr.Message.Session.Codec.{
  decode_error_response-Reads, decode_version_message-Reads, decode_authentication_request-Reads,
  decode_authentication_response-Reads, decode_flush_request-Reads, decode_attach_request-Reads,
  decode_attach_response-Reads,
}
use libkzr.Message.File.Codec.{
  decode_walk_request-Reads, decode_walk_response-Reads, decode_open_request-Reads,
  decode_open_or_create_response-Reads, decode_create_request-Reads, decode_fid_request-Reads,
  decode_read_request-Reads, decode_read_response-Reads, decode_write_request-Reads,
  decode_write_response-Reads,
}
use libkzr.Message.Metadata.Codec.{decode_stat_response-Reads, decode_wstat_request-Reads}
use libkzr.Request.{
  Request, blank_request, decode_request_kind, version_request, auth_request, attach_request,
  error_request, flush_request, walk_request, open_request, create_request, read_request,
  write_request, clunk_request, remove_request, stat_request, wstat_request,
}
use libkzr.Response.{
  Response, blank_response, decode_response_kind, version_response, auth_response, attach_response,
  error_response, flush_response, walk_response, open_response, create_response, read_response,
  write_response, clunk_response, remove_response, stat_response, wstat_response,
}
use libkzr.Interaction.Wire.{
  IsRequest, IsResponse, request_bytes, response_bytes, received_request, received_response,
}

-- The case of the switch for a message's own kind.
unfoldable pub request_kind : Request → ConceptualOperation
request_kind (blank_request h) = Operations.undefined
request_kind (version_request m) = version
request_kind (auth_request m) = auth
request_kind (attach_request m) = attach
request_kind (error_request m) = error
request_kind (flush_request m) = flush
request_kind (walk_request m) = walk
request_kind (open_request m) = open_
request_kind (create_request m) = create
request_kind (read_request m) = read
request_kind (write_request m) = write
request_kind (clunk_request m) = clunk
request_kind (remove_request m) = remove
request_kind (stat_request m) = stat
request_kind (wstat_request m) = wstat

pub decode_request_kind-Reads :
    (order : ArgumentOrder) (r : Request)
    → IsRequest r
    → Reads
        (decode_request_kind order (request_kind r))
        (request_bytes r)
        (received_request order r)
unfolding decode_request_kind request_kind request_bytes received_request
decode_request_kind-Reads order (blank_request h) w = absurd w
decode_request_kind-Reads order (version_request m) w =
    Reads-pure version_request
      (decode_version_message-Reads (fresh_version_message version request) m w.0)
decode_request_kind-Reads order (auth_request m) w =
    Reads-pure auth_request (decode_authentication_request-Reads fresh_authentication_request m w.0)
decode_request_kind-Reads order (attach_request m) w =
    Reads-pure attach_request (decode_attach_request-Reads fresh_attach_request m w.0)
decode_request_kind-Reads order (error_request m) w =
    Reads-pure error_request (decode_header-Reads (fresh_header error request) m w.0)
decode_request_kind-Reads order (flush_request m) w =
    Reads-pure flush_request (decode_flush_request-Reads fresh_flush_request m w.0)
decode_request_kind-Reads order (walk_request m) w =
    Reads-pure walk_request (decode_walk_request-Reads fresh_walk_request m w.0)
decode_request_kind-Reads order (open_request m) w =
    Reads-pure open_request (decode_open_request-Reads fresh_open_request m w.0)
decode_request_kind-Reads order (create_request m) w =
    Reads-pure create_request (decode_create_request-Reads fresh_create_request m w.0)
decode_request_kind-Reads order (read_request m) w =
    Reads-pure read_request (decode_read_request-Reads order fresh_read_request m w.0)
decode_request_kind-Reads order (write_request m) w =
    Reads-pure write_request (decode_write_request-Reads order fresh_write_request m w.0)
decode_request_kind-Reads order (clunk_request m) w =
    Reads-pure clunk_request (decode_fid_request-Reads (fresh_fid_request clunk request) m w.0)
decode_request_kind-Reads order (remove_request m) w =
    Reads-pure remove_request (decode_fid_request-Reads (fresh_fid_request remove request) m w.0)
decode_request_kind-Reads order (stat_request m) w =
    Reads-pure stat_request (decode_fid_request-Reads (fresh_fid_request stat request) m w.0)
decode_request_kind-Reads order (wstat_request m) w =
    Reads-pure wstat_request (decode_wstat_request-Reads order fresh_wstat_request m w.0)

-- The case of the switch for a message's own kind.
unfoldable pub response_kind : Response → ConceptualOperation
response_kind (blank_response h) = Operations.undefined
response_kind (version_response m) = version
response_kind (auth_response m) = auth
response_kind (attach_response m) = attach
response_kind (error_response m) = error
response_kind (flush_response m) = flush
response_kind (walk_response m) = walk
response_kind (open_response m) = open_
response_kind (create_response m) = create
response_kind (read_response m) = read
response_kind (write_response m) = write
response_kind (clunk_response m) = clunk
response_kind (remove_response m) = remove
response_kind (stat_response m) = stat
response_kind (wstat_response m) = wstat

pub decode_response_kind-Reads :
    (order : ArgumentOrder) (r : Response)
    → IsResponse r
    → Reads
        (decode_response_kind order (response_kind r))
        (response_bytes r)
        (received_response order r)
unfolding decode_response_kind response_kind response_bytes received_response
decode_response_kind-Reads order (blank_response h) w = absurd w
decode_response_kind-Reads order (version_response m) w =
    Reads-pure version_response
      (decode_version_message-Reads (fresh_version_message version response) m w.0)
decode_response_kind-Reads order (auth_response m) w =
    Reads-pure auth_response
      (decode_authentication_response-Reads order fresh_authentication_response m w.0)
decode_response_kind-Reads order (attach_response m) w =
    Reads-pure attach_response (decode_attach_response-Reads order fresh_attach_response m w.0)
decode_response_kind-Reads order (error_response m) w =
    Reads-pure error_response (decode_error_response-Reads fresh_error_response m w.0)
decode_response_kind-Reads order (flush_response m) w =
    Reads-pure flush_response (decode_header-Reads (fresh_header flush response) m w.0)
decode_response_kind-Reads order (walk_response m) w =
    Reads-pure walk_response (decode_walk_response-Reads order fresh_walk_response m w.0)
decode_response_kind-Reads order (open_response m) w = Reads-pure open_response (
    decode_open_or_create_response-Reads order (fresh_open_or_create_response open_ response) m w.0)
decode_response_kind-Reads order (create_response m) w = Reads-pure create_response (
    decode_open_or_create_response-Reads order (fresh_open_or_create_response create response) m
      w.0)
decode_response_kind-Reads order (read_response m) w =
    Reads-pure read_response (decode_read_response-Reads fresh_read_response m w.0)
decode_response_kind-Reads order (write_response m) w =
    Reads-pure write_response (decode_write_response-Reads fresh_write_response m w.0)
decode_response_kind-Reads order (clunk_response m) w =
    Reads-pure clunk_response (decode_header-Reads (fresh_header clunk response) m w.0)
decode_response_kind-Reads order (remove_response m) w =
    Reads-pure remove_response (decode_header-Reads (fresh_header remove response) m w.0)
decode_response_kind-Reads order (stat_response m) w =
    Reads-pure stat_response (decode_stat_response-Reads fresh_stat_response m w.0)
decode_response_kind-Reads order (wstat_response m) w =
    Reads-pure wstat_response (decode_header-Reads (fresh_header wstat response) m w.0)
