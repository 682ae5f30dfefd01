-- ===== src/Interaction/Wire.antt =====
-- The bytes of every message, what makes a message fit the wire, and what it is received as.
use libkzr.Prelude.{List, ◌≡◌, []}
use libkzr.Prelude.Bytes.{Byte}
use libkzr.Operations.{
  request, response, translate_concept, version, auth, attach, error, flush, walk, open_, create,
  read, write, clunk, remove, stat, wstat,
}
use libkzr.MessageStream.{ArgumentOrder}
use libkzr.Message.Parts.Wire.{IsHeader, header_bytes}
use libkzr.Message.Fresh.{
  fresh_attach_request, fresh_authentication_request, fresh_create_request, fresh_error_response,
  fresh_read_response, fresh_stat_response, fresh_version_message, fresh_wstat_request,
  fresh_walk_request, fresh_walk_response, fresh_write_request,
}
use libkzr.Message.Session.Wire.{
  IsErrorResponse, error_response_bytes, received_error_response, IsVersionMessage,
  version_message_bytes, received_version_message, IsAuthenticationRequest,
  authentication_request_bytes, received_authentication_request, IsAuthenticationResponse,
  authentication_response_bytes, received_authentication_response, IsFlushRequest,
  flush_request_bytes, IsAttachRequest, attach_request_bytes, received_attach_request,
  IsAttachResponse, attach_response_bytes, received_attach_response,
}
use libkzr.Message.File.Wire.{
  IsWalkRequest, walk_request_bytes, received_walk_request, IsWalkResponse, walk_response_bytes,
  received_walk_response, IsOpenRequest, open_request_bytes, IsOpenOrCreateResponse,
  open_or_create_response_bytes, received_open_or_create_response, IsCreateRequest,
  create_request_bytes, received_create_request, IsFidRequest, fid_request_bytes, IsReadRequest,
  read_request_bytes, received_read_request, IsReadResponse, read_response_bytes,
  received_read_response, IsWriteRequest, write_request_bytes, received_write_request,
  IsWriteResponse, write_response_bytes,
}
use libkzr.Message.Metadata.Wire.{
  IsStatResponse, stat_response_bytes, received_stat_response, IsWStatRequest, wstat_request_bytes,
  received_wstat_request,
}
use libkzr.Request.{
  Request, blank_request, version_request, auth_request, attach_request, error_request,
  flush_request, walk_request, open_request, create_request, read_request, write_request,
  clunk_request, remove_request, stat_request, wstat_request,
}
use libkzr.Response.{
  Response, blank_response, version_response, auth_response, attach_response, error_response,
  flush_response, walk_response, open_response, create_response, read_response, write_response,
  clunk_response, remove_response, stat_response, wstat_response,
}
use libkzr.Interaction.{Interaction, of_request, of_response}

unfoldable pub request_bytes : Request → List Byte
request_bytes (blank_request h) = []
request_bytes (version_request m) = version_message_bytes m
request_bytes (auth_request m) = authentication_request_bytes m
request_bytes (attach_request m) = attach_request_bytes m
request_bytes (error_request m) = header_bytes m
request_bytes (flush_request m) = flush_request_bytes m
request_bytes (walk_request m) = walk_request_bytes m
request_bytes (open_request m) = open_request_bytes m
request_bytes (create_request m) = create_request_bytes m
request_bytes (read_request m) = read_request_bytes m
request_bytes (write_request m) = write_request_bytes m
request_bytes (clunk_request m) = fid_request_bytes m
request_bytes (remove_request m) = fid_request_bytes m
request_bytes (stat_request m) = fid_request_bytes m
request_bytes (wstat_request m) = wstat_request_bytes m

-- The members fit their widths, and the header names the kind of the class.
abbrev pub IsRequest : Request → Type 0
IsRequest (blank_request h) = ⊥
IsRequest (version_request m) =
    IsVersionMessage m × (m.header.op ≡ translate_concept version request)
IsRequest (auth_request m) =
    IsAuthenticationRequest m × (m.header.op ≡ translate_concept auth request)
IsRequest (attach_request m) = IsAttachRequest m × (m.header.op ≡ translate_concept attach request)
IsRequest (error_request h) = IsHeader h × (h.op ≡ translate_concept error request)
IsRequest (flush_request m) = IsFlushRequest m × (m.header.op ≡ translate_concept flush request)
IsRequest (walk_request m) = IsWalkRequest m × (m.header.op ≡ translate_concept walk request)
IsRequest (open_request m) = IsOpenRequest m × (m.header.op ≡ translate_concept open_ request)
IsRequest (create_request m) = IsCreateRequest m × (m.header.op ≡ translate_concept create request)
IsRequest (read_request m) = IsReadRequest m × (m.header.op ≡ translate_concept read request)
IsRequest (write_request m) = IsWriteRequest m × (m.header.op ≡ translate_concept write request)
IsRequest (clunk_request m) = IsFidRequest m × (m.header.op ≡ translate_concept clunk request)
IsRequest (remove_request m) = IsFidRequest m × (m.header.op ≡ translate_concept remove request)
IsRequest (stat_request m) = IsFidRequest m × (m.header.op ≡ translate_concept stat request)
IsRequest (wstat_request m) = IsWStatRequest m × (m.header.op ≡ translate_concept wstat request)

unfoldable pub received_request : ArgumentOrder → Request → Request
received_request order (blank_request h) = blank_request h
received_request order (version_request m) =
    version_request (received_version_message (fresh_version_message version request) m)
received_request order (auth_request m) =
    auth_request (received_authentication_request fresh_authentication_request m)
received_request order (attach_request m) =
    attach_request (received_attach_request fresh_attach_request m)
received_request order (error_request m) = error_request m
received_request order (flush_request m) = flush_request m
received_request order (walk_request m) = walk_request (received_walk_request fresh_walk_request m)
received_request order (open_request m) = open_request m
received_request order (create_request m) =
    create_request (received_create_request fresh_create_request m)
received_request order (read_request m) = read_request (received_read_request order m)
received_request order (write_request m) =
    write_request (received_write_request order fresh_write_request m)
received_request order (clunk_request m) = clunk_request m
received_request order (remove_request m) = remove_request m
received_request order (stat_request m) = stat_request m
received_request order (wstat_request m) =
    wstat_request (received_wstat_request order fresh_wstat_request m)

unfoldable pub response_bytes : Response → List Byte
response_bytes (blank_response h) = []
response_bytes (version_response m) = version_message_bytes m
response_bytes (auth_response m) = authentication_response_bytes m
response_bytes (attach_response m) = attach_response_bytes m
response_bytes (error_response m) = error_response_bytes m
response_bytes (flush_response m) = header_bytes m
response_bytes (walk_response m) = walk_response_bytes m
response_bytes (open_response m) = open_or_create_response_bytes m
response_bytes (create_response m) = open_or_create_response_bytes m
response_bytes (read_response m) = read_response_bytes m
response_bytes (write_response m) = write_response_bytes m
response_bytes (clunk_response m) = header_bytes m
response_bytes (remove_response m) = header_bytes m
response_bytes (stat_response m) = stat_response_bytes m
response_bytes (wstat_response m) = header_bytes m

-- The members fit their widths, and the header names the kind of the class.
abbrev pub IsResponse : Response → Type 0
IsResponse (blank_response h) = ⊥
IsResponse (version_response m) =
    IsVersionMessage m × (m.header.op ≡ translate_concept version response)
IsResponse (auth_response m) =
    IsAuthenticationResponse m × (m.header.op ≡ translate_concept auth response)
IsResponse (attach_response m) =
    IsAttachResponse m × (m.header.op ≡ translate_concept attach response)
IsResponse (error_response m) = IsErrorResponse m × (m.header.op ≡ translate_concept error response)
IsResponse (flush_response h) = IsHeader h × (h.op ≡ translate_concept flush response)
IsResponse (walk_response m) = IsWalkResponse m × (m.header.op ≡ translate_concept walk response)
IsResponse (open_response m) =
    IsOpenOrCreateResponse m × (m.header.op ≡ translate_concept open_ response)
IsResponse (create_response m) =
    IsOpenOrCreateResponse m × (m.header.op ≡ translate_concept create response)
IsResponse (read_response m) = IsReadResponse m × (m.header.op ≡ translate_concept read response)
IsResponse (write_response m) = IsWriteResponse m × (m.header.op ≡ translate_concept write response)
IsResponse (clunk_response h) = IsHeader h × (h.op ≡ translate_concept clunk response)
IsResponse (remove_response h) = IsHeader h × (h.op ≡ translate_concept remove response)
IsResponse (stat_response m) = IsStatResponse m × (m.header.op ≡ translate_concept stat response)
IsResponse (wstat_response h) = IsHeader h × (h.op ≡ translate_concept wstat response)

unfoldable pub received_response : ArgumentOrder → Response → Response
received_response order (blank_response h) = blank_response h
received_response order (version_response m) =
    version_response (received_version_message (fresh_version_message version response) m)
received_response order (auth_response m) = auth_response (received_authentication_response order m)
received_response order (attach_response m) = attach_response (received_attach_response order m)
received_response order (error_response m) =
    error_response (received_error_response fresh_error_response m)
received_response order (flush_response m) = flush_response m
received_response order (walk_response m) =
    walk_response (received_walk_response order fresh_walk_response m)
received_response order (open_response m) = open_response (received_open_or_create_response order m)
received_response order (create_response m) =
    create_response (received_open_or_create_response order m)
received_response order (read_response m) =
    read_response (received_read_response fresh_read_response m)
received_response order (write_response m) = write_response m
received_response order (clunk_response m) = clunk_response m
received_response order (remove_response m) = remove_response m
received_response order (stat_response m) =
    stat_response (received_stat_response fresh_stat_response m)
received_response order (wstat_response m) = wstat_response m

unfoldable pub interaction_bytes : Interaction → List Byte
interaction_bytes (of_response r) = response_bytes r
interaction_bytes (of_request r) = request_bytes r

abbrev pub IsInteraction : Interaction → Type 0
IsInteraction (of_response r) = IsResponse r
IsInteraction (of_request r) = IsRequest r

unfoldable pub received_interaction : ArgumentOrder → Interaction → Interaction
received_interaction order (of_response r) = of_response (received_response order r)
received_interaction order (of_request r) = of_request (received_request order r)
